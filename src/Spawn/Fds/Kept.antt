-- ===== src/Spawn/Fds/Kept.antt =====
-- `stash_file_descriptors` and `unstash_file_descriptors` of ports/nacl-spawn/nacl_spawn.cc keep the
-- descriptors of a process across `vfork`.
use webports.Prelude.{
  ℕ, zero, suc, ◌+◌, ◌<◌, ◌≤◌, Bool, true, false, Option, none, some, ◌≡◌, ◌≢◌, refl, ap, sym, ◌∙◌,
  arith, inl, inr, Option-cases, le_cases, subst,
}
use webports.Spawn.Fds.{
  Descriptors, max_file_descriptor, stash_from, stash_file_descriptors, restore_one, unstash_from,
  unstash_file_descriptors,
}

-- What is documented of the calls, where `holds k fd` is the open file of the descriptor.
pub record IsTable {K F : Type 0} (calls : Descriptors K) (holds : K → ℕ → Option F) : Type 0 where
  pub dup2-open : (a b : ℕ) (k : K) (f : F) → holds k a ≡ some f → (calls.dup2 a b k).0 ≡ true
  pub dup2-holds :
      (a b : ℕ) (k : K) (f : F) → holds k a ≡ some f → holds (calls.dup2 a b k).1 b ≡ some f
  pub dup2-other : (a b x : ℕ) (k : K) → x ≢ b → holds (calls.dup2 a b k).1 x ≡ holds k x
  pub dup2-fails : (a b : ℕ) (k : K) → holds k a ≡ none → calls.dup2 a b k ≡ (false, k)
  pub close-other : (a x : ℕ) (k : K) → x ≢ a → holds (calls.close a k) x ≡ holds k x

abbrev pub or_kept {ℓ} : {F : Type ℓ} → Option F → Option F → Option F
or_kept (some f) old = some f
or_kept none old = old

module _ {K F : Type 0} (calls : Descriptors K) (holds : K → ℕ → Option F)
    (laws : IsTable calls holds) where
  dup2_lem : (a b : ℕ) (k : K) → holds (calls.dup2 a b k).1 b ≡ or_kept (holds k a) (holds k b)
  dup2_lem a b k = elim (Option-cases (holds k a)) [
    | inl e ↦
        ap (λ (r : Bool × K). holds r.1 b) (laws.dup2-fails a b k e)
        ∙ ap (λ o. or_kept o (holds k b)) (sym e)
    | inr (f, e) ↦ laws.dup2-holds a b k f e ∙ ap (λ o. or_kept o (holds k b)) (sym e)
  ]

  -- A number below those that the loop writes.
  stash_from-below :
      (rounds fd x : ℕ) (k : K)
      → x < fd + max_file_descriptor
      → holds (stash_from calls rounds fd k) x ≡ holds k x
  unfolding stash_from
  stash_from-below zero fd x k h = refl
  stash_from-below (suc rounds) fd x k h =
      stash_from-below rounds (fd + 1) x (calls.dup2 fd (fd + max_file_descriptor) k).1
        (omega arith)
      ∙ laws.dup2-other fd (fd + max_file_descriptor) x k (λ e. omega arith)

  stash_from-at :
      (rounds fd x : ℕ) (k : K)
      → fd ≤ x
      → x < fd + rounds
      → x < max_file_descriptor
      → holds (stash_from calls rounds fd k) (x + max_file_descriptor)
        ≡ or_kept (holds k x) (holds k (x + max_file_descriptor))
  unfolding stash_from
  stash_from-at zero fd x k a b c = absurd (omega arith)
  stash_from-at (suc rounds) fd x k a b c =
      let m = max_file_descriptor in
      let k1 = (calls.dup2 fd (fd + m) k).1 in
      elim (le_cases fd x a) [
        | inl e ↦
            subst
              (λ y.
                holds (stash_from calls rounds (fd + 1) k1) (y + m)
                ≡ or_kept (holds k y) (holds k (y + m)))
              (sym e)
              (stash_from-below rounds (fd + 1) (fd + m) k1 (omega arith) ∙ dup2_lem fd (fd + m) k)
        | inr l ↦
            let s : holds k1 x ≡ holds k x = laws.dup2-other fd (fd + m) x k (λ e. omega arith) in
            let t : holds k1 (x + m) ≡ holds k (x + m) =
              laws.dup2-other fd (fd + m) (x + m) k (λ e. omega arith) in
            stash_from-at rounds (fd + 1) x k1 l (omega arith) c
            ∙ ap (λ o. or_kept o (holds k1 (x + m))) s
            ∙ ap (λ o. or_kept (holds k x) o) t
      ]

  restore_one-other :
      (alt_fd : ℕ) (r : Bool × K) (x : ℕ)
      → x ≢ alt_fd
      → holds (restore_one calls alt_fd r) x ≡ holds r.1 x
  unfolding restore_one
  restore_one-other alt_fd (true, k) x n = laws.close-other alt_fd x k n
  restore_one-other alt_fd (false, k) x n = refl

  -- A number below those that the loop of `unstash_file_descriptors` writes.
  unstash_from-below :
      (rounds fd x : ℕ) (k : K) → x < fd → holds (unstash_from calls rounds fd k) x ≡ holds k x
  unfolding unstash_from
  unstash_from-below zero fd x k h = refl
  unstash_from-below (suc rounds) fd x k h =
      let alt_fd = fd + max_file_descriptor in
      unstash_from-below rounds (fd + 1) x (restore_one calls alt_fd (calls.dup2 alt_fd fd k))
        (omega arith)
      ∙ restore_one-other alt_fd (calls.dup2 alt_fd fd k) x (λ e. omega arith)
      ∙ laws.dup2-other alt_fd fd x k (λ e. omega arith)

  unstash_from-at :
      (rounds fd x : ℕ) (k : K)
      → fd ≤ x
      → x < fd + rounds
      → rounds ≤ max_file_descriptor
      → fd + rounds ≤ max_file_descriptor
      → holds (unstash_from calls rounds fd k) x
        ≡ or_kept (holds k (x + max_file_descriptor)) (holds k x)
  unfolding unstash_from
  unstash_from-at zero fd x k a b c d = absurd (omega arith)
  unstash_from-at (suc rounds) fd x k a b c d =
      let m = max_file_descriptor in
      let k0 = calls.dup2 (fd + m) fd k in
      let k1 = restore_one calls (fd + m) k0 in
      elim (le_cases fd x a) [
        | inl e ↦
            subst
              (λ y.
                holds (unstash_from calls rounds (fd + 1) k1) y
                ≡ or_kept (holds k (y + m)) (holds k y))
              (sym e)
              (unstash_from-below rounds (fd + 1) fd k1 (omega arith)
                ∙ restore_one-other (fd + m) k0 fd (λ q. omega arith)
                ∙ dup2_lem (fd + m) fd k)
        | inr l ↦
            let s : holds k1 x ≡ holds k x =
              restore_one-other (fd + m) k0 x (λ q. omega arith)
              ∙ laws.dup2-other (fd + m) fd x k (λ q. omega arith) in
            let t : holds k1 (x + m) ≡ holds k (x + m) =
              restore_one-other (fd + m) k0 (x + m) (λ q. omega arith)
              ∙ laws.dup2-other (fd + m) fd (x + m) k (λ q. omega arith) in
            unstash_from-at rounds (fd + 1) x k1 l (omega arith) (omega arith) (omega arith)
            ∙ ap (λ o. or_kept o (holds k1 x)) t
            ∙ ap (λ o. or_kept (holds k (x + m)) o) s
      ]

  -- If the calls are as documented, a descriptor that was open at `vfork` is the same open file
  -- behind it, whatever the child did with the descriptors below the limit in between; the state
  -- `between` is the one before `unstash_file_descriptors`, with the copies as they were made. The
  -- number of the descriptor is below the limit, and no file was open at that of its copy.
  pub unstash-stash :
      (k between : K) (fd : ℕ) (f : F)
      → fd < max_file_descriptor
      → holds k (fd + max_file_descriptor) ≡ none
      → holds between (fd + max_file_descriptor)
        ≡ holds (stash_file_descriptors calls k) (fd + max_file_descriptor)
      → holds k fd ≡ some f
      → holds (unstash_file_descriptors calls between) fd ≡ some f
  unfolding stash_file_descriptors unstash_file_descriptors
  unstash-stash k between fd f l n same e =
      let m = max_file_descriptor in
      let copy : holds between (fd + m) ≡ some f =
        same
        ∙ stash_from-at m 0 fd k (omega arith) (omega arith) l
        ∙ ap (λ o. or_kept o (holds k (fd + m))) e in
      unstash_from-at m 0 fd between (omega arith) (omega arith) (omega arith) (omega arith)
      ∙ ap (λ o. or_kept o (holds between fd)) copy
