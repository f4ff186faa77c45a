-- ===== src/Spawn/Fds/Inherit.antt =====
-- A new process opens the pipes that its parent passes on: `CloneFileDescriptors` of
-- ports/nacl-spawn/nacl_spawn.cc and `restore_pipes` of nacl_setup_env.c.
pub mod Round
pub mod Whole
use webports.Prelude.{
  ℕ, zero, suc, ◌+◌, ◌<◌, ◌≤◌, ℤ, pos, negsuc, eq_int, is_negative, Bool, true, false, not, ◌&&◌,
  List, [], ◌∷◌, ◌++◌, length, length-append, Option, none, some, ltb, leb, ◌==◌, if◌then◌else◌,
  ◌≡◌, ◌≢◌, ◌⊎◌, inl, inr, refl, ap, sym, ◌∙◌, arith, Text, All, Fresh, Distinct, Among, All-Among,
  Bool-cases, Option-cases, subst, append_assoc, map, ==_iff, ==_refl,
}
use webports.Spawn.Pipes.{
  OldPipe, Library, Restored, restored, find_pipe, place_pipe, restore_new, restore_found,
  restore_scanned, restore_entry, restore_loop, restore_pipes, max_old_pipes,
}

-- What a descriptor is: a pipe's port, and whether it is open for writing.
abbrev pub End : Type 0
End = ℤ × Bool

abbrev pub end_of : OldPipe → End
end_of r = (r.port, not (eq_int r.writer (pos 0)))

-- What the C library documents: entries of the environment are changed only by `unsetenv`, and
-- `open`, `dup2` and `close` do what they say to the descriptors, `holds k fd`.
pub record IsChild {K : Type 0} (lib : Library K) (holds : K → ℤ → Option End) : Type 0 where
  pub unset-setup : (m n : ℕ) (k : K) → m ≢ n → lib.setup m (lib.unset n k) ≡ lib.setup m k
  pub unset-holds : (n : ℕ) (fd : ℤ) (k : K) → holds (lib.unset n k) fd ≡ holds k fd
  pub open-setup :
      (n : ℕ) (port : ℤ) (w : Bool) (k : K) → lib.setup n (lib.open_pipe port w k).0 ≡ lib.setup n k
  pub dup2-setup : (n : ℕ) (a b : ℤ) (k : K) → lib.setup n (lib.dup2 a b k) ≡ lib.setup n k
  pub close-setup : (n : ℕ) (a : ℤ) (k : K) → lib.setup n (lib.close a k) ≡ lib.setup n k
  pub open-valid : (port : ℤ) (w : Bool) (k : K) → is_negative (lib.open_pipe port w k).1 ≡ false
  pub open-new : (port : ℤ) (w : Bool) (k : K) → holds k (lib.open_pipe port w k).1 ≡ none
  pub open-holds :
      (port : ℤ) (w : Bool) (k : K)
      → holds (lib.open_pipe port w k).0 (lib.open_pipe port w k).1 ≡ some (port, w)
  pub open-other :
      (port : ℤ) (w : Bool) (k : K) (fd : ℤ)
      → fd ≢ (lib.open_pipe port w k).1
      → holds (lib.open_pipe port w k).0 fd ≡ holds k fd
  pub dup2-holds :
      (a b : ℤ) (k : K) (e : End) → holds k a ≡ some e → holds (lib.dup2 a b k) b ≡ some e
  pub dup2-other : (a b fd : ℤ) (k : K) → fd ≢ b → holds (lib.dup2 a b k) fd ≡ holds k fd
  pub close-other : (a fd : ℤ) (k : K) → fd ≢ a → holds (lib.close a k) fd ≡ holds k fd

abbrev pub fds : List OldPipe → List ℤ
fds [] = []
fds (r ∷ rows) = r.fd ∷ fds rows

eq_int_eq : (a b : ℤ) → eq_int a b ≡ true → a ≡ b
eq_int_eq (pos m) (pos n) h = ground arith
eq_int_eq (pos m) (negsuc n) h = cc
eq_int_eq (negsuc m) (pos n) h = cc
eq_int_eq (negsuc m) (negsuc n) h = ground arith

pub eq_int_refl : (a : ℤ) → eq_int a a ≡ true
eq_int_refl (pos n) = ==_refl n
eq_int_refl (negsuc n) = ==_refl n

true_ne : ¬ (true ≡ false)
true_ne q = cc

-- A row that the search finds is one of the rows, for the same end.
pub find_pipe_lem :
    (port writer : ℤ) (old : List OldPipe) (p : OldPipe)
    → find_pipe port writer old ≡ some p
    → Among p old × (p.port ≡ port) × (p.writer ≡ writer)
unfolding find_pipe
find_pipe_lem port writer [] p h = cc
find_pipe_lem port writer (q ∷ old) p h =
    elim (Bool-cases (eq_int q.port port && eq_int q.writer writer)) [
      | inl d ↦
          let g : some q ≡ some p = rw d at h in
          let e : q ≡ p = cc in
          let a : eq_int q.port port ≡ true = ground (arith, d) in
          let b : eq_int q.writer writer ≡ true = ground (arith, d) in
          (
            inl (sym e),
            ap (λ (r : OldPipe). r.port) (sym e) ∙ eq_int_eq q.port port a,
            ap (λ (r : OldPipe). r.writer) (sym e) ∙ eq_int_eq q.writer writer b,
          )
      | inr d ↦ let (m, a, b) = find_pipe_lem port writer old p (rw d at h) in (inr m, a, b)
    ]

pub All-append {κ} :
    {A : Type 0} (P : A → Type κ) (xs ys : List A) → All P xs → All P ys → All P (xs ++ ys)
All-append P [] ys h k = k
All-append P (x ∷ xs) ys h k = (h.0, All-append P xs ys h.1 k)

pub All-map {κ} :
    {A : Type 0} (P Q : A → Type κ) (xs : List A)
    → ((x : A) → Among x xs → P x → Q x)
    → All P xs
    → All Q xs
All-map P Q [] f h = tt
All-map P Q (x ∷ xs) f h = (f x (inl refl) h.0, All-map P Q xs (λ y m. f y (inr m)) h.1)

pub Fresh-fds :
    (fd : ℤ) (rows : List OldPipe) (r : OldPipe) → Fresh fd (fds rows) → Among r rows → r.fd ≢ fd
Fresh-fds fd (q ∷ rows) r f (inl e) = λ z. f.0 (sym (sym (ap (λ (s : OldPipe). s.fd) e) ∙ z))
Fresh-fds fd (q ∷ rows) r f (inr m) = Fresh-fds fd rows r f.1 m
Fresh-fds fd [] r f m = absurd m

-- The descriptors of the rows differ from those before, and from one another.
abbrev pub Clear : List OldPipe → List OldPipe → Type 0
Clear done [] = Unit
Clear done (e ∷ todo) = Fresh e.fd (fds done) × Clear (e ∷ done) todo

-- The value of the entry with a number.
abbrev pub entry_at : (OldPipe → Text) → List OldPipe → ℕ → Option Text
entry_at print [] n = none
entry_at print (r ∷ rows) zero = some (print r)
entry_at print (r ∷ rows) (suc n) = entry_at print rows n

module _ {K : Type 0} (lib : Library K) (holds : K → ℤ → Option End)
    (laws : IsChild lib holds) where
  abbrev pub Held : K → OldPipe → Type 0
  Held k r = holds k r.fd ≡ some (end_of r)

  -- The new pipe has the descriptor of its row; descriptors that were open are kept, but that one.
  pub place_lem :
      (e : OldPipe) (k : K)
      → Held
          (place_pipe lib
            (lib.open_pipe e.port (not (eq_int e.writer (pos 0))) k).1
            e.fd
            (lib.open_pipe e.port (not (eq_int e.writer (pos 0))) k).0)
          e
  unfolding place_pipe
  place_lem e k =
      let w = not (eq_int e.writer (pos 0)) in
      let k1 = (lib.open_pipe e.port w k).0 in
      let fd_tmp = (lib.open_pipe e.port w k).1 in
      elim (Bool-cases (eq_int fd_tmp e.fd)) [
        | inl d ↦ rw d (
            subst (λ fd. holds k1 fd ≡ some (e.port, w)) (eq_int_eq fd_tmp e.fd d)
              (laws.open-holds e.port w k))
        | inr d ↦ rw d (
            laws.close-other fd_tmp e.fd (lib.dup2 fd_tmp e.fd k1) (λ q.
              true_ne (sym (subst (λ z. eq_int fd_tmp z ≡ true) (sym q) (eq_int_refl fd_tmp)) ∙ d))
            ∙ laws.dup2-holds fd_tmp e.fd k1 (e.port, w) (laws.open-holds e.port w k))
      ]

  pub place-other :
      (e : OldPipe) (k : K) (fd : ℤ) (x : End)
      → fd ≢ e.fd
      → holds k fd ≡ some x
      → holds
          (place_pipe lib
            (lib.open_pipe e.port (not (eq_int e.writer (pos 0))) k).1
            e.fd
            (lib.open_pipe e.port (not (eq_int e.writer (pos 0))) k).0)
          fd
        ≡ some x
  unfolding place_pipe
  place-other e k fd x n h =
      let w = not (eq_int e.writer (pos 0)) in
      let k1 = (lib.open_pipe e.port w k).0 in
      let fd_tmp = (lib.open_pipe e.port w k).1 in
      let m : fd ≢ fd_tmp =
        λ q. none_some x (sym (laws.open-new e.port w k) ∙ sym (ap (holds k) q) ∙ h) in
      let same : holds k1 fd ≡ some x = laws.open-other e.port w k fd m ∙ h in
      elim (Bool-cases (eq_int fd_tmp e.fd)) [
        | inl d ↦ rw d same
        | inr d ↦ rw d (
            laws.close-other fd_tmp fd (lib.dup2 fd_tmp e.fd k1) m
            ∙ laws.dup2-other fd_tmp e.fd fd k1 n
            ∙ same)
      ]
    where
      none_some : (y : End) → ¬ (none ≡ some y)
      none_some y q = cc
