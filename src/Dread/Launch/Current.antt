-- ===== src/Dread/Launch/Current.antt =====
-- Which thread `dthr_this_thread` of ports/dreadthread/dread.c finds.
use webports.Prelude.{
  ℕ, ◌≤◌, List, [], ◌∷◌, ◌≡◌, refl, ap, subst, inl, inr, true, arith, All, Among, leb, Bool-cases,
  ◌==◌, ==_refl, ◌&&◌,
}
use webports.Dread.World.{ok, World, Stack, stack_magic, topmost_thread}
use webports.Dread.Launch.{scan_active, this_thread}

abbrev pub IsStack : (ℕ → Stack) → ℕ → Type 0
IsStack stacks p = (stacks p).magic ≡ stack_magic

module _ (stacks : ℕ → Stack) (addr : ℕ) where
  -- The address lies on the stack, its ends included.
  abbrev pub Covers : ℕ → Type 0
  Covers p = ((stacks p).stack_base ≤ addr) × (addr ≤ (stacks p).stack_top)

  scan_active-found :
      (xs : List ℕ) (p : ℕ)
      → All (IsStack stacks) xs
      → Among p xs
      → Covers p
      → All (λ q. Covers q → q ≡ p) xs
      → scan_active stacks addr xs ≡ ok (stacks p).thread
  unfolding scan_active
  scan_active-found [] p m a c u = absurd a
  scan_active-found (x ∷ xs) p m a c u =
      let magic : (stacks x).magic == stack_magic ≡ true = rw m.0 (==_refl stack_magic) in
      elim (Bool-cases (leb (stacks x).stack_base addr && leb addr (stacks x).stack_top)) [
        | inl d ↦
            let z : x ≡ p = u.0 (ground arith) in rw (magic, d) (ap (λ q. ok (stacks q).thread) z)
        | inr d ↦ elim a [
          | inl e ↦ let covers : Covers x = subst Covers e c in ground arith
          | inr later ↦ rw (magic, d) (scan_active-found xs p m.1 later c u.1)
        ]
      ]

  scan_active-none :
      (xs : List ℕ)
      → All (IsStack stacks) xs
      → All (λ q. ¬ Covers q) xs
      → scan_active stacks addr xs ≡ ok topmost_thread
  unfolding scan_active
  scan_active-none [] m u = refl
  scan_active-none (x ∷ xs) m u =
      let magic : (stacks x).magic == stack_magic ≡ true = rw m.0 (==_refl stack_magic) in
      elim (Bool-cases (leb (stacks x).stack_base addr && leb addr (stacks x).stack_top)) [
        | inl d ↦ absurd (u.0 (ground arith))
        | inr d ↦ rw (magic, d) (scan_active-none xs m.1 u.1)
      ]

-- If the active stacks have their magic numbers and `p` is one of them, the only one on which the
-- depth `addr` lies, then `dthr_this_thread`, called at that depth, returns the thread of `p`.
pub this_thread-found :
    (addr p : ℕ) (w : World)
    → All (IsStack w.stacks) w.active_stacks
    → Among p w.active_stacks
    → Covers w.stacks addr p
    → All (λ q. Covers w.stacks addr q → q ≡ p) w.active_stacks
    → this_thread addr w ≡ ok (w.stacks p).thread
unfolding this_thread
this_thread-found addr p w m a c u = scan_active-found w.stacks addr w.active_stacks p m a c u

-- If the active stacks have their magic numbers and the depth `addr` lies on none of them, then
-- `dthr_this_thread`, called at that depth, returns the topmost thread.
pub this_thread-topmost :
    (addr : ℕ) (w : World)
    → All (IsStack w.stacks) w.active_stacks
    → All (λ q. ¬ Covers w.stacks addr q) w.active_stacks
    → this_thread addr w ≡ ok topmost_thread
unfolding this_thread
this_thread-topmost addr w m u = scan_active-none w.stacks addr w.active_stacks m u
