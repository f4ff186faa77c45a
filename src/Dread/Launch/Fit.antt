-- ===== src/Dread/Launch/Fit.antt =====
-- Which free stack `dthr_find_free_stack` of ports/dreadthread/dread.c chooses.
use webports.Prelude.{
  true, ◌==◌, ==_refl, if◌then◌else◌, Among, ℕ, ◌<◌, ◌≤◌, List, [], ◌∷◌, ◌≡◌, refl, sym, subst, ◌⊎◌,
  inl, inr, ◌&&◌, arith, All, ltb, Bool-cases,
}
use webports.Dread.World.{ok, World, Stack, stack_magic}
use webports.Dread.Launch.{scan_free, find_free_stack, size_diff, int_max}

-- `dif x` is by how much stack `x` is larger than the request, 32 bits wide.
module _ (dif : ℕ → ℕ) where
  -- The stack is larger than the request, by less than `INT_MAX`.
  abbrev pub Fits : ℕ → Type 0
  Fits x = (0 < dif x) × (dif x < int_max)

  -- No stack of the list fits better than one with the difference `d`.
  abbrev pub NoneBelow : ℕ → List ℕ → Type 0
  NoneBelow d xs = All (λ x. Fits x → d ≤ dif x) xs

  -- The choice among `xs`: none fits, or one that fits and that no other fits better.
  abbrev pub IsBestFit : List ℕ → ℕ → Type 0
  IsBestFit xs r = ((r ≡ 0) × All (λ x. ¬ Fits x) xs) ⊎ (Among r xs × Fits r × NoneBelow (dif r) xs)

  -- The choice that starts from `best`, of difference `d`.
  abbrev Improves : List ℕ → ℕ → ℕ → ℕ → Type 0
  Improves xs best d r =
      ((r ≡ best) × NoneBelow d xs) ⊎ (Among r xs × Fits r × (dif r < d) × NoneBelow (dif r) xs)

  better :
      (x : ℕ) (xs : List ℕ) (best d r : ℕ)
      → 0 < dif x
      → dif x < d
      → d ≤ int_max
      → Improves xs x (dif x) r
      → Improves (x ∷ xs) best d r
  better x xs best d r a b c (inl h) =
      subst (Improves (x ∷ xs) best d) (sym h.0)
        (inr (inl refl, (a, omega arith), b, ((λ _. omega arith), h.1)))
  better x xs best d r a b c (inr h) = inr (inr h.0, h.1, omega arith, ((λ _. omega arith), h.3))

  worse :
      (x : ℕ) (xs : List ℕ) (best d r : ℕ)
      → ¬ ((0 < dif x) × (dif x < d))
      → Improves xs best d r
      → Improves (x ∷ xs) best d r
  worse x xs best d r n (inl h) = inl (h.0, ((λ f. grind arith), h.1))
  worse x xs best d r n (inr h) = inr (inr h.0, h.1, h.2, ((λ f. grind arith), h.3))

  none-Fits : (xs : List ℕ) → NoneBelow int_max xs → All (λ x. ¬ Fits x) xs
  none-Fits [] h = tt
  none-Fits (x ∷ xs) h = ((λ f. let k = h.0 f in omega arith), none-Fits xs h.1)

-- That difference, for the stacks of a world.
abbrev pub excess : (ℕ → Stack) → ℕ → ℕ → ℕ
excess stacks size x = size_diff (stacks x).stack_size size

scan_free-Improves :
    (stacks : ℕ → Stack) (size : ℕ) (xs : List ℕ) (best d : ℕ) {r : ℕ}
    → d ≤ int_max
    → scan_free stacks size xs best d ≡ ok r
    → Improves (excess stacks size) xs best d r
unfolding scan_free
scan_free-Improves stacks size [] best d l e = inl (ground arith, tt)
scan_free-Improves stacks size (x ∷ xs) best d {r} l e =
    elim (Bool-cases (ltb 0 (excess stacks size x) && ltb (excess stacks size x) d)) [
      | inl y ↦
          better (excess stacks size) x xs best d r (ground arith) (ground arith) l (
            scan_free-Improves stacks size xs x (excess stacks size x) (ground arith)
              (ground arith))
      | inr y ↦
          worse (excess stacks size) x xs best d r (λ h. ground arith)
            (scan_free-Improves stacks size xs best d l (ground arith))
    ]

-- The scan returns if every stack has its magic number.
scan_free-ok :
    (stacks : ℕ → Stack) (size : ℕ) (xs : List ℕ) (best d : ℕ)
    → All (λ s. (stacks s).magic ≡ stack_magic) xs
    → (r : ℕ) × (scan_free stacks size xs best d ≡ ok r)
unfolding scan_free
scan_free-ok stacks size [] best d m = (best, refl)
scan_free-ok stacks size (x ∷ xs) best d m =
    let diff = excess stacks size x in
    let fits = ltb 0 diff && ltb diff d in
    let (r, e) =
      scan_free-ok stacks size xs (if fits then x else best) (if fits then diff else d) m.1 in
    let magic : (stacks x).magic == stack_magic ≡ true = rw m.0 (==_refl stack_magic) in
    (r, rw magic e)

-- If every free stack has its magic number, `dthr_find_free_stack` returns, and its result is a free
-- stack that is larger than the request and that no other free stack fits better, or the null
-- pointer if no free stack is larger; a stack of just the requested size, or larger by `INT_MAX` or
-- more, counts as one that does not fit.
pub find_free_stack-IsBestFit :
    (size : ℕ) (w : World)
    → All (λ s. (w.stacks s).magic ≡ stack_magic) w.free_stacks
    → (r : ℕ) × (find_free_stack size w ≡ ok r) × IsBestFit (excess w.stacks size) w.free_stacks r
unfolding find_free_stack
find_free_stack-IsBestFit size w m =
    let (r, e) = scan_free-ok w.stacks size w.free_stacks 0 int_max m in
    (r, e, go r (scan_free-Improves w.stacks size w.free_stacks 0 int_max (omega arith) e))
  where
    go :
        (r : ℕ)
        → Improves (excess w.stacks size) w.free_stacks 0 int_max r
        → IsBestFit (excess w.stacks size) w.free_stacks r
    go r (inl h) = inl (h.0, none-Fits (excess w.stacks size) w.free_stacks h.1)
    go r (inr h) = inr (h.0, h.1, h.3)
