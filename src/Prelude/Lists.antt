-- ===== src/Prelude/Lists.antt =====
-- Predicates on lists by recursion, which the tactics read, and lists measured by native numbers.
use Prim.Native.Nat.{ℕ, suc, ◌+◌}
use mathlib.Core.Path.{◌≡◌, sym, subst}
use mathlib.Core.Logic.{◌≢◌, ◌⊎◌, inl, inr}
use mathlib.Core.List.{List, [], ◌∷◌, ◌++◌}
use native.Mathlib.Omega.{arith}

module _ {ℓ} {A : Type ℓ} where
  abbrev pub length : List A → ℕ
  length [] = 0
  length (x ∷ xs) = suc (length xs)

  pub length-append : (xs ys : List A) → length (xs ++ ys) ≡ length xs + length ys
  length-append [] ys = omega arith
  length-append (x ∷ xs) ys = omega (arith, length-append xs ys)

  abbrev pub All {κ} : (A → Type κ) → List A → Type κ
  All P [] = Unit
  All P (x ∷ xs) = P x × All P xs

  -- `a` is not an item of the list.
  abbrev pub Fresh : A → List A → Type ℓ
  Fresh a [] = Unit
  Fresh a (x ∷ xs) = (a ≢ x) × Fresh a xs

  -- No item stands twice.
  abbrev pub Distinct : List A → Type ℓ
  Distinct [] = Unit
  Distinct (x ∷ xs) = Fresh x xs × Distinct xs

  pub Fresh-append : (a : A) (xs ys : List A) → Fresh a xs → Fresh a ys → Fresh a (xs ++ ys)
  Fresh-append a [] ys h k = k
  Fresh-append a (x ∷ xs) ys h k = (h.0, Fresh-append a xs ys h.1 k)

  pub Fresh-split : (a : A) (xs ys : List A) → Fresh a (xs ++ ys) → Fresh a xs × Fresh a ys
  Fresh-split a [] ys h = (tt, h)
  Fresh-split a (x ∷ xs) ys h = let r = Fresh-split a xs ys h.1 in ((h.0, r.0), r.1)

  -- An item between two lists of distinct items, and what is left without it.
  pub Distinct-remove :
      (xs : List A) (x : A) (ys : List A)
      → Distinct (xs ++ x ∷ ys)
      → Distinct (xs ++ ys) × Fresh x (xs ++ ys)
  Distinct-remove [] x ys h = (h.1, h.0)
  Distinct-remove (y ∷ xs) x ys h =
      let r = Distinct-remove xs x ys h.1 in
      let f = Fresh-split y xs (x ∷ ys) h.0 in
      ((Fresh-append y xs ys f.0 f.1.1, r.0), (λ e. f.1.0 (sym e), r.1))

  pub Distinct-snoc : (xs : List A) (x : A) → Distinct xs → Fresh x xs → Distinct (xs ++ x ∷ [])
  Distinct-snoc [] x h f = (tt, tt)
  Distinct-snoc (y ∷ xs) x h f =
      (Fresh-append y xs (x ∷ []) h.0 (λ e. f.0 (sym e), tt), Distinct-snoc xs x h.1 f.1)

  -- No item of the first list is in the second.
  abbrev pub Apart : List A → List A → Type ℓ
  Apart xs ys = All (λ x. Fresh x ys) xs

  pub Apart-cons :
      (xs : List A) (y : A) (ys : List A) → Apart xs (y ∷ ys) → Fresh y xs × Apart xs ys
  Apart-cons [] y ys h = (tt, tt)
  Apart-cons (x ∷ xs) y ys h =
      let r = Apart-cons xs y ys h.1 in ((λ e. h.0.0 (sym e), r.0), (h.0.1, r.1))

  pub Distinct-split :
      (xs ys : List A) → Distinct (xs ++ ys) → Distinct xs × Distinct ys × Apart xs ys
  Distinct-split [] ys h = (tt, h, tt)
  Distinct-split (x ∷ xs) ys h =
      let r = Distinct-split xs ys h.1 in
      let f = Fresh-split x xs ys h.0 in ((f.0, r.0), r.1, (f.1, r.2))

  pub All-split {κ} : (P : A → Type κ) (xs ys : List A) → All P (xs ++ ys) → All P xs × All P ys
  All-split P [] ys h = (tt, h)
  All-split P (x ∷ xs) ys h = let r = All-split P xs ys h.1 in ((h.0, r.0), r.1)

module _ {A : Type 0} where
  -- `a` is one of the items.
  abbrev pub Among : A → List A → Type 0
  Among a [] = ⊥
  Among a (x ∷ xs) = (a ≡ x) ⊎ Among a xs

  pub All-Among {κ} : (P : A → Type κ) (a : A) (xs : List A) → All P xs → Among a xs → P a
  All-Among P a (x ∷ xs) h (inl e) = subst P (sym e) h.0
  All-Among P a (x ∷ xs) h (inr m) = All-Among P a xs h.1 m
  All-Among P a [] h m = absurd m
