-- ===== src/Prelude/Sets.antt =====
-- `std::set<std::string>` as the list of its items in order.
use Prim.Native.Nat.{◌+◌}
use mathlib.Core.Path.{◌≡◌, refl}
use mathlib.Core.Logic.{◌⊎◌, inl, inr}
use mathlib.Core.Bool.{Bool, true, false}
use mathlib.Core.List.{List, [], ◌∷◌}
use native.Mathlib.Omega.{arith}
use webports.Prelude.Tests.{if◌then◌else◌, Bool-cases}
use webports.Prelude.Lists.{length, All, Among}
use webports.Prelude.Texts.{Text, eq_text, eq_text_iff, less, less_trans, less_total}

unfoldable pub has : Text → List Text → Bool
has a [] = false
has a (x ∷ xs) = if eq_text a x then true else has a xs

unfoldable pub insert : Text → List Text → List Text
insert a [] = a ∷ []
insert a (x ∷ xs) =
    let rest = insert a xs in
    if eq_text a x then x ∷ xs else if less a x then a ∷ x ∷ xs else x ∷ rest

pub has-Among : (a : Text) (xs : List Text) → has a xs ≡ true → Among a xs
unfolding has
has-Among a [] h = cc
has-Among a (x ∷ xs) h = elim (Bool-cases (eq_text a x)) [
  | inl d ↦ inl ((eq_text_iff a x).0 d)
  | inr d ↦ inr (has-Among a xs (rw d at h))
]

pub Among-has : (a : Text) (xs : List Text) → Among a xs → has a xs ≡ true
unfolding has
Among-has a [] h = absurd h
Among-has a (x ∷ xs) (inl e) = let d = (eq_text_iff a x).1 e in rw d
Among-has a (x ∷ xs) (inr m) = elim (Bool-cases (eq_text a x)) [
  | inl d ↦ rw d
  | inr d ↦ rw (d, Among-has a xs m)
]

-- The items of the set after an insertion.
pub Among-insert_self : (a : Text) (xs : List Text) → Among a (insert a xs)
unfolding insert
Among-insert_self a [] = inl refl
Among-insert_self a (x ∷ xs) = elim (Bool-cases (eq_text a x)) [
  | inl d ↦ rw d (inl ((eq_text_iff a x).0 d))
  | inr d ↦ elim (Bool-cases (less a x)) [
    | inl l ↦ rw (d, l) (inl refl)
    | inr l ↦ rw (d, l) (inr (Among-insert_self a xs))
  ]
]

pub Among-insert : (z a : Text) (xs : List Text) → Among z xs → Among z (insert a xs)
unfolding insert
Among-insert z a [] h = absurd h
Among-insert z a (x ∷ xs) h = elim (Bool-cases (eq_text a x)) [
  | inl d ↦ rw d h
  | inr d ↦ elim (Bool-cases (less a x)) [
    | inl l ↦ rw (d, l) (inr h)
    | inr l ↦
        rw (d, l)
          (elim h as (λ _. (z ≡ x) ⊎ Among z (insert a xs)) [
            | inl e ↦ inl e
            | inr m ↦ inr (Among-insert z a xs m)
          ])
  ]
]

pub Among-insert_inv : (z a : Text) (xs : List Text) → Among z (insert a xs) → (z ≡ a) ⊎ Among z xs
unfolding insert
Among-insert_inv z a [] (inl e) = inl e
Among-insert_inv z a [] (inr m) = absurd m
Among-insert_inv z a (x ∷ xs) h = elim (Bool-cases (eq_text a x)) [
  | inl d ↦ inr (rw d at h)
  | inr d ↦ elim (Bool-cases (less a x)) [
    | inl l ↦ (rw (d, l) at h)
    | inr l ↦
        let g : (z ≡ x) ⊎ Among z (insert a xs) = rw (d, l) at h in
        elim g as (λ _. (z ≡ a) ⊎ ((z ≡ x) ⊎ Among z xs)) [
          | inl e ↦ inr (inl e)
          | inr m ↦ elim (Among-insert_inv z a xs m) [ inl e ↦ inl e | inr k ↦ inr (inr k) ]
        ]
  ]
]

pub length-insert :
    (a : Text) (xs : List Text) → has a xs ≡ false → length (insert a xs) ≡ length xs + 1
unfolding has insert
length-insert a [] h = omega arith
length-insert a (x ∷ xs) h = ground (arith, length-insert a xs)

-- Each item stands before all that follow it.
abbrev pub IsSorted : List Text → Type 0
IsSorted [] = Unit
IsSorted (x ∷ xs) = All (λ y. less x y ≡ true) xs × IsSorted xs

All-less :
    (a x : Text) (xs : List Text)
    → less a x ≡ true
    → All (λ y. less x y ≡ true) xs
    → All (λ y. less a y ≡ true) xs
All-less a x [] l h = tt
All-less a x (y ∷ xs) l h = (less_trans a x y l h.0, All-less a x xs l h.1)

All-insert : (P : Text → Type 0) (a : Text) (xs : List Text) → P a → All P xs → All P (insert a xs)
unfolding insert
All-insert P a [] p h = (p, tt)
All-insert P a (x ∷ xs) p h = elim (Bool-cases (eq_text a x)) [
  | inl d ↦ rw d h
  | inr d ↦ elim (Bool-cases (less a x)) [
    | inl l ↦ rw (d, l) (p, h)
    | inr l ↦ rw (d, l) (h.0, All-insert P a xs p h.1)
  ]
]

pub insert-IsSorted : (a : Text) (xs : List Text) → IsSorted xs → IsSorted (insert a xs)
unfolding insert
insert-IsSorted a [] h = (tt, tt)
insert-IsSorted a (x ∷ xs) h = elim (Bool-cases (eq_text a x)) [
  | inl d ↦ rw d h
  | inr d ↦ elim (Bool-cases (less a x)) [
    | inl l ↦ rw (d, l) ((l, All-less a x xs l h.0), h)
    | inr l ↦
        rw (d, l)
          (
            All-insert (λ y. less x y ≡ true) a xs (less_total a x d l) h.0,
            insert-IsSorted a xs h.1,
          )
  ]
]
