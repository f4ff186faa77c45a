-- ===== src/Spawn/Libraries/Finds/Missing.antt =====
-- How many files a set leaves out, which bounds the depth of the calls.
use webports.Prelude.{
  ℕ, suc, ◌<◌, ◌≤◌, false, List, [], ◌∷◌, length, Text, ◌≡◌, inl, inr, subst, arith, Among,
  Bool-cases, if◌then◌else◌,
}
use webports.Prelude.Sets.{has, insert, has-Among, Among-has, Among-insert, Among-insert_self}

abbrev pub missing : List Text → List Text → ℕ
missing [] s = 0
missing (x ∷ xs) s = if has x s then missing xs s else suc (missing xs s)

pub missing-le : (xs s : List Text) → missing xs s ≤ length xs
missing-le [] s = omega arith
missing-le (x ∷ xs) s = ground (arith, missing-le xs s)

pub missing-grows :
    (xs s t : List Text) → ((z : Text) → Among z s → Among z t) → missing xs t ≤ missing xs s
missing-grows [] s t g = omega arith
missing-grows (x ∷ xs) s t g = elim (Bool-cases (has x s)) [
  | inl d ↦ let q = Among-has x t (g x (has-Among x s d)) in rw (d, q) (missing-grows xs s t g)
  | inr d ↦ let l = missing-grows xs s t g in ground arith
]

-- A file that is added is left out no more.
pub missing-insert :
    (xs s : List Text) (a : Text)
    → Among a xs
    → has a s ≡ false
    → missing xs (insert a s) < missing xs s
missing-insert [] s a m h = absurd m
missing-insert (x ∷ xs) s a (inl e) h =
    let d : has x s ≡ false = subst (λ y. has y s ≡ false) e h in
    let q =
      Among-has x (insert a s) (subst (λ y. Among y (insert a s)) e (Among-insert_self a s)) in
    let l = missing-grows xs s (insert a s) (λ z k. Among-insert z a s k) in rw (d, q) (omega arith)
missing-insert (x ∷ xs) s a (inr m) h = elim (Bool-cases (has x s)) [
  | inl d ↦
      let q = Among-has x (insert a s) (Among-insert x a s (has-Among x s d)) in
      rw (d, q) (missing-insert xs s a m h)
  | inr d ↦ let l = missing-insert xs s a m h in ground arith
]
