-- ===== src/Spawn/Var/Insert.antt =====
-- `nspawn_array_insert` of ports/nacl-spawn/nacl_pp_helpers.c inserts in a list.
use webports.Prelude.{
  ℕ, zero, suc, ◌+◌, ◌-◌, List, [], ◌∷◌, ◌++◌, append-nil, append_assoc, length, length-append, ◌≡◌,
  refl, sym, ap, subst, ◌∙◌, arith,
}
use webports.Spawn.Var.{PpVar, undefined, Pepper, move_up, array_insert}

-- What the Pepper interface documents of an array with the items `items`.
pub record IsArray {K : Type 0} (pp : Pepper K) (arr : PpVar) (items : K → List PpVar)
    : Type 0 where
  pub length-items : (k : K) → pp.get_length arr k ≡ length (items k)
  pub extend-items :
      (k : K) → items (pp.set_length arr (length (items k) + 1) k) ≡ items k ++ undefined ∷ []
  pub get-items : (i : ℕ) (k : K) → items (pp.array_get arr i k).0 ≡ items k
  pub get-item :
      (k : K) (xs : List PpVar) (x : PpVar) (ys : List PpVar)
      → items k ≡ xs ++ x ∷ ys
      → (pp.array_get arr (length xs) k).1 ≡ x
  pub set-items :
      (k : K) (xs : List PpVar) (x : PpVar) (ys : List PpVar) (v : PpVar)
      → items k ≡ xs ++ x ∷ ys
      → items (pp.array_set arr (length xs) v k) ≡ xs ++ v ∷ ys
  pub release-items : (v : PpVar) (k : K) → items (pp.release v k) ≡ items k

-- A list that is not empty, with its last item apart.
split_last :
    (m : ℕ) (ys : List PpVar)
    → length ys ≡ suc m
    → (xs : List PpVar) × (y : PpVar) × (ys ≡ xs ++ y ∷ []) × (length xs ≡ m)
split_last m [] e = absurd (omega arith)
split_last zero (y ∷ []) e = ([], y, refl, refl)
split_last zero (y ∷ z ∷ ys) e = absurd (omega arith)
split_last (suc m) (y ∷ []) e = absurd (omega arith)
split_last (suc m) (y ∷ z ∷ ys) e =
    let (xs, x, p, q) = split_last m (z ∷ ys) (omega arith) in
    (y ∷ xs, x, ap (λ t. y ∷ t) p, omega arith)

module _ {K : Type 0} (pp : Pepper K) (arr : PpVar) (items : K → List PpVar)
    (is_array : IsArray pp arr items) where
  move_up_lem :
      (moves i : ℕ) (xs ys : List PpVar) (z : PpVar) (ws : List PpVar) (k : K)
      → length ys ≡ moves
      → length (xs ++ ys) ≡ i
      → items k ≡ (xs ++ ys) ++ z ∷ ws
      → (d : PpVar) × (items (move_up pp arr moves i k) ≡ xs ++ d ∷ (ys ++ ws))
  unfolding move_up
  move_up_lem zero i xs [] z ws k l n e = (z, e ∙ ap (λ t. t ++ z ∷ ws) (append-nil xs))
  move_up_lem zero i xs (y ∷ ys) z ws k l n e = absurd (omega arith)
  move_up_lem (suc moves) i xs ys z ws k l n e =
      let (ys1, y, p, q) = split_last moves ys l in
      let before = xs ++ ys1 in
      let regroup : xs ++ ys ≡ before ++ y ∷ [] =
        ap (λ t. xs ++ t) p ∙ sym (append_assoc xs ys1 (y ∷ [])) in
      let k1 = (pp.array_get arr (i - 1) k).0 in
      let from_var = (pp.array_get arr (i - 1) k).1 in
      let k2 = pp.array_set arr i from_var k1 in
      let at : items k ≡ (before ++ y ∷ []) ++ z ∷ ws = e ∙ ap (λ t. t ++ z ∷ ws) regroup in
      let spread : items k ≡ before ++ y ∷ (z ∷ ws) = at ∙ append_assoc before (y ∷ []) (z ∷ ws) in
      let sizes : length (xs ++ ys) ≡ length before + 1 =
        ap length regroup ∙ length-append before (y ∷ []) in
      let place : length before ≡ i - 1 = omega arith in
      let hole : length (before ++ y ∷ []) ≡ i = sym (ap length regroup) ∙ n in
      let got : from_var ≡ y =
        subst (λ j. (pp.array_get arr j k).1 ≡ y) place
          (is_array.get-item k before y (z ∷ ws) spread) in
      let put : items k2 ≡ (before ++ y ∷ []) ++ from_var ∷ ws =
        subst (λ j. items (pp.array_set arr j from_var k1) ≡ (before ++ y ∷ []) ++ from_var ∷ ws)
          hole
          (is_array.set-items k1 (before ++ y ∷ []) z ws from_var
            (is_array.get-items (i - 1) k ∙ at)) in
      let moved : items (pp.release from_var k2) ≡ before ++ y ∷ (y ∷ ws) =
        is_array.release-items from_var k2
        ∙ put
        ∙ append_assoc before (y ∷ []) (from_var ∷ ws)
        ∙ ap (λ v. before ++ y ∷ (v ∷ ws)) got in
      let (d, h) =
        move_up_lem moves (i - 1) xs ys1 y (y ∷ ws) (pp.release from_var k2) q place moved in
      (
        d,
        h ∙ ap (λ t. xs ++ d ∷ t) (sym (append_assoc ys1 (y ∷ []) ws) ∙ ap (λ t. t ++ ws) (sym p)),
      )

  -- If the interface is as documented, `nspawn_array_insert` at an index up to the array's length
  -- puts the value there, and the items from there on one place up.
  pub array_insert_lem :
      (xs ys : List PpVar) (v : PpVar) (k : K)
      → items k ≡ xs ++ ys
      → items (array_insert pp arr (length xs) v k) ≡ xs ++ v ∷ ys
  unfolding array_insert
  array_insert_lem xs ys v k e =
      let old_length = pp.get_length arr k in
      let index = length xs in
      let k1 = pp.set_length arr (old_length + 1) k in
      let k2 = move_up pp arr (old_length - index) old_length k1 in
      let size : old_length ≡ length (items k) = is_array.length-items k in
      let whole : length (xs ++ ys) ≡ old_length = sym (size ∙ ap length e) in
      let parts = length-append xs ys in
      let long : items k1 ≡ (xs ++ ys) ++ undefined ∷ [] =
        subst (λ n. items (pp.set_length arr (n + 1) k) ≡ items k ++ undefined ∷ []) (sym size)
          (is_array.extend-items k)
        ∙ ap (λ t. t ++ undefined ∷ []) e in
      let count : length ys ≡ old_length - index = omega arith in
      let (d, h) =
        move_up_lem (old_length - index) old_length xs ys undefined [] k1 count whole long in
      is_array.release-items v (pp.array_set arr index v k2)
      ∙ is_array.set-items k2 xs d (ys ++ []) v h
      ∙ ap (λ t. xs ++ v ∷ t) (append-nil ys)
