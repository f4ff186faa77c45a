-- ===== src/Dread/Chain/Unlink.antt =====
-- A link that is taken out of a chain: `dthr_chain_delete` and `dthr_chain_dequeue` of
-- ports/dreadthread/dread_chain.c.
use webports.Prelude.{
  ℕ, Option, none, some, Bool, true, false, List, [], ◌∷◌, ◌++◌, ◌≡◌, refl, sym, ap, ◌==◌,
  if◌then◌else◌, arith, All, Fresh, Fresh-split, Apart-cons, Distinct, Distinct-split,
  Distinct-remove, append-nil, ==_refl,
}
use webports.Dread.Chain.{Links, set_prev, set_next, chain_empty, chain_delete, chain_dequeue}
use webports.Dread.Chain.Ring.{
  IsRing, Linked, Linked-join, Linked-relink, Linked-set_next, Linked-set_prev, Linked-split, last,
  prev-last,
}

if_same {ℓ} : {A : Type ℓ} (b : Bool) (v : A) → (if b then v else v) ≡ v
if_same true v = refl
if_same false v = refl

pub chain_delete-eq :
    (l : Links) (x y z : ℕ)
    → l.prev x ≡ y
    → l.next x ≡ z
    → chain_delete l x ≡ set_prev (set_next (set_prev (set_next l y z) z y) x x) x x
unfolding chain_delete
chain_delete-eq l x y z e f = simp (if_same, e, f)

pub last-All {κ} : (P : ℕ → Type κ) (p : ℕ) (xs : List ℕ) → All P (p ∷ xs) → P (last p xs)
last-All P p [] h = h.0
last-All P p (x ∷ xs) h = last-All P x xs h.1

-- The chain without the link, before the link is made a chain of its own.
unlink :
    (l : Links) (p : ℕ) (xs : List ℕ) (x : ℕ) (ys : List ℕ) (q z : ℕ)
    → Distinct (p ∷ (xs ++ x ∷ ys))
    → Fresh q (xs ++ x ∷ ys)
    → Linked l p xs x
    → Linked l x ys q
    → l.next x ≡ z
    → Linked (set_prev (set_next l (last p xs) z) z (last p xs)) p (xs ++ ys) q
unlink l p xs x [] q z d f h k e =
    let fs = Fresh-split q xs (x ∷ []) f in
    let l1 = set_prev l q (last p xs) in
    let h1 = Linked-set_prev l q (last p xs) p xs x fs.0 fs.1.0 h in
    let ds = Distinct-split (p ∷ xs) (x ∷ []) d in
    rw (append-nil, sym e, k.0) (Linked-relink l1 p xs x q ds.0 (rw ==_refl) h1)
unlink l p xs x (y ∷ ys) q z d f h k e =
    let fs = Fresh-split q xs (x ∷ y ∷ ys) f in
    let w = last p xs in
    let ds = Distinct-split (p ∷ xs) (x ∷ y ∷ ys) d in
    let a1 = Apart-cons (p ∷ xs) x (y ∷ ys) ds.2 in
    let a2 = Apart-cons (p ∷ xs) y ys a1.1 in
    let d1 = ds.1 in
    let l1 = set_prev l y w in
    let h1 = Linked-set_prev l y w p xs x a2.0.1 (λ e. d1.0.0 (sym e)) h in
    let h2 = Linked-relink l1 p xs x y ds.0 (rw ==_refl) h1 in
    let k1 = Linked-set_prev l y w y ys q d1.1.0 (λ e. fs.1.1.0 (sym e)) k.2 in
    let k2 = Linked-set_next l1 w y y ys q (last-All (λ v. Fresh v (y ∷ ys)) p xs a1.1) k1 in
    rw (sym e, k.0) (Linked-join (set_next l1 w y) p xs y ys q h2 k2)

-- `dthr_chain_delete` takes a link out of the chain that holds it, wherever it stands there, and
-- the other links keep their order.
pub chain_delete-IsRing :
    (l : Links) (a : ℕ) (xs : List ℕ) (x : ℕ) (ys : List ℕ)
    → IsRing l a (xs ++ x ∷ ys)
    → IsRing (chain_delete l x) a (xs ++ ys)
chain_delete-IsRing l a xs x ys ring =
    let s = Linked-split l a xs x ys a ring.linked in
    let r = Distinct-remove (a ∷ xs) x ys ring.distinct in
    let w = last a xs in
    let z = l.next x in
    let h = unlink l a xs x ys a z ring.distinct ring.distinct.0 s.0 s.1 refl in
    let l2 = set_prev (set_next l w z) z w in
    let h1 = Linked-set_next l2 x x a (xs ++ ys) a r.1 h in
    let h2 = Linked-set_prev (set_next l2 x x) x x a (xs ++ ys) a r.1.1 r.1.0 h1 in
    rw (chain_delete-eq l x w z (prev-last l a xs x s.0) refl)
      (record { linked = h2; distinct = r.0 })

abbrev pub first : List ℕ → Option ℕ
first [] = none
first (x ∷ xs) = some x

abbrev pub rest : List ℕ → List ℕ
rest [] = []
rest (x ∷ xs) = xs

pub chain_empty-eq :
    (l : Links) (a x : ℕ) (xs : List ℕ) → IsRing l a (x ∷ xs) → chain_empty l a ≡ false
unfolding chain_empty
chain_empty-eq l a x xs ring = let h = ring.linked in let n = ring.distinct.0.0 in ground arith

-- What an empty chain leads to: no link is changed.
abbrev pub Unchanged : List ℕ → Links → Links → Type 0
Unchanged [] l l1 = l1 ≡ l
Unchanged (x ∷ xs) l l1 = Unit

-- `dthr_chain_dequeue` returns the first link of a chain and takes it out, and returns none and
-- changes no link at all if the chain is empty.
pub chain_dequeue-IsRing :
    (l : Links) (a : ℕ) (xs : List ℕ)
    → IsRing l a xs
    → ((chain_dequeue l a).0 ≡ first xs)
      × IsRing (chain_dequeue l a).1 a (rest xs)
      × Unchanged xs l (chain_dequeue l a).1
unfolding chain_dequeue
chain_dequeue-IsRing l a [] ring =
    let h : (l.next a == a) ≡ true = rw ring.linked.0 (==_refl a) in rw h (refl, ring, refl)
chain_dequeue-IsRing l a (x ∷ xs) ring =
    let h : (l.next a == a) ≡ false = unfold chain_empty in (chain_empty-eq l a x xs ring) in
    rw h (ap some ring.linked.0, rw ring.linked.0 (chain_delete-IsRing l a [] x xs ring), tt)
