-- ===== src/Dread/Chain/Frame.antt =====
-- A chain operation leaves every other chain alone.
use webports.Prelude.{
  ℕ, true, false, List, [], ◌∷◌, ◌++◌, ◌≡◌, refl, sym, ◌==◌, ==_refl, All, All-split, Fresh, Apart,
}
use webports.Dread.Chain.{
  Links, set_prev, set_next, chain_empty, chain_delete, chain_dequeue, chain_insert_after,
  chain_insert_before,
}
use webports.Dread.Chain.Ring.{
  Linked, Linked-split, IsRing, Linked-set_next, Linked-set_prev, last, prev-last,
  chain_insert_before-eq, chain_insert_after-eq,
}
use webports.Dread.Chain.Unlink.{chain_empty-eq, chain_delete-eq, last-All}

IsRing-set_next :
    (l : Links) (x v b : ℕ) (ys : List ℕ)
    → Fresh x (b ∷ ys)
    → IsRing l b ys
    → IsRing (set_next l x v) b ys
IsRing-set_next l x v b ys f r = record {
  linked = Linked-set_next l x v b ys b f r.linked;
  distinct = r.distinct;
}

IsRing-set_prev :
    (l : Links) (x v b : ℕ) (ys : List ℕ)
    → Fresh x (b ∷ ys)
    → IsRing l b ys
    → IsRing (set_prev l x v) b ys
IsRing-set_prev l x v b ys f r = record {
  linked = Linked-set_prev l x v b ys b f.1 f.0 r.linked;
  distinct = r.distinct;
}

next-All {κ} :
    (P : ℕ → Type κ) (l : Links) (p : ℕ) (xs : List ℕ) (q : ℕ)
    → Linked l p xs q
    → P q
    → All P xs
    → P (l.next p)
next-All P l p [] q h k a = rw h.0 k
next-All P l p (x ∷ xs) q h k a = rw h.0 a.0

-- The chain at `b` has no link in common with the chain at `a`.
module _ (l : Links) (a : ℕ) (xs : List ℕ) (b : ℕ) (ys : List ℕ) (ring : IsRing l a xs)
    (other : IsRing l b ys) (apart : Apart (a ∷ xs) (b ∷ ys)) where
  -- Where two chains have no link in common, `dthr_chain_enqueue` of a link that is in neither to the
  -- one leaves the other as it was.
  pub chain_insert_before-keeps :
      (new : ℕ)
      → Fresh new (a ∷ xs)
      → Fresh new (b ∷ ys)
      → IsRing (chain_insert_before l a new) b ys
  chain_insert_before-keeps new f g =
      let z = last a xs in
      let fz = last-All (λ v. Fresh v (b ∷ ys)) a xs apart in
      let l1 = set_prev l new z in
      let l2 = set_next l1 new a in
      let l3 = set_next l2 z new in
      rw (chain_insert_before-eq l a new z (λ e. f.0 (sym e)) (prev-last l a xs a ring.linked)) (
        IsRing-set_prev l3 a new b ys apart.0 (
          IsRing-set_next l2 z new b ys fz
            (IsRing-set_next l1 new a b ys g (IsRing-set_prev l new z b ys g other))))

  -- Where two chains have no link in common, `dthr_chain_push` of a link that is in neither to the one
  -- leaves the other as it was.
  pub chain_insert_after-keeps :
      (new : ℕ) → Fresh new (a ∷ xs) → Fresh new (b ∷ ys) → IsRing (chain_insert_after l a new) b ys
  chain_insert_after-keeps new f g =
      let z = l.next a in
      let fz = next-All (λ v. Fresh v (b ∷ ys)) l a xs a ring.linked apart.0 apart.1 in
      let l1 = set_next l new z in
      let l2 = set_prev l1 new a in
      let l3 = set_prev l2 z new in
      rw (chain_insert_after-eq l a new z (λ e. f.0 (sym e)) refl) (
        IsRing-set_next l3 a new b ys apart.0 (
          IsRing-set_prev l2 z new b ys fz
            (IsRing-set_prev l1 new a b ys g (IsRing-set_next l new z b ys g other))))

-- Where two chains have no link in common, `dthr_chain_delete` of a link of the one leaves the other
-- as it was.
pub chain_delete-keeps :
    (l : Links) (a : ℕ) (xs : List ℕ) (x : ℕ) (zs : List ℕ) (b : ℕ) (ys : List ℕ)
    → IsRing l a (xs ++ x ∷ zs)
    → IsRing l b ys
    → Apart (a ∷ (xs ++ x ∷ zs)) (b ∷ ys)
    → IsRing (chain_delete l x) b ys
chain_delete-keeps l a xs x zs b ys ring other apart =
    let P = λ (v : ℕ). Fresh v (b ∷ ys) in
    let s = Linked-split l a xs x zs a ring.linked in
    let ap = All-split P (a ∷ xs) (x ∷ zs) apart in
    let w = last a xs in
    let z = l.next x in
    let fw = last-All P a xs ap.0 in
    let fz = next-All P l x zs a s.1 apart.0 ap.1.1 in
    let l1 = set_next l w z in
    let l2 = set_prev l1 z w in
    let l3 = set_next l2 x x in
    rw (chain_delete-eq l x w z (prev-last l a xs x s.0) refl) (
      IsRing-set_prev l3 x x b ys ap.1.0 (
        IsRing-set_next l2 x x b ys ap.1.0
          (IsRing-set_prev l1 z w b ys fz (IsRing-set_next l w z b ys fw other))))

-- Where two chains have no link in common, `dthr_chain_dequeue` from the one leaves the other as it
-- was.
pub chain_dequeue-keeps :
    (l : Links) (a : ℕ) (xs : List ℕ) (b : ℕ) (ys : List ℕ)
    → IsRing l a xs
    → IsRing l b ys
    → Apart (a ∷ xs) (b ∷ ys)
    → IsRing (chain_dequeue l a).1 b ys
unfolding chain_dequeue
chain_dequeue-keeps l a [] b ys ring other apart =
    let h : (l.next a == a) ≡ true = rw ring.linked.0 (==_refl a) in rw h other
chain_dequeue-keeps l a (x ∷ xs) b ys ring other apart =
    let h : (l.next a == a) ≡ false = unfold chain_empty in (chain_empty-eq l a x xs ring) in
    rw h (rw ring.linked.0 (chain_delete-keeps l a [] x xs b ys ring other apart))
