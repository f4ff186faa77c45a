-- ===== src/Dread/Chain/Ring.antt =====
-- A chain as the list of the links behind its anchor, and each operation as one on that list.
use webports.Prelude.{
  ℕ, List, [], ◌∷◌, ◌++◌, ◌≡◌, ◌≢◌, sym, arith, Fresh, Distinct, Distinct-snoc, ne→==, ==_refl,
}
use webports.Dread.Chain.{
  Links, set_prev, set_next, chain_init, chain_insert_after, chain_insert_before,
}

-- From `p` the next pointers lead through `xs` to `q`, and the prev pointers lead back.
abbrev pub Linked : Links → ℕ → List ℕ → ℕ → Type 0
Linked l p [] q = (l.next p ≡ q) × (l.prev q ≡ p)
Linked l p (x ∷ xs) q = (l.next p ≡ x) × (l.prev x ≡ p) × Linked l x xs q

-- The chain at `anchor` holds the links `xs`, first to last, and none of them twice.
pub record IsRing (l : Links) (anchor : ℕ) (xs : List ℕ) : Type 0 where
  pub linked : Linked l anchor xs anchor
  pub distinct : Distinct (anchor ∷ xs)

abbrev pub last : ℕ → List ℕ → ℕ
last p [] = p
last p (x ∷ xs) = last x xs

pub prev-last : (l : Links) (p : ℕ) (xs : List ℕ) (q : ℕ) → Linked l p xs q → l.prev q ≡ last p xs
prev-last l p [] q h = h.1
prev-last l p (x ∷ xs) q h = prev-last l x xs q h.2

pub Linked-split :
    (l : Links) (p : ℕ) (xs : List ℕ) (x : ℕ) (ys : List ℕ) (q : ℕ)
    → Linked l p (xs ++ x ∷ ys) q
    → Linked l p xs x × Linked l x ys q
Linked-split l p [] x ys q h = ((h.0, h.1), h.2)
Linked-split l p (y ∷ xs) x ys q h =
    let r = Linked-split l y xs x ys q h.2 in ((h.0, h.1, r.0), r.1)

pub Linked-join :
    (l : Links) (p : ℕ) (xs : List ℕ) (x : ℕ) (ys : List ℕ) (q : ℕ)
    → Linked l p xs x
    → Linked l x ys q
    → Linked l p (xs ++ x ∷ ys) q
Linked-join l p [] x ys q h k = (h.0, h.1, k)
Linked-join l p (y ∷ xs) x ys q h k = (h.0, h.1, Linked-join l y xs x ys q h.2 k)

last-Fresh : (a p : ℕ) (xs : List ℕ) → Fresh a (p ∷ xs) → a ≢ last p xs
last-Fresh a p [] f = f.0
last-Fresh a p (x ∷ xs) f = last-Fresh a x xs f.1

pub Linked-set_next :
    (l : Links) (a v p : ℕ) (xs : List ℕ) (q : ℕ)
    → Fresh a (p ∷ xs)
    → Linked l p xs q
    → Linked (set_next l a v) p xs q
Linked-set_next l a v p [] q f h = ground arith
Linked-set_next l a v p (x ∷ xs) q f h = (ground arith, h.1, Linked-set_next l a v x xs q f.1 h.2)

pub Linked-set_prev :
    (l : Links) (a v p : ℕ) (xs : List ℕ) (q : ℕ)
    → Fresh a xs
    → a ≢ q
    → Linked l p xs q
    → Linked (set_prev l a v) p xs q
Linked-set_prev l a v p [] q f n h = ground arith
Linked-set_prev l a v p (x ∷ xs) q f n h =
    (h.0, ground arith, Linked-set_prev l a v x xs q f.1 n h.2)

-- Writing the last next pointer leads the list to another end that points back already.
pub Linked-relink :
    (l : Links) (p : ℕ) (xs : List ℕ) (q r : ℕ)
    → Distinct (p ∷ xs)
    → l.prev r ≡ last p xs
    → Linked l p xs q
    → Linked (set_next l (last p xs) r) p xs r
Linked-relink l p [] q r d e h = ground arith
Linked-relink l p (x ∷ xs) q r d e h =
    let n = last-Fresh p x xs d.0 in (ground arith, h.1, Linked-relink l x xs q r d.1 e h.2)

-- `dthr_chain_init` makes an empty chain.
pub chain_init-IsRing : (l : Links) (a : ℕ) → IsRing (chain_init l a) a []
unfolding chain_init
chain_init-IsRing l a = ground arith

-- The order of the writes, with the last link named.
pub chain_insert_before-eq :
    (l : Links) (a new z : ℕ)
    → a ≢ new
    → l.prev a ≡ z
    → chain_insert_before l a new
      ≡ set_prev (set_next (set_next (set_prev l new z) new a) z new) a new
unfolding chain_insert_before
chain_insert_before-eq l a new z n e = rw (ne→== a new n, e)

-- `dthr_chain_enqueue`: a link that is not in the chain comes behind its last.
pub chain_insert_before-IsRing :
    (l : Links) (a : ℕ) (xs : List ℕ) (new : ℕ)
    → IsRing l a xs
    → Fresh new (a ∷ xs)
    → IsRing (chain_insert_before l a new) a (xs ++ new ∷ [])
chain_insert_before-IsRing l a xs new ring f =
    let z = last a xs in
    let l1 = set_prev l new z in
    let l2 = set_next l1 new a in
    let l3 = set_next l2 z new in
    let e = prev-last l a xs a ring.linked in
    let n = last-Fresh new a xs f in
    let h1 = Linked-set_prev l new z a xs a f.1 f.0 ring.linked in
    let h2 = Linked-set_next l1 new a a xs a f h1 in
    let h3 : Linked l3 a xs new = Linked-relink l2 a xs a new ring.distinct (rw ==_refl) h2 in
    let h4 = Linked-set_prev l3 a new a xs new ring.distinct.0 (λ e. f.0 (sym e)) h3 in
    rw (chain_insert_before-eq l a new z (λ e. f.0 (sym e)) e) (record {
      linked = Linked-join (set_prev l3 a new) a xs new [] a h4 (ground arith, ground arith);
      distinct = Distinct-snoc (a ∷ xs) new ring.distinct f;
    })

pub chain_insert_after-eq :
    (l : Links) (a new z : ℕ)
    → a ≢ new
    → l.next a ≡ z
    → chain_insert_after l a new
      ≡ set_next (set_prev (set_prev (set_next l new z) new a) z new) a new
unfolding chain_insert_after
chain_insert_after-eq l a new z n e = rw (ne→== a new n, e)

-- `dthr_chain_push`: a link that is not in the chain comes in front of its first.
pub chain_insert_after-IsRing :
    (l : Links) (a : ℕ) (xs : List ℕ) (new : ℕ)
    → IsRing l a xs
    → Fresh new (a ∷ xs)
    → IsRing (chain_insert_after l a new) a (new ∷ xs)
chain_insert_after-IsRing l a [] new ring f =
    let n : a ≢ new = λ e. f.0 (sym e) in
    let h = ring.linked in
    rw (chain_insert_after-eq l a new a n h.0)
      (record { linked = ground arith; distinct = ((n, tt), (tt, tt)) })
chain_insert_after-IsRing l a (x ∷ xs) new ring f =
    let n : a ≢ new = λ e. f.0 (sym e) in
    let h = ring.linked in
    let d = ring.distinct in
    let l1 = set_next l new x in
    let l2 = set_prev l1 new a in
    let l3 = set_prev l2 x new in
    let h1 = Linked-set_next l new x x xs a f.1 h.2 in
    let h2 = Linked-set_prev l1 new a x xs a f.1.1 f.0 h1 in
    let h3 = Linked-set_prev l2 x new x xs a d.1.0 (λ e. d.0.0 (sym e)) h2 in
    let h4 = Linked-set_next l3 a new x xs a d.0 h3 in
    rw (chain_insert_after-eq l a new x n h.0) (record {
      linked = (ground arith, ground arith, (ground arith, ground arith, h4));
      distinct = ((n, d.0), (f.1, d.1));
    })
