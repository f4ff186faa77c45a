-- ===== src/Dread/Place/Relocate.antt =====
-- A thread moves from one place to another: what the queues then hold.
use webports.Prelude.{
  ℕ, List, [], ◌∷◌, ◌++◌, ◌≡◌, ◌≢◌, inl, inr, sym, ap, ◌∙◌, true, false, ◌==◌, ==_refl, ne→==, All,
  Fresh, Distinct-snoc, Bool-cases, ==_iff,
}
use webports.Dread.World.{World, Thread, update}
use webports.Dread.Place.{
  Place, running, ready, new, idle, at_semaphore, at_event, queue, Holds, put, Stands, IsQueued,
}

-- A thread of another place is not on the queue.
Fresh-place :
    (p : ℕ → Place) (v : Place) (t : ℕ) (xs : List ℕ) → p t ≢ v → All (λ x. p x ≡ v) xs → Fresh t xs
Fresh-place p v t [] n a = tt
Fresh-place p v t (x ∷ xs) n a = ((λ e. n (rw e a.0)), Fresh-place p v t xs n a.1)

All-put :
    (p : ℕ → Place) (u v : Place) (t : ℕ) (xs : List ℕ)
    → Fresh t xs
    → All (λ x. p x ≡ v) xs
    → All (λ x. put p t u x ≡ v) xs
All-put p u v t [] f a = tt
All-put p u v t (x ∷ xs) f a = (rw (ne→== x t (λ e. f.0 (sym e))) a.0, All-put p u v t xs f.1 a.1)

All-snoc :
    (p : ℕ → Place) (v : Place) (t : ℕ) (xs : List ℕ)
    → All (λ x. p x ≡ v) xs
    → p t ≡ v
    → All (λ x. p x ≡ v) (xs ++ t ∷ [])
All-snoc p v t [] a e = (e, tt)
All-snoc p v t (x ∷ xs) a e = (a.0, All-snoc p v t xs a.1 e)

-- What becomes of one queue when `t` moves from `u` to `v`.
pub data Change (t : ℕ) (u v x : Place) (xs ys : List ℕ) : Type 0 where
  same : u ≢ x → ys ≡ xs → Change t u v x xs ys
  joins : v ≡ x → u ≢ x → ys ≡ xs ++ t ∷ [] → Change t u v x xs ys
  leaves : u ≡ x → xs ≡ t ∷ ys → Change t u v x xs ys
  clears : ys ≡ [] → Change t u v x xs ys

pub Holds-Change :
    (p : ℕ → Place) (t : ℕ) (u v x : Place) (xs ys : List ℕ)
    → p t ≡ u
    → Holds p x xs
    → Change t u v x xs ys
    → Holds (put p t v) x ys
Holds-Change p t u v x xs ys e h (same n q) =
    let f = Fresh-place p x t xs (λ e'. n (sym e ∙ e')) h.0 in rw q (All-put p v x t xs f h.0, h.1)
Holds-Change p t u v x xs ys e h (joins j n q) =
    let f = Fresh-place p x t xs (λ e'. n (sym e ∙ e')) h.0 in
    rw q (
      All-snoc (put p t v) x t xs (All-put p v x t xs f h.0) (rw ==_refl j),
      Distinct-snoc xs t h.1 f,
    )
Holds-Change p t u v x xs ys e h (leaves l q) =
    let h' : Holds p x (t ∷ ys) = rw q at h in (All-put p v x t ys h'.1.0 h'.0.1, h'.1.1)
Holds-Change p t u v x xs ys e h (clears q) = rw q (tt, tt)

pub Stands-put :
    (p : ℕ → Place) (w : World) (t : ℕ) (v : Place)
    → ((x : ℕ) → Stands (p x) (w.threads x) w.stacks w.stacks_made x)
    → Stands v (w.threads t) w.stacks w.stacks_made t
    → (x : ℕ) → Stands (put p t v x) (w.threads x) w.stacks w.stacks_made x
Stands-put p w t v h k x = elim (Bool-cases (x == t)) [
  | inl e ↦ rw (e, (==_iff x t).0 e) k
  | inr e ↦ rw e (h x)
]

-- The queues of two worlds that differ in other fields.
pub IsQueued-same :
    (p : ℕ → Place) (w w' : World)
    → IsQueued p w
    → w'.runq ≡ w.runq
    → w'.newq ≡ w.newq
    → w'.semaphores ≡ w.semaphores
    → w'.events ≡ w.events
    → ((x : ℕ) → Stands (p x) (w'.threads x) w'.stacks w'.stacks_made x)
    → IsQueued p w'
IsQueued-same p w w' h r n s e k = record { queues = go; stands = k }
  where
    go : (v : Place) → Holds p v (queue w' v)
    go running = h.queues running
    go idle = h.queues idle
    go ready = rw r (h.queues ready)
    go new = rw n (h.queues new)
    go (at_semaphore i) = rw s (h.queues (at_semaphore i))
    go (at_event i) = rw e (h.queues (at_event i))

pub relocate :
    (p : ℕ → Place) (w w' : World) (t : ℕ) (u v : Place)
    → IsQueued p w
    → p t ≡ u
    → ((x : Place) → Change t u v x (queue w x) (queue w' x))
    → ((x : ℕ) → Stands (put p t v x) (w'.threads x) w'.stacks w'.stacks_made x)
    → IsQueued (put p t v) w'
relocate p w w' t u v h e c k = record {
  queues = λ x. Holds-Change p t u v x (queue w x) (queue w' x) e (h.queues x) (c x);
  stands = k;
}

-- The thread that moves is written too.
pub Stands-write :
    (p : ℕ → Place) (w : World) (t : ℕ) (v : Place) (th : Thread)
    → ((x : ℕ) → Stands (p x) (w.threads x) w.stacks w.stacks_made x)
    → Stands v th w.stacks w.stacks_made t
    → (x : ℕ) → Stands (put p t v x) (update w.threads t th x) w.stacks w.stacks_made x
Stands-write p w t v th h k x = elim (Bool-cases (x == t)) [
  | inl e ↦ rw (e, (==_iff x t).0 e) k
  | inr e ↦ rw e (h x)
]

-- The change of one queue among those of one kind, where the queue at `s` is written.
pub joins_at :
    (t i s : ℕ) (u : Place) (kind : ℕ → Place) (q : ℕ → List ℕ) (ys : List ℕ)
    → u ≢ kind i
    → ((i == s) ≡ true → ys ≡ q s ++ t ∷ [])
    → ((i == s) ≡ false → ys ≡ q i)
    → Change t u (kind s) (kind i) (q i) ys
joins_at t i s u kind q ys n f g = elim (Bool-cases (i == s)) [
  | inl e ↦ let d = (==_iff i s).0 e in joins (ap kind (sym d)) n (rw d (f e))
  | inr e ↦ same n (g e)
]

pub leaves_at :
    (t i s : ℕ) (v : Place) (kind : ℕ → Place) (q : ℕ → List ℕ) (rest ys : List ℕ)
    → (kind s ≡ kind i → s ≡ i)
    → q s ≡ t ∷ rest
    → ((i == s) ≡ true → ys ≡ rest)
    → ((i == s) ≡ false → ys ≡ q i)
    → Change t (kind s) v (kind i) (q i) ys
leaves_at t i s v kind q rest ys n z f g = elim (Bool-cases (i == s)) [
  | inl e ↦ let d = (==_iff i s).0 e in leaves (ap kind (sym d)) (rw (d, f e) z)
  | inr e ↦ same (λ d. cc (sym e ∙ (==_iff i s).1 (sym (n d)))) (g e)
]
