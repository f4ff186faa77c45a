-- ===== src/Dread/Place/Wake.antt =====
-- What wakes a thread keeps every thread in its place.
use webports.Prelude.{
  ℕ, List, [], ◌∷◌, ◌++◌, ◌≡◌, ◌≢◌, refl, ap, subst, inl, inr, ◌==◌, Bool-cases, ==_iff, ==_refl,
  ◌+◌,
}
use webports.Dread.World.{
  Prog, Run, ok, abort, ◌>>=◌, World, Semaphore, update, sema_wait, set_semaphore, set_state,
  semaphore_magic,
}
use webports.Dread.Switch.{thread_yield}
use webports.Dread.Semaphore.{wake, release}
use webports.Dread.Place.{
  Place, running, ready, new, idle, at_semaphore, at_event, queue, Holds, put, IsQueued, Leads,
}
use webports.Dread.Place.Relocate.{
  Change, same, joins, clears, relocate, IsQueued-same, Stands-write, joins_at, leaves_at,
}
use webports.Dread.Place.Load.{Current-running, apart, put_ne}
use webports.Dread.Place.Yield.{thread_yield-Leads}

-- The package gives up, or the threads are still in their places and the current one, `c`, is at `u`.
abbrev pub LeadsQueued : ℕ → Place → Run World → Type 0
LeadsQueued c u (ok w) = (p : ℕ → Place) × IsQueued p w × (w.cur ≡ c) × (p c ≡ u)
LeadsQueued c u (abort _) = Unit

-- So too, the stacks are as they were, and what `p0` calls running still is.
abbrev pub Releases : (ℕ → Place) → World → Place → Run World → Type 0
Releases p0 w0 u (ok w) =
    (p : ℕ → Place) × IsQueued p w
    × (w.cur ≡ w0.cur)
    × (p w0.cur ≡ u)
    × (w.stacks ≡ w0.stacks)
    × ((x : ℕ) → p0 x ≡ running → p x ≡ running)
Releases p0 w0 u (abort _) = Unit

Releases-LeadsQueued :
    (p0 : ℕ → Place) (w0 : World) (u : Place) (r : Run World)
    → Releases p0 w0 u r
    → LeadsQueued w0.cur u r
Releases-LeadsQueued p0 w0 u (ok w) (p, h, c, e, s, k) = (p, h, c, e)
Releases-LeadsQueued p0 w0 u (abort _) h = tt

threadq-value :
    (m : ℕ → Semaphore) (s value i : ℕ)
    → (m i).threadq ≡ (update m s (record (m s) { value = value }) i).threadq
threadq-value m s value i = elim (Bool-cases (i == s)) [
  | inl e ↦ rw e (ap (λ j. (m j).threadq) ((==_iff i s).0 e))
  | inr e ↦ rw e
]

-- A write of a semaphore that keeps its queue.
pub queue-value :
    (p : ℕ → Place) (s value : ℕ) (w : World)
    → IsQueued p w
    → IsQueued p (set_semaphore w s (record (w.semaphores s) { value = value }))
queue-value p s value w h = record { queues = go; stands = h.stands }
  where
    go :
        (v : Place)
        → Holds p v (queue (set_semaphore w s (record (w.semaphores s) { value = value })) v)
    go running = h.queues running
    go idle = h.queues idle
    go ready = h.queues ready
    go new = h.queues new
    go (at_event i) = h.queues (at_event i)
    go (at_semaphore i) =
        subst (Holds p (at_semaphore i)) (threadq-value w.semaphores s value i)
          (h.queues (at_semaphore i))

abbrev pub blocked : ℕ → World → World
blocked s w =
    set_state
      (set_semaphore w s
        (record (w.semaphores s) { threadq = (w.semaphores s).threadq ++ w.cur ∷ [] }))
      w.cur sema_wait

pub block_semaphore :
    (p : ℕ → Place) (s : ℕ) (w : World)
    → IsQueued p w
    → p w.cur ≡ running
    → IsQueued (put p w.cur (at_semaphore s)) (blocked s w)
block_semaphore p s w h e =
    relocate p w (blocked s w) w.cur running (at_semaphore s) h e go
      (Stands-write p w w.cur (at_semaphore s) _ h.stands (refl, (rw e at (h.stands w.cur)).1))
  where
    go : (x : Place) → Change w.cur running (at_semaphore s) x (queue w x) (queue (blocked s w) x)
    go running = clears refl
    go ready = same (λ e. cc) refl
    go idle = same (λ e. cc) refl
    go new = same (λ e. cc) refl
    go (at_event i) = same (λ e. cc) refl
    go (at_semaphore i) =
        joins_at w.cur i s running at_semaphore (λ j. (w.semaphores j).threadq) _ (λ e. cc)
          (λ e. rw (e, queue)) (λ e. rw (e, queue))

-- The first thread that waits becomes ready; the current one is not it.
wake-IsQueued :
    (p : ℕ → Place) (s : ℕ) (q : List ℕ) (w : World) (u : Place)
    → IsQueued p w
    → p w.cur ≡ u
    → at_semaphore s ≢ u
    → (w.semaphores s).threadq ≡ q
    → Releases p w u (ok (wake s q w))
unfolding wake
wake-IsQueued p s [] w u h e d z = (p, h, refl, e, refl, λ x k. k)
wake-IsQueued p s (waker ∷ rest) w u h e d z =
    let r : p waker ≡ at_semaphore s = (rw z at (h.queues (at_semaphore s))).0.0 in
    let n = apart p waker w.cur (at_semaphore s) u r e d in
    (
      put p waker ready,
      relocate p w _ waker (at_semaphore s) ready h r go
          (Stands-write p w waker ready _ h.stands (refl, (rw r at (h.stands waker)).1)),
      refl,
      put_ne p waker w.cur ready u n e,
      refl,
      λ x k.
          put_ne p waker x ready running (apart p waker x (at_semaphore s) running r k (λ e. cc)) k,
    )
  where
    go :
        (x : Place)
        → Change waker (at_semaphore s) ready x (queue w x) (queue (wake s (waker ∷ rest) w) x)
    go running = clears refl
    go ready = joins refl (λ e. cc) refl
    go idle = same (λ e. cc) refl
    go new = same (λ e. cc) refl
    go (at_event i) = same (λ e. cc) refl
    go (at_semaphore i) =
        leaves_at waker i s ready at_semaphore (λ j. (w.semaphores j).threadq) rest _ (λ e. cc) z
          (λ e. rw (e, queue)) (λ e. rw (e, queue))

pub release-Releases :
    (p : ℕ → Place) (s : ℕ) (w : World) (u : Place)
    → IsQueued p w
    → p w.cur ≡ u
    → at_semaphore s ≢ u
    → Releases p w u (release s w)
unfolding release
release-Releases p s w u h e d = elim (Bool-cases ((w.semaphores s).magic == semaphore_magic)) [
  | inl m ↦
      rw m (
        wake-IsQueued p s _ _ u (queue-value p s ((w.semaphores s).value + 1) w h) e d (rw ==_refl))
  | inr m ↦ rw m tt
]

pub release-LeadsQueued :
    (p : ℕ → Place) (s : ℕ) (w : World) (u : Place)
    → IsQueued p w
    → p w.cur ≡ u
    → at_semaphore s ≢ u
    → LeadsQueued w.cur u (release s w)
release-LeadsQueued p s w u h e d =
    Releases-LeadsQueued p w u (release s w) (release-Releases p s w u h e d)

-- The current thread goes on with `k`.
pub resume-Leads :
    (k : Prog) (c : ℕ) (r : Run World)
    → LeadsQueued c running r
    → Leads (r >>= λ w. ok (record w { pc = k }))
resume-Leads k c (ok w) (p, h, d, e) = (
  p,
  record {
    queued = IsQueued-same p w _ h refl refl refl refl h.stands;
    current = Current-running p k w.cur (rw d e);
  },
)
resume-Leads k c (abort f) h = tt

-- It yields, and `k` comes then.
pub yield-Leads :
    (k : Prog) (c : ℕ) (r : Run World)
    → LeadsQueued c running r
    → Leads (r >>= λ w. thread_yield k w)
yield-Leads k c (ok w) (p, h, d, e) = thread_yield-Leads p k w h (rw d e)
yield-Leads k c (abort f) h = tt
