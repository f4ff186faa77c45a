-- ===== src/Dread/Place/Events.antt =====
-- Events keep every thread in its place.
use webports.Prelude.{
  ℕ, suc, zero, List, [], ◌∷◌, ◌++◌, ◌≡◌, refl, inl, inr, ◌==◌, Bool-cases, ==_refl,
}
use webports.Dread.World.{
  Prog, Run, ok, abort, ◌>>=◌, World, runnable, event_wait, sleep, set_event, set_state,
  event_magic, thread_magic, take_no_yield,
}
use webports.Dread.Event.{init, wait_step, move, eventq_to_runq}
use webports.Dread.Place.{
  Place, running, ready, new, idle, at_semaphore, at_event, queue, Holds, put, IsQueued, Leads,
}
use webports.Dread.Place.Relocate.{
  Change, same, joins, clears, relocate, IsQueued-same, Stands-write, joins_at, leaves_at,
}
use webports.Dread.Place.Load.{apart, put_ne}
use webports.Dread.Place.Wake.{LeadsQueued, release-LeadsQueued}

abbrev blocked : ℕ → World → World
blocked i w =
    set_state (set_event w i (record (w.events i) { threadq = (w.events i).threadq ++ w.cur ∷ [] }))
      w.cur event_wait

block_event :
    (p : ℕ → Place) (s : ℕ) (w : World)
    → IsQueued p w
    → p w.cur ≡ running
    → IsQueued (put p w.cur (at_event s)) (blocked s w)
block_event p s w h e =
    relocate p w (blocked s w) w.cur running (at_event s) h e go
      (Stands-write p w w.cur (at_event s) _ h.stands (refl, (rw e at (h.stands w.cur)).1))
  where
    go : (x : Place) → Change w.cur running (at_event s) x (queue w x) (queue (blocked s w) x)
    go running = clears refl
    go ready = same (λ e. cc) refl
    go idle = same (λ e. cc) refl
    go new = same (λ e. cc) refl
    go (at_semaphore i) = same (λ e. cc) refl
    go (at_event i) =
        joins_at w.cur i s running at_event (λ j. (w.events j).threadq) _ (λ e. cc)
          (λ e. rw (e, queue)) (λ e. rw (e, queue))

-- One thread leaves the event for the run queue.
abbrev moved : ℕ → ℕ → List ℕ → World → World
moved s th rest w =
    record (set_state (set_event w s (record (w.events s) { threadq = rest })) th runnable) {
      runq = w.runq ++ th ∷ [];
    }

move_one :
    (p : ℕ → Place) (s th : ℕ) (rest : List ℕ) (w : World)
    → IsQueued p w
    → p w.cur ≡ running
    → (w.events s).threadq ≡ th ∷ rest
    → IsQueued (put p th ready) (moved s th rest w) × (put p th ready w.cur ≡ running)
move_one p s th rest w h e z =
    let r : p th ≡ at_event s = (rw z at (h.queues (at_event s))).0.0 in
    let n = apart p th w.cur (at_event s) running r e (λ e. cc) in
    (
      relocate p w (moved s th rest w) th (at_event s) ready h r go
          (Stands-write p w th ready _ h.stands (refl, (rw r at (h.stands th)).1)),
      put_ne p th w.cur ready running n e,
    )
  where
    go : (x : Place) → Change th (at_event s) ready x (queue w x) (queue (moved s th rest w) x)
    go running = clears refl
    go ready = joins refl (λ e. cc) refl
    go idle = same (λ e. cc) refl
    go new = same (λ e. cc) refl
    go (at_semaphore i) = same (λ e. cc) refl
    go (at_event i) =
        leaves_at th i s ready at_event (λ j. (w.events j).threadq) rest _ (λ e. cc) z
          (λ e. rw (e, queue)) (λ e. rw (e, queue))

pub move-LeadsQueued :
    (p : ℕ → Place) (s : ℕ) (q : List ℕ) (max : ℕ) (w : World)
    → IsQueued p w
    → p w.cur ≡ running
    → (w.events s).threadq ≡ q
    → LeadsQueued w.cur running (move s q max w)
unfolding move
move-LeadsQueued p s [] max w h e z = (p, h, refl, e)
move-LeadsQueued p s (th ∷ rest) zero w h e z = (p, h, refl, e)
move-LeadsQueued p s (th ∷ rest) (suc max) w h e z =
    elim (Bool-cases ((w.threads th).magic == thread_magic)) [
      | inl m ↦
          let one = move_one p s th rest w h e z in
          rw m (
            move-LeadsQueued (put p th ready) s rest max (moved s th rest w) one.0 one.1
              (rw ==_refl))
      | inr m ↦ rw m tt
    ]

pub eventq_to_runq-LeadsQueued :
    (p : ℕ → Place) (s max : ℕ) (w : World)
    → IsQueued p w
    → p w.cur ≡ running
    → LeadsQueued w.cur running (eventq_to_runq s max w)
unfolding eventq_to_runq
eventq_to_runq-LeadsQueued p s max w h e = elim (Bool-cases ((w.events s).magic == event_magic)) [
  | inl m ↦ rw m (move-LeadsQueued p s (w.events s).threadq max w h e refl)
  | inr m ↦ rw m tt
]

asleep-Leads :
    (k : Prog) (c : ℕ) (u : Place) (r : Run World)
    → LeadsQueued c u r
    → Leads (r >>= λ w. ok (record w { pc = sleep k }))
asleep-Leads k c u (ok w) (p, h, d, e) =
    (p, record { queued = IsQueued-same p w _ h refl refl refl refl h.stands; current = tt })
asleep-Leads k c u (abort f) h = tt

pub wait_step-Leads :
    (p : ℕ → Place) (s lock : ℕ) (k : Prog) (w : World)
    → IsQueued p w
    → p w.cur ≡ running
    → Leads (wait_step s lock k w)
unfolding wait_step
wait_step-Leads p s lock k w h e = elim (Bool-cases ((w.events s).magic == event_magic)) [
  | inl m ↦ rw m (
      asleep-Leads (take_no_yield lock k) w.cur (at_event s) _ (
        release-LeadsQueued (put p w.cur (at_event s)) lock (blocked s w) (at_event s)
          (block_event p s w h e) (rw ==_refl) (λ e. cc)))
  | inr m ↦ rw m tt
]

pub init-IsQueued : (p : ℕ → Place) (s : ℕ) (w : World) → IsQueued p w → IsQueued p (init s w)
unfolding init
init-IsQueued p s w h = record { queues = go; stands = h.stands }
  where
    go : (v : Place) → Holds p v (queue (init s w) v)
    go running = h.queues running
    go idle = h.queues idle
    go ready = h.queues ready
    go new = h.queues new
    go (at_semaphore i) = h.queues (at_semaphore i)
    go (at_event i) = elim (Bool-cases (i == s)) [
      | inl e ↦ rw (e, queue) (tt, tt)
      | inr e ↦ rw (e, queue) (h.queues (at_event i))
    ]
