-- ===== src/Dread/Place/Semaphores.antt =====
-- Semaphores keep every thread in its place.
use webports.Prelude.{ℕ, ◌≡◌, refl, inl, inr, true, false, ◌==◌, Bool-cases, Bool, ◌-◌}
use webports.Dread.World.{Prog, ok, ◌>>=◌, World, set_semaphore, semaphore_magic}
use webports.Dread.Semaphore.{init, try_take, take_step}
use webports.Dread.Place.{
  Place, running, ready, new, idle, at_semaphore, at_event, queue, Holds, put, IsQueued, Leads,
}
use webports.Dread.Place.Relocate.{IsQueued-same}
use webports.Dread.Place.Load.{Current-running}
use webports.Dread.Place.Wake.{block_semaphore, blocked, queue-value, resume-Leads}

pub take_step-Leads :
    (p : ℕ → Place) (s : ℕ) (k : Prog) (w : World)
    → IsQueued p w
    → p w.cur ≡ running
    → Leads (take_step s k w)
unfolding take_step
take_step-Leads p s k w h e = elim (Bool-cases ((w.semaphores s).magic == semaphore_magic)) [
  | inl m ↦ rw m (elim (Bool-cases ((w.semaphores s).value == 0)) [
    | inl z ↦ rw z (
      put p w.cur (at_semaphore s),
      record {
        queued =
            let b = block_semaphore p s w h e in
            IsQueued-same _ (blocked s w) _ b refl refl refl refl b.stands;
        current = tt;
      },
    )
    | inr z ↦ rw z (
      p,
      record {
        queued =
            let b = queue-value p s ((w.semaphores s).value - 1) w h in
            IsQueued-same p _ _ b refl refl refl refl b.stands;
        current = Current-running p k w.cur e;
      },
    )
  ])
  | inr m ↦ rw m tt
]

pub init-IsQueued :
    (p : ℕ → Place) (s value : ℕ) (w : World) → IsQueued p w → IsQueued p (init s value w)
unfolding init
init-IsQueued p s value w h = record { queues = go; stands = h.stands }
  where
    go : (v : Place) → Holds p v (queue (init s value w) v)
    go running = h.queues running
    go idle = h.queues idle
    go ready = h.queues ready
    go new = h.queues new
    go (at_event i) = h.queues (at_event i)
    go (at_semaphore i) = elim (Bool-cases (i == s)) [
      | inl e ↦ rw (e, queue) (tt, tt)
      | inr e ↦ rw (e, queue) (h.queues (at_semaphore i))
    ]

pub try_take-Leads :
    (p : ℕ → Place) (s : ℕ) (k : Bool → Prog) (w : World)
    → IsQueued p w
    → p w.cur ≡ running
    → Leads (try_take s w >>= λ (w', taken). ok (record w' { pc = k taken }))
unfolding try_take
try_take-Leads p s k w h e = elim (Bool-cases ((w.semaphores s).magic == semaphore_magic)) [
  | inl m ↦ rw m (elim (Bool-cases ((w.semaphores s).value == 0)) [
    | inl z ↦ rw z (resume-Leads (k false) w.cur (ok w) (p, h, refl, e))
    | inr z ↦ rw z (
        resume-Leads (k true) w.cur
          (ok (set_semaphore w s (record (w.semaphores s) { value = (w.semaphores s).value - 1 })))
          (p, queue-value p s _ w h, refl, e))
  ])
  | inr m ↦ rw m tt
]
