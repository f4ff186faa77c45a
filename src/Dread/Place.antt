-- ===== src/Dread/Place.antt =====
-- Where each thread of ports/dreadthread/dread.c stands: an assignment of places to threads that
-- says which queue may hold a thread's link. A thread has one link, so it is on one chain at most.
pub mod Relocate
pub mod Load
pub mod Yield
pub mod Sleep
pub mod Wake
pub mod Semaphores
pub mod Events
pub mod Threads
pub mod Launching
pub mod Growing
pub mod Base
pub mod Permits
pub mod Step
pub mod Start
use webports.Prelude.{ℕ, ◌+◌, ◌<◌, List, [], ◌≡◌, ◌≢◌, ◌⊎◌, All, Distinct, if◌then◌else◌, ◌==◌}
use webports.Dread.World.{
  runnable, sema_wait, event_wait, Prog, sleep, sleep_leave, stopped, Run, ok, abort, Thread, Stack,
  World, topmost_stack, topmost_thread,
}

-- `running` is the current thread; `idle` is a thread that is on no queue, not started or exited.
pub data Place : Type 0 where
  running ready new idle : Place
  at_semaphore at_event : ℕ → Place

-- The queue of a place.
abbrev pub queue : World → Place → List ℕ
queue w running = []
queue w idle = []
queue w ready = w.runq
queue w new = w.newq
queue w (at_semaphore s) = (w.semaphores s).threadq
queue w (at_event e) = (w.events e).threadq

-- The queue holds threads of the place `v` only, and none twice.
abbrev pub Holds : (ℕ → Place) → Place → List ℕ → Type 0
Holds p v xs = All (λ t. p t ≡ v) xs × Distinct xs

-- The current thread makes calls only while it runs. A thread that sleeps may be on a queue, and
-- one that leaves is on none.
abbrev pub Current : (ℕ → Place) → Prog → ℕ → Type 0
Current p (sleep _) c = Unit
Current p stopped c = Unit
Current p sleep_leave c = (p c ≡ running) ⊎ (p c ≡ idle)
Current p _ c = p c ≡ running

-- A thread and its stack are bound to one another, and the topmost stack is the topmost thread's.
abbrev pub Bound : Thread → (ℕ → Stack) → ℕ → ℕ → Type 0
Bound th stacks made t =
    th.stack ≢ 0
    → ((stacks th.stack).thread ≡ t)
      × (th.stack < made + 2)
      × (th.stack ≡ topmost_stack → t ≡ topmost_thread)

-- What holds of a thread at its place.
abbrev pub Stands : Place → Thread → (ℕ → Stack) → ℕ → ℕ → Type 0
Stands running th stacks made t = (th.state ≡ runnable) × Bound th stacks made t
Stands ready th stacks made t = (th.state ≡ runnable) × Bound th stacks made t
Stands (at_semaphore _) th stacks made t = (th.state ≡ sema_wait) × Bound th stacks made t
Stands (at_event _) th stacks made t = (th.state ≡ event_wait) × Bound th stacks made t
Stands new th stacks made t = Unit
Stands idle th stacks made t = Unit

-- Every queue holds threads of its own place, and each thread is as its place says.
pub record IsQueued (p : ℕ → Place) (w : World) : Type 0 where
  pub queues : (v : Place) → Holds p v (queue w v)
  pub stands : (t : ℕ) → Stands (p t) (w.threads t) w.stacks w.stacks_made t

-- So too the thread whose turn it is.
pub record IsPlaced (p : ℕ → Place) (w : World) : Type 0 where
  pub queued : IsQueued p w
  pub current : Current p w.pc w.cur

abbrev pub put : (ℕ → Place) → ℕ → Place → ℕ → Place
put p t v x = if x == t then v else p x

abbrev pub Placed : World → Type 0
Placed w = (p : ℕ → Place) × IsPlaced p w

-- The package gives up, or goes on in such a state.
abbrev pub Leads : Run World → Type 0
Leads (ok w) = Placed w
Leads (abort _) = Unit
