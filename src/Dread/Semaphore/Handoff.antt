-- ===== src/Dread/Semaphore/Handoff.antt =====
-- A semaphore of ports/dreadthread/dread.c between the thread that waits and the one that drops it.
use webports.Prelude.{ℕ, List, [], ◌∷◌, ◌++◌, ◌≡◌, refl, sym, ==_refl}
use webports.Dread.World.{
  runnable, sema_wait, sleep, take_no_yield, Prog, ok, World, Semaphore, semaphore_magic,
  set_semaphore, set_state,
}
use webports.Dread.Semaphore.{take_step, release, wake}

-- A semaphore that is set up, with a value and the threads that wait.
abbrev pub sema_of : ℕ → List ℕ → Semaphore
sema_of value threadq = record { magic = semaphore_magic; value = value; threadq = threadq }

-- The current thread waits for the semaphore.
abbrev pub waiting : ℕ → Prog → World → World
waiting s k w = record (set_state (set_semaphore w s (sema_of 0 (w.cur ∷ []))) w.cur sema_wait) {
  pc = sleep (take_no_yield s k);
}

-- A thread that finds the value 0 waits.
take_step-waiting :
    (s : ℕ) (k : Prog) (w : World)
    → w.semaphores s ≡ sema_of 0 []
    → take_step s k w ≡ ok (waiting s k w)
unfolding take_step
take_step-waiting s k w h = rw h refl

-- The first thread that waits is woken, with the value 1 to take.
abbrev pub woken : ℕ → ℕ → World → World
woken s th w =
    record (set_state (set_semaphore (set_semaphore w s (sema_of 1 (th ∷ []))) s (sema_of 1 [])) th
      runnable) { runq = w.runq ++ th ∷ [] }

release-woken :
    (s th : ℕ) (w : World) → w.semaphores s ≡ sema_of 0 (th ∷ []) → release s w ≡ ok (woken s th w)
unfolding release wake
release-woken s th w h = rw (h, ==_refl s) refl

-- The semaphore is taken, and the thread goes on with `k`.
abbrev pub taken : ℕ → Prog → World → World
taken s k w = record (set_semaphore w s (sema_of 0 [])) { pc = k }

take_step-taken :
    (s : ℕ) (k : Prog) (w : World)
    → w.semaphores s ≡ sema_of 1 []
    → take_step s k w ≡ ok (taken s k w)
unfolding take_step
take_step-taken s k w h = rw h refl

-- A thread takes a semaphore of value 0 for which no other waits; while it sleeps, other threads
-- bring the world to some `v` with the semaphore as it left it, and the current one drops it. Then
-- the thread is at the end of the run queue and runnable, and if it is the next to come to the
-- semaphore, its take succeeds, it goes on with what it had to do, and the value is 0 with no thread
-- waiting.
pub take_step-release :
    (s : ℕ) (k : Prog) (w v : World)
    → w.semaphores s ≡ sema_of 0 []
    → v.semaphores s ≡ sema_of 0 (w.cur ∷ [])
    → (take_step s k w ≡ ok (waiting s k w))
      × ((waiting s k w).semaphores s ≡ v.semaphores s)
      × (release s v ≡ ok (woken s w.cur v))
      × (((woken s w.cur v).threads w.cur).state ≡ runnable)
      × (take_step s k (record (woken s w.cur v) { cur = w.cur })
          ≡ ok (taken s k (record (woken s w.cur v) { cur = w.cur })))
take_step-release s k w v h g = (
  take_step-waiting s k w h,
  rw ==_refl (sym g),
  release-woken s w.cur v g,
  rw ==_refl refl,
  take_step-taken s k (record (woken s w.cur v) { cur = w.cur }) (rw ==_refl refl),
)
