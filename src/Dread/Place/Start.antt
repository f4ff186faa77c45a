-- ===== src/Dread/Place/Start.antt =====
-- The start of multithreading puts every thread in its place.
use webports.Prelude.{
  ℕ, [], ◌≡◌, ◌≢◌, refl, sym, subst, inl, inr, ◌==◌, Bool-cases, ==_iff, ==_refl, ne→==,
  if◌then◌else◌,
}
use webports.Dread.World.{
  World, runnable, topmost_thread, update, Semaphore, exit_sema, semaphore_magic, newq_sema,
}
use webports.Dread.Thread.{thread_init}
use webports.Dread.Machine.{init, multithread}
use webports.Dread.Place.{
  Place, running, ready, new, idle, at_semaphore, at_event, queue, Holds, Stands, IsPlaced,
}

-- Memory before the package's first call: no semaphore or event has a queue, and the topmost
-- thread's descriptor, a static variable, has the state 0.
pub record IsStatic (w : World) : Type 0 where
  pub semaphores : (s : ℕ) → (w.semaphores s).threadq ≡ []
  pub events : (e : ℕ) → (w.events e).threadq ≡ []
  pub topmost : (w.threads topmost_thread).state ≡ runnable

-- The topmost thread runs, and the program's first thread is new.
abbrev pub start_place : ℕ → ℕ → Place
start_place th t = if t == topmost_thread then running else if t == th then new else idle

-- `dthr_init`, `dthr_thread_init` and `dthr_thread_multithread`, as a program calls them.
unfoldable pub start : ℕ → ℕ → ℕ → ℕ → World → World
unfolding init thread_init multithread
start th fn arg size w = multithread th (thread_init th fn arg size (init w))

empty_queue :
    (m : ℕ → Semaphore) (s i : ℕ) (v : Semaphore)
    → v.threadq ≡ []
    → ((j : ℕ) → (m j).threadq ≡ [])
    → (update m s v i).threadq ≡ []
empty_queue m s i v e h = elim (Bool-cases (i == s)) [ inl d ↦ rw d e | inr d ↦ rw d (h i) ]

-- From static memory, with the first thread's descriptor not the topmost one, `dthr_init`,
-- `dthr_thread_init` and `dthr_thread_multithread` put every thread in its place: the topmost thread
-- runs, the first thread is new, and no other is on a queue.
pub start-IsPlaced :
    (th fn arg size : ℕ) (w : World)
    → IsStatic w
    → th ≢ topmost_thread
    → IsPlaced (start_place th) (start th fn arg size w)
unfolding start
start-IsPlaced th fn arg size w h n = record {
  queued = record { queues = go; stands = stand };
  current = refl;
}
  where
    made : ℕ → Semaphore
    made value = record { magic = semaphore_magic; value = value; threadq = [] }

    w' : World
    w' = start th fn arg size w

    go : (v : Place) → Holds (start_place th) v (queue w' v)
    go running = (tt, tt)
    go ready = (tt, tt)
    go idle = (tt, tt)
    go new = ((rw (ne→== th topmost_thread n) (rw ==_refl), tt), (tt, tt))
    go (at_semaphore s) =
        subst (Holds (start_place th) (at_semaphore s))
          (sym (
            empty_queue (update w.semaphores newq_sema (made 1)) (exit_sema th) s (made 0) refl
              (λ i. empty_queue w.semaphores newq_sema i (made 1) refl h.semaphores)))
          (tt, tt)
    go (at_event e) = elim (Bool-cases (e == 0)) [
      | inl d ↦ rw (d, queue) (tt, tt)
      | inr d ↦ rw (d, queue, h.events e) (tt, tt)
    ]

    stand : (t : ℕ) → Stands (start_place th t) (w'.threads t) w'.stacks w'.stacks_made t
    stand t = elim (Bool-cases (t == topmost_thread)) [
      | inl d ↦
          let z = (==_iff t topmost_thread).0 d in
          rw (z, ne→== topmost_thread th (λ e. n (sym e))) (h.topmost, λ x. absurd (x refl))
      | inr d ↦ elim (Bool-cases (t == th)) [ inl e ↦ rw (d, e) tt | inr e ↦ rw (d, e) tt ]
    ]
