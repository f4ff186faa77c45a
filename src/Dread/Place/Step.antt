-- ===== src/Dread/Place/Step.antt =====
-- Every step of ports/dreadthread/dread.c keeps every thread in its place.
use webports.Prelude.{Among, All-Among, ◌∙◌, ℕ, zero, suc, ◌≡◌, refl, sym, inl, inr}
use webports.Dread.World.{
  Prog, Run, ok, abort, ◌>>=◌, World, ret, exit, yield, semaphore_init, semaphore_try, take,
  take_no_yield, drop, drop_no_yield, event_init, wait, broadcast, broadcast_no_yield, signal,
  signal_no_yield, thread_init, on_exit, thread_run, thread_wait, detach, sleep, sleep_leave,
  finish, launch, launcher, stopped, enqueue_new, base_launch,
}
use webports.Dread.Semaphore
use webports.Dread.Event
use webports.Dread.Event.{uint_max}
use webports.Dread.Thread
use webports.Dread.Machine.{Code, exec, step, steps}
use webports.Dread.Place.{
  Place, queue, running, idle, new, put, IsQueued, IsPlaced, Placed, Leads, Current,
}
use webports.Dread.Place.Load.{apart, check-Leads, Current-running, put_ne}
use webports.Dread.Place.Yield.{thread_yield-Leads}
use webports.Dread.Place.Sleep.{Keeps, thread_sleep-Leads, thread_sleep_leave-Leads}
use webports.Dread.Place.Wake.{release-LeadsQueued, resume-Leads, yield-Leads}
use webports.Dread.Place.Semaphores.{init-IsQueued, try_take-Leads, take_step-Leads}
use webports.Dread.Place.Events
use webports.Dread.Place.Events.{eventq_to_runq-LeadsQueued, wait_step-Leads}
use webports.Dread.Place.Threads.{
  thread_init-IsQueued, enqueue-IsQueued, go_on, thread_exit-Leads, thread_finish-Placed,
  thread_return-Placed, add_on_exit-Leads,
}
use webports.Dread.Place.Growing.{launch_step-Leads}
use webports.Dread.Place.Permits.{Allowed, Permits, Permits-fit}
use webports.Dread.Place.Base.{launcher_start-Placed, base_step-Leads}

module _ (code : Code) (keeps : Keeps code.on_deadlock) where
  exec-Leads :
      (p : ℕ → Place) (k : Prog) (w : World)
      → IsQueued p w
      → Current p k w.cur
      → w.pc ≡ k
      → Allowed p k w
      → Leads (exec code k w)
  unfolding exec Thread.enqueue
  exec-Leads p (ret v) w h e z a = thread_return-Placed p v w h e
  exec-Leads p (exit v) w h e z a = thread_exit-Leads code.hook p v w h e
  exec-Leads p (yield k) w h e z a = thread_yield-Leads p k w h e
  exec-Leads p (semaphore_init s v k) w h e z a =
      go_on p k (Semaphore.init s v w) (init-IsQueued p s v w h) (unfold Semaphore.init in e)
  exec-Leads p (semaphore_try s k) w h e z a = try_take-Leads p s k w h e
  exec-Leads p (take s k) w h e z a = thread_yield-Leads p (take_no_yield s k) w h e
  exec-Leads p (take_no_yield s k) w h e z a = take_step-Leads p s k w h e
  exec-Leads p (drop s k) w h e z a =
      unfold Semaphore.release_yield in
      (yield-Leads k w.cur (Semaphore.release s w)
        (release-LeadsQueued p s w running h e (λ d. cc)))
  exec-Leads p (drop_no_yield s k) w h e z a =
      resume-Leads k w.cur (Semaphore.release s w) (release-LeadsQueued p s w running h e (λ d. cc))
  exec-Leads p (event_init v k) w h e z a =
      go_on p k (Event.init v w) (Events.init-IsQueued p v w h) (unfold Event.init in e)
  exec-Leads p (wait v lock k) w h e z a = wait_step-Leads p v lock k w h e
  exec-Leads p (broadcast v k) w h e z a =
      unfold Event.broadcast_yield Event.broadcast in
      yield-Leads k w.cur _ (eventq_to_runq-LeadsQueued p v uint_max w h e)
  exec-Leads p (broadcast_no_yield v k) w h e z a =
      unfold Event.broadcast in
      resume-Leads k w.cur _ (eventq_to_runq-LeadsQueued p v uint_max w h e)
  exec-Leads p (signal v k) w h e z a =
      unfold Event.signal_yield Event.signal in
      yield-Leads k w.cur _ (eventq_to_runq-LeadsQueued p v 1 w h e)
  exec-Leads p (signal_no_yield v k) w h e z a =
      unfold Event.signal in resume-Leads k w.cur _ (eventq_to_runq-LeadsQueued p v 1 w h e)
  exec-Leads p (thread_init th fn arg size k) w h e z a =
      go_on p k (Thread.thread_init th fn arg size w) (thread_init-IsQueued p th fn arg size w h a)
        (unfold Thread.thread_init in e)
  exec-Leads p (on_exit th fn arg k) w h e z a = add_on_exit-Leads code.malloc p th fn arg k w h e
  exec-Leads p (thread_run th k) w h e z a =
      unfold Thread.run in check-Leads w th _ (go_on p _ w h e)
  exec-Leads p (thread_wait th k) w h e z a =
      unfold Thread.join in check-Leads w th _ (go_on p _ w h e)
  exec-Leads p (detach th k) w h e z a =
      unfold Thread.detach_thread in check-Leads w th _ (go_on p _ w h e)
  exec-Leads p (sleep k) w h e z a = thread_sleep-Leads code.on_deadlock keeps p k w h
  exec-Leads p sleep_leave w h (inl e) z a =
      thread_sleep_leave-Leads code.on_deadlock keeps p w h running tt (λ d. cc) e
  exec-Leads p sleep_leave w h (inr e) z a =
      thread_sleep_leave-Leads code.on_deadlock keeps p w h idle tt (λ d. cc) e
  exec-Leads p finish w h e z a = thread_finish-Placed code.hook p w h e
  exec-Leads p launch w h e z a =
      launch_step-Leads code.malloc code.frame code.launcher_frame p w h e a
  exec-Leads p launcher w h e z a = launcher_start-Placed p w h e a
  exec-Leads p stopped w h e z a = (p, record { queued = h; current = rw z tt })
  exec-Leads p (enqueue_new th k) w h e z a =
      let n = apart p th w.cur idle running a e (λ d. cc) in
      (
        put p th new,
        record {
          queued = enqueue-IsQueued p th k w h a;
          current = Current-running (put p th new) k w.cur (put_ne p th w.cur new running n e);
        },
      )
  exec-Leads p (base_launch stk) w h e z a = base_step-Leads code.fn p stk w h e a

  -- If the hook on deadlock keeps every thread in its place, every thread is in its place, and the
  -- world allows its next call (`Allowed`), then a step leaves every thread in its place, or the
  -- package aborts: each queue holds distinct threads of its own place only, a waiting or runnable
  -- thread has that state, and a thread and its stack are bound to each other.
  pub step-Leads :
      (p : ℕ → Place) (w : World) → IsPlaced p w → Allowed p w.pc w → Leads (step code w)
  unfolding step
  step-Leads p w h a = exec-Leads p w.pc w h.queued h.current refl a

  -- Whatever a run reaches permits its next call.
  abbrev pub IsPermitted : World → Type 0
  IsPermitted w = (n : ℕ) (w' : World) → steps code n w ≡ ok w' → Permits w'.pc w'

  later : (w v : World) → step code w ≡ ok v → IsPermitted w → IsPermitted v
  unfolding steps
  later w v e a n w' r = a (suc n) w' (rw e r)

  -- What a step leads to, with the rest of the run.
  onward :
      (n : ℕ) (w w' : World) (m : Run World)
      → ((v : World) → IsPermitted v → Placed v → steps code n v ≡ ok w' → Placed w')
      → IsPermitted w
      → step code w ≡ m
      → (m >>= steps code n) ≡ ok w'
      → Leads m
      → Placed w'
  onward n w w' (ok v) ih a e r l = ih v (later w v e a) l r
  onward n w w' (abort f) ih a e r l = cc

  -- A step from a world that permits its next call, whatever place a thread off the queues has.
  permitted-Leads : (w : World) → Placed w → Permits w.pc w → Leads (step code w)
  permitted-Leads w (p, h) a =
      let (q, g, e, b) = Permits-fit p w.pc w h.queued h.current a in
      step-Leads q w (record { queued = g; current = e }) b

  -- If the hook on deadlock keeps every thread in its place, every thread is in its place, and every
  -- world that the run reaches permits its next call (`Permits`: a thread that is initialised or
  -- started is not the current one and on no queue, the launcher runs on the topmost thread and finds
  -- on the free list no stack of a thread that is current or queued, and the base of a stack is the
  -- current thread's), then each world that the run reaches has every thread in its place.
  pub steps-Placed :
      (n : ℕ) (w w' : World) → IsPermitted w → Placed w → steps code n w ≡ ok w' → Placed w'
  unfolding steps
  steps-Placed zero w w' a h r = let z : w ≡ w' = cc in rw (sym z) h
  steps-Placed (suc n) w w' a h r =
      onward n w w' (step code w) (λ v. steps-Placed n v w') a refl r
        (permitted-Leads w h (a 0 w refl))

  -- If the hook on deadlock keeps every thread in its place, every thread is in its place, and every
  -- world that the run reaches permits its next call (`Permits`), then in each world that the run
  -- reaches no thread is on two of these queues: the run queue, the new queue, and those of all
  -- semaphores and events.
  pub steps-once :
      (n : ℕ) (w w' : World) (t : ℕ) (u v : Place)
      → IsPermitted w
      → Placed w
      → steps code n w ≡ ok w'
      → Among t (queue w' u)
      → Among t (queue w' v)
      → u ≡ v
  steps-once n w w' t u v a h r x y =
      let (p, k) = steps-Placed n w w' a h r in
      sym (All-Among (λ s. p s ≡ u) t (queue w' u) (k.queued.queues u).0 x)
      ∙ All-Among (λ s. p s ≡ v) t (queue w' v) (k.queued.queues v).0 y
