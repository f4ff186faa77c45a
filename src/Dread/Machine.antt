-- ===== src/Dread/Machine.antt =====
-- ports/dreadthread/dread.c: one step of the current thread, and the start of multithreading.
use webports.Prelude.{ℕ, zero, suc, Bool, [], ◌∷◌, ◌++◌}
use webports.Dread.World.{
  Prog, Run, ok, ◌>>=◌, World, ret, exit, yield, semaphore_init, semaphore_try, take, take_no_yield,
  drop, drop_no_yield, event_init, wait, broadcast, broadcast_no_yield, signal, signal_no_yield,
  thread_init, on_exit, thread_run, thread_wait, detach, sleep, sleep_leave, finish, launch,
  launcher, stopped, enqueue_new, base_launch, thread_magic, topmost_thread, newq_sema, newq_event,
  set_thread,
}
use webports.Dread.Switch.{thread_yield, thread_sleep, thread_sleep_leave}
use webports.Dread.Semaphore
use webports.Dread.Event
use webports.Dread.Thread
use webports.Dread.Launch

-- The program that uses the package: the functions of its threads and its exit functions by their
-- addresses, its hook on deadlock, what `malloc` does, and the sizes of two stack frames.
pub record Code : Type 0 where
  pub fn : ℕ → ℕ → Prog
  pub hook : ℕ → ℕ → ℕ → Prog → Prog
  pub on_deadlock : World → World × Bool
  pub malloc : ℕ → Bool
  pub frame : ℕ
  pub launcher_frame : ℕ

-- `pc` is set to what follows.
abbrev pub resume : Prog → World → World
resume k w = record w { pc = k }

module _ (code : Code) where
  unfoldable pub exec : Prog → World → Run World
  exec (ret value) w = ok (Thread.thread_return value w)
  exec (exit status) w = Thread.thread_exit code.hook status w
  exec (yield k) w = thread_yield k w
  exec (semaphore_init s value k) w = ok (resume k (Semaphore.init s value w))
  exec (semaphore_try s k) w = do (w', taken) ← Semaphore.try_take s w; ok (resume (k taken) w')
  exec (take s k) w = thread_yield (take_no_yield s k) w
  exec (take_no_yield s k) w = Semaphore.take_step s k w
  exec (drop s k) w = Semaphore.release_yield s k w
  exec (drop_no_yield s k) w = do w' ← Semaphore.release s w; ok (resume k w')
  exec (event_init e k) w = ok (resume k (Event.init e w))
  exec (wait e lock k) w = Event.wait_step e lock k w
  exec (broadcast e k) w = Event.broadcast_yield e k w
  exec (broadcast_no_yield e k) w = do w' ← Event.broadcast e w; ok (resume k w')
  exec (signal e k) w = Event.signal_yield e k w
  exec (signal_no_yield e k) w = do w' ← Event.signal e w; ok (resume k w')
  exec (thread_init th fn arg size k) w = ok (resume k (Thread.thread_init th fn arg size w))
  exec (on_exit th fn arg k) w = do
    (w', done) ← Thread.add_on_exit code.malloc th fn arg w
    ok (resume (k done) w')
  exec (thread_run th k) w = Thread.run th k w
  exec (thread_wait th k) w = Thread.join th k w
  exec (detach th k) w = Thread.detach_thread th k w
  exec (sleep k) w = thread_sleep code.on_deadlock k w
  exec sleep_leave w = thread_sleep_leave code.on_deadlock w
  exec finish w = ok (Thread.thread_finish code.hook w)
  exec launch w = Launch.launch_step code.malloc code.frame code.launcher_frame w
  exec launcher w = ok (Launch.launcher_start w)
  exec stopped w = ok w
  exec (enqueue_new th k) w = ok (Thread.enqueue th k w)
  exec (base_launch stk) w = Launch.base_step code.fn stk w

  unfoldable pub step : World → Run World
  unfolding exec
  step w = exec w.pc w

  -- A number of steps, or fewer where the package aborts.
  unfoldable pub steps : ℕ → World → Run World
  unfolding step
  steps zero w = ok w
  steps (suc n) w = step w >>= steps n

-- `dthr_init`, on the state of the structures before it.
unfoldable pub init : World → World
unfolding Semaphore.init Event.init
init w =
    let w1 = record w { free_stacks = []; active_stacks = []; runq = []; newq = [] } in
    let t = record (w1.threads topmost_thread) { stack = 0; magic = thread_magic } in
    Event.init newq_event (Semaphore.init newq_sema 1 (set_thread w1 topmost_thread t))

-- `dthr_thread_multithread`, up to the launcher's start.
unfoldable pub multithread : ℕ → World → World
multithread th w = record w { newq = w.newq ++ th ∷ []; cur = topmost_thread; pc = launcher }
