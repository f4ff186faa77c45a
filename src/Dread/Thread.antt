-- ===== src/Dread/Thread.antt =====
-- ports/dreadthread/dread.c: thread descriptors, exit functions and the end of a thread.
use webports.Prelude.{ℕ, ◌+◌, ◌%◌, Bool, true, false, List, [], ◌∷◌, ◌++◌, if◌then◌else◌}
use webports.Dread.World.{
  exited, runnable, Prog, exit, take, take_no_yield, drop, signal_no_yield, sleep_leave, finish,
  enqueue_new, Run, ok, ◌>>◌, check_thread, thread_magic, exit_sema, newq_sema, newq_event,
  ThreadExit, World, set_thread,
}
use webports.Dread.Semaphore
use webports.Dread.Semaphore.{init}

-- `dthr_thread_init`. The size, a `size_t`, is stored in an `int` of 32 bits, here its bits.
unfoldable pub thread_init : ℕ → ℕ → ℕ → ℕ → World → World
unfolding Semaphore.init
thread_init th fn fn_arg requested_stack_size w =
    let t = record (w.threads th) {
      fn = fn;
      fn_arg = fn_arg;
      stack_size = requested_stack_size % 0x1_0000_0000;
      exit_value = 0;
      state = runnable;
      stack = 0;
      on_exit = [];
      magic = thread_magic;
    } in
    set_thread (Semaphore.init (exit_sema th) 0 w) th t

-- `dthr_thread_on_exit`; `malloc` says which calls of `malloc` succeed.
unfoldable pub add_on_exit : (ℕ → Bool) → ℕ → ℕ → ℕ → World → Run (World × Bool)
add_on_exit malloc th fn arg w =
    let w1 = record w { mallocs = w.mallocs + 1 } in
    if malloc w.mallocs
    then check_thread w th
      >> (let t = w.threads th in
          let x : ThreadExit = record { fn = fn; arg = arg } in
          ok (set_thread w1 th (record t { on_exit = x ∷ t.on_exit }), true))
    else ok (w1, false)

-- `dthr_thread_run`: the steps that follow its test. The new queue's semaphore may make it wait.
unfoldable pub run : ℕ → Prog → World → Run World
run th k w =
    check_thread w th
    >> ok (record w {
      pc = take_no_yield newq_sema (enqueue_new th (signal_no_yield newq_event (drop newq_sema k)));
    })

unfoldable pub enqueue : ℕ → Prog → World → World
enqueue th k w = record w { newq = w.newq ++ th ∷ []; pc = k }

-- `dthr_thread_wait`
unfoldable pub join : ℕ → Prog → World → Run World
join th k w =
    check_thread w th >> ok (record w { pc = take (exit_sema th) (drop (exit_sema th) k) })

-- `dthr_thread_detach`
unfoldable pub detach_thread : ℕ → Prog → World → Run World
detach_thread th k w = check_thread w th >> ok (record w { pc = drop (exit_sema th) k })

-- One round of the loop over the exit functions, the first of which is called with what follows
-- it, or the end of the thread.
module _ (hook : ℕ → ℕ → ℕ → Prog → Prog) where
  unfoldable pub exit_on : List ThreadExit → ℕ → World → Run World
  exit_on (x ∷ next) status w =
      ok (record (set_thread w w.cur (record (w.threads w.cur) { on_exit = next })) {
        pc = hook x.fn w.cur x.arg (exit status);
      })
  exit_on [] status w =
      let th = record (w.threads w.cur) { exit_value = status; state = exited } in
      check_thread w w.cur >> ok (record (set_thread w w.cur th) { pc = sleep_leave })

  -- `dthr_thread_exit`
  unfoldable pub thread_exit : ℕ → World → Run World
  unfolding exit_on
  thread_exit status w = exit_on (w.threads w.cur).on_exit status w

  -- The same in the launcher, behind the return of the thread's function, with no test.
  unfoldable pub finish_on : List ThreadExit → World → World
  finish_on (x ∷ next) w =
      record (set_thread w w.cur (record (w.threads w.cur) { on_exit = next })) {
        pc = hook x.fn w.cur x.arg finish;
      }
  finish_on [] w = record (set_thread w w.cur (record (w.threads w.cur) { state = exited })) {
    pc = sleep_leave;
  }

  unfoldable pub thread_finish : World → World
  unfolding finish_on
  thread_finish w = finish_on (w.threads w.cur).on_exit w

-- The return of the thread's function to the launcher.
unfoldable pub thread_return : ℕ → World → World
thread_return value w =
    record (set_thread w w.cur (record (w.threads w.cur) { exit_value = value })) { pc = finish }
