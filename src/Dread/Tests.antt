-- ===== src/Dread/Tests.antt =====
-- Runs of the package on small programs.
use webports.Prelude.{Bool, ◌≡◌, refl, ℕ, zero, suc, true, false, [], none}
use webports.Dread.World.{
  runnable, Prog, ret, yield, semaphore_init, take, drop, stopped, Run, ok, abort, World,
  thread_run, thread_init,
}
use webports.Dread.Machine.{Code, init, multithread, exec, step, steps}
use webports.Dread.Semaphore
use webports.Dread.Event
use webports.Dread.Switch
use webports.Dread.Launch
use webports.Dread.Thread

-- Memory that was never written.
abbrev pub blank : World
blank = record {
  pc = stopped;
  cur = 0;
  runq = [];
  newq = [];
  free_stacks = [];
  active_stacks = [];
  semaphores = λ _. record { magic = 0; value = 0; threadq = [] };
  events = λ _. record { magic = 0; threadq = [] };
  threads = λ _. record {
    magic = 0;
    fn = 0;
    fn_arg = 0;
    stack_size = 0;
    state = runnable;
    stack = 0;
    on_exit = [];
    exit_value = 0;
  };
  stacks = λ _. record {
    magic = 0;
    stack_size = 0;
    stack_base = 0;
    stack_top = 0;
    thread = 0;
    regs = none;
    base = none;
  };
  depth = 1000;
  stacks_made = 1;
  mallocs = 0;
}

-- Thread 1 starts thread 2, which holds a semaphore while it yields.
pub fn_of : ℕ → ℕ → Prog
fn_of zero arg =
    thread_init 2 1 7 512 (thread_run 2 (semaphore_init 2 1 (take 2 (yield (drop 2 (ret 3))))))
fn_of (suc _) arg = take 2 (yield (drop 2 (ret arg)))

abbrev pub code : Code
code = record {
  fn = fn_of;
  hook = λ _ _ _ k. k;
  on_deadlock = λ w. (w, false);
  malloc = λ _. true;
  frame = 64;
  launcher_frame = 128;
}

start : World
unfolding init multithread Thread.thread_init
start = multithread 1 (Thread.thread_init 1 0 0 4096 (init blank))

-- Whether a run has come to its end.
abbrev is_over : Run World → Bool
is_over (abort _) = false
is_over (ok w) = elim w.pc [ stopped ↦ true | _ ↦ false ]

-- Both threads end, and then no thread can run.
run_all : is_over (steps code 40 start) ≡ true
unfolding start steps step exec Semaphore.init Semaphore.take_step Semaphore.wake Semaphore.release
    Semaphore.release_yield Event.wait_step Event.init Event.move Event.eventq_to_runq Event.signal
    Switch.load Switch.csw Switch.delete Switch.retire Switch.csw_exit Switch.yield_on
    Switch.thread_yield Switch.sleep_on Switch.thread_sleep Switch.leave_on
    Switch.thread_sleep_leave Launch.find_free_stack Launch.scan_free Launch.grow Launch.bind_stack
    Launch.new_stack Launch.new_topmost_thread Launch.launch_new Launch.launch_on Launch.launch_step
    Launch.launcher_start Launch.base_step Thread.thread_init Thread.run Thread.enqueue
    Thread.finish_on Thread.thread_finish Thread.thread_return fn_of
run_all = refl
