-- ===== src/Dread/World.antt =====
-- ports/dreadthread/dreadthread.h and the file-scope state of dread.c. Chains are lists here: the
-- pointers below them are `Dread.Chain`. A saved context (`jmp_buf`) is the rest of the run that it
-- resumes, and stack addresses are depths, counted from the start of the process's stack in the
-- direction in which it grows. Structures of one type have numbers for addresses.
use webports.Prelude.{ℕ, ◌+◌, ◌*◌, Bool, List, Option, ◌==◌, if◌then◌else◌}

-- `DREAD_THREAD_TH_...`, the states of a thread.
pub data ThreadState : Type 0 where
  exited runnable sema_wait event_wait : ThreadState

-- What a thread has still to do: the calls that it makes into the package, each with what follows
-- it. The constructors from `sleep` on are points inside the package at which a run resumes.
pub data Prog : Type 0 where
  ret : ℕ → Prog
  exit : ℕ → Prog
  yield : Prog → Prog
  semaphore_init : ℕ → ℕ → Prog → Prog
  semaphore_try : ℕ → (Bool → Prog) → Prog
  take take_no_yield drop drop_no_yield : ℕ → Prog → Prog
  event_init : ℕ → Prog → Prog
  wait : ℕ → ℕ → Prog → Prog
  broadcast broadcast_no_yield signal signal_no_yield : ℕ → Prog → Prog
  thread_init : ℕ → ℕ → ℕ → ℕ → Prog → Prog
  on_exit : ℕ → ℕ → ℕ → (Bool → Prog) → Prog
  thread_run thread_wait detach : ℕ → Prog → Prog
  sleep : Prog → Prog
  sleep_leave finish launch launcher stopped : Prog
  enqueue_new : ℕ → Prog → Prog
  base_launch : ℕ → Prog

-- Why the package gives up: its calls of `abort()`, and a load through a null stack pointer.
pub data Fault : Type 0 where
  stack_corrupt semaphore_corrupt event_corrupt thread_corrupt context_corrupt : Fault
  no_current_stack no_stack_space null_stack : Fault

pub data Run {ℓ} (A : Type ℓ) : Type ℓ where
  ok : A → Run A
  abort : Fault → Run A

infixl 5 ◌>>=◌ ◌>>◌
abbrev pub ◌>>=◌ {ℓ κ} : {A : Type ℓ} {B : Type κ} → Run A → (A → Run B) → Run B
ok a >>= f = f a
abort e >>= f = abort e

abbrev pub ◌>>◌ {ℓ} : {B : Type ℓ} → Run (Unit {0}) → Run B → Run B
m >> k = m >>= λ _. k

-- `if (p->magic != MAGIC) abort();`
abbrev pub check : Bool → Fault → Run (Unit {0})
check b e = if b then ok tt else abort e

abbrev pub stack_magic : ℕ
stack_magic = 0x62737920

abbrev pub semaphore_magic : ℕ
semaphore_magic = 0x68657265

abbrev pub event_magic : ℕ
event_magic = 0x83651fc2

abbrev pub thread_magic : ℕ
thread_magic = 0xe32f8c27

-- `DREAD_THREAD_STACK_EXTRA`
abbrev pub stack_extra : ℕ
stack_extra = 6 * 1024

-- `none` is a context that was cleared or never saved, whose magic numbers are wrong.
pub record Stack : Type 0 where
  pub magic : ℕ
  pub stack_size : ℕ
  pub stack_base : ℕ
  pub stack_top : ℕ
  pub thread : ℕ
  pub regs : Option Prog
  pub base : Option Prog

pub record Semaphore : Type 0 where
  pub magic : ℕ
  pub value : ℕ
  pub threadq : List ℕ

pub record Event : Type 0 where
  pub magic : ℕ
  pub threadq : List ℕ

pub record ThreadExit : Type 0 where
  pub fn : ℕ
  pub arg : ℕ

-- The embedded `exit_sema` is the semaphore `exit_sema th`. A null `stack` is 0.
pub record Thread : Type 0 where
  pub magic : ℕ
  pub fn : ℕ
  pub fn_arg : ℕ
  pub stack_size : ℕ
  pub state : ThreadState
  pub stack : ℕ
  pub on_exit : List ThreadExit
  pub exit_value : ℕ

-- `dthr_topmost_thread`, `dthr_topmost_stack`, `dthr_newq_sema` and `dthr_newq_event` are the
-- structures 0, 1, 0 and 0. `pc` is what the current thread does next, `depth` is that of the
-- launcher's frame, `stacks_made` the number of stack descriptors made, whose addresses are 2, 3, …,
-- and `mallocs` counts the calls of `malloc`.
pub record World : Type 0 where
  pub pc : Prog
  pub cur : ℕ
  pub runq : List ℕ
  pub newq : List ℕ
  pub free_stacks : List ℕ
  pub active_stacks : List ℕ
  pub semaphores : ℕ → Semaphore
  pub events : ℕ → Event
  pub threads : ℕ → Thread
  pub stacks : ℕ → Stack
  pub depth : ℕ
  pub stacks_made : ℕ
  pub mallocs : ℕ

abbrev pub topmost_thread : ℕ
topmost_thread = 0

abbrev pub topmost_stack : ℕ
topmost_stack = 1

abbrev pub newq_sema : ℕ
newq_sema = 0

abbrev pub newq_event : ℕ
newq_event = 0

abbrev pub exit_sema : ℕ → ℕ
exit_sema th = 2 * th + 1

-- A write of one structure.
abbrev pub update {ℓ} : {A : Type ℓ} → (ℕ → A) → ℕ → A → ℕ → A
update f a v x = if x == a then v else f x

abbrev pub set_semaphore : World → ℕ → Semaphore → World
set_semaphore w s v = record w { semaphores = update w.semaphores s v }

abbrev pub set_event : World → ℕ → Event → World
set_event w e v = record w { events = update w.events e v }

abbrev pub set_thread : World → ℕ → Thread → World
set_thread w t v = record w { threads = update w.threads t v }

abbrev pub set_stack : World → ℕ → Stack → World
set_stack w s v = record w { stacks = update w.stacks s v }

abbrev pub set_state : World → ℕ → ThreadState → World
set_state w t s = set_thread w t (record (w.threads t) { state = s })

-- The tests of the magic numbers.
abbrev pub check_thread : World → ℕ → Run (Unit {0})
check_thread w t = check ((w.threads t).magic == thread_magic) thread_corrupt

abbrev pub check_semaphore : World → ℕ → Run (Unit {0})
check_semaphore w s = check ((w.semaphores s).magic == semaphore_magic) semaphore_corrupt

abbrev pub check_event : World → ℕ → Run (Unit {0})
check_event w e = check ((w.events e).magic == event_magic) event_corrupt

abbrev pub check_stack : World → ℕ → Run (Unit {0})
check_stack w s = check ((w.stacks s).magic == stack_magic) stack_corrupt
