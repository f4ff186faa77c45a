-- ===== src/Dread/Launch.antt =====
-- ports/dreadthread/dread.c: the launcher on the topmost stack, which gives new threads a stack.
pub mod Fit
pub mod Growth
pub mod Shared
pub mod Current
mod Examples
use webports.Prelude.{
  ℕ, zero, suc, ◌+◌, ◌-◌, ◌%◌, Bool, true, false, ◌&&◌, List, [], ◌∷◌, ◌++◌, some, none, ltb, leb,
  ◌==◌, if◌then◌else◌,
}
use webports.Dread.World.{
  runnable, Prog, launch, launcher, base_launch, take_no_yield, Fault, no_stack_space,
  stack_corrupt, Run, ok, abort, ◌>>=◌, ◌>>◌, check_thread, check_stack, stack_magic, stack_extra,
  topmost_thread, topmost_stack, newq_sema, newq_event, Stack, Thread, World, set_stack, set_thread,
}
use webports.Dread.Semaphore.{release}
use webports.Dread.Event.{wait_step}

-- `INT_MAX`
abbrev pub int_max : ℕ
int_max = 0x7fff_ffff

-- `stk->stack_size - size`, 32 bits wide. As an `int` it is positive below 2 ^ 31.
abbrev pub size_diff : ℕ → ℕ → ℕ
size_diff have size = (have + 0x1_0000_0000 - size) % 0x1_0000_0000

-- The loop of `dthr_find_free_stack` over the free list, from the best so far. A difference of
-- less than `best_size_diff` is below 2 ^ 31; 0 is the null pointer.
unfoldable pub scan_free : (ℕ → Stack) → ℕ → List ℕ → ℕ → ℕ → Run ℕ
scan_free stacks size [] best_so_far best_size_diff = ok best_so_far
scan_free stacks size (stk ∷ rest) best_so_far best_size_diff =
    let diff = size_diff (stacks stk).stack_size size in
    let better = ltb 0 diff && ltb diff best_size_diff in
    let later =
      scan_free stacks size rest (if better then stk else best_so_far)
        (if better then diff else best_size_diff) in
    if (stacks stk).magic == stack_magic then later else abort stack_corrupt

-- `dthr_find_free_stack`
unfoldable pub find_free_stack : ℕ → World → Run ℕ
unfolding scan_free
find_free_stack size w = scan_free w.stacks size w.free_stacks 0 int_max

-- `dthr_this_thread`: the loop over the active stacks, at the depth of a variable of the caller.
unfoldable pub scan_active : (ℕ → Stack) → ℕ → List ℕ → Run ℕ
scan_active stacks addr [] = ok topmost_thread
scan_active stacks addr (p ∷ rest) =
    let s = stacks p in
    let later = scan_active stacks addr rest in
    if s.magic == stack_magic
    then if leb s.stack_base addr && leb addr s.stack_top then ok s.thread else later
    else abort stack_corrupt

unfoldable pub this_thread : ℕ → World → Run ℕ
unfolding scan_active
this_thread addr w = scan_active w.stacks addr w.active_stacks

-- The recursion of `dthr_new_topmost_thread`, which pushes frames of `frame` bytes until the stack
-- is deep enough; the result is the depth that it reached. The first number is fuel. The test is on
-- numbers of 32 bits: `sofar` is converted, and the size with the reserve wraps around.
unfoldable pub grow : ℕ → ℕ → ℕ → ℕ → ℕ → ℕ
grow zero frame base wanted pos = pos
grow (suc fuel) frame base wanted pos =
    let deeper = grow fuel frame base wanted (pos + frame) in
    if ltb ((pos + 0x1_0000_0000 - base) % 0x1_0000_0000) ((wanted + stack_extra) % 0x1_0000_0000)
    then deeper
    else pos

-- A stack from the free list is bound to the thread, and its context set back to its base.
unfoldable pub bind_stack : ℕ → ℕ → World → World
bind_stack th stk w =
    let s = w.stacks stk in
    let w1 = set_stack w stk (record s { regs = s.base; thread = th }) in
    let w2 = set_thread w1 th (record (w.threads th) { stack = stk; state = runnable }) in
    record w2 { runq = w.runq ++ th ∷ []; pc = launch }

-- The address behind a stack: pointers have 32 bits, so that a size with its highest bit set, which is
-- negative as an `int`, leads back.
abbrev pub end_of_stack : ℕ → ℕ → ℕ
end_of_stack base size = (base + size) % 0x1_0000_0000

-- A new stack descriptor takes over where the topmost stack begins, for `stack_size` bytes.
unfoldable pub new_stack : ℕ → ℕ → World → World
new_stack th stk w =
    let base = (w.stacks topmost_stack).stack_base in
    let size = (w.threads th).stack_size in
    let s : Stack = record {
      magic = stack_magic;
      stack_size = size;
      stack_base = base;
      stack_top = end_of_stack base size;
      thread = th;
      regs = none;
      base = none;
    } in
    let w1 = set_stack w stk s in
    let w2 = set_thread w1 th (record (w.threads th) { stack = stk; state = runnable }) in
    record w2 {
      active_stacks = stk ∷ w.active_stacks;
      stacks_made = w.stacks_made + 1;
      mallocs = w.mallocs + 1;
    }

-- `frame` and `launcher_frame` are the sizes of the frames of `dthr_new_topmost_thread` and of
-- `dthr_thread_launcher`.
module _ (malloc : ℕ → Bool) (frame launcher_frame : ℕ) where
  -- `dthr_new_topmost_thread`: the new stack's context is saved, the stack grows past its end, the
  -- thread goes on the run queue, and a launcher starts at the new depth.
  unfoldable pub new_topmost_thread : ℕ → ℕ → World → Run World
  unfolding grow
  new_topmost_thread stk size_wanted w =
      check_stack w stk
      >> (let s = w.stacks stk in
          let w1 = set_stack w stk (record s { regs = some (base_launch stk) }) in
          let pos =
            grow (size_wanted + stack_extra + 1) frame s.stack_base size_wanted (w.depth + frame) in
          ok (record w1 {
            runq = w.runq ++ s.thread ∷ [];
            depth = pos + launcher_frame;
            pc = launcher;
          }))

  -- The launcher with no free stack that is large enough: it drops the new queue's semaphore, and
  -- makes the thread's stack out of its own.
  unfoldable pub launch_new : ℕ → ℕ → World → Run World
  unfolding new_stack new_topmost_thread release
  launch_new th size w =
      if malloc w.mallocs
      then release newq_sema (new_stack th (w.stacks_made + 2) w)
        >>= new_topmost_thread (w.stacks_made + 2) size
      else abort no_stack_space

  -- One round of the launcher's scan of the new queue, and its wait where that is empty.
  unfoldable pub launch_on : List ℕ → World → Run World
  unfolding bind_stack launch_new find_free_stack wait_step
  launch_on [] w = wait_step newq_event newq_sema launch w
  launch_on (th ∷ rest) w = do
    check_thread w th
    let w1 = record w { newq = rest }
    let size = (w.threads th).stack_size
    found ← find_free_stack size w1
    if found == 0 then launch_new th size w1 else ok (bind_stack th found w1)

  unfoldable pub launch_step : World → Run World
  unfolding launch_on
  launch_step w = launch_on w.newq w

-- The head of `dthr_thread_launcher`: the topmost stack begins in its frame.
unfoldable pub launcher_start : World → World
launcher_start w =
    let s = record (w.stacks topmost_stack) {
      stack_size = 0;
      stack_base = w.depth;
      stack_top = 0;
      thread = topmost_thread;
      magic = stack_magic;
    } in
    let w1 = set_stack w topmost_stack s in
    let w2 =
      set_thread w1 topmost_thread (record (w.threads topmost_thread) { stack = topmost_stack }) in
    record w2 { pc = take_no_yield newq_sema launch }

-- The base of a stack: its context is saved for reuse, and the thread's function is called.
unfoldable pub base_step : (ℕ → ℕ → Prog) → ℕ → World → Run World
base_step fn stk w =
    let th = (w.stacks stk).thread in
    let w1 = set_stack w stk (record (w.stacks stk) { base = some (base_launch stk) }) in
    check_thread w th
    >> ok (record w1 { cur = th; pc = fn (w.threads th).fn (w.threads th).fn_arg })
