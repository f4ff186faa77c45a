-- ===== src/Dread/Switch.antt =====
-- ports/dreadthread/dread.c: context switches, `dthr_thread_yield` and `dthr_thread_sleep`.
use webports.Prelude.{ℕ, Bool, List, [], ◌∷◌, ◌++◌, none, some, ◌==◌, if◌then◌else◌}
use webports.Dread.World.{
  Prog, sleep, sleep_leave, stopped, no_current_stack, null_stack, context_corrupt, Run, ok, abort,
  ◌>>◌, check_thread, World, set_stack, set_thread,
}

-- `dthr_load_ctxt(&target->regs, …)`: the run goes on as that context, on the thread that the
-- target's stack is bound to.
unfoldable pub load : ℕ → World → Run World
load target w = if target == 0 then abort null_stack else elim (w.stacks target).regs [
  | none ↦ abort context_corrupt
  | some k ↦ ok (record w { pc = k; cur = (w.stacks target).thread })
]

-- `dthr_csw(target, DREAD_THREAD_CSW_NORM)`: `k` is what the caller does when it is resumed.
unfoldable pub csw : ℕ → Prog → World → Run World
unfolding load
csw target k w =
    let this_stack = (w.threads w.cur).stack in
    if this_stack == 0
    then abort no_current_stack
    else load target (set_stack w this_stack (record (w.stacks this_stack) { regs = some k }))

-- `dthr_chain_delete` of a stack's link from the chain that holds it.
unfoldable pub delete : ℕ → List ℕ → List ℕ
delete a [] = []
delete a (x ∷ xs) = if x == a then xs else x ∷ delete a xs

-- What `dthr_csw(target, DREAD_THREAD_CSW_EXIT)` does before it loads the target: the stack goes
-- to the end of the free list.
unfoldable pub retire : ℕ → World → World
unfolding delete
retire this_stack w =
    let th = record (w.threads w.cur) { stack = 0; fn = 0; fn_arg = 0; stack_size = 0 } in
    let w1 = set_thread w w.cur th in
    let w2 = set_stack w1 this_stack (record (w1.stacks this_stack) { regs = none }) in
    record w2 {
      active_stacks = delete this_stack w.active_stacks;
      free_stacks = delete this_stack w.free_stacks ++ this_stack ∷ [];
    }

unfoldable pub csw_exit : ℕ → World → Run World
unfolding load retire
csw_exit target w =
    let this_stack = (w.threads w.cur).stack in
    if this_stack == 0 then abort no_current_stack else load target (retire this_stack w)

-- The rest of `dthr_thread_yield`, behind the `dequeue` of the run queue.
unfoldable pub yield_on : List ℕ → Prog → World → Run World
unfolding csw
yield_on [] k w = ok (record w { pc = k })
yield_on (next ∷ rest) k w =
    check_thread w next >> csw (w.threads next).stack k (record w { runq = rest ++ w.cur ∷ [] })

unfoldable pub thread_yield : Prog → World → Run World
unfolding yield_on
thread_yield k w = yield_on w.runq k w

-- One round of the loop in `dthr_thread_sleep`, and what follows it. With an empty run queue the
-- hook `dthr_on_deadlock` is asked; if it gives up, the context `dthr_deadlock` is loaded, and
-- multithreading ends.
module _ (on_deadlock : World → World × Bool) where
  unfoldable pub sleep_on : List ℕ → Prog → World → Run World
  unfolding csw
  sleep_on [] k w =
      let (w', again) = on_deadlock w in ok (record w' { pc = if again then sleep k else stopped })
  sleep_on (next ∷ rest) k w =
      check_thread w next >> csw (w.threads next).stack k (record w { runq = rest })

  unfoldable pub thread_sleep : Prog → World → Run World
  unfolding sleep_on
  thread_sleep k w = sleep_on w.runq k w

  unfoldable pub leave_on : List ℕ → World → Run World
  unfolding csw_exit
  leave_on [] w =
      let (w', again) = on_deadlock w in
      ok (record w' { pc = if again then sleep_leave else stopped })
  leave_on (next ∷ rest) w =
      check_thread w next >> csw_exit (w.threads next).stack (record w { runq = rest })

  unfoldable pub thread_sleep_leave : World → Run World
  unfolding leave_on
  thread_sleep_leave w = leave_on w.runq w
