-- ===== src/Dread/Examples.antt =====
-- The theorems on the steps of ports/dreadthread/dread.c at concrete worlds.
use webports.Prelude.{
  ◌∷◌, ◌++◌, ◌∙◌, All-Among, ◌==◌, Bool-cases, Among, inl, inr, ℕ, zero, suc, [], ◌≡◌, ◌≢◌, ◌≤◌,
  ◌<◌, ◌+◌, refl, sym, subst, arith, true,
}
use webports.Dread.World.{
  World, ok, stopped, thread_init, take_no_yield, enqueue_new, newq_sema, ◌>>=◌,
}
use webports.Dread.World.{topmost_thread, set_semaphore}
use webports.Dread.World.{topmost_stack, stack_extra}
use webports.Dread.Semaphore.{take_step}
use webports.Dread.Semaphore.Handoff.{sema_of}
use webports.Dread.Launch.{launch_new}
use webports.Dread.Launch.Growth.{Clears, launch_new-Clears}
use webports.Dread.Place.Threads.{go_on, thread_init-IsQueued}
use webports.Dread.Tests.{blank, code}
use webports.Dread.Thread
use webports.Dread.Machine.{exec, step, steps, multithread, init}
use webports.Dread.Place.{
  running, ready, idle, at_semaphore, at_event, new, queue, IsQueued, IsPlaced, Place, Placed,
  Leads,
}
use webports.Dread.Place.Start.{start, start_place, IsStatic, start-IsPlaced}
use webports.Dread.Place.Sleep.{Keeps}
use webports.Dread.Place.Permits.{Allowed, Permits, IsOff}
use webports.Dread.Place.Step.{IsPermitted, step-Leads, steps-Placed, steps-once}

-- Thread 1 starts on thread 0, which runs the launcher.
abbrev first : World
first = start 1 0 0 4096 blank

blank-IsStatic : IsStatic blank
blank-IsStatic = record { semaphores = λ _. refl; events = λ _. refl; topmost = refl }

one_ne : 1 ≢ topmost_thread
one_ne e = omega arith

start-IsPlaced_example : IsPlaced (start_place 1) (start 1 0 0 4096 blank)
start-IsPlaced_example = start-IsPlaced 1 0 0 4096 blank blank-IsStatic one_ne

-- The hook on deadlock of `code` gives up.
code-Keeps : Keeps code.on_deadlock
code-Keeps p w h = (p, h, refl, λ _. refl)

first_launcher : Allowed (start_place 1) (start 1 0 0 4096 blank).pc (start 1 0 0 4096 blank)
unfolding start multithread Thread.thread_init init
first_launcher = refl

step-Leads_example : Leads (step code (start 1 0 0 4096 blank))
step-Leads_example =
    step-Leads code code-Keeps (start_place 1) (start 1 0 0 4096 blank)
      (start-IsPlaced 1 0 0 4096 blank blank-IsStatic one_ne) first_launcher

-- A run that is over permits all that it reaches.
stopped-eq : (n : ℕ) (w w' : World) → w.pc ≡ stopped → steps code n w ≡ ok w' → w'.pc ≡ stopped
unfolding steps step exec
stopped-eq zero w w' e r = let z : w ≡ w' = cc in rw (sym z) e
stopped-eq (suc n) w w' e r =
    stopped-eq n w w' e (subst (λ k. (exec code k w >>= steps code n) ≡ ok w') e r)

stopped-IsPermitted : (w : World) → w.pc ≡ stopped → IsPermitted code code-Keeps w
stopped-IsPermitted w e n w' r = rw (stopped-eq n w w' e r) tt

-- So does a run from a world that permits its next call, if the rest does.
onward :
    (w v : World)
    → step code w ≡ ok v
    → Permits w.pc w
    → IsPermitted code code-Keeps v
    → IsPermitted code code-Keeps w
unfolding steps
onward w v s a h zero w' r = let z : w ≡ w' = cc in rw (sym z) a
onward w v s a h (suc n) w' r = h n w' (subst (λ m. (m >>= steps code n) ≡ ok w') s r)

-- An idle thread is on no queue.
idle-IsOff :
    (p : ℕ → Place) (t : ℕ) (w : World) → IsQueued p w → p w.cur ≡ running → p t ≡ idle → IsOff w t
idle-IsOff p t w h e a = (
  λ z. let y : idle ≡ running = sym a ∙ rw z e in cc,
  λ v m.
      let y : idle ≡ v = sym a ∙ All-Among (λ x. p x ≡ v) t (queue w v) (h.queues v).0 m in
      subst (λ v. Among t (queue w v) → ⊥) y (λ k. k) m,
)

-- The topmost thread initialises thread 5, takes the new queue's semaphore, and starts the thread.
abbrev called : World
called = record first {
  pc = thread_init 5 0 0 512 (take_no_yield newq_sema (enqueue_new 5 stopped));
}

abbrev made : World
made = record (Thread.thread_init 5 0 0 512 called) {
  pc = take_no_yield newq_sema (enqueue_new 5 stopped);
}

abbrev holding : World
holding = record (set_semaphore made newq_sema (sema_of 0 [])) { pc = enqueue_new 5 stopped }

abbrev over : World
over = record holding { newq = holding.newq ++ 5 ∷ []; pc = stopped }

call1 : step code called ≡ ok made
unfolding step exec
call1 = refl

call2 : step code made ≡ ok holding
unfolding step exec take_step start multithread Thread.thread_init init
call2 = refl

call3 : step code holding ≡ ok over
unfolding step exec Thread.enqueue
call3 = refl

first_running : start_place 1 first.cur ≡ running
unfolding start multithread Thread.thread_init init
first_running = refl

first-IsQueued : IsQueued (start_place 1) first
first-IsQueued = (start-IsPlaced 1 0 0 4096 blank blank-IsStatic one_ne).queued

made-IsQueued : IsQueued (start_place 1) (Thread.thread_init 5 0 0 512 first)
made-IsQueued = thread_init-IsQueued (start_place 1) 5 0 0 512 first first-IsQueued refl

made-IsOff : IsOff (Thread.thread_init 5 0 0 512 first) 5
made-IsOff =
    idle-IsOff (start_place 1) 5 (Thread.thread_init 5 0 0 512 first) made-IsQueued
      (unfold Thread.thread_init in first_running) refl

queue_taken :
    (w : World) (t s n i : ℕ)
    → (Among t (w.semaphores i).threadq → ⊥)
    → Among t ((set_semaphore w s (sema_of n [])).semaphores i).threadq
    → ⊥
queue_taken w t s n i h m = elim (Bool-cases (i == s)) [ inl d ↦ rw d at m | inr d ↦ h (rw d at m) ]

holding-IsOff : IsOff holding 5
unfolding start Thread.thread_init
holding-IsOff = (
  made-IsOff.0,
  λ v. elim v as (λ v. Among 5 (queue holding v) → ⊥) [
    | at_semaphore i ↦ λ m. queue_taken made 5 newq_sema 0 i (made-IsOff.1 (at_semaphore i)) m
    | running ↦ λ m. m
    | idle ↦ λ m. m
    | ready ↦ λ m. made-IsOff.1 ready m
    | new ↦ λ m. made-IsOff.1 new m
    | at_event e ↦ λ m. made-IsOff.1 (at_event e) m
  ],
)

called-IsPermitted : IsPermitted code code-Keeps called
called-IsPermitted =
    onward called made call1 (idle-IsOff (start_place 1) 5 first first-IsQueued first_running refl)
      (onward made holding call2 tt
        (onward holding over call3 holding-IsOff (stopped-IsPermitted over refl)))

after :
    (n : ℕ) (w v w' : World)
    → step code w ≡ ok v
    → steps code n v ≡ ok w'
    → steps code (suc n) w ≡ ok w'
unfolding steps
after n w v w' s r = subst (λ m. (m >>= steps code n) ≡ ok w') (sym s) r

over_run : steps code 0 over ≡ ok over
unfolding steps
over_run = refl

called_run : steps code 3 called ≡ ok over
called_run =
    after 2 called made over call1
      (after 1 made holding over call2 (after 0 holding over over call3 over_run))

called-Placed : Placed called
called-Placed = go_on (start_place 1) _ first first-IsQueued first_running

steps-Placed_example : Placed over
steps-Placed_example =
    steps-Placed code code-Keeps 3 called over called-IsPermitted called-Placed called_run

over_new : Among 5 (queue over new)
unfolding start multithread Thread.thread_init init
over_new = inr (inl refl)

steps-once_example : new ≡ new
steps-once_example =
    steps-once code code-Keeps 3 called over 5 new new called-IsPermitted called-Placed called_run
      over_new over_new

first_depth : (first.stacks topmost_stack).stack_base ≤ first.depth
unfolding start multithread Thread.thread_init init
first_depth = omega arith

first_small :
    (first.stacks topmost_stack).stack_base + (first.threads 1).stack_size + stack_extra + 64
    < 0x1_0000_0000
unfolding start multithread Thread.thread_init init
first_small = omega arith

first_near : first.depth + 64 < (first.stacks topmost_stack).stack_base + 0x1_0000_0000
unfolding start multithread Thread.thread_init init
first_near = omega arith

launch_new-Clears_example :
    Clears
      (first.stacks_made + 2)
      (first.stacks topmost_stack).stack_base
      (first.threads 1).stack_size
      (launch_new (λ _. true) 64 128 1 (first.threads 1).stack_size first)
launch_new-Clears_example =
    launch_new-Clears (λ _. true) 64 128 (omega arith) 1 first first_depth first_small first_near
