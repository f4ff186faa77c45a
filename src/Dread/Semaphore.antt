-- ===== src/Dread/Semaphore.antt =====
-- ports/dreadthread/dread.c: semaphores. A call that a thread makes last in a run sets `pc`.
pub mod Handoff
use webports.Prelude.{ℕ, ◌+◌, ◌-◌, Bool, true, false, List, [], ◌∷◌, ◌++◌, ◌==◌, if◌then◌else◌}
use webports.Dread.World.{
  runnable, sema_wait, Prog, sleep, take_no_yield, Run, ok, ◌>>=◌, ◌>>◌, check_semaphore,
  semaphore_magic, World, set_semaphore, set_state,
}
use webports.Dread.Switch.{thread_yield}

unfoldable pub init : ℕ → ℕ → World → World
init s value w = set_semaphore w s (record { magic = semaphore_magic; value = value; threadq = [] })

-- `dthr_semaphore_try`
unfoldable pub try_take : ℕ → World → Run (World × Bool)
try_take s w =
    check_semaphore w s
    >> (let sema = w.semaphores s in
        if sema.value == 0
        then ok (w, false)
        else ok (set_semaphore w s (record sema { value = sema.value - 1 }), true))

-- `dthr_semaphore_take_no_yield`: one test of the loop. A thread that finds the value 0 enqueues
-- itself, sleeps, and then makes the test anew.
unfoldable pub take_step : ℕ → Prog → World → Run World
take_step s k w =
    check_semaphore w s
    >> (let sema = w.semaphores s in
        if sema.value == 0
        then (let waits = record sema { threadq = sema.threadq ++ w.cur ∷ [] } in
            ok (record (set_state (set_semaphore w s waits) w.cur sema_wait) {
              pc = sleep (take_no_yield s k);
            }))
        else ok (record (set_semaphore w s (record sema { value = sema.value - 1 })) { pc = k }))

-- The waker's part of `dthr_semaphore_drop_no_yield`: the first waiting thread becomes runnable.
unfoldable pub wake : ℕ → List ℕ → World → World
wake s [] w = w
wake s (waker ∷ rest) w =
    let w1 = set_semaphore w s (record (w.semaphores s) { threadq = rest }) in
    let w2 = set_state w1 waker runnable in record w2 { runq = w.runq ++ waker ∷ [] }

-- `dthr_semaphore_drop_no_yield`
unfoldable pub release : ℕ → World → Run World
unfolding wake
release s w =
    check_semaphore w s
    >> (let sema = w.semaphores s in
        ok (wake s sema.threadq (set_semaphore w s (record sema { value = sema.value + 1 }))))

-- `dthr_semaphore_drop`
unfoldable pub release_yield : ℕ → Prog → World → Run World
unfolding release thread_yield
release_yield s k w = do w' ← release s w; thread_yield k w'
