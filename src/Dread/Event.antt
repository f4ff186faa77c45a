-- ===== src/Dread/Event.antt =====
-- ports/dreadthread/dread.c: events (condition variables).
pub mod Order
use webports.Prelude.{ℕ, zero, suc, List, [], ◌∷◌, ◌++◌}
use webports.Dread.World.{
  runnable, event_wait, Prog, sleep, take_no_yield, Run, ok, ◌>>=◌, ◌>>◌, check_event, check_thread,
  event_magic, World, set_event, set_state,
}
use webports.Dread.Semaphore.{release}
use webports.Dread.Switch.{thread_yield}

-- `UINT_MAX`
abbrev pub uint_max : ℕ
uint_max = 0xffff_ffff

unfoldable pub init : ℕ → World → World
init e w = set_event w e (record { magic = event_magic; threadq = [] })

-- `dthr_event_wait` up to its sleep: the thread enqueues itself first, and drops the lock then.
-- Awake, it retakes the lock.
unfoldable pub wait_step : ℕ → ℕ → Prog → World → Run World
unfolding release
wait_step e lock k w = check_event w e >> (do
  let event = w.events e
  let w1 = set_event w e (record event { threadq = event.threadq ++ w.cur ∷ [] })
  w2 ← release lock (set_state w1 w.cur event_wait)
  ok (record w2 { pc = sleep (take_no_yield lock k) }))

-- The loop of `dthr_eventq_to_runq`, over the threads that wait and with `max` rounds at most.
unfoldable pub move : ℕ → List ℕ → ℕ → World → Run World
move e [] max w = ok w
move e (th ∷ rest) zero w = ok w
move e (th ∷ rest) (suc max) w =
    let w1 = set_event w e (record (w.events e) { threadq = rest }) in
    let w2 = set_state w1 th runnable in
    check_thread w th >> move e rest max (record w2 { runq = w.runq ++ th ∷ [] })

unfoldable pub eventq_to_runq : ℕ → ℕ → World → Run World
unfolding move
eventq_to_runq e max w = check_event w e >> move e (w.events e).threadq max w

-- `dthr_event_broadcast_no_yield` and `dthr_event_signal_no_yield`
unfoldable pub broadcast : ℕ → World → Run World
unfolding eventq_to_runq
broadcast e w = eventq_to_runq e uint_max w

unfoldable pub signal : ℕ → World → Run World
unfolding eventq_to_runq
signal e w = eventq_to_runq e 1 w

-- `dthr_event_broadcast` and `dthr_event_signal`
unfoldable pub broadcast_yield : ℕ → Prog → World → Run World
unfolding broadcast thread_yield
broadcast_yield e k w = do w' ← broadcast e w; thread_yield k w'

unfoldable pub signal_yield : ℕ → Prog → World → Run World
unfolding signal thread_yield
signal_yield e k w = do w' ← signal e w; thread_yield k w'
