-- ===== src/Spawn/Replies.antt =====
-- ports/nacl-spawn/nacl_pp_helpers.c: `nspawn_send_request` and `handle_reply`, which run on two
-- threads. A step is what a thread does between two points where the other may run.
pub mod Runs
mod Examples
use webports.Prelude.{ℕ, Bool, true, false, Option, none, some}

-- Where the thread of `nspawn_send_request` stands: before PSEventRegisterMessageHandler,
-- PostMessage, pthread_mutex_lock and pthread_cond_wait, in that wait, before pthread_mutex_unlock,
-- and at its return.
pub data Requester : Type 0 where
  registering posting locking holding waiting unlocking done : Requester

-- Where `handle_reply` stands: not called, before the write of the result, pthread_cond_signal and
-- pthread_mutex_unlock, and at its return.
pub data Handler : Type 0 where
  idle storing signalling releasing finished : Handler

-- Who has `reply.mu`.
pub data Owner : Type 0 where
  nobody requester handler : Owner

-- `signalled` says whether the wait was woken; a result is a number that stands for a variable.
pub record Exchange : Type 0 where
  pub requester_at : Requester
  pub handler_at : Handler
  pub owner : Owner
  pub signalled : Bool
  pub result : Option ℕ

-- A thread that needs the mutex runs only if nobody has it.
unfoldable pub when_free : Owner → Exchange → Option Exchange
when_free nobody s = some s
when_free _ s = none

unfoldable pub when_woken : Bool → Owner → Exchange → Option Exchange
unfolding when_free
when_woken true owner s = when_free owner s
when_woken false owner s = none

unfoldable pub requester_from : Requester → Exchange → Option Exchange
unfolding when_free when_woken
requester_from registering s = some (record s { requester_at = posting })
requester_from posting s = some (record s { requester_at = locking })
requester_from locking s =
    when_free s.owner (record s { requester_at = holding; owner = requester })
requester_from holding s = some (record s { requester_at = waiting; owner = nobody })
requester_from waiting s =
    when_woken s.signalled s.owner (record s { requester_at = unlocking; owner = requester })
requester_from unlocking s = some (record s { requester_at = done; owner = nobody })
requester_from done s = none

-- The next step of `nspawn_send_request`, if it can make one.
unfoldable pub requester_step : Exchange → Option Exchange
unfolding requester_from
requester_step s = requester_from s.requester_at s

-- The browser answers only a message that was posted.
unfoldable pub when_posted : Requester → Option Exchange → Option Exchange
when_posted registering next = none
when_posted posting next = none
when_posted _ next = next

-- A signal wakes a thread that waits, and is lost otherwise.
unfoldable pub signal : Requester → Exchange → Exchange
signal waiting s = record s { handler_at = releasing; signalled = true }
signal _ s = record s { handler_at = releasing }

unfoldable pub handler_from : ℕ → Handler → Exchange → Option Exchange
unfolding when_posted when_free signal
handler_from value idle s =
    when_posted s.requester_at
      (when_free s.owner (record s { handler_at = storing; owner = handler }))
handler_from value storing s = some (record s { handler_at = signalling; result = some value })
handler_from value signalling s = some (signal s.requester_at s)
handler_from value releasing s = some (record s { handler_at = finished; owner = nobody })
handler_from value finished s = none

-- The next step of `handle_reply` with a value, if it can make one.
unfoldable pub handler_step : ℕ → Exchange → Option Exchange
unfolding handler_from
handler_step value s = handler_from value s.handler_at s
