-- ===== src/Spawn/Replies/Runs.antt =====
-- All runs of a request and its reply in ports/nacl-spawn/nacl_pp_helpers.c.
pub mod Waits
use webports.Prelude.{
  ℕ, zero, suc, ◌+◌, ◌<◌, Bool, true, false, Option, none, some, ◌≡◌, ◌≢◌, ◌⊎◌, inl, inr, ap,
  Option-cases, sym, ◌∙◌, arith, subst,
}
use webports.Spawn.Replies.{
  Requester, registering, posting, locking, holding, waiting, unlocking, done, Handler, idle,
  storing, signalling, releasing, finished, Owner, nobody, requester, handler, Exchange,
  requester_step, handler_step,
}

-- A step of either thread; the reply has this value.
pub data Step (value : ℕ) (s t : Exchange) : Type 0 where
  requests : requester_step s ≡ some t → Step value s t
  handles : handler_step value s ≡ some t → Step value s t

-- Runs with their number of steps.
pub data Run (value : ℕ) (s : Exchange) : ℕ → Exchange → Type 0 where
  here : Run value s 0 s
  next : {n : ℕ} {t u : Exchange} → Run value s n t → Step value t u → Run value s (suc n) u

abbrev pub Goes : ℕ → Exchange → Type 0
Goes value s = (t : Exchange) × Step value s t

abbrev pub at : Requester → Handler → Owner → Bool → Option ℕ → Exchange
at r h o woken result = record {
  requester_at = r;
  handler_at = h;
  owner = o;
  signalled = woken;
  result = result;
}

-- The call of `nspawn_send_request`, and the wait before the reply is handled.
abbrev pub call : Exchange
call = at registering idle nobody false none

abbrev pub waits : Exchange
waits = at waiting idle nobody false none

-- The reply was handled, and the call has returned; or it waits, and was not woken.
abbrev pub returned : ℕ → Exchange
returned value = at done finished nobody true (some value)

abbrev pub lost : ℕ → Exchange
lost value = at waiting finished nobody false (some value)

-- The steps that are left at most.
abbrev pub left_requester : Requester → ℕ
left_requester registering = 6
left_requester posting = 5
left_requester locking = 4
left_requester holding = 3
left_requester waiting = 2
left_requester unlocking = 1
left_requester done = 0

abbrev pub left_handler : Handler → ℕ
left_handler idle = 4
left_handler storing = 3
left_handler signalling = 2
left_handler releasing = 1
left_handler finished = 0

abbrev pub left : Exchange → ℕ
left s = left_requester s.requester_at + left_handler s.handler_at

-- What holds at each place of the two threads.
abbrev pub Allowed : ℕ → Requester → Handler → Owner → Bool → Option ℕ → Type 0
Allowed v registering idle o g r = (o ≡ nobody) × (g ≡ false) × (r ≡ none)
Allowed v posting idle o g r = (o ≡ nobody) × (g ≡ false) × (r ≡ none)
Allowed v locking idle o g r = (o ≡ nobody) × (g ≡ false) × (r ≡ none)
Allowed v locking storing o g r = (o ≡ handler) × (g ≡ false) × (r ≡ none)
Allowed v locking signalling o g r = (o ≡ handler) × (g ≡ false) × (r ≡ some v)
Allowed v locking releasing o g r = (o ≡ handler) × (g ≡ false) × (r ≡ some v)
Allowed v locking finished o g r = (o ≡ nobody) × (g ≡ false) × (r ≡ some v)
Allowed v holding idle o g r = (o ≡ requester) × (g ≡ false) × (r ≡ none)
Allowed v holding finished o g r = (o ≡ requester) × (g ≡ false) × (r ≡ some v)
Allowed v waiting idle o g r = (o ≡ nobody) × (g ≡ false) × (r ≡ none)
Allowed v waiting storing o g r = (o ≡ handler) × (g ≡ false) × (r ≡ none)
Allowed v waiting signalling o g r = (o ≡ handler) × (g ≡ false) × (r ≡ some v)
Allowed v waiting releasing o g r = (o ≡ handler) × (g ≡ true) × (r ≡ some v)
Allowed v waiting finished o g r = (o ≡ nobody) × (r ≡ some v)
Allowed v unlocking finished o g r = (o ≡ requester) × (g ≡ true) × (r ≡ some v)
Allowed v done finished o g r = (o ≡ nobody) × (g ≡ true) × (r ≡ some v)
Allowed v _ _ o g r = ⊥

abbrev pub IsAllowed : ℕ → Exchange → Type 0
IsAllowed v s = Allowed v s.requester_at s.handler_at s.owner s.signalled s.result

-- What a step leads to, if it is made.
abbrev Leads : ℕ → ℕ → Option Exchange → Type 0
Leads v n none = Unit
Leads v n (some t) = IsAllowed v t × (left t + 1 ≡ n)

requester-Leads :
    (v : ℕ) (r : Requester) (h : Handler) (o : Owner) (g : Bool) (x : Option ℕ)
    → Allowed v r h o g x
    → Leads v (left (at r h o g x)) (requester_step (at r h o g x))
unfolding requester_step
requester-Leads v registering idle o g x a = ground arith
requester-Leads v registering h o g x a = absurd a
requester-Leads v r h o g x a = ground arith

handler-Leads :
    (v : ℕ) (r : Requester) (h : Handler) (o : Owner) (g : Bool) (x : Option ℕ)
    → Allowed v r h o g x
    → Leads v (left (at r h o g x)) (handler_step v (at r h o g x))
unfolding handler_step
handler-Leads v registering idle o g x a = ground arith
handler-Leads v registering h o g x a = absurd a
handler-Leads v r h o g x a = ground arith

-- Where no thread can run, the call has returned, or its signal is lost.
stuck_ends :
    (v : ℕ) (r : Requester) (h : Handler) (o : Owner) (g : Bool) (x : Option ℕ)
    → Allowed v r h o g x
    → requester_step (at r h o g x) ≡ none
    → handler_step v (at r h o g x) ≡ none
    → (at r h o g x ≡ returned v) ⊎ (at r h o g x ≡ lost v)
unfolding requester_step handler_step
stuck_ends v done finished o g x a p q = inl (ground arith)
stuck_ends v waiting finished o false x a p q = inr (ground arith)
stuck_ends v waiting finished o true x a p q = absurd (ground arith)
stuck_ends v r h o g x a p q = absurd (ground arith)

pub IsAllowed-Goes :
    (v : ℕ) (s : Exchange) → IsAllowed v s → Goes v s ⊎ ((s ≡ returned v) ⊎ (s ≡ lost v))
IsAllowed-Goes v s a = elim (Option-cases (requester_step s)) [
  | inr (t, e) ↦ inl (t, requests e)
  | inl p ↦ elim (Option-cases (handler_step v s)) [
    | inr (t, e) ↦ inl (t, handles e)
    | inl q ↦ inr (stuck_ends v s.requester_at s.handler_at s.owner s.signalled s.result a p q)
  ]
]

Step-Leads :
    (v : ℕ) (s t : Exchange) → IsAllowed v s → Step v s t → IsAllowed v t × (left t + 1 ≡ left s)
Step-Leads v s t a (requests e) =
    subst (Leads v (left s)) e
      (requester-Leads v s.requester_at s.handler_at s.owner s.signalled s.result a)
Step-Leads v s t a (handles e) =
    subst (Leads v (left s)) e
      (handler-Leads v s.requester_at s.handler_at s.owner s.signalled s.result a)

pub Run-Leads :
    (v : ℕ) (s : Exchange) (n : ℕ) (t : Exchange)
    → IsAllowed v s
    → Run v s n t
    → IsAllowed v t × (left t + n ≡ left s)
Run-Leads v s n t a here = (a, omega arith)
Run-Leads v s n t a (next {n = m} {t = u} r st) =
    let b = Run-Leads v s m u a r in let c = Step-Leads v u t b.0 st in (c.0, omega arith)
