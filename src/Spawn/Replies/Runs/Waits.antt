-- ===== src/Spawn/Replies/Runs/Waits.antt =====
-- The runs of a request in ports/nacl-spawn/nacl_pp_helpers.c that reach the wait before the reply.
use webports.Prelude.{
  ℕ, ◌≤◌, Bool, true, false, Option, none, some, ◌≡◌, ◌⊎◌, inl, inr, refl, subst, arith,
}
use webports.Spawn.Replies.{
  Requester, waiting, unlocking, done, Handler, idle, storing, signalling, releasing, finished,
  Owner, Exchange, requester_step, handler_step,
}
use webports.Spawn.Replies.Runs.{
  at, Step, requests, handles, Run, here, next, Goes, IsAllowed, Allowed, returned, waits,
  IsAllowed-Goes, Run-Leads,
}

-- The call waits for a signal that is still to come, or was woken.
abbrev Awaits : Requester → Handler → Bool → Type 0
Awaits waiting idle g = Unit
Awaits waiting storing g = Unit
Awaits waiting signalling g = Unit
Awaits waiting releasing g = g ≡ true
Awaits waiting finished g = g ≡ true
Awaits unlocking h g = Unit
Awaits done h g = Unit
Awaits r h g = ⊥

abbrev IsAwaited : Exchange → Type 0
IsAwaited s = Awaits s.requester_at s.handler_at s.signalled

abbrev Keeps : Option Exchange → Type 0
Keeps none = Unit
Keeps (some t) = IsAwaited t

requester_step-Keeps :
    (v : ℕ) (r : Requester) (h : Handler) (o : Owner) (g : Bool) (x : Option ℕ)
    → Allowed v r h o g x
    → Awaits r h g
    → Keeps (requester_step (at r h o g x))
unfolding requester_step
requester_step-Keeps v r h o g x a w = ground arith

handler_step-Keeps :
    (v : ℕ) (r : Requester) (h : Handler) (o : Owner) (g : Bool) (x : Option ℕ)
    → Allowed v r h o g x
    → Awaits r h g
    → Keeps (handler_step v (at r h o g x))
unfolding handler_step
handler_step-Keeps v r h o g x a w = ground arith

Step-Keeps : (v : ℕ) (s t : Exchange) → IsAllowed v s → IsAwaited s → Step v s t → IsAwaited t
Step-Keeps v s t a w (requests e) =
    subst Keeps e
      (requester_step-Keeps v s.requester_at s.handler_at s.owner s.signalled s.result a w)
Step-Keeps v s t a w (handles e) =
    subst Keeps e
      (handler_step-Keeps v s.requester_at s.handler_at s.owner s.signalled s.result a w)

Run-Keeps :
    (v : ℕ) (s : Exchange) (n : ℕ) (t : Exchange)
    → IsAllowed v s
    → IsAwaited s
    → Run v s n t
    → IsAwaited t
Run-Keeps v s n t a w here = w
Run-Keeps v s n t a w (next {n = m} {t = u} r st) =
    Step-Keeps v u t ((Run-Leads v s m u a r).0) (Run-Keeps v s m u a w r) st

-- Once the call waits for a reply that is not yet handled, a run has 6 steps at most, whichever
-- thread is chosen at each; and where it stands, a thread can go on, or the call has returned the
-- reply. The browser answers each message, and no wait ends without a signal.
pub Run-waits :
    (value n : ℕ) (t : Exchange)
    → Run value waits n t
    → (n ≤ 6) × (Goes value t ⊎ (t ≡ returned value))
Run-waits value n t r =
    let a = Run-Leads value waits n t (refl, refl, refl) r in
    let w = Run-Keeps value waits n t (refl, refl, refl) tt r in
    (
      omega arith,
      elim (IsAllowed-Goes value t a.0) [
        | inl g ↦ inl g
        | inr (inl e) ↦ inr e
        | inr (inr e) ↦ let no : false ≡ true = subst IsAwaited e w in cc
      ],
    )
