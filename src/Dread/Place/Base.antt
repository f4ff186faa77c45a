-- ===== src/Dread/Place/Base.antt =====
-- The launcher and the base of a stack keep every thread in its place.
use webports.Prelude.{ℕ, ◌≡◌, ◌≢◌, refl, sym, ◌∙◌, inl, inr, ◌==◌, Bool-cases, ==_iff, arith}
use webports.Dread.World.{Prog, World, Stack, Thread, runnable, topmost_stack, topmost_thread}
use webports.Dread.Launch.{launcher_start, base_step}
use webports.Dread.Place.{
  Place, running, ready, new, idle, at_semaphore, at_event, Stands, IsQueued, Placed, Leads,
}
use webports.Dread.Place.Relocate.{IsQueued-same}
use webports.Dread.Place.Load.{Current-running, check-Leads, Stands-regs, ne_of_==}
use webports.Dread.Place.Launching.{IsLive, Stands-stack}

-- Only the topmost thread stands on the topmost stack.
Stands-upper :
    (v : Place) (th : Thread) (stacks : ℕ → Stack) (made t : ℕ)
    → Stands v th stacks made t
    → IsLive v
    → t ≢ topmost_thread
    → th.stack ≢ topmost_stack
Stands-upper running th stacks made t h l n e = n ((h.1 (omega arith)).2 e)
Stands-upper ready th stacks made t h l n e = n ((h.1 (omega arith)).2 e)
Stands-upper (at_semaphore _) th stacks made t h l n e = n ((h.1 (omega arith)).2 e)
Stands-upper (at_event _) th stacks made t h l n e = n ((h.1 (omega arith)).2 e)
Stands-upper new th stacks made t h l n e = absurd l
Stands-upper idle th stacks made t h l n e = absurd l

pub launcher_start-Placed :
    (p : ℕ → Place) (w : World)
    → IsQueued p w
    → p w.cur ≡ running
    → w.cur ≡ topmost_thread
    → Placed (launcher_start w)
unfolding launcher_start
launcher_start-Placed p w h e c =
    (p, record { queued = IsQueued-same p w _ h refl refl refl refl go; current = e })
  where
    i : ℕ
    i = topmost_stack

    go :
        (x : ℕ)
        → Stands (p x) ((launcher_start w).threads x) (launcher_start w).stacks w.stacks_made x
    go x = elim (Bool-cases (x == topmost_thread)) [
      | inl d ↦
          let z = (==_iff x topmost_thread).0 d in
          let r : p x ≡ running = rw (z ∙ sym c) e in
          let a : (w.threads topmost_thread).state ≡ runnable =
            rw (sym c) (rw e at (h.stands w.cur)).0 in
          rw (d, r) (a, λ _. (sym z, omega arith, λ _. z))
      | inr d ↦ rw d (
          Stands-stack (p x) (w.threads x) w.stacks w.stacks_made x i _
            (λ l.
              Stands-upper (p x) (w.threads x) w.stacks w.stacks_made x (h.stands x) l
                (ne_of_== x topmost_thread d))
            (h.stands x))
    ]

pub base_step-Leads :
    (fn : ℕ → ℕ → Prog) (p : ℕ → Place) (stk : ℕ) (w : World)
    → IsQueued p w
    → p w.cur ≡ running
    → (w.stacks stk).thread ≡ w.cur
    → Leads (base_step fn stk w)
unfolding base_step
base_step-Leads fn p stk w h e c = check-Leads w (w.stacks stk).thread _ (
  p,
  record {
    queued =
        IsQueued-same p w _ h refl refl refl refl
          (λ t. Stands-regs (p t) (w.threads t) w.stacks w.stacks_made t stk _ refl (h.stands t));
    current = Current-running p _ (w.stacks stk).thread (rw c e);
  },
)
