-- ===== src/Dread/Place/Load.antt =====
-- Context switches keep every thread in its place.
use webports.Prelude.{
  ℕ, List, ◌∷◌, ◌≡◌, ◌≢◌, refl, sym, ◌∙◌, inl, inr, false, arith, ◌==◌, Bool-cases, ==_iff, ne→==,
  ==_refl, some, Option-cases,
}
use webports.Dread.World.{
  Prog, Run, ◌>>◌, World, Stack, Thread, set_stack, update, check_thread, sleep, stopped,
  sleep_leave, thread_magic,
}
use webports.Dread.Switch.{load, csw}
use webports.Dread.Place.{
  Place, running, ready, new, idle, at_semaphore, at_event, queue, put, Stands, Bound, IsQueued,
  Placed, Leads, Current,
}
use webports.Dread.Place.Relocate.{Change, same, leaves, relocate, IsQueued-same, Stands-put}

-- A stack keeps its thread when its context is written.
pub Stands-regs :
    (v : Place) (th : Thread) (stacks : ℕ → Stack) (made t i : ℕ) (s : Stack)
    → s.thread ≡ (stacks i).thread
    → Stands v th stacks made t
    → Stands v th (update stacks i s) made t
Stands-regs running th stacks made t i s e h = (h.0, λ n. ground (arith, h.1 n))
Stands-regs ready th stacks made t i s e h = (h.0, λ n. ground (arith, h.1 n))
Stands-regs (at_semaphore _) th stacks made t i s e h = (h.0, λ n. ground (arith, h.1 n))
Stands-regs (at_event _) th stacks made t i s e h = (h.0, λ n. ground (arith, h.1 n))
Stands-regs new th stacks made t i s e h = tt
Stands-regs idle th stacks made t i s e h = tt

pub ne_of_== : (a b : ℕ) → (a == b) ≡ false → a ≢ b
ne_of_== a b h e = cc (sym h ∙ (==_iff a b).1 e)

pub stands-running :
    (p : ℕ → Place) (w : World) (t : ℕ)
    → IsQueued p w
    → p t ≡ running
    → Bound (w.threads t) w.stacks w.stacks_made t
stands-running p w t h e = (rw e at (h.stands t)).1

pub Current-running : (p : ℕ → Place) (k : Prog) (c : ℕ) → p c ≡ running → Current p k c
Current-running p (sleep _) c e = tt
Current-running p stopped c e = tt
Current-running p sleep_leave c e = inl e
Current-running p _ c e = e

pub load-Placed :
    (p : ℕ → Place) (next : ℕ) (k : Prog) (w : World)
    → IsQueued p w
    → p next ≡ running
    → (w.threads next).stack ≢ 0
    → Placed (record w { pc = k; cur = (w.stacks (w.threads next).stack).thread })
load-Placed p next k w h e n =
    let b = stands-running p w next h e n in
    (
      p,
      record {
        queued = IsQueued-same p w _ h refl refl refl refl h.stands;
        current = Current-running p k _ (rw b.0 e);
      },
    )

pub load-Leads :
    (p : ℕ → Place) (next : ℕ) (w : World)
    → IsQueued p w
    → p next ≡ running
    → Leads (load (w.threads next).stack w)
unfolding load
load-Leads p next w h e = elim (Bool-cases ((w.threads next).stack == 0)) [
  | inl z ↦ rw z tt
  | inr n ↦ rw n (elim (Option-cases (w.stacks (w.threads next).stack).regs) [
    | inl z ↦ rw z tt
    | inr (k, z) ↦ rw z (load-Placed p next k w h e (ne_of_== _ 0 n))
  ])
]

-- The context of the current thread is written first.
pub csw-Leads :
    (p : ℕ → Place) (next : ℕ) (k : Prog) (w : World)
    → IsQueued p w
    → p next ≡ running
    → Leads (csw (w.threads next).stack k w)
unfolding csw
csw-Leads p next k w h e = elim (Bool-cases ((w.threads w.cur).stack == 0)) [
  | inl z ↦ rw z tt
  | inr n ↦ rw n (
      let i = (w.threads w.cur).stack in
      let w' = set_stack w i (record (w.stacks i) { regs = some k }) in
      load-Leads p next w'
        (IsQueued-same p w w' h refl refl refl refl
          (λ t. Stands-regs (p t) (w.threads t) w.stacks w.stacks_made t i _ refl (h.stands t)))
        e)
]

-- The first thread of the run queue becomes the current one.
pub dispatch :
    (p : ℕ → Place) (next : ℕ) (rest : List ℕ) (w : World)
    → IsQueued p w
    → w.runq ≡ next ∷ rest
    → IsQueued (put p next running) (record w { runq = rest })
dispatch p next rest w h e =
    let r : p next ≡ ready = (rw e at (h.queues ready)).0.0 in
    relocate p w _ next ready running h r go
      (Stands-put p w next running h.stands (rw r at (h.stands next)))
  where
    go : (x : Place) → Change next ready running x (queue w x) (queue (record w { runq = rest }) x)
    go ready = leaves refl e
    go running = same (λ e. cc) refl
    go idle = same (λ e. cc) refl
    go new = same (λ e. cc) refl
    go (at_semaphore i) = same (λ e. cc) refl
    go (at_event i) = same (λ e. cc) refl

pub put_ne : (p : ℕ → Place) (t x : ℕ) (v u : Place) → t ≢ x → p x ≡ u → put p t v x ≡ u
put_ne p t x v u n e = rw (ne→== x t (λ e. n (sym e))) e

pub put_self : (p : ℕ → Place) (t : ℕ) (v : Place) → put p t v t ≡ v
put_self p t v = rw ==_refl

-- Threads of two places are two.
pub apart : (p : ℕ → Place) (x y : ℕ) (u v : Place) → p x ≡ u → p y ≡ v → u ≢ v → x ≢ y
apart p x y u v e f n d = n (sym e ∙ (rw d f))

-- What a test of a thread's magic number guards.
pub check-Leads : (w : World) (t : ℕ) (r : Run World) → Leads r → Leads (check_thread w t >> r)
check-Leads w t r h = elim (Bool-cases ((w.threads t).magic == thread_magic)) [
  | inl e ↦ rw e h
  | inr e ↦ rw e tt
]

pub head_ready :
    (p : ℕ → Place) (next : ℕ) (rest : List ℕ) (w : World)
    → IsQueued p w
    → w.runq ≡ next ∷ rest
    → p next ≡ ready
head_ready p next rest w h e = (rw e at (h.queues ready)).0.0
