-- ===== src/Dread/Place/Threads.antt =====
-- The start and the end of a thread keep every thread in its place.
use webports.Prelude.{
  ℕ, ◌+◌, [], ◌∷◌, ◌++◌, ◌≡◌, refl, inl, inr, Bool, true, false, ◌==◌, Bool-cases, ==_iff,
}
use webports.Dread.World.{
  Prog, sleep_leave, ok, ◌>>=◌, World, Stack, Thread, set_thread, update, thread_magic, exit_sema,
  ThreadExit,
}
use webports.Dread.Semaphore
use webports.Dread.Thread.{
  thread_init, add_on_exit, enqueue, exit_on, thread_exit, finish_on, thread_finish, thread_return,
}
use webports.Dread.Place.{
  Place, running, ready, new, idle, at_semaphore, at_event, queue, put, Stands, IsQueued, Placed,
  Leads,
}
use webports.Dread.Place.Relocate.{
  Change, same, joins, clears, relocate, IsQueued-same, Stands-put, Stands-write,
}
use webports.Dread.Place.Load.{Current-running, check-Leads, put_self}
use webports.Dread.Place.Semaphores.{init-IsQueued}

-- A write of a thread that keeps its state and its stack.
Stands-fields :
    (v : Place) (a b : Thread) (stacks : ℕ → Stack) (made t : ℕ)
    → b.state ≡ a.state
    → b.stack ≡ a.stack
    → Stands v a stacks made t
    → Stands v b stacks made t
Stands-fields running a b stacks made t e f h = rw (e, f) h
Stands-fields ready a b stacks made t e f h = rw (e, f) h
Stands-fields (at_semaphore _) a b stacks made t e f h = rw (e, f) h
Stands-fields (at_event _) a b stacks made t e f h = rw (e, f) h
Stands-fields new a b stacks made t e f h = tt
Stands-fields idle a b stacks made t e f h = tt

pub write_thread :
    (p : ℕ → Place) (t : ℕ) (th : Thread) (w : World)
    → IsQueued p w
    → Stands (p t) th w.stacks w.stacks_made t
    → IsQueued p (set_thread w t th)
write_thread p t th w h k = IsQueued-same p w _ h refl refl refl refl go
  where
    go : (x : ℕ) → Stands (p x) (update w.threads t th x) w.stacks w.stacks_made x
    go x = elim (Bool-cases (x == t)) [
      | inl e ↦ rw (e, (==_iff x t).0 e) k
      | inr e ↦ rw e (h.stands x)
    ]

pub write_fields :
    (p : ℕ → Place) (t : ℕ) (th : Thread) (w : World)
    → IsQueued p w
    → th.state ≡ (w.threads t).state
    → th.stack ≡ (w.threads t).stack
    → IsQueued p (set_thread w t th)
write_fields p t th w h e f =
    write_thread p t th w h
      (Stands-fields (p t) (w.threads t) th w.stacks w.stacks_made t e f (h.stands t))

pub thread_init-IsQueued :
    (p : ℕ → Place) (th fn arg size : ℕ) (w : World)
    → IsQueued p w
    → p th ≡ idle
    → IsQueued p (thread_init th fn arg size w)
unfolding thread_init
thread_init-IsQueued p th fn arg size w h e =
    write_thread p th _ (Semaphore.init (exit_sema th) 0 w) (init-IsQueued p (exit_sema th) 0 w h)
      (rw e tt)

-- The thread's place is `idle` before and `new` after.
pub enqueue-IsQueued :
    (p : ℕ → Place) (th : ℕ) (k : Prog) (w : World)
    → IsQueued p w
    → p th ≡ idle
    → IsQueued (put p th new) (enqueue th k w)
unfolding enqueue
enqueue-IsQueued p th k w h e =
    relocate p w (record w { newq = w.newq ++ th ∷ []; pc = k }) th idle new h e go
      (Stands-put p w th new h.stands tt)
  where
    go :
        (x : Place)
        → Change th idle new x (queue w x) (queue (record w { newq = w.newq ++ th ∷ []; pc = k }) x)
    go running = same (λ e. cc) refl
    go ready = same (λ e. cc) refl
    go idle = clears refl
    go new = joins refl (λ e. cc) refl
    go (at_semaphore i) = same (λ e. cc) refl
    go (at_event i) = same (λ e. cc) refl

-- The current thread has exited.
exit-IsQueued :
    (p : ℕ → Place) (th : Thread) (w : World)
    → IsQueued p w
    → p w.cur ≡ running
    → IsQueued (put p w.cur idle) (set_thread w w.cur th)
exit-IsQueued p th w h e =
    relocate p w (set_thread w w.cur th) w.cur running idle h e go
      (Stands-write p w w.cur idle th h.stands tt)
  where
    go : (x : Place) → Change w.cur running idle x (queue w x) (queue (set_thread w w.cur th) x)
    go running = clears refl
    go ready = same (λ e. cc) refl
    go idle = clears refl
    go new = same (λ e. cc) refl
    go (at_semaphore i) = same (λ e. cc) refl
    go (at_event i) = same (λ e. cc) refl

-- A run that goes on with `k` on the same thread.
pub go_on :
    (p : ℕ → Place) (k : Prog) (w : World)
    → IsQueued p w
    → p w.cur ≡ running
    → Placed (record w { pc = k })
go_on p k w h e = (
  p,
  record {
    queued = IsQueued-same p w _ h refl refl refl refl h.stands;
    current = Current-running p k w.cur e;
  },
)

exited-Placed :
    (p : ℕ → Place) (th : Thread) (w : World)
    → IsQueued p w
    → p w.cur ≡ running
    → Placed (record (set_thread w w.cur th) { pc = sleep_leave })
exited-Placed p th w h e =
    let b = exit-IsQueued p th w h e in
    (
      put p w.cur idle,
      record {
        queued = IsQueued-same _ (set_thread w w.cur th) _ b refl refl refl refl b.stands;
        current = inr (put_self p w.cur idle);
      },
    )

module _ (hook : ℕ → ℕ → ℕ → Prog → Prog) where
  pub thread_exit-Leads :
      (p : ℕ → Place) (status : ℕ) (w : World)
      → IsQueued p w
      → p w.cur ≡ running
      → Leads (thread_exit hook status w)
  unfolding thread_exit
  thread_exit-Leads p status w h e =
      elim (w.threads w.cur).on_exit as (λ q. Leads (exit_on hook q status w)) [
        | x ∷ next ↦
            let w' = set_thread w w.cur (record (w.threads w.cur) { on_exit = next }) in
            go_on p _ w' (write_fields p w.cur _ w h refl refl) e
        | [] ↦ check-Leads w w.cur _ (exited-Placed p _ w h e)
      ]

  pub thread_finish-Placed :
      (p : ℕ → Place) (w : World) → IsQueued p w → p w.cur ≡ running → Placed (thread_finish hook w)
  unfolding thread_finish
  thread_finish-Placed p w h e =
      elim (w.threads w.cur).on_exit as (λ q. Placed (finish_on hook q w)) [
        | x ∷ next ↦
            let w' = set_thread w w.cur (record (w.threads w.cur) { on_exit = next }) in
            go_on p _ w' (write_fields p w.cur _ w h refl refl) e
        | [] ↦ exited-Placed p _ w h e
      ]

pub thread_return-Placed :
    (p : ℕ → Place) (value : ℕ) (w : World)
    → IsQueued p w
    → p w.cur ≡ running
    → Placed (thread_return value w)
unfolding thread_return
thread_return-Placed p value w h e =
    go_on p _ (set_thread w w.cur (record (w.threads w.cur) { exit_value = value }))
      (write_fields p w.cur _ w h refl refl) e

pub add_on_exit-Leads :
    (malloc : ℕ → Bool) (p : ℕ → Place) (th fn arg : ℕ) (k : Bool → Prog) (w : World)
    → IsQueued p w
    → p w.cur ≡ running
    → Leads (add_on_exit malloc th fn arg w >>= λ (w', done). ok (record w' { pc = k done }))
unfolding add_on_exit
add_on_exit-Leads malloc p th fn arg k w h e = elim (Bool-cases (malloc w.mallocs)) [
  | inl m ↦ rw m (elim (Bool-cases ((w.threads th).magic == thread_magic)) [
    | inl g ↦ rw g (
        go_on p (k true)
          (set_thread w1 th (record (w.threads th) { on_exit = x ∷ (w.threads th).on_exit }))
          (write_fields p th _ w1 h1 refl refl) e)
    | inr g ↦ rw g tt
  ])
  | inr m ↦ rw m (go_on p (k false) w1 h1 e)
]
  where
    x : ThreadExit
    x = record { fn = fn; arg = arg }

    w1 : World
    w1 = record w { mallocs = w.mallocs + 1 }

    h1 : IsQueued p w1
    h1 = IsQueued-same p w w1 h refl refl refl refl h.stands
