-- ===== src/Dread/Place/Growing.antt =====
-- A launch on a new stack keeps every thread in its place.
use webports.Prelude.{
  ℕ, ◌+◌, List, [], ◌∷◌, ◌++◌, ◌≡◌, ◌≢◌, refl, sym, ◌∙◌, inl, inr, Bool, ◌==◌, Bool-cases, ==_refl,
  if◌then◌else◌, All, arith, some,
}
use webports.Dread.World.{
  Run, ok, abort, ◌>>=◌, World, Stack, Thread, set_stack, stack_magic, newq_sema, newq_event,
  base_launch, launch,
}
use webports.Dread.Launch.{
  find_free_stack, bind_stack, new_stack, new_topmost_thread, launch_new, launch_on, launch_step,
  int_max,
}
use webports.Dread.Place.{
  Place, running, ready, new, idle, at_semaphore, at_event, queue, put, Stands, IsQueued, Leads,
}
use webports.Dread.Place.Relocate.{Change, same, leaves, clears, relocate, IsQueued-same}
use webports.Dread.Place.Load.{check-Leads, put_self, put_ne, apart, Stands-regs, ne_of_==}
use webports.Dread.Place.Yield.{join_ready}
use webports.Dread.Place.Wake.{Releases, release-Releases}
use webports.Dread.Place.Events.{wait_step-Leads}
use webports.Dread.Place.Launching.{IsLive, IsUnused, scan_free-All, Stands-bind, bind_stack-Placed}

-- More stacks are made.
Stands-made :
    (v : Place) (th : Thread) (stacks : ℕ → Stack) (made t : ℕ)
    → Stands v th stacks made t
    → Stands v th stacks (made + 1) t
Stands-made running th stacks made t h = (h.0, λ z. let b = h.1 z in (b.0, omega arith, b.2))
Stands-made ready th stacks made t h = (h.0, λ z. let b = h.1 z in (b.0, omega arith, b.2))
Stands-made (at_semaphore _) th stacks made t h =
    (h.0, λ z. let b = h.1 z in (b.0, omega arith, b.2))
Stands-made (at_event _) th stacks made t h = (h.0, λ z. let b = h.1 z in (b.0, omega arith, b.2))
Stands-made new th stacks made t h = tt
Stands-made idle th stacks made t h = tt

-- The next descriptor is not in use.
Stands-fresh :
    (v : Place) (th : Thread) (stacks : ℕ → Stack) (made t : ℕ)
    → Stands v th stacks made t
    → IsLive v
    → th.stack ≢ made + 2
Stands-fresh running th stacks made t h l e = let b = h.1 (omega arith) in omega arith
Stands-fresh ready th stacks made t h l e = let b = h.1 (omega arith) in omega arith
Stands-fresh (at_semaphore _) th stacks made t h l e = let b = h.1 (omega arith) in omega arith
Stands-fresh (at_event _) th stacks made t h l e = let b = h.1 (omega arith) in omega arith
Stands-fresh new th stacks made t h l e = absurd l
Stands-fresh idle th stacks made t h l e = absurd l

new_stack-IsQueued :
    (p : ℕ → Place) (th : ℕ) (rest : List ℕ) (w : World)
    → IsQueued p w
    → w.newq ≡ th ∷ rest
    → IsQueued (put p th running) (new_stack th (w.stacks_made + 2) (record w { newq = rest }))
unfolding new_stack
new_stack-IsQueued p th rest w h z =
    let r : p th ≡ new = (rw z at (h.queues new)).0.0 in
    relocate p w _ th new running h r go (
      Stands-bind p w (w.stacks_made + 1) th (w.stacks_made + 2) running _ _
        (λ t. Stands-made (p t) (w.threads t) w.stacks w.stacks_made t (h.stands t))
        (λ t. Stands-fresh (p t) (w.threads t) w.stacks w.stacks_made t (h.stands t))
        (refl, λ _. (rw ==_refl, omega arith, λ d. absurd (omega arith))))
  where
    go :
        (x : Place)
        → Change th new running x
            (queue w x)
            (queue (new_stack th (w.stacks_made + 2) (record w { newq = rest })) x)
    go running = clears refl
    go ready = same (λ e. cc) refl
    go idle = same (λ e. cc) refl
    go new = leaves refl z
    go (at_semaphore i) = same (λ e. cc) refl
    go (at_event i) = same (λ e. cc) refl

module _ (malloc : ℕ → Bool) (frame launcher_frame : ℕ) where
  -- The new stack's thread is off its queue, and goes on the run queue.
  new_topmost_thread-Leads :
      (p : ℕ → Place) (stk th size : ℕ) (w : World)
      → IsQueued p w
      → p w.cur ≡ running
      → p th ≡ running
      → th ≢ w.cur
      → (w.stacks stk).thread ≡ th
      → Leads (new_topmost_thread malloc frame launcher_frame stk size w)
  unfolding new_topmost_thread
  new_topmost_thread-Leads p stk th size w h e f n s =
      elim (Bool-cases ((w.stacks stk).magic == stack_magic)) [
        | inl m ↦ rw m (
          put p (w.stacks stk).thread ready,
          record {
            queued = IsQueued-same _ w2 _ h2 refl refl refl refl h2.stands;
            current = put_ne p (w.stacks stk).thread w.cur ready running (λ d. n (sym s ∙ d)) e;
          },
        )
        | inr m ↦ rw m tt
      ]
    where
      w1 : World
      w1 = set_stack w stk (record (w.stacks stk) { regs = some (base_launch stk) })

      h1 : IsQueued p w1
      h1 =
          IsQueued-same p w w1 h refl refl refl refl
            (λ t. Stands-regs (p t) (w.threads t) w.stacks w.stacks_made t stk _ refl (h.stands t))

      w2 : World
      w2 = record w1 { runq = w.runq ++ (w.stacks stk).thread ∷ [] }

      h2 : IsQueued (put p (w.stacks stk).thread ready) w2
      h2 = join_ready p (w.stacks stk).thread w1 h1 (rw s f)

  grown :
      (p0 : ℕ → Place) (stk th size : ℕ) (w0 : World) (r : Run World)
      → Releases p0 w0 running r
      → p0 th ≡ running
      → th ≢ w0.cur
      → (w0.stacks stk).thread ≡ th
      → Leads (r >>= new_topmost_thread malloc frame launcher_frame stk size)
  grown p0 stk th size w0 (ok w) (p, h, c, e, s, k) f n t =
      new_topmost_thread-Leads p stk th size w h (rw c e) (k th f) (rw c n) (rw s t)
  grown p0 stk th size w0 (abort x) h f n t = tt

  launch_new-Leads :
      (p : ℕ → Place) (th size : ℕ) (rest : List ℕ) (w : World)
      → IsQueued p w
      → p w.cur ≡ running
      → w.newq ≡ th ∷ rest
      → Leads (launch_new malloc frame launcher_frame th size (record w { newq = rest }))
  unfolding launch_new new_stack
  launch_new-Leads p th size rest w h e z = elim (Bool-cases (malloc w.mallocs)) [
    | inl m ↦
        let r : p th ≡ new = (rw z at (h.queues new)).0.0 in
        let n = apart p th w.cur new running r e (λ e. cc) in
        let w1 = new_stack th (w.stacks_made + 2) (record w { newq = rest }) in
        let p1 = put p th running in
        let f =
          release-Releases p1 newq_sema w1 running (new_stack-IsQueued p th rest w h z)
            (put_ne p th w.cur running running n e) (λ e. cc) in
        rw m (grown p1 (w.stacks_made + 2) th size w1 _ f (put_self p th running) n (rw ==_refl))
    | inr m ↦ rw m tt
  ]

  pub launch_step-Leads :
      (p : ℕ → Place) (w : World)
      → IsQueued p w
      → p w.cur ≡ running
      → All (IsUnused p w) w.free_stacks
      → Leads (launch_step malloc frame launcher_frame w)
  unfolding launch_step
  launch_step-Leads p w h e u =
      (elim w.newq as (λ q. w.newq ≡ q → Leads (launch_on malloc frame launcher_frame q w)) [
        | [] ↦ λ z. wait_step-Leads p newq_event newq_sema launch w h e
        | th ∷ rest ↦ λ z. check-Leads w th _ (
            scanned th rest z (find_free_stack (w.threads th).stack_size (record w { newq = rest }))
              refl)
      ])
        refl
    where
      scanned :
          (th : ℕ) (rest : List ℕ)
          → w.newq ≡ th ∷ rest
          → (r : Run ℕ) → find_free_stack (w.threads th).stack_size (record w { newq = rest }) ≡ r
          → Leads (
              r >>= λ found.
              if found == 0
              then launch_new malloc frame launcher_frame th
                  (w.threads th).stack_size
                  (record w { newq = rest })
              else ok (bind_stack th found (record w { newq = rest })))
      scanned th rest z (abort x) q = tt
      scanned th rest z (ok found) q = elim (Bool-cases (found == 0)) [
        | inl y ↦ rw y (launch_new-Leads p th _ rest w h e z)
        | inr y ↦ rw y (
            bind_stack-Placed p th found rest w h e z (
              scan_free-All (IsUnused p w) w.stacks (w.threads th).stack_size w.free_stacks 0
                int_max u (λ n. absurd (n refl)) q (ne_of_== found 0 y)))
      ]
