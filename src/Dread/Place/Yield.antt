-- ===== src/Dread/Place/Yield.antt =====
-- `dthr_thread_yield` keeps every thread in its place.
use webports.Prelude.{ℕ, List, [], ◌∷◌, ◌++◌, ◌≡◌, refl, sym}
use webports.Dread.World.{Prog, World}
use webports.Dread.Switch.{csw, yield_on, thread_yield}
use webports.Dread.Place.{
  Place, running, ready, new, idle, at_semaphore, at_event, queue, put, IsQueued, Leads,
}
use webports.Dread.Place.Relocate.{Change, same, joins, clears, relocate, IsQueued-same, Stands-put}
use webports.Dread.Place.Load.{
  Current-running, csw-Leads, dispatch, put_ne, put_self, apart, check-Leads, head_ready,
}

-- The current thread goes to the end of the run queue.
pub join_ready :
    (p : ℕ → Place) (t : ℕ) (w : World)
    → IsQueued p w
    → p t ≡ running
    → IsQueued (put p t ready) (record w { runq = w.runq ++ t ∷ [] })
join_ready p t w h e =
    relocate p w _ t running ready h e go (Stands-put p w t ready h.stands (rw e at (h.stands t)))
  where
    go :
        (x : Place)
        → Change t running ready x (queue w x) (queue (record w { runq = w.runq ++ t ∷ [] }) x)
    go ready = joins refl (λ e. cc) refl
    go running = clears refl
    go idle = same (λ e. cc) refl
    go new = same (λ e. cc) refl
    go (at_semaphore i) = same (λ e. cc) refl
    go (at_event i) = same (λ e. cc) refl

-- The thread at the head of the run queue, `p` being `ready` there, takes the turn of another.
yield_placed :
    (p : ℕ → Place) (k : Prog) (next : ℕ) (rest : List ℕ) (w : World)
    → IsQueued p w
    → p w.cur ≡ running
    → w.runq ≡ next ∷ rest
    → Leads (csw (w.threads next).stack k (record w { runq = rest ++ w.cur ∷ [] }))
yield_placed p k next rest w h e z =
    let n = apart p next w.cur ready running (head_ready p next rest w h z) e (λ e. cc) in
    let p1 = put p next running in
    let w1 = record w { runq = rest } in
    let e1 : p1 w.cur ≡ running = put_ne p next w.cur running running n e in
    let h1 = join_ready p1 w.cur w1 (dispatch p next rest w h z) e1 in
    csw-Leads (put p1 w.cur ready) next k _ h1
      (put_ne p1 w.cur next ready running (λ d. n (sym d)) (put_self p next running))

pub thread_yield-Leads :
    (p : ℕ → Place) (k : Prog) (w : World)
    → IsQueued p w
    → p w.cur ≡ running
    → Leads (thread_yield k w)
unfolding thread_yield
thread_yield-Leads p k w h e =
    (elim w.runq as (λ q. w.runq ≡ q → Leads (yield_on q k w)) [
      | [] ↦ λ z. (
        p,
        record {
          queued = IsQueued-same p w _ h refl refl refl refl h.stands;
          current = Current-running p k w.cur e;
        },
      )
      | next ∷ rest ↦ λ z. check-Leads w next _ (yield_placed p k next rest w h e z)
    ])
      refl
