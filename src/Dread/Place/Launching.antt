-- ===== src/Dread/Place/Launching.antt =====
-- The launcher keeps every thread in its place, if no thread that is started stands on a free stack.
use webports.Prelude.{
  ℕ, ◌+◌, ◌<◌, List, [], ◌∷◌, ◌≡◌, ◌≢◌, refl, sym, ◌∙◌, inl, inr, ◌==◌, Bool-cases, ==_iff, ==_refl,
  All, arith, ◌&&◌, ltb,
}
use webports.Dread.World.{ok, World, Stack, Thread, update, topmost_stack}
use webports.Dread.Launch.{scan_free, bind_stack, size_diff}
use webports.Dread.Place.{
  Place, running, ready, new, idle, at_semaphore, at_event, queue, put, Stands, IsQueued, Placed,
}
use webports.Dread.Place.Relocate.{Change, same, joins, leaves, relocate}
use webports.Dread.Place.Load.{put_ne, apart}

-- A thread that is started and has not left.
abbrev pub IsLive : Place → Type 0
IsLive new = ⊥
IsLive idle = ⊥
IsLive _ = Unit

-- A stack descriptor other than the topmost one, on which no live thread stands.
pub record IsUnused (p : ℕ → Place) (w : World) (stk : ℕ) : Type 0 where
  pub made : stk < w.stacks_made + 2
  pub lower : stk ≢ topmost_stack
  pub unused : (t : ℕ) → IsLive (p t) → (w.threads t).stack ≢ stk

-- `dthr_find_free_stack` returns the null pointer or a stack of the list.
pub scan_free-All :
    (P : ℕ → Type 0) (stacks : ℕ → Stack) (size : ℕ) (xs : List ℕ) (best diff : ℕ) {stk : ℕ}
    → All P xs
    → (best ≢ 0 → P best)
    → scan_free stacks size xs best diff ≡ ok stk
    → stk ≢ 0
    → P stk
unfolding scan_free
scan_free-All P stacks size [] best diff a b e n =
    let d : best ≡ _ = ground arith in rw d at (b (λ z. n (sym d ∙ z)))
scan_free-All P stacks size (x ∷ xs) best diff a b e n =
    elim (Bool-cases (
      ltb 0 (size_diff (stacks x).stack_size size)
      && ltb (size_diff (stacks x).stack_size size) diff)) [
        | inl y ↦
            scan_free-All P stacks size xs x (size_diff (stacks x).stack_size size) a.1 (λ _. a.0)
              (ground arith) n
        | inr y ↦ scan_free-All P stacks size xs best diff a.1 b (ground arith) n
      ]

-- The threads on other stacks do not see that a stack is written.
pub Stands-stack :
    (v : Place) (th : Thread) (stacks : ℕ → Stack) (made t i : ℕ) (s : Stack)
    → (IsLive v → th.stack ≢ i)
    → Stands v th stacks made t
    → Stands v th (update stacks i s) made t
Stands-stack running th stacks made t i s n h = (h.0, λ z. ground (arith, h.1 z, n tt))
Stands-stack ready th stacks made t i s n h = (h.0, λ z. ground (arith, h.1 z, n tt))
Stands-stack (at_semaphore _) th stacks made t i s n h = (h.0, λ z. ground (arith, h.1 z, n tt))
Stands-stack (at_event _) th stacks made t i s n h = (h.0, λ z. ground (arith, h.1 z, n tt))
Stands-stack new th stacks made t i s n h = tt
Stands-stack idle th stacks made t i s n h = tt

-- A stack is bound to a thread, which gets the place `v`.
pub Stands-bind :
    (p : ℕ → Place) (w : World) (made th i : ℕ) (v : Place) (s : Stack) (t : Thread)
    → ((x : ℕ) → Stands (p x) (w.threads x) w.stacks made x)
    → ((x : ℕ) → IsLive (p x) → (w.threads x).stack ≢ i)
    → Stands v t (update w.stacks i s) made th
    → (x : ℕ) → Stands (put p th v x) (update w.threads th t x) (update w.stacks i s) made x
Stands-bind p w made th i v s t h n k x = elim (Bool-cases (x == th)) [
  | inl e ↦ rw (e, (==_iff x th).0 e) k
  | inr e ↦ rw e (Stands-stack (p x) (w.threads x) w.stacks made x i s (n x) (h x))
]

pub bind_stack-Placed :
    (p : ℕ → Place) (th stk : ℕ) (rest : List ℕ) (w : World)
    → IsQueued p w
    → p w.cur ≡ running
    → w.newq ≡ th ∷ rest
    → IsUnused p w stk
    → Placed (bind_stack th stk (record w { newq = rest }))
unfolding bind_stack
bind_stack-Placed p th stk rest w h e z u =
    let r : p th ≡ new = (rw z at (h.queues new)).0.0 in
    let n = apart p th w.cur new running r e (λ e. cc) in
    (
      put p th ready,
      record {
        queued = relocate p w _ th new ready h r go (
            Stands-bind p w w.stacks_made th stk ready _ _ h.stands u.unused
              (refl, λ _. (rw ==_refl, u.made, λ d. absurd (u.lower d))));
        current = put_ne p th w.cur ready running n e;
      },
    )
  where
    go :
        (x : Place)
        → Change th new ready x (queue w x) (queue (bind_stack th stk (record w { newq = rest })) x)
    go running = same (λ e. cc) refl
    go ready = joins refl (λ e. cc) refl
    go idle = same (λ e. cc) refl
    go new = leaves refl z
    go (at_semaphore i) = same (λ e. cc) refl
    go (at_event i) = same (λ e. cc) refl
