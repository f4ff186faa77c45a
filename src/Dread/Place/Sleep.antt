-- ===== src/Dread/Place/Sleep.antt =====
-- `dthr_thread_sleep` and the end of a thread keep every thread in its place.
use webports.Prelude.{
  ℕ, subst, List, [], ◌∷◌, ◌≡◌, ◌≢◌, refl, sym, ◌∙◌, ◌⊎◌, inl, inr, true, false, ◌==◌, Bool-cases,
  ne→==, if◌then◌else◌, Bool,
}
use webports.Dread.World.{Prog, World, sleep, stopped, sleep_leave}
use webports.Dread.Switch.{
  load, sleep_on, thread_sleep, retire, csw_exit, leave_on, thread_sleep_leave,
}
use webports.Dread.Place.{
  Place, running, ready, new, idle, at_semaphore, at_event, queue, put, Stands, IsQueued, Leads,
  Current,
}
use webports.Dread.Place.Relocate.{Change, same, clears, relocate, IsQueued-same}
use webports.Dread.Place.Load.{
  Stands-regs, load-Leads, csw-Leads, dispatch, put_ne, put_self, apart, check-Leads, head_ready,
}

-- A thread on no queue, which leaves.
abbrev pub IsOff : Place → Type 0
IsOff running = Unit
IsOff idle = Unit
IsOff _ = ⊥

leaves_off :
    (u x : Place) (t : ℕ) (xs : List ℕ) → IsOff u → (IsOff x → xs ≡ []) → Change t u idle x xs xs
leaves_off running ready t xs o n = same (λ e. cc) refl
leaves_off running new t xs o n = same (λ e. cc) refl
leaves_off running (at_semaphore _) t xs o n = same (λ e. cc) refl
leaves_off running (at_event _) t xs o n = same (λ e. cc) refl
leaves_off running x t xs o n = clears (n tt)
leaves_off idle ready t xs o n = same (λ e. cc) refl
leaves_off idle new t xs o n = same (λ e. cc) refl
leaves_off idle (at_semaphore _) t xs o n = same (λ e. cc) refl
leaves_off idle (at_event _) t xs o n = same (λ e. cc) refl
leaves_off idle x t xs o n = clears (n tt)
leaves_off _ x t xs o n = absurd o

-- What the program's hook may do while no thread can run: it may make threads ready, and leaves the
-- current thread where it stands if that is on no queue.
abbrev pub Keeps : (World → World × Bool) → Type 0
Keeps hook =
    (p : ℕ → Place) (w : World)
    → IsQueued p w
    → (p' : ℕ → Place) × IsQueued p' (hook w).0
      × ((hook w).0.cur ≡ w.cur)
      × (IsOff (p w.cur) → p' w.cur ≡ p w.cur)

pub retire-IsQueued :
    (p : ℕ → Place) (u : Place) (w : World)
    → IsQueued p w
    → IsOff u
    → p w.cur ≡ u
    → IsQueued (put p w.cur idle) (retire (w.threads w.cur).stack w)
unfolding retire
retire-IsQueued p u w h o e =
    relocate p w (retire (w.threads w.cur).stack w) w.cur u idle h e go stand
  where
    go :
        (x : Place) → Change w.cur u idle x (queue w x) (queue (retire (w.threads w.cur).stack w) x)
    go ready = leaves_off u ready w.cur w.runq o absurd
    go new = leaves_off u new w.cur w.newq o absurd
    go (at_semaphore i) = leaves_off u (at_semaphore i) w.cur (w.semaphores i).threadq o absurd
    go (at_event i) = leaves_off u (at_event i) w.cur (w.events i).threadq o absurd
    go running = leaves_off u running w.cur [] o (λ _. refl)
    go idle = leaves_off u idle w.cur [] o (λ _. refl)

    stand :
        (x : ℕ)
        → Stands
            (put p w.cur idle x)
            ((retire (w.threads w.cur).stack w).threads x)
            (retire (w.threads w.cur).stack w).stacks
            w.stacks_made
            x
    stand x = elim (Bool-cases (x == w.cur)) [
      | inl t ↦ rw t tt
      | inr f ↦ rw f (
          Stands-regs (p x) (w.threads x) w.stacks w.stacks_made x (w.threads w.cur).stack _ refl
            (h.stands x))
    ]

Current-asleep :
    (p : ℕ → Place) (k : Prog) (c : ℕ) (b : Bool) → Current p (if b then sleep k else stopped) c
Current-asleep p k c true = tt
Current-asleep p k c false = tt

Current-leaving :
    (p : ℕ → Place) (c : ℕ) (b : Bool)
    → (p c ≡ running) ⊎ (p c ≡ idle)
    → Current p (if b then sleep_leave else stopped) c
Current-leaving p c true e = e
Current-leaving p c false e = tt

off_cases : (p : ℕ → Place) (c : ℕ) (u : Place) → IsOff u → p c ≡ u → (p c ≡ running) ⊎ (p c ≡ idle)
off_cases p c running o e = inl e
off_cases p c idle o e = inr e
off_cases p c _ o e = absurd o

module _ (hook : World → World × Bool) (keeps : Keeps hook) where
  pub thread_sleep-Leads :
      (p : ℕ → Place) (k : Prog) (w : World) → IsQueued p w → Leads (thread_sleep hook k w)
  unfolding thread_sleep
  thread_sleep-Leads p k w h =
      (elim w.runq as (λ q. w.runq ≡ q → Leads (sleep_on hook q k w)) [
        | [] ↦ λ z.
            let (p', h', c, o) = keeps p w h in
            (
              p',
              record {
                queued = IsQueued-same p' (hook w).0 _ h' refl refl refl refl h'.stands;
                current = Current-asleep p' k (hook w).0.cur (hook w).1;
              },
            )
        | next ∷ rest ↦ λ z. check-Leads w next _ (
            csw-Leads (put p next running) next k _ (dispatch p next rest w h z)
              (put_self p next running))
      ])
        refl

  leave_next :
      (p : ℕ → Place) (u : Place) (next : ℕ) (rest : List ℕ) (w : World)
      → IsQueued p w
      → IsOff u
      → ready ≢ u
      → p w.cur ≡ u
      → w.runq ≡ next ∷ rest
      → Leads (csw_exit (w.threads next).stack (record w { runq = rest }))
  unfolding csw_exit retire
  leave_next p u next rest w h o r e z =
      let n = apart p next w.cur ready u (head_ready p next rest w h z) e r in
      let p1 = put p next running in
      let w1 = record w { runq = rest } in
      let e1 : p1 w.cur ≡ u = put_ne p next w.cur running u n e in
      let h1 = retire-IsQueued p1 u w1 (dispatch p next rest w h z) o e1 in
      let i = (w.threads w.cur).stack in
      let w2 = retire i w1 in
      let p2 = put p1 w.cur idle in
      let q : (w2.threads next).stack ≡ (w.threads next).stack = rw (ne→== next w.cur n) in
      let e2 : p2 next ≡ running =
        put_ne p1 w.cur next idle running (λ d. n (sym d)) (put_self p next running) in
      elim (Bool-cases (i == 0)) [
        | inl y ↦ rw y tt
        | inr y ↦ rw y (subst (λ s. Leads (load s w2)) q (load-Leads p2 next w2 h1 e2))
      ]

  pub thread_sleep_leave-Leads :
      (p : ℕ → Place) (w : World)
      → IsQueued p w
      → (u : Place) → IsOff u
      → ready ≢ u
      → p w.cur ≡ u
      → Leads (thread_sleep_leave hook w)
  unfolding thread_sleep_leave
  thread_sleep_leave-Leads p w h u o r e =
      (elim w.runq as (λ q. w.runq ≡ q → Leads (leave_on hook q w)) [
        | [] ↦ λ z.
            let (p', h', c, k) = keeps p w h in
            (
              p',
              record {
                queued = IsQueued-same p' (hook w).0 _ h' refl refl refl refl h'.stands;
                current =
                    Current-leaving p' (hook w).0.cur (hook w).1
                      (off_cases p' (hook w).0.cur u o (rw c (k (rw e o) ∙ e)));
              },
            )
        | next ∷ rest ↦ λ z. check-Leads w next _ (leave_next p u next rest w h o r e z)
      ])
        refl
