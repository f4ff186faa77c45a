-- ===== src/Dread/Place/Permits.antt =====
-- What a call of ports/dreadthread/dread.c asks of the queues of its world, whichever places the
-- threads have.
use webports.Prelude.{
  ℕ, ◌+◌, ◌<◌, Bool, true, false, ◌&&◌, List, [], ◌∷◌, ◌≡◌, ◌≢◌, refl, sym, subst, inl, inr, ◌==◌,
  Bool-cases, ==_iff, ==_refl, ne→==, All, All-Among, Among, if◌then◌else◌, arith,
}
use webports.Dread.World.{
  Prog, World, launch, launcher, thread_init, enqueue_new, base_launch, topmost_thread,
  topmost_stack,
}
use webports.Dread.Place.{Place, running, new, idle, queue, IsQueued, Current}
use webports.Dread.Place.Launching.{IsLive, IsUnused}

-- What a step asks of its world. A thread that is initialised or started is idle; the launcher runs
-- on the topmost thread, and finds no live thread on a free stack; the base of a stack is that of
-- the current thread's.
abbrev pub Allowed : (ℕ → Place) → Prog → World → Type 0
Allowed p (thread_init th fn arg size k) w = p th ≡ idle
Allowed p (enqueue_new th k) w = p th ≡ idle
Allowed p launch w = All (IsUnused p w) w.free_stacks
Allowed p launcher w = w.cur ≡ topmost_thread
Allowed p (base_launch stk) w = (w.stacks stk).thread ≡ w.cur
Allowed p _ w = Unit

-- The thread is not the current one, and on no queue.
abbrev pub IsOff : World → ℕ → Type 0
IsOff w t = (t ≢ w.cur) × ((v : Place) → Among t (queue w v) → ⊥)

-- A stack descriptor other than the topmost one; a thread that is bound to it is not the current one,
-- and on no queue but the new one.
pub record IsFree (w : World) (stk : ℕ) : Type 0 where
  pub made : stk < w.stacks_made + 2
  pub lower : stk ≢ topmost_stack
  pub resting :
      (t : ℕ)
      → (w.threads t).stack ≡ stk
      → (t ≢ w.cur) × ((v : Place) → IsLive v → Among t (queue w v) → ⊥)

-- A thread that is initialised or started is neither current nor on a queue; the launcher runs on the
-- topmost thread, and finds only stacks on the free list that no thread needs; the base of a stack is
-- that of the current thread's.
abbrev pub Permits : Prog → World → Type 0
Permits (thread_init th fn arg size k) w = IsOff w th
Permits (enqueue_new th k) w = IsOff w th
Permits launch w = All (IsFree w) w.free_stacks
Permits launcher w = w.cur ≡ topmost_thread
Permits (base_launch stk) w = (w.stacks stk).thread ≡ w.cur
Permits _ w = Unit

-- The threads of `b` leave their places.
abbrev clear : (ℕ → Place) → (ℕ → Bool) → ℕ → Place
clear p b t = if b t then idle else p t

clear-All :
    (p : ℕ → Place) (b : ℕ → Bool) (v : Place) (xs : List ℕ)
    → All (λ t. p t ≡ v) xs
    → ((t : ℕ) → b t ≡ true → Among t xs → ⊥)
    → All (λ t. clear p b t ≡ v) xs
clear-All p b v [] h n = tt
clear-All p b v (x ∷ xs) h n = elim (Bool-cases (b x)) [
  | inl d ↦ absurd (n x d (inl refl))
  | inr d ↦ (rw d h.0, clear-All p b v xs h.1 (λ t e a. n t e (inr a)))
]

clear-IsQueued :
    (p : ℕ → Place) (b : ℕ → Bool) (w : World)
    → IsQueued p w
    → ((t : ℕ) → b t ≡ true → (v : Place) → Among t (queue w v) → ⊥)
    → IsQueued (clear p b) w
clear-IsQueued p b w h n = record {
  queues = λ v. (clear-All p b v (queue w v) (h.queues v).0 (λ t e a. n t e v a), (h.queues v).1);
  stands = λ t. elim (Bool-cases (b t)) [ inl d ↦ rw d tt | inr d ↦ rw d (h.stands t) ];
}

-- The places of a call, if its world permits it: some threads are idle besides.
abbrev pub Fits : Prog → World → Type 0
Fits k w = (q : ℕ → Place) × IsQueued q w × Current q k w.cur × Allowed q k w

off-idle :
    (p : ℕ → Place) (th : ℕ) (w : World)
    → IsQueued p w
    → p w.cur ≡ running
    → IsOff w th
    → (q : ℕ → Place) × IsQueued q w × (q w.cur ≡ running) × (q th ≡ idle)
off-idle p th w h e a =
    let other : (w.cur == th) ≡ false = ne→== w.cur th (λ z. a.0 (sym z)) in
    (
      clear p (λ t. t == th),
      clear-IsQueued p (λ t. t == th) w h
          (λ t d v m. a.1 v (subst (λ x. Among x (queue w v)) ((==_iff t th).0 d) m)),
      rw other e,
      rw (==_refl th) refl,
    )

abbrev is_live : Place → Bool
is_live new = false
is_live idle = false
is_live _ = true

is_live-IsLive : (v : Place) → is_live v ≡ true → IsLive v
is_live-IsLive new d = cc
is_live-IsLive idle d = cc
is_live-IsLive v d = tt

abbrev among : ℕ → List ℕ → Bool
among x [] = false
among x (y ∷ ys) = if x == y then true else among x ys

among-Among : (x : ℕ) (ys : List ℕ) → among x ys ≡ true → Among x ys
among-Among x [] d = cc
among-Among x (y ∷ ys) d = elim (Bool-cases (x == y)) [
  | inl e ↦ inl ((==_iff x y).0 e)
  | inr e ↦ let f : among x ys ≡ true = rw e at d in inr (among-Among x ys f)
]

IsLive-is_live : (v : Place) → IsLive v → is_live v ≡ true
IsLive-is_live new l = absurd l
IsLive-is_live idle l = absurd l
IsLive-is_live v l = refl

Among-among : (x : ℕ) (ys : List ℕ) → Among x ys → among x ys ≡ true
Among-among x [] m = absurd m
Among-among x (y ∷ ys) (inl e) = rw (e, ==_refl y) refl
Among-among x (y ∷ ys) (inr m) = elim (Bool-cases (x == y)) [
  | inl d ↦ rw d refl
  | inr d ↦ rw d (Among-among x ys m)
]

-- A live thread that is bound to a free stack is idle instead.
launch-fit :
    (p : ℕ → Place) (w : World)
    → IsQueued p w
    → p w.cur ≡ running
    → All (IsFree w) w.free_stacks
    → (q : ℕ → Place) × IsQueued q w × (q w.cur ≡ running) × All (IsUnused q w) w.free_stacks
launch-fit p w h e a =
    (clear p b, clear-IsQueued p b w h off, here, used w.free_stacks a (λ s m. m))
  where
    b : ℕ → Bool
    b t = among (w.threads t).stack w.free_stacks && is_live (p t)

    free : (t : ℕ) → b t ≡ true → IsFree w (w.threads t).stack
    free t d =
        All-Among (IsFree w) (w.threads t).stack w.free_stacks a
          (among-Among (w.threads t).stack w.free_stacks (ground arith))

    off : (t : ℕ) → b t ≡ true → (v : Place) → Among t (queue w v) → ⊥
    off t d v m =
        let z : p t ≡ v = All-Among (λ x. p x ≡ v) t (queue w v) (h.queues v).0 m in
        let live : is_live v ≡ true = subst (λ x. is_live x ≡ true) z (ground arith) in
        ((free t d).resting t refl).1 v (is_live-IsLive v live) m

    here : clear p b w.cur ≡ running
    here = elim (Bool-cases (b w.cur)) [
      | inl d ↦ absurd (((free w.cur d).resting w.cur refl).0 refl)
      | inr d ↦ rw d e
    ]

    bound : (t s : ℕ) → Among s w.free_stacks → (w.threads t).stack ≡ s → IsLive (clear p b t) → ⊥
    bound t s m z l = elim (Bool-cases (b t)) [
      | inl d ↦ subst (λ c. IsLive (if c then idle else p t)) d l
      | inr d ↦
          let live : is_live (p t) ≡ true =
            IsLive-is_live (p t) (subst (λ c. IsLive (if c then idle else p t)) d l) in
          let on : among (w.threads t).stack w.free_stacks ≡ true =
            rw z (Among-among s w.free_stacks m) in
          ground arith
    ]

    used :
        (xs : List ℕ)
        → All (IsFree w) xs
        → ((s : ℕ) → Among s xs → Among s w.free_stacks)
        → All (IsUnused (clear p b) w) xs
    used [] f m = tt
    used (s ∷ xs) f m = (
      record {
        made = f.0.made;
        lower = f.0.lower;
        unused = λ t l z. bound t s (m s (inl refl)) z l;
      },
      used xs f.1 (λ x k. m x (inr k)),
    )

-- If a world permits a call, the threads can be given places by which the call is allowed.
pub Permits-fit :
    (p : ℕ → Place) (k : Prog) (w : World)
    → IsQueued p w
    → Current p k w.cur
    → Permits k w
    → Fits k w
Permits-fit p (thread_init th fn arg size k) w h e a = off-idle p th w h e a
Permits-fit p (enqueue_new th k) w h e a = off-idle p th w h e a
Permits-fit p launch w h e a = launch-fit p w h e a
Permits-fit p launcher w h e a = (p, h, e, a)
Permits-fit p (base_launch stk) w h e a = (p, h, e, a)
Permits-fit p k w h e a = (p, h, e, a)
