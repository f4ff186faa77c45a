-- ===== src/Dread/Event/Order.antt =====
-- Which threads an event wakes, and in which order: `dthr_eventq_to_runq` of
-- ports/dreadthread/dread.c.
use webports.Prelude.{
  ℕ, zero, suc, List, [], ◌∷◌, ◌++◌, append_assoc, append-nil, ◌≡◌, refl, sym, subst, ◌∙◌, ==_iff,
  true, inl, inr, ==_refl, ◌==◌, All, Bool-cases, arith, ◌≤◌, length,
}
use webports.Dread.World.{
  Run, ok, abort, World, runnable, thread_magic, event_magic, set_event, set_state,
}
use webports.Dread.Event.{move, eventq_to_runq, broadcast, signal, uint_max}

-- The first items of a queue, and those behind them.
abbrev pub take : ℕ → List ℕ → List ℕ
take zero xs = []
take (suc n) [] = []
take (suc n) (x ∷ xs) = x ∷ take n xs

abbrev pub drop : ℕ → List ℕ → List ℕ
drop zero xs = xs
drop (suc n) [] = []
drop (suc n) (x ∷ xs) = drop n xs

-- The thread's descriptor has its magic number.
abbrev pub IsThread : World → ℕ → Type 0
IsThread w t = (w.threads t).magic ≡ thread_magic

-- `xs` went from the event to the end of the run queue and `ys` still wait; `runq` was there before.
abbrev pub Moved : ℕ → List ℕ → List ℕ → List ℕ → Run World → Type 0
Moved e runq xs ys (ok w) =
    (w.runq ≡ runq ++ xs)
    × ((w.events e).threadq ≡ ys)
    × All (λ t. (w.threads t).state ≡ runnable) xs
Moved e runq xs ys (abort _) = ⊥

-- A thread that becomes runnable leaves the others' states and every magic number.
stays :
    (th t : ℕ) (w : World)
    → (w.threads t).state ≡ runnable
    → ((set_state w th runnable).threads t).state ≡ runnable
stays th t w h = elim (Bool-cases (t == th)) [ inl d ↦ rw d refl | inr d ↦ rw d h ]

magic-kept : (th t : ℕ) (w : World) → IsThread w t → IsThread (set_state w th runnable) t
magic-kept th t w h = elim (Bool-cases (t == th)) [
  | inl d ↦ rw d (subst (IsThread w) ((==_iff t th).0 d) h)
  | inr d ↦ rw d h
]

All-stay :
    (th : ℕ) (w : World) (xs : List ℕ)
    → All (λ t. (w.threads t).state ≡ runnable) xs
    → All (λ t. ((set_state w th runnable).threads t).state ≡ runnable) xs
All-stay th w [] h = tt
All-stay th w (x ∷ xs) h = (stays th x w h.0, All-stay th w xs h.1)

All-kept :
    (th : ℕ) (w : World) (xs : List ℕ)
    → All (IsThread w) xs
    → All (IsThread (set_state w th runnable)) xs
All-kept th w [] h = tt
All-kept th w (x ∷ xs) h = (magic-kept th x w h.0, All-kept th w xs h.1)

-- As `Moved`, where `seen` became runnable before.
abbrev Wakes : ℕ → List ℕ → List ℕ → List ℕ → List ℕ → Run World → Type 0
Wakes e runq seen xs ys (ok w) =
    (w.runq ≡ runq ++ xs)
    × ((w.events e).threadq ≡ ys)
    × All (λ t. (w.threads t).state ≡ runnable) seen
    × All (λ t. (w.threads t).state ≡ runnable) xs
Wakes e runq seen xs ys (abort _) = ⊥

joined :
    (e th : ℕ) (runq seen xs ys : List ℕ) (m : Run World)
    → Wakes e (runq ++ th ∷ []) (th ∷ seen) xs ys m
    → Wakes e runq seen (th ∷ xs) ys m
joined e th runq seen xs ys (ok w) h =
    (h.0 ∙ append_assoc runq (th ∷ []) xs, h.1, h.2.1, (h.2.0, h.3))
joined e th runq seen xs ys (abort _) h = absurd h

move-Wakes :
    (e max : ℕ) (q seen : List ℕ) (w : World)
    → (w.events e).threadq ≡ q
    → All (IsThread w) q
    → All (λ t. (w.threads t).state ≡ runnable) seen
    → Wakes e w.runq seen (take max q) (drop max q) (move e q max w)
unfolding move
move-Wakes e zero [] seen w z h a = (sym (append-nil w.runq), z, a, tt)
move-Wakes e (suc max) [] seen w z h a = (sym (append-nil w.runq), z, a, tt)
move-Wakes e zero (th ∷ q) seen w z h a = (sym (append-nil w.runq), z, a, tt)
move-Wakes e (suc max) (th ∷ q) seen w z h a =
    let w1 = set_event w e (record (w.events e) { threadq = q }) in
    let w2 = record (set_state w1 th runnable) { runq = w.runq ++ th ∷ [] } in
    let d : (w.threads th).magic == thread_magic ≡ true = rw h.0 (==_refl thread_magic) in
    rw d (
      joined e th w.runq seen (take max q) (drop max q) (move e q max w2) (
        move-Wakes e max q (th ∷ seen) w2 (rw ==_refl refl) (All-kept th w q h.1)
          (rw ==_refl refl, All-stay th w seen a)))

-- If the event and the threads that wait for it have their magic numbers, `dthr_eventq_to_runq`
-- succeeds: the first `max` threads that wait, or all of them if there are fewer, go to the end of
-- the run queue in the order in which they wait and become runnable, and the others wait on.
pub eventq_to_runq_lem :
    (e max : ℕ) (w : World)
    → (w.events e).magic ≡ event_magic
    → All (IsThread w) (w.events e).threadq
    → Moved e w.runq
        (take max (w.events e).threadq)
        (drop max (w.events e).threadq)
        (eventq_to_runq e max w)
unfolding eventq_to_runq
eventq_to_runq_lem e max w m h =
    let d : (w.events e).magic == event_magic ≡ true = rw m (==_refl event_magic) in
    rw d (
      forget (move e (w.events e).threadq max w)
        (move-Wakes e max (w.events e).threadq [] w refl h tt))
  where
    forget :
        (m : Run World)
        → Wakes e w.runq [] (take max (w.events e).threadq) (drop max (w.events e).threadq) m
        → Moved e w.runq (take max (w.events e).threadq) (drop max (w.events e).threadq) m
    forget (ok v) k = (k.0, k.1, k.3)
    forget (abort _) k = absurd k

all_taken : (n : ℕ) (q : List ℕ) → length q ≤ n → (take n q ≡ q) × (drop n q ≡ [])
all_taken zero [] l = (refl, refl)
all_taken (suc n) [] l = (refl, refl)
all_taken zero (x ∷ q) l = absurd (omega arith)
all_taken (suc n) (x ∷ q) l = let h = all_taken n q (omega arith) in (rw h.0 refl, h.1)

-- A broadcast to an event on which at most `UINT_MAX` threads wait wakes all of them, in the order
-- in which they wait, if the event and the threads have their magic numbers.
pub broadcast_lem :
    (e : ℕ) (w : World)
    → (w.events e).magic ≡ event_magic
    → All (IsThread w) (w.events e).threadq
    → length (w.events e).threadq ≤ uint_max
    → Moved e w.runq (w.events e).threadq [] (broadcast e w)
unfolding broadcast
broadcast_lem e w m h l =
    let k = all_taken uint_max (w.events e).threadq l in
    subst (λ xs. Moved e w.runq xs [] (eventq_to_runq e uint_max w)) k.0
      (subst
        (λ ys. Moved e w.runq (take uint_max (w.events e).threadq) ys (eventq_to_runq e uint_max w))
        k.1 (eventq_to_runq_lem e uint_max w m h))

-- A signal to an event on which threads wait wakes the one that has waited longest, and no other,
-- if the event and the threads have their magic numbers.
pub signal_lem :
    (e th : ℕ) (rest : List ℕ) (w : World)
    → (w.events e).magic ≡ event_magic
    → (w.events e).threadq ≡ th ∷ rest
    → All (IsThread w) (w.events e).threadq
    → Moved e w.runq (th ∷ []) rest (signal e w)
unfolding signal
signal_lem e th rest w m z h =
    let f : drop 1 (th ∷ rest) ≡ rest = refl in
    subst (λ q. Moved e w.runq (take 1 q) (drop 1 q) (eventq_to_runq e 1 w)) z
      (eventq_to_runq_lem e 1 w m h)
