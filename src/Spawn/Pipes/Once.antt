-- ===== src/Spawn/Pipes/Once.antt =====
-- `restore_pipes` of ports/nacl-spawn/nacl_setup_env.c opens each pipe once.
use webports.Prelude.{
  ℕ, zero, suc, ◌+◌, ◌<◌, ◌≤◌, ℤ, pos, eq_int, is_negative, Bool, true, false, not, ◌&&◌, List, [],
  ◌∷◌, ◌++◌, length, length-append, Option, none, some, leb, if◌then◌else◌, ◌≡◌, ◌≢◌, refl, sym, ap,
  ◌∙◌, append-nil, append_assoc, subst, arith, inl, inr, Bool-cases, All,
}
use webports.Spawn.Pipes.{
  OldPipe, Library, Restored, restored, failed, exhausted, find_pipe, place_pipe, restore_new,
  restore_found, restore_scanned, restore_entry, restore_loop, restore_pipes, max_old_pipes,
}

-- No row before has the port and direction of a later one, so that the search finds no other row.
abbrev pub OneEach : List OldPipe → Type 0
OneEach [] = Unit
OneEach (p ∷ rest) =
    All (λ q. (eq_int p.port q.port && eq_int p.writer q.writer) ≡ false) rest × OneEach rest

ne_le : (m n : ℕ) → m ≤ n → m ≢ n → m + 1 ≤ n
ne_le m n l e = elim (Bool-cases (leb (m + 1) n)) [
  | inl d ↦ ground arith
  | inr d ↦ let z : m ≡ n = ground arith in absurd (e z)
]

All-snoc :
    (P : OldPipe → Type 0) (xs : List OldPipe) (e : OldPipe) → All P xs → P e → All P (xs ++ e ∷ [])
All-snoc P [] e h k = (k, tt)
All-snoc P (x ∷ xs) e h k = (h.0, All-snoc P xs e h.1 k)

OneEach-snoc :
    (old : List OldPipe) (e : OldPipe)
    → OneEach old
    → find_pipe e.port e.writer old ≡ none
    → OneEach (old ++ e ∷ [])
unfolding find_pipe
OneEach-snoc [] e h f = (tt, tt)
OneEach-snoc (p ∷ old) e h f =
    (elim (eq_int p.port e.port && eq_int p.writer e.writer)
        as (λ b.
          (eq_int p.port e.port && eq_int p.writer e.writer) ≡ b
          → (if b then some p else find_pipe e.port e.writer old) ≡ none
          → OneEach ((p ∷ old) ++ e ∷ [])) [
            | true ↦ λ d g. cc
            | false ↦ λ d g. (
              All-snoc (λ q. (eq_int p.port q.port && eq_int p.writer q.writer) ≡ false) old e h.0
                  d,
              OneEach-snoc old e h.1 g,
            )
          ])
      refl f

-- A pipe's port, and whether it is opened to write.
abbrev pub end_of : OldPipe → ℤ × Bool
end_of e = (e.port, not (eq_int e.writer (pos 0)))

abbrev pub ends_of : List OldPipe → List (ℤ × Bool)
ends_of [] = []
ends_of (e ∷ old) = end_of e ∷ ends_of old

ends_of-snoc :
    (start : List (ℤ × Bool)) (old : List OldPipe) (e : OldPipe) (calls : List (ℤ × Bool))
    → calls ≡ start ++ ends_of old
    → calls ++ end_of e ∷ [] ≡ start ++ ends_of (old ++ e ∷ [])
ends_of-snoc start old e calls h =
    ap (λ t. t ++ end_of e ∷ []) h
    ∙ append_assoc start (ends_of old) (end_of e ∷ [])
    ∙ ap (λ t. start ++ t) (go old)
  where
    go : (xs : List OldPipe) → ends_of xs ++ end_of e ∷ [] ≡ ends_of (xs ++ e ∷ [])
    go [] = refl
    go (x ∷ xs) = ap (λ t. end_of x ∷ t) (go xs)

-- What the C library documents of an entry that is not set: no call of the loop sets it. `opened`
-- lists the calls of `open_pipe` up to a state.
pub record IsLibrary {K : Type 0} (lib : Library K) (n : ℕ) (opened : K → List (ℤ × Bool))
    : Type 0 where
  pub open-opened :
      (port : ℤ) (writer : Bool) (k : K)
      → opened (lib.open_pipe port writer k).0 ≡ opened k ++ (port, writer) ∷ []
  pub unset-opened : (c : ℕ) (k : K) → opened (lib.unset c k) ≡ opened k
  pub dup2-opened : (a b : ℤ) (k : K) → opened (lib.dup2 a b k) ≡ opened k
  pub close-opened : (a : ℤ) (k : K) → opened (lib.close a k) ≡ opened k
  pub unset-setup : (c : ℕ) (k : K) → lib.setup n k ≡ none → lib.setup n (lib.unset c k) ≡ none
  pub open-setup :
      (port : ℤ) (writer : Bool) (k : K)
      → lib.setup n k ≡ none
      → lib.setup n (lib.open_pipe port writer k).0 ≡ none
  pub dup2-setup : (a b : ℤ) (k : K) → lib.setup n k ≡ none → lib.setup n (lib.dup2 a b k) ≡ none
  pub close-setup : (a : ℤ) (k : K) → lib.setup n k ≡ none → lib.setup n (lib.close a k) ≡ none

module _ {K : Type 0} (lib : Library K) (opened : K → List (ℤ × Bool))
    (start : List (ℤ × Bool)) where
  -- The function returned 0, and behind `start` it opened each pipe of its table once and no other;
  -- or it returned 1 after one call more, for a pipe without a row.
  abbrev pub Opens : Restored K → Type 0
  Opens (restored old k) =
      OneEach old × (length old ≤ max_old_pipes) × (opened k ≡ start ++ ends_of old)
  Opens (failed old k) =
      (e : OldPipe) × OneEach (old ++ e ∷ [])
      × (length old ≤ max_old_pipes)
      × (opened k ≡ start ++ ends_of (old ++ e ∷ []))
  Opens exhausted = ⊥

  place_pipe-opened :
      (n : ℕ) (a b : ℤ) (k : K) → IsLibrary lib n opened → opened (place_pipe lib a b k) ≡ opened k
  unfolding place_pipe
  place_pipe-opened n a b k laws = elim (Bool-cases (eq_int a b)) [
    | inl d ↦ rw d refl
    | inr d ↦ rw d (laws.close-opened a (lib.dup2 a b k) ∙ laws.dup2-opened a b k)
  ]

  place_pipe-setup :
      (n : ℕ) (a b : ℤ) (k : K)
      → IsLibrary lib n opened
      → lib.setup n k ≡ none
      → lib.setup n (place_pipe lib a b k) ≡ none
  unfolding place_pipe
  place_pipe-setup n a b k laws e = elim (Bool-cases (eq_int a b)) [
    | inl d ↦ rw d e
    | inr d ↦ rw d (laws.close-setup a (lib.dup2 a b k) (laws.dup2-setup a b k e))
  ]

  -- The rest of the loop does so.
  abbrev Goes : ℕ → (List OldPipe → K → Restored K) → Type 0
  Goes n later =
      (old : List OldPipe) (k : K)
      → lib.setup n k ≡ none
      → OneEach old
      → length old ≤ max_old_pipes
      → opened k ≡ start ++ ends_of old
      → Opens (later old k)

  restore_new-Opens :
      (n : ℕ) (later : List OldPipe → K → Restored K) (e : OldPipe) (old : List OldPipe) (k : K)
      → IsLibrary lib n opened
      → Goes n later
      → lib.setup n k ≡ none
      → OneEach old
      → length old ≤ max_old_pipes
      → opened k ≡ start ++ ends_of old
      → find_pipe e.port e.writer old ≡ none
      → Opens (restore_new lib later e old k)
  unfolding restore_new
  restore_new-Opens n later e old k laws go z h l o f =
      let writes = not (eq_int e.writer (pos 0)) in
      let k1 = (lib.open_pipe e.port writes k).0 in
      let fd_tmp = (lib.open_pipe e.port writes k).1 in
      let z2 = place_pipe-setup n fd_tmp e.fd k1 laws (laws.open-setup e.port writes k z) in
      let sizes = length-append old (e ∷ []) in
      let each = OneEach-snoc old e h f in
      let calls : opened k1 ≡ start ++ ends_of (old ++ e ∷ []) =
        laws.open-opened e.port writes k ∙ ends_of-snoc start old e (opened k) o in
      let placed : opened (place_pipe lib fd_tmp e.fd k1) ≡ start ++ ends_of (old ++ e ∷ []) =
        place_pipe-opened n fd_tmp e.fd k1 laws ∙ calls in
      elim (Bool-cases (is_negative fd_tmp)) [
        | inl d ↦ rw d (e, each, l, calls)
        | inr d ↦ elim (Bool-cases (leb max_old_pipes (length old))) [
          | inl g ↦ rw (d, g) (e, each, l, placed)
          | inr g ↦
              rw (d, g)
                (go (old ++ e ∷ []) (place_pipe lib fd_tmp e.fd k1) z2 each (ground arith) placed)
        ]
      ]

  restore_scanned-Opens :
      (n : ℕ) (later : List OldPipe → K → Restored K) (scanned : Option OldPipe)
      (old : List OldPipe) (k : K)
      → IsLibrary lib n opened
      → Goes n later
      → lib.setup n k ≡ none
      → OneEach old
      → length old ≤ max_old_pipes
      → opened k ≡ start ++ ends_of old
      → Opens (restore_scanned lib later scanned old k)
  unfolding restore_scanned restore_found
  restore_scanned-Opens n later none old k laws go z h l o = go old k z h l o
  restore_scanned-Opens n later (some e) old k laws go z h l o =
      (elim (find_pipe e.port e.writer old)
          as (λ found.
            find_pipe e.port e.writer old ≡ found → Opens (restore_found lib later e found old k)) [
              | none ↦ λ f. restore_new-Opens n later e old k laws go z h l o f
              | some p ↦ λ f.
                  go old (lib.dup2 p.fd e.fd k) (laws.dup2-setup p.fd e.fd k z) h l
                    (laws.dup2-opened p.fd e.fd k ∙ o)
            ])
        refl

  restore_loop-Opens :
      (fuel count n : ℕ) (old : List OldPipe) (k : K)
      → IsLibrary lib n opened
      → lib.setup n k ≡ none
      → count ≤ n
      → n < count + fuel
      → OneEach old
      → length old ≤ max_old_pipes
      → opened k ≡ start ++ ends_of old
      → Opens (restore_loop lib fuel count old k)
  unfolding restore_loop restore_entry
  restore_loop-Opens zero count n old k laws e a b h l o = absurd (omega arith)
  restore_loop-Opens (suc fuel) count n old k laws e a b h l o =
      (elim (lib.setup count k)
          as (λ entry.
            lib.setup count k ≡ entry
            → Opens (restore_entry lib (restore_loop lib fuel (count + 1)) count entry old k)) [
              | none ↦ λ f. (h, l, o)
              | some text ↦ λ f.
                  let before : count ≢ n = λ z.
                    let g : lib.setup n k ≡ some text =
                      subst (λ j. lib.setup j k ≡ some text) z f in
                    cc in
                  restore_scanned-Opens n (restore_loop lib fuel (count + 1)) (lib.scan text) old
                    (lib.unset count k) laws
                    (λ old1 k1 z1 h1 l1 o1.
                      restore_loop-Opens fuel (count + 1) n old1 k1 laws z1
                        (omega (arith, ne_le count n a before)) (omega arith) h1 l1 o1)
                    (laws.unset-setup count k e) h l (laws.unset-opened count k ∙ o)
            ])
        refl

-- If no call sets the entry `n`, and it is not set at the start, then `restore_pipes` returns after
-- at most `n` entries, whatever they hold, and writes no row outside its table. With 0 it has opened
-- each pipe of the table once, in order, and made no other call of `open_pipe`; with 1 it has made
-- one call more, for a pipe that has no row. Two pipes here differ in their port or in the number
-- that gives their direction.
pub restore_pipes-Opens :
    {K : Type 0} (lib : Library K) (opened : K → List (ℤ × Bool)) (n : ℕ) (k : K)
    → IsLibrary lib n opened
    → lib.setup n k ≡ none
    → Opens lib opened (opened k) (restore_pipes lib (n + 1) k)
unfolding restore_pipes
restore_pipes-Opens lib opened n k laws e =
    restore_loop-Opens lib opened (opened k) (n + 1) 0 n [] k laws e (omega arith) (omega arith) tt
      (omega arith) (sym (append-nil (opened k)))
