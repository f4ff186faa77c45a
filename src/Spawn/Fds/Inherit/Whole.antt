-- ===== src/Spawn/Fds/Inherit/Whole.antt =====
-- The pipes of a process are those of its parent: `CloneFileDescriptors` of
-- ports/nacl-spawn/nacl_spawn.cc and `restore_pipes` of nacl_setup_env.c.
use webports.Prelude.{
  ℕ, zero, suc, ◌+◌, ◌<◌, ◌≤◌, ℤ, pos, Bool, true, false, List, [], ◌∷◌, ◌++◌, length, Option, none,
  some, ◌≡◌, refl, ap, ◌∙◌, arith, Text, All, Fresh, subst,
}
use webports.Spawn.Pipes.{
  OldPipe, Library, restored, restore_entry, restore_loop, restore_pipes, max_old_pipes,
}
use webports.Spawn.Fds.{
  Table, Stat, not_open, stat_error, fifo, other_kind, max_file_descriptor, as_int,
}
use webports.Spawn.Fds.Rows.{pipe_rows, row_of}
use webports.Spawn.Fds.Inherit.{End, end_of, IsChild, fds, Clear, entry_at}
use webports.Spawn.Fds.Inherit.Round.{Restores, Meets, restore_entry-Restores}

module _ {K : Type 0} (lib : Library K) (holds : K → ℤ → Option End) (laws : IsChild lib holds)
    (print : OldPipe → Text) (read : (r : OldPipe) → lib.scan (print r) ≡ some r) where
  restore_loop-Restores :
      (todo done old : List OldPipe) (fuel count : ℕ) (k : K)
      → length todo < fuel
      → Meets lib holds laws print read done todo old count k
      → Restores lib holds laws print read done todo (restore_loop lib fuel count old k)
  unfolding restore_loop restore_entry
  restore_loop-Restores todo done old zero count k l m = absurd (omega arith)
  restore_loop-Restores [] done old (suc fuel) count k l m =
      let q : count + 0 ≡ count = omega arith in
      let e : lib.setup count k ≡ none = subst (λ n. lib.setup n k ≡ none) q (m.entries 0) in
      rw (e, restore_entry) (old, k, refl, m.held, tt)
  restore_loop-Restores (e ∷ todo) done old (suc fuel) count k l m =
      let q : count + 0 ≡ count = omega arith in
      let s : lib.setup count k ≡ some (print e) =
        subst (λ n. lib.setup n k ≡ some (print e)) q (m.entries 0) in
      let r =
        restore_entry-Restores lib holds laws print read (restore_loop lib fuel (count + 1)) done
          todo old e count k m
          (λ old' k' m'.
            restore_loop-Restores todo (e ∷ done) old' fuel (count + 1) k' (omega arith) m') in
      let (old', k', g, h, t) = r in
      (
        old',
        k',
        ap (λ o. restore_entry lib (restore_loop lib fuel (count + 1)) count o old k) s ∙ g,
        h.1,
        (h.0, t),
      )

-- The rows of the descriptors from `fd` on are apart from those below.
abbrev Below : ℕ → List OldPipe → Type 0
Below fd rows = All (λ r. (n : ℕ) × (r.fd ≡ pos n) × (n < fd)) rows

Below-Fresh : (fd : ℕ) (rows : List OldPipe) → Below fd rows → Fresh (pos fd) (fds rows)
Below-Fresh fd [] h = tt
Below-Fresh fd (r ∷ rows) h =
    let (n, e, l) = h.0 in
    (λ q. let z : pos fd ≡ pos n = q ∙ e in ground arith, Below-Fresh fd rows h.1)

Below-suc : (fd : ℕ) (rows : List OldPipe) → Below fd rows → Below (fd + 1) rows
Below-suc fd [] h = tt
Below-suc fd (r ∷ rows) h = let (n, e, l) = h.0 in ((n, e, omega arith), Below-suc fd rows h.1)

row_of-Clear :
    (fd : ℕ) (s : Stat) (f : Option Bool) (done rows : List OldPipe)
    → Below fd done
    → ((done' : List OldPipe) → Below (fd + 1) done' → Clear done' rows)
    → Clear done (row_of fd s f ++ rows)
row_of-Clear fd not_open f done rows h k = k done (Below-suc fd done h)
row_of-Clear fd stat_error f done rows h k = k done (Below-suc fd done h)
row_of-Clear fd (fifo ino writer) none done rows h k = k done (Below-suc fd done h)
row_of-Clear fd (fifo ino writer) (some true) done rows h k = k done (Below-suc fd done h)
row_of-Clear fd (fifo ino writer) (some false) done rows h k = (
  Below-Fresh fd done h,
  k (record { port = ino; writer = as_int writer; fd = pos fd } ∷ done)
      ((fd, refl, omega arith), Below-suc fd done h),
)
row_of-Clear fd other_kind f done rows h k = k done (Below-suc fd done h)

pipe_rows-Clear :
    (table : Table) (rounds fd : ℕ) (done : List OldPipe)
    → Below fd done
    → Clear done (pipe_rows table rounds fd)
unfolding pipe_rows
pipe_rows-Clear table zero fd done h = tt
pipe_rows-Clear table (suc rounds) fd done h =
    row_of-Clear fd (table.fstat fd) (table.close_on_exec fd) done (pipe_rows table rounds (fd + 1))
      h (pipe_rows-Clear table rounds (fd + 1))

-- If the C library is as documented, and the environment of a new process has the entries of its
-- parent's pipes, at most 100 of them, then `restore_pipes` succeeds, also where descriptors share a
-- pipe, and each of these descriptors is the same end of the same pipe as in the parent; the fuel is
-- one more than the entries.
pub restore_pipes-pipe_rows :
    {K : Type 0} (lib : Library K) (holds : K → ℤ → Option End) (print : OldPipe → Text)
    (table : Table) (k : K)
    → IsChild lib holds
    → ((r : OldPipe) → lib.scan (print r) ≡ some r)
    → ((n : ℕ) → lib.setup n k ≡ entry_at print (pipe_rows table max_file_descriptor 0) n)
    → length (pipe_rows table max_file_descriptor 0) ≤ max_old_pipes
    → (old : List OldPipe) × (k' : K) × (restore_pipes lib
          (length (pipe_rows table max_file_descriptor 0) + 1)
          k
        ≡ restored old k')
      × All (λ r. holds k' r.fd ≡ some (end_of r)) (pipe_rows table max_file_descriptor 0)
unfolding restore_pipes
restore_pipes-pipe_rows lib holds print table k laws read s l =
    let rows = pipe_rows table max_file_descriptor 0 in
    let meets : Meets lib holds laws print read [] rows [] 0 k = record {
      rows = tt;
      held = tt;
      entries = λ n. ap (λ m. lib.setup m k) (zero_add n) ∙ s n;
      room = omega arith;
      clear = pipe_rows-Clear table max_file_descriptor 0 [] tt;
    } in
    let (old, k', e, h, t) =
      restore_loop-Restores lib holds laws print read rows [] [] (length rows + 1) 0 k (omega arith)
        meets in
    (old, k', e, t)
  where
    zero_add : (n : ℕ) → 0 + n ≡ n
    zero_add n = omega arith
