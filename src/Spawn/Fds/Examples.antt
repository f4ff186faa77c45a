-- ===== src/Spawn/Fds/Examples.antt =====
-- The theorems on descriptors, for a process with two ends of a pipe, one of them twice.
use webports.Prelude.{
  ℕ, zero, suc, ◌+◌, ◌<◌, ◌≤◌, ℤ, pos, negsuc, eq_int, Bool, true, false, List, [], ◌∷◌, ◌++◌,
  length, map, Option, none, some, ◌==◌, if◌then◌else◌, ◌≡◌, ◌≢◌, refl, ap, sym, ◌∙◌, arith, Text,
  All, Bool-cases, subst, ne→==, ==_refl, inl, inr,
}
use webports.Spawn.Var.{PpVar, array}
use webports.Spawn.Fds.Samples.{file_calls, file_calls-IsTable, one_file, two_below, no_copy}
use webports.Spawn.Samples.{one_array, one_array-IsArray, text_of, text_of-string, put_item-end}
use webports.Spawn.Pipes.{OldPipe, Library, restored, restore_pipes, max_old_pipes}
use webports.Spawn.Fds.{
  not_open, fifo, Table, max_file_descriptor, stash_file_descriptors, as_int,
  unstash_file_descriptors, cloned, clone_file_descriptors,
}
use webports.Spawn.Fds.Rows.{
  pipe_rows, NoError, numbered, Appends, clone_file_descriptors-pipe_rows,
}
use webports.Spawn.Fds.Inherit.{End, end_of, IsChild, entry_at}
use webports.Spawn.Fds.Inherit.Whole.{restore_pipes-pipe_rows}
use webports.Spawn.Fds.Kept.{unstash-stash}

abbrev parent : Table
parent = record {
  fstat = λ fd.
      if fd == 3
      then fifo (pos 7) false
      else if fd == 4
      then fifo (pos 7) true
      else if fd == 5
      then fifo (pos 7) true
      else not_open;
  close_on_exec = λ fd. some false;
}

abbrev row : ℕ → Bool → OldPipe
row fd writer = record { port = pos 7; writer = as_int writer; fd = pos fd }

abbrev parent_rows : List OldPipe
parent_rows = row 3 false ∷ row 4 true ∷ row 5 true ∷ []

pipe_rows-parent : pipe_rows parent max_file_descriptor 0 ≡ parent_rows
unfolding pipe_rows max_file_descriptor
pipe_rows-parent = refl

-- Numbers stand for themselves in the printed entries.
abbrev sign : ℤ → ℕ
sign (pos n) = 0
sign (negsuc n) = 1

abbrev size : ℤ → ℕ
size (pos n) = n
size (negsuc n) = n

abbrev signed : ℕ → ℕ → ℤ
signed zero n = pos n
signed (suc _) n = negsuc n

signed_lem : (a : ℤ) → signed (sign a) (size a) ≡ a
signed_lem (pos n) = refl
signed_lem (negsuc n) = refl

abbrev print : OldPipe → Text
print r = sign r.port ∷ size r.port ∷ sign r.writer ∷ size r.writer ∷ sign r.fd ∷ size r.fd ∷ []

abbrev scan : Text → Option OldPipe
scan (a ∷ b ∷ c ∷ d ∷ e ∷ f ∷ []) =
    some (record { port = signed a b; writer = signed c d; fd = signed e f })
scan _ = none

scan-print : (r : OldPipe) → scan (print r) ≡ some r
scan-print r = rw (signed_lem r.port, signed_lem r.writer, signed_lem r.fd) refl

-- The entries that are gone, and the descriptors.
record Child : Type 0 where
  gone : List ℕ
  files : List (ℤ × End)

abbrev gone_from : ℕ → List ℕ → Bool
gone_from n [] = false
gone_from n (m ∷ ms) = if n == m then true else gone_from n ms

abbrev find : List (ℤ × End) → ℤ → Option End
find [] fd = none
find ((a, e) ∷ files) fd = if eq_int fd a then some e else find files fd

abbrev bound : List (ℤ × End) → ℕ
bound [] = 0
bound ((a, e) ∷ files) = suc (size a) + bound files

abbrev drop_all : ℤ → List (ℤ × End) → List (ℤ × End)
drop_all fd [] = []
drop_all fd ((a, e) ∷ files) = if eq_int a fd then drop_all fd files else (a, e) ∷ drop_all fd files

abbrev copy : Option End → ℤ → List (ℤ × End) → List (ℤ × End)
copy none b files = files
copy (some e) b files = (b, e) ∷ files

abbrev child_library : Library Child
child_library = record {
  setup = λ n k. if gone_from n k.gone then none else entry_at print parent_rows n;
  unset = λ n k. record k { gone = n ∷ k.gone };
  scan = scan;
  open_pipe = λ port w k.
      (record k { files = (pos (bound k.files), (port, w)) ∷ k.files }, pos (bound k.files));
  dup2 = λ a b k. record k { files = copy (find k.files a) b k.files };
  close = λ a k. record k { files = drop_all a k.files };
  getenv = λ name k. none;
  strtol = λ text. none;
}

eq_int_lem : (a b : ℤ) → eq_int a b ≡ true → a ≡ b
eq_int_lem (pos m) (pos n) h = ground arith
eq_int_lem (pos m) (negsuc n) h = cc
eq_int_lem (negsuc m) (pos n) h = cc
eq_int_lem (negsuc m) (negsuc n) h = ground arith

eq_int_ne : (a b : ℤ) → a ≢ b → eq_int a b ≡ false
eq_int_ne a b h = elim (Bool-cases (eq_int a b)) [
  | inl d ↦ absurd (h (eq_int_lem a b d))
  | inr d ↦ d
]

eq_int_same : (a : ℤ) → eq_int a a ≡ true
eq_int_same (pos n) = ==_refl n
eq_int_same (negsuc n) = ==_refl n

far : (m : ℕ) (a : ℤ) → size a < m → eq_int (pos m) a ≡ false
far m (pos n) h = ground arith
far m (negsuc n) h = refl

find-bound : (files : List (ℤ × End)) (m : ℕ) → bound files ≤ m → find files (pos m) ≡ none
find-bound [] m h = refl
find-bound ((a, e) ∷ files) m h = rw (far m a (omega arith)) (find-bound files m (omega arith))

find-drop_all :
    (files : List (ℤ × End)) (a fd : ℤ) → fd ≢ a → find (drop_all a files) fd ≡ find files fd
find-drop_all [] a fd n = refl
find-drop_all ((b, e) ∷ files) a fd n = elim (Bool-cases (eq_int b a)) [
  | inl d ↦
      let q : eq_int fd b ≡ false = eq_int_ne fd b (λ z. n (z ∙ eq_int_lem b a d)) in
      rw (d, q) (find-drop_all files a fd n)
  | inr d ↦ rw d (ap (λ o. if eq_int fd b then some e else o) (find-drop_all files a fd n))
]

find-copy :
    (o : Option End) (b fd : ℤ) (files : List (ℤ × End))
    → fd ≢ b
    → find (copy o b files) fd ≡ find files fd
find-copy none b fd files n = refl
find-copy (some e) b fd files n = rw (eq_int_ne fd b n)

child_library-IsChild : IsChild child_library (λ k. find k.files)
child_library-IsChild = record {
  unset-setup = λ m n k h. rw (ne→== m n h);
  unset-holds = λ n fd k. refl;
  open-setup = λ n port w k. refl;
  dup2-setup = λ n a b k. refl;
  close-setup = λ n a k. refl;
  open-valid = λ port w k. refl;
  open-new = λ port w k. find-bound k.files (bound k.files) (omega arith);
  open-holds = λ port w k. rw (==_refl (bound k.files));
  open-other = λ port w k fd h. rw (eq_int_ne fd (pos (bound k.files)) h);
  dup2-holds = λ a b k e h. rw (h, eq_int_same b);
  dup2-other = λ a b fd k h. find-copy (find k.files a) b fd k.files h;
  close-other = λ a fd k h. find-drop_all k.files a fd h;
}

abbrev start : Child
start = record { gone = []; files = [] }

restore_pipes-pipe_rows_example :
    (old : List OldPipe) × (k' : Child) × (restore_pipes child_library
        (length (pipe_rows parent max_file_descriptor 0) + 1)
        start
      ≡ restored old k')
    × All (λ r. find k'.files r.fd ≡ some (end_of r)) (pipe_rows parent max_file_descriptor 0)
restore_pipes-pipe_rows_example =
    restore_pipes-pipe_rows child_library (λ k. find k.files) print parent start
      child_library-IsChild scan-print
      (λ n. ap (λ rows. entry_at print rows n) (sym pipe_rows-parent))
      (subst (λ rows. length rows ≤ max_old_pipes) (sym pipe_rows-parent) (omega arith))

one_array-Appends : Appends one_array (array 0) text_of (λ k. k)
one_array-Appends = record {
  is_array = one_array-IsArray;
  utf8-text = λ s k. text_of-string s;
  utf8-items = λ s k. refl;
  set-end = λ v k. put_item-end k v;
}

parent-NoError :
    (a b c : Bool)
    → NoError
        (if a
          then fifo (pos 7) false
          else if b
          then fifo (pos 7) true
          else if c
          then fifo (pos 7) true
          else not_open)
        (some false)
parent-NoError true b c = λ e. cc
parent-NoError false true c = λ e. cc
parent-NoError false false true = λ e. cc
parent-NoError false false false = tt

clone_file_descriptors-pipe_rows_example :
    (k' : List PpVar) × (clone_file_descriptors one_array (λ n r. n ∷ print r) parent (array 0) []
      ≡ cloned k')
    × (map text_of k'
        ≡ [] ++ numbered (λ n r. n ∷ print r) 0 (pipe_rows parent max_file_descriptor 0))
clone_file_descriptors-pipe_rows_example =
    clone_file_descriptors-pipe_rows one_array (λ n r. n ∷ print r) parent (array 0) text_of
      (λ k. k) one_array-Appends (λ fd. parent-NoError (fd == 3) (fd == 4) (fd == 5)) []

unstash-stash_example :
    unstash_file_descriptors file_calls (stash_file_descriptors file_calls one_file) 2 ≡ some 9
unstash-stash_example =
    unstash-stash file_calls (λ k. k) file_calls-IsTable one_file
      (stash_file_descriptors file_calls one_file) 2 9 two_below no_copy refl refl
