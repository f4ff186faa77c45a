-- ===== src/Spawn/Fds/Samples.antt =====
-- Open files as functions of the descriptors, for the examples of ports/nacl-spawn.
use webports.Prelude.{
  ℕ, ◌+◌, ◌<◌, Bool, true, false, Option, none, some, ◌==◌, if◌then◌else◌, ◌≡◌, ◌≢◌, refl, arith,
  ne→==, ==_refl,
}
use webports.Spawn.Fds.{Descriptors, max_file_descriptor}
use webports.Spawn.Fds.Kept.{IsTable}

abbrev pub Files : Type 0
Files = ℕ → Option ℕ

abbrev pub write : Files → ℕ → Option ℕ → Files
write k a o = λ x. if x == a then o else k x

abbrev pub copy_file : Option ℕ → ℕ → Files → Bool × Files
copy_file none b k = (false, k)
copy_file (some f) b k = (true, write k b (some f))

abbrev pub file_calls : Descriptors Files
file_calls = record { dup2 = λ a b k. copy_file (k a) b k; close = λ a k. write k a none }

copy_file-other : (o : Option ℕ) (b x : ℕ) (k : Files) → x ≢ b → (copy_file o b k).1 x ≡ k x
copy_file-other none b x k h = refl
copy_file-other (some f) b x k h = rw (ne→== x b h)

pub file_calls-IsTable : IsTable file_calls (λ k. k)
file_calls-IsTable = record {
  dup2-open = λ a b k f h. rw h;
  dup2-holds = λ a b k f h. rw (h, ==_refl b);
  dup2-other = λ a b x k h. copy_file-other (k a) b x k h;
  dup2-fails = λ a b k h. rw h;
  close-other = λ a x k h. rw (ne→== x a h);
}

abbrev pub one_file : Files
one_file x = if x == 2 then some 9 else none

pub two_below : 2 < max_file_descriptor
unfolding max_file_descriptor
two_below = omega arith

pub no_copy : one_file (2 + max_file_descriptor) ≡ none
unfolding max_file_descriptor
no_copy = refl
