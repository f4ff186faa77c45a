-- ===== src/Spawn/Requests/Examples.antt =====
-- The theorems on requests, for a browser that answers each with the process 5.
use webports.Prelude.{ℕ, ◌/◌, ◌%◌, pos, negsuc, true, false, [], ◌∷◌, none, some, codes, ◌≡◌, refl}
use webports.Spawn.Var.{undefined, int32, array, dictionary, string, Pepper}
use webports.Spawn.Script.{Shell, not_opened}
use webports.Spawn.Fds.{
  not_open, max_file_descriptor, stash_file_descriptors, clone_file_descriptors,
}
use webports.Spawn.Fds.Samples.{Files, file_calls, one_file}
use webports.Spawn.Requests.{Browser, Process, returned, spawn_request, waitpid_impl}
use webports.Spawn.Requests.Calls.{vfork_before}
use webports.Spawn.Samples.{Memory, one_dictionary, one_dictionary-IsDictionary}
use webports.Spawn.Requests.Status.{IsRemainder, read_number, waitpid_impl-status}

abbrev answers : Pepper Files
answers = record {
  release = λ v k. k;
  var_from_utf8 = λ s k. (k, string 0);
  dictionary_create = λ k. (k, dictionary 0);
  has_key = λ d v k. true;
  get = λ d v k. (k, int32 (pos 5));
  set = λ d v x k. k;
  array_create = λ k. (k, array 0);
  get_length = λ a k. 0;
  set_length = λ a n k. k;
  array_get = λ a i k. (k, undefined);
  array_set = λ a i v k. k;
  set_errno = λ e k. k;
}

abbrev empty_shell : Shell
empty_shell = record {
  disk = record { access = λ path. false; fopen = λ path. none; ld_library_path = none };
  head = λ path n. not_opened;
  stale = λ path. [];
  path = none;
  cwd = codes "/";
  basename = λ path. path;
  arm = false;
}

abbrev browser : Browser Files
browser = record {
  pp = answers;
  send_request = λ req k. (k, dictionary 1);
  shell = empty_shell;
  table = λ k. record { fstat = λ fd. not_open; close_on_exec = λ fd. none };
  print = λ n r. [];
  calls = file_calls;
  environ = [];
  other_bits = λ v. pos 0;
  fuel = 2;
}

abbrev idle : Process
idle = record { vforking = false; vfork_pid = negsuc 0 }

abbrev in_vfork : Process
in_vfork = record { vforking = true; vfork_pid = negsuc 0 }

sent :
    (k : Files)
    → spawn_request browser false in_vfork (codes "ls") (codes "ls" ∷ []) [] k
      ≡ returned (pos 5) in_vfork k
unfolding spawn_request max_file_descriptor clone_file_descriptors
sent k = refl

before :
    vfork_before browser idle one_file ≡ some (in_vfork, stash_file_descriptors file_calls one_file)
unfolding vfork_before
before = refl

-- Each entry of a reply is 300.
abbrev status_browser : Browser Memory
status_browser = record {
  pp = one_dictionary;
  send_request = λ req k. ((k.0, λ key. some (int32 (pos 300))), dictionary 0);
  shell = empty_shell;
  table = λ k. record { fstat = λ fd. not_open; close_on_exec = λ fd. none };
  print = λ n r. [];
  calls = record { dup2 = λ a b k. (false, k); close = λ a k. k };
  environ = [];
  other_bits = λ v. pos 0;
  fuel = 2;
}

waitpid_impl-status_example :
    ((waitpid_impl status_browser (pos 1) (pos 0) ([], λ s. none)).1
      ≡ some (read_number (some (pos 300))))
    × (status : ℕ) × ((waitpid_impl status_browser (pos 1) (pos 0) ([], λ s. none)).2
        ≡ some (pos status))
    × IsRemainder ((status / 256) % 256) (pos 300)
    × (status % 128 ≡ 0)
waitpid_impl-status_example =
    waitpid_impl-status status_browser (dictionary 0) (λ v k. k.0) (λ k. k.1) (pos 300) (pos 1)
      (pos 0) (some (pos 300)) ([], λ s. none) one_dictionary-IsDictionary (λ req j. refl)
      (record { get-entries = λ d key k. refl; errno-entries = λ e k. refl }) (λ req j. refl)
      (λ req j. refl)
