-- ===== src/Spawn/Setup/Examples.antt =====
-- The start of a process in ports/nacl-spawn/nacl_setup_env.c on a small system.
use webports.Prelude.{
  ℤ, pos, negsuc, true, false, List, [], ◌∷◌, Option, none, some, if◌then◌else◌, Text, codes,
  eq_text, eq_text_iff, ◌≡◌, refl, subst, Bool-cases, inl, inr,
}
use webports.Spawn.Var.{undefined, dictionary, array, string, Pepper}
use webports.Spawn.Pipes.{Library}
use webports.Spawn.Apipe.{PipeHost}
use webports.Spawn.Setup.{Host, Pids, Setup, ends, failed_assert, no_fuel, or_text}
use webports.Spawn.Setup.Start.{nacl_setup_env}
use webports.Spawn.Setup.Variables.{IsHost, path, name_of, variable, Variable}
use webports.Spawn.Setup.Defaults.{Sets, nacl_setup_env-Sets}

abbrev Environment : Type 0
Environment = List (Text × Text)

unfoldable lookup : Text → Environment → Option Text
lookup name [] = none
lookup name (row ∷ rows) = if eq_text row.0 name then some row.1 else lookup name rows

abbrev put : Text → Text → Environment → Option Text → Environment
put n v rows none = (n, v) ∷ rows
put n v rows (some old) = rows

lookup-put :
    (name n v : Text) (rows : Environment) (o : Option Text)
    → lookup n rows ≡ o
    → lookup name (put n v rows o)
      ≡ (if eq_text n name then some (or_text v (lookup name rows)) else lookup name rows)
unfolding lookup
lookup-put name n v rows none e = elim (Bool-cases (eq_text n name)) [
  | inr d ↦ rw d refl
  | inl d ↦
      let found : lookup name rows ≡ none =
        subst (λ m. lookup m rows ≡ none) ((eq_text_iff n name).0 d) e in
      rw (d, found) refl
]
lookup-put name n v rows (some old) e = elim (Bool-cases (eq_text n name)) [
  | inr d ↦ rw d refl
  | inl d ↦
      let found : lookup name rows ≡ some old =
        subst (λ m. lookup m rows ≡ some old) ((eq_text_iff n name).0 d) e in
      rw (d, found) refl
]

abbrev pepper : Pepper Environment
pepper = record {
  release = λ a k. k;
  var_from_utf8 = λ t k. (k, string 0);
  dictionary_create = λ k. (k, dictionary 0);
  has_key = λ a b k. false;
  get = λ a b k. (k, undefined);
  set = λ a b c k. k;
  array_create = λ k. (k, array 0);
  get_length = λ a k. 0;
  set_length = λ a n k. k;
  array_get = λ a n k. (k, undefined);
  array_set = λ a n b k. k;
  set_errno = λ n k. k;
}

abbrev pipes : PipeHost Environment
pipes = record {
  send_request = λ a k. (k, dictionary 1);
  byte_length = λ a k. none;
  map_bytes = λ a k. none;
  unmap = λ a k. k;
  create = λ n k. (k, undefined);
  fill = λ a bytes k. k;
  scan_id = λ t. none;
  register = λ k. (k, true);
  mkdir = λ k. k;
  mount = λ k. (k, pos 0);
}

abbrev calls : Library Environment
calls = record {
  setup = λ n k. none;
  unset = λ n k. k;
  scan = λ t. none;
  open_pipe = λ a w k. (k, pos 3);
  dup2 = λ a b k. k;
  close = λ a k. k;
  getenv = λ name k. lookup name k;
  strtol = λ t. none;
}

-- Each mount succeeds, and each directory is there.
abbrev system : Host Environment
system = record {
  pp = pepper;
  pipe_host = pipes;
  library = calls;
  has_instance = true;
  umount = λ t k. (k, pos 0);
  mount = λ m k. (k, pos 0);
  mkdir = λ t k. k;
  exists = λ t k. true;
  is_directory = λ t k. true;
  setenv = λ n v k. put n v k (lookup n k);
  chdir = λ t k. (k, pos 0);
  setlocale = λ k. k;
  var_to_resource = λ a k. pos 0;
  var_to_utf8 = λ a k. codes "/mnt";
  filesystem_data = λ n. codes "filesystem_resource=0";
  post_message = λ a k. k;
  register_handler = λ t k. k;
  arch = codes "x86_64";
  fuel = 1;
}

system-IsHost : (x : Variable) → IsHost system x
system-IsHost x = record {
  setenv = λ n v k. lookup-put (name_of x) n v k (lookup n k) refl;
  release = λ a k. refl;
  utf8 = λ t k. refl;
  create = λ k. refl;
  get = λ d a k. refl;
  set = λ d a b k. refl;
  send = λ a k. refl;
  register = λ k. refl;
  mkdir_pipes = λ k. refl;
  mount_pipes = λ k. refl;
  unset = λ n k. refl;
  open_pipe = λ p w k. refl;
  dup2 = λ a b k. refl;
  close = λ a k. refl;
  umount = λ t k. refl;
  mount = λ m k. refl;
  mkdir = λ t k. refl;
  chdir = λ t k. refl;
  setlocale = λ k. refl;
  post = λ a k. refl;
  handler = λ t k. refl;
}

-- Under the browser's script, with a home of its own.
abbrev environment : Environment
environment = (codes "NACL_PROCESS", codes "1") ∷ (codes "HOME", codes "/root") ∷ []

abbrev no_pids : Pids
no_pids = record { pid = negsuc 0; ppid = negsuc 0 }

nacl_setup_env-Sets_example :
    Sets system path (variable system path environment) (nacl_setup_env system no_pids environment)
nacl_setup_env-Sets_example =
    nacl_setup_env-Sets system path 0 no_pids environment (system-IsHost path) refl refl (λ t. refl)

abbrev result_of : Setup Environment → Option (ℤ × Option Text)
result_of (ends c ids t) = some (c, lookup (codes "PATH") t)
result_of failed_assert = none
result_of no_fuel = none

-- That call returns 0 and leaves the default.
path_set : result_of (nacl_setup_env system no_pids environment) ≡ some (pos 0, some (codes "/bin"))
unfolding nacl_setup_env lookup eq_text
path_set = refl
