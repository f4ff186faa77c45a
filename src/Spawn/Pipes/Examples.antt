-- ===== src/Spawn/Pipes/Examples.antt =====
-- The theorem on `restore_pipes` with two entries for one pipe.
use webports.Prelude.{◌++◌, ℤ, Bool, List, pos, [], ◌∷◌, none, some, refl, if◌then◌else◌, ltb}
use webports.Spawn.Pipes.{Library, restore_pipes}
use webports.Spawn.Pipes.Once.{IsLibrary, Opens, restore_pipes-Opens}

abbrev two_entries : Library (List (ℤ × Bool))
two_entries = record {
  setup = λ n k. if ltb n 2 then some (n ∷ []) else none;
  unset = λ n k. k;
  scan = λ text. some (record { port = pos 5; writer = pos 1; fd = pos 7 });
  open_pipe = λ port writer k. (k ++ (port, writer) ∷ [], pos 9);
  dup2 = λ a b k. k;
  close = λ a k. k;
  getenv = λ name k. none;
  strtol = λ text. none;
}

two_entries-IsLibrary : IsLibrary two_entries 2 (λ k. k)
two_entries-IsLibrary = record {
  unset-setup = λ c k e. refl;
  open-setup = λ p w k e. refl;
  dup2-setup = λ a b k e. refl;
  close-setup = λ a k e. refl;
  open-opened = λ p w k. refl;
  unset-opened = λ c k. refl;
  dup2-opened = λ a b k. refl;
  close-opened = λ a k. refl;
}

restore_pipes-Opens_example : Opens two_entries (λ k. k) [] (restore_pipes two_entries 3 [])
restore_pipes-Opens_example =
    restore_pipes-Opens two_entries (λ k. k) 2 [] two_entries-IsLibrary refl
