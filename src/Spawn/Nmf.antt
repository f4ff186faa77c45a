-- ===== src/Spawn/Nmf.antt =====
-- ports/nacl-spawn/nacl_spawn.cc: the manifest that a request carries, from `GetAbsPath` to
-- `AddNmfToRequest`.
pub mod Ends
use webports.Prelude.{
  ℕ, zero, suc, Bool, true, false, not, ◌&&◌, ◌||◌, List, [], ◌∷◌, ◌++◌, Option, none, some, ◌==◌,
  if◌then◌else◌, Text, eq_text, codes,
}
use webports.Spawn.Var.{
  PpVar, array, Pepper, var_release, dict_create, dict_get, dict_set, dict_setstring,
  array_setstring,
}
use webports.Spawn.Paths.{get_paths, find_in_paths}
use webports.Spawn.Libraries.{Disk, Outcome, find_arch_and_library_deps, enoent}
use webports.Spawn.Script.{Shell, Expanded, expand_sh_bang, is_pnacl_type, is_bitcode}

-- The current directory is prefixed to a path that is not absolute; an empty path does not pass the
-- assertion.
unfoldable pub get_abs_path : Shell → Text → Option Text
get_abs_path shell [] = none
get_abs_path shell (c ∷ path) = some (if c == b'/' then c ∷ path else shell.cwd ++ b'/' ∷ c ∷ path)

unfoldable pub has_slash : Text → Bool
has_slash [] = false
has_slash (c ∷ path) = if c == b'/' then true else has_slash path

-- `UseBuiltInFallback`: the answer, with the program, or a failed assertion.
pub data Fallback (K : Type 0) : Type 0 where
  fallback : K → Fallback K
  located : Text → K → Fallback K
  aborted : Fallback K

-- `AddNmfToRequest`: the request has what it needs, or the answer is false, with `errno` if it is
-- set; the rest is as for its parts.
pub data Added (K : Type 0) : Type 0 where
  added : K → Added K
  refused : Option ℕ → K → Added K
  overrun : Added K
  failed_assert : Added K
  no_fuel : Added K

module _ {K : Type 0} (pp : Pepper K) (shell : Shell) where
  -- `AddFileToNmf`
  unfoldable pub add_file_to_nmf : Text → Text → Text → PpVar → K → K
  unfolding dict_create dict_set dict_setstring
  add_file_to_nmf key arch filepath dict_var k =
      let (k1, url_dict_var) = dict_create pp k in
      let k2 = dict_setstring pp url_dict_var (codes "url") filepath k1 in
      let (k3, arch_dict_var) = dict_create pp k2 in
      let k4 = dict_set pp arch_dict_var arch url_dict_var k3 in
      dict_set pp dict_var key arch_dict_var k4

  -- The name that a library gets: that of the program is "main.nexe".
  unfoldable pub nmf_base : Text → Text → Text
  nmf_base prog_base base = if eq_text prog_base base then codes "main.nexe" else base

  unfoldable pub is_program : Text → Bool
  is_program base =
      eq_text base (codes "runnable-ld.so") || eq_text base (codes "elf_loader_arm.nexe")

  unfoldable pub add_dependency : Text → Text → PpVar → PpVar → Text → K → K
  unfolding add_file_to_nmf is_program
  add_dependency arch abspath nmf_var files_var base k =
      if is_program base
      then add_file_to_nmf (codes "program") arch abspath nmf_var k
      else add_file_to_nmf base arch abspath files_var k

  -- The loop over the libraries.
  unfoldable pub add_dependencies : Text → Text → PpVar → PpVar → List Text → K → Option K
  unfolding get_abs_path nmf_base add_dependency
  add_dependencies prog_base arch nmf_var files_var [] k = some k
  add_dependencies prog_base arch nmf_var files_var (dep ∷ dependencies) k =
      elim (get_abs_path shell dep) [
        | none ↦ none
        | some abspath ↦ add_dependencies prog_base arch nmf_var files_var dependencies (
            add_dependency arch abspath nmf_var files_var (nmf_base prog_base (shell.basename dep))
              k)
      ]

  unfoldable pub with_files : PpVar → PpVar → PpVar → Option K → Added K
  unfolding dict_set
  with_files req_var nmf_var files_var none = failed_assert
  with_files req_var nmf_var files_var (some k) =
      added (
        dict_set pp req_var (codes "nmf") nmf_var (dict_set pp nmf_var (codes "files") files_var k))

  -- `AddNmfToRequestForShared`
  unfoldable pub add_nmf_for_shared : Text → Text → List Text → PpVar → K → Added K
  unfolding dict_create add_dependencies with_files
  add_nmf_for_shared prog arch dependencies req_var k =
      let (k1, nmf_var) = dict_create pp k in
      let (k2, files_var) = dict_create pp k1 in
      with_files req_var nmf_var files_var
        (add_dependencies (shell.basename prog) arch nmf_var files_var dependencies k2)

  unfoldable pub static_nmf : Text → PpVar → PpVar → K → Option Text → Added K
  unfolding add_file_to_nmf dict_set
  static_nmf arch req_var nmf_var k none = failed_assert
  static_nmf arch req_var nmf_var k (some abspath) = added (
      dict_set pp req_var (codes "nmf") nmf_var
        (add_file_to_nmf (codes "program") arch abspath nmf_var k))

  -- `AddNmfToRequestForStatic`
  unfoldable pub add_nmf_for_static : Text → Text → PpVar → K → Added K
  unfolding dict_create static_nmf get_abs_path
  add_nmf_for_static prog arch req_var k =
      let (k1, nmf_var) = dict_create pp k in
      static_nmf arch req_var nmf_var k1 (get_abs_path shell prog)

  unfoldable pub pnacl_nmf : PpVar → PpVar → K → Option Text → Added K
  unfolding dict_create dict_set dict_setstring
  pnacl_nmf req_var url_dict_var k none = failed_assert
  pnacl_nmf req_var url_dict_var k (some abspath) =
      let k1 = dict_setstring pp url_dict_var (codes "url") abspath k in
      let (k2, translate_dict_var) = dict_create pp k1 in
      let k3 = dict_set pp translate_dict_var (codes "pnacl-translate") url_dict_var k2 in
      let (k4, arch_dict_var) = dict_create pp k3 in
      let k5 = dict_set pp arch_dict_var (codes "portable") translate_dict_var k4 in
      let (k6, nmf_var) = dict_create pp k5 in
      let k7 = dict_set pp nmf_var (codes "program") arch_dict_var k6 in
      added (dict_set pp req_var (codes "nmf") nmf_var k7)

  -- `AddNmfToRequestForPNaCl`
  unfoldable pub add_nmf_for_pnacl : Text → PpVar → K → Added K
  unfolding dict_create pnacl_nmf get_abs_path
  add_nmf_for_pnacl prog req_var k =
      let (k1, url_dict_var) = dict_create pp k in
      pnacl_nmf req_var url_dict_var k1 (get_abs_path shell prog)

  -- The program was found: the first argument is set to it.
  unfoldable pub set_prog : Text → K × PpVar → Fallback K
  unfolding array_setstring var_release
  set_prog path (k, array id) =
      located path (var_release pp (array id) (array_setstring pp (array id) 0 path k))
  set_prog path (k, _) = Fallback.aborted

  unfoldable pub search_path : PpVar → K → Option Text → Fallback K
  unfolding set_prog dict_get
  search_path req_var k none = fallback k
  search_path req_var k (some path) = set_prog path (dict_get pp req_var (codes "args") k)

  -- `UseBuiltInFallback`
  unfoldable pub use_built_in_fallback : Text → PpVar → K → Fallback K
  unfolding has_slash search_path get_paths find_in_paths
  use_built_in_fallback prog req_var k =
      if has_slash prog
      then located prog k
      else search_path req_var k (find_in_paths shell.disk.access prog (get_paths shell.path))

  -- What follows the search of the libraries.
  unfoldable pub add_found_deps : Text → PpVar → K → Outcome → Added K
  unfolding add_nmf_for_static add_nmf_for_shared
  add_found_deps prog req_var k (Outcome.found none []) = add_nmf_for_static prog [] req_var k
  add_found_deps prog req_var k (Outcome.found (some arch) []) =
      add_nmf_for_static prog arch req_var k
  add_found_deps prog req_var k (Outcome.found none (dep ∷ deps)) =
      add_nmf_for_shared prog [] (dep ∷ deps) req_var k
  add_found_deps prog req_var k (Outcome.found (some arch) (dep ∷ deps)) =
      add_nmf_for_shared prog arch (dep ∷ deps) req_var k
  add_found_deps prog req_var k (Outcome.failed errno) = refused errno k
  add_found_deps prog req_var k Outcome.out_of_bounds = overrun
  add_found_deps prog req_var k Outcome.exhausted = no_fuel

  -- A file by its kind; the number is fuel.
  unfoldable pub add_binary : ℕ → PpVar → Text → K → Added K
  unfolding is_pnacl_type is_bitcode add_nmf_for_pnacl add_found_deps find_arch_and_library_deps
  add_binary fuel req_var prog k =
      if is_pnacl_type shell prog
      then add_nmf_for_pnacl prog req_var k
      else if is_bitcode shell prog
      then refused none k
      else add_found_deps prog req_var k (find_arch_and_library_deps shell.disk shell.arm fuel prog)

  unfoldable pub after_fallback : (Text → K → Added K) → Fallback K → Added K
  after_fallback later (fallback k) = added k
  after_fallback later (located prog k) = later prog k
  after_fallback later Fallback.aborted = failed_assert

  unfoldable pub after_expansion : (Text → K → Added K) → Expanded K → Added K
  after_expansion later (Expanded.expanded prog k) = later prog k
  after_expansion later (Expanded.failed errno k) = refused errno k
  after_expansion later Expanded.overrun = overrun
  after_expansion later Expanded.aborted = failed_assert

  -- The test of access, and the expansion of a script with the second search behind it.
  unfoldable pub add_located : ℕ → PpVar → Text → K → Added K
  unfolding add_binary use_built_in_fallback after_fallback after_expansion expand_sh_bang
  add_located fuel req_var prog k =
      if shell.disk.access prog
      then after_expansion
          (λ prog' k'.
            after_fallback (add_binary fuel req_var) (use_built_in_fallback prog' req_var k'))
          (expand_sh_bang pp shell prog req_var k)
      else refused (some enoent) k

  -- `AddNmfToRequest`
  unfoldable pub add_nmf_to_request : ℕ → Text → PpVar → K → Added K
  unfolding add_located after_fallback use_built_in_fallback
  add_nmf_to_request fuel prog req_var k =
      after_fallback (add_located fuel req_var) (use_built_in_fallback prog req_var k)
