-- ===== src/Spawn/Nmf/Ends.antt =====
-- `AddNmfToRequest` of ports/nacl-spawn/nacl_spawn.cc ends.
use webports.Prelude.{
  ℕ, ◌+◌, true, List, [], ◌∷◌, length, Option, none, some, Text, ◌≢◌, refl, inl, inr, Bool-cases,
}
use webports.Spawn.Var.{PpVar, Pepper, dict_create}
use webports.Spawn.Libraries.{
  Outcome, find_deps, find_arch_and_library_deps, with_loaders, library_paths,
}
use webports.Spawn.Libraries.Finds.{Lists}
use webports.Spawn.Libraries.Result.{find_deps_ends}
use webports.Spawn.Script.{Shell, Expanded, expand_sh_bang, is_pnacl_type, is_bitcode}
use webports.Spawn.Nmf.{
  Added, no_fuel, Fallback, fallback, located, add_dependencies, with_files, add_nmf_for_shared,
  static_nmf, add_nmf_for_static, pnacl_nmf, add_nmf_for_pnacl, use_built_in_fallback,
  add_found_deps, add_binary, after_fallback, after_expansion, add_located, add_nmf_to_request,
  get_abs_path,
}

with_loaders_ends :
    (shell : Shell) (o : Outcome)
    → o ≢ Outcome.exhausted
    → with_loaders shell.disk shell.arm o ≢ Outcome.exhausted
unfolding with_loaders
with_loaders_ends shell (Outcome.found arch []) h = λ q. cc
with_loaders_ends shell (Outcome.found arch (d ∷ deps)) h = λ q. cc
with_loaders_ends shell (Outcome.failed errno) h = λ q. cc
with_loaders_ends shell Outcome.out_of_bounds h = λ q. cc
with_loaders_ends shell Outcome.exhausted h = absurd (h refl)

module _ {K : Type 0} (pp : Pepper K) (shell : Shell) where
  with_files_ends :
      (req nmf files : PpVar) (o : Option K) → with_files pp shell req nmf files o ≢ no_fuel
  unfolding with_files
  with_files_ends req nmf files none = λ q. cc
  with_files_ends req nmf files (some k) = λ q. cc

  static_nmf_ends :
      (arch : Text) (req nmf : PpVar) (k : K) (o : Option Text)
      → static_nmf pp shell arch req nmf k o ≢ no_fuel
  unfolding static_nmf
  static_nmf_ends arch req nmf k none = λ q. cc
  static_nmf_ends arch req nmf k (some path) = λ q. cc

  pnacl_nmf_ends :
      (req dict : PpVar) (k : K) (o : Option Text) → pnacl_nmf pp shell req dict k o ≢ no_fuel
  unfolding pnacl_nmf
  pnacl_nmf_ends req dict k none = λ q. cc
  pnacl_nmf_ends req dict k (some path) = λ q. cc

  shared_ends :
      (prog arch : Text) (deps : List Text) (req : PpVar) (k : K)
      → add_nmf_for_shared pp shell prog arch deps req k ≢ no_fuel
  unfolding add_nmf_for_shared
  shared_ends prog arch deps req k =
      let k1 = (dict_create pp k).0 in
      let nmf = (dict_create pp k).1 in
      let k2 = (dict_create pp k1).0 in
      let files = (dict_create pp k1).1 in
      with_files_ends req nmf files
        (add_dependencies pp shell (shell.basename prog) arch nmf files deps k2)

  static_ends :
      (prog arch : Text) (req : PpVar) (k : K)
      → add_nmf_for_static pp shell prog arch req k ≢ no_fuel
  unfolding add_nmf_for_static
  static_ends prog arch req k =
      static_nmf_ends arch req (dict_create pp k).1 (dict_create pp k).0 (get_abs_path shell prog)

  pnacl_ends : (prog : Text) (req : PpVar) (k : K) → add_nmf_for_pnacl pp shell prog req k ≢ no_fuel
  unfolding add_nmf_for_pnacl
  pnacl_ends prog req k =
      pnacl_nmf_ends req (dict_create pp k).1 (dict_create pp k).0 (get_abs_path shell prog)

  add_found_deps_ends :
      (prog : Text) (req : PpVar) (k : K) (o : Outcome)
      → o ≢ Outcome.exhausted
      → add_found_deps pp shell prog req k o ≢ no_fuel
  unfolding add_found_deps
  add_found_deps_ends prog req k (Outcome.found none []) h = static_ends prog [] req k
  add_found_deps_ends prog req k (Outcome.found (some arch) []) h = static_ends prog arch req k
  add_found_deps_ends prog req k (Outcome.found none (d ∷ deps)) h =
      shared_ends prog [] (d ∷ deps) req k
  add_found_deps_ends prog req k (Outcome.found (some arch) (d ∷ deps)) h =
      shared_ends prog arch (d ∷ deps) req k
  add_found_deps_ends prog req k (Outcome.failed errno) h = λ q. cc
  add_found_deps_ends prog req k Outcome.out_of_bounds h = λ q. cc
  add_found_deps_ends prog req k Outcome.exhausted h = absurd (h refl)

  after_fallback_ends :
      (later : Text → K → Added K) (f : Fallback K)
      → ((prog : Text) (k : K) → later prog k ≢ no_fuel)
      → after_fallback pp shell later f ≢ no_fuel
  unfolding after_fallback
  after_fallback_ends later (fallback k) h = λ q. cc
  after_fallback_ends later (located prog k) h = h prog k
  after_fallback_ends later Fallback.aborted h = λ q. cc

  after_expansion_ends :
      (later : Text → K → Added K) (e : Expanded K)
      → ((prog : Text) (k : K) → later prog k ≢ no_fuel)
      → after_expansion pp shell later e ≢ no_fuel
  unfolding after_expansion
  after_expansion_ends later (Expanded.expanded prog k) h = h prog k
  after_expansion_ends later (Expanded.failed errno k) h = λ q. cc
  after_expansion_ends later Expanded.overrun h = λ q. cc
  after_expansion_ends later Expanded.aborted h = λ q. cc

  module _ (files : List Text) (listed : Lists shell.disk files) (req_var : PpVar) where
    abbrev enough : ℕ
    enough = length files + 2

    deps_ends :
        (prog : Text)
        → find_arch_and_library_deps shell.disk shell.arm enough prog ≢ Outcome.exhausted
    unfolding find_arch_and_library_deps
    deps_ends prog =
        with_loaders_ends shell
          (find_deps shell.disk (library_paths shell.disk) enough true prog [])
          (find_deps_ends shell.disk (library_paths shell.disk) prog files listed)

    add_binary_ends : (prog : Text) (k : K) → add_binary pp shell enough req_var prog k ≢ no_fuel
    unfolding add_binary
    add_binary_ends prog k = elim (Bool-cases (is_pnacl_type shell prog)) [
      | inl d ↦ rw (d, add_binary) (pnacl_ends prog req_var k)
      | inr d ↦ elim (Bool-cases (is_bitcode shell prog)) [
        | inl c ↦ rw (d, c, add_binary) (λ q. cc)
        | inr c ↦
            rw (d, c, add_binary)
              (add_found_deps_ends prog req_var k
                (find_arch_and_library_deps shell.disk shell.arm enough prog) (deps_ends prog))
      ]
    ]

    add_located_ends : (prog : Text) (k : K) → add_located pp shell enough req_var prog k ≢ no_fuel
    unfolding add_located
    add_located_ends prog k = elim (Bool-cases (shell.disk.access prog)) [
      | inl d ↦
          rw (d, add_located)
            (after_expansion_ends
              (λ prog' k'.
                after_fallback pp shell (add_binary pp shell enough req_var)
                  (use_built_in_fallback pp shell prog' req_var k'))
              (expand_sh_bang pp shell prog req_var k)
              (λ prog' k'.
                after_fallback_ends (add_binary pp shell enough req_var)
                  (use_built_in_fallback pp shell prog' req_var k') add_binary_ends))
      | inr d ↦ rw (d, add_located) (λ q. cc)
    ]

    -- A request gets its manifest, or none, in finitely many steps for each program, on a file system
    -- with finitely many files that can be read.
    pub add_nmf_to_request_ends :
        (prog : Text) (k : K) → add_nmf_to_request pp shell enough prog req_var k ≢ no_fuel
    unfolding add_nmf_to_request
    add_nmf_to_request_ends prog k =
        after_fallback_ends (add_located pp shell enough req_var)
          (use_built_in_fallback pp shell prog req_var k) add_located_ends
