-- ===== src/Spawn/Script.antt =====
-- ports/nacl-spawn/nacl_spawn.cc: the program that a path stands for, and scripts, from
-- `FindInterpreter` to `CheckFileMagic`.
pub mod Reading
pub mod Args
mod Examples
use webports.Prelude.{
  ℕ, zero, suc, ◌-◌, Bool, true, false, not, ◌&&◌, ◌||◌, List, [], ◌∷◌, ◌++◌, length, Option, none,
  some, ◌==◌, ltb, if◌then◌else◌, Text, eq_text, codes,
}
use webports.Spawn.Var.{
  PpVar, array, Pepper, var_release, dict_get, array_setstring, array_insertstring,
}
use webports.Spawn.Paths.{get_paths, find_in_paths}
use webports.Spawn.Libraries.{Disk, enoexec}

-- What `open`, `read` and `close` do for the first bytes of a file; the Boolean says whether the
-- file was closed.
pub data Head : Type 0 where
  not_opened : Head
  not_read : Bool → Head
  bytes : Text → Bool → Head

-- The environment of a process: its files, PATH, `getcwd` and `basename` of the C library, and the
-- bytes that a buffer on the stack holds behind those that were read.
pub record Shell : Type 0 where
  pub disk : Disk
  pub head : Text → ℕ → Head
  pub stale : Text → Text
  pub path : Option Text
  pub cwd : Text
  pub basename : Text → Text
  pub arm : Bool

-- What follows the last slash, if there is one.
unfoldable pub after_slash : Text → Option Text
after_slash [] = none
after_slash (c ∷ rest) = elim (after_slash rest) [
  | some base ↦ some base
  | none ↦ if c == b'/' then some rest else none
]

unfoldable pub or_whole : Text → Option Text → Text
or_whole path none = path
or_whole path (some base) = base

-- `FindInterpreter`
unfoldable pub find_interpreter : (Text → Bool) → Text → Text
unfolding after_slash or_whole
find_interpreter access path = if access path then path else or_whole path (after_slash path)

-- The first line of a file: none that starts with "#!", an interpreter with an argument or without,
-- or one whose end is looked for outside the buffer.
pub data Line : Type 0 where
  no_script : Line
  script : Text → Option Text → Line
  outside : Line

unfoldable pub skip_spaces : Text → Text
skip_spaces [] = []
skip_spaces (c ∷ rest) = let later = skip_spaces rest in if c == b' ' then later else c ∷ rest

-- Newline or carriage return.
abbrev pub is_break : ℕ → Bool
is_break c = (c == 10) || (c == 13)

-- The first text is what stands from `start` to `split` or, with no `split` yet, to `end`; the
-- second what stands behind `split`.
unfoldable pub scan_line : Text → Text → Option Text → Line
scan_line [] word arg = outside
scan_line (c ∷ rest) word none = elim (is_break c) [
  | true ↦ script word none
  | false ↦ elim (c == b' ') [
    | true ↦ scan_line rest word (some [])
    | false ↦ scan_line rest (word ++ c ∷ []) none
  ]
]
scan_line (c ∷ rest) word (some arg) = elim (is_break c) [
  | true ↦ script word (some arg)
  | false ↦ scan_line rest word (some (arg ++ c ∷ []))
]

-- The tests of `ExpandShBang` on the bytes that were read. Only the leading spaces are skipped
-- within them: the test `buffer - end < len` of the second loop is always true, so it runs on into
-- the rest of the buffer.
unfoldable pub first_line : Text → Text → Line
unfolding skip_spaces scan_line
first_line (a ∷ b ∷ rest) stale =
    if (a == b'#') && (b == b'!') then scan_line (skip_spaces rest ++ stale) [] none else no_script
first_line _ stale = no_script

-- The results: the program that is run, a failure with `errno` if it is set, a read outside the
-- buffer, or a failed assertion.
pub data Expanded (K : Type 0) : Type 0 where
  expanded : Text → K → Expanded K
  failed : Option ℕ → K → Expanded K
  overrun : Expanded K
  aborted : Expanded K

-- What a C string shows of a `std::string` by `c_str`: the bytes before the first null byte.
abbrev pub c_text : Text → Text
c_text [] = []
c_text (c ∷ rest) = let before = c_text rest in if c == 0 then [] else c ∷ before

module _ {K : Type 0} (pp : Pepper K) (shell : Shell) where
  unfoldable pub insert_arg : PpVar → Option Text → K → K
  unfolding array_insertstring
  insert_arg args_var none k = k
  insert_arg args_var (some arg) k = array_insertstring pp args_var 0 (c_text arg) k

  -- The array of the arguments gets the program, the argument and the interpreter.
  unfoldable pub update_args : Text → Text → Option Text → PpVar → K → K
  unfolding insert_arg array_setstring array_insertstring var_release
  update_args prog interpreter arg args_var k =
      let k1 = array_setstring pp args_var 0 (c_text prog) k in
      let k2 = insert_arg args_var arg k1 in
      var_release pp args_var (array_insertstring pp args_var 0 (c_text interpreter) k2)

  -- The assertion that the variable is an array.
  unfoldable pub with_args : Text → Text → Option Text → K × PpVar → Expanded K
  unfolding update_args
  with_args prog interpreter arg (k, array id) =
      expanded interpreter (update_args prog interpreter arg (array id) k)
  with_args prog interpreter arg (k, _) = aborted

  unfoldable pub expand_line : Text → PpVar → Line → K → Expanded K
  unfolding with_args find_interpreter dict_get
  expand_line prog req_var no_script k = expanded prog k
  expand_line prog req_var outside k = overrun
  expand_line prog req_var (script word arg) k =
      with_args prog (find_interpreter shell.disk.access word) arg
        (dict_get pp req_var (codes "args") k)

  unfoldable pub expand_head : Text → PpVar → Head → K → Expanded K
  unfolding expand_line first_line
  expand_head prog req_var not_opened k = failed none k
  expand_head prog req_var (not_read closed) k = failed none k
  expand_head prog req_var (bytes buffer false) k = failed none k
  expand_head prog req_var (bytes buffer true) k =
      if ltb (length buffer) 2
      then failed (some enoexec) k
      else expand_line prog req_var (first_line buffer (shell.stale prog)) k

  -- `ExpandShBang`
  unfoldable pub expand_sh_bang : Text → PpVar → K → Expanded K
  unfolding expand_head
  expand_sh_bang prog req_var k = expand_head prog req_var (shell.head prog 4096) k

-- `CheckFileMagic`
unfoldable pub head_is : Text → Head → Bool
unfolding eq_text
head_is magic (bytes buffer closed) = (length buffer == 4) && eq_text buffer magic
head_is magic _ = false

unfoldable pub check_file_magic : Shell → Text → Text → Bool
unfolding head_is
check_file_magic shell filename magic = head_is magic (shell.head filename 4)

-- "PEXE", and "BC" with the bytes 0xc0 and 0xde.
unfoldable pub is_pnacl_type : Shell → Text → Bool
unfolding check_file_magic
is_pnacl_type shell filename = check_file_magic shell filename (codes "PEXE")

unfoldable pub is_bitcode : Shell → Text → Bool
unfolding check_file_magic
is_bitcode shell filename = check_file_magic shell filename (b'B' ∷ b'C' ∷ 192 ∷ 222 ∷ [])
