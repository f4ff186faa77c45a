-- ===== src/Spawn/Script/Examples.antt =====
-- The theorems on scripts, for "#! /bin/sh -x a".
use webports.Prelude.{true, false, List, [], ◌∷◌, ◌++◌, map, none, some, ◌≡◌, refl, Text, codes}
use webports.Spawn.Var.{PpVar, null}
use webports.Spawn.Samples.{one_array, one_array-IsArray, text_of, text_of-string}
use webports.Spawn.Script.{
  Shell, c_text, bytes, script, first_line, find_interpreter, expand_sh_bang, expanded,
}
use webports.Spawn.Script.Reading.{spaces, print_arg, first_line-print}
use webports.Spawn.Script.Args.{IsRequest, arg_list, expand_sh_bang-args}

abbrev bin_sh : Text
bin_sh = codes "bin/sh"

first_line-print_example :
    first_line
      (b'#' ∷ b'!' ∷ (spaces 1 ++ b'/' ∷ (bin_sh ++ (print_arg (some (codes "-x a")) ++ 10 ∷ []))))
      []
    ≡ script (b'/' ∷ bin_sh) (some (codes "-x a"))
first_line-print_example =
    first_line-print 1 b'/' bin_sh (some (codes "-x a")) 10 [] []
      (
        (refl, refl),
        (
          (refl, refl),
          ((refl, refl), ((refl, refl), ((refl, refl), ((refl, refl), ((refl, refl), tt))))),
        ),
      )
      (refl, (refl, (refl, (refl, tt)))) refl

abbrev sh_script : Text
sh_script = codes "#!/bin/sh -x a" ++ 10 ∷ []

abbrev shell : Shell
shell = record {
  disk = record { access = λ path. false; fopen = λ path. none; ld_library_path = none };
  head = λ path n. bytes sh_script true;
  stale = λ path. [];
  path = none;
  cwd = [];
  basename = λ path. path;
  arm = false;
}

one_array-IsRequest : IsRequest one_array null 0 text_of (λ k. k)
one_array-IsRequest = record {
  is_array = one_array-IsArray;
  utf8-text = λ s k. text_of-string s;
  utf8-items = λ s k. refl;
  get-items = λ key k. refl;
  get-args = λ key k h. refl;
}

sh_script-line : first_line sh_script [] ≡ script (codes "/bin/sh") (some (codes "-x a"))
unfolding first_line
sh_script-line = refl

expand_sh_bang-args_example :
    (k' : List PpVar) × (expand_sh_bang one_array shell (codes "run") null (null ∷ null ∷ [])
      ≡ expanded (find_interpreter shell.disk.access (codes "/bin/sh")) k')
    × (map text_of k'
        ≡ c_text (find_interpreter shell.disk.access (codes "/bin/sh"))
          ∷ (map c_text (arg_list (some (codes "-x a")))
              ++ c_text (codes "run") ∷ map text_of (null ∷ [])))
expand_sh_bang-args_example =
    expand_sh_bang-args one_array shell null 0 text_of (λ k. k) one_array-IsRequest (codes "run")
      sh_script (codes "/bin/sh") (some (codes "-x a")) null (null ∷ []) (null ∷ null ∷ []) refl
      refl sh_script-line refl

interpreter_test : find_interpreter shell.disk.access (codes "/bin/sh") ≡ codes "sh"
unfolding find_interpreter
interpreter_test = refl
