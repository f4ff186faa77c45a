-- ===== src/Spawn/Script/Args.antt =====
-- The arguments of a script, as `ExpandShBang` of ports/nacl-spawn/nacl_spawn.cc writes them.
use webports.Prelude.{
  ℕ, true, false, List, [], ◌∷◌, ◌++◌, map, length, Option, none, some, ltb, ◌≡◌, refl, ap, ◌∙◌,
  Text, codes,
}
use webports.Spawn.Var.{
  PpVar, array, Pepper, dict_get, var_release, array_setstring, array_insertstring,
}
use webports.Spawn.Var.Insert.{IsArray, array_insert_lem}
use webports.Spawn.Script.{
  Shell, c_text, bytes, script, expanded, insert_arg, update_args, with_args, expand_line,
  expand_head, expand_sh_bang, first_line, find_interpreter,
}

-- What the Pepper interface documents of the texts of strings, of an array, and of the request that
-- has it as its arguments.
pub record IsRequest {K : Type 0} (pp : Pepper K) (req_var : PpVar) (id : ℕ) (text : PpVar → Text)
    (items : K → List PpVar) : Type 0 where
  pub is_array : IsArray pp (array id) items
  pub utf8-text : (s : Text) (k : K) → text (pp.var_from_utf8 s k).1 ≡ s
  pub utf8-items : (s : Text) (k : K) → items (pp.var_from_utf8 s k).0 ≡ items k
  pub get-items : (key : PpVar) (k : K) → items (pp.get req_var key k).0 ≡ items k
  pub get-args :
      (key : PpVar) (k : K) → text key ≡ codes "args" → (pp.get req_var key k).1 ≡ array id

abbrev pub arg_list : Option Text → List Text
arg_list none = []
arg_list (some arg) = arg ∷ []

module _ {K : Type 0} (pp : Pepper K) (shell : Shell) (req_var : PpVar) (id : ℕ)
    (text : PpVar → Text) (items : K → List PpVar) (laws : IsRequest pp req_var id text items) where
  array_setstring_lem :
      (x : PpVar) (ys : List PpVar) (value : Text) (k : K)
      → items k ≡ x ∷ ys
      → map text (items (array_setstring pp (array id) 0 value k)) ≡ value ∷ map text ys
  unfolding array_setstring
  array_setstring_lem x ys value k e =
      let k1 = (pp.var_from_utf8 value k).0 in
      let v = (pp.var_from_utf8 value k).1 in
      ap (map text) (
        laws.is_array.release-items v (pp.array_set (array id) 0 v k1)
        ∙ laws.is_array.set-items k1 [] x ys v (laws.utf8-items value k ∙ e))
      ∙ ap (λ t. t ∷ map text ys) (laws.utf8-text value k)

  array_insertstring_lem :
      (value : Text) (k : K)
      → map text (items (array_insertstring pp (array id) 0 value k)) ≡ value ∷ map text (items k)
  unfolding array_insertstring
  array_insertstring_lem value k =
      let k1 = (pp.var_from_utf8 value k).0 in
      let v = (pp.var_from_utf8 value k).1 in
      ap (map text) (
        array_insert_lem pp (array id) items laws.is_array [] (items k) v k1
          (laws.utf8-items value k))
      ∙ ap (λ t. t ∷ map text (items k)) (laws.utf8-text value k)

  insert_arg_lem :
      (arg : Option Text) (k : K)
      → map text (items (insert_arg pp shell (array id) arg k))
        ≡ map c_text (arg_list arg) ++ map text (items k)
  unfolding insert_arg
  insert_arg_lem none k = refl
  insert_arg_lem (some arg) k = array_insertstring_lem (c_text arg) k

  update_args_lem :
      (prog interpreter : Text) (arg : Option Text) (x : PpVar) (ys : List PpVar) (k : K)
      → items k ≡ x ∷ ys
      → map text (items (update_args pp shell prog interpreter arg (array id) k))
        ≡ c_text interpreter ∷ (map c_text (arg_list arg) ++ c_text prog ∷ map text ys)
  unfolding update_args var_release
  update_args_lem prog interpreter arg x ys k e =
      let k1 = array_setstring pp (array id) 0 (c_text prog) k in
      let k2 = insert_arg pp shell (array id) arg k1 in
      ap (map text) (
        laws.is_array.release-items (array id)
          (array_insertstring pp (array id) 0 (c_text interpreter) k2))
      ∙ array_insertstring_lem (c_text interpreter) k2
      ∙ ap (λ t. c_text interpreter ∷ t)
          (insert_arg_lem arg k1
            ∙ ap (λ t. map c_text (arg_list arg) ++ t) (array_setstring_lem x ys (c_text prog) k e))

  dict_get-args : (k : K) → (dict_get pp req_var (codes "args") k).1 ≡ array id
  unfolding dict_get
  dict_get-args k =
      laws.get-args (pp.var_from_utf8 (codes "args") k).1 (pp.var_from_utf8 (codes "args") k).0
        (laws.utf8-text (codes "args") k)

  dict_get-items : (k : K) → items (dict_get pp req_var (codes "args") k).0 ≡ items k
  unfolding dict_get
  dict_get-items k =
      let k1 = (pp.var_from_utf8 (codes "args") k).0 in
      let key = (pp.var_from_utf8 (codes "args") k).1 in
      laws.is_array.release-items key (pp.get req_var key k1).0
      ∙ laws.get-items key k1
      ∙ laws.utf8-items (codes "args") k

  -- If the interface is as documented, a file whose first line names an interpreter is replaced by
  -- that interpreter, or by its name alone if it is not there, and the arguments become the
  -- interpreter, the line's argument if it has one, the path of the script in place of its name, and
  -- the other arguments. Each of the first three is cut before its first null byte.
  pub expand_sh_bang-args :
      (prog : Text) (buffer word : Text) (arg : Option Text) (x : PpVar) (ys : List PpVar) (k : K)
      → shell.head prog 4096 ≡ bytes buffer true
      → ltb (length buffer) 2 ≡ false
      → first_line buffer (shell.stale prog) ≡ script word arg
      → items k ≡ x ∷ ys
      → (k' : K) × (expand_sh_bang pp shell prog req_var k
          ≡ expanded (find_interpreter shell.disk.access word) k')
        × (map text (items k')
            ≡ c_text (find_interpreter shell.disk.access word)
              ∷ (map c_text (arg_list arg) ++ c_text prog ∷ map text ys))
  unfolding expand_sh_bang expand_head expand_line with_args
  expand_sh_bang-args prog buffer word arg x ys k h l s e =
      let interpreter = find_interpreter shell.disk.access word in
      let k1 = (dict_get pp req_var (codes "args") k).0 in
      let k2 = update_args pp shell prog interpreter arg (array id) k1 in
      let got : dict_get pp req_var (codes "args") k ≡ (k1, array id) =
        ap (λ (v : PpVar). let r : K × PpVar = (k1, v) in r) (dict_get-args k) in
      (
        k2,
        ap (λ f. expand_head pp shell prog req_var f k) h
            ∙ rw l (
                ap (λ f. expand_line pp shell prog req_var f k) s
                ∙ ap (with_args pp shell prog interpreter arg) got),
        update_args_lem prog interpreter arg x ys k1 (dict_get-items k ∙ e),
      )
