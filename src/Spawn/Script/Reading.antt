-- ===== src/Spawn/Script/Reading.antt =====
-- The first line of a script, as `ExpandShBang` of ports/nacl-spawn/nacl_spawn.cc reads it.
use webports.Prelude.{
  ℕ, zero, suc, true, false, [], ◌∷◌, ◌++◌, Option, none, some, ◌==◌, ◌≡◌, refl, ap, sym, ◌∙◌, All,
  append_assoc, append-nil, Text,
}
use webports.Spawn.Script.{script, skip_spaces, is_break, scan_line, first_line}

abbrev pub spaces : ℕ → Text
spaces zero = []
spaces (suc n) = b' ' ∷ spaces n

-- No space, and no end of the line.
abbrev pub IsWord : Text → Type 0
IsWord = All (λ c. ((c == b' ') ≡ false) × (is_break c ≡ false))

abbrev pub IsInLine : Text → Type 0
IsInLine = All (λ c. is_break c ≡ false)

-- What is written behind the interpreter.
abbrev pub print_arg : Option Text → Text
print_arg none = []
print_arg (some arg) = b' ' ∷ arg

abbrev pub ArgIsInLine : Option Text → Type 0
ArgIsInLine none = Unit
ArgIsInLine (some arg) = IsInLine arg

scan_arg :
    (before arg word : Text) (last : ℕ) (rest : Text)
    → IsInLine arg
    → is_break last ≡ true
    → scan_line (arg ++ last ∷ rest) word (some before) ≡ script word (some (before ++ arg))
unfolding scan_line
scan_arg before [] word last rest h l = rw (l, append-nil before, scan_line)
scan_arg before (c ∷ arg) word last rest h l =
    rw (h.0, scan_line)
      (scan_arg (before ++ c ∷ []) arg word last rest h.1 l
        ∙ ap (λ t. script word (some t)) (append_assoc before (c ∷ []) arg))

space_break : is_break b' ' ≡ false
space_break = refl

scan_word :
    (before word : Text) (arg : Option Text) (last : ℕ) (rest : Text)
    → IsWord word
    → ArgIsInLine arg
    → is_break last ≡ true
    → scan_line (word ++ (print_arg arg ++ last ∷ rest)) before none ≡ script (before ++ word) arg
unfolding scan_line
scan_word before [] none last rest h a l = rw (l, append-nil before, scan_line)
scan_word before [] (some arg) last rest h a l =
    scan_arg [] arg before last rest a l ∙ ap (λ t. script t (some arg)) (sym (append-nil before))
scan_word before (c ∷ word) arg last rest h a l =
    rw (h.0.1, h.0.0, scan_line)
      (scan_word (before ++ c ∷ []) word arg last rest h.1 a l
        ∙ ap (λ t. script t arg) (append_assoc before (c ∷ []) word))

skip_spaces-word :
    (n c : ℕ) (text : Text) → (c == b' ') ≡ false → skip_spaces (spaces n ++ c ∷ text) ≡ c ∷ text
unfolding skip_spaces
skip_spaces-word zero c text h = rw h
skip_spaces-word (suc n) c text h = skip_spaces-word n c text h

-- A script's first line, "#!", spaces, the interpreter and, behind a space, an argument, is read as
-- that interpreter and that argument, spaces in the argument included. It holds for a file whose
-- line ends in the bytes that were read, with whatever behind; the interpreter is a word that is
-- not empty.
pub first_line-print :
    (n c : ℕ) (word : Text) (arg : Option Text) (last : ℕ) (rest stale : Text)
    → IsWord (c ∷ word)
    → ArgIsInLine arg
    → is_break last ≡ true
    → first_line (b'#' ∷ b'!' ∷ (spaces n ++ c ∷ (word ++ (print_arg arg ++ last ∷ rest)))) stale
      ≡ script (c ∷ word) arg
unfolding first_line
first_line-print n c word arg last rest stale h a l =
    ap (λ t. scan_line (t ++ stale) [] none)
      (skip_spaces-word n c (word ++ (print_arg arg ++ last ∷ rest)) h.0.0)
    ∙ ap (λ t. scan_line (c ∷ t) [] none) (regroup word (print_arg arg) last rest stale)
    ∙ scan_word [] (c ∷ word) arg last (rest ++ stale) h a l
  where
    regroup :
        (xs ys : Text) (last : ℕ) (rest stale : Text)
        → (xs ++ (ys ++ last ∷ rest)) ++ stale ≡ xs ++ (ys ++ last ∷ (rest ++ stale))
    regroup xs ys last rest stale =
        append_assoc xs (ys ++ last ∷ rest) stale
        ∙ ap (λ t. xs ++ t) (append_assoc ys (last ∷ rest) stale)
