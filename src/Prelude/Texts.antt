-- ===== src/Prelude/Texts.antt =====
-- Texts as lists of bytes: equality and the order of `std::string`.
use Prim.Native.Nat.{ℕ}
use Prim.Native.Char.{code}
use Prim.Native.String.{String}
use mathlib.Core.Path.{◌≡◌, refl}
use mathlib.Core.Logic.{◌≢◌, ◌↔◌, inl, inr}
use mathlib.Core.Bool.{Bool, true, false}
use mathlib.Core.List.{List, [], ◌∷◌}
use native.Mathlib.Omega.{arith}
use webports.Prelude.Tests.{◌==◌, ltb, if◌then◌else◌, Bool-cases}

abbrev pub Text : Type 0
Text = List ℕ

-- The bytes of a text in ASCII.
abbrev pub codes : String → Text
codes String.[] = []
codes (String.◌∷◌ c s) = code c ∷ codes s

unfoldable pub eq_text : Text → Text → Bool
eq_text [] [] = true
eq_text [] (y ∷ b) = false
eq_text (x ∷ a) [] = false
eq_text (x ∷ a) (y ∷ b) = if x == y then eq_text a b else false

pub eq_text_iff : (a b : Text) → (eq_text a b ≡ true) ↔ (a ≡ b)
unfolding eq_text
eq_text_iff [] [] = (λ h. refl, λ h. refl)
eq_text_iff [] (y ∷ b) = (λ h. cc, λ h. cc)
eq_text_iff (x ∷ a) [] = (λ h. cc, λ h. cc)
eq_text_iff (x ∷ a) (y ∷ b) = ground (arith, eq_text_iff a b)

pub eq_text_refl : (a : Text) → eq_text a a ≡ true
eq_text_refl a = (eq_text_iff a a).1 refl

pub ne→eq_text : (a b : Text) → a ≢ b → eq_text a b ≡ false
ne→eq_text a b h = elim (Bool-cases (eq_text a b)) [
  | inl d ↦ absurd (h ((eq_text_iff a b).0 d))
  | inr d ↦ d
]

-- The lexicographic order, where a text stands before its extensions.
unfoldable pub less : Text → Text → Bool
less [] [] = false
less [] (y ∷ b) = true
less (x ∷ a) [] = false
less (x ∷ a) (y ∷ b) = if x == y then less a b else ltb x y

pub less_trans : (a b c : Text) → less a b ≡ true → less b c ≡ true → less a c ≡ true
unfolding less
less_trans [] [] c h k = cc
less_trans [] (y ∷ b) [] h k = cc
less_trans [] (y ∷ b) (z ∷ c) h k = refl
less_trans (x ∷ a) [] c h k = cc
less_trans (x ∷ a) (y ∷ b) [] h k = cc
less_trans (x ∷ a) (y ∷ b) (z ∷ c) h k = ground (arith, less_trans a b c)

pub less_total : (a b : Text) → eq_text a b ≡ false → less a b ≡ false → less b a ≡ true
unfolding less eq_text
less_total [] [] h k = cc
less_total [] (y ∷ b) h k = cc
less_total (x ∷ a) [] h k = refl
less_total (x ∷ a) (y ∷ b) h k = ground (arith, less_total a b)
