-- ===== src/Prelude/Texts.antt =====
-- Text as its bytes, for code that looks into it.
use Prim.Native.Char.{code}
use Prim.Native.Nat.{ℕ, zero, suc, ◌+◌}
use Prim.Native.String.{String}
use mathlib.Core.Path.{◌≡◌, refl, ap, ◌∙◌}
use mathlib.Core.Logic.{◌↔◌, inl, inr}
use mathlib.Core.Bool.{Bool, true, false, ◌&&◌, ◌||◌}
use mathlib.Core.Option.{Option, none, some}
use mathlib.Core.List.{List, [], ◌∷◌, ◌++◌}
use native.Mathlib.Omega.{arith}
use koprs.Prelude.Tests.{◌==◌, leb, if◌then◌else◌, Bool-cases}

abbrev pub Text : Type 0
Text = List ℕ

-- The bytes of an ASCII text.
abbrev pub codes : String → Text
codes String.[] = []
codes (String.◌∷◌ c s) = code c ∷ codes s

abbrev pub text_eq : Text → Text → Bool
text_eq [] [] = true
text_eq (x ∷ xs) (y ∷ ys) = x == y && text_eq xs ys
text_eq _ _ = false

pub text_eq_iff : (xs ys : Text) → (text_eq xs ys ≡ true) ↔ (xs ≡ ys)
text_eq_iff [] [] = (λ h. refl, λ h. refl)
text_eq_iff [] (y ∷ ys) = (λ h. cc, λ h. cc)
text_eq_iff (x ∷ xs) [] = (λ h. cc, λ h. cc)
text_eq_iff (x ∷ xs) (y ∷ ys) = ground (arith, text_eq_iff xs ys)

-- `ends_with`.
unfoldable pub ends_with : Text → Text → Bool
ends_with [] suffix = text_eq [] suffix
ends_with (x ∷ xs) suffix = text_eq (x ∷ xs) suffix || ends_with xs suffix

-- `contains` of one byte.
abbrev pub contains : ℕ → Text → Bool
contains b [] = false
contains b (x ∷ xs) = x == b || contains b xs

-- `trim_end_matches` of one byte.
abbrev pub cons_unless : ℕ → ℕ → Text → Text
cons_unless b x [] = if x == b then [] else x ∷ []
cons_unless b x (y ∷ ys) = x ∷ y ∷ ys

unfoldable pub trim_end_matches : ℕ → Text → Text
trim_end_matches b [] = []
trim_end_matches b (x ∷ xs) = cons_unless b x (trim_end_matches b xs)

-- `to_ascii_lowercase`.
abbrev pub lower : ℕ → ℕ
lower c = if leb b'A' c && leb c b'Z' then c + 32 else c

abbrev pub to_ascii_lowercase : Text → Text
to_ascii_lowercase [] = []
to_ascii_lowercase (x ∷ xs) = lower x ∷ to_ascii_lowercase xs

abbrev pub byte_at : Text → ℕ → Option ℕ
byte_at [] i = none
byte_at (x ∷ xs) zero = some x
byte_at (x ∷ xs) (suc i) = byte_at xs i

-- A text ends with another exactly when something stands before it.
pub ends_with_sound :
    (xs suffix : Text) → ends_with xs suffix ≡ true → (front : Text) × (xs ≡ front ++ suffix)
unfolding ends_with
ends_with_sound [] suffix h = ([], (text_eq_iff [] suffix).0 h)
ends_with_sound (x ∷ xs) suffix h = elim (Bool-cases (text_eq (x ∷ xs) suffix)) [
  | inl same ↦ ([], (text_eq_iff (x ∷ xs) suffix).0 same)
  | inr other ↦
      let (front, e) = ends_with_sound xs suffix (rw other at h) in (x ∷ front, ap (◌∷◌ x) e)
]

or_true : (b : Bool) → (b || true) ≡ true
or_true true = refl
or_true false = refl

pub ends_with-append : (front suffix : Text) → ends_with (front ++ suffix) suffix ≡ true
unfolding ends_with
ends_with-append [] [] = refl
ends_with-append [] (x ∷ xs) = rw ((text_eq_iff (x ∷ xs) (x ∷ xs)).1 refl)
ends_with-append (x ∷ front) suffix =
    ap (λ b. text_eq (x ∷ front ++ suffix) suffix || b) (ends_with-append front suffix)
    ∙ or_true (text_eq (x ∷ front ++ suffix) suffix)
