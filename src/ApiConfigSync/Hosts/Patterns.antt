-- ===== src/ApiConfigSync/Hosts/Patterns.antt =====
-- examples/apiconfigsync/src/url_policy.rs: what a pattern of the allow-list matches.
use mathlib.Core.List.{append_assoc}
use koprs.Prelude.{
  ℕ, ◌+◌, ◌-◌, ◌≡◌, ◌≢◌, ◌↔◌, refl, sym, subst, ap, ◌∙◌, Bool, true, ◌&&◌, Option, none, some, [],
  ◌∷◌, ◌++◌, ltb, length, length-append, arith,
}
use koprs.Prelude.Texts.{Text, text_eq_iff, ends_with, ends_with_sound, ends_with-append, byte_at}
use koprs.ApiConfigSync.Hosts.{strip_wildcard, is_dot, matches_as, host_matches}

-- A text that is not empty ends in a byte.
last_byte : (xs : Text) → xs ≢ [] → (front : Text) × (b : ℕ) × (xs ≡ front ++ b ∷ [])
last_byte [] h = absurd (h refl)
last_byte (x ∷ []) h = ([], x, refl)
last_byte (x ∷ y ∷ xs) h =
    let (front, b, e) = last_byte (y ∷ xs) (λ h. cc) in (x ∷ front, b, ap (◌∷◌ x) e)

byte_at-append : (front rest : Text) (b : ℕ) → byte_at (front ++ b ∷ rest) (length front) ≡ some b
byte_at-append [] rest b = refl
byte_at-append (x ∷ front) rest b = byte_at-append front rest b

-- A label, a dot and the suffix.
abbrev pub Under : Text → Text → Type 0
Under suffix host = (sub : Text) × (sub ≢ []) × (host ≡ sub ++ b'.' ∷ suffix)

-- What a pattern means: a wildcard every proper subdomain, and any other pattern itself.
abbrev pub Means : Option Text → Text → Text → Type 0
Means none pattern host = pattern ≡ host
Means (some suffix) pattern host = Under suffix host

and_parts : (a b c : Bool) → (a && b && c) ≡ true → (a ≡ true) × (b ≡ true) × (c ≡ true)
and_parts a b c h = ground arith

parts_and : (a b c : Bool) → a ≡ true → b ≡ true → c ≡ true → (a && b && c) ≡ true
parts_and a b c h g f = ground arith

dot_is : (o : Option ℕ) (b : ℕ) → o ≡ some b → is_dot o ≡ true → b ≡ b'.'
dot_is none b e h = cc
dot_is (some x) b e h = ground arith

is_dot-some : (o : Option ℕ) → o ≡ some b'.' → is_dot o ≡ true
is_dot-some o e = rw e

-- The byte before the suffix.
byte_before :
    (front suffix host : Text) (b : ℕ)
    → host ≡ front ++ b ∷ suffix
    → byte_at host (length host - length suffix - 1) ≡ some b
byte_before front suffix host b e =
    let long = ap length e ∙ length-append front (b ∷ suffix) in
    let index : length host - length suffix - 1 ≡ length front = omega (arith, long) in
    ap (byte_at host) index ∙ ap (λ x. byte_at x (length front)) e ∙ byte_at-append front suffix b

abbrev tested : Text → Text → Bool
tested suffix host =
    ltb (length suffix + 1) (length host)
    && ends_with host suffix
    && is_dot (byte_at host (length host - length suffix - 1))

subdomain_sound : (suffix host : Text) → tested suffix host ≡ true → Under suffix host
subdomain_sound suffix host h =
    let (long, ends, dot) =
      and_parts (ltb (length suffix + 1) (length host)) (ends_with host suffix)
        (is_dot (byte_at host (length host - length suffix - 1))) h in
    let (front, e) = ends_with_sound host suffix ends in
    let size = ap length e ∙ length-append front suffix in
    let (sub, b, e') = last_byte front (λ empty. ground (arith, size, ap length empty)) in
    let whole = e ∙ ap (λ x. x ++ suffix) e' ∙ append_assoc sub (b ∷ []) suffix in
    let is : b ≡ b'.' = dot_is _ b (byte_before sub suffix host b whole) dot in
    (
      sub,
      λ empty. ground (arith, size, ap length e', length-append sub (b ∷ []), ap length empty),
      whole ∙ ap (λ x. sub ++ x ∷ suffix) is,
    )

subdomain_complete : (suffix host : Text) → Under suffix host → tested suffix host ≡ true
subdomain_complete suffix host (sub, nonempty, e) =
    let size = ap length e ∙ length-append sub (b'.' ∷ suffix) in
    let (front, b, e') = last_byte sub nonempty in
    parts_and _ _ _ (ground (arith, size, ap length e', length-append front (b ∷ [])))
      (subst (λ x. ends_with x suffix ≡ true) (sym (e ∙ sym (append_assoc sub (b'.' ∷ []) suffix)))
        (ends_with-append (sub ++ b'.' ∷ []) suffix))
      (is_dot-some _ (byte_before sub suffix host b'.' e))

matches_as_iff :
    (kind : Option Text) (pattern host : Text)
    → (matches_as kind pattern host ≡ true) ↔ Means kind pattern host
matches_as_iff none pattern host = text_eq_iff pattern host
matches_as_iff (some suffix) pattern host =
    (λ h. subdomain_sound suffix host h, λ u. subdomain_complete suffix host u)

-- A host matches a wildcard pattern exactly when it is a proper subdomain of the suffix, at a label
-- boundary, and any other pattern exactly when it is that pattern.
pub host_matches_iff :
    (pattern host : Text)
    → (host_matches pattern host ≡ true) ↔ Means (strip_wildcard pattern) pattern host
unfolding host_matches
host_matches_iff pattern host = matches_as_iff (strip_wildcard pattern) pattern host
