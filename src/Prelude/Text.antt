-- ===== src/Prelude/Text.antt =====
-- Texts: the order of std::string, and the operations by which the source takes names apart.
-- A text is read from its first character on; the source's offsets are the ends of its parts.
use Prim.Native.Char.{Char, code}
use Prim.Native.Nat.{ℕ, suc, ◌+◌, Ordering}
use Prim.Native.String.{String, compare}
use mathlib.Core.Path.{◌≡◌, refl, ap, sym}
use mathlib.Core.Bool.{Bool, true, false}
use mathlib.Core.Option.{Option, none, some}
use mathlib.Core.Option
use native.Mathlib.Omega.{arith}
use text.Mathlib.Text.{◌==◌ as str_eq}
use text.Mathlib.TextEquality.{Char-path, eq_iff}
use fastdds_transport_viz.Prelude.Tests.{◌==◌, ==_iff, if◌then◌else◌, Bool-cases}
use mathlib.Core.Logic.{inl, inr}

-- `operator<` of std::string.
abbrev pub str_lt : String → String → Bool
str_lt s t = elim (compare s t) [ Ordering.lt ↦ true | _ ↦ false ]

abbrev pub str_is_empty : String → Bool
str_is_empty String.[] = true
str_is_empty (String.◌∷◌ _ _) = false

-- `s + t`
abbrev pub text_append : String → String → String
text_append String.[] t = t
text_append (String.◌∷◌ c s) t = String.◌∷◌ c (text_append s t)

abbrev pub same_char : Char → Char → Bool
same_char c d = code c == code d

pub same_char-eq : (c d : Char) → same_char c d ≡ true → c ≡ d
same_char-eq c d h = Char-path c d ((==_iff (code c) (code d)).0 h)

pub same_char_refl : (c : Char) → same_char c c ≡ true
same_char_refl c = (==_iff (code c) (code c)).1 refl

-- What follows a prefix, if the text starts with it.
abbrev pub strip_prefix : String → String → Option String
strip_prefix String.[] s = some s
strip_prefix (String.◌∷◌ c p) String.[] = none
strip_prefix (String.◌∷◌ c p) (String.◌∷◌ d s) = if same_char c d then strip_prefix p s else none

-- What precedes a suffix, if the text ends with it.
abbrev pub strip_suffix : String → String → Option String
strip_suffix p String.[] = if str_eq p "" then some "" else none
strip_suffix p (String.◌∷◌ c s) =
    if str_eq p (String.◌∷◌ c s)
    then some ""
    else Option.map (λ r. String.◌∷◌ c r) (strip_suffix p s)

abbrev pub is_some {ℓ} : {A : Type ℓ} → Option A → Bool
is_some none = false
is_some (some _) = true

pub append_nil : (s : String) → text_append s "" ≡ s
append_nil String.[] = refl
append_nil (String.◌∷◌ c s) = ap (λ (t : String). String.◌∷◌ c t) (append_nil s)

pub append_assoc :
    (s t u : String) → text_append (text_append s t) u ≡ text_append s (text_append t u)
append_assoc String.[] t u = refl
append_assoc (String.◌∷◌ c s) t u = ap (λ (r : String). String.◌∷◌ c r) (append_assoc s t u)

pub strip_prefix-append : (p s : String) → strip_prefix p (text_append p s) ≡ some s
strip_prefix-append String.[] s = refl
strip_prefix-append (String.◌∷◌ c p) s = rw (same_char_refl c) (strip_prefix-append p s)

pub strip_prefix_sound : (p s r : String) → strip_prefix p s ≡ some r → s ≡ text_append p r
strip_prefix_sound String.[] s r h = ground arith
strip_prefix_sound (String.◌∷◌ c p) String.[] r h = cc
strip_prefix_sound (String.◌∷◌ c p) (String.◌∷◌ d s) r h = elim (Bool-cases (same_char c d)) [
  | inl e ↦ cc (same_char-eq c d e, strip_prefix_sound p s r (rw e at h))
  | inr e ↦ absurd (cc (rw e at h))
]

emptied : (r : String) → ◌≡◌ {A = Option String} (some "") (some r) → "" ≡ r
emptied r h = cc

pub strip_suffix_sound : (p s r : String) → strip_suffix p s ≡ some r → s ≡ text_append r p
strip_suffix_sound p String.[] r h = elim (Bool-cases (str_eq p "")) [
  | inl e ↦
      let none_left : "" ≡ r = emptied r (rw e at h) in rw (← none_left) (sym ((eq_iff p "").0 e))
  | inr e ↦ absurd (cc (rw e at h))
]
strip_suffix_sound p (String.◌∷◌ c s) r h = elim (Bool-cases (str_eq p (String.◌∷◌ c s))) [
  | inl e ↦
      let none_left : "" ≡ r = emptied r (rw e at h) in
      rw (← none_left) (sym ((eq_iff p (String.◌∷◌ c s)).0 e))
  | inr e ↦
      let (q, found, joined) = (Option.map-eq-some_iff _ _).0 (rw e at h) in
      rw (← joined) (ap (λ (t : String). String.◌∷◌ c t) (strip_suffix_sound p s q found))
]

abbrev pub text_length : String → ℕ
text_length String.[] = 0
text_length (String.◌∷◌ _ s) = suc (text_length s)

pub length-append : (s t : String) → text_length (text_append s t) ≡ text_length s + text_length t
length-append String.[] t = omega arith
length-append (String.◌∷◌ c s) t = omega (arith, length-append s t)

longer_ne : (c : Char) (s p : String) → str_eq p (String.◌∷◌ c (text_append s p)) ≡ false
longer_ne c s p = elim (Bool-cases (str_eq p (String.◌∷◌ c (text_append s p)))) [
  | inl e ↦
      let lengths : text_length p ≡ suc (text_length (text_append s p)) =
        ap text_length ((eq_iff p (String.◌∷◌ c (text_append s p))).0 e) in
      absurd (omega (arith, length-append s p))
  | inr e ↦ e
]

str_eq_refl : (s : String) → str_eq s s ≡ true
str_eq_refl s = (eq_iff s s).1 refl

suffix_self : (p : String) → strip_suffix p p ≡ some ""
suffix_self String.[] = refl
suffix_self (String.◌∷◌ c p) = rw (str_eq_refl (String.◌∷◌ c p))

pub strip_suffix-append : (p s : String) → strip_suffix p (text_append s p) ≡ some s
strip_suffix-append p String.[] = suffix_self p
strip_suffix-append p (String.◌∷◌ c s) = rw (longer_ne c s p, strip_suffix-append p s)
