-- ===== src/Prelude/Keys.antt =====
-- The keys by which the source's maps are ordered: texts and pairs of texts.
use Prim.Native.String.{String}
use Prim.Native.Nat.{ℕ}
use fastdds_transport_viz.Prelude.Tests.{◌==◌, ltb}
use mathlib.Core.Path.{◌≡◌}
use mathlib.Core.Bool.{Bool, true, ◌&&◌, ◌||◌}
use native.Mathlib.Omega.{arith}
use text.Mathlib.Text.{◌==◌ as str_eq}
use text.Mathlib.TextEquality.{eq_iff}
use fastdds_transport_viz.Prelude.Text.{str_lt}
use fastdds_transport_viz.Prelude.OrderedMap.{Key}

pub str_eq_refl : (s : String) → str_eq s s ≡ true
str_eq_refl s = ground (arith, eq_iff s s)

pub str_eq_sym : (s t : String) → str_eq s t ≡ true → str_eq t s ≡ true
str_eq_sym s t h = ground (arith, eq_iff s t, eq_iff t s)

pub str_eq_trans : (s t u : String) → str_eq s t ≡ true → str_eq t u ≡ true → str_eq s u ≡ true
str_eq_trans s t u h k = ground (arith, eq_iff s t, eq_iff t u, eq_iff s u)

instance abbrev pub text_key : Key String
text_key = record {
  same = str_eq;
  before = str_lt;
  same_refl = str_eq_refl;
  same_sym = str_eq_sym;
  same_trans = str_eq_trans;
}

abbrev pub pair_same : String × String → String × String → Bool
pair_same (a, b) (c, d) = str_eq a c && str_eq b d

abbrev pub pair_before : String × String → String × String → Bool
pair_before (a, b) (c, d) = str_lt a c || (str_eq a c && str_lt b d)

pub pair_same_refl : (p : String × String) → pair_same p p ≡ true
pair_same_refl (a, b) = ground (arith, str_eq_refl a, str_eq_refl b)

pub pair_same_sym : (p q : String × String) → pair_same p q ≡ true → pair_same q p ≡ true
pair_same_sym (a, b) (c, d) h = ground (arith, str_eq_sym a c, str_eq_sym b d)

pub pair_same_trans :
    (p q r : String × String) → pair_same p q ≡ true → pair_same q r ≡ true → pair_same p r ≡ true
pair_same_trans (a, b) (c, d) (e, f) h k = ground (arith, str_eq_trans a c e, str_eq_trans b d f)

instance abbrev pub text_pair_key : Key (String × String)
text_pair_key = record {
  same = pair_same;
  before = pair_before;
  same_refl = pair_same_refl;
  same_sym = pair_same_sym;
  same_trans = pair_same_trans;
}

-- A number, and the lexicographic order of std::pair and std::tuple.
pub number_same_refl : (a : ℕ) → (a == a) ≡ true
number_same_refl a = ground arith

pub number_same_sym : (a b : ℕ) → (a == b) ≡ true → (b == a) ≡ true
number_same_sym a b h = ground arith

pub number_same_trans : (a b c : ℕ) → (a == b) ≡ true → (b == c) ≡ true → (a == c) ≡ true
number_same_trans a b c h k = ground arith

instance abbrev pub number_key : Key ℕ
number_key = record {
  same = ◌==◌;
  before = ltb;
  same_refl = number_same_refl;
  same_sym = number_same_sym;
  same_trans = number_same_trans;
}

module _ {A B : Type 0} (first : Key A) (second : Key B) where
  abbrev pub both_same : A × B → A × B → Bool
  both_same (a, b) (c, d) = first.same a c && second.same b d

  abbrev pub both_before : A × B → A × B → Bool
  both_before (a, b) (c, d) = first.before a c || (first.same a c && second.before b d)

  pub both_same_refl : (p : A × B) → both_same p p ≡ true
  both_same_refl (a, b) = ground (arith, first.same_refl a, second.same_refl b)

  pub both_same_sym : (p q : A × B) → both_same p q ≡ true → both_same q p ≡ true
  both_same_sym (a, b) (c, d) h = ground (arith, first.same_sym a c, second.same_sym b d)

  pub both_same_trans :
      (p q r : A × B) → both_same p q ≡ true → both_same q r ≡ true → both_same p r ≡ true
  both_same_trans (a, b) (c, d) (e, f) h k =
      ground (arith, first.same_trans a c e, second.same_trans b d f)

  abbrev pub both_key : Key (A × B)
  both_key = record {
    same = both_same;
    before = both_before;
    same_refl = both_same_refl;
    same_sym = both_same_sym;
    same_trans = both_same_trans;
  }
