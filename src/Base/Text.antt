-- ===== src/Base/Text.antt =====
-- Texts as the library's `String`. Go compares texts byte by byte, which for UTF-8 is the order of
-- the code points, `compare`.
use Prim.Native.Nat.{Ordering, compare as compare_ℕ}
use Prim.Native.Char.{Char, code}
use Prim.Native.String.{String, [], ◌∷◌, then, compare}
use Prim.Native.String.compare as laws
use mathlib.Core.Path.{◌≡◌, refl}
use mathlib.Core.Bool.{Bool, true, false, not}
use native.Mathlib.Omega.{arith}
use text.Mathlib.Text.{is_lt, is_eq}
use text.Mathlib.TextEquality.{path_by_compare}
use text.Mathlib.TextPositions.{compare_refl}

-- `s == t`, `s < t` and `s <= t` on Go strings.
abbrev pub str_eq : String → String → Bool
str_eq s t = is_eq (compare s t)

abbrev pub str_lt : String → String → Bool
str_lt s t = is_lt (compare s t)

abbrev pub str_le : String → String → Bool
str_le s t = not (str_lt t s)

pub compare-nil_nil : compare [] [] ≡ Ordering.eq
compare-nil_nil = refl

pub compare-nil_cons : (d : Char) (t : String) → compare [] (d ∷ t) ≡ Ordering.lt
compare-nil_cons d t = λ i. laws.nil-cons d t i

pub compare-cons_nil : (c : Char) (s : String) → compare (c ∷ s) [] ≡ Ordering.gt
compare-cons_nil c s = λ i. laws.cons-nil c s i

pub compare-cons_cons :
    (c d : Char) (s t : String)
    → compare (c ∷ s) (d ∷ t) ≡ then (compare_ℕ (code c) (code d)) (compare s t)
compare-cons_cons c d s t = λ i. laws.cons-cons c d s t i

abbrev flip : Ordering → Ordering
flip Ordering.lt = Ordering.gt
flip Ordering.eq = Ordering.eq
flip Ordering.gt = Ordering.lt

compare_swap : (s t : String) → compare t s ≡ flip (compare s t)
compare_swap [] [] = refl
compare_swap [] (d ∷ t) = ground (arith, compare-nil_cons d t, compare-cons_nil d t)
compare_swap (c ∷ s) [] = ground (arith, compare-nil_cons c s, compare-cons_nil c s)
compare_swap (c ∷ s) (d ∷ t) =
    ground (arith, compare-cons_cons c d s t, compare-cons_cons d c t s, compare_swap s t)

-- The order is total, and "neither is less" is equality.
pub str_lt-asymm : (s t : String) → str_lt s t ≡ true → str_lt t s ≡ false
str_lt-asymm s t h = ground (arith, compare_swap s t)

pub str_lt-total : (s t : String) → str_lt s t ≡ false → str_lt t s ≡ false → s ≡ t
str_lt-total s t h k = path_by_compare s t (ground (arith, compare_swap s t))

pub str_lt_irrefl : (s : String) → str_lt s s ≡ false
str_lt_irrefl s = ground (arith, compare_refl s)

pub str_lt_trans : (s t u : String) → str_lt s t ≡ true → str_lt t u ≡ true → str_lt s u ≡ true
str_lt_trans [] [] u h k = k
str_lt_trans [] (d ∷ t) [] h k = ground (arith, compare-cons_nil d t)
str_lt_trans [] (d ∷ t) (e ∷ u) h k = ground (arith, compare-nil_cons e u)
str_lt_trans (c ∷ s) [] u h k = ground (arith, compare-cons_nil c s)
str_lt_trans (c ∷ s) (d ∷ t) [] h k = ground (arith, compare-cons_nil d t)
str_lt_trans (c ∷ s) (d ∷ t) (e ∷ u) h k = ground (
  arith,
  compare-cons_cons c d s t,
  compare-cons_cons d e t u,
  compare-cons_cons c e s u,
  str_lt_trans s t u,
)

pub str_le_of_lt : (s t : String) → str_lt s t ≡ true → str_le s t ≡ true
str_le_of_lt s t h = rw (str_lt-asymm s t h)

-- If `u` is not below `t`, nor `t` below `s`, then `u` is not below `s`.
pub str_le_trans : (s t u : String) → str_le s t ≡ true → str_le t u ≡ true → str_le s u ≡ true
str_le_trans s t u h k =
    ground (arith, str_lt_trans u s t, str_lt_trans t u s, str_lt-total s t, str_lt-total t u)
