-- ===== src/Base/Decimal.antt =====
-- Decimal numbers: `fmt.Sprintf("%d", n)`, `strconv.Itoa` and `strconv.Atoi` on numbers in the range
-- of `int`, which is not checked here.
use Prim.Native.Nat.{ℕ, zero, suc, ◌+◌, ◌-◌, ◌*◌, ◌/◌, ◌%◌, ◌≤◌, ◌<◌}
use Prim.Native.Char.{Char, code}
use Prim.Native.String.{String, [], ◌∷◌}
use mathlib.Core.Path.{◌≡◌, refl, ◌∙◌, ap, sym}
use mathlib.Core.Logic.{inl, inr}
use mathlib.Core.Bool.{Bool, ◌&&◌, true}
use mathlib.Core.Option
use mathlib.Core.Option.{Option, none, some}
use native.Mathlib.Omega.{arith}
use native.Mathlib.Nat.{zero-add}
use text.Mathlib.TextEquality.{Char-path}
use nba_games_service.Base.Tests.{ltb, leb, ltb→lt, ◌==◌, if◌then◌else◌, Bool-cases}

-- `int` and `time.Duration`: `negsuc n` is -(n + 1).
pub data ℤ : Type 0 where
  pos : ℕ → ℤ
  negsuc : ℕ → ℤ

-- `if z <= 0 { z = fallback }`, for a positive `fallback`.
abbrev pub positive_or : ℤ → ℕ → ℕ
positive_or (pos zero) fallback = fallback
positive_or (pos (suc n)) fallback = suc n
positive_or (negsuc n) fallback = fallback

abbrev pub two_63 : ℕ
two_63 = 9223372036854775808

-- An int64 with the low 64 bits of `n`.
unfoldable pub wrap_64 : ℕ → ℤ
wrap_64 n = let m = n % (2 * two_63) in if ltb m two_63 then pos m else negsuc (2 * two_63 - 1 - m)

pub wrap_64-pos : (n : ℕ) → n < two_63 → wrap_64 n ≡ pos n
unfolding wrap_64
wrap_64-pos n h = ground arith

-- A decimal digit; its callers give numbers below 10.
unfoldable pub digit : ℕ → Char
digit zero = "0"
digit (suc zero) = "1"
digit (suc (suc zero)) = "2"
digit (suc (suc (suc zero))) = "3"
digit (suc (suc (suc (suc zero)))) = "4"
digit (suc (suc (suc (suc (suc zero))))) = "5"
digit (suc (suc (suc (suc (suc (suc zero)))))) = "6"
digit (suc (suc (suc (suc (suc (suc (suc zero))))))) = "7"
digit (suc (suc (suc (suc (suc (suc (suc (suc zero)))))))) = "8"
digit _ = "9"

unfoldable pub is_digit : Char → Bool
is_digit c = leb 48 (code c) && leb (code c) 57

pub code-digit : (n : ℕ) → n < 10 → code (digit n) ≡ 48 + n
unfolding digit
code-digit zero h = refl
code-digit (suc zero) h = refl
code-digit (suc (suc zero)) h = refl
code-digit (suc (suc (suc zero))) h = refl
code-digit (suc (suc (suc (suc zero)))) h = refl
code-digit (suc (suc (suc (suc (suc zero))))) h = refl
code-digit (suc (suc (suc (suc (suc (suc zero)))))) h = refl
code-digit (suc (suc (suc (suc (suc (suc (suc zero))))))) h = refl
code-digit (suc (suc (suc (suc (suc (suc (suc (suc zero)))))))) h = refl
code-digit (suc (suc (suc (suc (suc (suc (suc (suc (suc zero))))))))) h = refl
code-digit (suc (suc (suc (suc (suc (suc (suc (suc (suc (suc n)))))))))) h = absurd (omega arith)

pub is_digit_bounds : (c : Char) → is_digit c ≡ true → (48 ≤ code c) × (code c ≤ 57)
unfolding is_digit
is_digit_bounds c h = ground arith

pub digit-code : (c : Char) → is_digit c ≡ true → digit (code c - 48) ≡ c
unfolding is_digit
digit-code c h = Char-path (digit (code c - 48)) c (ground (arith, code-digit (code c - 48)))

is_digit-digit : (n : ℕ) → n < 10 → is_digit (digit n) ≡ true
unfolding is_digit
is_digit-digit n h = ground (arith, code-digit n h)

-- The digits of `n`, before `rest`; each round drops the last one.
pub print_onto : ℕ → ℕ → String → String
print_onto zero n rest = rest
print_onto (suc fuel) n rest =
    let more = print_onto fuel (n / 10) (digit (n % 10) ∷ rest) in
    if ltb n 10 then digit n ∷ rest else more

unfoldable pub decimal : ℕ → String
unfolding print_onto digit
decimal n = print_onto (n + 1) n []

unfoldable pub decimal_int : ℤ → String
unfolding decimal
decimal_int (pos n) = decimal n
decimal_int (negsuc n) = "-" ∷ decimal (n + 1)

pub read_digits : ℕ → String → Option ℕ
read_digits n [] = some n
read_digits n (c ∷ s) =
    let more = read_digits (n * 10 + (code c - 48)) s in if is_digit c then more else none

-- At least one digit.
read_number : String → Option ℕ
unfolding read_digits is_digit
read_number [] = none
read_number (c ∷ s) = read_digits 0 (c ∷ s)

abbrev negate : ℕ → ℤ
negate zero = pos zero
negate (suc n) = negsuc n

-- `strconv.Atoi`: one sign is allowed.
unfoldable pub atoi : String → Option ℤ
unfolding read_number
atoi [] = none
atoi (c ∷ s) =
    if code c == 45
    then Option.map negate (read_number s)
    else if code c == 43
    then Option.map pos (read_number s)
    else Option.map pos (read_number (c ∷ s))

read_digits-digit :
    (n d : ℕ) (s : String) → d < 10 → read_digits n (digit d ∷ s) ≡ read_digits (n * 10 + d) s
unfolding read_digits
read_digits-digit n d s h =
    let e : code (digit d) - 48 ≡ d = omega (arith, code-digit d h) in rw (is_digit-digit d h, e)

read_digits-print_onto :
    (fuel n : ℕ) (rest : String)
    → n < fuel
    → read_digits 0 (print_onto fuel n rest) ≡ read_digits n rest
unfolding print_onto
read_digits-print_onto zero n rest h = absurd (omega arith)
read_digits-print_onto (suc fuel) n rest h = elim (Bool-cases (ltb n 10)) [
  | inl p ↦ rw p (read_digits-digit 0 n rest (ltb→lt n 10 p) ∙ rw zero-add)
  | inr p ↦
      let big : 10 ≤ n = ground arith in
      let e : n / 10 * 10 + n % 10 ≡ n = omega arith in
      rw p (
        read_digits-print_onto fuel (n / 10) (digit (n % 10) ∷ rest) (omega arith)
        ∙ read_digits-digit (n / 10) (n % 10) rest (omega arith)
        ∙ rw e)
]

-- A printed number begins with a digit.
print_onto_head :
    (fuel n : ℕ) (rest : String)
    → n < fuel
    → (d : ℕ) × (s : String) × (d < 10) × (print_onto fuel n rest ≡ digit d ∷ s)
unfolding print_onto
print_onto_head zero n rest h = absurd (omega arith)
print_onto_head (suc fuel) n rest h = elim (Bool-cases (ltb n 10)) [
  | inl p ↦ (n, rest, ltb→lt n 10 p, rw p)
  | inr p ↦
      let big : 10 ≤ n = ground arith in
      let (d, s, small, e) = print_onto_head fuel (n / 10) (digit (n % 10) ∷ rest) (omega arith) in
      (d, s, small, rw p e)
]

atoi_of_digit :
    (d : ℕ) (s : String)
    → d < 10
    → atoi (digit d ∷ s) ≡ Option.map pos (read_digits 0 (digit d ∷ s))
unfolding atoi
atoi_of_digit d s h = unfold read_number in ground (arith, code-digit d h)

-- Reading a printed number gives it back.
pub atoi-decimal : (n : ℕ) → atoi (decimal n) ≡ some (pos n)
atoi-decimal n =
    unfold decimal in
    let (d, s, small, e) = print_onto_head (n + 1) n [] (omega arith) in
    let read : read_digits 0 (digit d ∷ s) ≡ some n =
      ap (read_digits 0) (sym e)
      ∙ read_digits-print_onto (n + 1) n [] (omega arith)
      ∙ unfold read_digits in refl in
    rw e (atoi_of_digit d s small ∙ ap (Option.map pos) read)

-- Different numbers print differently.
pub decimal-injective : (m n : ℕ) → decimal m ≡ decimal n → m ≡ n
decimal-injective m n e =
    let both : some (pos m) ≡ some (pos n) = sym (atoi-decimal m) ∙ ap atoi e ∙ atoi-decimal n in
    ground (arith, both)
