-- ===== src/Base/Strings.antt =====
-- What the service uses of Go's `strings` package.
use Prim.Native.Nat.{ℕ, ◌+◌}
use Prim.Native.Char.{Char, code}
use Prim.Native.String.{String, [], ◌∷◌, ◌++◌}
use mathlib.Core.Bool.{Bool, true, false, ◌&&◌, ◌||◌}
use mathlib.Core.Option.{Option, none, some}
use mathlib.Core.Path.{◌≡◌, refl}
use native.Mathlib.Omega.{arith}
use text.Mathlib.TextLemmas.{nil-append, cons-append}
use nba_games_service.Base.Tests.{leb, ◌==◌, if◌then◌else◌}
use nba_games_service.Base.Text.{str_eq}

-- `unicode.IsSpace`.
unfoldable pub is_space : Char → Bool
is_space c =
    let n = code c in
    leb 9 n && leb n 13
    || n == 32
    || n == 133
    || n == 160
    || n == 5760
    || leb 8192 n && leb n 8202
    || n == 8232
    || n == 8233
    || n == 8239
    || n == 8287
    || n == 12288

unfoldable pub trim_left : String → String
unfolding is_space
trim_left [] = []
trim_left (c ∷ s) = let rest = trim_left s in if is_space c then rest else c ∷ s

unfoldable pub trim_right : String → String
unfolding is_space
trim_right [] = []
trim_right (c ∷ s) =
    let rest = trim_right s in if is_space c && str_eq rest [] then [] else c ∷ rest

-- `strings.TrimSpace`.
unfoldable pub trim_space : String → String
unfolding trim_left trim_right
trim_space s = trim_right (trim_left s)

-- What follows a prefix, where a text has it.
unfoldable pub cut_prefix : String → String → Option String
cut_prefix [] s = some s
cut_prefix (p ∷ ps) [] = none
cut_prefix (p ∷ ps) (c ∷ s) = let rest = cut_prefix ps s in if code p == code c then rest else none

abbrev pub has_prefix : String → String → Bool
has_prefix p s = elim (cut_prefix p s) [ none ↦ false | some t ↦ true ]

-- `strings.TrimPrefix(s, p)`.
abbrev pub trim_prefix : String → String → String
trim_prefix p s = elim (cut_prefix p s) [ none ↦ s | some t ↦ t ]

-- `strings.TrimSuffix(s, "/")`.
unfoldable pub trim_slash : String → String
trim_slash [] = []
trim_slash (c ∷ s) = let rest = trim_slash s in if str_eq s [] && code c == 47 then [] else c ∷ rest

-- The lower case of a letter, as `unicode.ToLower` has it for those whose lower case is in ASCII;
-- no other letter's is.
unfoldable pub lower_code : Char → ℕ
lower_code c =
    let n = code c in
    if leb 65 n && leb n 90 then n + 32 else if n == 304 then 105 else if n == 8490 then 107 else n

-- `strings.ToLower(s) == t`, for a `t` in ASCII.
unfoldable pub lowers_to : String → String → Bool
unfolding lower_code
lowers_to [] [] = true
lowers_to [] (d ∷ t) = false
lowers_to (c ∷ s) [] = false
lowers_to (c ∷ s) (d ∷ t) = let rest = lowers_to s t in lower_code c == code d && rest

-- Letters whose simple folding is a letter of ASCII, as that letter in lower case.
unfoldable pub fold_code : Char → ℕ
fold_code c =
    let n = code c in
    if leb 65 n && leb n 90 then n + 32 else if n == 383 then 115 else if n == 8490 then 107 else n

-- `strings.EqualFold(s, t)`, for a `t` of small letters of ASCII.
unfoldable pub folds_to : String → String → Bool
unfolding fold_code
folds_to [] [] = true
folds_to [] (d ∷ t) = false
folds_to (c ∷ s) [] = false
folds_to (c ∷ s) (d ∷ t) = let rest = folds_to s t in fold_code c == code d && rest

unfoldable pub contains_char : Char → String → Bool
contains_char c [] = false
contains_char c (d ∷ s) = let rest = contains_char c s in code c == code d || rest

unfoldable pub all_chars : (Char → Bool) → String → Bool
all_chars p [] = true
all_chars p (c ∷ s) = let rest = all_chars p s in p c && rest

-- `strings.Split(s, sep)[0]`, for a separator of one character.
unfoldable pub before_char : Char → String → String
before_char c [] = []
before_char c (d ∷ s) = let rest = before_char c s in if code c == code d then [] else d ∷ rest

pub cut_prefix-append : (p s : String) → cut_prefix p (p ++ s) ≡ some s
unfolding cut_prefix
cut_prefix-append [] s = rw nil-append refl
cut_prefix-append (c ∷ p) s = rw cons-append (ground (arith, cut_prefix-append p s))
