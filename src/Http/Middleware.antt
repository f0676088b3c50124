-- ===== src/Http/Middleware.antt =====
-- internal/http/middleware/middleware.go and internal/http/requestutil/requestutil.go.
use nba_games_service.Base.{
  ℕ, zero, suc, ◌/◌, ◌%◌, ◌≤◌, ◌<◌, ◌≡◌, refl, Bool, true, ◌&&◌, ◌||◌, not, Option, none, some,
  List, [], ◌∷◌, str_eq, if◌then◌else◌, leb, ltb, ◌==◌, arith, length, All, ◌*◌,
}
use nba_games_service.Base.Decimal.{digit}
use nba_games_service.Base.Strings.{has_prefix, trim_space, all_chars, before_char}
use Prim.Native.Char.{Char, code}
use Prim.Native.String
use text.Mathlib.TextLemmas.{length-cons}
use Prim.Native.String.{String}

-- `[a-zA-Z0-9_-]`
unfoldable pub is_id_char : Char → Bool
is_id_char c =
    let n = code c in
    leb 97 n && leb n 122 || leb 65 n && leb n 90 || leb 48 n && leb n 57 || n == 95 || n == 45

-- `^[a-zA-Z0-9_-]{1,64}$`
unfoldable pub is_request_id : String → Bool
is_request_id s = leb 1 (String.count s) && leb (String.count s) 64 && all_chars is_id_char s

unfoldable pub hex_digit : ℕ → Char
unfolding digit
hex_digit n =
    if ltb n 10
    then digit n
    else if n == 10
    then "a"
    else if n == 11
    then "b"
    else if n == 12
    then "c"
    else if n == 13
    then "d"
    else if n == 14
    then "e"
    else "f"

-- `hex.EncodeToString` of bytes.
unfoldable pub hex : List ℕ → String
unfolding hex_digit
hex [] = ""
hex (b ∷ bs) = String.◌∷◌ (hex_digit (b / 16)) (String.◌∷◌ (hex_digit (b % 16)) (hex bs))

-- `random` is the result of `rand.Read`, none for an error or where `useFallback` is set; `stamp`
-- is the bytes of the time in the layout of NewRequestID.
unfoldable pub new_request_id : Option (List ℕ) → List ℕ → String
new_request_id (some bytes) stamp = hex bytes
new_request_id none stamp = hex stamp

unfoldable pub sanitize_request_id : Option (List ℕ) → List ℕ → String → String
sanitize_request_id random stamp incoming =
    if not (str_eq incoming "") && is_request_id incoming
    then incoming
    else new_request_id random stamp

-- ClientIP, by the X-Forwarded-For header and the remote address.
unfoldable pub client_ip : String → String → String
client_ip forwarded remote_addr =
    if str_eq forwarded "" then remote_addr else trim_space (before_char "," forwarded)

unfoldable pub normalize_path : String → String
normalize_path path =
    let p = before_char "?" path in
    if str_eq path ""
    then ""
    else if str_eq p "/games"
    then "/games"
    else if str_eq p "/health"
    then "/health"
    else if has_prefix "/games/" p
    then "/games/:id"
    else p

hex_digit-is_id_char : (n : ℕ) → n < 16 → is_id_char (hex_digit n) ≡ true
unfolding is_id_char hex_digit
hex_digit-is_id_char zero h = refl
hex_digit-is_id_char (suc zero) h = refl
hex_digit-is_id_char (suc (suc zero)) h = refl
hex_digit-is_id_char (suc (suc (suc zero))) h = refl
hex_digit-is_id_char (suc (suc (suc (suc zero)))) h = refl
hex_digit-is_id_char (suc (suc (suc (suc (suc zero))))) h = refl
hex_digit-is_id_char (suc (suc (suc (suc (suc (suc zero)))))) h = refl
hex_digit-is_id_char (suc (suc (suc (suc (suc (suc (suc zero))))))) h = refl
hex_digit-is_id_char (suc (suc (suc (suc (suc (suc (suc (suc zero)))))))) h = refl
hex_digit-is_id_char (suc (suc (suc (suc (suc (suc (suc (suc (suc zero))))))))) h = refl
hex_digit-is_id_char (suc (suc (suc (suc (suc (suc (suc (suc (suc (suc zero)))))))))) h = refl
hex_digit-is_id_char (suc (suc (suc (suc (suc (suc (suc (suc (suc (suc (suc zero))))))))))) h = refl
hex_digit-is_id_char (suc (suc (suc (suc (suc (suc (suc (suc (suc (suc (suc (suc zero))))))))))))
      h =
    refl
hex_digit-is_id_char
      (suc (suc (suc (suc (suc (suc (suc (suc (suc (suc (suc (suc (suc zero))))))))))))) h =
    refl
hex_digit-is_id_char
      (suc (suc (suc (suc (suc (suc (suc (suc (suc (suc (suc (suc (suc (suc zero)))))))))))))) h =
    refl
hex_digit-is_id_char
      (suc (suc (suc (suc (suc (suc (suc (suc (suc (suc (suc (suc (suc (suc (suc zero)))))))))))))))
      h =
    refl
hex_digit-is_id_char
      (suc
        (suc (suc (suc (suc (suc (suc (suc (suc (suc (suc (suc (suc (suc (suc (suc n))))))))))))))))
      h =
    absurd (omega arith)

-- What `rand.Read` and the formatted time give: from 1 to 32 bytes.
abbrev pub IsBytes : List ℕ → Type 0
IsBytes bytes = All (λ b. b < 256) bytes × (1 ≤ length bytes) × (length bytes ≤ 32)

hex-all_chars :
    (bytes : List ℕ) → All (λ b. b < 256) bytes → all_chars is_id_char (hex bytes) ≡ true
unfolding hex all_chars
hex-all_chars [] h = refl
hex-all_chars (b ∷ bytes) h =
    let hi : b / 16 < 16 = omega (arith, h.0) in
    let lo : b % 16 < 16 = omega arith in
    rw (hex_digit-is_id_char (b / 16) hi, hex_digit-is_id_char (b % 16) lo)
      (hex-all_chars bytes h.1)

count-hex : (bytes : List ℕ) → String.count (hex bytes) ≡ 2 * length bytes
unfolding hex
count-hex [] = refl
count-hex (b ∷ bytes) = omega (
  arith,
  length-cons (hex_digit (b / 16)) (String.◌∷◌ (hex_digit (b % 16)) (hex bytes)),
  length-cons (hex_digit (b % 16)) (hex bytes),
  count-hex bytes,
)

hex-is_request_id : (bytes : List ℕ) → IsBytes bytes → is_request_id (hex bytes) ≡ true
unfolding is_request_id
hex-is_request_id bytes (bs, low, high) = ground (arith, count-hex bytes, hex-all_chars bytes bs)

-- Whatever id comes in, the id that a request gets has from 1 to 64 characters, all of them letters,
-- digits, underscores and dashes; the random source, where it works, and the clock give from 1 to
-- 32 bytes.
pub sanitize_request_id-is_request_id :
    (random : Option (List ℕ)) (stamp : List ℕ) (incoming : String)
    → ((bytes : List ℕ) → random ≡ some bytes → IsBytes bytes)
    → IsBytes stamp
    → is_request_id (sanitize_request_id random stamp incoming) ≡ true
unfolding sanitize_request_id new_request_id
sanitize_request_id-is_request_id none stamp incoming h k =
    ground (arith, hex-is_request_id stamp k)
sanitize_request_id-is_request_id (some bytes) stamp incoming h k =
    ground (arith, hex-is_request_id bytes (h bytes refl))
