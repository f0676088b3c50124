-- ===== src/Snapshots/Names.antt =====
-- Names of snapshot files: a date and ".json". `filepath.Ext`, and the cut of writer.go's `listDates`.
use Prim.Native.Nat.{ℕ, zero, suc, ◌-◌}
use Prim.Native.Char.{code}
use Prim.Native.String.{String, [], ◌∷◌, ◌++◌, count}
use text.Mathlib.TextLemmas.{
  nil-append, cons-append, length-append, length-cons, append-nil, append_cancel_right,
}
use nba_games_service.Base.{
  ◌≡◌, ◌≢◌, refl, sym, ap, ◌∙◌, arith, str_eq, ◌==◌, if◌then◌else◌, Bool-cases, inl, inr, eq_iff,
}

-- The part of a file name from its last dot on.
unfoldable pub ext : String → String
ext [] = []
ext (c ∷ s) =
    let later = ext s in if str_eq later [] then (if code c == 46 then c ∷ s else []) else later

take_chars : ℕ → String → String
take_chars zero s = []
take_chars (suc n) [] = []
take_chars (suc n) (c ∷ s) = c ∷ take_chars n s

-- `name[:len(name)-len(".json")]`, for a name that ends in ".json".
unfoldable pub cut_json : String → String
unfolding take_chars
cut_json name = take_chars (count name - 5) name

-- `fmt.Sprintf("%s.json", date)`.
unfoldable pub json_name : String → String
json_name date = date ++ ".json"

-- `target + ".tmp"`.
unfoldable pub tmp_name : String → String
tmp_name name = name ++ ".tmp"

ext-append : (s t : String) → ext t ≢ [] → ext (s ++ t) ≡ ext t
unfolding ext
ext-append [] t h = rw nil-append
ext-append (c ∷ s) t h = rw cons-append (ground (arith, ext-append s t h, eq_iff (ext t) []))

pub ext-json_name : (date : String) → ext (json_name date) ≡ ".json"
unfolding json_name
ext-json_name date =
    ext-append date ".json" (unfold ext in ground (arith, eq_iff ".json" [])) ∙ unfold ext in refl

pub ext-tmp_name : (name : String) → ext (tmp_name name) ≡ ".tmp"
unfolding tmp_name
ext-tmp_name name =
    ext-append name ".tmp" (unfold ext in ground (arith, eq_iff ".tmp" [])) ∙ unfold ext in refl

pub tmp_name_inj : (s t : String) → tmp_name s ≡ tmp_name t → s ≡ t
unfolding tmp_name
tmp_name_inj s t = append_cancel_right s t ".tmp"

take_chars-append : (s t : String) → take_chars (count s) (s ++ t) ≡ s
unfolding take_chars
take_chars-append [] t = refl
take_chars-append (c ∷ s) t = rw (length-cons c s, cons-append c s t, take_chars-append s t)

pub cut_json-json_name : (date : String) → cut_json (json_name date) ≡ date
unfolding cut_json json_name
cut_json-json_name date =
    let e : count (date ++ ".json") - 5 ≡ count date = omega (arith, length-append date ".json") in
    rw e (take_chars-append date ".json")

-- A name is what stands before its extension, and the extension.
ext_suffix : (name : String) → (s : String) × (name ≡ s ++ ext name)
unfolding ext
ext_suffix [] = ([], refl)
ext_suffix (c ∷ s) = elim (Bool-cases (str_eq (ext s) [])) [
  | inl p ↦ elim (Bool-cases (code c == 46)) [
    | inl q ↦ ([], rw (p, q, nil-append))
    | inr q ↦ (c ∷ s, rw (p, q) (sym (append-nil (c ∷ s))))
  ]
  | inr p ↦
      let (t, e) = ext_suffix s in (c ∷ t, rw p (ap (λ x. c ∷ x) e ∙ sym (cons-append c t (ext s))))
]

pub json_name-cut_json : (name : String) → ext name ≡ ".json" → json_name (cut_json name) ≡ name
json_name-cut_json name h =
    let (s, e) = ext_suffix name in
    let e' : name ≡ json_name s = unfold json_name in e ∙ ap (λ t. s ++ t) h in
    rw e' (ap json_name (cut_json-json_name s))
