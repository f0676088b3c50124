-- ===== src/Providers/Balldontlie/Dedupe/Unique.antt =====
-- What `dedupe` keeps.
use nba_games_service.Base.{
  ℕ, ◌+◌, ap, ◌∙◌, All, Bool, true, false, Bool-cases, inl, inr, arith, eq_iff, Option, none, some,
  List, [], ◌∷◌, str_eq, if◌then◌else◌, ◌≡◌, refl, sym, subst, String, ltb, str_le, Option-cases,
}
use nba_games_service.Base.Assoc.{lookup, insert, lookup-insert, keys}
use nba_games_service.Base.Sort.{sort_by, insert_by, sort_strings, IsSorted, sort_by-IsSorted}
use nba_games_service.Providers.Balldontlie.Dedupe.{by_id, pick, dedupe}

abbrev pub is_here {ℓ} : {A : Type ℓ} → Option A → Bool
is_here none = false
is_here (some a) = true

module _ {ℓ} {T : Type ℓ} (id_of : T → String) where
  -- The first item of a list with an id, and the last one.
  pub first_with : String → List T → Option T
  first_with id [] = none
  first_with id (x ∷ xs) = if str_eq (id_of x) id then some x else first_with id xs

  pub last_with : String → List T → Option T → Option T
  last_with id [] found = found
  last_with id (x ∷ xs) found = last_with id xs (if str_eq (id_of x) id then some x else found)

  pub count_id : String → List T → ℕ
  count_id id [] = 0
  count_id id (x ∷ xs) = (if str_eq (id_of x) id then 1 else 0) + count_id id xs

  lookup-by_id :
      (id : String) (xs : List T) (unique : List (String × T))
      → lookup id (by_id id_of xs unique) ≡ last_with id xs (lookup id unique)
  unfolding by_id last_with
  lookup-by_id id [] unique = refl
  lookup-by_id id (x ∷ xs) unique =
      lookup-by_id id xs (insert (id_of x) x unique)
      ∙ ap (last_with id xs) (lookup-insert (id_of x) id x unique)

  -- Each item stands under its own id.
  abbrev Keyed : List (String × T) → Type 0
  Keyed = All (λ e. id_of e.1 ≡ e.0)

  insert-Keyed :
      (x : T) (unique : List (String × T)) → Keyed unique → Keyed (insert (id_of x) x unique)
  unfolding insert
  insert-Keyed x [] k = (refl, tt)
  insert-Keyed x ((i, y) ∷ unique) k = elim (Bool-cases (str_eq i (id_of x))) [
    | inl e ↦ rw e (refl, k.1)
    | inr e ↦ rw e (k.0, insert-Keyed x unique k.1)
  ]

  by_id-Keyed :
      (xs : List T) (unique : List (String × T)) → Keyed unique → Keyed (by_id id_of xs unique)
  unfolding by_id
  by_id-Keyed [] unique k = k
  by_id-Keyed (x ∷ xs) unique k =
      by_id-Keyed xs (insert (id_of x) x unique) (insert-Keyed x unique k)

  -- How often a text is in a list.
  count_key : String → List String → ℕ
  count_key id [] = 0
  count_key id (k ∷ ks) = (if str_eq k id then 1 else 0) + count_key id ks

  count_key-insert :
      (id key : String) (x : T) (m : List (String × T))
      → count_key id (keys (insert key x m)) ≡ (
          if str_eq key id
          then (if is_here (lookup id m) then count_key id (keys m) else 1 + count_key id (keys m))
          else count_key id (keys m))
  unfolding count_key insert lookup
  count_key-insert id key x [] = ground arith
  count_key-insert id key x ((i, y) ∷ m) =
      ground (arith, eq_iff i key, eq_iff key id, eq_iff i id, count_key-insert id key x m)

  count_key-insert_by :
      (id key : String) (ks : List String)
      → count_key id (insert_by (λ k. k) key ks) ≡ count_key id (key ∷ ks)
  unfolding count_key insert_by
  count_key-insert_by id key [] = refl
  count_key-insert_by id key (k ∷ ks) = ground (arith, count_key-insert_by id key ks)

  count_key-sort_strings :
      (id : String) (ks : List String) → count_key id (sort_strings ks) ≡ count_key id ks
  unfolding count_key sort_by
  count_key-sort_strings id [] = refl
  count_key-sort_strings id (k ∷ ks) =
      count_key-insert_by id k (sort_strings ks)
      ∙ ap (λ n. (if str_eq k id then 1 else 0) + n) (count_key-sort_strings id ks)

  -- Each key stands once.
  abbrev IsDistinct : List (String × T) → Type 0
  IsDistinct m = (id : String) → count_key id (keys m) ≡ (if is_here (lookup id m) then 1 else 0)

  by_id-IsDistinct :
      (xs : List T) (m : List (String × T)) → IsDistinct m → IsDistinct (by_id id_of xs m)
  unfolding by_id
  by_id-IsDistinct [] m h = h
  by_id-IsDistinct (x ∷ xs) m h = by_id-IsDistinct xs (insert (id_of x) x m) (λ id.
      ground (arith, count_key-insert id (id_of x) x m, lookup-insert (id_of x) id x m, h id))

  lookup-id :
      (key : String) (m : List (String × T)) (x : T)
      → Keyed m
      → lookup key m ≡ some x
      → id_of x ≡ key
  unfolding lookup
  lookup-id key [] x k e = cc
  lookup-id key ((i, y) ∷ m) x k e = elim (Bool-cases (str_eq i key)) [
    | inl p ↦
        let e' : some y ≡ some x = rw p at e in
        let q : y ≡ x = cc in sym (ap id_of q) ∙ k.0 ∙ (eq_iff i key).0 p
    | inr p ↦ lookup-id key m x k.1 (rw p at e)
  ]

  pick_found :
      (m : List (String × T)) (k : String) (ks : List String) (x : T)
      → lookup k m ≡ some x
      → pick id_of m (k ∷ ks) ≡ x ∷ pick id_of m ks
  unfolding pick
  pick_found m k ks x e = rw (e, pick) refl

  pick_missing :
      (m : List (String × T)) (k : String) (ks : List String)
      → lookup k m ≡ none
      → pick id_of m (k ∷ ks) ≡ pick id_of m ks
  unfolding pick
  pick_missing m k ks e = rw (e, pick) refl

  pick_nil : (m : List (String × T)) → pick id_of m [] ≡ []
  unfolding pick
  pick_nil m = refl

  module _ (m : List (String × T)) (keyed : Keyed m) where
    count_id-pick :
        (id : String) (ks : List String)
        → count_id id (pick id_of m ks) ≡ (if is_here (lookup id m) then count_key id ks else 0)
    unfolding count_id count_key
    count_id-pick id [] = rw (pick_nil m) (ground arith)
    count_id-pick id (k ∷ ks) = elim (Option-cases (lookup k m)) [
      | inl e ↦ rw (pick_missing m k ks e) (ground (arith, eq_iff k id, e, count_id-pick id ks))
      | inr (x, e) ↦ rw (pick_found m k ks x e) (
          ground (
            arith,
            eq_iff k id,
            eq_iff (id_of x) id,
            lookup-id k m x keyed e,
            e,
            count_id-pick id ks,
          ))
    ]

    first_with-pick :
        (id : String) (ks : List String)
        → first_with id (pick id_of m ks) ≡ (if ltb 0 (count_key id ks) then lookup id m else none)
    unfolding first_with count_key
    first_with-pick id [] = rw (pick_nil m) refl
    first_with-pick id (k ∷ ks) = elim (Option-cases (lookup k m)) [
      | inl e ↦ rw (pick_missing m k ks e) (ground (arith, eq_iff k id, e, first_with-pick id ks))
      | inr (x, e) ↦ rw (pick_found m k ks x e) (
          ground (
            arith,
            eq_iff k id,
            eq_iff (id_of x) id,
            lookup-id k m x keyed e,
            e,
            first_with-pick id ks,
          ))
    ]

    pick-All :
        (P : String → Type 0) (ks : List String)
        → All P ks
        → All (λ x. P (id_of x)) (pick id_of m ks)
    pick-All P [] h = rw (pick_nil m) tt
    pick-All P (k ∷ ks) h = elim (Option-cases (lookup k m)) [
      | inl e ↦ rw (pick_missing m k ks e) (pick-All P ks h.1)
      | inr (x, e) ↦
          rw (pick_found m k ks x e)
            (subst P (sym (lookup-id k m x keyed e)) h.0, pick-All P ks h.1)
    ]

    pick-IsSorted : (ks : List String) → IsSorted (λ k. k) ks → IsSorted id_of (pick id_of m ks)
    pick-IsSorted [] h = rw (pick_nil m) tt
    pick-IsSorted (k ∷ ks) h = elim (Option-cases (lookup k m)) [
      | inl e ↦ rw (pick_missing m k ks e) (pick-IsSorted ks h.1)
      | inr (x, e) ↦ rw (pick_found m k ks x e) (
        subst (λ i. All (λ y. str_le i (id_of y) ≡ true) (pick id_of m ks))
            (sym (lookup-id k m x keyed e)) (pick-All (λ i. str_le k i ≡ true) ks h.0),
        pick-IsSorted ks h.1,
      )
    ]

  only_present :
      (o : Option T) (n : ℕ) → n ≡ (if is_here o then 1 else 0) → (if ltb 0 n then o else none) ≡ o
  only_present none n e = ground arith
  only_present (some x) n e = rw e refl

  twice : (b : Bool) → ◌≡◌ {A = ℕ} (if b then (if b then 1 else 0) else 0) (if b then 1 else 0)
  twice true = refl
  twice false = refl

  -- The result holds each id that the items have exactly once, with the last item that has it, and
  -- no other id; it is in the order of the ids.
  pub dedupe_lem :
      (xs : List T)
      → ((id : String)
          → (first_with id (dedupe id_of xs) ≡ last_with id xs none)
            × (count_id id (dedupe id_of xs) ≡ (if is_here (last_with id xs none) then 1 else 0)))
        × IsSorted id_of (dedupe id_of xs)
  unfolding dedupe
  dedupe_lem xs =
      let m = by_id id_of xs [] in
      let keyed = by_id-Keyed xs [] tt in
      let ids = sort_strings (keys m) in
      let once : (id : String) → count_key id ids ≡ (if is_here (lookup id m) then 1 else 0) = λ id.
        count_key-sort_strings id (keys m)
        ∙ by_id-IsDistinct xs [] (λ id. unfold count_key lookup in refl) id in
      let found : (id : String) → lookup id m ≡ last_with id xs none =
        λ id. lookup-by_id id xs [] ∙ unfold lookup in refl in
      (
        λ id. (
          first_with-pick m keyed id ids
              ∙ only_present (lookup id m) (count_key id ids) (once id)
              ∙ found id,
          count_id-pick m keyed id ids
              ∙ ap (λ n. if is_here (lookup id m) then n else 0) (once id)
              ∙ ap (λ o. if is_here o then (if is_here o then 1 else 0) else 0) (found id)
              ∙ twice (is_here (last_with id xs none)),
        ),
        pick-IsSorted m keyed ids (sort_by-IsSorted (λ k. k) (keys m)),
      )
