-- ===== src/Base/Sort.antt =====
-- `sort.Strings`, and `sort.Slice` by a text key. The result of the first is determined by its
-- input; the second may order elements with equal keys as it likes, and this one keeps their order.
pub mod Unique
use mathlib.Core.Path.{◌≡◌}
use mathlib.Core.Bool.{true}
use mathlib.Core.Logic.{inl, inr}
use mathlib.Core.List.{List, [], ◌∷◌, Perm}
use mathlib.Core.List.Perm
use Prim.Native.String.{String}
use nba_games_service.Base.Tests.{if◌then◌else◌, Bool-cases}
use nba_games_service.Base.Text.{str_lt, str_le, str_le_of_lt, str_le_trans}
use nba_games_service.Base.Lists.{All}

module _ {ℓ} {A : Type ℓ} (key : A → String) where
  unfoldable pub insert_by : A → List A → List A
  insert_by x [] = x ∷ []
  insert_by x (y ∷ ys) = if str_lt (key y) (key x) then y ∷ insert_by x ys else x ∷ y ∷ ys

  unfoldable pub sort_by : List A → List A
  unfolding insert_by
  sort_by [] = []
  sort_by (x ∷ xs) = insert_by x (sort_by xs)

  -- Each key is at most the later ones.
  abbrev pub IsSorted : List A → Type 0
  IsSorted [] = Unit
  IsSorted (x ∷ xs) = All (λ y. str_le (key x) (key y) ≡ true) xs × IsSorted xs

  insert_by-perm : (x : A) (ys : List A) → Perm (insert_by x ys) (x ∷ ys)
  unfolding insert_by
  insert_by-perm x [] = Perm.refl (x ∷ [])
  insert_by-perm x (y ∷ ys) = elim (Bool-cases (str_lt (key y) (key x))) [
    | inl p ↦ rw p (Perm.trans (Perm.cons y (insert_by-perm x ys)) (Perm.swap x y ys))
    | inr p ↦ rw p (Perm.refl _)
  ]

  pub sort_by-perm : (xs : List A) → Perm (sort_by xs) xs
  unfolding sort_by
  sort_by-perm [] = Perm.refl []
  sort_by-perm (x ∷ xs) = Perm.trans (insert_by-perm x (sort_by xs)) (Perm.cons x (sort_by-perm xs))

  insert_by-All {κ} :
      (P : A → Type κ) (x : A) (ys : List A) → P x → All P ys → All P (insert_by x ys)
  unfolding insert_by
  insert_by-All P x [] p h = (p, tt)
  insert_by-All P x (y ∷ ys) p h = elim (Bool-cases (str_lt (key y) (key x))) [
    | inl q ↦ rw q (h.0, insert_by-All P x ys p h.1)
    | inr q ↦ rw q (p, h)
  ]

  pub sort_by-All {κ} : (P : A → Type κ) (xs : List A) → All P xs → All P (sort_by xs)
  unfolding sort_by
  sort_by-All P [] h = tt
  sort_by-All P (x ∷ xs) h = insert_by-All P x (sort_by xs) h.0 (sort_by-All P xs h.1)

  str_le_trans_All :
      (x y : A) (zs : List A)
      → str_le (key x) (key y) ≡ true
      → All (λ z. str_le (key y) (key z) ≡ true) zs
      → All (λ z. str_le (key x) (key z) ≡ true) zs
  str_le_trans_All x y [] p h = tt
  str_le_trans_All x y (z ∷ zs) p h =
      (str_le_trans (key x) (key y) (key z) p h.0, str_le_trans_All x y zs p h.1)

  insert_by-IsSorted : (x : A) (ys : List A) → IsSorted ys → IsSorted (insert_by x ys)
  unfolding insert_by
  insert_by-IsSorted x [] h = (tt, tt)
  insert_by-IsSorted x (y ∷ ys) h = elim (Bool-cases (str_lt (key y) (key x))) [
    | inl q ↦ rw q (
      insert_by-All (λ z. str_le (key y) (key z) ≡ true) x ys (str_le_of_lt (key y) (key x) q) h.0,
      insert_by-IsSorted x ys h.1,
    )
    | inr q ↦
        let le : str_le (key x) (key y) ≡ true = rw q in
        rw q ((le, str_le_trans_All x y ys le h.0), h)
  ]

  pub sort_by-IsSorted : (xs : List A) → IsSorted (sort_by xs)
  unfolding sort_by
  sort_by-IsSorted [] = tt
  sort_by-IsSorted (x ∷ xs) = insert_by-IsSorted x (sort_by xs) (sort_by-IsSorted xs)

abbrev pub sort_strings : List String → List String
sort_strings = sort_by (λ s. s)
