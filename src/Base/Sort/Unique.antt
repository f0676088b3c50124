-- ===== src/Base/Sort/Unique.antt =====
-- Sorting by a key, as Go's `sort.Slice` may do it in any way: a list has one sorted permutation, if
-- no two of its elements have one key.
use mathlib.Core.Path.{◌≡◌, ap₂, sym, refl}
use mathlib.Core.Bool.{true}
use mathlib.Core.Logic.{inr}
use mathlib.Core.List.{
  List, [], ◌∷◌, Mem, Perm, not-mem-nil, mem-cons, mem-cons_self, forall_mem-cons,
}
use mathlib.Core.List.Perm
use Prim.Native.String.{String}
use native.Mathlib.Omega.{arith}
use nba_games_service.Base.Lists.{All}
use nba_games_service.Base.Sort.{IsSorted, sort_by, sort_by-IsSorted, sort_by-perm}
use nba_games_service.Base.Text.{str_le, str_lt-total, str_lt_irrefl}

All-mem {ℓ κ} :
    {A : Type ℓ} {P : A → Type κ}
    → ((x : A) → IsProp (P x))
    → (xs : List A) → All P xs
    → (x : A) → Mem x xs
    → P x
All-mem {P} prop [] h = λ x m. absurd (not-mem-nil m)
All-mem {P} prop (y ∷ ys) h = (forall_mem-cons prop).1 (h.0, All-mem {P = P} prop ys h.1)

-- What holds of the first element and of the others holds of all.
forall_mem-cons_mp {ℓ κ} :
    {A : Type ℓ} {P : A → Type κ} {x : A} {xs : List A}
    → ((y : A) → IsProp (P y))
    → P x
    → ((y : A) → Mem y xs → P y)
    → (y : A) → Mem y (x ∷ xs)
    → P y
forall_mem-cons_mp prop p q = (forall_mem-cons prop).1 (p, q)

str_le_antisymm : (s t : String) → str_le s t ≡ true → str_le t s ≡ true → s ≡ t
str_le_antisymm s t h k = ground (arith, str_lt-total s t)

str_le_refl : (s : String) → str_le s s ≡ true
str_le_refl s = ground (arith, str_lt_irrefl s)

module _ {ℓ} {A : Type ℓ} (key : A → String) where
  -- Elements with one key are one element.
  abbrev pub Coherent : List A → Type ℓ
  Coherent xs = (x y : A) → Mem x xs → Mem y xs → key x ≡ key y → x ≡ y

  pub Coherent-perm : {xs ys : List A} → Perm xs ys → Coherent xs → Coherent ys
  Coherent-perm p c x y m n = c x y ((Perm.mem_iff p).1 m) ((Perm.mem_iff p).1 n)

  head_le :
      (x y : A) (xs : List A)
      → IsSorted key (x ∷ xs)
      → Mem y (x ∷ xs)
      → str_le (key x) (key y) ≡ true
  head_le x y xs s =
      (forall_mem-cons (λ _. hlevel)).1 (str_le_refl (key x), All-mem (λ _. hlevel) xs s.0) y

  IsSorted-eq_of_perm :
      {xs ys : List A} → Coherent xs → IsSorted key xs → IsSorted key ys → Perm xs ys → xs ≡ ys
  IsSorted-eq_of_perm {xs = []} _ _ _ p = Perm.nil-eq p
  IsSorted-eq_of_perm {xs = x ∷ xs} {ys = []} _ _ _ p = Perm.eq-nil p
  IsSorted-eq_of_perm {xs = x ∷ xs} {ys = y ∷ ys} c s t p =
      let x_in = (Perm.mem_iff p).0 mem-cons_self in
      let y_in = (Perm.mem_iff p).1 mem-cons_self in
      let heads =
        c x y mem-cons_self y_in
          (str_le_antisymm (key x) (key y) (head_le x y xs s y_in) (head_le y x ys t x_in)) in
      let tails = Perm.cons_inv (Perm.trans p (Perm.symm (Perm.cons' heads Perm.rfl))) in
      ap₂ ◌∷◌ heads (
        IsSorted-eq_of_perm {xs = xs}
          (λ a b m n. c a b (mem-cons.1 ∣ inr m ∣₁) (mem-cons.1 ∣ inr n ∣₁)) s.1 t.1 tails)

  -- Sorting forgets the order of a list, and nothing else.
  pub sort_by-eq_of_perm :
      {xs ys : List A} → Coherent xs → Perm xs ys → sort_by key xs ≡ sort_by key ys
  sort_by-eq_of_perm {xs} {ys} c p =
      IsSorted-eq_of_perm (Coherent-perm (Perm.symm (sort_by-perm key xs)) c)
        (sort_by-IsSorted key xs) (sort_by-IsSorted key ys)
        (Perm.trans (sort_by-perm key xs) (Perm.trans p (Perm.symm (sort_by-perm key ys))))

  -- The one in front has a key of its own.
  pub Coherent-cons :
      IsSet A
      → (x : A) (xs : List A) → All (λ y. key x ≡ key y → ⊥) xs
      → Coherent xs
      → Coherent (x ∷ xs)
  Coherent-cons set x xs apart c a b m n =
      let own = All-mem (λ _. hlevel) xs apart in
      forall_mem-cons_mp {P = λ a. (b : A) → Mem b (x ∷ xs) → key a ≡ key b → a ≡ b}
        (λ _. hlevel set)
        (forall_mem-cons_mp {P = λ b. key x ≡ key b → x ≡ b} (λ _. hlevel set) (λ _. refl)
          (λ b n e. absurd (own b n e)))
        (λ a m.
          forall_mem-cons_mp {P = λ b. key a ≡ key b → a ≡ b} (λ _. hlevel set)
            (λ e. absurd (own a m (sym e))) (λ b n. c a b m n))
        a m b n
