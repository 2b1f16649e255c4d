-- ===== src/Base/Sort.antt =====
-- `slice::sort_by_key`: a stable sort. Insertion puts an element in front of the first one with
-- a key that is not smaller, so that equal keys keep their order.
use Prim.Native.Nat.{suc, ℕ, ◌≤◌}
use mathlib.Core.List.{List, [], ◌∷◌}
use mathlib.Core.Logic.{inl, inr}
use mathlib.Core.Path.{ap, refl, ◌∙◌, ◌≡◌}
use native.Mathlib.Omega.{arith}
use nns.Base.Lists.{All, keep, length}
use nns.Base.Tests.{Bool-cases, if◌then◌else◌, leb, ◌==◌}

module _ {ℓ} {A : Type ℓ} where
  unfoldable pub insert_by_key : (A → ℕ) → A → List A → List A
  insert_by_key key a [] = a ∷ []
  insert_by_key key a (x ∷ xs) =
      let rest = insert_by_key key a xs in if leb (key a) (key x) then a ∷ x ∷ xs else x ∷ rest

  unfoldable pub sort_by_key : (A → ℕ) → List A → List A
  unfolding insert_by_key
  sort_by_key key [] = []
  sort_by_key key (x ∷ xs) = insert_by_key key x (sort_by_key key xs)

  -- each key is at most the next
  abbrev pub IsSortedBy : (A → ℕ) → List A → Type 0
  IsSortedBy key [] = Unit
  IsSortedBy key (x ∷ xs) = All (λ y. key x ≤ key y) xs × IsSortedBy key xs

  -- the elements of one key, in their order
  abbrev pub with_key : (A → ℕ) → ℕ → List A → List A
  with_key key k = keep (λ x. key x == k)

  All-insert :
      (key : A → ℕ) (n : ℕ) (a : A) (xs : List A)
      → n ≤ key a
      → All (λ y. n ≤ key y) xs
      → All (λ y. n ≤ key y) (insert_by_key key a xs)
  unfolding insert_by_key
  All-insert key n a [] h k = (h, tt)
  All-insert key n a (x ∷ xs) h k = ground (arith, All-insert key n a xs h k.1)

  All-le :
      (key : A → ℕ) (n m : ℕ) (xs : List A)
      → n ≤ m
      → All (λ y. m ≤ key y) xs
      → All (λ y. n ≤ key y) xs
  All-le key n m [] h k = tt
  All-le key n m (x ∷ xs) h k = (omega arith, All-le key n m xs h k.1)

  insert-IsSortedBy :
      (key : A → ℕ) (a : A) (xs : List A)
      → IsSortedBy key xs
      → IsSortedBy key (insert_by_key key a xs)
  unfolding insert_by_key
  insert-IsSortedBy key a [] h = (tt, tt)
  insert-IsSortedBy key a (x ∷ xs) h = elim (Bool-cases (leb (key a) (key x))) [
    | inl le ↦ rw le ((ground arith, All-le key (key a) (key x) xs (ground arith) h.0), h)
    | inr gt ↦
        rw gt (All-insert key (key x) a xs (ground arith) h.0, insert-IsSortedBy key a xs h.1)
  ]

  pub sort-IsSortedBy : (key : A → ℕ) (xs : List A) → IsSortedBy key (sort_by_key key xs)
  unfolding sort_by_key
  sort-IsSortedBy key [] = tt
  sort-IsSortedBy key (x ∷ xs) = insert-IsSortedBy key x _ (sort-IsSortedBy key xs)

  insert-with_key :
      (key : A → ℕ) (k : ℕ) (a : A) (xs : List A)
      → with_key key k (insert_by_key key a xs) ≡ with_key key k (a ∷ xs)
  unfolding insert_by_key
  insert-with_key key k a [] = refl
  insert-with_key key k a (x ∷ xs) = ground (arith, insert-with_key key k a xs)

  -- The sort is stable: it keeps the elements of each key, in their order.
  pub sort-with_key :
      (key : A → ℕ) (k : ℕ) (xs : List A) → with_key key k (sort_by_key key xs) ≡ with_key key k xs
  unfolding sort_by_key
  sort-with_key key k [] = refl
  sort-with_key key k (x ∷ xs) =
      insert-with_key key k x (sort_by_key key xs) ∙ rw (sort-with_key key k xs)

  length-insert :
      (key : A → ℕ) (a : A) (xs : List A) → length (insert_by_key key a xs) ≡ suc (length xs)
  unfolding insert_by_key
  length-insert key a [] = refl
  length-insert key a (x ∷ xs) = ground (arith, length-insert key a xs)

  pub length-sort : (key : A → ℕ) (xs : List A) → length (sort_by_key key xs) ≡ length xs
  unfolding sort_by_key
  length-sort key [] = refl
  length-sort key (x ∷ xs) = length-insert key x (sort_by_key key xs) ∙ ap suc (length-sort key xs)

  insert-sorted :
      (key : A → ℕ) (a : A) (xs : List A)
      → All (λ y. key a ≤ key y) xs
      → insert_by_key key a xs ≡ a ∷ xs
  unfolding insert_by_key
  insert-sorted key a [] h = refl
  insert-sorted key a (x ∷ xs) h = ground (arith, h.0)

  -- A sorted list stays as it is.
  pub sort-sorted : (key : A → ℕ) (xs : List A) → IsSortedBy key xs → sort_by_key key xs ≡ xs
  unfolding sort_by_key
  sort-sorted key [] h = refl
  sort-sorted key (x ∷ xs) h = rw (sort-sorted key xs h.1) (insert-sorted key x xs h.0)

  All-insert_by_key {κ} :
      (P : A → Type κ) (key : A → ℕ) (a : A) (xs : List A)
      → P a
      → All P xs
      → All P (insert_by_key key a xs)
  unfolding insert_by_key
  All-insert_by_key P key a [] h k = (h, tt)
  All-insert_by_key P key a (x ∷ xs) h k = elim (Bool-cases (leb (key a) (key x))) [
    | inl le ↦ rw le (h, k)
    | inr gt ↦ rw gt (k.0, All-insert_by_key P key a xs h k.1)
  ]

  -- What holds of all elements holds of them in any order.
  pub All-sort_by_key {κ} :
      (P : A → Type κ) (key : A → ℕ) (xs : List A) → All P xs → All P (sort_by_key key xs)
  unfolding sort_by_key
  All-sort_by_key P key [] h = tt
  All-sort_by_key P key (x ∷ xs) h =
      All-insert_by_key P key x (sort_by_key key xs) h.0 (All-sort_by_key P key xs h.1)
