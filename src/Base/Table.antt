-- ===== src/Base/Table.antt =====
-- `HashMap<Vec<u8>, V>` and `HashSet<Vec<u8>>`, as association lists with one entry for a key.
use mathlib.Core.List.{List, [], ◌∷◌}
use mathlib.Core.Logic.{inl, inr}
use mathlib.Core.Option.{Option, none, some}
use mathlib.Core.Path.{subst, ◌≡◌}
use nns.Base.Tests.{=?_iff, Bool-cases, if◌then◌else◌, ◌=?◌}
use nns.Base.Text.{Bytes}

abbrev pub Table {ℓ} : Type ℓ → Type ℓ
Table V = List (Bytes × V)

module _ {ℓ} {V : Type ℓ} where
  unfoldable pub lookup : Bytes → Table V → Option V
  unfolding ◌=?◌
  lookup k [] = none
  lookup k ((j, v) ∷ m) = let rest = lookup k m in if j =? k then some v else rest

  -- the table without the key
  unfoldable pub delete : Bytes → Table V → Table V
  unfolding ◌=?◌
  delete k [] = []
  delete k ((j, v) ∷ m) = let rest = delete k m in if j =? k then rest else (j, v) ∷ rest

  -- `insert` replaces the value that the key had
  unfoldable pub insert : Bytes → V → Table V → Table V
  unfolding delete
  insert k v m = (k, v) ∷ delete k m

  -- what every entry satisfies
  abbrev pub AllEntries {κ} : (Bytes → V → Type κ) → Table V → Type κ
  AllEntries P [] = Unit
  AllEntries P ((k, v) ∷ m) = P k v × AllEntries P m

  pub delete-AllEntries {κ} :
      (P : Bytes → V → Type κ) (k : Bytes) (m : Table V)
      → AllEntries P m
      → AllEntries P (delete k m)
  unfolding delete
  delete-AllEntries P k [] h = tt
  delete-AllEntries P k ((j, v) ∷ m) h = elim (Bool-cases (j =? k)) [
    | inl e ↦ rw e (delete-AllEntries P k m h.1)
    | inr e ↦ rw e (h.0, delete-AllEntries P k m h.1)
  ]

  pub lookup-AllEntries {κ} :
      (P : Bytes → V → Type κ) (k : Bytes) (m : Table V) (v : V)
      → AllEntries P m
      → lookup k m ≡ some v
      → P k v
  unfolding lookup
  lookup-AllEntries P k [] v h e = cc
  lookup-AllEntries P k ((j, w) ∷ m) v h e = elim (Bool-cases (j =? k)) [
    | inl same ↦
        let w_v : w ≡ v = cc (rw same at e) in
        let j_k = (=?_iff j k).0 same in subst (λ x. P x v) j_k (subst (P j) w_v h.0)
    | inr other ↦ lookup-AllEntries P k m v h.1 (rw other at e)
  ]
