-- ===== src/Chain/TxOrder/Aligned.antt =====
-- The details that belong to the ids, and the order of the claims.
use mathlib.Core.Path.{subst}
use nns.Base.{
  =?_iff, Bool-cases, List, Option, Option-cases, [], ap, arith, false, inl, inr, length, none,
  refl, some, suc, sym, u64_max, ℕ, ◌++◌, ◌+◌, ◌=?◌, ◌∙◌, ◌∷◌, ◌≡◌, ◌⊎◌,
}
use nns.Base.Result.{>>=-eq-ok, collect, ok, ok-injective, ok_or, ok_or-eq-ok}
use nns.Base.Sort.{IsSortedBy, sort-IsSortedBy, sort-with_key, with_key}
use nns.Base.Table.{AllEntries, Table, delete, delete-AllEntries, insert, lookup, lookup-AllEntries}
use nns.Base.Text.{Bytes}
use nns.Chain.Digest.{base58_hash_to_atom_bytes}
use nns.Chain.TxOrder.{
  ZSetLib, align_transaction_details_with_canonical_order, canonical_z_set_tx_order, claim_rank,
  index_details, member, rank_of, refuse_strays, sort_claims_by_z_set_tx_order, take_in_order,
}
use nns.Kernel.Types.{ClaimCandidate}
use nns.Payment.{TxLib}
use nns.Rpc.{TransactionDetails}

module _ ⦃tx : TxLib⦄ where
  -- an entry's key is the id of its details
  abbrev HasId : Bytes → TransactionDetails → Type 0
  HasId id d = base58_hash_to_atom_bytes d.tx_id ≡ ok id

  index_details-HasId :
      (ds : List TransactionDetails) (by_id out : Table TransactionDetails)
      → AllEntries HasId by_id
      → index_details ds by_id ≡ ok out
      → AllEntries HasId out
  unfolding index_details insert
  index_details-HasId [] by_id out h e = subst (AllEntries HasId) (ok-injective e) h
  index_details-HasId (d ∷ ds) by_id out h e =
      let (id, hd, e1) = >>=-eq-ok (base58_hash_to_atom_bytes d.tx_id) _ e in
      index_details-HasId ds (insert id d by_id) out (hd, delete-AllEntries HasId id by_id h) e1

  take_in_order-ids :
      (ids : List Bytes) (by_id : Table TransactionDetails)
      (out : List TransactionDetails × Table TransactionDetails)
      → AllEntries HasId by_id
      → take_in_order ids by_id ≡ ok out
      → collect (λ d. base58_hash_to_atom_bytes d.tx_id) out.0 ≡ ok ids
  unfolding take_in_order
  take_in_order-ids [] by_id out h e = rw (← ok-injective e) refl
  take_in_order-ids (id ∷ ids) by_id out h e =
      let (d, hd, e1) = >>=-eq-ok (ok_or (lookup id by_id) _) _ e in
      let (rest, hr, e2) = >>=-eq-ok (take_in_order ids (delete id by_id)) _ e1 in
      let found : lookup id by_id ≡ some d = ok_or-eq-ok _ _ hd in
      let ih =
        take_in_order-ids ids (delete id by_id) rest (delete-AllEntries HasId id by_id h) hr in
      rw (← ok-injective e2, lookup-AllEntries HasId id by_id d h found, ih) refl

  refuse_strays-ok :
      (p : List TransactionDetails × Table TransactionDetails) (out : List TransactionDetails)
      → refuse_strays p ≡ ok out
      → (p.0 ≡ out) × (p.1 ≡ [])
  refuse_strays-ok (ordered, []) out e = (ok-injective e, refl)
  refuse_strays-ok (ordered, x ∷ xs) out e = cc

  -- When the alignment succeeds, the details that it returns are those of the ids, one for each id
  -- and in the order of the ids.
  pub align-ids :
      (ids : List Bytes) (details out : List TransactionDetails)
      → align_transaction_details_with_canonical_order ids details ≡ ok out
      → collect (λ d. base58_hash_to_atom_bytes d.tx_id) out ≡ ok ids
  unfolding align_transaction_details_with_canonical_order
  align-ids ids details out e =
      let (by_id, h1, e1) = >>=-eq-ok (index_details details []) _ e in
      let (p, h2, e2) = >>=-eq-ok (take_in_order ids by_id) _ e1 in
      let (same, _) = refuse_strays-ok p out e2 in
      subst (λ o. collect (λ d. base58_hash_to_atom_bytes d.tx_id) o ≡ ok ids) same
        (take_in_order-ids ids by_id p (index_details-HasId details [] by_id tt h1) h2)

-- The position of an id: that of the last place where it stands, and the largest number if it
-- stands nowhere.
pub IsPosition : List Bytes → Bytes → ℕ → Type 0
IsPosition ids id n =
    ((before : List Bytes) × (after : List Bytes) × (ids ≡ before ++ (id ∷ after))
      × (member id after ≡ false)
      × (n ≡ length before))
    ⊎ ((member id ids ≡ false) × (n ≡ u64_max))

-- what the loop over the ids from number `i` on finds
Found : ℕ → List Bytes → Bytes → Option ℕ → Type 0
Found i ids id none = member id ids ≡ false
Found i ids id (some n) =
    (before : List Bytes) × (after : List Bytes) × (ids ≡ before ++ (id ∷ after))
    × (member id after ≡ false)
    × (n ≡ i + length before)

rank_of-Found : (id : Bytes) (i : ℕ) (ids : List Bytes) → Found i ids id (rank_of id i ids)
unfolding Found rank_of
rank_of-Found id i [] = refl
rank_of-Found id i (k ∷ ks) =
    let ih = rank_of-Found id (suc i) ks in
    elim (Option-cases (rank_of id (suc i) ks)) [
      | inl e ↦
          let ahead : member id ks ≡ false = subst (Found (suc i) ks id) e ih in
          elim (Bool-cases (k =? id)) [
            | inl same ↦
                let k_id = (=?_iff k id).0 same in
                rw (e, same) ([], ks, ap (λ x. x ∷ ks) k_id, ahead, omega arith)
            | inr other ↦
                let nowhere : member id (k ∷ ks) ≡ false = rw other ahead in rw (e, other) nowhere
          ]
      | inr (n, e) ↦
          let (before, after, at_, last, n_eq) = subst (Found (suc i) ks id) e ih in
          rw e (k ∷ before, after, ap (λ xs. k ∷ xs) at_, last, omega arith)
    ]

claim_rank-IsPosition :
    (ids : List Bytes) (c : ClaimCandidate) → IsPosition ids c.witness.tx_id (claim_rank ids c)
unfolding IsPosition Found claim_rank
claim_rank-IsPosition ids c =
    let found = rank_of-Found c.witness.tx_id 0 ids in
    elim (Option-cases (rank_of c.witness.tx_id 0 ids)) [
      | inl e ↦ rw e (inr (subst (Found 0 ids c.witness.tx_id) e found, refl))
      | inr (n, e) ↦
          let (before, after, at_, last, n_eq) = subst (Found 0 ids c.witness.tx_id) e found in
          rw e (inl (before, after, at_, last, omega arith))
    ]

module _ ⦃z : ZSetLib⦄ where
  -- The claims come back sorted by the position of their transaction in the canonical order of the
  -- block, those of transactions that are not in the block at the end, and the claims of one
  -- position are the same ones in the order in which they were.
  pub sort_claims-IsSortedBy :
      (ids : List Bytes) (claims out : List ClaimCandidate)
      → sort_claims_by_z_set_tx_order ids claims ≡ ok out
      → (canonical : List Bytes) × (position : ClaimCandidate → ℕ) × (canonical_z_set_tx_order ids
          ≡ ok canonical)
        × ((c : ClaimCandidate) → IsPosition canonical c.witness.tx_id (position c))
        × IsSortedBy position out
        × ((k : ℕ) → with_key position k out ≡ with_key position k claims)
  unfolding sort_claims_by_z_set_tx_order
  sort_claims-IsSortedBy ids claims out e =
      let (canonical, h, e1) = >>=-eq-ok (canonical_z_set_tx_order ids) _ e in
      let same = ok-injective e1 in
      (
        canonical,
        claim_rank canonical,
        h,
        claim_rank-IsPosition canonical,
        subst (IsSortedBy (claim_rank canonical)) same
            (sort-IsSortedBy (claim_rank canonical) claims),
        λ k.
            ap (with_key (claim_rank canonical) k) (sym same)
            ∙ sort-with_key (claim_rank canonical) k claims,
      )
