-- ===== src/Chain/TxOrder.antt =====
-- The order of a block's transactions: that of Hoon's z-set of transaction ids.
pub mod Aligned
pub mod Canonical
use mathlib.Core.Option
use nns.Base.{
  Bool, List, Option, [], any, if◌then◌else◌, is_empty, length, ltb, map, min, none, not, some, suc,
  take, u64_max, ℕ, ◌++◌, ◌==◌, ◌=?◌, ◌∷◌, ◌≡◌,
}
use nns.Base.Result.{
  Result, both, collect, err, ok, ok_or, or_context, text, text_num, text_str, ◌>>=◌,
}
use nns.Base.Sort.{sort_by_key}
use nns.Base.Table.{Table, delete, insert, lookup}
use nns.Base.Text.{Bytes, Str}
use nns.Chain.Digest.{
  base58_hash_to_atom_bytes, tip5_hash_to_tx_atom_bytes, tx_atom_bytes_to_tip5_hash,
}
use nns.Hex.{hex_encode}
use nns.Kernel.Types.{ClaimCandidate}
use nns.Payment.{Tip5Hash, TxLib}
use nns.Rpc.{TransactionDetails}

-- `ZSet::try_from_items` and `into_items`. The items are the elements of the list.
pub record ZSetLib : Type 0 where
  pub z_set_items : List Tip5Hash → Result (List Tip5Hash)
  pub z_set_items-any :
      (p : Tip5Hash → Bool) (hs : List Tip5Hash) {items : List Tip5Hash}
      → z_set_items hs ≡ ok items
      → any p items ≡ any p hs

abbrev pub member : Bytes → List Bytes → Bool
member id ids = any (λ other. other =? id) ids

-- the loop over `seen`: the first id that is already there
unfoldable pub find_duplicate : List Bytes → List Bytes → Option Bytes
unfolding ◌=?◌
find_duplicate seen [] = none
find_duplicate seen (id ∷ ids) =
    let rest = find_duplicate (id ∷ seen) ids in if member id seen then some id else rest

abbrev pub is_stub : Bytes → Bool
is_stub id = not (length id == 40)

module _ ⦃z : ZSetLib⦄ where
  -- the items of the set
  unfoldable pub name_items : Result (List Tip5Hash) → Result (List Bytes)
  unfolding tip5_hash_to_tx_atom_bytes
  name_items items =
      or_context items "z-set tx-id build failed" >>= λ hs. ok (map tip5_hash_to_tx_atom_bytes hs)

  -- a duplicate is refused
  unfoldable pub unless_duplicate : List Bytes → Option Bytes → Result (List Bytes)
  unfolding name_items tx_atom_bytes_to_tip5_hash
  unless_duplicate page_tx_ids (some id) =
      err
        (both (text_num "duplicate tx-id in block page_tx_ids list (" (length id)) (text " bytes)"))
  unless_duplicate page_tx_ids none =
      collect tx_atom_bytes_to_tip5_hash page_tx_ids >>= λ hashes. name_items (z.z_set_items hashes)

  -- a list of full ids
  unfoldable pub z_set_order : List Bytes → Result (List Bytes)
  unfolding find_duplicate unless_duplicate
  z_set_order page_tx_ids = unless_duplicate page_tx_ids (find_duplicate [] page_tx_ids)

  unfoldable pub canonical_z_set_tx_order : List Bytes → Result (List Bytes)
  unfolding z_set_order
  canonical_z_set_tx_order page_tx_ids =
      if is_empty page_tx_ids
      then ok []
      else if any is_stub page_tx_ids
      then ok page_tx_ids
      else z_set_order page_tx_ids

-- `hex_prefix`: the ellipsis stands for the bytes that are not shown
unfoldable pub hex_prefix : Bytes → ℕ → Str
unfolding hex_encode
hex_prefix bytes n =
    let hex = hex_encode (take (min n (length bytes)) bytes) in
    if ltb (min n (length bytes)) (length bytes) then hex ++ (0x2026 ∷ []) else hex

module _ ⦃tx : TxLib⦄ where
  -- the first loop: the details by their ids
  unfoldable pub index_details :
      List TransactionDetails → Table TransactionDetails → Result (Table TransactionDetails)
  unfolding base58_hash_to_atom_bytes insert
  index_details [] by_id = ok by_id
  index_details (d ∷ ds) by_id =
      base58_hash_to_atom_bytes d.tx_id >>= λ id. index_details ds (insert id d by_id)

  -- the second loop: one detail for each id, and what is left over
  unfoldable pub take_in_order :
      List Bytes
      → Table TransactionDetails
      → Result (List TransactionDetails × Table TransactionDetails)
  unfolding lookup delete hex_prefix
  take_in_order [] by_id = ok ([], by_id)
  take_in_order (id ∷ ids) by_id = do
    d ← ok_or (lookup id by_id) (
        both (text_str "missing TransactionDetails for tx atom " (hex_prefix id 8))
          (text " (align with block tx_ids)"))
    rest ← take_in_order ids (delete id by_id)
    ok (d ∷ rest.0, rest.1)

  abbrev pub refuse_strays :
      List TransactionDetails × Table TransactionDetails → Result (List TransactionDetails)
  refuse_strays (ordered, by_id) =
      if is_empty by_id
      then ok ordered
      else err (
          both (text_num "extra TransactionDetails not listed in page_tx_ids (" (length by_id))
            (text " stray)"))

  unfoldable pub align_transaction_details_with_canonical_order :
      List Bytes → List TransactionDetails → Result (List TransactionDetails)
  unfolding index_details take_in_order
  align_transaction_details_with_canonical_order canonical_tx_atoms tx_details = do
    by_id ← index_details tx_details []
    both_parts ← take_in_order canonical_tx_atoms by_id
    refuse_strays both_parts

module _ ⦃tx : TxLib⦄ ⦃z : ZSetLib⦄ where
  unfoldable pub align_scan_block_fetch_tx_order :
      List Bytes → List TransactionDetails → Result (List Bytes × List TransactionDetails)
  unfolding canonical_z_set_tx_order align_transaction_details_with_canonical_order
  align_scan_block_fetch_tx_order page_tx_ids tx_details = do
    canonical_ids ← canonical_z_set_tx_order page_tx_ids
    details ← align_transaction_details_with_canonical_order canonical_ids tx_details
    ok (canonical_ids, details)

-- `rank`: the position of an id, the last one if it stands there more than once, and
-- `usize::MAX` if it does not
unfoldable pub rank_of : Bytes → ℕ → List Bytes → Option ℕ
unfolding ◌=?◌
rank_of id i [] = none
rank_of id i (k ∷ ks) = elim (rank_of id (suc i) ks) [
  | some j ↦ some j
  | none ↦ if k =? id then some i else none
]

unfoldable pub claim_rank : List Bytes → ClaimCandidate → ℕ
unfolding rank_of
claim_rank canonical c = Option.get_or (rank_of c.witness.tx_id 0 canonical) u64_max

module _ ⦃z : ZSetLib⦄ where
  unfoldable pub sort_claims_by_z_set_tx_order :
      List Bytes → List ClaimCandidate → Result (List ClaimCandidate)
  unfolding canonical_z_set_tx_order claim_rank sort_by_key
  sort_claims_by_z_set_tx_order page_tx_ids claims = do
    canonical ← canonical_z_set_tx_order page_tx_ids
    ok (sort_by_key (claim_rank canonical) claims)
