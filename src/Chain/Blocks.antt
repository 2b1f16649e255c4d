-- ===== src/Chain/Blocks.antt =====
-- The inputs of a scan step, their prefetch, and the check that they are a chain.
pub mod Linked
pub mod Fetched
pub mod Chained
use nns.Base.{Bool, List, [], false, if◌then◌else◌, is_empty, not, ℕ, ◌&&◌, ◌∷◌}
use nns.Base.Result.{Result, both, collect, err, ok, ok_or, text, text_num, ◌>>=◌}
use nns.Base.Sort.{sort_by_key}
use nns.Base.Text.{Bytes, Str}
use nns.Chain.Digest.{
  hash_to_atom_bytes, scan_cursor_is_genesis_boot, tip5_atom_semantic_eq, tx_ids_from_block_details,
}
use nns.Chain.Fetch.{fetch_block_transaction_details}
use nns.Chain.Node.{NodeApi, tx_details}
use nns.Chain.Queries.{fetch_block_details_by_height}
use nns.Chain.TxOrder.{ZSetLib, align_scan_block_fetch_tx_order}
use nns.Payment.{TxLib}
use nns.Rpc.{TransactionDetails}

pub record ScanBlockFetch : Type 0 where
  pub height : ℕ
  pub page_digest : Bytes
  pub parent : Bytes
  pub page_tx_ids : List Bytes
  pub tx_details : List TransactionDetails

module _ ⦃node : NodeApi⦄ ⦃tx : TxLib⦄ ⦃z : ZSetLib⦄ where
  unfoldable pub fetch_scan_block_inputs : Str → ℕ → Result ScanBlockFetch
  unfolding fetch_block_details_by_height hash_to_atom_bytes tx_ids_from_block_details
      fetch_block_transaction_details align_scan_block_fetch_tx_order
  fetch_scan_block_inputs endpoint height = do
    details ← fetch_block_details_by_height endpoint height
    page_digest_atom ←
        ok_or details.block_id (both (text_num "block " height) (text " missing block_id"))
    parent_atom ← ok_or details.parent (both (text_num "block " height) (text " missing parent"))
    page_tx_ids ← tx_ids_from_block_details details
    all_details ← fetch_block_transaction_details endpoint details
    aligned ← align_scan_block_fetch_tx_order page_tx_ids all_details
    ok (record {
      height = details.height;
      page_digest = hash_to_atom_bytes page_digest_atom;
      parent = hash_to_atom_bytes parent_atom;
      page_tx_ids = aligned.0;
      tx_details = aligned.1;
    })

  -- `prefetch_scan_blocks_for_heights` and its inner function: parallel tasks, joined in order
  unfoldable pub prefetch_scan_blocks_for_heights : Str → List ℕ → Result (List ScanBlockFetch)
  unfolding fetch_scan_block_inputs sort_by_key
  prefetch_scan_blocks_for_heights endpoint heights = if is_empty heights then ok [] else (do
    blocks ← collect (fetch_scan_block_inputs endpoint) heights
    ok (sort_by_key (λ b. b.height) blocks))

-- the loop: `skip` is `genesis_boot && i == 0`, and `expected` is `exp`
unfoldable pub check_parents : Bool → Bytes → List ScanBlockFetch → Result (Unit {0})
unfolding tip5_atom_semantic_eq
check_parents skip expected [] = ok tt
check_parents skip expected (b ∷ bs) =
    let rest = check_parents false b.page_digest bs in
    if not skip && not (tip5_atom_semantic_eq b.parent expected)
    then err (
        both (text_num "prefetched scan batch parent mismatch at height " b.height)
          (text " (RPC skew or fork)"))
    else rest

unfoldable pub validate_scan_block_chain : ℕ → Bytes → List ScanBlockFetch → Result (Unit {0})
unfolding scan_cursor_is_genesis_boot check_parents
validate_scan_block_chain last_proved_height last_proved_digest blocks =
    check_parents (scan_cursor_is_genesis_boot last_proved_height last_proved_digest)
      last_proved_digest blocks
