-- ===== src/Tests/Blocks.antt =====
-- Replies of the node, the order of transactions, and batches of blocks.
use mathlib.Core.List.{Permᴰ}
use nns.Base.{All, List, [], arith, refl, replicate, ℕ, ◌-◌, ◌↔◌, ◌∷◌, ◌≡◌, ◌≤◌}
use nns.Base.Result.{collect, ok}
use nns.Base.Sort.{IsSortedBy, with_key}
use nns.Base.Table.{insert}
use nns.Base.Text.{Bytes, Str, codes}
use nns.Chain.Blocks.{ScanBlockFetch, validate_scan_block_chain}
use nns.Chain.Blocks.Linked.{BlockBytes, Follows, validate_scan_block_chain_iff}
use nns.Chain.Digest.{base58_hash_to_atom_bytes, tip5_hash_to_tx_atom_bytes}
use nns.Chain.Fetch.{
  fetch_block_transaction_details, fetch_with_retries, initial_delay_ms, max_attempts,
}
use nns.Chain.Fetch.Ordered.{Fetched, fetch_block_iff}
use nns.Chain.Fetch.Retry.{Awaited, fetch_with_retries-total, fetch_with_retries_iff, total}
use nns.Chain.TxOrder.{
  align_transaction_details_with_canonical_order, canonical_z_set_tx_order,
  sort_claims_by_z_set_tx_order,
}
use nns.Chain.TxOrder.Aligned.{IsPosition, align-ids, sort_claims-IsSortedBy}
use nns.Chain.TxOrder.Canonical.{canonical_z_set_tx_order-perm}
use nns.Kernel.Types.{ClaimCandidate, ClaimWitness}
use nns.Samples.Ledger.{sample_block, sample_details, sample_node, sample_tx, sample_z_set}
use nns.Samples.Sets.{two_digest_set, two_digest_set-perm}

abbrev endpoint : Str
endpoint = codes "http://node"

abbrev tx1 : Str
tx1 = codes "tx1"

-- the id of the sample transaction as an atom
abbrev tx1_atom : Bytes
tx1_atom = b't' ∷ b'x' ∷ b'1' ∷ replicate 37 0

aligned :
    align_transaction_details_with_canonical_order (tx1_atom ∷ []) (sample_details ∷ [])
    ≡ ok (sample_details ∷ [])
unfolding align_transaction_details_with_canonical_order sample_tx base58_hash_to_atom_bytes
    tip5_hash_to_tx_atom_bytes insert
aligned = refl

align-ids_example :
    collect (λ d. base58_hash_to_atom_bytes d.tx_id) (sample_details ∷ []) ≡ ok (tx1_atom ∷ [])
align-ids_example = align-ids (tx1_atom ∷ []) (sample_details ∷ []) (sample_details ∷ []) aligned

abbrev witness_of : Bytes → ClaimWitness
witness_of id = record { tx_id = id; spender_pkh = []; treasury_amount = 0; output_lock_root = [] }

abbrev claim_of : Bytes → ClaimCandidate
claim_of id = record {
  name = codes "a.nock";
  owner = codes "o";
  fee = 1;
  tx_hash = id;
  witness = witness_of id;
}

abbrev ids : List Bytes
ids = (1 ∷ []) ∷ (2 ∷ []) ∷ []

abbrev mixed : List ClaimCandidate
mixed = claim_of (2 ∷ []) ∷ claim_of (3 ∷ []) ∷ claim_of (1 ∷ []) ∷ []

abbrev in_rank : List ClaimCandidate
in_rank = claim_of (1 ∷ []) ∷ claim_of (2 ∷ []) ∷ claim_of (3 ∷ []) ∷ []

mixed-sorted : sort_claims_by_z_set_tx_order ⦃z = sample_z_set⦄ ids mixed ≡ ok in_rank
unfolding sort_claims_by_z_set_tx_order
mixed-sorted = refl

sort_claims-IsSortedBy_example :
    (canonical : List Bytes) × (position : ClaimCandidate → ℕ) × (canonical_z_set_tx_order
        ⦃z = sample_z_set⦄ ids
      ≡ ok canonical)
    × ((c : ClaimCandidate) → IsPosition canonical c.witness.tx_id (position c))
    × IsSortedBy position in_rank
    × ((k : ℕ) → with_key position k in_rank ≡ with_key position k mixed)
sort_claims-IsSortedBy_example = sort_claims-IsSortedBy ids mixed in_rank mixed-sorted

fetch_with_retries_iff_example :
    ((delays : List ℕ) × (fetch_with_retries ⦃node = sample_node⦄ endpoint tx1 23 0 80
        ≡ ok (sample_details, delays)))
    ↔ ((n : ℕ) × (n ≤ 23) × Awaited ⦃node = sample_node⦄ endpoint tx1 0 n sample_details)
fetch_with_retries_iff_example = fetch_with_retries_iff endpoint tx1 sample_details

one_retry :
    fetch_with_retries ⦃node = sample_node⦄ endpoint tx1 (max_attempts - 1) 0 initial_delay_ms
    ≡ ok (sample_details, 80 ∷ [])
unfolding fetch_with_retries sample_node
one_retry = refl

fetch_with_retries-total_example : total endpoint tx1 (80 ∷ []) ≤ 26437
fetch_with_retries-total_example =
    fetch_with_retries-total ⦃node = sample_node⦄ endpoint tx1 sample_details (80 ∷ []) one_retry

fetch_block_iff_example :
    (fetch_block_transaction_details ⦃node = sample_node⦄ endpoint sample_block
      ≡ ok (sample_details ∷ []))
    ↔ Fetched ⦃node = sample_node⦄ endpoint (tx1 ∷ []) (sample_details ∷ [])
fetch_block_iff_example =
    fetch_block_iff ⦃node = sample_node⦄ endpoint sample_block (sample_details ∷ [])

abbrev block_after : Bytes → Bytes → ScanBlockFetch
block_after parent digest = record {
  height = 1;
  page_digest = digest;
  parent = parent;
  page_tx_ids = [];
  tx_details = [];
}

abbrev two_blocks : List ScanBlockFetch
two_blocks = block_after (9 ∷ []) (5 ∷ []) ∷ block_after (5 ∷ 0 ∷ []) (6 ∷ []) ∷ []

two_blocks-bytes : All BlockBytes two_blocks
two_blocks-bytes = (
  record { digest_bytes = (omega arith, tt); parent_bytes = (omega arith, tt) },
  (
    record { digest_bytes = (omega arith, tt); parent_bytes = (omega arith, (omega arith, tt)) },
    tt,
  ),
)

validate_scan_block_chain_iff_example :
    (validate_scan_block_chain 0 [] two_blocks ≡ ok tt) ↔ Follows 0 [] two_blocks
validate_scan_block_chain_iff_example =
    validate_scan_block_chain_iff 0 [] two_blocks tt two_blocks-bytes

abbrev id_one : Bytes
id_one = 1 ∷ replicate 39 0

abbrev id_two : Bytes
id_two = 2 ∷ replicate 39 0

-- two ids in the other order
ids-ordered :
    canonical_z_set_tx_order ⦃z = two_digest_set⦄ (id_two ∷ id_one ∷ []) ≡ ok (id_one ∷ id_two ∷ [])
unfolding canonical_z_set_tx_order two_digest_set
ids-ordered = refl

canonical_z_set_tx_order-perm_example :
    canonical_z_set_tx_order ⦃z = two_digest_set⦄ (id_two ∷ id_one ∷ [])
    ≡ canonical_z_set_tx_order ⦃z = two_digest_set⦄ (id_one ∷ id_two ∷ [])
canonical_z_set_tx_order-perm_example =
    canonical_z_set_tx_order-perm ⦃z = two_digest_set⦄ (id_two ∷ id_one ∷ []) (id_one ∷ id_two ∷ [])
      two_digest_set-perm (Permᴰ.swap refl refl) refl
