-- ===== src/Tests/Follow.antt =====
-- Claims, scans and rounds of the follower.
use nns.Base.{
  All, [], arith, length, min, none, refl, replicate, some, suc, ◌-◌, ◌∷◌, ◌≡◌, ◌≤◌, ◌⊎◌,
}
use nns.Base.Result.{ok}
use nns.Base.Text.{Bytes, codes, from_utf8, utf8}
use nns.Chain.Blocks.{ScanBlockFetch, validate_scan_block_chain}
use nns.Follower.Apply.{ScanBlockOutcome, apply_prefetched_scan_blocks_inner, outcome}
use nns.Follower.Apply.Applied.{Cursor, Run, apply_prefetched-Run}
use nns.Follower.Apply.Guarded.{OnCursor, Untouched, apply_prefetched-guarded}
use nns.Follower.Claims.{extract_claims}
use nns.Follower.Claims.Extracted.{Among, ClaimOf, extract_claims-ClaimOf}
use nns.Follower.Monad.{World}
use nns.Follower.Scan.{batch_heights, follower_scan_batch_blocks}
use nns.Follower.Scan.Planned.{Consecutive, batch_heights-bounds}
use nns.Kernel.Effects.{error_message, scan_block_done, scan_block_error}
use nns.Kernel.Peeks.{peek_unwrap_some}
use nns.Kernel.Types.{ClaimCandidate, ScanBlockDone, ScanState}
use nns.Noun.{as_ne_bytes, head, is_atom, tail}
use nns.Payment.{fee_for_name, output_amount_nicks, output_pays_treasury_v1, treasury_lock_root_b58}
use nns.Samples.Belts.{sample_belts}
use nns.Samples.Kernels.{sample_env, sample_kernel, sample_world}
use nns.Samples.Ledger.{sample_details, sample_node, sample_notes, sample_tx, sample_z_set}
use nns.Samples.Nouns.{sample_nouns}

abbrev pub tx1_atom : Bytes
tx1_atom = b't' ∷ b'x' ∷ b'1' ∷ replicate 37 0

abbrev pub alice_claim : ClaimCandidate
alice_claim = record {
  name = codes "longername.nock";
  owner = codes "alice";
  fee = 6553600;
  tx_hash = tx1_atom;
  witness = record {
    tx_id = tx1_atom;
    spender_pkh = codes "alice";
    treasury_amount = 6553600;
    output_lock_root = treasury_lock_root_b58;
  };
}

alice-extracted :
    extract_claims ⦃belt = sample_belts⦄ ⦃notes = sample_notes⦄ (sample_details ∷ [])
    ≡ ok (alice_claim ∷ [])
unfolding extract_claims sample_tx sample_nouns sample_belts sample_notes from_utf8 fee_for_name
    utf8 output_pays_treasury_v1 output_amount_nicks
alice-extracted = refl

extract_claims-ClaimOf_example :
    All (λ c. Among (λ t. ClaimOf t c) (sample_details ∷ [])) (alice_claim ∷ [])
extract_claims-ClaimOf_example =
    extract_claims-ClaimOf ⦃belt = sample_belts⦄ ⦃notes = sample_notes⦄ (sample_details ∷ [])
      (alice_claim ∷ []) alice-extracted

abbrev pub next_block : ScanBlockFetch
next_block = record {
  height = 63000;
  page_digest = 5 ∷ [];
  parent = 4 ∷ [];
  page_tx_ids = [];
  tx_details = [];
}

abbrev report : ScanBlockOutcome
report = record { height = 63000; digest = 5 ∷ []; accumulator_root = 7 ∷ []; blocks_applied = 1 }

abbrev world_after : World (Unit {0})
world_after = record sample_world { scans_since_checkpoint = 1; readings = 1 }

next_block-applied :
    apply_prefetched_scan_blocks_inner ⦃k = sample_kernel⦄ ⦃node = sample_node⦄ ⦃tx = sample_tx⦄
      ⦃z = sample_z_set⦄ ⦃belt = sample_belts⦄ ⦃notes = sample_notes⦄ sample_env
      (next_block ∷ [])
      none
      none
      sample_world
    ≡ (ok (some report), world_after)
unfolding apply_prefetched_scan_blocks_inner sample_nouns peek_unwrap_some is_atom tail head
    as_ne_bytes scan_block_error from_utf8 utf8 error_message scan_block_done
next_block-applied = refl

apply_prefetched-Run_example :
    (s : ScanState) × (done : ScanBlockDone) × Cursor ⦃k = sample_kernel⦄ ⦃node = sample_node⦄
      ⦃tx = sample_tx⦄ ⦃z = sample_z_set⦄ ⦃belt = sample_belts⦄ ⦃notes = sample_notes⦄ sample_env
      sample_world s
    × (validate_scan_block_chain s.last_proved_height s.last_proved_digest (next_block ∷ [])
        ≡ ok tt)
    × Run ⦃k = sample_kernel⦄ ⦃node = sample_node⦄ ⦃tx = sample_tx⦄ ⦃z = sample_z_set⦄
        ⦃belt = sample_belts⦄ ⦃notes = sample_notes⦄ sample_env none sample_world 0
        (next_block ∷ [])
        done
    × (some report ≡ some (outcome done 1))
apply_prefetched-Run_example =
    apply_prefetched-Run ⦃k = sample_kernel⦄ ⦃node = sample_node⦄ ⦃tx = sample_tx⦄
      ⦃z = sample_z_set⦄ ⦃belt = sample_belts⦄ ⦃notes = sample_notes⦄ sample_env next_block [] none
      none (some report) sample_world world_after next_block-applied

-- a block whose parent is not the cursor's digest
abbrev forked_block : ScanBlockFetch
forked_block = record next_block { parent = 3 ∷ [] }

apply_prefetched-guarded_example :
    Untouched sample_world
      (apply_prefetched_scan_blocks_inner ⦃k = sample_kernel⦄ ⦃node = sample_node⦄ ⦃tx = sample_tx⦄
        ⦃z = sample_z_set⦄ ⦃belt = sample_belts⦄ ⦃notes = sample_notes⦄ sample_env
        (forked_block ∷ [])
        none
        none
        sample_world).1
    ⊎ OnCursor ⦃k = sample_kernel⦄ ⦃node = sample_node⦄ ⦃tx = sample_tx⦄ ⦃z = sample_z_set⦄
        ⦃belt = sample_belts⦄ ⦃notes = sample_notes⦄ sample_env
        (forked_block ∷ [])
        sample_world
apply_prefetched-guarded_example =
    apply_prefetched-guarded ⦃k = sample_kernel⦄ ⦃node = sample_node⦄ ⦃tx = sample_tx⦄
      ⦃z = sample_z_set⦄ ⦃belt = sample_belts⦄ ⦃notes = sample_notes⦄ sample_env (forked_block ∷ [])
      none none sample_world

batch_heights-bounds_example :
    Consecutive 63000 (batch_heights none 63000 63001)
    × All (λ h. (63000 ≤ h) × (h ≤ 63001)) (batch_heights none 63000 63001)
    × (length (batch_heights none 63000 63001)
        ≡ min (follower_scan_batch_blocks none) (suc 63001 - 63000))
batch_heights-bounds_example = batch_heights-bounds none 63000 63001 (omega arith) (omega arith)
