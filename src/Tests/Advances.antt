-- ===== src/Tests/Advances.antt =====
-- A round that moves on.
use nns.Base.{[], arith, none, refl, replicate, some, ◌∷◌, ◌≡◌}
use nns.Base.Result.{ok}
use nns.Base.Text.{codes, from_utf8, utf8}
use nns.Chain.Blocks.{ScanBlockFetch, prefetch_scan_blocks_for_heights, validate_scan_block_chain}
use nns.Chain.Digest.{scan_cursor_is_genesis_boot}
use nns.Chain.Queries.{fetch_current_tip_height}
use nns.Chain.TxOrder.{canonical_z_set_tx_order}
use nns.Follower.Apply.Progress.{last_report}
use nns.Follower.Block.{block_claims}
use nns.Follower.Claims.{extract_claims}
use nns.Follower.Monad.{World}
use nns.Follower.Scan.{batch_heights, next_height}
use nns.Follower.Tick.{Pause, tick, yield_now}
use nns.Follower.Tick.Advances.{Ready, tick-advances}
use nns.Kernel.Effects.{error_message, scan_block_done, scan_block_error}
use nns.Kernel.Peeks.{decode_scan_state, peek_unwrap_some}
use nns.Noun.{as_ne_bytes, as_u64, head, is_atom, tail, uncons}
use nns.Payment.{fee_for_name, output_amount_nicks, output_pays_treasury_v1}
use nns.Samples.Belts.{sample_belts}
use nns.Samples.Kernels.{sample_cursor, sample_env, sample_kernel, sample_report, sample_world}
use nns.Samples.Ledger.{sample_details, sample_node, sample_notes, sample_tx, sample_z_set}
use nns.Samples.Nouns.{sample_nouns}
use nns.Tests.Follow.{alice_claim, tx1_atom}
use nns.Tests.Progress.{before_next, next_done}

abbrev served_block : ScanBlockFetch
served_block = record {
  height = 63000;
  page_digest = 5 ∷ replicate 39 0;
  parent = 4 ∷ replicate 39 0;
  page_tx_ids = tx1_atom ∷ [];
  tx_details = sample_details ∷ [];
}

block-served :
    prefetch_scan_blocks_for_heights ⦃node = sample_node⦄ ⦃tx = sample_tx⦄ ⦃z = sample_z_set⦄
      (codes "http://node")
      (batch_heights none 63000 63000)
    ≡ ok (served_block ∷ [])
unfolding prefetch_scan_blocks_for_heights batch_heights sample_node sample_tx sample_nouns utf8
block-served = refl

sample_world-Ready :
    Ready ⦃k = sample_kernel⦄ ⦃lib = sample_nouns⦄ ⦃node = sample_node⦄ ⦃tx = sample_tx⦄
      ⦃z = sample_z_set⦄ ⦃belt = sample_belts⦄ ⦃notes = sample_notes⦄ sample_env sample_world
      served_block [] next_done
unfolding sample_node sample_tx sample_notes sample_belts fetch_current_tip_height next_height
    sample_nouns peek_unwrap_some is_atom tail head as_ne_bytes scan_block_error from_utf8 utf8
    error_message scan_block_done extract_claims canonical_z_set_tx_order block_claims
    decode_scan_state as_u64 uncons validate_scan_block_chain scan_cursor_is_genesis_boot
    fee_for_name output_pays_treasury_v1 output_amount_nicks
sample_world-Ready = record {
  endpoint = codes "http://node";
  cursor_state = before_next;
  tip = 63010;
  not_local = refl;
  configured = refl;
  cursor = record { noun = sample_cursor; peeked = refl; decoded_state = refl };
  after_boot = refl;
  tip_known = refl;
  deep = omega arith;
  final_next = omega arith;
  served = block-served;
  chained = refl;
  reported = last_report (record {
    page_tx = tx1_atom ∷ [];
    claims = alice_claim ∷ [];
    effects = sample_report ∷ [];
    canonical = refl;
    claims_of = refl;
    poked = refl;
    no_scan_error = refl;
    no_error = refl;
    reported = refl;
  });
}

abbrev advanced : Pause × World (Unit {0})
unfolding tick
advanced =
    tick ⦃k = sample_kernel⦄ ⦃lib = sample_nouns⦄ ⦃node = sample_node⦄ ⦃tx = sample_tx⦄
      ⦃z = sample_z_set⦄ ⦃belt = sample_belts⦄ ⦃notes = sample_notes⦄ sample_env sample_world

tick-advances_example :
    (advanced.0 ≡ yield_now)
    × (advanced.1.hull.follower.last_advance_tip_height ≡ some 63000)
    × (advanced.1.hull.follower.last_advance_count ≡ some 1)
    × (advanced.1.hull.follower.last_error ≡ none)
unfolding advanced
tick-advances_example =
    tick-advances ⦃k = sample_kernel⦄ ⦃lib = sample_nouns⦄ ⦃node = sample_node⦄ ⦃tx = sample_tx⦄
      ⦃z = sample_z_set⦄ ⦃belt = sample_belts⦄ ⦃notes = sample_notes⦄ sample_env served_block []
      next_done sample_world sample_world-Ready
