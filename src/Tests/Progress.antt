-- ===== src/Tests/Progress.antt =====
-- A batch that is applied.
use nns.Base.{[], none, refl, some, ◌∷◌, ◌≡◌}
use nns.Base.Result.{ok}
use nns.Base.Text.{from_utf8, utf8}
use nns.Chain.Blocks.{validate_scan_block_chain}
use nns.Chain.TxOrder.{canonical_z_set_tx_order}
use nns.Follower.Apply.{apply_prefetched_scan_blocks_inner, outcome}
use nns.Follower.Apply.Applied.{Cursor}
use nns.Follower.Apply.Progress.{Reported, apply_prefetched-progress, last_report}
use nns.Follower.Block.{block_claims}
use nns.Follower.Claims.{extract_claims}
use nns.Follower.Monad.{World}
use nns.Kernel.Effects.{error_message, scan_block_done, scan_block_error}
use nns.Kernel.Peeks.{decode_scan_state, peek_unwrap_some}
use nns.Kernel.Types.{ScanBlockDone, ScanState}
use nns.Noun.{as_ne_bytes, as_u64, head, is_atom, tail, uncons}
use nns.Samples.Belts.{sample_belts}
use nns.Samples.Kernels.{sample_cursor, sample_env, sample_kernel, sample_report, sample_world}
use nns.Samples.Ledger.{sample_node, sample_notes, sample_tx, sample_z_set}
use nns.Samples.Nouns.{sample_nouns}
use nns.Tests.Follow.{next_block}

abbrev pub before_next : ScanState
before_next = record {
  last_proved_height = 62999;
  last_proved_digest = 4 ∷ [];
  accumulator_root = [];
  accumulator_size = 0;
}

abbrev pub next_done : ScanBlockDone
next_done = record { height = 63000; digest = 5 ∷ []; accumulator_root = 7 ∷ [] }

next_block-Reported :
    Reported ⦃k = sample_kernel⦄ ⦃lib = sample_nouns⦄ ⦃node = sample_node⦄ ⦃tx = sample_tx⦄
      ⦃z = sample_z_set⦄ ⦃belt = sample_belts⦄ ⦃notes = sample_notes⦄ sample_env sample_world 0
      (next_block ∷ [])
      next_done
unfolding sample_nouns peek_unwrap_some is_atom tail head as_ne_bytes scan_block_error from_utf8
    utf8 error_message scan_block_done extract_claims canonical_z_set_tx_order block_claims
next_block-Reported = last_report (record {
  page_tx = [];
  claims = [];
  effects = sample_report ∷ [];
  canonical = refl;
  claims_of = refl;
  poked = refl;
  no_scan_error = refl;
  no_error = refl;
  reported = refl;
})

next_block-chained : validate_scan_block_chain 62999 (4 ∷ []) (next_block ∷ []) ≡ ok tt
unfolding validate_scan_block_chain
next_block-chained = refl

next_block-Cursor :
    Cursor ⦃k = sample_kernel⦄ ⦃lib = sample_nouns⦄ ⦃node = sample_node⦄ ⦃tx = sample_tx⦄
      ⦃z = sample_z_set⦄ ⦃belt = sample_belts⦄ ⦃notes = sample_notes⦄ sample_env sample_world
      before_next
unfolding sample_nouns peek_unwrap_some is_atom tail head as_ne_bytes decode_scan_state as_u64
    uncons
next_block-Cursor = record { noun = sample_cursor; peeked = refl; decoded_state = refl }

apply_prefetched-progress_example :
    (v : World (Unit {0})) × (apply_prefetched_scan_blocks_inner ⦃k = sample_kernel⦄
        ⦃lib = sample_nouns⦄ ⦃node = sample_node⦄ ⦃tx = sample_tx⦄ ⦃z = sample_z_set⦄
        ⦃belt = sample_belts⦄ ⦃notes = sample_notes⦄ sample_env
        (next_block ∷ [])
        none
        none
        sample_world
      ≡ (ok (some (outcome next_done 1)), v))
apply_prefetched-progress_example =
    apply_prefetched-progress ⦃k = sample_kernel⦄ ⦃lib = sample_nouns⦄ ⦃node = sample_node⦄
      ⦃tx = sample_tx⦄ ⦃z = sample_z_set⦄ ⦃belt = sample_belts⦄ ⦃notes = sample_notes⦄ sample_env
      next_block [] none before_next next_done sample_world next_block-Cursor next_block-chained
      next_block-Reported
