-- ===== src/Tests/Phase.antt =====
-- A round at a node that does not tell its tip.
use nns.Base.{false, if◌then◌else◌, refl, some, suc, true, ◌≡◌}
use nns.Base.Result.{Error, context, err, text}
use nns.Base.Text.{codes}
use nns.Chain.Digest.{scan_cursor_is_genesis_boot}
use nns.Chain.Queries.{fetch_current_tip_height}
use nns.Follower.Apply.Applied.{Cursor}
use nns.Follower.Monad.{World, on_follower}
use nns.Follower.Tick.{Pause, is_upstream_stressed, sleep_secs, tick}
use nns.Follower.Tick.Phase.{tick-tip_unknown}
use nns.Kernel.Peeks.{decode_scan_state, peek_unwrap_some}
use nns.Noun.{as_ne_bytes, as_u64, head, is_atom, tail, uncons}
use nns.Samples.Belts.{sample_belts}
use nns.Samples.Kernels.{sample_cursor, sample_env, sample_kernel, sample_world}
use nns.Samples.Ledger.{busy_node, sample_notes, sample_tx, sample_z_set}
use nns.Samples.Nouns.{sample_nouns}
use nns.Tests.Progress.{before_next}

abbrev busy : Error
busy = context "GetBlocks query failed" (text "503 Service Unavailable")

busy-stressed : is_upstream_stressed busy ≡ true
unfolding is_upstream_stressed
busy-stressed = refl

sample_world-Cursor :
    Cursor ⦃k = sample_kernel⦄ ⦃lib = sample_nouns⦄ ⦃node = busy_node⦄ ⦃tx = sample_tx⦄
      ⦃z = sample_z_set⦄ ⦃belt = sample_belts⦄ ⦃notes = sample_notes⦄ sample_env sample_world
      before_next
unfolding sample_nouns peek_unwrap_some is_atom tail head as_ne_bytes decode_scan_state as_u64
    uncons
sample_world-Cursor = record { noun = sample_cursor; peeked = refl; decoded_state = refl }

past_boot :
    scan_cursor_is_genesis_boot before_next.last_proved_height before_next.last_proved_digest
    ≡ false
unfolding scan_cursor_is_genesis_boot
past_boot = refl

tip_busy : fetch_current_tip_height ⦃node = busy_node⦄ (codes "http://node") ≡ err busy
unfolding fetch_current_tip_height busy_node
tip_busy = refl

-- a round of the sample follower at the busy node
abbrev busy_round : Pause × World (Unit {0})
unfolding tick
busy_round =
    tick ⦃k = sample_kernel⦄ ⦃node = busy_node⦄ ⦃tx = sample_tx⦄ ⦃z = sample_z_set⦄
      ⦃belt = sample_belts⦄ ⦃notes = sample_notes⦄ sample_env sample_world

tick-tip_unknown_example : busy_round ≡ (
  sleep_secs (if is_upstream_stressed busy then 60 else 10),
  on_follower
      (λ f. record f {
        last_error = some busy;
        last_error_at_epoch_ms = some (sample_env.now_epoch_ms (suc sample_world.readings));
        last_error_phase = some "scan_block";
      })
      (record sample_world { readings = suc (suc sample_world.readings) }),
)
unfolding busy_round
tick-tip_unknown_example =
    tick-tip_unknown ⦃k = sample_kernel⦄ ⦃lib = sample_nouns⦄ ⦃node = busy_node⦄ ⦃tx = sample_tx⦄
      ⦃z = sample_z_set⦄ ⦃belt = sample_belts⦄ ⦃notes = sample_notes⦄ sample_env sample_world
      (codes "http://node") before_next busy refl refl sample_world-Cursor past_boot tip_busy
      λ e. cc
