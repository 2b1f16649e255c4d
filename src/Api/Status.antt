-- ===== src/Api/Status.antt =====
-- `status` and `debug_kernel_state` of src/api.rs: what they read of the hull and of the
-- kernel. The objects of JSON are records.
use mathlib.Core.Option
use nns.Api.{Reply, decoded}
use nns.Base.{Bool, Option, String, leb, none, saturating_sub, some, ℕ, ◌+◌, ◌/◌}
use nns.Base.Result.{Error, Result, and_then, to_option}
use nns.Base.Text.{Str}
use nns.Follower.Scan.{default_finality_depth, default_scan_batch_blocks}
use nns.Hex.{hex_encode}
use nns.Kernel.Debug.{KernelDebugResponse, decode_kernel_debug}
use nns.Kernel.Peeks.{decode_scan_state}
use nns.Kernel.Peeks.Paths.{build_kernel_debug_peek, build_scan_state_peek}
use nns.Kernel.Types.{ScanState}
use nns.Noun.{Noun, NounLib}
use nns.Rpc.{SettlementConfig}
use nns.State.{HullState}

-- the numbers of `status` that are computed: the lag, whether the follower has caught up, and the
-- age of the last advance in seconds
unfoldable pub status_lag : Option ℕ → Option ScanState → Option (ℕ × Bool)
status_lag (some chain_tip) (some s) =
    let lag = saturating_sub chain_tip s.last_proved_height in
    some (lag, leb lag (default_finality_depth + 1))
status_lag none s = none
status_lag (some chain_tip) none = none

unfoldable pub advance_age_seconds : ℕ → Option ℕ → Option ℕ
advance_age_seconds now_millis none = none
advance_age_seconds now_millis (some t) = some (saturating_sub now_millis t / 1000)

-- `anchor` and `scan_state`
pub record AnchorStatus : Type 0 where
  pub tip_height : ℕ
  pub tip_digest : Str

pub record ScanStatus : Type 0 where
  pub last_proved_height : ℕ
  pub last_proved_digest : Str
  pub accumulator_root : Str
  pub accumulator_size : ℕ

pub record FollowerStatus : Type 0 where
  pub chain_tip_height : Option ℕ
  pub anchor_lag_blocks : Option ℕ
  pub is_caught_up : Option Bool
  pub last_advance_at_epoch_ms : Option ℕ
  pub last_advance_age_seconds : Option ℕ
  pub last_advance_tip_height : Option ℕ
  pub last_advance_count : Option ℕ
  pub last_chain_tip_observed_at_epoch_ms : Option ℕ
  pub last_error : Option Error
  pub last_error_phase : Option String
  pub last_error_at_epoch_ms : Option ℕ
  pub finality_depth : ℕ
  pub max_advance_batch : ℕ
  pub scan_batch_blocks_default : ℕ
  pub nns_genesis_height : ℕ

pub record StatusReply : Type 0 where
  pub settlement_mode : Str
  pub chain_endpoint : Option Str
  pub anchor : Option AnchorStatus
  pub scan_state : Option ScanStatus
  pub follower : FollowerStatus

abbrev pub default_max_advance_batch : ℕ
default_max_advance_batch = 1

abbrev pub anchor_status : ScanState → AnchorStatus
unfolding hex_encode
anchor_status s = record {
  tip_height = s.last_proved_height;
  tip_digest = hex_encode s.last_proved_digest;
}

abbrev pub scan_status : ScanState → ScanStatus
unfolding hex_encode
scan_status s = record {
  last_proved_height = s.last_proved_height;
  last_proved_digest = hex_encode s.last_proved_digest;
  accumulator_root = hex_encode s.accumulator_root;
  accumulator_size = s.accumulator_size;
}

abbrev pub follower_status : HullState → Option ScanState → ℕ → FollowerStatus
unfolding status_lag advance_age_seconds
follower_status hull scan_state now_millis = record {
  chain_tip_height = hull.follower.last_chain_tip_height;
  anchor_lag_blocks =
      Option.map (λ (lag, up). lag) (status_lag hull.follower.last_chain_tip_height scan_state);
  is_caught_up =
      Option.map (λ (lag, up). up) (status_lag hull.follower.last_chain_tip_height scan_state);
  last_advance_at_epoch_ms = hull.follower.last_advance_at_epoch_ms;
  last_advance_age_seconds = advance_age_seconds now_millis hull.follower.last_advance_at_epoch_ms;
  last_advance_tip_height = hull.follower.last_advance_tip_height;
  last_advance_count = hull.follower.last_advance_count;
  last_chain_tip_observed_at_epoch_ms = hull.follower.last_chain_tip_observed_at_epoch_ms;
  last_error = hull.follower.last_error;
  last_error_phase = hull.follower.last_error_phase;
  last_error_at_epoch_ms = hull.follower.last_error_at_epoch_ms;
  finality_depth = default_finality_depth;
  max_advance_batch = default_max_advance_batch;
  scan_batch_blocks_default = default_scan_batch_blocks;
  nns_genesis_height = hull.nns_genesis_height;
}

module _ ⦃lib : NounLib⦄ (peek : Noun → Result Noun) where
  -- the scan state, if the kernel shows one that can be read
  unfoldable pub status_scan_state : Option ScanState
  unfolding decode_scan_state
  status_scan_state =
      and_then (to_option (peek build_scan_state_peek)) λ n. to_option (decode_scan_state n)

  -- `mode_text` is vesl_core's text of the settlement mode
  unfoldable pub status : (SettlementConfig → Str) → HullState → ℕ → StatusReply
  unfolding status_scan_state anchor_status scan_status follower_status
  status mode_text hull now_millis = record {
    settlement_mode = mode_text hull.settlement;
    chain_endpoint = hull.settlement.chain_endpoint;
    anchor = Option.map anchor_status status_scan_state;
    scan_state = Option.map scan_status status_scan_state;
    follower = follower_status hull status_scan_state now_millis;
  }

  unfoldable pub debug_kernel_state : Reply KernelDebugResponse
  unfolding decode_kernel_debug
  debug_kernel_state =
      decoded (peek build_kernel_debug_peek) "kernel kernel-debug peek failed" decode_kernel_debug
        "decode kernel-debug"
