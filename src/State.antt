-- ===== src/State.antt =====
-- src/state.rs: the hull's state, the follower's telemetry, and the count of scans.
pub mod Persist
use nns.Base.{Option, String, if◌then◌else◌, leb, ltb, max, none, some, ℕ, ◌%◌, ◌&&◌, ◌+◌, ◌^◌}
use nns.Base.Parse.{parse_u64}
use nns.Base.Result.{Error}
use nns.Base.Text.{Str}
use nns.Rpc.{SettlementConfig}

pub record FollowerObservability : Type 0 where
  pub last_chain_tip_height : Option ℕ
  pub last_chain_tip_observed_at_epoch_ms : Option ℕ
  pub last_advance_at_epoch_ms : Option ℕ
  pub last_advance_tip_height : Option ℕ
  pub last_advance_count : Option ℕ
  pub last_error : Option Error
  pub last_error_at_epoch_ms : Option ℕ
  pub last_error_phase : Option String

abbrev pub default_observability : FollowerObservability
default_observability = record {
  last_chain_tip_height = none;
  last_chain_tip_observed_at_epoch_ms = none;
  last_advance_at_epoch_ms = none;
  last_advance_tip_height = none;
  last_advance_count = none;
  last_error = none;
  last_error_at_epoch_ms = none;
  last_error_phase = none;
}

unfoldable pub record_advance : ℕ → ℕ → ℕ → FollowerObservability → FollowerObservability
record_advance tip_height count now_ms f = record f {
  last_advance_at_epoch_ms = some now_ms;
  last_advance_tip_height = some tip_height;
  last_advance_count = some count;
  last_error = none;
  last_error_at_epoch_ms = none;
  last_error_phase = none;
}

unfoldable pub record_chain_tip : ℕ → ℕ → FollowerObservability → FollowerObservability
record_chain_tip tip now_ms f = record f {
  last_chain_tip_height = some tip;
  last_chain_tip_observed_at_epoch_ms = some now_ms;
}

unfoldable pub record_error : String → Error → ℕ → FollowerObservability → FollowerObservability
record_error phase e now_ms f = record f {
  last_error = some e;
  last_error_at_epoch_ms = some now_ms;
  last_error_phase = some phase;
}

pub record HullState : Type 0 where
  pub output_dir : Str
  pub settlement : SettlementConfig
  pub nns_genesis_height : ℕ
  pub follower : FollowerObservability

-- `NNS_GENESIS_HEIGHT` of src/chain.rs
abbrev pub genesis_height : ℕ
genesis_height = 63000

-- `AppState::new`: the hull, and a count of scans that starts at 0
abbrev pub new_hull : Str → SettlementConfig → HullState
new_hull output_dir settlement = record {
  output_dir = output_dir;
  settlement = settlement;
  nns_genesis_height = max genesis_height 1;
  follower = default_observability;
}

-- a positive number in an environment variable, or the default
abbrev pub positive_or : Option Str → ℕ → ℕ
positive_or variable default = elim variable [
  | none ↦ default
  | some s ↦ elim (parse_u64 s) [ none ↦ default | some n ↦ if leb 1 n then n else default ]
]

unfoldable pub follower_persist_stride_blocks : Option Str → ℕ
follower_persist_stride_blocks variable = positive_or variable 1000

-- `maybe_persist_after_follower_scan`, on the count of scans since the last checkpoint
unfoldable pub maybe_persist_after_follower_scan : ℕ → ℕ → ℕ
maybe_persist_after_follower_scan stride prev =
    let n = (prev + 1) % 2 ^ 64 in if ltb 1 stride && ltb n stride then n else 0
