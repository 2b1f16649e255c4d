-- ===== src/Freshness.antt =====
-- src/freshness.rs: the wallet's check that a proof is not anchored too far in the past.
pub mod Window
use nns.Base.{if◌then◌else◌, leb, ℕ, ◌++◌, ◌-◌, ◌=?◌}
use nns.Base.Display.{to_string}
use nns.Base.Text.{Bytes, Str, codes}
use nns.Kernel.Types.{ClaimBundle}

abbrev pub default_max_staleness : ℕ
default_max_staleness = 20

pub record Freshness : Type 0 where
  pub max_staleness : ℕ

abbrev pub default_freshness : Freshness
default_freshness = record { max_staleness = default_max_staleness }

pub data FreshnessError : Type 0 where
  proof_too_stale : ℕ → ℕ → ℕ → ℕ → FreshnessError

pub data FreshnessResult : Type 0 where
  fresh : FreshnessResult
  stale : FreshnessError → FreshnessResult

-- `Freshness::check`: the error carries the two heights, the window and the lag
unfoldable pub check : Freshness → ℕ → ℕ → FreshnessResult
check policy proof_tip_height chain_tip_height =
    if leb chain_tip_height proof_tip_height
    then fresh
    else let lag = chain_tip_height - proof_tip_height in
      if leb lag policy.max_staleness
      then fresh
      else stale (proof_too_stale proof_tip_height chain_tip_height policy.max_staleness lag)

pub data AnchorBindingResult : Type 0 where
  bound : AnchorBindingResult
  digest_mismatch : Bytes → Bytes → AnchorBindingResult

unfoldable pub check_anchor_binding : Bytes → Bytes → AnchorBindingResult
unfolding ◌=?◌
check_anchor_binding proof_tip_digest wallet_view_digest =
    if proof_tip_digest =? wallet_view_digest
    then bound
    else digest_mismatch proof_tip_digest wallet_view_digest

-- `ClaimBundle::check_freshness` and `ClaimBundle::check_anchor_binding` of src/kernel.rs
unfoldable pub bundle_check_freshness : ClaimBundle → ℕ → Freshness → FreshnessResult
unfolding check
bundle_check_freshness b chain_tip_height policy =
    check policy b.anchored_tip_height chain_tip_height

unfoldable pub bundle_check_anchor_binding : ClaimBundle → Bytes → AnchorBindingResult
unfolding check_anchor_binding
bundle_check_anchor_binding b wallet_view_digest =
    check_anchor_binding b.anchored_tip wallet_view_digest

-- `Display` of the two errors
unfoldable pub fmt_freshness : FreshnessError → Str
unfolding to_string
fmt_freshness (proof_too_stale proof_height chain_height max_staleness lag_blocks) =
    codes "claim proof anchored at height "
    ++ to_string proof_height
    ++ codes " is "
    ++ to_string lag_blocks
    ++ codes " block(s) behind the wallet's chain tip at height "
    ++ to_string chain_height
    ++ codes "; max allowed staleness is "
    ++ to_string max_staleness
    ++ codes " block(s)"

unfoldable pub fmt_anchor_binding : Bytes → Bytes → Str
fmt_anchor_binding proof_digest wallet_digest =
    codes
      "proof's committed tip digest does not match wallet's canonical-chain view at the same height (possible fork or malicious NNS)"
