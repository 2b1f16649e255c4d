-- ===== src/Freshness/Window.antt =====
-- The window of accepted proof heights.
use nns.Base.{=?_iff, arith, ℕ, ◌+◌, ◌-◌, ◌<◌, ◌↔◌, ◌≡◌, ◌≤◌}
use nns.Base.Text.{Bytes}
use nns.Freshness.{
  Freshness, FreshnessError, bound, bundle_check_anchor_binding, bundle_check_freshness, check,
  fresh, proof_too_stale, stale,
}
use nns.Kernel.Types.{ClaimBundle}

-- A proof is accepted exactly when its height is at least the chain tip less the window, which is
-- no condition where the chain is shorter than the window. A rejection reports both heights, the
-- window, and the lag, which is more than the window.
pub check_window :
    (policy : Freshness) (proof_height chain_height : ℕ)
    → ((check policy proof_height chain_height ≡ fresh)
        ↔ (chain_height ≤ proof_height + policy.max_staleness))
      × ((e : FreshnessError)
          → check policy proof_height chain_height ≡ stale e
          → (lag : ℕ) × (e ≡ proof_too_stale proof_height chain_height policy.max_staleness lag)
            × (proof_height + lag ≡ chain_height)
            × (policy.max_staleness < lag))
unfolding check
check_window policy proof_height chain_height =
    (ground arith, λ e h. (chain_height - proof_height, ground arith, ground arith, ground arith))

-- The two checks of a wallet that accepts a bundle: it is fresh at height `tip` and is bound to
-- digest `view` exactly when its anchored height is in the window and its anchored digest is `view`.
pub bundle_accepted_iff :
    (b : ClaimBundle) (policy : Freshness) (tip : ℕ) (view : Bytes)
    → ((bundle_check_freshness b tip policy ≡ fresh) × (bundle_check_anchor_binding b view ≡ bound))
      ↔ ((tip ≤ b.anchored_tip_height + policy.max_staleness) × (b.anchored_tip ≡ view))
unfolding bundle_check_freshness bundle_check_anchor_binding
bundle_accepted_iff b policy tip view = (
  λ h. (ground arith, ground (arith, =?_iff b.anchored_tip view)),
  λ h. (ground arith, ground (arith, =?_iff b.anchored_tip view)),
)
