-- ===== src/Api/CaughtUp.antt =====
-- When the status says that the follower has caught up.
use mathlib.Core.Option
use nns.Api.Status.{status, status_lag, status_scan_state}
use nns.Base.{Option, ap, arith, none, refl, some, true, ℕ, ◌+◌, ◌↔◌, ◌≡◌, ◌≤◌}
use nns.Base.Result.{Result, some-injective}
use nns.Base.Text.{Str}
use nns.Kernel.Types.{ScanState}
use nns.Noun.{Noun, NounLib}
use nns.Rpc.{SettlementConfig}
use nns.State.{HullState}

lag-caught_up :
    (tip : Option ℕ) (s : Option ScanState)
    → (Option.map (λ (lag, up). up) (status_lag tip s) ≡ some true) ↔ (
        (t : ℕ) × (st : ScanState) × (tip ≡ some t)
        × (s ≡ some st)
        × (t ≤ st.last_proved_height + 11))
unfolding status_lag
lag-caught_up none s = (λ e. cc, λ (t, st, e, _, _). cc)
lag-caught_up (some t) none = (λ e. cc, λ (u, st, _, e, _). cc)
lag-caught_up (some t) (some st) = (
  λ e. (t, st, refl, refl, ground arith),
  λ (u, v, et, es, le).
      let h : t ≤ st.last_proved_height + 11 =
        rw (some-injective et, ap (λ x. x.last_proved_height) (some-injective es)) le in
      ground arith,
)

module _ ⦃lib : NounLib⦄ where
  -- The status says that the follower has caught up exactly if a tip of the chain has been seen and
  -- the kernel shows a scan state, with a height that is at most 11 blocks below that tip.
  pub status-caught_up :
      (peek : Noun → Result Noun) (mode_text : SettlementConfig → Str) (hull : HullState)
      (now_millis : ℕ)
      → ((status peek mode_text hull now_millis).follower.is_caught_up ≡ some true) ↔ (
          (t : ℕ) × (st : ScanState) × (hull.follower.last_chain_tip_height ≡ some t)
          × (status_scan_state peek ≡ some st)
          × (t ≤ st.last_proved_height + 11))
  unfolding status
  status-caught_up peek mode_text hull now_millis =
      lag-caught_up hull.follower.last_chain_tip_height (status_scan_state peek)
