-- ===== src/Follower/Tick.antt =====
-- The loop of `spawn`, one round at a time.
pub mod Phase
pub mod Invariant
pub mod Steps
pub mod Rounds
pub mod Consistent
pub mod Extends
pub mod Advances
use nns.Base.{Bool, Option, if◌then◌else◌, none, some, ℕ, ◌||◌}
use nns.Base.Display.{contains, render, to_lowercase}
use nns.Base.Result.{Error, Result, err, ok, panic}
use nns.Base.Text.{codes}
use nns.Chain.Node.{NodeApi}
use nns.Chain.TxOrder.{ZSetLib}
use nns.Claim.{NoteLib}
use nns.Follower.Apply.{ScanBlockOutcome}
use nns.Follower.Monad.{Action, Env, KernelApi, World, note_error, pure, ◌>>=◌}
use nns.Follower.Scan.{scan_once}
use nns.Noun.{NounLib}
use nns.Packed.{BeltLib}
use nns.Payment.{TxLib}

-- what stands between two rounds: a yield, or a sleep of so many seconds. A panic ends the task.
pub data Pause : Type 0 where
  yield_now : Pause
  sleep_secs : ℕ → Pause
  stopped : Pause

abbrev pub follower_poll : ℕ
follower_poll = 10

abbrev pub follower_poll_stressed : ℕ
follower_poll_stressed = 60

unfoldable pub is_upstream_stressed : Error → Bool
unfolding to_lowercase render contains
is_upstream_stressed e =
    let s = to_lowercase (render e) in
    contains s (codes "429")
    || contains s (codes "too many requests")
    || contains s (codes "502")
    || contains s (codes "bad gateway")
    || contains s (codes "503")
    || contains s (codes "service unavailable")
    || contains s (codes "504")
    || contains s (codes "gateway timeout")

module _ {K : Type 0} (env : Env) where
  -- the arms of the match on the outcome of the scan
  unfoldable pub after_scan : Result (Option ScanBlockOutcome) → World K → Pause × World K
  unfolding note_error is_upstream_stressed
  after_scan (ok (some scanned)) w = (yield_now, w)
  after_scan (ok none) w = (sleep_secs follower_poll, w)
  after_scan (err panic) w = (stopped, w)
  after_scan (err e) w = (
    sleep_secs (if is_upstream_stressed e then follower_poll_stressed else follower_poll),
    (note_error env "scan_block" e w).1,
  )

module _ ⦃k : KernelApi⦄ ⦃lib : NounLib⦄ ⦃node : NodeApi⦄ ⦃tx : TxLib⦄ ⦃z : ZSetLib⦄
    ⦃belt : BeltLib⦄ ⦃notes : NoteLib⦄ (env : Env) where
  -- one round of the loop
  unfoldable pub tick : World k.State → Pause × World k.State
  unfolding scan_once after_scan
  tick w = after_scan env (scan_once env w).0 (scan_once env w).1

  unfoldable pub process_once : Action k.State (Unit {0})
  unfolding scan_once
  process_once = scan_once env >>= λ o. pure tt
