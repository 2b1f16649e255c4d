-- ===== src/Follower/Scan.antt =====
-- One pass of the scanner: plan, prefetch and apply a batch.
pub mod Planned
use mathlib.Core.Option
use nns.Base.{
  List, Option, [], first_of, if◌then◌else◌, last_of, leb, ltb, max, min, none, saturating_add,
  saturating_sub, some, suc, zero, ℕ, ◌-◌, ◌∷◌,
}
use nns.Base.Result.{Result, err, ok, or_context}
use nns.Base.Text.{Str}
use nns.Chain.Blocks.{prefetch_scan_blocks_for_heights}
use nns.Chain.Digest.{scan_cursor_is_genesis_boot}
use nns.Chain.Node.{NodeApi}
use nns.Chain.Queries.{fetch_current_tip_height}
use nns.Chain.TxOrder.{ZSetLib}
use nns.Claim.{NoteLib}
use nns.Follower.Apply.{ScanBlockOutcome, apply_prefetched_scan_blocks_inner}
use nns.Follower.Block.{peek_scan_state}
use nns.Follower.Monad.{
  Action, Env, KernelApi, fail, get, lift, note_error, now, on_follower, poke_kernel, pure, update,
  ◌>>=◌, ◌>>◌,
}
use nns.Kernel.Pokes.{build_prove_recursive_genesis_poke}
use nns.Kernel.Types.{ScanState}
use nns.Noun.{NounLib}
use nns.Packed.{BeltLib}
use nns.Payment.{TxLib}
use nns.State.{HullState, positive_or, record_chain_tip}

abbrev pub default_finality_depth : ℕ
default_finality_depth = 10

abbrev pub default_scan_batch_blocks : ℕ
default_scan_batch_blocks = 32

unfoldable pub follower_scan_batch_blocks : Option Str → ℕ
follower_scan_batch_blocks variable = positive_or variable default_scan_batch_blocks

-- `u64` addition that saturates, and the first height after the cursor
unfoldable pub next_height : HullState → ScanState → ℕ
unfolding scan_cursor_is_genesis_boot
next_height hull scan_state =
    let after = saturating_add scan_state.last_proved_height 1 in
    if scan_cursor_is_genesis_boot scan_state.last_proved_height scan_state.last_proved_digest
    then max hull.nns_genesis_height after
    else after

-- `(lo..=hi).collect()`, as `count` heights from `lo` on
abbrev pub heights_from : ℕ → ℕ → List ℕ
heights_from lo zero = []
heights_from lo (suc count) = lo ∷ heights_from (suc lo) count

unfoldable pub batch_heights : Option Str → ℕ → ℕ → List ℕ
unfolding follower_scan_batch_blocks
batch_heights variable next finalized =
    let batch_max = follower_scan_batch_blocks variable in
    let batch_end = min (saturating_add next (saturating_sub batch_max 1)) finalized in
    heights_from next (suc batch_end - next)

module _ ⦃k : KernelApi⦄ ⦃lib : NounLib⦄ ⦃node : NodeApi⦄ ⦃tx : TxLib⦄ ⦃z : ZSetLib⦄
    ⦃belt : BeltLib⦄ ⦃notes : NoteLib⦄ (env : Env) where
  -- the base case of the recursive proof, at the genesis cursor: only a failed poke is an error
  unfoldable pub prove_genesis : ScanState → Action k.State (Unit {0})
  unfolding scan_cursor_is_genesis_boot build_prove_recursive_genesis_poke
  prove_genesis scan_state =
      if scan_cursor_is_genesis_boot scan_state.last_proved_height scan_state.last_proved_digest
      then (do
        r ← poke_kernel build_prove_recursive_genesis_poke
        efx ← lift (or_context r "genesis recursive prove poke failed")
        pure tt)
      else pure tt

  -- the tip of the chain, or an error that is recorded under the phase `plan`
  unfoldable pub tip_or_error : Result ℕ → Action k.State ℕ
  unfolding note_error
  tip_or_error (ok tip) = pure tip
  tip_or_error (err e) = note_error env "plan" e >> fail e

  unfoldable pub plan_tip : Str → Action k.State ℕ
  unfolding fetch_current_tip_height tip_or_error
  plan_tip endpoint = tip_or_error (fetch_current_tip_height endpoint)

  -- the heights of the next batch are fetched and applied
  unfoldable pub scan_batch : Str → ℕ → ℕ → ℕ → Action k.State (Option ScanBlockOutcome)
  unfolding prefetch_scan_blocks_for_heights apply_prefetched_scan_blocks_inner
  scan_batch endpoint tip finalized next = do
    prefetched ←
        lift (
          prefetch_scan_blocks_for_heights endpoint (batch_heights env.batch_blocks next finalized))
    apply_prefetched_scan_blocks_inner env prefetched
        (some (record {
          chain_tip = tip;
          finalized_height = finalized;
          batch_lo = Option.get_or (Option.map (λ b. b.height) (first_of prefetched)) next;
          batch_end = Option.get_or (Option.map (λ b. b.height) (last_of prefetched)) next;
        }))
        none

  -- the batch from the next height on, if that height is final
  unfoldable pub scan_final :
      Str → ScanState → ℕ → HullState → Action k.State (Option ScanBlockOutcome)
  unfolding scan_batch
  scan_final endpoint scan_state tip hull =
      let next = next_height hull scan_state in
      if leb tip default_finality_depth
      then pure none
      else if ltb (tip - default_finality_depth) next
      then pure none
      else scan_batch endpoint tip (tip - default_finality_depth) next

  unfoldable pub scan_from : Str → Action k.State (Option ScanBlockOutcome)
  unfolding peek_scan_state prove_genesis plan_tip record_chain_tip scan_final
  scan_from endpoint = do
    scan_state ← peek_scan_state env
    prove_genesis scan_state
    tip ← plan_tip endpoint
    time ← now env
    update (on_follower (record_chain_tip tip time))
    w ← get
    scan_final endpoint scan_state tip w.hull

  unfoldable pub scan_endpoint : Option Str → Action k.State (Option ScanBlockOutcome)
  unfolding scan_from
  scan_endpoint none = pure none
  scan_endpoint (some endpoint) = scan_from endpoint

  unfoldable pub scan_once : Action k.State (Option ScanBlockOutcome)
  unfolding scan_endpoint
  scan_once = do
    w ← get
    if w.hull.settlement.is_local then pure none else scan_endpoint w.hull.settlement.chain_endpoint
