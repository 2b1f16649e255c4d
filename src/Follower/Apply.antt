-- ===== src/Follower/Apply.antt =====
-- A batch of blocks, applied to the kernel one after the other.
pub mod Applied
pub mod Guarded
pub mod Progress
pub mod Cursor
use nns.Base.{List, Option, [], if◌then◌else◌, length, none, not, some, suc, ℕ, ◌==◌, ◌∷◌}
use nns.Base.Result.{both, ok_or, text, text_num}
use nns.Base.Text.{Bytes}
use nns.Chain.Blocks.{ScanBlockFetch, validate_scan_block_chain}
use nns.Chain.Node.{NodeApi}
use nns.Chain.TxOrder.{ZSetLib}
use nns.Claim.{NoteLib}
use nns.Follower.Block.{apply_block, peek_scan_state}
use nns.Follower.Monad.{
  Action, Env, KernelApi, fail, lift, now, on_follower, pure, update, ◌>>=◌, ◌>>◌,
}
use nns.Kernel.Types.{ClaimCandidate, ScanBlockDone, ScanState}
use nns.Noun.{NounLib}
use nns.Packed.{BeltLib}
use nns.Payment.{TxLib}
use nns.State.{record_advance}

pub record ScanBlockOutcome : Type 0 where
  pub height : ℕ
  pub digest : Bytes
  pub accumulator_root : Bytes
  pub blocks_applied : ℕ

-- `FollowerScanTrace`
pub record FollowerScanTrace : Type 0 where
  pub chain_tip : ℕ
  pub finalized_height : ℕ
  pub batch_lo : ℕ
  pub batch_end : ℕ

abbrev pub outcome : ScanBlockDone → ℕ → ScanBlockOutcome
outcome done blocks_applied = record {
  height = done.height;
  digest = done.digest;
  accumulator_root = done.accumulator_root;
  blocks_applied = blocks_applied;
}

module _ ⦃k : KernelApi⦄ ⦃lib : NounLib⦄ ⦃node : NodeApi⦄ ⦃tx : TxLib⦄ ⦃z : ZSetLib⦄
    ⦃belt : BeltLib⦄ ⦃notes : NoteLib⦄ (env : Env) where
  -- the loop, with the last block that was done
  unfoldable pub apply_blocks :
      ℕ
      → Option (List (List ClaimCandidate))
      → Option ScanBlockDone
      → List ScanBlockFetch
      → Action k.State (Option ScanBlockDone)
  unfolding apply_block
  apply_blocks idx injected last_done [] = pure last_done
  apply_blocks idx injected last_done (b ∷ bs) =
      apply_block env idx injected b >>= λ done. apply_blocks (suc idx) injected (some done) bs

  -- after the loop: the time is read, and recorded with the advance if there is a trace
  unfoldable pub conclude :
      ℕ → Option FollowerScanTrace → ScanBlockDone → Action k.State (Option ScanBlockOutcome)
  unfolding record_advance
  conclude blocks_applied none done = now env >>= λ time. pure (some (outcome done blocks_applied))
  conclude blocks_applied (some t) done = do
    time ← now env
    update (on_follower (record_advance done.height blocks_applied time))
    pure (some (outcome done blocks_applied))

  unfoldable pub finish :
      ℕ → Option FollowerScanTrace → Option ScanBlockDone → Action k.State (Option ScanBlockOutcome)
  unfolding conclude
  finish blocks_applied trace last_done =
      lift (ok_or last_done (text "prefetch produced no blocks (internal error)"))
      >>= conclude blocks_applied trace

  unfoldable pub apply_checked :
      List ScanBlockFetch
      → Option FollowerScanTrace
      → Option (List (List ClaimCandidate))
      → Unit {0}
      → Action k.State (Option ScanBlockOutcome)
  unfolding apply_blocks finish
  apply_checked prefetched trace injected u =
      apply_blocks 0 injected none prefetched >>= finish (length prefetched) trace

  unfoldable pub apply_on_cursor :
      List ScanBlockFetch
      → Option FollowerScanTrace
      → Option (List (List ClaimCandidate))
      → ScanState
      → Action k.State (Option ScanBlockOutcome)
  unfolding validate_scan_block_chain apply_checked
  apply_on_cursor prefetched trace injected scan_state =
      lift (
        validate_scan_block_chain scan_state.last_proved_height scan_state.last_proved_digest
          prefetched)
      >>= apply_checked prefetched trace injected

  unfoldable pub apply_prefetched_scan_blocks_inner :
      List ScanBlockFetch
      → Option FollowerScanTrace
      → Option (List (List ClaimCandidate))
      → Action k.State (Option ScanBlockOutcome)
  unfolding peek_scan_state apply_on_cursor
  apply_prefetched_scan_blocks_inner [] trace injected = pure none
  apply_prefetched_scan_blocks_inner (b ∷ bs) trace injected =
      peek_scan_state env >>= apply_on_cursor (b ∷ bs) trace injected

  unfoldable pub apply_prefetched_scan_blocks :
      List ScanBlockFetch → Action k.State (Option ScanBlockOutcome)
  unfolding apply_prefetched_scan_blocks_inner
  apply_prefetched_scan_blocks prefetched = apply_prefetched_scan_blocks_inner prefetched none none

  unfoldable pub apply_prefetched_scan_blocks_with_claims :
      List ScanBlockFetch → List (List ClaimCandidate) → Action k.State (Option ScanBlockOutcome)
  unfolding apply_prefetched_scan_blocks_inner
  apply_prefetched_scan_blocks_with_claims prefetched claims_per_block =
      if not (length prefetched == length claims_per_block)
      then fail (
          both (text_num "claims_per_block length " (length claims_per_block))
            (text_num " does not match prefetched blocks " (length prefetched)))
      else apply_prefetched_scan_blocks_inner prefetched none (some claims_per_block)
