-- ===== src/Follower/Tick/Consistent.antt =====
-- The telemetry and the count of scans after any number of rounds.
use nns.Base.{none, refl, ℕ}
use nns.Base.Text.{Str}
use nns.Chain.Blocks.{prefetch_scan_blocks_for_heights}
use nns.Chain.Node.{NodeApi}
use nns.Chain.TxOrder.{ZSetLib}
use nns.Claim.{NoteLib}
use nns.Follower.Keeps.{Keeps, bind-Keeps, lift-Keeps}
use nns.Follower.Monad.{Env, KernelApi, World}
use nns.Follower.Scan.{batch_heights, scan_batch}
use nns.Follower.Tick.Invariant.{IsConsistent, note_error-Keeps, now-Keeps, record_chain_tip-Keeps}
use nns.Follower.Tick.Rounds.{PartsKeep, Rounds, rounds_keep}
use nns.Follower.Tick.Steps.{apply_prefetched-Keeps, peek_scan_state-Keeps, prove_genesis-Keeps}
use nns.Noun.{NounLib}
use nns.Packed.{BeltLib}
use nns.Payment.{TxLib}
use nns.Rpc.{SettlementConfig}
use nns.State.{new_hull}
use nns.State.Persist.{follower_persist_stride_blocks-bounds}

module _ ⦃k : KernelApi⦄ ⦃lib : NounLib⦄ ⦃node : NodeApi⦄ ⦃tx : TxLib⦄ ⦃z : ZSetLib⦄
    ⦃belt : BeltLib⦄ ⦃notes : NoteLib⦄ (env : Env) where
  scan_batch-Keeps :
      (endpoint : Str) (tip finalized start : ℕ)
      → Keeps (IsConsistent env) (scan_batch env endpoint tip finalized start)
  unfolding scan_batch
  scan_batch-Keeps endpoint tip finalized start =
      bind-Keeps (IsConsistent env) _ _
        (lift-Keeps (IsConsistent env) (
          prefetch_scan_blocks_for_heights endpoint
            (batch_heights env.batch_blocks start finalized)))
        λ bs. apply_prefetched-Keeps env bs _ none

  parts : PartsKeep env (IsConsistent env)
  parts = record {
    noted = note_error-Keeps env;
    clock = now-Keeps env;
    tip_seen = record_chain_tip-Keeps env;
    peeked = peek_scan_state-Keeps env;
    genesis = prove_genesis-Keeps env;
    batch = scan_batch-Keeps;
  }

module _ ⦃k : KernelApi⦄ ⦃lib : NounLib⦄ ⦃tx : TxLib⦄ ⦃z : ZSetLib⦄ ⦃belt : BeltLib⦄
    ⦃notes : NoteLib⦄ (nodes : ℕ → NodeApi) (env : Env) where
  -- After any number of rounds from the start of the program the telemetry is whole: an error has its
  -- time and its phase, an advance its height and its number of blocks, and the tip the time when it
  -- was seen; the count of scans is below the stride, and the genesis height is that of the network.
  pub Rounds-IsConsistent :
      (dir : Str) (settlement : SettlementConfig) (kernel : k.State) (readings n : ℕ)
      (v : World k.State)
      → Rounds nodes env
          (record {
            hull = new_hull dir settlement;
            kernel = kernel;
            scans_since_checkpoint = 0;
            readings = readings;
          })
          n
          v
      → IsConsistent env v
  Rounds-IsConsistent dir settlement kernel readings n v r =
      let (pos, _) = follower_persist_stride_blocks-bounds env.persist_every in
      rounds_keep nodes env (IsConsistent env) (λ t. parts ⦃node = nodes t⦄ env)
        (record {
          error_time = refl;
          error_phase = refl;
          advance_height = refl;
          advance_count = refl;
          tip_time = refl;
          scans_below = pos;
          genesis = refl;
        })
        r
