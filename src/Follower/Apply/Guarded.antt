-- ===== src/Follower/Apply/Guarded.antt =====
-- When a batch reaches the kernel.
use nns.Base.{List, Option, [], inl, inr, refl, ◌∷◌, ◌≡◌, ◌⊎◌}
use nns.Base.Result.{Result, err, ok, or_context}
use nns.Chain.Blocks.{ScanBlockFetch, validate_scan_block_chain}
use nns.Chain.Node.{NodeApi}
use nns.Chain.TxOrder.{ZSetLib}
use nns.Claim.{NoteLib}
use nns.Follower.Apply.{
  FollowerScanTrace, apply_checked, apply_on_cursor, apply_prefetched_scan_blocks_inner,
}
use nns.Follower.Apply.Applied.{Cursor}
use nns.Follower.Block.{peek_scan_state, read_scan_state}
use nns.Follower.Monad.{Action, Env, KernelApi, World, lift, note_error, ◌>>=◌}
use nns.Kernel.Peeks.{decode_scan_state}
use nns.Kernel.Peeks.Paths.{build_scan_state_peek}
use nns.Kernel.Types.{ClaimCandidate, ScanState}
use nns.Noun.{Noun, NounLib}
use nns.Packed.{BeltLib}
use nns.Payment.{TxLib}

module _ {K : Type 0} where
  -- Neither the kernel nor the count of scans has changed.
  pub record Untouched (w v : World K) : Type 0 where
    pub kernel : v.kernel ≡ w.kernel
    pub scans : v.scans_since_checkpoint ≡ w.scans_since_checkpoint

  lift-Untouched :
      {A : Type 0} (r : Result (Unit {0})) (f : Unit {0} → Action K A) (w : World K)
      → Untouched w ((lift r >>= f) w).1 ⊎ (r ≡ ok tt)
  lift-Untouched (ok tt) f w = inr refl
  lift-Untouched (err e) f w = inl (record { kernel = refl; scans = refl })

module _ ⦃k : KernelApi⦄ ⦃lib : NounLib⦄ ⦃node : NodeApi⦄ ⦃tx : TxLib⦄ ⦃z : ZSetLib⦄
    ⦃belt : BeltLib⦄ ⦃notes : NoteLib⦄ (env : Env) where
  -- The batch was a chain on the kernel's cursor.
  pub record OnCursor (bs : List ScanBlockFetch) (w : World k.State) : Type 0 where
    pub state : ScanState
    pub cursor : Cursor env w state
    pub chain :
        validate_scan_block_chain state.last_proved_height state.last_proved_digest bs ≡ ok tt

  module _ (bs : List ScanBlockFetch) (trace : Option FollowerScanTrace)
      (injected : Option (List (List ClaimCandidate))) (w : World k.State) where
    decoded-guarded :
        (noun : Noun) (d : Result ScanState)
        → k.peek w.kernel build_scan_state_peek ≡ ok noun
        → or_context (decode_scan_state noun) "scan-state decode failed" ≡ d
        → Untouched w ((lift d >>= apply_on_cursor env bs trace injected) w).1 ⊎ OnCursor bs w
    unfolding apply_on_cursor
    decoded-guarded noun (err e) hp hd = inl (record { kernel = refl; scans = refl })
    decoded-guarded noun (ok s) hp hd =
        let checked =
          lift-Untouched (validate_scan_block_chain s.last_proved_height s.last_proved_digest bs)
            (apply_checked env bs trace injected) w in
        elim checked [
          | inl same ↦ inl same
          | inr linked ↦ inr (record {
            state = s;
            cursor = record { noun = noun; peeked = hp; decoded_state = hd };
            chain = linked;
          })
        ]

    peeked-guarded :
        (r : Result Noun)
        → k.peek w.kernel build_scan_state_peek ≡ r
        → Untouched w ((read_scan_state env r >>= apply_on_cursor env bs trace injected) w).1
          ⊎ OnCursor bs w
    unfolding read_scan_state note_error
    peeked-guarded (err e) hp = inl (record { kernel = refl; scans = refl })
    peeked-guarded (ok noun) hp = decoded-guarded noun _ hp refl

  -- However the application of a batch ends, with an outcome or with an error, it has left the
  -- kernel and the count of scans as they were, or else the batch was a chain on the cursor that
  -- the kernel showed before.
  pub apply_prefetched-guarded :
      (bs : List ScanBlockFetch) (trace : Option FollowerScanTrace)
      (injected : Option (List (List ClaimCandidate))) (w : World k.State)
      → Untouched w (apply_prefetched_scan_blocks_inner env bs trace injected w).1 ⊎ OnCursor bs w
  unfolding apply_prefetched_scan_blocks_inner peek_scan_state
  apply_prefetched-guarded [] trace injected w = inl (record { kernel = refl; scans = refl })
  apply_prefetched-guarded (b ∷ bs) trace injected w =
      peeked-guarded (b ∷ bs) trace injected w (k.peek w.kernel build_scan_state_peek) refl
