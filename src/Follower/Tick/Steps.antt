-- ===== src/Follower/Tick/Steps.antt =====
-- The steps of a scan keep the telemetry and the count of scans consistent.
use nns.Base.{List, Option, [], arith, length, none, some, suc, ℕ, ◌∷◌}
use nns.Base.Result.{Result, err, ok, ok_or, or_context, text}
use nns.Base.Text.{Bytes}
use nns.Chain.Blocks.{ScanBlockFetch, validate_scan_block_chain}
use nns.Chain.Node.{NodeApi}
use nns.Chain.TxOrder.{ZSetLib, canonical_z_set_tx_order}
use nns.Claim.{NoteLib}
use nns.Follower.Apply.{
  FollowerScanTrace, apply_blocks, apply_checked, apply_on_cursor,
  apply_prefetched_scan_blocks_inner, conclude, finish, outcome,
}
use nns.Follower.Block.{
  after_effects, apply_block, block_claims, count_scan, peek_scan_state, poke_block,
  poke_transition, previous_proof, prove_transition, read_effects, read_scan_state,
  try_y3_recursive_transition_after_block, with_page_tx,
}
use nns.Follower.Keeps.{Keeps, bind-Keeps, fail-Keeps, if-Keeps, lift-Keeps, pure-Keeps, then-Keeps}
use nns.Follower.Monad.{Env, KernelApi, peek_kernel, poke_kernel}
use nns.Follower.Scan.{prove_genesis}
use nns.Follower.Tick.Invariant.{
  IsConsistent, note_error-Keeps, now-Keeps, record_advance-Keeps, try_note_error-Keeps,
}
use nns.Kernel.Peeks.Paths.{build_recursive_proof_peek}
use nns.Kernel.Pokes.{build_prove_recursive_genesis_poke, build_scan_block_poke}
use nns.Kernel.Types.{ClaimCandidate, ScanBlockDone, ScanState}
use nns.Noun.{Noun, NounLib}
use nns.Packed.{BeltLib}
use nns.Payment.{TxLib}
use nns.State.{follower_persist_stride_blocks}
use nns.State.Persist.{follower_persist_stride_blocks-bounds, step-below}

module _ ⦃k : KernelApi⦄ (env : Env) where
  peek_kernel-Keeps : (path : Noun) → Keeps (IsConsistent env) (peek_kernel path)
  peek_kernel-Keeps path = record { after = λ w h. h }

  poke_kernel-Keeps : (cause : Noun) → Keeps (IsConsistent env) (poke_kernel cause)
  poke_kernel-Keeps cause = record { after = λ w h. ground arith }

module _ ⦃k : KernelApi⦄ ⦃lib : NounLib⦄ ⦃node : NodeApi⦄ ⦃tx : TxLib⦄ ⦃z : ZSetLib⦄
    ⦃belt : BeltLib⦄ ⦃notes : NoteLib⦄ (env : Env) where
  read_scan_state-Keeps : (r : Result Noun) → Keeps (IsConsistent env) (read_scan_state env r)
  unfolding read_scan_state
  read_scan_state-Keeps (ok noun) = lift-Keeps (IsConsistent env) _
  read_scan_state-Keeps (err e) =
      then-Keeps (IsConsistent env) _ _ (note_error-Keeps env _ _) (fail-Keeps (IsConsistent env) _)

  pub peek_scan_state-Keeps : Keeps (IsConsistent env) (peek_scan_state env)
  unfolding peek_scan_state
  peek_scan_state-Keeps =
      bind-Keeps (IsConsistent env) _ _ (peek_kernel-Keeps env _) λ r. read_scan_state-Keeps r

  poke_transition-Keeps :
      (cause : Option Noun) → Keeps (IsConsistent env) (poke_transition env cause)
  unfolding poke_transition
  poke_transition-Keeps none = fail-Keeps (IsConsistent env) _
  poke_transition-Keeps (some cause) =
      bind-Keeps (IsConsistent env) _ _ (poke_kernel-Keeps env cause)
        λ efx. pure-Keeps (IsConsistent env) _

  prove_transition-Keeps :
      (b : ScanBlockFetch) (claims : List ClaimCandidate)
      (previous : Option (Bytes × Bytes × Bytes))
      → Keeps (IsConsistent env) (prove_transition env b claims previous)
  unfolding prove_transition
  prove_transition-Keeps b claims none = pure-Keeps (IsConsistent env) _
  prove_transition-Keeps b claims (some (p, s, f)) = poke_transition-Keeps _

  try_y3-Keeps :
      (b : ScanBlockFetch) (claims : List ClaimCandidate)
      → Keeps (IsConsistent env) (try_y3_recursive_transition_after_block env b claims)
  unfolding try_y3_recursive_transition_after_block
  try_y3-Keeps b claims =
      bind-Keeps (IsConsistent env) _ _ (peek_kernel-Keeps env build_recursive_proof_peek)
        λ r. prove_transition-Keeps b claims (previous_proof env r)

  count_scan-Keeps : (done : ScanBlockDone) → Keeps (IsConsistent env) (count_scan env done)
  unfolding count_scan
  count_scan-Keeps done = record {
    after = λ w h.
        let stride = follower_persist_stride_blocks env.persist_every in
        let (pos, fits) = follower_persist_stride_blocks-bounds env.persist_every in
        let below = step-below stride w.scans_since_checkpoint pos fits h.scans_below in
        record {
          error_time = h.error_time;
          error_phase = h.error_phase;
          advance_height = h.advance_height;
          advance_count = h.advance_count;
          tip_time = h.tip_time;
          scans_below = below.0;
          genesis = h.genesis;
        };
  }

  after_effects-Keeps :
      (b : ScanBlockFetch) (claims : List ClaimCandidate) (r : Result ScanBlockDone)
      → Keeps (IsConsistent env) (after_effects env b claims r)
  unfolding after_effects
  after_effects-Keeps b claims (err e) =
      then-Keeps (IsConsistent env) _ _ (note_error-Keeps env _ _) (fail-Keeps (IsConsistent env) _)
  after_effects-Keeps b claims (ok done) =
      bind-Keeps (IsConsistent env) _ _ (try_y3-Keeps b claims) λ u. count_scan-Keeps done

  read_effects-Keeps :
      (b : ScanBlockFetch) (claims : List ClaimCandidate) (r : Result (List Noun))
      → Keeps (IsConsistent env) (read_effects env b claims r)
  unfolding read_effects
  read_effects-Keeps b claims (err e) =
      then-Keeps (IsConsistent env) _ _ (try_note_error-Keeps env _ _)
        (fail-Keeps (IsConsistent env) _)
  read_effects-Keeps b claims (ok effects) = after_effects-Keeps b claims _

  poke_block-Keeps :
      (b : ScanBlockFetch) (page_tx : List Bytes) (claims : List ClaimCandidate)
      → Keeps (IsConsistent env) (poke_block env b page_tx claims)
  unfolding poke_block
  poke_block-Keeps b page_tx claims =
      let cause = build_scan_block_poke b.parent b.height b.page_digest page_tx claims in
      bind-Keeps (IsConsistent env) (poke_kernel cause) _ (poke_kernel-Keeps env cause)
        λ r. read_effects-Keeps b claims r

  with_page_tx-Keeps :
      (idx : ℕ) (injected : Option (List (List ClaimCandidate))) (b : ScanBlockFetch)
      (page_tx : List Bytes)
      → Keeps (IsConsistent env) (with_page_tx env idx injected b page_tx)
  unfolding with_page_tx
  with_page_tx-Keeps idx injected b page_tx =
      bind-Keeps (IsConsistent env) _ _
        (lift-Keeps (IsConsistent env) (block_claims env idx injected page_tx b))
        λ claims. poke_block-Keeps b page_tx claims

  apply_block-Keeps :
      (idx : ℕ) (injected : Option (List (List ClaimCandidate))) (b : ScanBlockFetch)
      → Keeps (IsConsistent env) (apply_block env idx injected b)
  unfolding apply_block
  apply_block-Keeps idx injected b =
      bind-Keeps (IsConsistent env) _ _
        (lift-Keeps (IsConsistent env)
          (or_context (canonical_z_set_tx_order b.page_tx_ids) "canonical tx-id order"))
        λ page_tx. with_page_tx-Keeps idx injected b page_tx

  apply_blocks-Keeps :
      (idx : ℕ) (injected : Option (List (List ClaimCandidate))) (last_done : Option ScanBlockDone)
      (bs : List ScanBlockFetch)
      → Keeps (IsConsistent env) (apply_blocks env idx injected last_done bs)
  unfolding apply_blocks
  apply_blocks-Keeps idx injected last_done [] = pure-Keeps (IsConsistent env) _
  apply_blocks-Keeps idx injected last_done (b ∷ bs) =
      bind-Keeps (IsConsistent env) _ _ (apply_block-Keeps idx injected b)
        λ done. apply_blocks-Keeps (suc idx) injected (some done) bs

  conclude-Keeps :
      (n : ℕ) (trace : Option FollowerScanTrace) (done : ScanBlockDone)
      → Keeps (IsConsistent env) (conclude env n trace done)
  unfolding conclude
  conclude-Keeps n none done =
      bind-Keeps (IsConsistent env) _ _ (now-Keeps env)
        λ t. pure-Keeps (IsConsistent env) (some (outcome done n))
  conclude-Keeps n (some trace) done = bind-Keeps (IsConsistent env) _ _ (now-Keeps env) λ t.
      then-Keeps (IsConsistent env) _ _ (record_advance-Keeps env done.height n t)
        (pure-Keeps (IsConsistent env) (some (outcome done n)))

  finish-Keeps :
      (n : ℕ) (trace : Option FollowerScanTrace) (last_done : Option ScanBlockDone)
      → Keeps (IsConsistent env) (finish env n trace last_done)
  unfolding finish
  finish-Keeps n trace last_done =
      bind-Keeps (IsConsistent env) _ _
        (lift-Keeps (IsConsistent env)
          (ok_or last_done (text "prefetch produced no blocks (internal error)")))
        λ done. conclude-Keeps n trace done

  apply_checked-Keeps :
      (bs : List ScanBlockFetch) (trace : Option FollowerScanTrace)
      (injected : Option (List (List ClaimCandidate)))
      → Keeps (IsConsistent env) (apply_checked env bs trace injected tt)
  unfolding apply_checked
  apply_checked-Keeps bs trace injected =
      bind-Keeps (IsConsistent env) _ _ (apply_blocks-Keeps 0 injected none bs)
        λ last_done. finish-Keeps (length bs) trace last_done

  apply_on_cursor-Keeps :
      (bs : List ScanBlockFetch) (trace : Option FollowerScanTrace)
      (injected : Option (List (List ClaimCandidate))) (s : ScanState)
      → Keeps (IsConsistent env) (apply_on_cursor env bs trace injected s)
  unfolding apply_on_cursor
  apply_on_cursor-Keeps bs trace injected s =
      bind-Keeps (IsConsistent env) _ _
        (lift-Keeps (IsConsistent env)
          (validate_scan_block_chain s.last_proved_height s.last_proved_digest bs))
        λ u. apply_checked-Keeps bs trace injected

  pub apply_prefetched-Keeps :
      (bs : List ScanBlockFetch) (trace : Option FollowerScanTrace)
      (injected : Option (List (List ClaimCandidate)))
      → Keeps (IsConsistent env) (apply_prefetched_scan_blocks_inner env bs trace injected)
  unfolding apply_prefetched_scan_blocks_inner
  apply_prefetched-Keeps [] trace injected = pure-Keeps (IsConsistent env) _
  apply_prefetched-Keeps (b ∷ bs) trace injected =
      bind-Keeps (IsConsistent env) _ _ peek_scan_state-Keeps
        λ s. apply_on_cursor-Keeps (b ∷ bs) trace injected s

  pub prove_genesis-Keeps : (s : ScanState) → Keeps (IsConsistent env) (prove_genesis env s)
  unfolding prove_genesis
  prove_genesis-Keeps s =
      if-Keeps (IsConsistent env) _ _ _
        (bind-Keeps (IsConsistent env) _ _
          (poke_kernel-Keeps env build_prove_recursive_genesis_poke)
          λ r.
            bind-Keeps (IsConsistent env) _ _
              (lift-Keeps (IsConsistent env) (or_context r "genesis recursive prove poke failed"))
              λ efx. pure-Keeps (IsConsistent env) tt)
        (pure-Keeps (IsConsistent env) tt)
