-- ===== src/Follower/Block.antt =====
-- One block of a batch: its claims, the poke of the kernel, and what the effects say.
use nns.Base.{List, Option, [], drop, first_of, if◌then◌else◌, is_empty, none, some, ℕ}
use nns.Base.Result.{
  Error, Result, and_then, both, context, err, ok, or_context, panic, text, text_num, text_str,
  to_option,
}
use nns.Base.Text.{Bytes, Str, codes}
use nns.Chain.Blocks.{ScanBlockFetch}
use nns.Chain.Node.{NodeApi}
use nns.Chain.TxOrder.{ZSetLib, canonical_z_set_tx_order, sort_claims_by_z_set_tx_order}
use nns.Claim.{NoteLib}
use nns.Follower.Claims.{extract_claims}
use nns.Follower.Monad.{
  Action, Env, KernelApi, fail, lift, note_error, peek_kernel, poke_kernel, pure, try_note_error,
  ◌>>=◌, ◌>>◌,
}
use nns.Kernel.Effects.{
  first_error_message, first_scan_block_done, first_scan_block_error, format_effect_tags,
  has_effect, message,
}
use nns.Kernel.Peeks.{decode_recursive_proof, decode_scan_state}
use nns.Kernel.Peeks.Paths.{build_recursive_proof_peek, build_scan_state_peek}
use nns.Kernel.Pokes.{build_prove_recursive_transition_poke, build_scan_block_poke}
use nns.Kernel.Types.{ClaimCandidate, ScanBlockDone, ScanState}
use nns.Noun.{Noun, NounLib}
use nns.Packed.{BeltLib}
use nns.Payment.{TxLib}
use nns.State.{follower_persist_stride_blocks, maybe_persist_after_follower_scan}

module _ ⦃k : KernelApi⦄ ⦃lib : NounLib⦄ ⦃node : NodeApi⦄ ⦃tx : TxLib⦄ ⦃z : ZSetLib⦄
    ⦃belt : BeltLib⦄ ⦃notes : NoteLib⦄ (env : Env) where
  -- the scan state, or an error that is recorded under the phase `scan_peek`
  unfoldable pub read_scan_state : Result Noun → Action k.State ScanState
  unfolding decode_scan_state note_error
  read_scan_state (ok result) =
      lift (or_context (decode_scan_state result) "scan-state decode failed")
  read_scan_state (err e) =
      note_error env "scan_peek" (context "scan-state peek failed" e)
      >> fail (context "scan-state peek failed" e)

  unfoldable pub peek_scan_state : Action k.State ScanState
  unfolding read_scan_state
  peek_scan_state = peek_kernel build_scan_state_peek >>= read_scan_state

  -- `.ok()` on the peek, `.ok().flatten()` on its decoding
  abbrev pub previous_proof : Result Noun → Option (Bytes × Bytes × Bytes)
  unfolding decode_recursive_proof
  previous_proof r =
      and_then (to_option r)
        λ noun. and_then (to_option (decode_recursive_proof noun)) λ triple. triple

  -- an assertion of the builder that fails is a panic of the follower's task; the result of the
  -- poke is only logged
  unfoldable pub poke_transition : Option Noun → Action k.State (Unit {0})
  poke_transition none = fail panic
  poke_transition (some cause) = do efx ← poke_kernel cause; pure tt

  unfoldable pub prove_transition :
      ScanBlockFetch
      → List ClaimCandidate
      → Option (Bytes × Bytes × Bytes)
      → Action k.State (Unit {0})
  unfolding build_prove_recursive_transition_poke poke_transition
  prove_transition block claims none = pure tt
  prove_transition block claims (some (proof, subject, formula)) = poke_transition (
      build_prove_recursive_transition_poke proof subject formula block.page_digest
        block.page_tx_ids claims [])

  unfoldable pub try_y3_recursive_transition_after_block :
      ScanBlockFetch → List ClaimCandidate → Action k.State (Unit {0})
  unfolding previous_proof prove_transition
  try_y3_recursive_transition_after_block block claims =
      peek_kernel build_recursive_proof_peek >>= λ r.
      prove_transition block claims (previous_proof r)

  -- the claims of one block: those supplied, sorted, or those in its transactions
  unfoldable pub block_claims :
      ℕ
      → Option (List (List ClaimCandidate))
      → List Bytes
      → ScanBlockFetch
      → Result (List ClaimCandidate)
  unfolding sort_claims_by_z_set_tx_order extract_claims
  block_claims idx none page_tx block = extract_claims block.tx_details
  block_claims idx (some injected) page_tx block = elim (first_of (drop idx injected)) [
    | none ↦ err (text_num "injected claims missing for block index " idx)
    | some claims ↦
        or_context (sort_claims_by_z_set_tx_order page_tx claims) "sort injected scan claims"
  ]

  abbrev no_done_message : List Noun → Error
  unfolding has_effect format_effect_tags
  no_done_message effects =
      if has_effect effects (codes "invalid-cause")
      then text
          "%invalid-cause from kernel — `(soft cause)` failed (mold mismatch). Rebuild nns.jam from current hoon/app/app.hoon so `+$cause` includes `%scan-block`, point NNS_KERNEL_JAM at it, redeploy."
      else if is_empty effects
      then text
          "kernel did not emit %scan-block-done (empty effects — wrapper/nockapp returned no effects; if stderr shows `nns: invalid cause`, rebuild nns.jam; otherwise check nockapp poke wiring)"
      else both
          (text_str "kernel did not emit %scan-block-done (effect tags: "
            (format_effect_tags effects))
          (text "; check kernel JAM vs hull or scan-block-done noun shape)")

  -- record an error of the phase `scan_poke`, and return it
  abbrev poke_failed : {A : Type 0} → Error → Action k.State A
  unfolding note_error
  poke_failed e = note_error env "scan_poke" e >> fail e

  -- what the effects of a `%scan-block` poke say: the first of the kernel's errors, or the block
  unfoldable pub done_or_error :
      List Noun → Option Str → Option Str → Option ScanBlockDone → Result ScanBlockDone
  unfolding no_done_message
  done_or_error effects (some e) message answer = err (text_str "kernel rejected %scan-block: " e)
  done_or_error effects none (some e) answer = err (text_str "kernel rejected %scan-block: " e)
  done_or_error effects none none none = err (no_done_message effects)
  done_or_error effects none none (some done) = ok done

  -- the count of scans goes on
  unfoldable pub count_scan : ScanBlockDone → Action k.State ScanBlockDone
  unfolding follower_persist_stride_blocks maybe_persist_after_follower_scan
  count_scan done w = (
    ok done,
    record w {
      scans_since_checkpoint =
          maybe_persist_after_follower_scan (follower_persist_stride_blocks env.persist_every)
            w.scans_since_checkpoint;
    },
  )

  unfoldable pub after_effects :
      ScanBlockFetch → List ClaimCandidate → Result ScanBlockDone → Action k.State ScanBlockDone
  unfolding try_y3_recursive_transition_after_block note_error count_scan
  after_effects block claims (err e) = poke_failed e
  after_effects block claims (ok done) =
      try_y3_recursive_transition_after_block block claims >>= λ u. count_scan done

  -- the result of the poke
  unfoldable pub read_effects :
      ScanBlockFetch → List ClaimCandidate → Result (List Noun) → Action k.State ScanBlockDone
  unfolding try_note_error after_effects done_or_error
  read_effects block claims (err e) =
      try_note_error env "scan_poke" (context "scan-block poke failed" e)
      >> fail (context "scan-block poke failed" e)
  read_effects block claims (ok effects) = after_effects block claims (
      done_or_error effects (first_scan_block_error effects) (first_error_message effects)
        (first_scan_block_done effects))

  unfoldable pub poke_block :
      ScanBlockFetch → List Bytes → List ClaimCandidate → Action k.State ScanBlockDone
  unfolding build_scan_block_poke read_effects
  poke_block block page_tx claims =
      poke_kernel (build_scan_block_poke block.parent block.height block.page_digest page_tx claims)
      >>= read_effects block claims

  unfoldable pub with_page_tx :
      ℕ
      → Option (List (List ClaimCandidate))
      → ScanBlockFetch
      → List Bytes
      → Action k.State ScanBlockDone
  unfolding block_claims poke_block
  with_page_tx idx injected block page_tx =
      lift (block_claims idx injected page_tx block) >>= poke_block block page_tx

  -- the body of the loop: one block
  unfoldable pub apply_block :
      ℕ → Option (List (List ClaimCandidate)) → ScanBlockFetch → Action k.State ScanBlockDone
  unfolding canonical_z_set_tx_order with_page_tx
  apply_block idx injected block =
      lift (or_context (canonical_z_set_tx_order block.page_tx_ids) "canonical tx-id order")
      >>= with_page_tx idx injected block
