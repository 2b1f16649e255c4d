-- ===== src/Follower/Apply/Progress.antt =====
-- When a batch is applied.
use mathlib.Core.Path.{subst}
use nns.Base.{List, Option, [], ap, length, none, refl, some, suc, ℕ, ◌∙◌, ◌∷◌, ◌≡◌}
use nns.Base.Result.{Result, err, ok, or_context}
use nns.Base.Text.{Bytes}
use nns.Chain.Blocks.{ScanBlockFetch, validate_scan_block_chain}
use nns.Chain.Node.{NodeApi}
use nns.Chain.TxOrder.{ZSetLib, canonical_z_set_tx_order}
use nns.Claim.{NoteLib}
use nns.Follower.Apply.{
  FollowerScanTrace, apply_blocks, apply_checked, apply_on_cursor,
  apply_prefetched_scan_blocks_inner, conclude, finish, outcome,
}
use nns.Follower.Apply.Applied.{BlockDone, Cursor}
use nns.Follower.Block.{
  after_effects, apply_block, block_claims, count_scan, done_or_error, peek_scan_state, poke_block,
  poke_transition, previous_proof, prove_transition, read_effects, read_scan_state,
  try_y3_recursive_transition_after_block, with_page_tx,
}
use nns.Follower.Claims.{extract_claims}
use nns.Follower.Claims.Tip5Ids.{extracted-transition_poke}
use nns.Follower.Monad.{Action, Env, KernelApi, World, lift, ◌>>=◌}
use nns.Kernel.Effects.{first_error_message, first_scan_block_done, first_scan_block_error}
use nns.Kernel.Peeks.Paths.{build_recursive_proof_peek}
use nns.Kernel.Pokes.{build_scan_block_poke}
use nns.Kernel.Types.{ClaimCandidate, ScanBlockDone, ScanState}
use nns.Noun.{Noun, NounLib}
use nns.Packed.{BeltLib}
use nns.Payment.{TxLib}
use nns.Rpc.{TransactionDetails}

module _ {K A B : Type 0} where
  pub bind-returns :
      (m : Action K A) (f : A → Action K B) (w : World K) (a : A) (u : World K)
      → m w ≡ (ok a, u)
      → (m >>= f) w ≡ f a u
  bind-returns m f w a u e = ap (λ p. elim p.0 [ ok x ↦ f x p.1 | err x ↦ (err x, p.1) ]) e

  pub lift-returns :
      (r : Result A) (f : A → Action K B) (w : World K) (a : A)
      → r ≡ ok a
      → (lift r >>= f) w ≡ f a w
  lift-returns r f w a e = ap (λ x. (lift x >>= f) w) e

module _ ⦃k : KernelApi⦄ ⦃lib : NounLib⦄ ⦃node : NodeApi⦄ ⦃tx : TxLib⦄ ⦃z : ZSetLib⦄
    ⦃belt : BeltLib⦄ ⦃notes : NoteLib⦄ (env : Env) where
  -- An action returns a result, in some world.
  Returns : {A : Type 0} → Action k.State A → World k.State → A → Type 0
  Returns m w a = (v : World k.State) × (m w ≡ (ok a, v))

  poke_transition-Returns :
      (cause : Option Noun) (noun : Noun) (w : World k.State)
      → cause ≡ some noun
      → Returns (poke_transition env cause) w tt
  unfolding Returns poke_transition
  poke_transition-Returns none noun w e = cc
  poke_transition-Returns (some cause) noun w e = (_, refl)

  -- The proof of a transition returns, whatever proof the kernel holds and whatever it answers.
  prove_transition-Returns :
      (b : ScanBlockFetch) (ts : List TransactionDetails) (cs : List ClaimCandidate)
      (previous : Option (Bytes × Bytes × Bytes)) (w : World k.State)
      → extract_claims ts ≡ ok cs
      → Returns (prove_transition env b cs previous) w tt
  unfolding Returns prove_transition
  prove_transition-Returns b ts cs none w e = (w, refl)
  prove_transition-Returns b ts cs (some (p, s, f)) w e =
      let (noun, built) = extracted-transition_poke ts cs p s f b.page_digest b.page_tx_ids [] e in
      poke_transition-Returns _ noun w built

  after_effects-Returns :
      (b : ScanBlockFetch) (ts : List TransactionDetails) (cs : List ClaimCandidate)
      (done : ScanBlockDone) (w : World k.State)
      → extract_claims ts ≡ ok cs
      → Returns (after_effects env b cs (ok done)) w done
  unfolding Returns after_effects try_y3_recursive_transition_after_block count_scan
  after_effects-Returns b ts cs done w e =
      let (u, proved) =
        prove_transition-Returns b ts cs
          (previous_proof env (k.peek w.kernel build_recursive_proof_peek)) w e in
      (
        _,
        bind-returns (try_y3_recursive_transition_after_block env b cs) (λ x. count_scan env done) w
            tt u proved,
      )

  done_or_error-reported :
      (effects : List Noun) (done : ScanBlockDone)
      → first_scan_block_error effects ≡ none
      → first_error_message effects ≡ none
      → first_scan_block_done effects ≡ some done
      → done_or_error env effects
          (first_scan_block_error effects)
          (first_error_message effects)
          (first_scan_block_done effects)
        ≡ ok done
  unfolding done_or_error
  done_or_error-reported effects done s m d = rw (s, m, d) refl

  apply_block-Returns :
      (idx : ℕ) (b : ScanBlockFetch) (done : ScanBlockDone) (w : World k.State)
      → BlockDone env none w idx b done
      → Returns (apply_block env idx none b) w done
  unfolding Returns apply_block with_page_tx poke_block read_effects
  apply_block-Returns idx b done w h =
      let cause = build_scan_block_poke b.parent b.height b.page_digest h.page_tx h.claims in
      let after = record w { kernel = k.after w.kernel cause } in
      let (v, returned) = after_effects-Returns b b.tx_details h.claims done after h.claims_of in
      (
        v,
        lift-returns (or_context (canonical_z_set_tx_order b.page_tx_ids) "canonical tx-id order")
              (with_page_tx env idx none b) w h.page_tx
              (ap (λ r. or_context r "canonical tx-id order") h.canonical)
            ∙ lift-returns (block_claims env idx none h.page_tx b) (poke_block env b h.page_tx) w
                h.claims h.claims_of
            ∙ ap (λ r. read_effects env b h.claims r after) h.poked
            ∙ ap (λ r. after_effects env b h.claims r after)
                (done_or_error-reported h.effects done h.no_scan_error h.no_error h.reported)
            ∙ returned,
      )

  -- The kernel reports each block of a batch as done, without an error, as it is when the block's
  -- turn comes; the last report is the one given.
  pub data Reported : World k.State → ℕ → List ScanBlockFetch → ScanBlockDone → Type 0 where
    last_report :
        {w : World k.State} {idx : ℕ} {b : ScanBlockFetch} {done : ScanBlockDone}
        → BlockDone env none w idx b done
        → Reported w idx (b ∷ []) done
    report_then :
        {w : World k.State} {idx : ℕ} {b c : ScanBlockFetch} {bs : List ScanBlockFetch}
        {d done : ScanBlockDone}
        → BlockDone env none w idx b d
        → Reported (apply_block env idx none b w).1 (suc idx) (c ∷ bs) done
        → Reported w idx (b ∷ c ∷ bs) done

  apply_blocks-Returns :
      (idx : ℕ) (before : Option ScanBlockDone) (b : ScanBlockFetch) (bs : List ScanBlockFetch)
      (done : ScanBlockDone) (w : World k.State)
      → Reported w idx (b ∷ bs) done
      → Returns (apply_blocks env idx none before (b ∷ bs)) w (some done)
  unfolding Returns apply_blocks
  apply_blocks-Returns idx before b [] done w (last_report h) =
      let (v, e) = apply_block-Returns idx b done w h in
      (
        v,
        bind-returns (apply_block env idx none b) (λ x. apply_blocks env (suc idx) none (some x) [])
            w done v e,
      )
  apply_blocks-Returns idx before b (c ∷ bs) done w (report_then {d = d} h more) =
      let (u, e) = apply_block-Returns idx b d w h in
      let (v, rest) =
        apply_blocks-Returns (suc idx) (some d) c bs done u
          (subst (λ x. Reported x (suc idx) (c ∷ bs) done) (ap (λ p. p.1) e) more) in
      (
        v,
        bind-returns (apply_block env idx none b)
              (λ x. apply_blocks env (suc idx) none (some x) (c ∷ bs)) w d u e
            ∙ rest,
      )

  conclude-Returns :
      (n : ℕ) (trace : Option FollowerScanTrace) (done : ScanBlockDone) (w : World k.State)
      → Returns (conclude env n trace done) w (some (outcome done n))
  unfolding Returns conclude
  conclude-Returns n none done w = (_, refl)
  conclude-Returns n (some t) done w = (_, refl)

  pub Cursor-peek_scan_state :
      (w : World k.State) (s : ScanState) → Cursor env w s → peek_scan_state env w ≡ (ok s, w)
  unfolding peek_scan_state read_scan_state
  Cursor-peek_scan_state w s h =
      ap (λ r. read_scan_state env r w) h.peeked ∙ ap (λ r. (r, w)) h.decoded_state

  -- A batch that the kernel reports as done comes to the end of its application.
  pub apply_prefetched-conclude :
      (b : ScanBlockFetch) (bs : List ScanBlockFetch) (trace : Option FollowerScanTrace)
      (s : ScanState) (done : ScanBlockDone) (w : World k.State)
      → Cursor env w s
      → validate_scan_block_chain s.last_proved_height s.last_proved_digest (b ∷ bs) ≡ ok tt
      → Reported w 0 (b ∷ bs) done
      → (u : World k.State) × (apply_prefetched_scan_blocks_inner env (b ∷ bs) trace none w
          ≡ conclude env (length (b ∷ bs)) trace done u)
  unfolding apply_prefetched_scan_blocks_inner apply_on_cursor apply_checked finish Returns
  apply_prefetched-conclude b bs trace s done w cursor chained reported =
      let (u, applied) = apply_blocks-Returns 0 none b bs done w reported in
      (
        u,
        bind-returns (peek_scan_state env) (apply_on_cursor env (b ∷ bs) trace none) w s w
              (Cursor-peek_scan_state w s cursor)
            ∙ lift-returns
                (validate_scan_block_chain s.last_proved_height s.last_proved_digest (b ∷ bs))
                (apply_checked env (b ∷ bs) trace none) w tt chained
            ∙ bind-returns (apply_blocks env 0 none none (b ∷ bs))
                (finish env (length (b ∷ bs)) trace) w (some done) u applied,
      )

  -- A batch that is a chain on the kernel's cursor, each of whose blocks the kernel reports as done
  -- in its turn, is applied with the last report: neither the proofs of transitions nor the
  -- telemetry can stop it.
  pub apply_prefetched-progress :
      (b : ScanBlockFetch) (bs : List ScanBlockFetch) (trace : Option FollowerScanTrace)
      (s : ScanState) (done : ScanBlockDone) (w : World k.State)
      → Cursor env w s
      → validate_scan_block_chain s.last_proved_height s.last_proved_digest (b ∷ bs) ≡ ok tt
      → Reported w 0 (b ∷ bs) done
      → (v : World k.State) × (apply_prefetched_scan_blocks_inner env (b ∷ bs) trace none w
          ≡ (ok (some (outcome done (length (b ∷ bs)))), v))
  unfolding Returns
  apply_prefetched-progress b bs trace s done w cursor chained reported =
      let (u, e) = apply_prefetched-conclude b bs trace s done w cursor chained reported in
      let (v, concluded) = conclude-Returns (length (b ∷ bs)) trace done u in (v, e ∙ concluded)
