-- ===== src/Follower/Apply/Applied.antt =====
-- What a batch that is applied has shown.
use mathlib.Core.Path.{subst}
use nns.Base.{List, Option, [], ap, length, none, refl, some, suc, sym, ℕ, ◌∙◌, ◌∷◌, ◌≡◌}
use nns.Base.Result.{
  Result, err, ok, ok-injective, ok_or, ok_or-eq-ok, or_context, or_context-eq-ok, some-injective,
  text,
}
use nns.Base.Text.{Bytes, Str}
use nns.Chain.Blocks.{ScanBlockFetch, validate_scan_block_chain}
use nns.Chain.Node.{NodeApi}
use nns.Chain.TxOrder.{ZSetLib, canonical_z_set_tx_order}
use nns.Claim.{NoteLib}
use nns.Follower.Apply.{
  FollowerScanTrace, ScanBlockOutcome, apply_blocks, apply_checked, apply_on_cursor,
  apply_prefetched_scan_blocks_inner, conclude, finish, outcome,
}
use nns.Follower.Block.{
  after_effects, apply_block, block_claims, count_scan, done_or_error, peek_scan_state, poke_block,
  read_effects, read_scan_state, try_y3_recursive_transition_after_block, with_page_tx,
}
use nns.Follower.Monad.{Action, Env, KernelApi, World, lift, note_error, try_note_error, ◌>>=◌}
use nns.Kernel.Effects.{first_error_message, first_scan_block_done, first_scan_block_error}
use nns.Kernel.Peeks.{decode_scan_state}
use nns.Kernel.Peeks.Paths.{build_scan_state_peek}
use nns.Kernel.Pokes.{build_scan_block_poke}
use nns.Kernel.Types.{ClaimCandidate, ScanBlockDone, ScanState}
use nns.Noun.{Noun, NounLib}
use nns.Packed.{BeltLib}
use nns.Payment.{TxLib}

module _ {K A B : Type 0} where
  step-pair :
      (p : Result A × World K) (f : A → Action K B) (b : B) (v : World K)
      → (elim p.0 [ ok a ↦ f a p.1 | err e ↦ (err e, p.1) ]) ≡ (ok b, v)
      → (a : A) × (u : World K) × (p ≡ (ok a, u)) × (f a u ≡ (ok b, v))
  step-pair (ok a, u) f b v h = (a, u, refl, h)
  step-pair (err e, u) f b v h = cc

  -- A sequence that returns a result returned one at each step.
  step-ok :
      (m : Action K A) (f : A → Action K B) (w : World K) (b : B) (v : World K)
      → (m >>= f) w ≡ (ok b, v)
      → (a : A) × (u : World K) × (m w ≡ (ok a, u)) × (f a u ≡ (ok b, v))
  step-ok m f w b v h = step-pair (m w) f b v h

  lift-ok :
      (r : Result A) (f : A → Action K B) (w : World K) (b : B) (v : World K)
      → (lift r >>= f) w ≡ (ok b, v)
      → (a : A) × (r ≡ ok a) × (f a w ≡ (ok b, v))
  lift-ok (ok a) f w b v h = (a, refl, h)
  lift-ok (err e) f w b v h = cc

module _ ⦃k : KernelApi⦄ ⦃lib : NounLib⦄ ⦃node : NodeApi⦄ ⦃tx : TxLib⦄ ⦃z : ZSetLib⦄
    ⦃belt : BeltLib⦄ ⦃notes : NoteLib⦄ (env : Env) where
  -- The kernel's cursor at a state of the world.
  pub record Cursor (w : World k.State) (s : ScanState) : Type 0 where
    pub noun : Noun
    pub peeked : k.peek w.kernel build_scan_state_peek ≡ ok noun
    pub decoded_state : or_context (decode_scan_state noun) "scan-state decode failed" ≡ ok s

  read_scan_state-Cursor :
      (w : World k.State) (r : Result Noun) (s : ScanState) (v : World k.State)
      → k.peek w.kernel build_scan_state_peek ≡ r
      → read_scan_state env r w ≡ (ok s, v)
      → Cursor w s × (v ≡ w)
  unfolding read_scan_state note_error
  read_scan_state-Cursor w (err e) s v hr h = cc
  read_scan_state-Cursor w (ok noun) s v hr h =
      (record { noun = noun; peeked = hr; decoded_state = ap (λ p. p.0) h }, sym (ap (λ p. p.1) h))

  peek_scan_state-Cursor :
      (w : World k.State) (s : ScanState) (v : World k.State)
      → peek_scan_state env w ≡ (ok s, v)
      → Cursor w s × (v ≡ w)
  unfolding peek_scan_state
  peek_scan_state-Cursor w s v h =
      read_scan_state-Cursor w (k.peek w.kernel build_scan_state_peek) s v refl h

  -- One block of a batch, applied to a world: the kernel was poked with the canonical ids and the
  -- claims of the block, and its effects report the block as done and hold no error.
  pub record BlockDone (injected : Option (List (List ClaimCandidate))) (w : World k.State)
      (idx : ℕ) (b : ScanBlockFetch) (done : ScanBlockDone) : Type 0 where
    pub page_tx : List Bytes
    pub claims : List ClaimCandidate
    pub effects : List Noun
    pub canonical : canonical_z_set_tx_order b.page_tx_ids ≡ ok page_tx
    pub claims_of : block_claims env idx injected page_tx b ≡ ok claims
    pub poked :
        k.poke w.kernel (build_scan_block_poke b.parent b.height b.page_digest page_tx claims)
        ≡ ok effects
    pub no_scan_error : first_scan_block_error effects ≡ none
    pub no_error : first_error_message effects ≡ none
    pub reported : first_scan_block_done effects ≡ some done

  done_or_error-ok :
      (effects : List Noun) (a b : Option Str) (c : Option ScanBlockDone) (done : ScanBlockDone)
      → done_or_error env effects a b c ≡ ok done
      → (a ≡ none) × (b ≡ none) × (c ≡ some done)
  unfolding done_or_error
  done_or_error-ok effects (some x) b c done h = cc
  done_or_error-ok effects none (some x) c done h = cc
  done_or_error-ok effects none none none done h = cc
  done_or_error-ok effects none none (some d) done h = (refl, refl, ap some (ok-injective h))

  after_effects-ok :
      (b : ScanBlockFetch) (claims : List ClaimCandidate) (r : Result ScanBlockDone)
      (done : ScanBlockDone) (w v : World k.State)
      → after_effects env b claims r w ≡ (ok done, v)
      → r ≡ ok done
  unfolding after_effects note_error count_scan
  after_effects-ok b claims (err e) done w v h = cc
  after_effects-ok b claims (ok d) done w v h =
      let (_, u, _, h1) =
        step-ok (try_y3_recursive_transition_after_block env b claims) (λ x. count_scan env d) w
          done v h in
      ap (λ p. p.0) h1

  read_effects-ok :
      (b : ScanBlockFetch) (claims : List ClaimCandidate) (r : Result (List Noun))
      (done : ScanBlockDone) (w v : World k.State)
      → read_effects env b claims r w ≡ (ok done, v)
      → (effects : List Noun) × (r ≡ ok effects)
        × (first_scan_block_error effects ≡ none)
        × (first_error_message effects ≡ none)
        × (first_scan_block_done effects ≡ some done)
  unfolding read_effects try_note_error
  read_effects-ok b claims (err e) done w v h = cc
  read_effects-ok b claims (ok effects) done w v h =
      let r = after_effects-ok b claims _ done w v h in
      let (s, m, d) = done_or_error-ok effects _ _ _ done r in (effects, refl, s, m, d)

  apply_block-BlockDone :
      (idx : ℕ) (injected : Option (List (List ClaimCandidate))) (b : ScanBlockFetch)
      (done : ScanBlockDone) (w v : World k.State)
      → apply_block env idx injected b w ≡ (ok done, v)
      → BlockDone injected w idx b done
  unfolding apply_block with_page_tx poke_block
  apply_block-BlockDone idx injected b done w v h =
      let (page_tx, e1, h1) =
        lift-ok (or_context (canonical_z_set_tx_order b.page_tx_ids) "canonical tx-id order")
          (with_page_tx env idx injected b) w done v h in
      let (claims, e2, h2) =
        lift-ok (block_claims env idx injected page_tx b) (poke_block env b page_tx) w done v h1 in
      let cause = build_scan_block_poke b.parent b.height b.page_digest page_tx claims in
      let (effects, r, s, m, d) =
        read_effects-ok b claims (k.poke w.kernel cause) done
          (record w { kernel = k.after w.kernel cause }) v h2 in
      record {
        page_tx = page_tx;
        claims = claims;
        effects = effects;
        canonical = or_context-eq-ok _ "canonical tx-id order" e1;
        claims_of = e2;
        poked = r;
        no_scan_error = s;
        no_error = m;
        reported = d;
      }

  -- Blocks applied one after the other, each in the world that the one before it leaves, with what
  -- the kernel reports of the last one.
  pub data Run (injected : Option (List (List ClaimCandidate)))
      : World k.State → ℕ → List ScanBlockFetch → ScanBlockDone → Type 0 where
    final_block :
        {w : World k.State} {idx : ℕ} {b : ScanBlockFetch} {done : ScanBlockDone}
        → BlockDone injected w idx b done
        → Run injected w idx (b ∷ []) done
    block_then :
        {w v : World k.State} {idx : ℕ} {b c : ScanBlockFetch} {bs : List ScanBlockFetch}
        {d done : ScanBlockDone}
        → BlockDone injected w idx b d
        → apply_block env idx injected b w ≡ (ok d, v)
        → Run injected v (suc idx) (c ∷ bs) done
        → Run injected w idx (b ∷ c ∷ bs) done

  apply_blocks-Run :
      (idx : ℕ) (injected : Option (List (List ClaimCandidate))) (before : Option ScanBlockDone)
      (b : ScanBlockFetch) (bs : List ScanBlockFetch) (out : Option ScanBlockDone)
      (w v : World k.State)
      → apply_blocks env idx injected before (b ∷ bs) w ≡ (ok out, v)
      → (done : ScanBlockDone) × (out ≡ some done) × Run injected w idx (b ∷ bs) done
  unfolding apply_blocks
  apply_blocks-Run idx injected before b [] out w v h =
      let (d, u, e, h1) =
        step-ok (apply_block env idx injected b)
          (λ x. apply_blocks env (suc idx) injected (some x) []) w out v h in
      (
        d,
        ok-injective (sym (ap (λ p. p.0) h1)),
        final_block (apply_block-BlockDone idx injected b d w u e),
      )
  apply_blocks-Run idx injected before b (c ∷ bs) out w v h =
      let (d, u, e, h1) =
        step-ok (apply_block env idx injected b)
          (λ x. apply_blocks env (suc idx) injected (some x) (c ∷ bs)) w out v h in
      let (done, same, run) = apply_blocks-Run (suc idx) injected (some d) c bs out u v h1 in
      (done, same, block_then (apply_block-BlockDone idx injected b d w u e) e run)

  conclude-ok :
      (n : ℕ) (trace : Option FollowerScanTrace) (d : ScanBlockDone) (out : Option ScanBlockOutcome)
      (w v : World k.State)
      → conclude env n trace d w ≡ (ok out, v)
      → out ≡ some (outcome d n)
  unfolding conclude
  conclude-ok n none d out w v h = ok-injective (sym (ap (λ p. p.0) h))
  conclude-ok n (some t) d out w v h = ok-injective (sym (ap (λ p. p.0) h))

  -- A batch that is applied with an outcome was checked to be a chain on the kernel's cursor, each
  -- of its blocks was poked in its order with its canonical ids and its claims, and the kernel
  -- reported it as done without an error; the outcome is the report on the last block, with the
  -- number of blocks.
  pub apply_prefetched-Run :
      (b : ScanBlockFetch) (bs : List ScanBlockFetch) (trace : Option FollowerScanTrace)
      (injected : Option (List (List ClaimCandidate))) (out : Option ScanBlockOutcome)
      (w v : World k.State)
      → apply_prefetched_scan_blocks_inner env (b ∷ bs) trace injected w ≡ (ok out, v)
      → (s : ScanState) × (done : ScanBlockDone) × Cursor w s
        × (validate_scan_block_chain s.last_proved_height s.last_proved_digest (b ∷ bs) ≡ ok tt)
        × Run injected w 0 (b ∷ bs) done
        × (out ≡ some (outcome done (length (b ∷ bs))))
  unfolding apply_prefetched_scan_blocks_inner apply_on_cursor apply_checked finish
  apply_prefetched-Run b bs trace injected out w v h =
      let n = length (b ∷ bs) in
      let (s, u, e1, h1) =
        step-ok (peek_scan_state env) (apply_on_cursor env (b ∷ bs) trace injected) w out v h in
      let (cursor, same) = peek_scan_state-Cursor w s u e1 in
      let (_, e2, h2) =
        lift-ok (validate_scan_block_chain s.last_proved_height s.last_proved_digest (b ∷ bs))
          (apply_checked env (b ∷ bs) trace injected) u out v h1 in
      let (last_done, u3, e3, h3) =
        step-ok (apply_blocks env 0 injected none (b ∷ bs)) (finish env n trace) u out v h2 in
      let (done, is_some, run) = apply_blocks-Run 0 injected none b bs last_done u u3 e3 in
      let (d, e4, h4) =
        lift-ok (ok_or last_done (text "prefetch produced no blocks (internal error)"))
          (conclude env n trace) u3 out v h3 in
      let some_done : done ≡ d = some-injective (sym is_some ∙ ok_or-eq-ok last_done _ e4) in
      (
        s,
        done,
        cursor,
        e2,
        subst (λ x. Run injected x 0 (b ∷ bs) done) same run,
        subst (λ x. out ≡ some (outcome x n)) (sym some_done) (conclude-ok n trace d out u3 v h4),
      )
