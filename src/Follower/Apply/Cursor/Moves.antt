-- ===== src/Follower/Apply/Cursor/Moves.antt =====
-- How far the blocks of a batch move the kernel's cursor, whatever fails on the way.
use nns.Base.{List, Option, [], inl, inr, none, refl, some, suc, take, ℕ, ◌∙◌, ◌∷◌, ◌≡◌}
use nns.Base.Result.{Error, Result, context, err, ok, or_context}
use nns.Base.Text.{Bytes, Str}
use nns.Chain.Blocks.{ScanBlockFetch}
use nns.Chain.Blocks.Chained.{cursor_after}
use nns.Chain.Node.{NodeApi}
use nns.Chain.TxOrder.{ZSetLib, canonical_z_set_tx_order}
use nns.Claim.{NoteLib}
use nns.Follower.Apply.{apply_blocks}
use nns.Follower.Apply.Cursor.{KernelCursor, ShowsIn}
use nns.Follower.Apply.Cursor.Steps.{read_effects-Shows}
use nns.Follower.Block.{
  after_effects, apply_block, block_claims, done_or_error, poke_block, read_effects, with_page_tx,
}
use nns.Follower.Monad.{Action, Env, KernelApi, World, lift, note_error, try_note_error, ◌>>=◌}
use nns.Kernel.Effects.{first_error_message, first_scan_block_done, first_scan_block_error}
use nns.Kernel.Pokes.{build_scan_block_poke}
use nns.Kernel.Types.{ClaimCandidate, ScanBlockDone}
use nns.Noun.{Noun, NounLib}
use nns.Packed.{BeltLib}
use nns.Payment.{TxLib}

module _ ⦃k : KernelApi⦄ ⦃lib : NounLib⦄ ⦃node : NodeApi⦄ ⦃tx : TxLib⦄ ⦃z : ZSetLib⦄
    ⦃belt : BeltLib⦄ ⦃notes : NoteLib⦄ (cursor : KernelCursor) (env : Env) where
  -- What one block does: it fails and leaves the cursor, or the cursor is at the block.
  data Moved (at : ℕ × Bytes) (b : ScanBlockFetch) {A : Type 0} (p : Result A × World k.State)
      : Type 0 where
    stayed : (e : Error) → p.0 ≡ err e → ShowsIn cursor at p.1 → Moved at b p
    advanced : ShowsIn cursor (b.height, b.page_digest) p.1 → Moved at b p

  lift-Moved :
      {A B : Type 0} (at : ℕ × Bytes) (b : ScanBlockFetch) (r : Result A) (f : A → Action k.State B)
      (w : World k.State)
      → ShowsIn cursor at w
      → ((a : A) → Moved at b (f a w))
      → Moved at b ((lift r >>= f) w)
  lift-Moved at b (ok a) f w h m = m a
  lift-Moved at b (err e) f w h m = stayed e refl h

  no_report-error :
      (effects : List Noun) (a b : Option Str)
      → (e : Error) × (done_or_error env effects a b none ≡ err e)
  unfolding done_or_error
  no_report-error effects (some x) b = (_, refl)
  no_report-error effects none (some x) = (_, refl)
  no_report-error effects none none = (_, refl)

  -- the effects of a poke that report no block are an error
  read_effects-error :
      (b : ScanBlockFetch) (claims : List ClaimCandidate) (r : Result (List Noun))
      (w : World k.State)
      → ((effects : List Noun) → r ≡ ok effects → first_scan_block_done effects ≡ none)
      → (e : Error) × ((read_effects env b claims r w).0 ≡ err e)
  unfolding read_effects after_effects try_note_error note_error
  read_effects-error b claims (err e) w h = (context "scan-block poke failed" e, refl)
  read_effects-error b claims (ok effects) w h =
      let (e, is_error) =
        no_report-error effects (first_scan_block_error effects) (first_error_message effects) in
      (e, rw (h effects refl, is_error) refl)

  poke_block-Moved :
      (at : ℕ × Bytes) (b : ScanBlockFetch) (page_tx : List Bytes) (claims : List ClaimCandidate)
      (w : World k.State)
      → ShowsIn cursor at w
      → Moved at b (poke_block env b page_tx claims w)
  unfolding poke_block
  poke_block-Moved at b page_tx claims w h =
      let cause = build_scan_block_poke b.parent b.height b.page_digest page_tx claims in
      let r = k.poke w.kernel cause in
      let u = record w { kernel = k.after w.kernel cause } in
      elim (cursor.scanned w.kernel b.parent b.height b.page_digest page_tx claims) [
        | inl (height, digest) ↦ advanced (
            (read_effects-Shows cursor env (b.height, b.page_digest) b claims r).after u
              (record { height = height; digest = digest }))
        | inr (height, digest, silent) ↦
            let (e, is_error) = read_effects-error b claims r u silent in
            stayed e is_error (
              (read_effects-Shows cursor env at b claims r).after u
                (record { height = height ∙ h.height; digest = digest ∙ h.digest }))
      ]

  apply_block-Moved :
      (at : ℕ × Bytes) (idx : ℕ) (injected : Option (List (List ClaimCandidate)))
      (b : ScanBlockFetch) (w : World k.State)
      → ShowsIn cursor at w
      → Moved at b (apply_block env idx injected b w)
  unfolding apply_block with_page_tx
  apply_block-Moved at idx injected b w h =
      lift-Moved at b (or_context (canonical_z_set_tx_order b.page_tx_ids) "canonical tx-id order")
        (with_page_tx env idx injected b) w h
        λ page_tx.
          lift-Moved at b (block_claims env idx injected page_tx b) (poke_block env b page_tx) w h
            λ claims. poke_block-Moved at b page_tx claims w h

  -- The blocks of a batch that have been scanned are a prefix of it, and the cursor is at its end.
  pub record Prefix (at : ℕ × Bytes) (bs : List ScanBlockFetch) (v : World k.State) : Type 0 where
    pub count : ℕ
    pub at_end : ShowsIn cursor (cursor_after at (take count bs)) v

  after_block :
      {A : Type 0} (at : ℕ × Bytes) (b : ScanBlockFetch) (bs : List ScanBlockFetch)
      (p : Result ScanBlockDone × World k.State) (f : ScanBlockDone → Action k.State A)
      → Moved at b p
      → ((d : ScanBlockDone) (u : World k.State)
          → ShowsIn cursor (b.height, b.page_digest) u
          → Prefix (b.height, b.page_digest) bs (f d u).1)
      → let q : Result A × World k.State = elim p.0 [ ok a ↦ f a p.1 | err e ↦ (err e, p.1) ] in
        Prefix at (b ∷ bs) q.1
  after_block at b bs (err x, u) f (stayed e _ h) rest = record { count = 0; at_end = h }
  after_block at b bs (ok x, u) f (stayed e same h) rest = cc
  after_block at b bs (err x, u) f (advanced h) rest = record { count = 1; at_end = h }
  after_block at b bs (ok d, u) f (advanced h) rest =
      let more = rest d u h in record { count = suc more.count; at_end = more.at_end }

  pub apply_blocks-Prefix :
      (at : ℕ × Bytes) (idx : ℕ) (injected : Option (List (List ClaimCandidate)))
      (last_done : Option ScanBlockDone) (bs : List ScanBlockFetch) (w : World k.State)
      → ShowsIn cursor at w
      → Prefix at bs (apply_blocks env idx injected last_done bs w).1
  unfolding apply_blocks
  apply_blocks-Prefix at idx injected last_done [] w h = record { count = 0; at_end = h }
  apply_blocks-Prefix at idx injected last_done (b ∷ bs) w h =
      after_block at b bs (apply_block env idx injected b w)
        (λ done. apply_blocks env (suc idx) injected (some done) bs)
        (apply_block-Moved at idx injected b w h)
        λ d u hu. apply_blocks-Prefix (b.height, b.page_digest) (suc idx) injected (some d) bs u hu
