-- ===== src/Follower/Tick/Advances.antt =====
-- A round that moves on.
use mathlib.Core.Option
use nns.Base.{
  List, Option, ap, arith, false, first_of, last_of, leb, length, ltb, none, refl, some, suc, ℕ,
  ◌-◌, ◌<◌, ◌∙◌, ◌∷◌, ◌≡◌, ◌≤◌,
}
use nns.Base.Result.{Result, ok}
use nns.Base.Text.{Str}
use nns.Chain.Blocks.{ScanBlockFetch, prefetch_scan_blocks_for_heights, validate_scan_block_chain}
use nns.Chain.Digest.{scan_cursor_is_genesis_boot}
use nns.Chain.Node.{NodeApi}
use nns.Chain.Queries.{fetch_current_tip_height}
use nns.Chain.TxOrder.{ZSetLib}
use nns.Claim.{NoteLib}
use nns.Follower.Apply.{
  FollowerScanTrace, ScanBlockOutcome, apply_prefetched_scan_blocks_inner, conclude,
}
use nns.Follower.Apply.Applied.{Cursor}
use nns.Follower.Apply.Progress.{
  Cursor-peek_scan_state, Reported, apply_prefetched-conclude, bind-returns, lift-returns,
}
use nns.Follower.Block.{peek_scan_state}
use nns.Follower.Monad.{Action, Env, KernelApi, World, get, now, on_follower, update, ◌>>=◌, ◌>>◌}
use nns.Follower.Scan.{
  batch_heights, next_height, plan_tip, prove_genesis, scan_batch, scan_endpoint, scan_final,
  scan_from, scan_once, tip_or_error,
}
use nns.Follower.Tick.{after_scan, tick, yield_now}
use nns.Kernel.Types.{ScanBlockDone, ScanState}
use nns.Noun.{NounLib}
use nns.Packed.{BeltLib}
use nns.Payment.{TxLib}
use nns.State.{HullState, record_advance, record_chain_tip}

module _ ⦃k : KernelApi⦄ ⦃lib : NounLib⦄ ⦃node : NodeApi⦄ ⦃tx : TxLib⦄ ⦃z : ZSetLib⦄
    ⦃belt : BeltLib⦄ ⦃notes : NoteLib⦄ (env : Env) where
  -- the world once the tip of the chain is recorded
  abbrev pub tip_seen : ℕ → World k.State → World k.State
  unfolding record_chain_tip
  tip_seen tip w =
      on_follower (record_chain_tip tip (env.now_epoch_ms w.readings))
        (record w { readings = suc w.readings })

  -- What a round needs to move on from the kernel's cursor `s`: a node with final blocks, which it
  -- serves, and a kernel that reports them as done.
  pub record Ready (w : World k.State) (b : ScanBlockFetch) (bs : List ScanBlockFetch)
      (done : ScanBlockDone) : Type 0 where
    pub endpoint : Str
    pub cursor_state : ScanState
    pub tip : ℕ
    pub not_local : w.hull.settlement.is_local ≡ false
    pub configured : w.hull.settlement.chain_endpoint ≡ some endpoint
    pub cursor : Cursor env w cursor_state
    pub after_boot :
        scan_cursor_is_genesis_boot cursor_state.last_proved_height cursor_state.last_proved_digest
        ≡ false
    pub tip_known : fetch_current_tip_height endpoint ≡ ok tip
    pub deep : 10 < tip
    pub final_next : next_height w.hull cursor_state ≤ tip - 10
    pub served :
        prefetch_scan_blocks_for_heights endpoint
          (batch_heights env.batch_blocks (next_height w.hull cursor_state) (tip - 10))
        ≡ ok (b ∷ bs)
    pub chained :
        validate_scan_block_chain cursor_state.last_proved_height cursor_state.last_proved_digest
          (b ∷ bs)
        ≡ ok tt
    pub reported : Reported env (tip_seen tip w) 0 (b ∷ bs) done

  -- the steps of a scan after the cursor is read, and after the tip is known
  abbrev pub with_tip : Str → ScanState → ℕ → Action k.State (Option ScanBlockOutcome)
  unfolding record_chain_tip scan_final
  with_tip endpoint s tip = do
    time ← now env
    update (on_follower (record_chain_tip tip time))
    w ← get
    scan_final env endpoint s tip w.hull

  abbrev pub with_cursor : Str → ScanState → Action k.State (Option ScanBlockOutcome)
  unfolding prove_genesis plan_tip with_tip
  with_cursor endpoint s = prove_genesis env s >> (plan_tip env endpoint >>= with_tip endpoint s)

  abbrev then_apply : ℕ → ℕ → List ScanBlockFetch → Action k.State (Option ScanBlockOutcome)
  unfolding apply_prefetched_scan_blocks_inner
  then_apply tip next prefetched =
      apply_prefetched_scan_blocks_inner env prefetched
        (some (record {
          chain_tip = tip;
          finalized_height = tip - 10;
          batch_lo = Option.get_or (Option.map (λ x. x.height) (first_of prefetched)) next;
          batch_end = Option.get_or (Option.map (λ x. x.height) (last_of prefetched)) next;
        }))
        none

  scan_batch-conclude :
      (b : ScanBlockFetch) (bs : List ScanBlockFetch) (done : ScanBlockDone) (w : World k.State)
      (h : Ready w b bs done)
      → (trace : FollowerScanTrace) × (u : World k.State) × (scan_batch env h.endpoint h.tip
            (h.tip - 10)
            (next_height w.hull h.cursor_state)
            (tip_seen h.tip w)
          ≡ conclude env (length (b ∷ bs)) (some trace) done u)
  unfolding scan_batch tip_seen
  scan_batch-conclude b bs done w h =
      let seen = tip_seen h.tip w in
      let still : Cursor env seen h.cursor_state = record {
        noun = h.cursor.noun;
        peeked = h.cursor.peeked;
        decoded_state = h.cursor.decoded_state;
      } in
      let trace : FollowerScanTrace = record {
        chain_tip = h.tip;
        finalized_height = h.tip - 10;
        batch_lo = b.height;
        batch_end =
            Option.get_or (Option.map (λ x. x.height) (last_of (b ∷ bs)))
              (next_height w.hull h.cursor_state);
      } in
      let (u, e) =
        apply_prefetched-conclude env b bs (some trace) h.cursor_state done seen still h.chained
          h.reported in
      (
        trace,
        u,
        lift-returns _ (then_apply h.tip (next_height w.hull h.cursor_state)) seen (b ∷ bs) h.served
            ∙ e,
      )

  pub prove_genesis-past :
      (s : ScanState) (w : World k.State)
      → scan_cursor_is_genesis_boot s.last_proved_height s.last_proved_digest ≡ false
      → prove_genesis env s w ≡ (ok tt, w)
  unfolding prove_genesis
  prove_genesis-past s w e = rw e refl

  plan_tip-known :
      (endpoint : Str) (tip : ℕ) (w : World k.State)
      → fetch_current_tip_height endpoint ≡ ok tip
      → plan_tip env endpoint w ≡ (ok tip, w)
  unfolding plan_tip tip_or_error
  plan_tip-known endpoint tip w e = ap (λ r. tip_or_error env r w) e

  scan_from-final :
      (b : ScanBlockFetch) (bs : List ScanBlockFetch) (done : ScanBlockDone) (w : World k.State)
      (h : Ready w b bs done)
      → scan_from env h.endpoint w
        ≡ scan_final env h.endpoint h.cursor_state h.tip w.hull (tip_seen h.tip w)
  unfolding scan_from with_cursor with_tip tip_seen next_height
  scan_from-final b bs done w h =
      bind-returns (peek_scan_state env) (with_cursor h.endpoint) w h.cursor_state w
        (Cursor-peek_scan_state env w h.cursor_state h.cursor)
      ∙ bind-returns (prove_genesis env h.cursor_state)
          (λ u. plan_tip env h.endpoint >>= with_tip h.endpoint h.cursor_state) w tt w
          (prove_genesis-past h.cursor_state w h.after_boot)
      ∙ bind-returns (plan_tip env h.endpoint) (with_tip h.endpoint h.cursor_state) w h.tip w
          (plan_tip-known h.endpoint h.tip w h.tip_known)

  scan_final-deep :
      (endpoint : Str) (s : ScanState) (tip : ℕ) (hull : HullState) (w : World k.State)
      → 10 < tip
      → next_height hull s ≤ tip - 10
      → scan_final env endpoint s tip hull w
        ≡ scan_batch env endpoint tip (tip - 10) (next_height hull s) w
  unfolding scan_final
  scan_final-deep endpoint s tip hull w deep near =
      let not_shallow : leb tip 10 ≡ false = ground arith in
      let not_past : ltb (tip - 10) (next_height hull s) ≡ false = ground arith in
      rw (not_shallow, not_past) refl

  scan_once-conclude :
      (b : ScanBlockFetch) (bs : List ScanBlockFetch) (done : ScanBlockDone) (w : World k.State)
      → Ready w b bs done
      → (trace : FollowerScanTrace) × (u : World k.State) × (scan_once env w
          ≡ conclude env (length (b ∷ bs)) (some trace) done u)
  unfolding scan_once scan_endpoint
  scan_once-conclude b bs done w h =
      let (trace, u, e) = scan_batch-conclude b bs done w h in
      let started : scan_once env w ≡ scan_from env h.endpoint w =
        rw (h.not_local, h.configured) refl in
      (
        trace,
        u,
        started
            ∙ scan_from-final b bs done w h
            ∙ scan_final-deep h.endpoint h.cursor_state h.tip w.hull (tip_seen h.tip w) h.deep
                h.final_next
            ∙ e,
      )

  concluded :
      (n : ℕ) (trace : FollowerScanTrace) (done : ScanBlockDone) (u : World k.State)
      (r : Result (Option ScanBlockOutcome) × World k.State)
      → r ≡ conclude env n (some trace) done u
      → ((after_scan env r.0 r.1).0 ≡ yield_now)
        × ((after_scan env r.0 r.1).1.hull.follower.last_advance_tip_height ≡ some done.height)
        × ((after_scan env r.0 r.1).1.hull.follower.last_advance_count ≡ some n)
        × ((after_scan env r.0 r.1).1.hull.follower.last_error ≡ none)
  unfolding after_scan conclude record_advance
  concluded n trace done u r e = rw e (refl, refl, refl, refl)

  -- A round that is ready moves on: it scans the whole batch, goes on without a sleep, and leaves
  -- in the telemetry the height that the kernel reported last, the number of blocks, and no error.
  pub tick-advances :
      (b : ScanBlockFetch) (bs : List ScanBlockFetch) (done : ScanBlockDone) (w : World k.State)
      → Ready w b bs done
      → ((tick env w).0 ≡ yield_now)
        × ((tick env w).1.hull.follower.last_advance_tip_height ≡ some done.height)
        × ((tick env w).1.hull.follower.last_advance_count ≡ some (length (b ∷ bs)))
        × ((tick env w).1.hull.follower.last_error ≡ none)
  unfolding tick
  tick-advances b bs done w h =
      let (trace, u, e) = scan_once-conclude b bs done w h in
      concluded (length (b ∷ bs)) trace done u (scan_once env w) e
