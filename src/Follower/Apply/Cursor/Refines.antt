-- ===== src/Follower/Apply/Cursor/Refines.antt =====
-- Batches extend one chain of blocks.
use mathlib.Core.Path.{subst}
use nns.Base.{All, List, Option, [], length, none, refl, some, take, ℕ, ◌∙◌, ◌∷◌, ◌≡◌}
use nns.Base.Result.{Result, err, ok, or_context, panic}
use nns.Base.Slices.{All-take, All_imp}
use nns.Base.Text.{Bytes}
use nns.Chain.Blocks.{ScanBlockFetch, validate_scan_block_chain}
use nns.Chain.Blocks.Chained.{
  Chained, Chained-same, Chained-take, Follows-Chained, chain_end, cursor_after,
}
use nns.Chain.Blocks.Linked.{BlockBytes, validate_scan_block_chain_iff}
use nns.Chain.Node.{NodeApi}
use nns.Chain.TxOrder.{ZSetLib}
use nns.Claim.{NoteLib}
use nns.Follower.Apply.{
  FollowerScanTrace, apply_blocks, apply_checked, apply_on_cursor,
  apply_prefetched_scan_blocks_inner, conclude, finish,
}
use nns.Follower.Apply.Cursor.{KernelCursor, Shows, ShowsIn}
use nns.Follower.Apply.Cursor.Moves.{apply_blocks-Prefix}
use nns.Follower.Apply.Cursor.Steps.{hull-Shows}
use nns.Follower.Block.{peek_scan_state, read_scan_state}
use nns.Follower.Keeps.{Keeps, bind-after}
use nns.Follower.Monad.{Env, KernelApi, World, lift, note_error, ◌>>=◌}
use nns.Kernel.Peeks.{decode_scan_state}
use nns.Kernel.Peeks.Digests.{decode_scan_state-IsByte}
use nns.Kernel.Peeks.Paths.{build_scan_state_peek}
use nns.Kernel.Types.{ClaimCandidate, ScanBlockDone, ScanState}
use nns.Noun.{IsByte, Noun, NounLib, le_value}
use nns.Noun.LeBytes.{le_value-take}
use nns.Packed.{BeltLib}
use nns.Payment.{TxLib}

module _ ⦃k : KernelApi⦄ ⦃lib : NounLib⦄ (cursor : KernelCursor)
    (Served : ScanBlockFetch → Type 0) where
  -- From a cursor the kernel has gone along blocks that were served and that extend it, and its
  -- cursor is at their end.
  pub record Extended (at : ℕ × Bytes) (s : k.State) : Type 0 where
    pub blocks : List ScanBlockFetch
    pub chained : Chained at.0 at.1 blocks
    pub at_end : Shows cursor (cursor_after at blocks) s
    pub served : All Served blocks

module _ ⦃k : KernelApi⦄ ⦃lib : NounLib⦄ ⦃node : NodeApi⦄ ⦃tx : TxLib⦄ ⦃z : ZSetLib⦄
    ⦃belt : BeltLib⦄ ⦃notes : NoteLib⦄ (cursor : KernelCursor) (env : Env)
    (Served : ScanBlockFetch → Type 0)
    (Served-bytes : (b : ScanBlockFetch) → Served b → BlockBytes b) where
  stay : (at : ℕ × Bytes) (s : k.State) → Shows cursor at s → Extended cursor Served at s
  stay at s h = record { blocks = []; chained = chain_end; at_end = h; served = tt }

  finish-Shows :
      (at : ℕ × Bytes) (n : ℕ) (trace : Option FollowerScanTrace) (last_done : Option ScanBlockDone)
      → Keeps (ShowsIn cursor at) (finish env n trace last_done)
  unfolding finish conclude
  finish-Shows at n trace none = hull-Shows cursor env at _ λ w. refl
  finish-Shows at n none (some d) = hull-Shows cursor env at _ λ w. refl
  finish-Shows at n (some t) (some d) = hull-Shows cursor env at _ λ w. refl

  apply_checked-Extended :
      (at : ℕ × Bytes) (bs : List ScanBlockFetch) (trace : Option FollowerScanTrace)
      (injected : Option (List (List ClaimCandidate))) (w : World k.State)
      → Shows cursor at w.kernel
      → Chained at.0 at.1 bs
      → All Served bs
      → Extended cursor Served at (apply_checked env bs trace injected tt w).1.kernel
  unfolding apply_checked
  apply_checked-Extended at bs trace injected w h c served =
      let p = apply_blocks-Prefix cursor env at 0 injected none bs w h in
      let at_end = cursor_after at (take p.count bs) in
      record {
        blocks = take p.count bs;
        chained = Chained-take p.count at.0 at.1 bs c;
        at_end =
            bind-after (ShowsIn cursor at_end) (apply_blocks env 0 injected none bs)
              (finish env (length bs) trace) w p.at_end (finish-Shows at_end (length bs) trace);
        served = All-take Served p.count bs served;
      }

  apply_on_cursor-Extended :
      (at : ℕ × Bytes) (bs : List ScanBlockFetch) (trace : Option FollowerScanTrace)
      (injected : Option (List (List ClaimCandidate))) (w : World k.State) (st : ScanState)
      → All IsByte at.1
      → Shows cursor at w.kernel
      → All Served bs
      → All IsByte st.last_proved_digest
      → (st.last_proved_height ≡ at.0)
      → (le_value st.last_proved_digest ≡ le_value at.1)
      → Extended cursor Served at (apply_on_cursor env bs trace injected st w).1.kernel
  unfolding apply_on_cursor
  apply_on_cursor-Extended at bs trace injected w st ha h served hd same_height same_digest =
      checked _ refl
    where
      checked :
          (r : Result (Unit {0}))
          → validate_scan_block_chain st.last_proved_height st.last_proved_digest bs ≡ r
          → Extended cursor Served at ((lift r >>= apply_checked env bs trace injected) w).1.kernel
      checked (err e) _ = stay at w.kernel h
      checked (ok u) accepted =
          let f =
            (validate_scan_block_chain_iff st.last_proved_height st.last_proved_digest bs hd
                (All_imp Served-bytes bs served)).0
              accepted in
          let c = Follows-Chained st.last_proved_height st.last_proved_digest bs hd f in
          let same = le_value-take 40 st.last_proved_digest at.1 hd ha same_digest in
          apply_checked-Extended at bs trace injected w h
            (subst (λ x. Chained x at.1 bs) same_height
              (Chained-same st.last_proved_height st.last_proved_digest at.1 bs same c))
            served

  read_then_apply-Extended :
      (at : ℕ × Bytes) (bs : List ScanBlockFetch) (trace : Option FollowerScanTrace)
      (injected : Option (List (List ClaimCandidate))) (w : World k.State) (r : Result Noun)
      → k.peek w.kernel build_scan_state_peek ≡ r
      → All IsByte at.1
      → Shows cursor at w.kernel
      → All Served bs
      → Extended cursor Served at
          ((read_scan_state env r >>= apply_on_cursor env bs trace injected) w).1.kernel
  unfolding read_scan_state note_error
  read_then_apply-Extended at bs trace injected w (err e) hr ha h served = stay at w.kernel h
  read_then_apply-Extended at bs trace injected w (ok noun) hr ha h served = decoded _ refl
    where
      decoded :
          (d : Result ScanState)
          → decode_scan_state noun ≡ d
          → Extended cursor Served at
              ((lift (or_context d "scan-state decode failed")
                  >>= apply_on_cursor env bs trace injected)
                w).1.kernel
      decoded (err panic) _ = stay at w.kernel h
      decoded (err e) _ = stay at w.kernel h
      decoded (ok st) e =
          let (same_height, same_digest) = cursor.shown w.kernel noun st hr e in
          apply_on_cursor-Extended at bs trace injected w st ha h served
            (decode_scan_state-IsByte noun st e) (same_height ∙ h.height) (same_digest ∙ h.digest)

  -- However the application of a batch ends, the kernel's cursor is at the end of a prefix of it, and
  -- that prefix is a chain on the cursor before it.
  pub apply_prefetched-Extended :
      (at : ℕ × Bytes) (bs : List ScanBlockFetch) (trace : Option FollowerScanTrace)
      (injected : Option (List (List ClaimCandidate))) (w : World k.State)
      → All IsByte at.1
      → Shows cursor at w.kernel
      → All Served bs
      → Extended cursor Served at
          (apply_prefetched_scan_blocks_inner env bs trace injected w).1.kernel
  unfolding apply_prefetched_scan_blocks_inner peek_scan_state
  apply_prefetched-Extended at [] trace injected w ha h served = stay at w.kernel h
  apply_prefetched-Extended at (b ∷ bs) trace injected w ha h served =
      read_then_apply-Extended at (b ∷ bs) trace injected w (k.peek w.kernel build_scan_state_peek)
        refl ha h served
