-- ===== src/Follower/Tick/Extends.antt =====
-- The rounds of the follower extend one chain of blocks.
use mathlib.Core.Option
use mathlib.Core.Path.{subst}
use nns.Base.{
  All, List, Option, [], arith, first_of, last_of, none, refl, some, suc, sym, ℕ, ◌++◌, ◌<◌, ◌∙◌,
  ◌∷◌, ◌≡◌,
}
use nns.Base.Result.{Result, err, ok, or_context}
use nns.Base.Slices.{All-append, All_imp}
use nns.Base.Text.{Bytes, Str}
use nns.Chain.Blocks.{ScanBlockFetch, prefetch_scan_blocks_for_heights}
use nns.Chain.Blocks.Chained.{Chained-append, chain_end, cursor_after, cursor_after-append}
use nns.Chain.Blocks.Fetched.{IsServed, prefetch-IsServed, served-BlockBytes}
use nns.Chain.Blocks.Linked.{BlockBytes}
use nns.Chain.Node.{NodeApi}
use nns.Chain.TxOrder.{ZSetLib}
use nns.Claim.{NoteLib}
use nns.Follower.Apply.{FollowerScanTrace, apply_prefetched_scan_blocks_inner}
use nns.Follower.Apply.Cursor.{KernelCursor, Shows}
use nns.Follower.Apply.Cursor.Refines.{Extended, apply_prefetched-Extended}
use nns.Follower.Block.{peek_scan_state, read_scan_state}
use nns.Follower.Keeps.{Keeps, bind-Keeps, if-Keeps, lift-Keeps, pure-Keeps}
use nns.Follower.Monad.{
  Action, Env, KernelApi, World, lift, note_error, peek_kernel, poke_kernel, ◌>>=◌,
}
use nns.Follower.Scan.{batch_heights, prove_genesis, scan_batch}
use nns.Follower.Tick.Rounds.{PartsKeep, Rounds, round, started, tick_keeps}
use nns.Kernel.Peeks.Paths.{build_scan_state_peek}
use nns.Kernel.Pokes.{build_prove_recursive_genesis_poke}
use nns.Kernel.Types.{ScanState}
use nns.Noun.{IsByte, Noun, NounLib}
use nns.Packed.{BeltLib}
use nns.Payment.{TxLib}

cursor_after-IsByte :
    (at : ℕ × Bytes) (bs : List ScanBlockFetch)
    → All IsByte at.1
    → All BlockBytes bs
    → All IsByte (cursor_after at bs).1
cursor_after-IsByte at [] h bytes = h
cursor_after-IsByte at (b ∷ bs) h bytes =
    cursor_after-IsByte (b.height, b.page_digest) bs bytes.0.digest_bytes bytes.1

module _ ⦃k : KernelApi⦄ ⦃lib : NounLib⦄ ⦃node : NodeApi⦄ ⦃tx : TxLib⦄ ⦃z : ZSetLib⦄
    ⦃belt : BeltLib⦄ ⦃notes : NoteLib⦄ (cursor : KernelCursor) (env : Env)
    (Served : ScanBlockFetch → Type 0)
    (Served-bytes : (b : ScanBlockFetch) → Served b → BlockBytes b)
    (now_served : (b : ScanBlockFetch) → IsServed b → Served b) (at : ℕ × Bytes)
    (at_bytes : All IsByte at.1) where
  abbrev ExtendedIn : World k.State → Type 0
  ExtendedIn w = Extended cursor Served at w.kernel

  hull-Extended :
      {A : Type 0} (m : Action k.State A)
      → ((w : World k.State) → (m w).1.kernel ≡ w.kernel)
      → Keeps ExtendedIn m
  hull-Extended m same = record {
    after = λ w h. subst (Extended cursor Served at) (sym (same w)) h;
  }

  then-Extended :
      (s t : k.State) (e : Extended cursor Served at s)
      → Extended cursor Served (cursor_after at e.blocks) t
      → Extended cursor Served at t
  then-Extended s t e f = record {
    blocks = e.blocks ++ f.blocks;
    chained = Chained-append at.0 at.1 e.blocks f.blocks e.chained f.chained;
    at_end =
        subst (λ c. Shows cursor c t) (sym (cursor_after-append at e.blocks f.blocks)) f.at_end;
    served = All-append Served e.blocks f.blocks e.served f.served;
  }

  apply_prefetched-Keeps_chain :
      (bs : List ScanBlockFetch) (trace : Option FollowerScanTrace)
      → All Served bs
      → Keeps ExtendedIn (apply_prefetched_scan_blocks_inner env bs trace none)
  apply_prefetched-Keeps_chain bs trace served = record {
    after = λ w e. then-Extended w.kernel _ e (
        apply_prefetched-Extended cursor env Served Served-bytes (cursor_after at e.blocks) bs trace
          none w (cursor_after-IsByte at e.blocks at_bytes (All_imp Served-bytes e.blocks e.served))
          e.at_end served);
  }

  genesis-Keeps_chain : Keeps ExtendedIn (poke_kernel build_prove_recursive_genesis_poke)
  genesis-Keeps_chain = record {
    after = λ w e.
        let (height, digest) = cursor.proved_genesis w.kernel in
        record {
          blocks = e.blocks;
          chained = e.chained;
          at_end = record { height = height ∙ e.at_end.height; digest = digest ∙ e.at_end.digest };
          served = e.served;
        };
  }

  peek_scan_state-Keeps_chain : Keeps ExtendedIn (peek_scan_state env)
  unfolding peek_scan_state
  peek_scan_state-Keeps_chain =
      bind-Keeps ExtendedIn _ _ (hull-Extended (peek_kernel build_scan_state_peek) λ w. refl) read
    where
      read : (r : Result Noun) → Keeps ExtendedIn (read_scan_state env r)
      read (ok noun) = lift-Keeps ExtendedIn _
      read (err e) = hull-Extended _ λ w. refl

  prove_genesis-Keeps_chain : (s : ScanState) → Keeps ExtendedIn (prove_genesis env s)
  unfolding prove_genesis
  prove_genesis-Keeps_chain s =
      if-Keeps ExtendedIn _ _ _
        (bind-Keeps ExtendedIn _ _ genesis-Keeps_chain λ r.
          bind-Keeps ExtendedIn _ _
            (lift-Keeps ExtendedIn (or_context r "genesis recursive prove poke failed"))
            λ efx. pure-Keeps ExtendedIn tt)
        (pure-Keeps ExtendedIn tt)

  scan_batch-Keeps_chain :
      (endpoint : Str) (tip finalized start : ℕ)
      → Keeps ExtendedIn (scan_batch env endpoint tip finalized start)
  unfolding scan_batch
  scan_batch-Keeps_chain endpoint tip finalized start = fetched _ refl
    where
      fetched :
          (r : Result (List ScanBlockFetch))
          → prefetch_scan_blocks_for_heights endpoint
              (batch_heights env.batch_blocks start finalized)
            ≡ r
          → Keeps ExtendedIn (
              lift r >>= λ prefetched.
              apply_prefetched_scan_blocks_inner env prefetched
                (some (record {
                  chain_tip = tip;
                  finalized_height = finalized;
                  batch_lo = Option.get_or (Option.map (λ b. b.height) (first_of prefetched)) start;
                  batch_end = Option.get_or (Option.map (λ b. b.height) (last_of prefetched)) start;
                }))
                none)
      fetched (err e) _ = record { after = λ w h. h }
      fetched (ok bs) e = record {
        after =
            (apply_prefetched-Keeps_chain bs _ (
              All_imp now_served bs (
                prefetch-IsServed endpoint (batch_heights env.batch_blocks start finalized) bs
                  e))).after;
      }

  parts : PartsKeep env ExtendedIn
  unfolding note_error
  parts = record {
    noted = λ phase e. hull-Extended _ λ w. refl;
    clock = hull-Extended _ λ w. refl;
    tip_seen = λ tip time. hull-Extended _ λ w. refl;
    peeked = peek_scan_state-Keeps_chain;
    genesis = prove_genesis-Keeps_chain;
    batch = scan_batch-Keeps_chain;
  }

module _ ⦃tx : TxLib⦄ ⦃z : ZSetLib⦄ (nodes : ℕ → NodeApi) where
  -- A block that the node of one of the first rounds has served.
  pub record ServedBefore (n : ℕ) (b : ScanBlockFetch) : Type 0 where
    pub at_round : ℕ
    pub before : at_round < n
    pub by_node : IsServed ⦃node = nodes at_round⦄ b

  later : (n : ℕ) (b : ScanBlockFetch) → ServedBefore n b → ServedBefore (suc n) b
  later n b h = record {
    at_round = h.at_round;
    before = omega (arith, h.before);
    by_node = h.by_node;
  }

  ServedBefore-bytes : (n : ℕ) (b : ScanBlockFetch) → ServedBefore n b → BlockBytes b
  ServedBefore-bytes n b h =
      (served-BlockBytes ⦃node = nodes h.at_round⦄ (b ∷ []) (h.by_node, tt)).0

module _ ⦃k : KernelApi⦄ ⦃lib : NounLib⦄ ⦃tx : TxLib⦄ ⦃z : ZSetLib⦄ ⦃belt : BeltLib⦄
    ⦃notes : NoteLib⦄ (cursor : KernelCursor) (nodes : ℕ → NodeApi) (env : Env) where
  -- After any number of rounds, each with a node of its own that may fail or answer otherwise than
  -- before, the kernel's cursor is at the end of a chain of blocks, on the cursor at the start, each
  -- of which the node of one of these rounds has served: the parent of each block is the digest of
  -- the one before it, save that any block may follow height 0 with a digest of value 0. The kernel
  -- is one that moves its cursor as the Hoon program does.
  pub Rounds-Extended :
      (at : ℕ × Bytes)
      → All IsByte at.1
      → (w v : World k.State) (n : ℕ) → Shows cursor at w.kernel
      → Rounds nodes env w n v
      → Extended cursor (ServedBefore nodes n) at v.kernel
  Rounds-Extended at bytes w v n h started = record {
    blocks = [];
    chained = chain_end;
    at_end = h;
    served = tt;
  }
  Rounds-Extended at bytes w _ _ h (round {n = n} {v = v} r) =
      let e = Rounds-Extended at bytes w v n h r in
      let now : (b : ScanBlockFetch) → IsServed ⦃node = nodes n⦄ b → ServedBefore nodes (suc n) b =
        λ b s. record { at_round = n; before = omega arith; by_node = s } in
      tick_keeps ⦃node = nodes n⦄ env
        (λ x. Extended cursor (ServedBefore nodes (suc n)) at x.kernel)
        (parts ⦃node = nodes n⦄ cursor env (ServedBefore nodes (suc n))
          (ServedBefore-bytes nodes (suc n)) now at bytes)
        v
        (record {
          blocks = e.blocks;
          chained = e.chained;
          at_end = e.at_end;
          served = All_imp (later nodes n) e.blocks e.served;
        })
