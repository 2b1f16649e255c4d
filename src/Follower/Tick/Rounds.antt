-- ===== src/Follower/Tick/Rounds.antt =====
-- Rounds of the follower, and what they keep.
use nns.Base.{Option, String, none, some, suc, ℕ, ◌-◌}
use nns.Base.Result.{Error, Result, err, ok, panic}
use nns.Base.Text.{Str}
use nns.Chain.Node.{NodeApi}
use nns.Chain.Queries.{fetch_current_tip_height}
use nns.Chain.TxOrder.{ZSetLib}
use nns.Claim.{NoteLib}
use nns.Follower.Apply.{ScanBlockOutcome}
use nns.Follower.Block.{peek_scan_state}
use nns.Follower.Keeps.{Keeps, bind-Keeps, fail-Keeps, get-Keeps, if-Keeps, pure-Keeps, then-Keeps}
use nns.Follower.Monad.{Env, KernelApi, World, note_error, now, on_follower, update}
use nns.Follower.Scan.{
  default_finality_depth, next_height, plan_tip, prove_genesis, scan_batch, scan_endpoint,
  scan_final, scan_from, scan_once, tip_or_error,
}
use nns.Follower.Tick.{after_scan, tick}
use nns.Kernel.Types.{ScanState}
use nns.Noun.{NounLib}
use nns.Packed.{BeltLib}
use nns.Payment.{TxLib}
use nns.State.{HullState, record_chain_tip}

module _ ⦃k : KernelApi⦄ ⦃lib : NounLib⦄ ⦃tx : TxLib⦄ ⦃z : ZSetLib⦄ ⦃belt : BeltLib⦄
    ⦃notes : NoteLib⦄ (nodes : ℕ → NodeApi) (env : Env) where
  -- The worlds that rounds of the loop lead to, with their number. The node of each round is another
  -- one: its tip, its blocks and its failures may change from round to round.
  pub data Rounds (w : World k.State) : ℕ → World k.State → Type 0 where
    started : Rounds w 0 w
    round :
        {n : ℕ} {v : World k.State}
        → Rounds w n v
        → Rounds w (suc n) (tick ⦃node = nodes n⦄ env v).1

module _ ⦃k : KernelApi⦄ ⦃lib : NounLib⦄ ⦃node : NodeApi⦄ ⦃tx : TxLib⦄ ⦃z : ZSetLib⦄
    ⦃belt : BeltLib⦄ ⦃notes : NoteLib⦄ (env : Env) (P : World k.State → Type 0) where
  -- The parts of a round keep a property.
  pub record PartsKeep : Type 0 where
    pub noted : (phase : String) (e : Error) → Keeps P (note_error env phase e)
    pub clock : Keeps P (now env)
    pub tip_seen : (tip time : ℕ) → Keeps P (update (on_follower (record_chain_tip tip time)))
    pub peeked : Keeps P (peek_scan_state env)
    pub genesis : (s : ScanState) → Keeps P (prove_genesis env s)
    pub batch :
        (endpoint : Str) (tip finalized start : ℕ)
        → Keeps P (scan_batch env endpoint tip finalized start)

module _ ⦃k : KernelApi⦄ ⦃lib : NounLib⦄ ⦃node : NodeApi⦄ ⦃tx : TxLib⦄ ⦃z : ZSetLib⦄
    ⦃belt : BeltLib⦄ ⦃notes : NoteLib⦄ (env : Env) (P : World k.State → Type 0)
    (parts : PartsKeep env P) where
  tip_or_error-Keeps : (r : Result ℕ) → Keeps P (tip_or_error env r)
  unfolding tip_or_error
  tip_or_error-Keeps (ok tip) = pure-Keeps P tip
  tip_or_error-Keeps (err e) = then-Keeps P _ _ (parts.noted "plan" e) (fail-Keeps P e)

  scan_final-Keeps :
      (endpoint : Str) (s : ScanState) (tip : ℕ) (hull : HullState)
      → Keeps P (scan_final env endpoint s tip hull)
  unfolding scan_final
  scan_final-Keeps endpoint s tip hull = if-Keeps P _ _ _ (pure-Keeps P none) (
      if-Keeps P _ _ _ (pure-Keeps P none)
        (parts.batch endpoint tip (tip - default_finality_depth) (next_height hull s)))

  plan_tip-Keeps : (endpoint : Str) → Keeps P (plan_tip env endpoint)
  unfolding plan_tip
  plan_tip-Keeps endpoint = tip_or_error-Keeps (fetch_current_tip_height endpoint)

  scan_from-Keeps : (endpoint : Str) → Keeps P (scan_from env endpoint)
  unfolding scan_from
  scan_from-Keeps endpoint = bind-Keeps P _ _ parts.peeked λ s. then-Keeps P _ _ (parts.genesis s) (
      bind-Keeps P _ _ (plan_tip-Keeps endpoint) λ tip. bind-Keeps P _ _ parts.clock λ time.
        then-Keeps P _ _ (parts.tip_seen tip time)
          (bind-Keeps P _ _ (get-Keeps P) λ w. scan_final-Keeps endpoint s tip w.hull))

  scan_endpoint-Keeps : (endpoint : Option Str) → Keeps P (scan_endpoint env endpoint)
  unfolding scan_endpoint
  scan_endpoint-Keeps none = pure-Keeps P none
  scan_endpoint-Keeps (some endpoint) = scan_from-Keeps endpoint

  scan_once-Keeps : Keeps P (scan_once env)
  unfolding scan_once
  scan_once-Keeps = bind-Keeps P _ _ (get-Keeps P) λ w.
      if-Keeps P _ _ _ (pure-Keeps P none) (scan_endpoint-Keeps w.hull.settlement.chain_endpoint)

  after_scan_keeps :
      (r : Result (Option ScanBlockOutcome)) (w : World k.State) → P w → P (after_scan env r w).1
  unfolding after_scan
  after_scan_keeps (ok none) w h = h
  after_scan_keeps (ok (some o)) w h = h
  after_scan_keeps (err panic) w h = h
  after_scan_keeps (err e) w h = (parts.noted "scan_block" e).after w h

  pub tick_keeps : (w : World k.State) → P w → P (tick env w).1
  unfolding tick
  tick_keeps w h =
      after_scan_keeps (scan_once env w).0 (scan_once env w).1 (scan_once-Keeps.after w h)

module _ ⦃k : KernelApi⦄ ⦃lib : NounLib⦄ ⦃tx : TxLib⦄ ⦃z : ZSetLib⦄ ⦃belt : BeltLib⦄
    ⦃notes : NoteLib⦄ (nodes : ℕ → NodeApi) (env : Env) (P : World k.State → Type 0)
    (parts : (n : ℕ) → PartsKeep ⦃node = nodes n⦄ env P) where
  -- What the parts of a round keep whatever the node is, any number of rounds keeps.
  pub rounds_keep : {w v : World k.State} {n : ℕ} → P w → Rounds nodes env w n v → P v
  rounds_keep h started = h
  rounds_keep h (round {n = n} r) = tick_keeps ⦃node = nodes n⦄ env P (parts n) _ (rounds_keep h r)
