-- ===== src/Follower/Tick/Phase.antt =====
-- What a round leaves in the telemetry when the node does not tell its tip.
use nns.Base.{String, ap, false, if◌then◌else◌, refl, some, suc, ◌∙◌, ◌≡◌, ◌≢◌}
use nns.Base.Result.{Error, err, ok, panic}
use nns.Base.Text.{Str}
use nns.Chain.Digest.{scan_cursor_is_genesis_boot}
use nns.Chain.Node.{NodeApi}
use nns.Chain.Queries.{fetch_current_tip_height}
use nns.Chain.TxOrder.{ZSetLib}
use nns.Claim.{NoteLib}
use nns.Follower.Apply.Applied.{Cursor}
use nns.Follower.Apply.Progress.{Cursor-peek_scan_state, bind-returns}
use nns.Follower.Block.{peek_scan_state}
use nns.Follower.Monad.{Action, Env, KernelApi, World, note_error, on_follower, ◌>>=◌}
use nns.Follower.Scan.{plan_tip, prove_genesis, scan_endpoint, scan_from, scan_once, tip_or_error}
use nns.Follower.Tick.{after_scan, is_upstream_stressed, sleep_secs, tick}
use nns.Follower.Tick.Advances.{prove_genesis-past, with_cursor, with_tip}
use nns.Kernel.Types.{ScanState}
use nns.Noun.{NounLib}
use nns.Packed.{BeltLib}
use nns.Payment.{TxLib}
use nns.State.{record_error}

module _ ⦃k : KernelApi⦄ ⦃lib : NounLib⦄ ⦃node : NodeApi⦄ ⦃tx : TxLib⦄ ⦃z : ZSetLib⦄
    ⦃belt : BeltLib⦄ ⦃notes : NoteLib⦄ (env : Env) where
  -- the world once the error of one phase is recorded, and the clock is read for that
  abbrev pub noted : String → Error → World k.State → World k.State
  unfolding record_error
  noted phase e w =
      on_follower (record_error phase e (env.now_epoch_ms w.readings))
        (record w { readings = suc w.readings })

  bind-fails :
      {A B : Type 0} (m : Action k.State A) (f : A → Action k.State B) (w : World k.State)
      (e : Error) (u : World k.State)
      → m w ≡ (err e, u)
      → (m >>= f) w ≡ (err e, u)
  bind-fails m f w e u h = ap (λ p. elim p.0 [ ok x ↦ f x p.1 | err x ↦ (err x, p.1) ]) h

  plan_tip-unknown :
      (endpoint : Str) (e : Error) (w : World k.State)
      → fetch_current_tip_height endpoint ≡ err e
      → plan_tip env endpoint w ≡ (err e, noted "plan" e w)
  unfolding plan_tip tip_or_error note_error noted
  plan_tip-unknown endpoint e w h = ap (λ r. tip_or_error env r w) h

  after_scan-failed :
      (e : Error) (v : World k.State)
      → e ≢ panic
      → after_scan env (err e) v
        ≡ (sleep_secs (if is_upstream_stressed e then 60 else 10), noted "scan_block" e v)
  unfolding after_scan note_error noted
  after_scan-failed panic v n = absurd (n refl)
  after_scan-failed _ v n = refl

  scan_once-tip_unknown :
      (w : World k.State) (endpoint : Str) (s : ScanState) (e : Error)
      → w.hull.settlement.is_local ≡ false
      → w.hull.settlement.chain_endpoint ≡ some endpoint
      → Cursor env w s
      → scan_cursor_is_genesis_boot s.last_proved_height s.last_proved_digest ≡ false
      → fetch_current_tip_height endpoint ≡ err e
      → scan_once env w ≡ (err e, noted "plan" e w)
  unfolding scan_once scan_endpoint scan_from
  scan_once-tip_unknown w endpoint s e not_local configured cursor past unknown =
      let started : scan_once env w ≡ scan_from env endpoint w = rw (not_local, configured) refl in
      started
      ∙ bind-returns (peek_scan_state env) (with_cursor env endpoint) w s w
          (Cursor-peek_scan_state env w s cursor)
      ∙ bind-returns (prove_genesis env s) (λ u. plan_tip env endpoint >>= with_tip env endpoint s)
          w tt w (prove_genesis-past env s w past)
      ∙ bind-fails (plan_tip env endpoint) (with_tip env endpoint s) w e (noted "plan" e w)
          (plan_tip-unknown endpoint e w unknown)

  -- If the kernel's cursor is past genesis and the node fails to tell its tip, the round sleeps for
  -- 60 seconds when the error tells of a stressed upstream, and for 10 otherwise. It leaves the
  -- kernel, the count of scans and the rest of the telemetry as they are, and records the error
  -- with the time of the second of the two readings of the clock, and the phase `scan_block`: the
  -- phase `plan`, which the scan records first, is lost.
  pub tick-tip_unknown :
      (w : World k.State) (endpoint : Str) (s : ScanState) (e : Error)
      → w.hull.settlement.is_local ≡ false
      → w.hull.settlement.chain_endpoint ≡ some endpoint
      → Cursor env w s
      → scan_cursor_is_genesis_boot s.last_proved_height s.last_proved_digest ≡ false
      → fetch_current_tip_height endpoint ≡ err e
      → e ≢ panic
      → tick env w ≡ (
        sleep_secs (if is_upstream_stressed e then 60 else 10),
        on_follower
            (λ f. record f {
              last_error = some e;
              last_error_at_epoch_ms = some (env.now_epoch_ms (suc w.readings));
              last_error_phase = some "scan_block";
            })
            (record w { readings = suc (suc w.readings) }),
      )
  unfolding tick noted record_error
  tick-tip_unknown w endpoint s e not_local configured cursor past unknown not_panic =
      let scanned = scan_once-tip_unknown w endpoint s e not_local configured cursor past unknown in
      ap (λ p. after_scan env p.0 p.1) scanned ∙ after_scan-failed e (noted "plan" e w) not_panic
