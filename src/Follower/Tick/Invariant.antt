-- ===== src/Follower/Tick/Invariant.antt =====
-- What every round of the follower keeps, whatever the node and the kernel answer.
use nns.Base.{Bool, Option, String, arith, false, if◌then◌else◌, none, some, true, ℕ, ◌<◌, ◌≡◌}
use nns.Base.Result.{Error}
use nns.Follower.Keeps.{Keeps, bind-Keeps}
use nns.Follower.Monad.{Env, World, note_error, now, on_follower, try_note_error, update}
use nns.State.{
  follower_persist_stride_blocks, genesis_height, record_advance, record_chain_tip, record_error,
}

abbrev pub is_set {ℓ} : {A : Type ℓ} → Option A → Bool
is_set none = false
is_set (some a) = true

-- two fields that are set together
abbrev pub Together {ℓ κ} : {A : Type ℓ} {B : Type κ} → Option A → Option B → Type 0
Together a b = is_set a ≡ is_set b

-- The telemetry is whole: an error stands with its time and its phase, an advance with its height
-- and its number of blocks, and the tip with the time when it was seen. The count of scans is below
-- the stride, and the genesis height is that of the network.
pub record IsConsistent {K : Type 0} (env : Env) (w : World K) : Type 0 where
  pub error_time : Together w.hull.follower.last_error w.hull.follower.last_error_at_epoch_ms
  pub error_phase : Together w.hull.follower.last_error w.hull.follower.last_error_phase
  pub advance_height :
      Together w.hull.follower.last_advance_at_epoch_ms w.hull.follower.last_advance_tip_height
  pub advance_count :
      Together w.hull.follower.last_advance_at_epoch_ms w.hull.follower.last_advance_count
  pub tip_time :
      Together w.hull.follower.last_chain_tip_height
        w.hull.follower.last_chain_tip_observed_at_epoch_ms
  pub scans_below : w.scans_since_checkpoint < follower_persist_stride_blocks env.persist_every
  pub genesis : w.hull.nns_genesis_height ≡ genesis_height

module _ {K : Type 0} (env : Env) where
  pub now-Keeps : Keeps {K = K} (IsConsistent env) (now env)
  now-Keeps = record { after = λ w h. ground arith }

  record_error-Keeps :
      (phase : String) (e : Error) (t : ℕ)
      → Keeps {K = K} (IsConsistent env) (update (on_follower (record_error phase e t)))
  unfolding record_error
  record_error-Keeps phase e t = record { after = λ w h. ground arith }

  pub record_advance-Keeps :
      (tip count t : ℕ)
      → Keeps {K = K} (IsConsistent env) (update (on_follower (record_advance tip count t)))
  unfolding record_advance
  record_advance-Keeps tip count t = record { after = λ w h. ground arith }

  pub record_chain_tip-Keeps :
      (tip t : ℕ) → Keeps {K = K} (IsConsistent env) (update (on_follower (record_chain_tip tip t)))
  unfolding record_chain_tip
  record_chain_tip-Keeps tip t = record { after = λ w h. ground arith }

  pub note_error-Keeps :
      (phase : String) (e : Error) → Keeps {K = K} (IsConsistent env) (note_error env phase e)
  unfolding note_error
  note_error-Keeps phase e =
      bind-Keeps (IsConsistent env) _ _ now-Keeps λ t. record_error-Keeps phase e t

  try_record_error-Keeps :
      (phase : String) (e : Error) (t : ℕ)
      → Keeps {K = K} (IsConsistent env) (
          update
            (λ w. if env.hull_free w.readings then on_follower (record_error phase e t) w else w))
  unfolding record_error
  try_record_error-Keeps phase e t = record { after = λ w h. ground arith }

  pub try_note_error-Keeps :
      (phase : String) (e : Error) → Keeps {K = K} (IsConsistent env) (try_note_error env phase e)
  unfolding try_note_error
  try_note_error-Keeps phase e =
      bind-Keeps (IsConsistent env) _ _ now-Keeps λ t. try_record_error-Keeps phase e t
