-- ===== src/Follower/Monad.antt =====
-- What the follower acts on: the hull, the kernel, and the environment. The kernel is nockapp's
-- with the compiled Hoon program in it: a state, and a peek and a poke on it.
use nns.Base.{Bool, List, Option, String, if◌then◌else◌, suc, ℕ}
use nns.Base.Result.{Error, Result, err, ok}
use nns.Base.Text.{Str}
use nns.Noun.{Noun}
use nns.State.{FollowerObservability, HullState, record_error}

pub record KernelApi : Type 1 where
  pub State : Type 0
  pub peek : State → Noun → Result Noun
  pub poke : State → Noun → Result (List Noun)
  -- the state after a poke
  pub after : State → Noun → State

-- The environment: the clock's readings, whether `try_lock` on the hull succeeds at a reading, and
-- two environment variables.
pub record Env : Type 0 where
  pub now_epoch_ms : ℕ → ℕ
  pub hull_free : ℕ → Bool
  pub batch_blocks : Option Str
  pub persist_every : Option Str

pub record World (K : Type 0) : Type 0 where
  pub hull : HullState
  pub kernel : K
  pub scans_since_checkpoint : ℕ
  pub readings : ℕ

-- a step that returns a result, or an error that `?` hands on, and leaves a world in both cases
abbrev pub Action : Type 0 → Type 0 → Type 0
Action K A = World K → Result A × World K

module _ {K A B : Type 0} where
  infixl 5 ◌>>=◌
  abbrev pub ◌>>=◌ : Action K A → (A → Action K B) → Action K B
  (m >>= f) w = elim (m w).0 [ ok a ↦ f a (m w).1 | err e ↦ (err e, (m w).1) ]

module _ {K B : Type 0} where
  infixl 5 ◌>>◌
  abbrev pub ◌>>◌ : Action K (Unit {0}) → Action K B → Action K B
  m >> k = m >>= λ u. k

module _ {K : Type 0} where
  abbrev pub pure : {A : Type 0} → A → Action K A
  pure a w = (ok a, w)

  abbrev pub fail : {A : Type 0} → Error → Action K A
  fail e w = (err e, w)

  -- a result that does not depend on the world
  abbrev pub lift : {A : Type 0} → Result A → Action K A
  lift r w = (r, w)

  abbrev pub get : Action K (World K)
  get w = (ok w, w)

  abbrev pub update : (World K → World K) → Action K (Unit {0})
  update f w = (ok tt, f w)

  abbrev pub on_follower : (FollowerObservability → FollowerObservability) → World K → World K
  on_follower f w = record w { hull = record w.hull { follower = f w.hull.follower } }

  -- `now_epoch_ms()`
  abbrev pub now : Env → Action K ℕ
  now env w = (ok (env.now_epoch_ms w.readings), record w { readings = suc w.readings })

  -- read the clock, and record the error of one phase
  unfoldable pub note_error : Env → String → Error → Action K (Unit {0})
  unfolding record_error
  note_error env phase e = do ts ← now env; update (on_follower (record_error phase e ts))

  -- the same, but only if `try_lock` succeeds
  unfoldable pub try_note_error : Env → String → Error → Action K (Unit {0})
  unfolding record_error
  try_note_error env phase e = do
    ts ← now env
    update (λ w. if env.hull_free w.readings then on_follower (record_error phase e ts) w else w)

-- peek and poke of the kernel in the world
module _ ⦃k : KernelApi⦄ where
  abbrev pub peek_kernel : Noun → Action k.State (Result Noun)
  peek_kernel path w = (ok (k.peek w.kernel path), w)

  abbrev pub poke_kernel : Noun → Action k.State (Result (List Noun))
  poke_kernel cause w = (ok (k.poke w.kernel cause), record w { kernel = k.after w.kernel cause })
