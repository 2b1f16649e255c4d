-- ===== src/Follower/Keeps.antt =====
-- Actions that keep a property of the world, with a result or with an error.
use nns.Base.{Bool, false, if◌then◌else◌, true}
use nns.Base.Result.{Error, Result, err, ok}
use nns.Follower.Monad.{Action, World, fail, get, lift, pure, ◌>>=◌, ◌>>◌}

module _ {K : Type 0} (P : World K → Type 0) where
  pub record Keeps {A : Type 0} (m : Action K A) : Type 0 where
    pub after : (w : World K) → P w → P (m w).1

  keeps_pair :
      {A B : Type 0} (p : Result A × World K) (f : A → Action K B)
      → ((a : A) → Keeps (f a))
      → P p.1
      → let q : Result B × World K = elim p.0 [ ok a ↦ f a p.1 | err e ↦ (err e, p.1) ] in P q.1
  keeps_pair (ok a, u) f hf h = (hf a).after u h
  keeps_pair (err e, u) f hf h = h

  pub bind-Keeps :
      {A B : Type 0} (m : Action K A) (f : A → Action K B)
      → Keeps m
      → ((a : A) → Keeps (f a))
      → Keeps (m >>= f)
  bind-Keeps m f hm hf = record { after = λ w h. keeps_pair (m w) f hf (hm.after w h) }

  pub then-Keeps :
      {B : Type 0} (m : Action K (Unit {0})) (r : Action K B) → Keeps m → Keeps r → Keeps (m >> r)
  then-Keeps m r hm hr = bind-Keeps m (λ u. r) hm (λ u. hr)

  pub pure-Keeps : {A : Type 0} (a : A) → Keeps (pure a)
  pure-Keeps a = record { after = λ w h. h }

  pub fail-Keeps : {A : Type 0} (e : Error) → Keeps {A = A} (fail e)
  fail-Keeps e = record { after = λ w h. h }

  pub lift-Keeps : {A : Type 0} (r : Result A) → Keeps (lift r)
  lift-Keeps r = record { after = λ w h. h }

  pub get-Keeps : Keeps get
  get-Keeps = record { after = λ w h. h }

  pub if-Keeps :
      {A : Type 0} (b : Bool) (m n : Action K A) → Keeps m → Keeps n → Keeps (if b then m else n)
  if-Keeps true m n hm hn = hm
  if-Keeps false m n hm hn = hn

  -- What holds after the first of two steps holds after both, if the second keeps it.
  pub bind-after :
      {A B : Type 0} (m : Action K A) (f : A → Action K B) (w : World K)
      → P (m w).1
      → ((a : A) → Keeps (f a))
      → P ((m >>= f) w).1
  bind-after m f w h hf = keeps_pair (m w) f hf h
