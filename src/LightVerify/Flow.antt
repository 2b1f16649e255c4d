-- ===== src/LightVerify/Flow.antt =====
-- `std::process::exit`: a step goes on with a value, or ends the process with a code.
use Prim.Native.Char.{code}
use nns.Base.{Option, none, refl, some, ℕ, ◌≡◌}
use nns.Base.Result.{Result, err, ok, panic}

pub data Flow {ℓ} (A : Type ℓ) : Type ℓ where
  go : A → Flow A
  exit : ℕ → Flow A

infixl 5 ◌>>=◌
abbrev pub ◌>>=◌ {ℓ κ} : {A : Type ℓ} {B : Type κ} → Flow A → (A → Flow B) → Flow B
go a >>= f = f a
exit code >>= f = exit code

infixl 5 ◌>>◌
abbrev pub ◌>>◌ {ℓ} : {B : Type ℓ} → Flow (Unit {0}) → Flow B → Flow B
m >> k = m >>= λ _. k

-- `match r { Ok(x) => x, Err(e) => { eprintln!(..); exit(code) } }`
abbrev pub or_exit {ℓ} : {A : Type ℓ} → Result A → ℕ → Flow A
or_exit (ok a) code = go a
or_exit (err panic) code = exit 101
or_exit (err e) code = exit code

-- `match o { Some(x) => x, None => exit(code) }`
abbrev pub some_or_exit {ℓ} : {A : Type ℓ} → Option A → ℕ → Flow A
some_or_exit none code = exit code
some_or_exit (some a) code = go a

module _ {ℓ κ} {A : Type ℓ} {B : Type κ} where
  -- A sequence that goes on went on at each step.
  pub >>=-eq-go :
      (m : Flow A) (f : A → Flow B) {b : B} → (m >>= f) ≡ go b → (a : A) × (m ≡ go a) × (f a ≡ go b)
  >>=-eq-go (go a) f h = (a, refl, h)
  >>=-eq-go (exit c) f h = cc

module _ {ℓ} {A : Type ℓ} where
  pub or_exit-eq-go : (r : Result A) (code : ℕ) {a : A} → or_exit r code ≡ go a → r ≡ ok a
  or_exit-eq-go (ok x) code h = cc
  or_exit-eq-go (err panic) code h = cc
  or_exit-eq-go (err _) code h = cc

  pub some_or_exit-eq-go :
      (o : Option A) (code : ℕ) {a : A} → some_or_exit o code ≡ go a → o ≡ some a
  some_or_exit-eq-go none code h = cc
  some_or_exit-eq-go (some x) code h = cc

  pub go-injective : {a b : A} → go a ≡ go b → a ≡ b
  go-injective e = cc

  pub exit-injective : {m : Flow A} {c d : ℕ} → m ≡ exit c → m ≡ exit d → c ≡ d
  exit-injective h e = cc
