-- ===== src/Base/Result.antt =====
-- `Result<T, String>`, and the `?` operator on it and on `Option`.
use Prim.Native.Nat.{ℕ}
use Prim.Native.String.{String}
use mathlib.Core.List.{List, [], ◌∷◌}
use mathlib.Core.Logic.{inl, inr, ◌⊎◌}
use mathlib.Core.Option.{Option, none, some}
use mathlib.Core.Path.{refl, ◌≡◌}

-- An error message: a constant text, a text with a number or a string after it, a prefix with a
-- colon in front of another message, or one message after another (the quotes of `{:?}` are left
-- out). `panic` is no message: the thread panics, and no caller catches it.
pub data Error : Type 0 where
  text : String → Error
  text_num : String → ℕ → Error
  text_str : String → List ℕ → Error
  context : String → Error → Error
  both : Error → Error → Error
  panic : Error

pub data Result {ℓ} (A : Type ℓ) : Type ℓ where
  ok : A → Result A
  err : Error → Result A

-- `.map_err(|_| m)`
abbrev pub or_err {ℓ} : {A : Type ℓ} → Result A → String → Result A
or_err (ok a) m = ok a
or_err (err panic) m = err panic
or_err (err e) m = err (text m)

-- `.map_err(|e| format!("m: {e}"))`
abbrev pub or_context {ℓ} : {A : Type ℓ} → Result A → String → Result A
or_context (ok a) m = ok a
or_context (err panic) m = err panic
or_context (err e) m = err (context m e)

-- `.map_err(|e| ..)`
abbrev pub map_err {ℓ} : {A : Type ℓ} → Result A → (Error → Error) → Result A
map_err (ok a) f = ok a
map_err (err panic) f = err panic
map_err (err e) f = err (f e)

-- `?` in a function that returns a `Result`
infixl 5 ◌>>=◌
abbrev pub ◌>>=◌ {ℓ κ} : {A : Type ℓ} {B : Type κ} → Result A → (A → Result B) → Result B
err e >>= f = err e
ok a >>= f = f a

-- `.ok_or_else(|| e)`
abbrev pub ok_or {ℓ} : {A : Type ℓ} → Option A → Error → Result A
ok_or none e = err e
ok_or (some a) e = ok a

-- `.ok()`
abbrev pub to_option {ℓ} : {A : Type ℓ} → Result A → Option A
to_option (ok a) = some a
to_option (err e) = none

-- `?` in a function that returns an `Option`
abbrev pub and_then {ℓ κ} : {A : Type ℓ} {B : Type κ} → Option A → (A → Option B) → Option B
and_then none f = none
and_then (some a) f = f a

-- `.into_iter().map(f).collect::<Result<Vec<_>, _>>()`
abbrev pub collect {ℓ κ} : {A : Type ℓ} {B : Type κ} → (A → Result B) → List A → Result (List B)
collect f [] = ok []
collect f (x ∷ xs) = let rest = collect f xs in f x >>= λ y. rest >>= λ ys. ok (y ∷ ys)

module _ {ℓ κ} {A : Type ℓ} {B : Type κ} where
  -- what comes after `?` saw a result
  pub >>=-eq-ok :
      (r : Result A) (rest : A → Result B) {out : B}
      → (r >>= rest) ≡ ok out
      → (x : A) × (r ≡ ok x) × (rest x ≡ ok out)
  >>=-eq-ok (err e) rest same = cc
  >>=-eq-ok (ok x) rest same = (x, refl, same)

pub ok-injective {ℓ} : {A : Type ℓ} {a b : A} → ok a ≡ ok b → a ≡ b
ok-injective h = cc

pub ok_or-eq-ok {ℓ} :
    {A : Type ℓ} (o : Option A) (e : Error) {a : A} → ok_or o e ≡ ok a → o ≡ some a
ok_or-eq-ok none e h = cc
ok_or-eq-ok (some x) e h = cc

pub some-injective {ℓ} : {A : Type ℓ} {a b : A} → some a ≡ some b → a ≡ b
some-injective h = cc

pub and_then-eq-some {ℓ κ} :
    {A : Type ℓ} {B : Type κ} (m : Option A) (f : A → Option B) {b : B}
    → and_then m f ≡ some b
    → (a : A) × (m ≡ some a) × (f a ≡ some b)
and_then-eq-some none f h = cc
and_then-eq-some (some a) f h = (a, refl, h)

pub Result-cases {ℓ} :
    {A : Type ℓ} (r : Result A) → ((a : A) × (r ≡ ok a)) ⊎ ((e : Error) × (r ≡ err e))
Result-cases (ok a) = inl (a, refl)
Result-cases (err e) = inr (e, refl)

pub or_context-eq-ok {ℓ} :
    {A : Type ℓ} (r : Result A) (m : String) {a : A} → or_context r m ≡ ok a → r ≡ ok a
or_context-eq-ok (ok x) m h = h
or_context-eq-ok (err panic) m h = cc
or_context-eq-ok (err _) m h = cc
