-- ===== src/LightVerify/Args/Help.antt =====
-- `Cli::parse` ends the process with code 0 on a request for help only.
use mathlib.Core.Path.{subst}
use nns.Base.{
  Bool, Bool-cases, List, Option, [], any, ap, arith, false, inl, inr, none, refl, some, true, ℕ,
  ◌=?◌, ◌∷◌, ◌≡◌, ◌≢◌, ◌⊎◌,
}
use nns.Base.Parse.{parse_u64}
use nns.Base.Text.{Str, codes}
use nns.Follower.Monad.{now}
use nns.LightVerify.Args.{Cli, is_help, parse_args, set_flag, set_value, takes_value}
use nns.LightVerify.Flow.{Flow, exit, exit-injective, go, some_or_exit, ◌>>=◌}

some_or_exit-5 {ℓ κ} :
    {A : Type ℓ} {B : Type κ} (o : Option A) (f : A → B)
    → (some_or_exit o 5 >>= λ a. go (f a)) ≢ exit 0
some_or_exit-5 none f h = absurd (omega (arith, exit-injective refl h))
some_or_exit-5 (some a) f h = cc

-- An argument with a value does not end the process with code 0.
set_value-goes_on : (cli : Cli) (arg v : Str) → set_value cli arg v ≢ exit 0
unfolding set_value
set_value-goes_on cli arg v h = elim (Bool-cases (arg =? codes "--checkpoint-height")) [
  | inl e ↦ some_or_exit-5 (parse_u64 v) _ (rw e at h)
  | inr e ↦ elim (Bool-cases (arg =? codes "--checkpoint-digest-hex")) [
    | inl e2 ↦ cc (rw (e, e2) at h)
    | inr e2 ↦ cc (rw (e, e2) at h)
  ]
]

-- An argument without a value ends the process with code 0 only if it asks for help.
set_flag-help : (cli : Cli) (arg : Str) → set_flag cli arg ≡ exit 0 → is_help arg ≡ true
unfolding set_flag
set_flag-help cli arg h = elim (Bool-cases (is_help arg)) [
  | inl e ↦ e
  | inr e ↦ elim (Bool-cases (arg =? codes "--allow-empty-recursive-proof")) [
    | inl e1 ↦ cc (rw e1 at h)
    | inr e1 ↦ elim (Bool-cases (arg =? codes "--allow-missing-z-in-proof")) [
      | inl e2 ↦ cc (rw (e1, e2) at h)
      | inr e2 ↦ elim (Bool-cases (arg =? codes "--path-y2-dev")) [
        | inl e3 ↦ cc (rw (e1, e2, e3) at h)
        | inr e3 ↦ absurd (omega (arith, exit-injective refl (rw (e1, e2, e3, e) at h)))
      ]
    ]
  ]
]

bind-exit {ℓ κ} :
    {A : Type ℓ} {B : Type κ} (m : Flow A) (f : A → Flow B) {c : ℕ}
    → (m >>= f) ≡ exit c
    → (m ≡ exit c) ⊎ ((a : A) × (m ≡ go a) × (f a ≡ exit c))
bind-exit (exit d) f h = inl (ap exit (exit-injective refl h))
bind-exit (go a) f h = inr (a, refl, h)

-- If the parse ends the process with code 0, `-h` or `--help` is among the arguments.
pub parse_args-help :
    (cli : Cli) (args : List Str) → parse_args cli args ≡ exit 0 → any is_help args ≡ true
unfolding parse_args
parse_args-help cli [] h = cc
parse_args-help cli (arg ∷ []) h = elim (Bool-cases (takes_value arg)) [
  | inl e ↦ absurd (omega (arith, exit-injective refl (rw e at h)))
  | inr e ↦ let asked = set_flag-help cli arg (rw e at h) in rw asked refl
]
parse_args-help cli (arg ∷ v ∷ rest) h =
    let ends : Bool → Type 0 = λ b.
      elim b [
        | true ↦ set_value cli arg v >>= λ c. parse_args c rest
        | false ↦ set_flag cli arg >>= λ c. parse_args c (v ∷ rest)
      ]
      ≡ exit 0 in
    elim (Bool-cases (takes_value arg)) [
      | inl e ↦ elim (bind-exit _ (λ c. parse_args c rest) (subst ends e h)) [
        | inl now ↦ absurd (set_value-goes_on cli arg v now)
        | inr (c, _, later) ↦ let asked = parse_args-help c rest later in ground arith
      ]
      | inr e ↦ elim (bind-exit _ (λ c. parse_args c (v ∷ rest)) (subst ends e h)) [
        | inl now ↦ let asked = set_flag-help cli arg now in rw asked refl
        | inr (c, _, later) ↦ let asked = parse_args-help c (v ∷ rest) later in ground arith
      ]
    ]
