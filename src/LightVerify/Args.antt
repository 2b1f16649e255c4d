-- ===== src/LightVerify/Args.antt =====
-- `Cli::parse`.
pub mod Help
use mathlib.Core.Option
use nns.Base.{Bool, List, Option, [], false, if◌then◌else◌, none, some, true, ℕ, ◌=?◌, ◌||◌, ◌∷◌}
use nns.Base.Parse.{parse_u64}
use nns.Base.Text.{Str, codes}
use nns.LightVerify.Flow.{Flow, exit, go, some_or_exit, ◌>>=◌, ◌>>◌}

pub record Cli : Type 0 where
  pub checkpoint_height : Option ℕ
  pub checkpoint_digest_hex : Option Str
  pub kernel_jam_path : Str
  pub allow_empty_recursive : Bool
  pub allow_missing_z_in : Bool

-- the state before the loop; `env` is the variable NNS_KERNEL_JAM
abbrev pub initial_cli : Option Str → Cli
initial_cli env = record {
  checkpoint_height = none;
  checkpoint_digest_hex = none;
  kernel_jam_path = Option.get_or env (codes "nns.jam");
  allow_empty_recursive = false;
  allow_missing_z_in = false;
}

abbrev pub is_help : Str → Bool
is_help arg = arg =? codes "-h" || arg =? codes "--help"

abbrev pub takes_value : Str → Bool
takes_value arg =
    arg =? codes "--checkpoint-height"
    || arg =? codes "--checkpoint-digest-hex"
    || arg =? codes "--kernel-jam"

-- the arms with a value
unfoldable pub set_value : Cli → Str → Str → Flow Cli
unfolding ◌=?◌
set_value cli arg v =
    if arg =? codes "--checkpoint-height"
    then (do h ← some_or_exit (parse_u64 v) 5; go (record cli { checkpoint_height = some h }))
    else if arg =? codes "--checkpoint-digest-hex"
    then go (record cli { checkpoint_digest_hex = some v })
    else go (record cli { kernel_jam_path = v })

-- the arms without one
unfoldable pub set_flag : Cli → Str → Flow Cli
unfolding ◌=?◌
set_flag cli arg =
    if arg =? codes "--allow-empty-recursive-proof"
    then go (record cli { allow_empty_recursive = true })
    else if arg =? codes "--allow-missing-z-in-proof"
    then go (record cli { allow_missing_z_in = true })
    else if arg =? codes "--path-y2-dev"
    then go (record cli { allow_empty_recursive = true; allow_missing_z_in = true })
    else if is_help arg
    then exit 0
    else exit 5

-- the `while let` loop over the arguments; an error of `parse` ends in exit code 5
unfoldable pub parse_args : Cli → List Str → Flow Cli
unfolding ◌=?◌ set_value set_flag
parse_args cli [] = go cli
parse_args cli (arg ∷ []) = if takes_value arg then exit 5 else set_flag cli arg
parse_args cli (arg ∷ v ∷ rest) = elim (takes_value arg) [
  | true ↦ set_value cli arg v >>= λ c. parse_args c rest
  | false ↦ set_flag cli arg >>= λ c. parse_args c (v ∷ rest)
]
