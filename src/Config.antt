-- ===== src/Config.antt =====
-- The settings for traces of lib.rs: what `apply_nns_config` makes of the environment.
pub mod Precedence
pub mod EarlyCli
use mathlib.Core.Option
use nns.Base.{Option, [], none, some, ◌∷◌}
use nns.Base.Result.{Result, and_then, to_option}
use nns.Base.Text.{Str, codes}

-- the three environment variables that the function reads and sets, `NNS_CONFIG` apart
pub record TracingVars : Type 0 where
  pub tracy_no_invariant_check : Option Str
  pub minimal_log_format : Option Str
  pub rust_log : Option Str

pub record TracingEnvTable : Type 0 where
  pub tracy_no_invariant_check : Option Str
  pub minimal_log_format : Option Str
  pub rust_log : Option Str

pub record VeslTomlTracingSnarf : Type 0 where
  pub tracing_env : Option TracingEnvTable

abbrev pub default_quiet_rust_log : Str
default_quiet_rust_log =
    codes "info,nockapp::kernel::form=warn,nockapp::utils::durability=warn,nockapp::snapshot=warn"

unfoldable pub apply_default_tracy_no_invariant_check : TracingVars → TracingVars
apply_default_tracy_no_invariant_check vars = elim vars.tracy_no_invariant_check [
  | none ↦ record vars { tracy_no_invariant_check = some (codes "1") }
  | some _ ↦ vars
]

-- `env::set_var` on a variable that is not set yet
abbrev default_minimal_log_format : Str → TracingVars → TracingVars
default_minimal_log_format v vars = elim vars.minimal_log_format [
  | none ↦ record vars { minimal_log_format = some v }
  | some _ ↦ vars
]

unfoldable pub apply_default_quiet_nockapp_kernel_logs : TracingVars → TracingVars
apply_default_quiet_nockapp_kernel_logs vars = elim vars.rust_log [
  | some _ ↦ vars
  | none ↦ record (default_minimal_log_format (codes "1") vars) {
    rust_log = some default_quiet_rust_log;
  }
]

-- `.filter(|s| !s.is_empty())`
unfoldable pub nonempty : Option Str → Option Str
nonempty none = none
nonempty (some []) = none
nonempty (some (c ∷ s)) = some (c ∷ s)

unfoldable pub apply_tracy : Option Str → TracingVars → TracingVars
unfolding nonempty apply_default_tracy_no_invariant_check
apply_tracy value vars = elim vars.tracy_no_invariant_check [
  | some _ ↦ vars
  | none ↦ elim (nonempty value) [
    | some v ↦ record vars { tracy_no_invariant_check = some v }
    | none ↦ apply_default_tracy_no_invariant_check vars
  ]
]

unfoldable pub apply_logs : Option Str → Option Str → TracingVars → TracingVars
unfolding nonempty apply_default_quiet_nockapp_kernel_logs
apply_logs rust_log minimal_log_format vars = elim vars.rust_log [
  | none ↦ elim (nonempty rust_log) [
    | some v ↦
        record (default_minimal_log_format (Option.get_or (nonempty minimal_log_format) (codes "1"))
          vars) { rust_log = some v }
    | none ↦ apply_default_quiet_nockapp_kernel_logs vars
  ]
  | some _ ↦ elim (nonempty minimal_log_format) [
    | some v ↦ default_minimal_log_format v vars
    | none ↦ vars
  ]
]

unfoldable pub apply_table : Option TracingEnvTable → TracingVars → TracingVars
unfolding apply_tracy apply_logs apply_default_tracy_no_invariant_check
    apply_default_quiet_nockapp_kernel_logs
apply_table none vars =
    apply_default_quiet_nockapp_kernel_logs (apply_default_tracy_no_invariant_check vars)
apply_table (some table) vars =
    apply_logs table.rust_log table.minimal_log_format
      (apply_tracy table.tracy_no_invariant_check vars)

-- `contents` is the text of the file, if it can be read, and `from_str` is the toml crate's parser
module _ (from_str : Str → Result VeslTomlTracingSnarf) where
  -- the table in the file: `unwrap_or_default` makes of a text with an error one without a table
  unfoldable pub tracing_env_of : Option Str → Option TracingEnvTable
  tracing_env_of none = none
  tracing_env_of (some contents) =
      and_then (to_option (from_str contents)) λ snarf. snarf.tracing_env

  unfoldable pub apply_nns_config : Option Str → TracingVars → TracingVars
  unfolding tracing_env_of apply_table
  apply_nns_config contents vars = apply_table (tracing_env_of contents) vars
