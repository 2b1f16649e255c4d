-- ===== src/Config/Precedence.antt =====
-- Where each of the three variables gets its value from.
-- the value of a variable that is set, or else another
use mathlib.Core.Option
use nns.Base.{Option, arith, none, some, ◌≡◌}
use nns.Base.Result.{Result}
use nns.Base.Text.{Str, codes}
use nns.Config.{
  TracingEnvTable, TracingVars, VeslTomlTracingSnarf, apply_default_quiet_nockapp_kernel_logs,
  apply_default_tracy_no_invariant_check, apply_logs, apply_nns_config, apply_table, apply_tracy,
  default_quiet_rust_log, nonempty, tracing_env_of,
}

abbrev pub or_else : Option Str → Option Str → Option Str
or_else (some v) w = some v
or_else none w = w

-- a setting of the table, if there is a table and the setting is not empty
abbrev pub setting : (TracingEnvTable → Option Str) → Option TracingEnvTable → Option Str
unfolding nonempty
setting field none = none
setting field (some t) = nonempty (field t)

-- what the log format is if the environment does not set it
abbrev pub log_format : Option Str → Option Str → Option Str → Option Str
log_format (some v) rust_log minimal = minimal
log_format none (some v) minimal = some (Option.get_or minimal (codes "1"))
log_format none none minimal = some (codes "1")

logs-values :
    (x y a m r : Option Str)
    → let after =
        apply_logs x y
          (record { tracy_no_invariant_check = a; minimal_log_format = m; rust_log = r }) in
      (after.tracy_no_invariant_check ≡ a)
      × (after.rust_log ≡ or_else r (some (Option.get_or (nonempty x) default_quiet_rust_log)))
      × (after.minimal_log_format ≡ or_else m (log_format r (nonempty x) (nonempty y)))
unfolding apply_logs apply_default_quiet_nockapp_kernel_logs
logs-values x y a m r = ground arith

tracy-values :
    (x a m r : Option Str)
    → apply_tracy x (record { tracy_no_invariant_check = a; minimal_log_format = m; rust_log = r })
      ≡ record {
        tracy_no_invariant_check = or_else a (some (Option.get_or (nonempty x) (codes "1")));
        minimal_log_format = m;
        rust_log = r;
      }
unfolding apply_tracy apply_default_tracy_no_invariant_check
tracy-values x a m r = ground arith

defaults-values :
    (a m r : Option Str)
    → let after =
        apply_table none
          (record { tracy_no_invariant_check = a; minimal_log_format = m; rust_log = r }) in
      (after.tracy_no_invariant_check ≡ or_else a (some (codes "1")))
      × (after.rust_log ≡ or_else r (some default_quiet_rust_log))
      × (after.minimal_log_format ≡ or_else m (log_format r none none))
unfolding apply_table apply_default_quiet_nockapp_kernel_logs apply_default_tracy_no_invariant_check
defaults-values a m r = ground arith

-- The values after the settings of a table, or none, are applied to the environment.
pub record Values (t : Option TracingEnvTable) (before after : TracingVars) : Type 0 where
  pub tracy :
      after.tracy_no_invariant_check
      ≡ or_else before.tracy_no_invariant_check
          (some (Option.get_or (setting (λ s. s.tracy_no_invariant_check) t) (codes "1")))
  pub rust_log :
      after.rust_log
      ≡ or_else before.rust_log
          (some (Option.get_or (setting (λ s. s.rust_log) t) default_quiet_rust_log))
  pub minimal :
      after.minimal_log_format
      ≡ or_else before.minimal_log_format (
          log_format before.rust_log
            (setting (λ s. s.rust_log) t)
            (setting (λ s. s.minimal_log_format) t))

apply_table-Values :
    (t : Option TracingEnvTable) (vars : TracingVars) → Values t vars (apply_table t vars)
unfolding apply_table
apply_table-Values none vars =
    let (tracy, logs, minimal) =
      defaults-values vars.tracy_no_invariant_check vars.minimal_log_format vars.rust_log in
    record { tracy = tracy; rust_log = logs; minimal = minimal }
apply_table-Values (some t) vars =
    let a =
      or_else vars.tracy_no_invariant_check
        (some (Option.get_or (nonempty t.tracy_no_invariant_check) (codes "1"))) in
    let first =
      tracy-values t.tracy_no_invariant_check vars.tracy_no_invariant_check vars.minimal_log_format
        vars.rust_log in
    let (tracy, logs, minimal) =
      logs-values t.rust_log t.minimal_log_format a vars.minimal_log_format vars.rust_log in
    record { tracy = rw first tracy; rust_log = rw first logs; minimal = rw first minimal }

-- After the settings are applied, a variable that was set has kept its value, and otherwise it has
-- the non-empty setting of the file, or else the default. Only the log format depends on another
-- variable: where the file says nothing of `RUST_LOG` and neither does the environment, it is 1,
-- and where the environment says `RUST_LOG`, it has no default.
pub apply_nns_config-Values :
    (from_str : Str → Result VeslTomlTracingSnarf) (contents : Option Str) (vars : TracingVars)
    → Values (tracing_env_of from_str contents) vars (apply_nns_config from_str contents vars)
unfolding apply_nns_config
apply_nns_config-Values from_str contents vars =
    apply_table-Values (tracing_env_of from_str contents) vars
