-- ===== src/Tests/Settings.antt =====
-- The settings for traces.
-- a file that says only that the log format is 0
use nns.Base.{Bool, [], false, none, refl, some, true, ◌∷◌, ◌≡◌}
use nns.Base.Display.{to_string}
use nns.Base.Parse.{parse_u64}
use nns.Base.Result.{Result, ok}
use nns.Base.Text.{Str, codes}
use nns.Config.{
  TracingEnvTable, TracingVars, VeslTomlTracingSnarf, apply_nns_config, tracing_env_of,
}
use nns.Config.EarlyCli.{NockStackSizes, handle_early_cli, prints_version, starts}
use nns.Config.Precedence.{Values, apply_nns_config-Values}
use nns.Follower.Previews.{format_tx_id_previews}
use nns.Hex.{hex_encode}
use nns.Samples.Kernels.{sample_settlement}
use nns.Startup.{EnvVars, join_path, raw_default, serves, start_service}
use nns.State.{new_hull}

abbrev format_table : TracingEnvTable
format_table = record {
  tracy_no_invariant_check = none;
  minimal_log_format = some (codes "0");
  rust_log = none;
}

abbrev read_format : Str → Result VeslTomlTracingSnarf
read_format s = ok (record { tracing_env = some format_table })

abbrev unset : TracingVars
unset = record { tracy_no_invariant_check = none; minimal_log_format = none; rust_log = none }

apply_nns_config-Values_example :
    Values
      (tracing_env_of read_format (some []))
      unset
      (apply_nns_config read_format (some []) unset)
apply_nns_config-Values_example = apply_nns_config-Values read_format (some []) unset

format-ignored :
    (apply_nns_config read_format (some []) unset).minimal_log_format ≡ some (codes "1")
unfolding apply_nns_config
format-ignored = refl

-- the version wins over the help, wherever it stands
version-first : handle_early_cli (codes "-h" ∷ codes "-V" ∷ []) ≡ (prints_version, true)
unfolding handle_early_cli
version-first = refl

other-starts : handle_early_cli (codes "run" ∷ []) ≡ (starts, false)
unfolding handle_early_cli
other-starts = refl

abbrev pub no_vars : EnvVars
no_vars = record {
  nns_config = none;
  nns_kernel_jam = none;
  nns_data_dir = none;
  nns_nock_stack_size = none;
  api_port = some (codes "65536");
  bind_addr = none;
}

abbrev pub two_sizes : NockStackSizes
two_sizes = record {
  Size = Bool;
  tiny = false;
  small = false;
  normal = false;
  medium = false;
  large = true;
  huge = true;
}

-- a port that is too large counts as none, and the state is kept next to the program
default-service :
    start_service two_sizes
      (λ s. ok raw_default)
      (λ path. ok [])
      (λ t. sample_settlement)
      (λ path. ok [])
      (λ path. ok tt)
      (λ jam size parent. ok size)
      []
      no_vars
    ≡ serves
        (record {
          hull = new_hull (codes "./.nns-data") sample_settlement;
          kernel = true;
          scans_since_checkpoint = 0;
          readings = 0;
        })
        3000
        (codes "127.0.0.1")
unfolding start_service join_path parse_u64
default-service = refl

ids-previewed :
    format_tx_id_previews ((1 ∷ 255 ∷ []) ∷ (2 ∷ []) ∷ []) 1 ≡ codes "[01ff(2B)] …(+1 more)"
unfolding format_tx_id_previews hex_encode to_string
ids-previewed = refl
