-- ===== src/Startup.antt =====
-- src/main.rs: from the arguments and the environment to a follower and a server that run. The
-- files, the toml parser, vesl_core's choice of a settlement and nockapp's boot are parameters.
pub mod Consistent
use mathlib.Core.Option
use nns.Base.{
  Bool, List, Option, [], false, if◌then◌else◌, last_of, leb, none, some, true, ℕ, ◌++◌, ◌==◌, ◌∷◌,
}
use nns.Base.Parse.{parse_u64}
use nns.Base.Result.{Error, Result, and_then, both, err, map_err, ok, text, text_str, ◌>>=◌}
use nns.Base.Text.{Bytes, Str, codes}
use nns.Config.EarlyCli.{EarlyCli, NockStackSizes, boot_stack_size, handle_early_cli}
use nns.Follower.Monad.{World}
use nns.Rpc.{SettlementConfig}
use nns.State.{new_hull}

-- `std::env::var(..)` of a variable, `none` where it is not set
pub record EnvVars : Type 0 where
  pub nns_config : Option Str
  pub nns_kernel_jam : Option Str
  pub nns_data_dir : Option Str
  pub nns_nock_stack_size : Option Str
  pub api_port : Option Str
  pub bind_addr : Option Str

pub record Raw : Type 0 where
  pub settlement_mode : Option Str
  pub chain_endpoint : Option Str
  pub tx_fee : Option ℕ
  pub coinbase_timelock_min : Option ℕ
  pub accept_timeout_secs : Option ℕ

-- `Raw::default()`
abbrev pub raw_default : Raw
raw_default = record {
  settlement_mode = none;
  chain_endpoint = none;
  tx_fee = none;
  coinbase_timelock_min = none;
  accept_timeout_secs = none;
}

-- vesl_core's record, with the fields that the program fills
pub record SettlementToml : Type 0 where
  pub settlement_mode : Option Str
  pub chain_endpoint : Option Str
  pub tx_fee : Option ℕ
  pub coinbase_timelock_min : Option ℕ
  pub accept_timeout_secs : Option ℕ

unfoldable pub settlement_toml : Raw → SettlementToml
settlement_toml raw = record {
  settlement_mode = raw.settlement_mode;
  chain_endpoint = raw.chain_endpoint;
  tx_fee = raw.tx_fee;
  coinbase_timelock_min = raw.coinbase_timelock_min;
  accept_timeout_secs = raw.accept_timeout_secs;
}

-- `str::parse::<u16>`
abbrev parse_u16 : Str → Option ℕ
parse_u16 s = and_then (parse_u64 s) λ n. if leb n 65535 then some n else none

unfoldable pub api_port_of : EnvVars → ℕ
api_port_of vars = Option.get_or (and_then vars.api_port parse_u16) 3000

unfoldable pub bind_addr_of : EnvVars → Str
bind_addr_of vars = Option.get_or vars.bind_addr (codes "127.0.0.1")

abbrev is_slash : Option ℕ → Bool
is_slash none = false
is_slash (some c) = c == b'/'

-- `Path::join` of a relative path
unfoldable pub join_path : Str → Str → Str
join_path [] file = file
join_path (c ∷ parent) file =
    if is_slash (last_of (c ∷ parent))
    then (c ∷ parent) ++ file
    else (c ∷ parent) ++ codes "/" ++ file

-- what the process does: it ends before the start, it fails, or it follows and serves
pub data Process (K : Type 0) : Type 0 where
  ends_early : EarlyCli → Process K
  fails : Error → Process K
  serves : World K → ℕ → Str → Process K

module _ (from_str : Str → Result Raw) (read_to_string : Str → Result Str) where
  -- the text of a file, parsed
  abbrev raw_of : Result Str → Raw
  raw_of (err e) = raw_default
  raw_of (ok contents) = elim (from_str contents) [ ok raw ↦ raw | err e ↦ raw_default ]

  -- a file that cannot be read or parsed counts as an empty one
  unfoldable pub load_toml : Str → Raw
  load_toml path = raw_of (read_to_string path)

module _ (sizes : NockStackSizes) (from_str : Str → Result Raw) (read_to_string : Str → Result Str)
    (resolve : SettlementToml → SettlementConfig) (read : Str → Result Bytes)
    (create_dir_all : Str → Result (Unit {0})) {K : Type 0}
    (setup : Bytes → sizes.Size → Str → Result K) where
  -- `AppState::new`
  abbrev new_world : Str → SettlementConfig → K → World K
  new_world state_dir settlement app = record {
    hull = new_hull state_dir settlement;
    kernel = app;
    scans_since_checkpoint = 0;
    readings = 0;
  }

  -- the boot of the kernel, and the state over it
  unfoldable pub boot_world : EnvVars → Result (World K)
  unfolding settlement_toml load_toml boot_stack_size join_path
  boot_world vars = do
    let settlement = resolve (
        settlement_toml
          (load_toml from_str read_to_string (Option.get_or vars.nns_config (codes "nns.toml"))))
    let kernel_path = Option.get_or vars.nns_kernel_jam (codes "nns.jam")
    kernel ←
        map_err (read kernel_path)
          (λ e. both (text_str "failed to read kernel jam " kernel_path) (both (text ": ") e))
    let data_parent = Option.get_or vars.nns_data_dir (codes ".")
    let state_dir = join_path data_parent (codes ".nns-data")
    made ← create_dir_all state_dir
    app ← setup kernel (boot_stack_size sizes vars.nns_nock_stack_size) data_parent
    ok (new_world state_dir settlement app)

  -- `main`, up to the race of the server and the signal
  unfoldable pub start_service : List Str → EnvVars → Process K
  unfolding handle_early_cli boot_world api_port_of bind_addr_of
  start_service args vars = elim (handle_early_cli args).1 [
    | true ↦ ends_early (handle_early_cli args).0
    | false ↦ elim (boot_world vars) [
      | err e ↦ fails e
      | ok w ↦ serves w (api_port_of vars) (bind_addr_of vars)
    ]
  ]
