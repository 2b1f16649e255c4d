-- ===== src/Startup/Consistent.antt =====
-- The world that the program starts with, and the rounds after it.
use mathlib.Core.Option
use mathlib.Core.Path.{subst}
use nns.Base.{Bool, List, false, sym, true, ℕ, ◌≡◌}
use nns.Base.Result.{>>=-eq-ok, Result, both, err, map_err, ok, ok-injective, text, text_str}
use nns.Base.Text.{Bytes, Str, codes}
use nns.Chain.Node.{NodeApi}
use nns.Chain.TxOrder.{ZSetLib}
use nns.Claim.{NoteLib}
use nns.Config.EarlyCli.{EarlyCli, NockStackSizes, boot_stack_size, handle_early_cli}
use nns.Follower.Monad.{Env, KernelApi, World}
use nns.Follower.Tick.Consistent.{Rounds-IsConsistent}
use nns.Follower.Tick.Invariant.{IsConsistent}
use nns.Follower.Tick.Rounds.{Rounds}
use nns.Noun.{NounLib}
use nns.Packed.{BeltLib}
use nns.Payment.{TxLib}
use nns.Rpc.{SettlementConfig}
use nns.Startup.{
  EnvVars, Process, Raw, SettlementToml, boot_world, ends_early, fails, join_path, load_toml,
  serves, settlement_toml, start_service,
}
use nns.State.{new_hull}

is-serves :
    {K : Type 0} (b : Bool) (early : EarlyCli) (r : Result (World K)) (w : World K) (port : ℕ)
    (bind : Str) (p : ℕ) (a : Str)
    → (elim b as (λ x. Process K) [
      | true ↦ ends_early early
      | false ↦ elim r as (λ x. Process K) [ err e ↦ fails e | ok v ↦ serves v p a ]
    ])
      ≡ serves w port bind
    → r ≡ ok w
is-serves true early r w port bind p a h = cc
is-serves false early (err e) w port bind p a h = cc
is-serves false early (ok v) w port bind p a h = cc

module _ (sizes : NockStackSizes) (from_str : Str → Result Raw) (read_to_string : Str → Result Str)
    (resolve : SettlementToml → SettlementConfig) (read : Str → Result Bytes)
    (create_dir_all : Str → Result (Unit {0})) {K : Type 0}
    (setup : Bytes → sizes.Size → Str → Result K) where
  boot_world-new :
      (vars : EnvVars) (w : World K)
      → boot_world sizes from_str read_to_string resolve read create_dir_all setup vars ≡ ok w
      → (dir : Str) × (settlement : SettlementConfig) × (app : K) × (record {
        hull = new_hull dir settlement;
        kernel = app;
        scans_since_checkpoint = 0;
        readings = 0;
      }
          ≡ w)
  unfolding boot_world
  boot_world-new vars w h =
      let path = Option.get_or vars.nns_kernel_jam (codes "nns.jam") in
      let parent = Option.get_or vars.nns_data_dir (codes ".") in
      let dir = join_path parent (codes ".nns-data") in
      let settlement = resolve (
        settlement_toml
          (load_toml from_str read_to_string (Option.get_or vars.nns_config (codes "nns.toml")))) in
      let (kernel, _, h1) =
        >>=-eq-ok
          (map_err (read path)
            (λ e. both (text_str "failed to read kernel jam " path) (both (text ": ") e)))
          _ h in
      let (made, _, h2) = >>=-eq-ok (create_dir_all dir) _ h1 in
      let (app, _, h3) =
        >>=-eq-ok (setup kernel (boot_stack_size sizes vars.nns_nock_stack_size) parent) _ h2 in
      (dir, settlement, app, ok-injective h3)

  start_service-new :
      (args : List Str) (vars : EnvVars) (w : World K) (port : ℕ) (bind : Str)
      → start_service sizes from_str read_to_string resolve read create_dir_all setup args vars
        ≡ serves w port bind
      → boot_world sizes from_str read_to_string resolve read create_dir_all setup vars ≡ ok w
  unfolding start_service
  start_service-new args vars w port bind h =
      is-serves (handle_early_cli args).1 (handle_early_cli args).0 _ w port bind _ _ h

module _ ⦃k : KernelApi⦄ ⦃lib : NounLib⦄ ⦃tx : TxLib⦄ ⦃z : ZSetLib⦄ ⦃belt : BeltLib⦄
    ⦃notes : NoteLib⦄ (nodes : ℕ → NodeApi) (env : Env) where
  -- However the program is started, the telemetry is whole after any number of rounds of the
  -- follower, each with a node of its own that may fail or answer otherwise than before, over any
  -- kernel: an error has its time and its phase, an advance its height and its number of blocks, and
  -- the tip the time when it was seen; the count of scans is below the stride, and the genesis height
  -- is that of the network.
  pub start_service-IsConsistent :
      (sizes : NockStackSizes) (from_str : Str → Result Raw) (read_to_string : Str → Result Str)
      (resolve : SettlementToml → SettlementConfig) (read : Str → Result Bytes)
      (create_dir_all : Str → Result (Unit {0})) (setup : Bytes → sizes.Size → Str → Result k.State)
      (args : List Str) (vars : EnvVars) (w v : World k.State) (port : ℕ) (bind : Str) (n : ℕ)
      → start_service sizes from_str read_to_string resolve read create_dir_all setup args vars
        ≡ serves w port bind
      → Rounds nodes env w n v
      → IsConsistent env v
  start_service-IsConsistent sizes from_str read_to_string resolve read create_dir_all setup args
        vars w v port bind n h rounds =
      let booted =
        start_service-new sizes from_str read_to_string resolve read create_dir_all setup args vars
          w port bind h in
      let (dir, settlement, app, same) =
        boot_world-new sizes from_str read_to_string resolve read create_dir_all setup vars w
          booted in
      Rounds-IsConsistent nodes env dir settlement app 0 n v
        (subst (λ x. Rounds nodes env x n v) (sym same) rounds)
