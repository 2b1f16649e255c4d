-- ===== src/Tests/Rounds.antt =====
-- Rounds of the follower.
use nns.Base.{[], arith, refl, suc, zero, ℕ, ◌∷◌, ◌≡◌}
use nns.Base.Parse.{parse_u64}
use nns.Base.Result.{ok}
use nns.Base.Text.{codes, from_utf8, utf8}
use nns.Chain.Node.{NodeApi}
use nns.Follower.Apply.Cursor.{Shows}
use nns.Follower.Apply.Cursor.Refines.{Extended}
use nns.Follower.Monad.{KernelApi, World}
use nns.Follower.Scan.{batch_heights, next_height}
use nns.Follower.Tick.{tick}
use nns.Follower.Tick.Extends.{Rounds-Extended, ServedBefore}
use nns.Follower.Tick.Invariant.{IsConsistent}
use nns.Follower.Tick.Rounds.{round, started}
use nns.Kernel.Effects.{error_message, scan_block_done, scan_block_error}
use nns.Kernel.Peeks.{peek_unwrap_some}
use nns.Noun.{as_ne_bytes, head, is_atom, tail}
use nns.Samples.Belts.{sample_belts}
use nns.Samples.Kernels.{sample_env, sample_kernel, sample_settlement, sample_world}
use nns.Samples.Ledger.{busy_node, sample_node, sample_notes, sample_tx, sample_z_set}
use nns.Samples.Nouns.{sample_nouns}
use nns.Samples.Scanning.{scanning_cursor, scanning_kernel}
use nns.Startup.{join_path, raw_default, serves, start_service}
use nns.Startup.Consistent.{start_service-IsConsistent}
use nns.State.{new_hull}
use nns.Tests.Settings.{no_vars, two_sizes}

sample-started :
    start_service two_sizes
      (λ s. ok raw_default)
      (λ path. ok [])
      (λ t. sample_settlement)
      (λ path. ok [])
      (λ path. ok tt)
      (λ jam size parent. ok tt)
      []
      no_vars
    ≡ serves
        (record {
          hull = new_hull (codes "./.nns-data") sample_settlement;
          kernel = tt;
          scans_since_checkpoint = 0;
          readings = 0;
        })
        3000
        (codes "127.0.0.1")
unfolding start_service join_path parse_u64
sample-started = refl

-- a node that cannot tell its blocks in the first round, and serves them after it
abbrev recovering_node : ℕ → NodeApi
unfolding busy_node sample_node
recovering_node zero = busy_node
recovering_node (suc n) = sample_node

-- one round of the sample follower over this kernel
abbrev sample_round : (k : KernelApi) → ℕ → World k.State → World k.State
unfolding tick recovering_node
sample_round k n w =
    (tick ⦃k = k⦄ ⦃lib = sample_nouns⦄ ⦃node = recovering_node n⦄ ⦃tx = sample_tx⦄
      ⦃z = sample_z_set⦄ ⦃belt = sample_belts⦄ ⦃notes = sample_notes⦄ sample_env w).1

start_service-IsConsistent_example : IsConsistent sample_env (
    sample_round sample_kernel 1 (
      sample_round sample_kernel 0
        (record sample_world { hull = new_hull (codes "./.nns-data") sample_settlement })))
unfolding sample_round
start_service-IsConsistent_example =
    start_service-IsConsistent ⦃k = sample_kernel⦄ ⦃lib = sample_nouns⦄ ⦃tx = sample_tx⦄
      ⦃z = sample_z_set⦄ ⦃belt = sample_belts⦄ ⦃notes = sample_notes⦄ recovering_node sample_env
      two_sizes (λ s. ok raw_default) (λ path. ok []) (λ t. sample_settlement) (λ path. ok [])
      (λ path. ok tt) (λ jam size parent. ok tt) [] no_vars _ _ 3000 (codes "127.0.0.1") 2
      sample-started (round (round started))

abbrev scanning_world : World (ℕ × ℕ)
scanning_world = record {
  hull = new_hull (codes "out") sample_settlement;
  kernel = (62999, 4);
  scans_since_checkpoint = 0;
  readings = 0;
}

scanning_world-Shows :
    Shows ⦃k = scanning_kernel⦄ ⦃lib = sample_nouns⦄ scanning_cursor (62999, 4 ∷ []) (62999, 4)
unfolding scanning_cursor
scanning_world-Shows = record { height = refl; digest = refl }

Rounds-Extended_example :
    Extended ⦃k = scanning_kernel⦄ ⦃lib = sample_nouns⦄ scanning_cursor
      (ServedBefore ⦃tx = sample_tx⦄ ⦃z = sample_z_set⦄ recovering_node 2)
      (62999, 4 ∷ [])
      (sample_round scanning_kernel 1 (sample_round scanning_kernel 0 scanning_world)).kernel
unfolding sample_round
Rounds-Extended_example =
    Rounds-Extended ⦃k = scanning_kernel⦄ ⦃lib = sample_nouns⦄ ⦃tx = sample_tx⦄ ⦃z = sample_z_set⦄
      ⦃belt = sample_belts⦄ ⦃notes = sample_notes⦄ scanning_cursor recovering_node sample_env
      (62999, 4 ∷ []) (omega arith) scanning_world _ 2 scanning_world-Shows (round (round started))

-- the first round fails at the node, and the second scans its block
rounds-scanned :
    (sample_round scanning_kernel 1 (sample_round scanning_kernel 0 scanning_world)).kernel
    ≡ (63000, 5)
unfolding sample_round tick busy_node peek_unwrap_some is_atom tail head as_ne_bytes sample_node
    sample_notes sample_belts sample_tx sample_nouns batch_heights next_height from_utf8 utf8
    scan_block_done scan_block_error error_message
rounds-scanned = refl
