-- ===== src/LightVerify/Main.antt =====
-- `main` and its sections. The two files read and the two kernel runs are parameters.
pub mod Given
pub mod Accepts
pub mod Verified
pub mod Sections
pub mod Codes
pub mod Truthful
use Prim.Native.Char.{code}
use nns.Base.{Bool, List, Option, false, if◌then◌else◌, is_empty, none, not, some, true, ℕ, ◌&&◌}
use nns.Base.Result.{Result, err, ok}
use nns.Base.Strings.{trim}
use nns.Base.Text.{Bytes, Str}
use nns.Hex.{hex_decode_even}
use nns.Kernel.Verify.{verify_accumulator_snapshot_offline, verify_stark_explicit_offline}
use nns.LightVerify.Args.{Cli, initial_cli, parse_args}
use nns.LightVerify.Flow.{Flow, exit, go, or_exit, some_or_exit, ◌>>=◌, ◌>>◌}
use nns.LightVerify.Report.{Checked, Output, output}
use nns.Noun.{Noun, NounLib}
use nns.Wallet.{AccumulatorEntryJson, PathY4LookupBundle, verify_header_chain_to_checkpoint}

unfoldable pub decode_proof_hex : Option Str → Flow (Option Bytes)
unfolding hex_decode_even trim
decode_proof_hex none = go none
decode_proof_hex (some s) =
    if is_empty (trim s)
    then go none
    else (do b ← or_exit (hex_decode_even (trim s)) 2; go (some b))

unfoldable pub decode_recursive_proof : PathY4LookupBundle → Flow (Option Bytes)
unfolding decode_proof_hex
decode_recursive_proof bundle = decode_proof_hex bundle.recursive_proof_hex

-- `.as_ref().map(|s| s.trim())`, filtered to what is not empty
unfoldable pub trimmed_nonempty : Option Str → Option Str
unfolding trim
trimmed_nonempty none = none
trimmed_nonempty (some s) = if is_empty (trim s) then none else some (trim s)

unfoldable pub parse_entry_hex : AccumulatorEntryJson → Result (Bytes × Bytes)
unfolding hex_decode_even trim
parse_entry_hex v = elim (hex_decode_even (trim v.tx_hash_hex)) [
  | err e ↦ err e
  | ok tx ↦ elim (hex_decode_even (trim v.block_digest_hex)) [ err e ↦ err e | ok bd ↦ ok (tx, bd) ]
]

-- an exit that a condition asks for
abbrev pub exit_if : Bool → ℕ → Flow (Unit {0})
exit_if b code = if b then exit code else go tt

abbrev pub has_z_in_proof : PathY4LookupBundle → Bool
has_z_in_proof bundle = elim bundle.z_in_proof [ none ↦ false | some z ↦ not (is_empty z) ]

abbrev pub has_no_bytes : Option Bytes → Bool
has_no_bytes none = true
has_no_bytes (some b) = is_empty b

abbrev pub is_none {ℓ} : {A : Type ℓ} → Option A → Bool
is_none none = true
is_none (some a) = false

module _ ⦃lib : NounLib⦄ (run : Bytes → Noun → Result (List Noun))
    (read_file : Str → Result Bytes) where
  -- a proof with its subject and formula: `true` if it verifies, and an exit if it does not
  unfoldable pub verify_proof : Cli → Bytes → Str → Str → Flow Bool
  unfolding hex_decode_even
  verify_proof cli b sj fj = do
    subject_jam ← or_exit (hex_decode_even sj) 2
    formula_jam ← or_exit (hex_decode_even fj) 2
    kernel_jam ← or_exit (read_file cli.kernel_jam_path) 7
    verified ← or_exit (verify_stark_explicit_offline run kernel_jam b subject_jam formula_jam) 7
    exit_if (not verified) 7
    go true

  unfoldable pub verify_stark_section : Cli → PathY4LookupBundle → Option Bytes → Flow Bool
  unfolding verify_proof trimmed_nonempty
  verify_stark_section cli bundle none = go false
  verify_stark_section cli bundle (some b) = if is_empty b then go false else do
    sj ← some_or_exit (trimmed_nonempty bundle.recursive_subject_jam_hex) 7
    fj ← some_or_exit (trimmed_nonempty bundle.recursive_formula_jam_hex) 7
    verify_proof cli b sj fj

  -- the snapshot of a bundle with a row: `true` if it verifies, and an exit if it does not
  unfoldable pub verify_snapshot :
      Cli → PathY4LookupBundle → AccumulatorEntryJson → Bytes → Str → Flow Bool
  unfolding hex_decode_even trim parse_entry_hex
  verify_snapshot cli bundle v accumulator_root sh = do
    acc_jam ← or_exit (hex_decode_even sh) 2
    hashes ← or_exit (parse_entry_hex v) 2
    kernel_jam ← or_exit (read_file cli.kernel_jam_path) 7
    verified ←
        or_exit
          (verify_accumulator_snapshot_offline run kernel_jam accumulator_root acc_jam
            (trim bundle.name) (trim v.owner) hashes.0 v.claim_height hashes.1)
          7
    exit_if (not verified) 10
    go true

  unfoldable pub verify_row :
      Cli → PathY4LookupBundle → AccumulatorEntryJson → Bytes → Option Str → Flow Bool
  unfolding verify_snapshot
  verify_row cli bundle v accumulator_root (some sh) =
      verify_snapshot cli bundle v accumulator_root sh
  verify_row cli bundle v accumulator_root none = exit_if (not cli.allow_missing_z_in) 9 >> go false

  -- the row's section: `true` if the snapshot verifies, `false` if there is none to verify
  unfoldable pub verify_accumulator_section :
      Cli → PathY4LookupBundle → Option AccumulatorEntryJson → Bytes → Flow Bool
  unfolding verify_row trimmed_nonempty
  verify_accumulator_section cli bundle none accumulator_root = go false
  verify_accumulator_section cli bundle (some v) accumulator_root =
      verify_row cli bundle v accumulator_root
        (trimmed_nonempty bundle.accumulator_snapshot_jam_hex)

  -- the sections of `main` on a bundle, up to the report
  unfoldable pub check_bundle : Cli → ℕ → Str → Bytes → PathY4LookupBundle → Flow Checked
  unfolding decode_recursive_proof verify_stark_section verify_accumulator_section
  check_bundle cli cp_height cp_hex checkpoint_digest bundle = do
    exit_if (has_z_in_proof bundle) 2
    last_digest ← or_exit (hex_decode_even bundle.last_proved_digest_hex) 2
    accumulator_root ← or_exit (hex_decode_even bundle.accumulator_root_hex) 2
    recursive_bytes ← decode_recursive_proof bundle
    stark_ok ← verify_stark_section cli bundle recursive_bytes
    exit_if
        (has_no_bytes recursive_bytes && is_none recursive_bytes && not cli.allow_empty_recursive) 8
    acc_ok ← verify_accumulator_section cli bundle bundle.value accumulator_root
    done ←
        or_exit
          (verify_header_chain_to_checkpoint bundle.last_proved_height last_digest
            (record { height = cp_height; digest = checkpoint_digest })
            bundle.headers_to_checkpoint)
          1
    go (record {
      cli = cli;
      cp_height = cp_height;
      cp_hex = cp_hex;
      bundle = bundle;
      stark_ok = stark_ok;
      acc_ok = acc_ok;
    })

  -- all that `main` does before it prints its report
  unfoldable pub checks : Cli → Result PathY4LookupBundle → Flow Checked
  unfolding check_bundle
  checks cli input = do
    cp_height ← some_or_exit cli.checkpoint_height 5
    cp_hex ← some_or_exit cli.checkpoint_digest_hex 5
    checkpoint_digest ← or_exit (hex_decode_even cp_hex) 5
    bundle ← or_exit input 2
    check_bundle cli cp_height cp_hex checkpoint_digest bundle

  -- what the process prints on these arguments, variable and standard input, and its exit code
  unfoldable pub main : Option Str → List Str → Result PathY4LookupBundle → Output
  unfolding parse_args checks output
  main env args input = output (parse_args (initial_cli env) args >>= λ cli. checks cli input)
