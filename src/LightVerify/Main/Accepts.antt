-- ===== src/LightVerify/Main/Accepts.antt =====
-- What a run that ends with code 0 has checked.
use nns.Base.{Bool, List, [], false, some, true, ℕ, ◌≡◌, ◌⊎◌}
use nns.Base.Result.{Result, ok}
use nns.Base.Strings.{trim}
use nns.Base.Text.{Bytes, Str}
use nns.Hex.{hex_decode_even}
use nns.Kernel.Verify.{verify_accumulator_snapshot_offline, verify_stark_explicit_offline}
use nns.LightVerify.Args.{Cli}
use nns.LightVerify.Main.Given.{Gives, IsBlank}
use nns.LightVerify.Report.{Checked}
use nns.Noun.{Noun, NounLib}
use nns.Wallet.{
  AccumulatorEntryJson, PathY4LookupBundle, ZInProofNodeJson, verify_header_chain_to_checkpoint,
}

module _ ⦃lib : NounLib⦄ (run : Bytes → Noun → Result (List Noun))
    (read_file : Str → Result Bytes) where
  -- The kernel at the path given says yes to the bundle's proof with the subject and the formula
  -- that the bundle's fields of these names decode to.
  pub record StarkVerified (cli : Cli) (bundle : PathY4LookupBundle) : Type 0 where
    pub proof : Bytes
    pub subject : Bytes
    pub formula : Bytes
    pub proof_hex : Str
    pub subject_hex : Str
    pub formula_hex : Str
    pub kernel_jam : Bytes
    pub proof_given : Gives bundle.recursive_proof_hex proof_hex
    pub proof_decodes : hex_decode_even proof_hex ≡ ok proof
    pub subject_given : Gives bundle.recursive_subject_jam_hex subject_hex
    pub subject_decodes : hex_decode_even subject_hex ≡ ok subject
    pub formula_given : Gives bundle.recursive_formula_jam_hex formula_hex
    pub formula_decodes : hex_decode_even formula_hex ≡ ok formula
    pub kernel_read : read_file cli.kernel_jam_path ≡ ok kernel_jam
    pub yes_stark : verify_stark_explicit_offline run kernel_jam proof subject formula ≡ ok true

  -- The kernel says yes to the row of the bundle in the bundle's snapshot of the accumulator,
  -- under the bundle's accumulator root.
  pub record RowVerified (cli : Cli) (bundle : PathY4LookupBundle) (v : AccumulatorEntryJson)
      : Type 0 where
    pub root : Bytes
    pub snapshot : Bytes
    pub snapshot_hex : Str
    pub tx_hash : Bytes
    pub block_digest : Bytes
    pub kernel_jam : Bytes
    pub root_decodes : hex_decode_even bundle.accumulator_root_hex ≡ ok root
    pub snapshot_given : Gives bundle.accumulator_snapshot_jam_hex snapshot_hex
    pub snapshot_decodes : hex_decode_even snapshot_hex ≡ ok snapshot
    pub tx_hash_decodes : hex_decode_even (trim v.tx_hash_hex) ≡ ok tx_hash
    pub block_digest_decodes : hex_decode_even (trim v.block_digest_hex) ≡ ok block_digest
    pub kernel_read : read_file cli.kernel_jam_path ≡ ok kernel_jam
    pub yes_row :
        verify_accumulator_snapshot_offline run kernel_jam root snapshot
          (trim bundle.name)
          (trim v.owner)
          tx_hash
          v.claim_height
          block_digest
        ≡ ok true

  -- The header rows lead from the bundle's last proved block to the checkpoint of the arguments.
  pub record ChainVerified (cli : Cli) (bundle : PathY4LookupBundle) : Type 0 where
    pub height : ℕ
    pub hex : Str
    pub digest : Bytes
    pub last_digest : Bytes
    pub height_given : cli.checkpoint_height ≡ some height
    pub hex_given : cli.checkpoint_digest_hex ≡ some hex
    pub digest_decodes : hex_decode_even hex ≡ ok digest
    pub last_decodes : hex_decode_even bundle.last_proved_digest_hex ≡ ok last_digest
    pub linked :
        verify_header_chain_to_checkpoint bundle.last_proved_height last_digest
          (record { height = height; digest = digest })
          bundle.headers_to_checkpoint
        ≡ ok tt

  -- The verdict on the proof: it verifies, or there is none and a flag allows that.
  unfoldable pub StarkVerdict : Cli → PathY4LookupBundle → Bool → Type 0
  StarkVerdict cli bundle v =
      ((v ≡ true) × StarkVerified cli bundle)
      ⊎ ((v ≡ false) × IsBlank bundle.recursive_proof_hex × (cli.allow_empty_recursive ≡ true))

  -- The verdict on the row: it verifies, or there is no snapshot and a flag allows that.
  unfoldable pub RowVerdict : Cli → PathY4LookupBundle → AccumulatorEntryJson → Bool → Type 0
  RowVerdict cli bundle v a =
      ((a ≡ true) × RowVerified cli bundle v)
      ⊎ ((a ≡ false)
          × IsBlank bundle.accumulator_snapshot_jam_hex
          × (cli.allow_missing_z_in ≡ true))

  -- All that `main` insists on before it prints its report.
  pub record Accepted (c : Checked) : Type 0 where
    pub no_z_in_proof : (z : List ZInProofNodeJson) → c.bundle.z_in_proof ≡ some z → z ≡ []
    pub stark : StarkVerdict c.cli c.bundle c.stark_ok
    pub row :
        (v : AccumulatorEntryJson) → c.bundle.value ≡ some v → RowVerdict c.cli c.bundle v c.acc_ok
    pub chain : ChainVerified c.cli c.bundle
