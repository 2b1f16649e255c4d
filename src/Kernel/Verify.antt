-- ===== src/Kernel/Verify.antt =====
-- The offline verifiers of src/kernel.rs: boot a kernel from its JAM, poke it once, and read the
-- effects. `run` is that boot and poke, nockapp's; its error is that of whichever step failed.
use nns.Base.{Bool, List, Option, String, none, some, ℕ}
use nns.Base.Result.{Result, err, ok_or, text, text_str, ◌>>=◌}
use nns.Base.Text.{Bytes, Str}
use nns.Kernel.Effects.{
  first_accumulator_snapshot_verify_error, first_accumulator_snapshot_verify_result,
  first_verify_stark_error, first_verify_stark_result,
}
use nns.Kernel.Pokes.{build_verify_accumulator_snapshot_poke, build_verify_stark_explicit_poke}
use nns.Noun.{Noun, NounLib}

module _ ⦃lib : NounLib⦄ (run : Bytes → Noun → Result (List Noun)) where
  -- an error effect comes first, then the result, then the complaint that there is none
  unfoldable pub read_verdict :
      (List Noun → Option Str) → (List Noun → Option Bool) → String → List Noun → Result Bool
  read_verdict first_error first_result missing fx = elim (first_error fx) [
    | some msg ↦ err (text_str "" msg)
    | none ↦ ok_or (first_result fx) (text missing)
  ]

  unfoldable pub verify_stark_explicit_offline : Bytes → Bytes → Bytes → Bytes → Result Bool
  unfolding read_verdict
  verify_stark_explicit_offline kernel_jam proof_jam subject_jam formula_jam = do
    fx ← run kernel_jam (build_verify_stark_explicit_poke proof_jam subject_jam formula_jam)
    read_verdict first_verify_stark_error first_verify_stark_result
        "kernel emitted no %verify-stark-result" fx

  unfoldable pub verify_accumulator_snapshot_offline :
      Bytes → Bytes → Bytes → Str → Str → Bytes → ℕ → Bytes → Result Bool
  unfolding read_verdict
  verify_accumulator_snapshot_offline kernel_jam expected_root acc_jam name owner tx_hash
        claim_height block_digest =
      do
        fx ← run kernel_jam (
            build_verify_accumulator_snapshot_poke expected_root acc_jam name owner tx_hash
              claim_height block_digest)
        read_verdict first_accumulator_snapshot_verify_error
            first_accumulator_snapshot_verify_result
            "kernel emitted no %accumulator-snapshot-verify-result" fx
