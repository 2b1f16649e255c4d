-- ===== src/LightVerify/Main/Sections.antt =====
-- All sections of a run, one after the other.
use mathlib.Core.Path.{subst}
use nns.Base.{List, ap, refl, some, ℕ, ◌∙◌, ◌≡◌}
use nns.Base.Result.{Result, ok}
use nns.Base.Text.{Bytes, Str}
use nns.Hex.{hex_decode_even}
use nns.LightVerify.Args.{Cli}
use nns.LightVerify.Flow.{
  >>=-eq-go, go, go-injective, or_exit, or_exit-eq-go, some_or_exit, some_or_exit-eq-go,
}
use nns.LightVerify.Main.{
  check_bundle, checks, decode_recursive_proof, exit_if, has_z_in_proof, verify_accumulator_section,
  verify_stark_section,
}
use nns.LightVerify.Main.Accepts.{Accepted}
use nns.LightVerify.Main.Given.{has_z_in_proof-empty}
use nns.LightVerify.Main.Verified.{exit_if-go, stark-or-allowed, verify_accumulator_section-go}
use nns.LightVerify.Report.{Checked}
use nns.Noun.{Noun, NounLib}
use nns.Wallet.{PathY4LookupBundle, verify_header_chain_to_checkpoint}

module _ ⦃lib : NounLib⦄ (run : Bytes → Noun → Result (List Noun))
    (read_file : Str → Result Bytes) where
  check_bundle-Accepted :
      (cli : Cli) (height : ℕ) (hex : Str) (digest : Bytes) (bundle : PathY4LookupBundle)
      (c : Checked)
      → cli.checkpoint_height ≡ some height
      → cli.checkpoint_digest_hex ≡ some hex
      → hex_decode_even hex ≡ ok digest
      → check_bundle run read_file cli height hex digest bundle ≡ go c
      → (cli ≡ c.cli) × (bundle ≡ c.bundle) × Accepted run read_file c
  unfolding check_bundle
  check_bundle-Accepted cli height hex digest bundle c h_height h_hex h_digest h =
      let (_, h_z, h4) = >>=-eq-go (exit_if (has_z_in_proof bundle) 2) _ h in
      let (low, h_last, h5) =
        >>=-eq-go (or_exit (hex_decode_even bundle.last_proved_digest_hex) 2) _ h4 in
      let (root, h_root, h6) =
        >>=-eq-go (or_exit (hex_decode_even bundle.accumulator_root_hex) 2) _ h5 in
      let (r, h_r, h7) = >>=-eq-go (decode_recursive_proof bundle) _ h6 in
      let (v, h_v, h8) = >>=-eq-go (verify_stark_section run read_file cli bundle r) _ h7 in
      let (_, h_e, h9) = >>=-eq-go (exit_if _ 8) _ h8 in
      let (a, h_a, h10) =
        >>=-eq-go (verify_accumulator_section run read_file cli bundle bundle.value root) _ h9 in
      let (u, h_u, h11) =
        >>=-eq-go
          (or_exit
            (verify_header_chain_to_checkpoint bundle.last_proved_height low
              (record { height = height; digest = digest }) bundle.headers_to_checkpoint)
            1)
          _ h10 in
      subst (λ x. (cli ≡ x.cli) × (bundle ≡ x.bundle) × Accepted run read_file x) (go-injective h11)
        (
          refl,
          refl,
          record {
            no_z_in_proof = has_z_in_proof-empty bundle (exit_if-go run read_file _ 2 h_z);
            stark =
                stark-or-allowed run read_file cli bundle r v h_r h_v
                  (exit_if-go run read_file _ 8 h_e);
            row =
                verify_accumulator_section-go run read_file cli bundle root bundle.value a
                  (or_exit-eq-go _ 2 h_root) h_a;
            chain = record {
              height = height;
              hex = hex;
              digest = digest;
              last_digest = low;
              height_given = h_height;
              hex_given = h_hex;
              digest_decodes = h_digest;
              last_decodes = or_exit-eq-go _ 2 h_last;
              linked = or_exit-eq-go _ 1 h_u;
            };
          },
        )

  pub checks-Accepted :
      (cli : Cli) (input : Result PathY4LookupBundle) (c : Checked)
      → checks run read_file cli input ≡ go c
      → (cli ≡ c.cli) × (input ≡ ok c.bundle) × Accepted run read_file c
  unfolding checks
  checks-Accepted cli input c h =
      let (height, h_height, h1) = >>=-eq-go (some_or_exit cli.checkpoint_height 5) _ h in
      let (hex, h_hex, h2) = >>=-eq-go (some_or_exit cli.checkpoint_digest_hex 5) _ h1 in
      let (digest, h_digest, h3) = >>=-eq-go (or_exit (hex_decode_even hex) 5) _ h2 in
      let (bundle, h_in, h4) = >>=-eq-go (or_exit input 2) _ h3 in
      let (same_cli, same_bundle, all_done) =
        check_bundle-Accepted cli height hex digest bundle c (some_or_exit-eq-go _ 5 h_height)
          (some_or_exit-eq-go _ 5 h_hex) (or_exit-eq-go _ 5 h_digest) h4 in
      (same_cli, or_exit-eq-go _ 2 h_in ∙ ap ok same_bundle, all_done)
