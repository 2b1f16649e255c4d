-- ===== src/LightVerify/Main/Codes.antt =====
-- The exit codes of a run: which checks code 0 stands for.
use Prim.Native.Char.{code}
use nns.Base.{
  Bool, Bool-cases, List, Option, [], any, ap, arith, false, inl, inr, is_empty, none, not, refl,
  some, true, ℕ, ◌<◌, ◌∙◌, ◌∷◌, ◌≡◌, ◌⊎◌,
}
use nns.Base.Result.{Result, err, ok, panic}
use nns.Base.Strings.{trim}
use nns.Base.Text.{Bytes, Str}
use nns.Hex.{hex_decode_even}
use nns.Kernel.Verify.{verify_accumulator_snapshot_offline, verify_stark_explicit_offline}
use nns.LightVerify.Args.{Cli, initial_cli, is_help, parse_args}
use nns.LightVerify.Args.Help.{parse_args-help}
use nns.LightVerify.Flow.{Flow, exit, go, or_exit, some_or_exit, ◌>>=◌}
use nns.LightVerify.Main.{
  check_bundle, checks, decode_proof_hex, decode_recursive_proof, exit_if, has_z_in_proof, main,
  parse_entry_hex, trimmed_nonempty, verify_accumulator_section, verify_proof, verify_row,
  verify_snapshot, verify_stark_section,
}
use nns.LightVerify.Main.Accepts.{Accepted}
use nns.LightVerify.Main.Sections.{checks-Accepted}
use nns.LightVerify.Report.{Checked, output}
use nns.Noun.{Noun, NounLib}
use nns.Wallet.{AccumulatorEntryJson, PathY4LookupBundle, verify_header_chain_to_checkpoint}

-- an exit with a code that is not 0, or no exit
abbrev Fails {ℓ} : {A : Type ℓ} → Flow A → Type 0
Fails (go a) = Unit
Fails (exit c) = 0 < c

>>=-Fails {ℓ κ} :
    {A : Type ℓ} {B : Type κ} (m : Flow A) (f : A → Flow B)
    → Fails m
    → ((a : A) → Fails (f a))
    → Fails (m >>= f)
>>=-Fails (go a) f hm hf = hf a
>>=-Fails (exit c) f hm hf = hm

or_exit-Fails {ℓ} : {A : Type ℓ} (r : Result A) (c : ℕ) → 0 < c → Fails (or_exit r c)
or_exit-Fails (ok a) c h = tt
or_exit-Fails (err panic) c h = omega arith
or_exit-Fails (err _) c h = h

some_or_exit-Fails {ℓ} : {A : Type ℓ} (o : Option A) (c : ℕ) → 0 < c → Fails (some_or_exit o c)
some_or_exit-Fails none c h = h
some_or_exit-Fails (some a) c h = tt

exit_if-Fails : (b : Bool) (c : ℕ) → 0 < c → Fails (exit_if b c)
exit_if-Fails true c h = h
exit_if-Fails false c h = tt

decode_proof_hex-Fails : (o : Option Str) → Fails (decode_proof_hex o)
unfolding decode_proof_hex
decode_proof_hex-Fails none = tt
decode_proof_hex-Fails (some s) = elim (Bool-cases (is_empty (trim s))) [
  | inl e ↦ rw e tt
  | inr e ↦
      rw e (
        >>=-Fails (or_exit (hex_decode_even (trim s)) 2) _ (or_exit-Fails _ 2 (omega arith))
          λ b. tt)
]

module _ ⦃lib : NounLib⦄ (run : Bytes → Noun → Result (List Noun))
    (read_file : Str → Result Bytes) where
  verify_proof-Fails :
      (cli : Cli) (b : Bytes) (sj fj : Str) → Fails (verify_proof run read_file cli b sj fj)
  unfolding verify_proof
  verify_proof-Fails cli b sj fj =
      >>=-Fails _ _ (or_exit-Fails (hex_decode_even sj) 2 (omega arith)) λ s.
        >>=-Fails _ _ (or_exit-Fails (hex_decode_even fj) 2 (omega arith)) λ f.
          >>=-Fails _ _ (or_exit-Fails (read_file cli.kernel_jam_path) 7 (omega arith)) λ k.
            >>=-Fails _ _
              (or_exit-Fails (verify_stark_explicit_offline run k b s f) 7 (omega arith))
              λ v. >>=-Fails _ _ (exit_if-Fails (not v) 7 (omega arith)) λ u. tt

  verify_stark_section-Fails :
      (cli : Cli) (bundle : PathY4LookupBundle) (r : Option Bytes)
      → Fails (verify_stark_section run read_file cli bundle r)
  unfolding verify_stark_section
  verify_stark_section-Fails cli bundle none = tt
  verify_stark_section-Fails cli bundle (some []) = tt
  verify_stark_section-Fails cli bundle (some (x ∷ xs)) =
      >>=-Fails _ _
        (some_or_exit-Fails (trimmed_nonempty bundle.recursive_subject_jam_hex) 7 (omega arith))
        λ sj.
          >>=-Fails _ _
            (some_or_exit-Fails (trimmed_nonempty bundle.recursive_formula_jam_hex) 7 (omega arith))
            λ fj. verify_proof-Fails cli (x ∷ xs) sj fj

  verify_row-Fails :
      (cli : Cli) (bundle : PathY4LookupBundle) (v : AccumulatorEntryJson) (root : Bytes)
      (o : Option Str)
      → Fails (verify_row run read_file cli bundle v root o)
  unfolding verify_row verify_snapshot
  verify_row-Fails cli bundle v root none =
      >>=-Fails _ _ (exit_if-Fails (not cli.allow_missing_z_in) 9 (omega arith)) λ u. tt
  verify_row-Fails cli bundle v root (some sh) =
      >>=-Fails _ _ (or_exit-Fails (hex_decode_even sh) 2 (omega arith)) λ acc.
        >>=-Fails _ _ (or_exit-Fails (parse_entry_hex v) 2 (omega arith)) λ hs.
          >>=-Fails _ _ (or_exit-Fails (read_file cli.kernel_jam_path) 7 (omega arith)) λ k.
            >>=-Fails _ _
              (or_exit-Fails
                (verify_accumulator_snapshot_offline run k root acc (trim bundle.name)
                  (trim v.owner) hs.0 v.claim_height hs.1)
                7 (omega arith))
              λ yes. >>=-Fails _ _ (exit_if-Fails (not yes) 10 (omega arith)) λ u. tt

  verify_accumulator_section-Fails :
      (cli : Cli) (bundle : PathY4LookupBundle) (o : Option AccumulatorEntryJson) (root : Bytes)
      → Fails (verify_accumulator_section run read_file cli bundle o root)
  unfolding verify_accumulator_section
  verify_accumulator_section-Fails cli bundle none root = tt
  verify_accumulator_section-Fails cli bundle (some v) root =
      verify_row-Fails cli bundle v root (trimmed_nonempty bundle.accumulator_snapshot_jam_hex)

  check_bundle-Fails :
      (cli : Cli) (height : ℕ) (hex : Str) (digest : Bytes) (bundle : PathY4LookupBundle)
      → Fails (check_bundle run read_file cli height hex digest bundle)
  unfolding check_bundle decode_recursive_proof
  check_bundle-Fails cli height hex digest bundle =
      >>=-Fails _ _ (exit_if-Fails (has_z_in_proof bundle) 2 (omega arith)) λ u.
        >>=-Fails _ _
          (or_exit-Fails (hex_decode_even bundle.last_proved_digest_hex) 2 (omega arith))
          λ last_digest.
            >>=-Fails _ _
              (or_exit-Fails (hex_decode_even bundle.accumulator_root_hex) 2 (omega arith))
              λ root. >>=-Fails _ _ (decode_proof_hex-Fails bundle.recursive_proof_hex) λ r.
                >>=-Fails _ _ (verify_stark_section-Fails cli bundle r) λ s.
                  >>=-Fails _ _ (exit_if-Fails _ 8 (omega arith)) λ u.
                    >>=-Fails _ _ (verify_accumulator_section-Fails cli bundle bundle.value root)
                      λ a.
                        >>=-Fails _ _
                          (or_exit-Fails
                            (verify_header_chain_to_checkpoint bundle.last_proved_height last_digest
                              (record { height = height; digest = digest })
                              bundle.headers_to_checkpoint)
                            1 (omega arith))
                          λ u. tt

  checks-Fails :
      (cli : Cli) (input : Result PathY4LookupBundle) → Fails (checks run read_file cli input)
  unfolding checks
  checks-Fails cli input =
      >>=-Fails _ _ (some_or_exit-Fails cli.checkpoint_height 5 (omega arith)) λ height.
        >>=-Fails _ _ (some_or_exit-Fails cli.checkpoint_digest_hex 5 (omega arith)) λ hex.
          >>=-Fails _ _ (or_exit-Fails (hex_decode_even hex) 5 (omega arith)) λ digest.
            >>=-Fails _ _ (or_exit-Fails input 2 (omega arith))
              λ bundle. check_bundle-Fails cli height hex digest bundle

  go_of : (m : Flow Checked) → Fails m → (output m).exit_code ≡ 0 → (c : Checked) × (m ≡ go c)
  unfolding output
  go_of (go c) hf h = (c, refl)
  go_of (exit code) hf h = absurd (omega arith)

  -- the two stages of a run that ends with code 0
  stages {ℓ} :
      {A : Type ℓ} (m : Flow A) (f : A → Flow Checked)
      → ((a : A) → Fails (f a))
      → (output (m >>= f)).exit_code ≡ 0
      → (m ≡ exit 0) ⊎ ((a : A) × (c : Checked) × (m ≡ go a) × (f a ≡ go c))
  unfolding output
  stages (exit code) f hf h = inl (ap exit h)
  stages (go a) f hf h = let (c, e) = go_of (f a) (hf a) h in inr (a, c, refl, e)

  -- If the process ends with code 0, then either `-h` or `--help` is among its arguments and the
  -- parse ends the process, or the input is a bundle with all that `Accepted` lists: no Z-set proof;
  -- a recursive proof on which the kernel says yes with the bundle's subject and formula, or none,
  -- which a flag must allow; the kernel's yes on the row, if there is one, in the bundle's snapshot,
  -- or no snapshot, which a flag must allow; and headers that the walk to the given checkpoint
  -- accepts. The two verdicts that are reported say which.
  pub main-Accepted :
      (env : Option Str) (args : List Str) (input : Result PathY4LookupBundle)
      → (main run read_file env args input).exit_code ≡ 0
      → ((any is_help args ≡ true) × (parse_args (initial_cli env) args ≡ exit 0))
        ⊎ ((c : Checked) × (parse_args (initial_cli env) args ≡ go c.cli)
            × (input ≡ ok c.bundle)
            × Accepted run read_file c)
  unfolding main
  main-Accepted env args input h =
      elim (stages (parse_args (initial_cli env) args) (λ cli. checks run read_file cli input)
        (λ cli. checks-Fails cli input) h) [
          | inl e ↦ inl (parse_args-help (initial_cli env) args e, e)
          | inr (cli, c, e, e2) ↦
              let (same, h_in, all_done) = checks-Accepted run read_file cli input c e2 in
              inr (c, e ∙ ap go same, h_in, all_done)
        ]
