-- ===== src/Tests/Wallets.antt =====
-- The wallet's walk, its freshness check, and a whole run of the verifier.
use mathlib.Core.List.{Memᴰ}
use mathlib.Core.Path.{subst}
use nns.Base.{
  List, [], any, none, refl, replicate, sym, true, ℕ, ◌++◌, ◌+◌, ◌<◌, ◌↔◌, ◌∷◌, ◌≡◌, ◌≤◌, ◌⊎◌,
}
use nns.Base.Display.{to_string}
use nns.Base.Parse.{parse_u64}
use nns.Base.Result.{Result, err, ok, text}
use nns.Base.Strings.{trim}
use nns.Base.Text.{Bytes, Str, codes, utf8}
use nns.Freshness.{
  Freshness, FreshnessError, bound, bundle_check_anchor_binding, bundle_check_freshness, check,
  fresh, proof_too_stale, stale,
}
use nns.Freshness.Window.{bundle_accepted_iff, check_window}
use nns.Hex.{hex_decode_even}
use nns.Kernel.Types.{ClaimBundle, ClaimWitness}
use nns.LightVerify.Args.{Cli, initial_cli, is_help, parse_args}
use nns.LightVerify.Flow.{exit, go}
use nns.LightVerify.Main.{checks, decode_recursive_proof, main, verify_accumulator_section}
use nns.LightVerify.Main.Accepts.{Accepted}
use nns.LightVerify.Main.Codes.{main-Accepted}
use nns.LightVerify.Main.Truthful.{Holds, main-Holds}
use nns.LightVerify.Report.Verdicts.{chain_passed, line_of}
use nns.LightVerify.Report.{Checked, chain_line, output}
use nns.Noun.{Noun}
use nns.Samples.Nouns.{sample_nouns}
use nns.Wallet.{
  CheckpointConfig, NockHeaderLink, PathY4LookupBundle, verify_header_chain_to_checkpoint,
}
use nns.Wallet.Chain.{LeadsTo, verify_iff}

abbrev row_8 : NockHeaderLink
row_8 = record { height = 8; digest_hex = codes "08"; parent_hex = codes "07" }

abbrev row_7 : NockHeaderLink
row_7 = record { height = 7; digest_hex = codes "07"; parent_hex = codes "06" }

abbrev checkpoint_7 : CheckpointConfig
checkpoint_7 = record { height = 7; digest = 7 ∷ [] }

abbrev height_8 : ℕ
height_8 = 8

abbrev digest_8 : Bytes
digest_8 = 8 ∷ []

abbrev digest_9 : Bytes
digest_9 = 9 ∷ []

abbrev rows : List NockHeaderLink
rows = row_8 ∷ row_7 ∷ []

rows-accepted : verify_header_chain_to_checkpoint 8 (8 ∷ []) checkpoint_7 rows ≡ ok tt
unfolding verify_header_chain_to_checkpoint hex_decode_even utf8 trim
rows-accepted = refl

verify_iff_example : (verify_header_chain_to_checkpoint 8 (8 ∷ []) checkpoint_7 rows ≡ ok tt) ↔ (
    ((height_8 ≡ 7) × (rows ≡ []) × (digest_8 ≡ (7 ∷ [])))
    ⊎ ((7 < 8) × LeadsTo checkpoint_7 8 (8 ∷ []) rows))
verify_iff_example = verify_iff 8 (8 ∷ []) checkpoint_7 rows

abbrev policy : Freshness
policy = record { max_staleness = 20 }

check_window_example :
    ((check policy 100 121 ≡ fresh) ↔ (121 ≤ 100 + 20))
    × ((e : FreshnessError)
        → check policy 100 121 ≡ stale e
        → (lag : ℕ) × (e ≡ proof_too_stale 100 121 20 lag) × (100 + lag ≡ 121) × (20 < lag))
check_window_example = check_window policy 100 121

abbrev no_witness : ClaimWitness
no_witness = record { tx_id = []; spender_pkh = []; treasury_amount = 0; output_lock_root = [] }

abbrev bundle_100 : ClaimBundle
bundle_100 = record {
  name = codes "a.nock";
  owner = codes "o";
  fee = 1;
  tx_hash = [];
  claim_block_digest = [];
  anchor_headers = [];
  page_digest = [];
  page_tx_ids = [];
  anchored_tip = 9 ∷ [];
  anchored_tip_height = 100;
  witness = no_witness;
}

bundle_accepted_iff_example :
    ((bundle_check_freshness bundle_100 120 policy ≡ fresh)
      × (bundle_check_anchor_binding bundle_100 (9 ∷ []) ≡ bound))
    ↔ ((120 ≤ 100 + 20) × (digest_9 ≡ digest_9))
bundle_accepted_iff_example = bundle_accepted_iff bundle_100 policy 120 (9 ∷ [])

-- a bundle without a proof and without a row, and arguments that allow it
abbrev lookup_bundle : PathY4LookupBundle
lookup_bundle = record {
  name = codes "a.nock";
  value = none;
  last_proved_height = 8;
  last_proved_digest_hex = codes "08";
  accumulator_root_hex = codes "00";
  recursive_proof_hex = none;
  recursive_subject_jam_hex = none;
  recursive_formula_jam_hex = none;
  accumulator_snapshot_jam_hex = none;
  z_in_proof = none;
  headers_to_checkpoint = rows;
}

abbrev arguments : List Str
arguments =
    codes "--path-y2-dev"
    ∷ codes "--checkpoint-height"
    ∷ codes "7"
    ∷ codes "--checkpoint-digest-hex"
    ∷ codes "07"
    ∷ []

abbrev no_kernel : Bytes → Noun → Result (List Noun)
no_kernel jam cause = err (text "no kernel")

abbrev no_file : Str → Result Bytes
no_file path = err (text "no file")

run-accepted : (main no_kernel no_file none arguments (ok lookup_bundle)).exit_code ≡ 0
unfolding main parse_args checks verify_header_chain_to_checkpoint hex_decode_even utf8 trim
    decode_recursive_proof verify_accumulator_section parse_u64 sample_nouns to_string output
run-accepted = refl

main-Accepted_example :
    ((any is_help arguments ≡ true) × (parse_args (initial_cli none) arguments ≡ exit 0))
    ⊎ ((c : Checked) × (parse_args (initial_cli none) arguments ≡ go c.cli)
        × (ok lookup_bundle ≡ ok c.bundle)
        × Accepted no_kernel no_file c)
main-Accepted_example =
    main-Accepted no_kernel no_file none arguments (ok lookup_bundle) run-accepted

-- the report of the run
run-printed : (main no_kernel no_file none arguments (ok lookup_bundle)).lines ≡ (
    codes "verified: a.nock"
    ∷ codes "  last_proved_height: 8"
    ∷ codes "  checkpoint: height=7 (07…)"
    ∷ codes "  value: absent"
    ∷ codes "  mode: path-y2-dev (both Y2 relax flags set)"
    ∷ codes "checks:"
    ∷ codes "  [SKIP] recursive Vesl STARK (empty / absent proof)"
    ∷ codes "  [SKIP] z-map row (no value in bundle)"
    ∷ codes "  [PASS] header chain to checkpoint"
    ∷ [])
unfolding main parse_args checks verify_header_chain_to_checkpoint hex_decode_even utf8 trim
    decode_recursive_proof verify_accumulator_section parse_u64 sample_nouns to_string output
run-printed = refl

run-printed_chain :
    Memᴰ (line_of chain_passed) (main no_kernel no_file none arguments (ok lookup_bundle)).lines
unfolding line_of
run-printed_chain =
    let here : Memᴰ chain_line (chain_line ∷ []) = Memᴰ.head refl in
    subst (λ ls. Memᴰ chain_line ls) (sym run-printed)
      (Memᴰ.tail
        (Memᴰ.tail (Memᴰ.tail (Memᴰ.tail (Memᴰ.tail (Memᴰ.tail (Memᴰ.tail (Memᴰ.tail here))))))))

main-Holds_example :
    (cli : Cli) × (bundle : PathY4LookupBundle) × (parse_args (initial_cli none) arguments ≡ go cli)
    × (ok lookup_bundle ≡ ok bundle)
    × Holds no_kernel no_file chain_passed cli bundle
main-Holds_example =
    main-Holds no_kernel no_file none arguments (ok lookup_bundle) chain_passed run-printed_chain

-- the digest of the checkpoint after four ideographic spaces
abbrev wide_arguments : List Str
wide_arguments =
    codes "--path-y2-dev"
    ∷ codes "--checkpoint-height"
    ∷ codes "7"
    ∷ codes "--checkpoint-digest-hex"
    ∷ (replicate 4 0x3000 ++ codes "07")
    ∷ []

-- all checks pass, and the report panics where it cuts the digest inside a space
wide-panics : (main no_kernel no_file none wide_arguments (ok lookup_bundle)).exit_code ≡ 101
unfolding main parse_args checks verify_header_chain_to_checkpoint hex_decode_even utf8 trim
    decode_recursive_proof verify_accumulator_section parse_u64 sample_nouns to_string output
wide-panics = refl
