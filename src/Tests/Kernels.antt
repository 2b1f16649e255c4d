-- ===== src/Tests/Kernels.antt =====
-- Pokes and effects of the kernel.
use nns.Base.{All, [], arith, none, refl, replicate, some, ℕ, ◌∷◌, ◌≡◌}
use nns.Base.Slices.{All-replicate}
use nns.Base.Strings.{IsTrimmed, trim_end_matches}
use nns.Base.Text.{Bytes, Str, codes, from_utf8, utf8}
use nns.Kernel.Effects.{error_message, scan_block_done, scan_block_error}
use nns.Kernel.Effects.Reports.{done_report, scan_block_done-report}
use nns.Kernel.Failure.{decode_prove_failure}
use nns.Kernel.Pokes.Injective.{IsClaim, IsDigest, build_scan_block_poke-injective}
use nns.Kernel.Types.{ClaimCandidate, ScanBlockDone}
use nns.Noun.{IsByte, as_cord, atom, is_nul, le_value, make_tag, ◌⸬◌}
use nns.Noun.Cord.{IsCord}
use nns.Samples.Nouns.{sample_nouns}

abbrev foo : Str
foo = codes "foo"

foo-IsCord : IsCord foo
unfolding trim_end_matches
foo-IsCord = record { scalars = (refl, (refl, (refl, tt))); trimmed = refl }

abbrev digest : Bytes
digest = replicate 40 9

digest-IsDigest : IsDigest digest
digest-IsDigest = record { bytes = All-replicate IsByte 40 9 (omega arith); size = refl }

abbrev spender : Bytes
spender = 0 ∷ 171 ∷ 255 ∷ []

spender-IsByte : All IsByte spender
spender-IsByte = (omega arith, (omega arith, (omega arith, tt)))

spender-IsTrimmed : IsTrimmed is_nul spender
unfolding trim_end_matches
spender-IsTrimmed = refl

abbrev foo_claim : ClaimCandidate
foo_claim = record {
  name = foo;
  owner = foo;
  fee = 100;
  tx_hash = digest;
  witness = record {
    tx_id = digest;
    spender_pkh = spender;
    treasury_amount = 100;
    output_lock_root = foo;
  };
}

foo_claim-IsClaim : IsClaim foo_claim
foo_claim-IsClaim = record {
  name_cord = foo-IsCord;
  owner_cord = foo-IsCord;
  root_cord = foo-IsCord;
  tx_hash_digest = digest-IsDigest;
  tx_id_digest = digest-IsDigest;
  spender_bytes = spender-IsByte;
  spender_trimmed = spender-IsTrimmed;
}

abbrev sample_height : ℕ
sample_height = 63000

build_scan_block_poke-injective_example :
    (digest ≡ digest)
    × (sample_height ≡ sample_height)
    × (digest ≡ digest)
    × ((digest ∷ []) ≡ (digest ∷ []))
    × ((foo_claim ∷ []) ≡ (foo_claim ∷ []))
build_scan_block_poke-injective_example =
    build_scan_block_poke-injective ⦃lib = sample_nouns⦄ digest digest sample_height sample_height
      digest digest (digest ∷ []) (digest ∷ []) (foo_claim ∷ []) (foo_claim ∷ []) digest-IsDigest
      digest-IsDigest digest-IsDigest digest-IsDigest (digest-IsDigest, tt) (digest-IsDigest, tt)
      (foo_claim-IsClaim, tt) (foo_claim-IsClaim, tt) refl

scan_block_done-report_example :
    (done : ScanBlockDone) × (scan_block_done ⦃lib = sample_nouns⦄
        (done_report ⦃lib = sample_nouns⦄ 63000 5 7)
      ≡ some done)
    × (done.height ≡ 63000)
    × (le_value done.digest ≡ 5)
    × (le_value done.accumulator_root ≡ 7)
    × (scan_block_error ⦃lib = sample_nouns⦄ (done_report ⦃lib = sample_nouns⦄ 63000 5 7) ≡ none)
    × (error_message ⦃lib = sample_nouns⦄ (done_report ⦃lib = sample_nouns⦄ 63000 5 7) ≡ none)
scan_block_done-report_example = scan_block_done-report ⦃lib = sample_nouns⦄ 63000 5 7 (omega arith)

-- the text of a failed dry run
failure-decoded :
    decode_prove_failure ⦃lib = sample_nouns⦄
      (sample_nouns.jam (make_tag ⦃lib = sample_nouns⦄ "dry-run-failed" ⸬ atom 7 ⸬ atom 0))
    ≡ codes "[dry-run-failed [7 (0x7) 0 (0x0)]]"
unfolding decode_prove_failure sample_nouns utf8 from_utf8 as_cord trim_end_matches
failure-decoded = refl
