-- ===== src/Tests/Payments.antt =====
-- Fees, payments, names and the count of scans.
use nns.Api.{is_name_char, is_valid_name}
use nns.Api.Names.{is_valid_name_iff}
use nns.Base.{
  [], all, arith, false, filter_map, is_empty, keep, min, refl, some, true, u64_max, ◌%◌, ◌++◌, ◌<◌,
  ◌↔◌, ◌≡◌, ◌≤◌, ◌⊎◌,
}
use nns.Base.Strings.{strip_suffix}
use nns.Base.Text.{Str, codes}
use nns.Payment.{
  fee_for_name, output_amount_nicks, output_pays_treasury_v1, sum_treasury_outputs_v1,
}
use nns.Payment.Fees.{fee-antitone, stem_length, sum, sum_treasury-min}
use nns.Payment.Verify.{given_hash, paid_by, verify}
use nns.Payment.Verify.Sound.{Paid, verify-Paid}
use nns.Samples.Kernels.{sample_settlement}
use nns.Samples.Ledger.{prompt_node, sample_details, sample_tx}
use nns.Samples.Nouns.{sample_nouns}
use nns.State.Persist.{scans, scans-mod}

abc-short : 0 < stem_length (codes "abc.nock")
unfolding strip_suffix stem_length
abc-short = omega arith

abc-shorter : stem_length (codes "abc.nock") ≤ stem_length (codes "longername.nock")
unfolding strip_suffix stem_length
abc-shorter = omega arith

fee-antitone_example :
    (0 < fee_for_name (codes "abc.nock"))
    × (fee_for_name (codes "longername.nock") ≤ fee_for_name (codes "abc.nock"))
    × ((fee_for_name (codes "longername.nock") < fee_for_name (codes "abc.nock")) ↔ (
        ((stem_length (codes "abc.nock") < 5) × (5 ≤ stem_length (codes "longername.nock")))
        ⊎ ((stem_length (codes "abc.nock") < 10) × (10 ≤ stem_length (codes "longername.nock")))))
fee-antitone_example =
    fee-antitone (codes "abc.nock") (codes "longername.nock") abc-short abc-shorter

sum_treasury-min_example :
    sum_treasury_outputs_v1 sample_details
    ≡ min
        (sum (filter_map output_amount_nicks (keep output_pays_treasury_v1 sample_details.outputs)))
        u64_max
sum_treasury-min_example = sum_treasury-min sample_details

sum_of_sample : sum_treasury_outputs_v1 sample_details ≡ 6553600
unfolding sum_treasury_outputs_v1 sample_tx sample_nouns output_pays_treasury_v1 output_amount_nicks
sum_of_sample = refl

claimed-given : given_hash (some (codes " tx1 ")) ≡ some (codes "tx1")
unfolding given_hash
claimed-given = refl

payment-let_through :
    verify ⦃node = prompt_node⦄ sample_settlement (codes "note") 6553600 (some (codes " tx1 ")) []
    ≡ paid_by (codes "tx1")
unfolding verify prompt_node sample_tx sample_nouns output_pays_treasury_v1 output_amount_nicks
payment-let_through = refl

verify-Paid_example :
    (codes "tx1" ≡ codes "tx1")
    × Paid ⦃node = prompt_node⦄ sample_settlement (codes "note") 6553600 (codes "tx1")
verify-Paid_example =
    verify-Paid ⦃node = prompt_node⦄ sample_settlement (codes "note") 6553600 (some (codes " tx1 "))
      [] (codes "tx1") (codes "tx1") refl claimed-given payment-let_through

scans-mod_example : scans 3 7 ≡ 7 % 3
scans-mod_example = scans-mod 3 7 (omega arith) (omega arith)

is_valid_name_iff_example : (is_valid_name (codes "ab1.nock") ≡ true) ↔ (
    (stem : Str) × (codes "ab1.nock" ≡ stem ++ codes ".nock")
    × (is_empty stem ≡ false)
    × (all is_name_char stem ≡ true))
is_valid_name_iff_example = is_valid_name_iff (codes "ab1.nock")
