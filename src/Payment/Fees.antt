-- ===== src/Payment/Fees.antt =====
-- The fee schedule and the sum of the payments.
use mathlib.Core.Option
use mathlib.Core.List.{foldl}
use nns.Base.{
  List, [], ap, arith, filter_map, keep, length, min, saturating_add, u64_max, ℕ, ◌*◌, ◌+◌, ◌<◌,
  ◌↔◌, ◌∙◌, ◌∷◌, ◌≡◌, ◌≤◌, ◌⊎◌,
}
use nns.Base.Strings.{strip_suffix}
use nns.Base.Text.{Str, codes}
use nns.Noun.{NounLib}
use nns.Payment.{
  TxLib, fee_for_name, nicks_per_nock, nock_for_name, output_amount_nicks, output_pays_treasury_v1,
  sum_treasury_outputs_v1,
}
use nns.Rpc.{TransactionDetails}

-- The fee of a name is a whole number of NOCK, so that the price in NOCK is exact.
nock-fee : (name : Str) → nock_for_name name * nicks_per_nock ≡ fee_for_name name
unfolding nock_for_name fee_for_name
nock-fee name = ground arith

-- the characters of the name without one `.nock` at its end
unfoldable pub stem_length : Str → ℕ
unfolding strip_suffix
stem_length name = length (Option.get_or (strip_suffix (codes ".nock") name) name)

-- A name whose stem is not empty has a fee, and costs at least what a name costs whose stem is as
-- long or longer; it costs more exactly if the longer stem has reached 5 or 10 characters and the
-- shorter one has not.
pub fee-antitone :
    (short long : Str)
    → 0 < stem_length short
    → stem_length short ≤ stem_length long
    → (0 < fee_for_name short)
      × (fee_for_name long ≤ fee_for_name short)
      × ((fee_for_name long < fee_for_name short) ↔ (
          ((stem_length short < 5) × (5 ≤ stem_length long))
          ⊎ ((stem_length short < 10) × (10 ≤ stem_length long))))
unfolding fee_for_name stem_length
fee-antitone short long h l =
    (ground arith, ground arith, (λ cheaper. ground arith, λ steps. ground arith))

-- the sum of the payments to the treasury, in unbounded numbers
abbrev pub sum : List ℕ → ℕ
sum [] = 0
sum (x ∷ xs) = x + sum xs

foldl-saturating :
    (start : ℕ) (xs : List ℕ)
    → start ≤ u64_max
    → foldl saturating_add start xs ≡ min (start + sum xs) u64_max
foldl-saturating start [] h = omega arith
foldl-saturating start (x ∷ xs) h =
    foldl-saturating (saturating_add start x) xs (omega arith) ∙ omega arith

module _ ⦃lib : NounLib⦄ ⦃tx : TxLib⦄ where
  -- What counts as paid is the sum of the amounts of the outputs that pay the treasury, cut off at
  -- the largest 64-bit number.
  pub sum_treasury-min :
      (d : TransactionDetails)
      → sum_treasury_outputs_v1 d
        ≡ min
            (sum (filter_map output_amount_nicks (keep output_pays_treasury_v1 d.outputs)))
            u64_max
  unfolding sum_treasury_outputs_v1
  sum_treasury-min d =
      let amounts = filter_map output_amount_nicks (keep output_pays_treasury_v1 d.outputs) in
      foldl-saturating 0 amounts (omega arith) ∙ ap (λ (n : ℕ). min n u64_max) (omega arith)
