-- ===== src/Payment.antt =====
-- src/payment.rs: what a claim costs, which outputs pay the treasury, and the payment check.
-- Tip5 hashes, base58 and the consensus lock hash are nockchain's: the record `TxLib`.
pub mod Verify
pub mod Fees
use mathlib.Core.Option
use mathlib.Core.List.{foldl}
use nns.Base.{
  All, Bool, List, Option, [], any, false, filter_map, if◌then◌else◌, is_empty, keep, leb, length,
  none, not, saturating_add, some, true, ℕ, ◌/◌, ◌<◌, ◌==◌, ◌=?◌, ◌^◌, ◌||◌, ◌∷◌, ◌≡◌,
}
use nns.Base.Maybe.{◌>>=◌}
use nns.Base.Result.{Result, ok, to_option}
use nns.Base.Strings.{len, strip_suffix, trim}
use nns.Base.Text.{Bytes, Str, codes}
use nns.Noun.{Noun, NounLib, as_u64, atom, ◌⸬◌}
use nns.Rpc.{NoteDataEntry, TransactionDetails, TransactionOutput, amount, other_amount}

-- A Tip5 hash, as its five 64-bit limbs (`Hash::to_array`).
pub record Tip5Hash : Type 0 where
  pub limb_0 : ℕ
  pub limb_1 : ℕ
  pub limb_2 : ℕ
  pub limb_3 : ℕ
  pub limb_4 : ℕ

abbrev pub IsU64 : ℕ → Type 0
IsU64 n = n < 2 ^ 64

abbrev pub limbs : Tip5Hash → List ℕ
limbs h = h.limb_0 ∷ h.limb_1 ∷ h.limb_2 ∷ h.limb_3 ∷ h.limb_4 ∷ []

abbrev pub treasury_lock_root_b58 : Str
treasury_lock_root_b58 = codes "A3LoWjxurwiyzhkv8sgDv2MVu9PwgWHmqoncXw9GEQ5M3qx46svvadE"

abbrev pub nicks_per_nock : ℕ
nicks_per_nock = 65536

-- `Hash::from_base58`, and `Lock::from_noun` with `Lock::hash`. The treasury's root is valid base58.
pub record TxLib : Type 0 where
  pub from_base58 : Str → Result Tip5Hash
  pub lock_from_noun : Noun → Option Noun
  pub lock_hash : Noun → Option Tip5Hash
  pub treasury_root : Tip5Hash
  pub from_base58-treasury : from_base58 (trim treasury_lock_root_b58) ≡ ok treasury_root
  pub from_base58-IsU64 : (s : Str) {h : Tip5Hash} → from_base58 s ≡ ok h → All IsU64 (limbs h)

unfoldable pub same_hash : Tip5Hash → Tip5Hash → Bool
unfolding ◌=?◌
same_hash a b = limbs a =? limbs b

unfoldable pub output_amount_nicks : TransactionOutput → Option ℕ
output_amount_nicks out = elim out.amount_required [
  | some r ↦ elim r [ amount n ↦ some n | other_amount ↦ none ]
  | none ↦ none
]

module _ ⦃lib : NounLib⦄ ⦃tx : TxLib⦄ where
  -- a `[%0 lock]` payload, or a bare lock; `?` leaves a cell whose head is no small atom undecoded
  unfoldable pub decode_lock_note_data_payload : Noun → Option Noun
  decode_lock_note_data_payload (atom n) = tx.lock_from_noun (atom n)
  decode_lock_note_data_payload (h ⸬ t) = do
    tag ← to_option (as_u64 h)
    if tag == 0 then tx.lock_from_noun t else tx.lock_from_noun (h ⸬ t)

  unfoldable pub lock_root_hash_from_lock_jam : Bytes → Option Tip5Hash
  unfolding decode_lock_note_data_payload
  lock_root_hash_from_lock_jam jam = do
    noun ← lib.cue jam
    lock ← decode_lock_note_data_payload noun
    tx.lock_hash lock

  -- the body of the loop over the entries
  unfoldable pub is_treasury_lock_entry : NoteDataEntry → Bool
  unfolding lock_root_hash_from_lock_jam same_hash ◌=?◌
  is_treasury_lock_entry e =
      if not (e.key =? codes "lock") || is_empty e.blob
      then false
      else elim (lock_root_hash_from_lock_jam e.blob) [
        | some h ↦ same_hash h tx.treasury_root
        | none ↦ false
      ]

  unfoldable pub note_data_has_treasury_lock : List NoteDataEntry → Bool
  unfolding is_treasury_lock_entry
  note_data_has_treasury_lock entries = any is_treasury_lock_entry entries

  unfoldable pub output_pays_treasury_v1 : TransactionOutput → Bool
  unfolding note_data_has_treasury_lock
  output_pays_treasury_v1 out =
      let legacy = out.note_name_b58 =? trim treasury_lock_root_b58 in
      elim out.note_data [
        | some nd ↦ if note_data_has_treasury_lock nd then true else legacy
        | none ↦ legacy
      ]

  unfoldable pub sum_treasury_outputs_v1 : TransactionDetails → ℕ
  sum_treasury_outputs_v1 details =
      foldl saturating_add 0
        (filter_map output_amount_nicks (keep output_pays_treasury_v1 details.outputs))

unfoldable pub fee_for_name : Str → ℕ
unfolding strip_suffix
fee_for_name name =
    let stem = Option.get_or (strip_suffix (codes ".nock") name) name in
    let len = length stem in
    if len == 0
    then 0
    else if leb 10 len
    then 6553600
    else if leb 5 len
    then 32768000
    else 327680000

unfoldable pub nock_for_name : Str → ℕ
unfolding fee_for_name
nock_for_name name = fee_for_name name / nicks_per_nock
