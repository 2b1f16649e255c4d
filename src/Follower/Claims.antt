-- ===== src/Follower/Claims.antt =====
-- The claims in the transactions of a block.
pub mod Extracted
pub mod Tip5Ids
use nns.Base.{
  Bool, List, Option, [], all, any, if◌then◌else◌, is_empty, keep, map, none, not, some, ◌++◌, ◌=?◌,
  ◌∷◌,
}
use nns.Base.Result.{Result, and_then, err, ok, ◌>>=◌}
use nns.Base.Strings.{trim}
use nns.Base.Text.{Bytes, Str, utf8}
use nns.Chain.Digest.{base58_hash_to_atom_bytes}
use nns.Claim.{ClaimNoteV1, NoteLib, from_note_data}
use nns.Follower.Monad.{◌>>◌}
use nns.Kernel.Types.{ClaimCandidate, ClaimWitness}
use nns.Noun.{NounLib}
use nns.Packed.{BeltLib}
use nns.Payment.{TxLib, fee_for_name, sum_treasury_outputs_v1, treasury_lock_root_b58}
use nns.Rpc.{NoteDataEntry, TransactionDetails, TransactionInput, TransactionOutput}

abbrev pub nonempty_trimmed : List Str → List Str
unfolding trim
nonempty_trimmed ss = keep (λ s. not (is_empty s)) (map trim ss)

-- `flat_map` over the inputs' signers
abbrev pub signers_of : List TransactionInput → List Str
signers_of [] = []
signers_of (i ∷ is) = i.signer_pubkey_b58 ++ signers_of is

-- a `HashSet` with one element: the element
unfoldable pub only_element : List Str → Option Str
unfolding ◌=?◌
only_element [] = none
only_element (s ∷ ss) = if all (λ t. t =? s) ss then some s else none

unfoldable pub infer_claim_owner_for_claim : TransactionDetails → ClaimNoteV1 → Option Str
unfolding trim only_element
infer_claim_owner_for_claim details note =
    let signers = nonempty_trimmed (signers_of details.inputs) in
    if not (is_empty (trim note.owner))
    then some (trim note.owner)
    else if not (is_empty signers)
    then only_element signers
    else only_element (nonempty_trimmed (map (λ i. i.note_name_b58) details.inputs))

abbrev pub owner_ok : TransactionDetails → Str → Bool
unfolding trim ◌=?◌
owner_ok details owner =
    let signers = signers_of details.inputs in
    if is_empty signers
    then any (λ i. trim i.note_name_b58 =? owner) details.inputs
    else any (λ s. s =? owner) signers

module _ ⦃lib : NounLib⦄ ⦃tx : TxLib⦄ where
  unfoldable pub claim_witness_from_transaction :
      TransactionDetails → Bytes → Str → Option ClaimWitness
  unfolding trim ◌=?◌ sum_treasury_outputs_v1
  claim_witness_from_transaction details tx_hash owner =
      if is_empty (trim owner)
      then none
      else if not (owner_ok details (trim owner))
      then none
      else some (record {
        tx_id = tx_hash;
        spender_pkh = utf8 (trim owner);
        treasury_amount = sum_treasury_outputs_v1 details;
        output_lock_root = treasury_lock_root_b58;
      })

  -- the claim of a note with its owner and witness: the fee is that of the schedule, whatever was
  -- paid
  abbrev pub candidate : ClaimNoteV1 → Str → Bytes → ClaimWitness → ClaimCandidate
  candidate note owner tx_hash witness = record {
    name = note.name;
    owner = owner;
    fee = fee_for_name note.name;
    tx_hash = tx_hash;
    witness = witness;
  }

  -- a note with the ids that match: the owner and the witness must be there
  unfoldable pub claim_of_note :
      TransactionDetails → ClaimNoteV1 → Bytes → Bytes → Option ClaimCandidate
  unfolding infer_claim_owner_for_claim claim_witness_from_transaction
  claim_of_note details note tx_hash actual_tx_hash =
      and_then (infer_claim_owner_for_claim details note) λ owner.
        and_then (claim_witness_from_transaction details actual_tx_hash owner)
          λ witness. some (candidate note owner tx_hash witness)

  -- `note_tx`, or the transaction's own id for a note without one
  abbrev pub effective_tx_id : Str → Str → Str
  effective_tx_id note_tx expected = if is_empty note_tx then expected else note_tx

  -- one note: `none` for a note that is passed over
  unfoldable pub claim_of_decoded_note :
      TransactionDetails → ClaimNoteV1 → Result (Option ClaimCandidate)
  unfolding trim ◌=?◌ base58_hash_to_atom_bytes claim_of_note
  claim_of_decoded_note details note =
      let expected = trim details.tx_id in
      let effective = effective_tx_id (trim note.tx_hash) expected in
      if not (effective =? expected) then ok none else (do
        tx_hash ← base58_hash_to_atom_bytes effective
        actual_tx_hash ← base58_hash_to_atom_bytes expected
        ok (claim_of_note details note tx_hash actual_tx_hash))

module _ ⦃lib : NounLib⦄ ⦃tx : TxLib⦄ ⦃belt : BeltLib⦄ ⦃notes : NoteLib⦄ where
  -- a note that does not decode is passed over
  unfoldable pub claim_of_reading :
      TransactionDetails → Result ClaimNoteV1 → Result (Option ClaimCandidate)
  unfolding claim_of_decoded_note
  claim_of_reading details (err e) = ok none
  claim_of_reading details (ok note) = claim_of_decoded_note details note

  unfoldable pub claim_of_entries :
      TransactionDetails → Option (List NoteDataEntry) → Result (Option ClaimCandidate)
  unfolding from_note_data claim_of_reading
  claim_of_entries details none = ok none
  claim_of_entries details (some entries) = claim_of_reading details (from_note_data entries)

  -- the body of the loop over the outputs
  unfoldable pub claim_of_output :
      TransactionDetails → TransactionOutput → Result (Option ClaimCandidate)
  unfolding claim_of_entries
  claim_of_output details output = claim_of_entries details output.note_data

  abbrev pub prepend : Option ClaimCandidate → List ClaimCandidate → List ClaimCandidate
  prepend none cs = cs
  prepend (some c) cs = c ∷ cs

  unfoldable pub claims_of_outputs :
      TransactionDetails → List TransactionOutput → Result (List ClaimCandidate)
  unfolding claim_of_output
  claims_of_outputs details [] = ok []
  claims_of_outputs details (o ∷ os) = do
    c ← claim_of_output details o
    cs ← claims_of_outputs details os
    ok (prepend c cs)

  unfoldable pub extract_claims_from_transaction : TransactionDetails → Result (List ClaimCandidate)
  unfolding claims_of_outputs
  extract_claims_from_transaction details = claims_of_outputs details details.outputs

  unfoldable pub extract_claims : List TransactionDetails → Result (List ClaimCandidate)
  unfolding extract_claims_from_transaction
  extract_claims [] = ok []
  extract_claims (t ∷ ts) = do
    cs ← extract_claims_from_transaction t
    rest ← extract_claims ts
    ok (cs ++ rest)
