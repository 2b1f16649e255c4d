-- ===== src/Kernel/Types.antt =====
-- The records of src/kernel.rs: what a poke is built from, and what a peek or effect decodes to.
use nns.Base.{Bool, List, ℕ}
use nns.Base.Text.{Bytes, Str}

pub record AnchorHeader : Type 0 where
  pub digest : Bytes
  pub height : ℕ
  pub parent : Bytes

pub record ClaimWitness : Type 0 where
  pub tx_id : Bytes
  pub spender_pkh : Bytes
  pub treasury_amount : ℕ
  pub output_lock_root : Str

pub record ClaimCandidate : Type 0 where
  pub name : Str
  pub owner : Str
  pub fee : ℕ
  pub tx_hash : Bytes
  pub witness : ClaimWitness

pub record ClaimBundle : Type 0 where
  pub name : Str
  pub owner : Str
  pub fee : ℕ
  pub tx_hash : Bytes
  pub claim_block_digest : Bytes
  pub anchor_headers : List AnchorHeader
  pub page_digest : Bytes
  pub page_tx_ids : List Bytes
  pub anchored_tip : Bytes
  pub anchored_tip_height : ℕ
  pub witness : ClaimWitness

pub data ValidateClaimResult : Type 0 where
  valid : ValidateClaimResult
  error : Str → ValidateClaimResult

pub data InStarkValidation : Type 0 where
  passed : InStarkValidation
  rejected : Str → InStarkValidation

pub record ClaimProof : Type 0 where
  pub bundle_digest : Bytes
  pub proof_jam : Bytes

pub record ArbitraryProof : Type 0 where
  pub product_jam : Bytes
  pub proof_jam : Bytes

pub record ClaimInStarkProof : Type 0 where
  pub validation : InStarkValidation
  pub proof_jam : Bytes

pub record RecursiveTransitionProof : Type 0 where
  pub proof_jam : Bytes

pub record Snapshot : Type 0 where
  pub claim_id : ℕ
  pub hull : Bytes
  pub root : Bytes

pub record NameEntry : Type 0 where
  pub owner : Str
  pub tx_hash : Str
  pub claim_count : ℕ

pub record AccumulatorEntry : Type 0 where
  pub name : Str
  pub owner : Str
  pub tx_hash : Bytes
  pub claim_height : ℕ
  pub block_digest : Bytes

pub record ScanState : Type 0 where
  pub last_proved_height : ℕ
  pub last_proved_digest : Bytes
  pub accumulator_root : Bytes
  pub accumulator_size : ℕ

pub record ProofNode : Type 0 where
  pub hash : Bytes
  pub side : Bool

pub record AnchorView : Type 0 where
  pub tip_digest : Bytes
  pub tip_height : ℕ

pub record AnchorAdvanced : Type 0 where
  pub tip_digest : Bytes
  pub tip_height : ℕ
  pub count : ℕ

pub record ScanBlockDone : Type 0 where
  pub height : ℕ
  pub digest : Bytes
  pub accumulator_root : Bytes

pub record ClaimCountBumped : Type 0 where
  pub claim_count : ℕ
  pub hull : Bytes
  pub root : Bytes

pub record VeslSettled : Type 0 where
  pub note_id : Bytes
  pub hull : Bytes
  pub root : Bytes
