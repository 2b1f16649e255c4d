-- ===== src/Rpc.antt =====
-- The protobuf messages of the node's public API and the settlement configuration: of each type
-- the fields that the hull reads. The types are nockapp_grpc's and vesl_core's.
use nns.Base.{Bool, List, Option, ℕ}
use nns.Base.Text.{Bytes, Str}

-- a note-data entry: its key, and its blob
pub record NoteDataEntry : Type 0 where
  pub key : Str
  pub blob : Bytes

-- `AmountRequired`: an amount in nicks, or another kind
pub data AmountRequired : Type 0 where
  amount : ℕ → AmountRequired
  other_amount : AmountRequired

pub record TransactionInput : Type 0 where
  pub note_name_b58 : Str
  pub signer_pubkey_b58 : List Str

pub record TransactionOutput : Type 0 where
  pub note_name_b58 : Str
  pub amount_required : Option AmountRequired
  pub note_data : Option (List NoteDataEntry)

pub record TransactionDetails : Type 0 where
  pub tx_id : Str
  pub inputs : List TransactionInput
  pub outputs : List TransactionOutput

-- `common.v1.Hash`: five optional belts
pub record PbHash : Type 0 where
  pub belt_1 : Option ℕ
  pub belt_2 : Option ℕ
  pub belt_3 : Option ℕ
  pub belt_4 : Option ℕ
  pub belt_5 : Option ℕ

pub record BlockPow : Type 0 where
  pub present : Bool
  pub raw_proof : Option Bytes

pub record BlockDetails : Type 0 where
  pub height : ℕ
  pub block_id : Option PbHash
  pub parent : Option PbHash
  pub tx_ids : List Str
  pub pow : Option BlockPow

-- `is_local` is `matches!(mode, SettlementMode::Local)`
pub record SettlementConfig : Type 0 where
  pub is_local : Bool
  pub chain_endpoint : Option Str
  pub accept_timeout_secs : ℕ
