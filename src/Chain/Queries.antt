-- ===== src/Chain/Queries.antt =====
-- The single queries: acceptance, position, page and tip.
use nns.Base.{
  Bool, List, Option, [], if◌then◌else◌, length, max, none, some, suc, ℕ, ◌++◌, ◌=?◌, ◌∷◌,
}
use nns.Base.Display.{to_string}
use nns.Base.Result.{
  Result, both, err, map_err, ok, ok_or, or_context, text, text_num, text_str, ◌>>=◌,
}
use nns.Base.Text.{Bytes, Str, codes}
use nns.Chain.Node.{
  NodeApi, block_details, block_failed, block_pending, blocks_failed, connect_block_service,
  current_height, details_failed, in_block,
}
use nns.Claim.{ClaimNoteV1, jam_tuple}
use nns.Kernel.Effects.{message}
use nns.Noun.{NounLib}
use nns.Rpc.{BlockDetails, BlockPow, SettlementConfig}

pub record ConfirmedTxPosition : Type 0 where
  pub block_height : ℕ
  pub tx_index_in_block : ℕ

-- `Iterator::position`
unfoldable pub position_of : Str → List Str → Option ℕ
unfolding ◌=?◌
position_of id [] = none
position_of id (h ∷ hs) =
    let rest = position_of id hs in
    if h =? id then some 0 else elim rest [ none ↦ none | some i ↦ some (suc i) ]

pub record ClaimBlockBundle : Type 0 where
  pub block : BlockDetails
  pub block_proof : Option Bytes

abbrev pub probe_tx_id : Str
probe_tx_id = codes "11111111111111111111111111111111111111111111111111111111111"

module _ ⦃node : NodeApi⦄ where
  unfoldable pub transaction_is_accepted : Str → ℕ → Str → Result Bool
  transaction_is_accepted endpoint accept_timeout_secs tx_id_base58 =
      let timeout = some (max accept_timeout_secs 1) in
      (do
        client ← or_context (node.connect_chain_client endpoint timeout) "chain connect failed"
        or_context (node.check_accepted endpoint timeout tx_id_base58) "acceptance query failed")

  unfoldable pub transaction_block_height : Str → Str → Result (Option ℕ)
  transaction_block_height endpoint tx_id_base58 = do
    client ← or_context (node.connect endpoint) "block service connect failed"
    res ←
        or_context (node.get_transaction_block endpoint tx_id_base58)
          "transaction block query failed"
    elim res [
      | some r ↦ elim r [
        | in_block height ↦ ok (some height)
        | block_pending ↦ ok none
        | block_failed message ↦ err (text_str "" message)
      ]
      | none ↦ ok none
    ]

  -- the second half of `confirmed_tx_position`, at the height of the block
  unfoldable pub position_in_block : Str → Str → ℕ → Result (Option ConfirmedTxPosition)
  unfolding position_of
  position_in_block endpoint tx_id_base58 block_height = do
    res ← or_context (node.get_block_details endpoint block_height) "block details query failed"
    details ← (elim res [
      | some r ↦ elim r [
        | block_details d ↦ ok d
        | details_failed message ↦ err (text_str "" message)
      ]
      | none ↦ err (text_num "missing block details for confirmed tx at height " block_height)
    ])
    index ← ok_or (position_of tx_id_base58 details.tx_ids) (
        both (text_str "tx " tx_id_base58)
          (text_num " not found in block tx list at height " block_height))
    ok (some (record { block_height = block_height; tx_index_in_block = index }))

  unfoldable pub confirmed_tx_position : Str → Str → Result (Option ConfirmedTxPosition)
  unfolding transaction_block_height position_in_block
  confirmed_tx_position endpoint tx_id_base58 = do
    height ← transaction_block_height endpoint tx_id_base58
    elim height [ none ↦ ok none | some h ↦ position_in_block endpoint tx_id_base58 h ]

  -- the endpoint, and the probe that both submit functions make
  unfoldable pub probe : SettlementConfig → Result (Unit {0})
  probe cfg = do
    endpoint ← ok_or cfg.chain_endpoint (text "chain endpoint not configured")
    client ← or_context (node.connect_chain_client endpoint none) "chain connect failed"
    accepted ← or_context (node.check_accepted endpoint none probe_tx_id) "chain probe failed"
    ok tt

  unfoldable pub post_settlement_receipt : SettlementConfig → Str → Result (Option Str)
  unfolding probe
  post_settlement_receipt cfg note_id_hex =
      if cfg.is_local
      then ok none
      else probe cfg >>= λ u. ok (some (codes "queued-" ++ note_id_hex))

  unfoldable pub submit_claim_note :
      ⦃lib : NounLib⦄ → SettlementConfig → ClaimNoteV1 → Result (Option Str)
  unfolding probe jam_tuple to_string
  submit_claim_note cfg note =
      if cfg.is_local
      then ok none
      else probe cfg >>= λ u. ok (
          some (
            codes "queued-"
            ++ note.name
            ++ codes "-"
            ++ note.tx_hash
            ++ codes "-"
            ++ to_string (length (jam_tuple note))))

  unfoldable pub fetch_block_details_by_height : Str → ℕ → Result BlockDetails
  unfolding connect_block_service
  fetch_block_details_by_height endpoint height = do
    client ← connect_block_service endpoint
    res ←
        map_err (node.get_block_details endpoint height)
          λ e. both (text_num "block details query failed at height " height) (both (text ": ") e)
    elim res [
      | some r ↦ elim r [
        | block_details d ↦ ok d
        | details_failed message ↦
            err (both (text_num "block details error at height " height) (text_str ": " message))
      ]
      | none ↦ err (text_num "empty block details response at height " height)
    ]

  abbrev pub present_proof : Option BlockPow → Option Bytes
  present_proof none = none
  present_proof (some pow) = if pow.present then pow.raw_proof else none

  unfoldable pub fetch_block_proof_bytes : Str → ℕ → Result (Option Bytes)
  unfolding fetch_block_details_by_height
  fetch_block_proof_bytes endpoint height = do
    details ← fetch_block_details_by_height endpoint height
    ok (present_proof details.pow)

  unfoldable pub fetch_page_for_tx : Str → Str → Result ClaimBlockBundle
  unfolding connect_block_service fetch_block_details_by_height
  fetch_page_for_tx endpoint tx_id_base58 = do
    client ← connect_block_service endpoint
    res ←
        or_context (node.get_transaction_block endpoint tx_id_base58)
          "transaction block query failed"
    height ← (elim res [
      | some r ↦ elim r [
        | in_block h ↦ ok h
        | block_pending ↦ err (both (text_str "tx " tx_id_base58) (text " not yet in a block"))
        | block_failed message ↦ err (text_str "" message)
      ]
      | none ↦ err (text_str "empty tx-block response for " tx_id_base58)
    ])
    block ← fetch_block_details_by_height endpoint height
    ok (record { block = block; block_proof = present_proof block.pow })

  unfoldable pub fetch_current_tip_height : Str → Result ℕ
  unfolding connect_block_service
  fetch_current_tip_height endpoint = do
    client ← connect_block_service endpoint
    res ← or_context (node.get_blocks endpoint) "GetBlocks query failed"
    elim res [
      | some r ↦ elim r [
        | current_height h ↦ ok h
        | blocks_failed message ↦ err (text_str "" message)
      ]
      | none ↦ err (text "empty GetBlocks response")
    ]
