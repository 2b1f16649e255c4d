-- ===== src/Chain/Fetch.antt =====
-- The details of a block's transactions, asked for again while the node says `Pending`.
pub mod Retry
pub mod Ordered
use nns.Base.{
  List, [], enumerate_from, if◌then◌else◌, is_empty, map, min, none, some, suc, u64_max, zero, ℕ,
  ◌*◌, ◌-◌, ◌/◌, ◌∷◌,
}
use nns.Base.Result.{Error, Result, both, collect, err, map_err, ok, text, text_str, ◌>>=◌}
use nns.Base.Sort.{sort_by_key}
use nns.Base.Text.{Str}
use nns.Chain.Node.{NodeApi, connect_block_service, tx_details, tx_failed, tx_pending}
use nns.Kernel.Effects.{message}
use nns.Rpc.{BlockDetails, TransactionDetails}

pub data TxDetailsOutcome : Type 0 where
  ready : TransactionDetails → TxDetailsOutcome
  pending : TxDetailsOutcome

abbrev pub max_attempts : ℕ
max_attempts = 24

abbrev pub initial_delay_ms : ℕ
initial_delay_ms = 80

abbrev pub max_delay_ms : ℕ
max_delay_ms = 1500

-- `(delay_ms.saturating_mul(3) / 2).min(MAX_DELAY_MS)`
abbrev pub next_delay : ℕ → ℕ
next_delay delay_ms = min (min (delay_ms * 3) u64_max / 2) max_delay_ms

module _ ⦃node : NodeApi⦄ (endpoint : Str) where
  -- one request; `earlier` requests of this task came before it
  unfoldable pub fetch_transaction_details_outcome_client : Str → ℕ → Result TxDetailsOutcome
  fetch_transaction_details_outcome_client tx_id_base58 earlier = do
    res ← map_err (node.get_transaction_details endpoint tx_id_base58 earlier) λ e.
        both (text_str "transaction details query failed for " tx_id_base58) (both (text ": ") e)
    elim res [
      | some r ↦ elim r [
        | tx_details d ↦ ok (ready d)
        | tx_pending ↦ ok pending
        | tx_failed message ↦
            err (
              both (text_str "transaction details error for " tx_id_base58) (text_str ": " message))
      ]
      | none ↦ err (text_str "empty transaction details response for " tx_id_base58)
    ]

  unfoldable pub fetch_transaction_details : Str → Result TransactionDetails
  unfolding connect_block_service fetch_transaction_details_outcome_client
  fetch_transaction_details tx_id_base58 = do
    client ← connect_block_service endpoint
    outcome ← fetch_transaction_details_outcome_client tx_id_base58 0
    elim outcome [
      | ready d ↦ ok d
      | pending ↦ err (both (text_str "tx " tx_id_base58) (text " is pending; no block yet"))
    ]

  -- what one round of the loop makes of its outcome; `more` are the rounds after it
  unfoldable pub attempt_round :
      Str
      → ℕ
      → Result TxDetailsOutcome
      → Result (TransactionDetails × List ℕ)
      → Result (TransactionDetails × List ℕ)
  attempt_round hash delay_ms (err e) more = err e
  attempt_round hash delay_ms (ok (ready d)) more = ok (d, [])
  attempt_round hash delay_ms (ok pending) (ok (d, delays)) = ok (d, delay_ms ∷ delays)
  attempt_round hash delay_ms (ok pending) (err e) = err e

  abbrev still_pending : Str → Error
  still_pending hash = both (text_str "tx " hash) (
      text
        " still Pending after 24 get_transaction_details attempts; node tx index lags block header or tx left mempool — retry later")

  -- the loop over the attempts, `left` of them and the last one: the details, with the delays that
  -- were slept through
  unfoldable pub fetch_with_retries : Str → ℕ → ℕ → ℕ → Result (TransactionDetails × List ℕ)
  unfolding fetch_transaction_details_outcome_client attempt_round
  fetch_with_retries hash zero attempt delay_ms =
      attempt_round hash delay_ms (fetch_transaction_details_outcome_client hash attempt)
        (err (still_pending hash))
  fetch_with_retries hash (suc left) attempt delay_ms =
      attempt_round hash delay_ms (fetch_transaction_details_outcome_client hash attempt)
        (fetch_with_retries hash left (suc attempt) (next_delay delay_ms))

  -- the task for the transaction at one index
  unfoldable pub fetch_task : ℕ × Str → Result (ℕ × TransactionDetails)
  unfolding fetch_with_retries
  fetch_task (idx, hash) = do
    found ← fetch_with_retries hash (max_attempts - 1) 0 initial_delay_ms
    ok (idx, found.0)

  -- The tasks run side by side; they are joined in their order, so that the first error is that of
  -- the first task that fails.
  unfoldable pub fetch_block_transaction_details : BlockDetails → Result (List TransactionDetails)
  unfolding connect_block_service fetch_task sort_by_key
  fetch_block_transaction_details block = if is_empty block.tx_ids then ok [] else (do
    client ← connect_block_service endpoint
    indexed ← collect fetch_task (enumerate_from 0 block.tx_ids)
    ok (map (λ p. p.1) (sort_by_key (λ p. p.0) indexed)))
