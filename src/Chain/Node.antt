-- ===== src/Chain/Node.antt =====
-- A Nockchain node as the hull sees it: what it replies, which is nockapp_grpc's and
-- nockchain_client_rs's part. A failure of the connection or of the request is an error.
use nns.Base.{Bool, Option, ℕ}
use nns.Base.Result.{Result, or_context}
use nns.Base.Text.{Str}
use nns.Rpc.{BlockDetails, TransactionDetails}

pub data TransactionBlockReply : Type 0 where
  in_block : ℕ → TransactionBlockReply
  block_pending : TransactionBlockReply
  block_failed : Str → TransactionBlockReply

pub data BlockDetailsReply : Type 0 where
  block_details : BlockDetails → BlockDetailsReply
  details_failed : Str → BlockDetailsReply

pub data TransactionDetailsReply : Type 0 where
  tx_details : TransactionDetails → TransactionDetailsReply
  tx_pending : TransactionDetailsReply
  tx_failed : Str → TransactionDetailsReply

pub data BlocksReply : Type 0 where
  current_height : ℕ → BlocksReply
  blocks_failed : Str → BlocksReply

-- What a node answers in the course of one round; another round may have another node. The endpoint
-- is the first argument. The reply on a transaction's details may change while a task asks again:
-- the number counts the requests of the task before this one.
pub record NodeApi : Type 0 where
  pub connect : Str → Result (Unit {0})
  pub connect_chain_client : Str → Option ℕ → Result (Unit {0})
  pub check_accepted : Str → Option ℕ → Str → Result Bool
  pub get_transaction_block : Str → Str → Result (Option TransactionBlockReply)
  pub get_block_details : Str → ℕ → Result (Option BlockDetailsReply)
  pub get_transaction_details : Str → Str → ℕ → Result (Option TransactionDetailsReply)
  pub get_blocks : Str → Result (Option BlocksReply)

module _ ⦃node : NodeApi⦄ where
  -- `connect_block_service`
  unfoldable pub connect_block_service : Str → Result (Unit {0})
  connect_block_service endpoint = or_context (node.connect endpoint) "block service connect failed"
