-- ===== src/Payment/Verify.antt =====
-- `verify`: the check of a payment for a claim, before the kernel sees the claim.
pub mod Sound
use nns.Base.{
  Bool, Option, any, false, if◌then◌else◌, is_empty, ltb, none, not, some, true, ℕ, ◌++◌, ◌=?◌,
}
use nns.Base.Result.{Error, Result, err, ok, text}
use nns.Base.Strings.{trim}
use nns.Base.Text.{Str, codes}
use nns.Chain.Fetch.{fetch_transaction_details}
use nns.Chain.Node.{NodeApi}
use nns.Chain.Queries.{transaction_is_accepted}
use nns.Noun.{NounLib}
use nns.Payment.{TxLib, sum_treasury_outputs_v1}
use nns.Rpc.{SettlementConfig, TransactionDetails}

pub data PaymentError : Type 0 where
  tx_not_accepted : Str → Str → PaymentError
  sender_mismatch : Str → Str → PaymentError
  underpaid : Str → ℕ → ℕ → PaymentError
  rpc : Error → PaymentError

pub data Payment : Type 0 where
  paid_by : Str → Payment
  refused : PaymentError → Payment

-- `.map(str::trim).filter(|s| !s.is_empty())`
unfoldable pub given_hash : Option Str → Option Str
unfolding trim
given_hash none = none
given_hash (some s) = if is_empty (trim s) then none else some (trim s)

module _ ⦃lib : NounLib⦄ ⦃tx : TxLib⦄ where
  -- `sender_present`
  unfoldable pub sender_present : Str → TransactionDetails → Bool
  unfolding trim ◌=?◌
  sender_present address details = any (λ i. trim i.note_name_b58 =? address) details.inputs

  -- the two checks on the details
  unfoldable pub check_details : Str → ℕ → Str → TransactionDetails → Payment
  unfolding sender_present sum_treasury_outputs_v1
  check_details address required_fee tx_hash details =
      if not (sender_present address details)
      then refused (sender_mismatch tx_hash address)
      else if ltb (sum_treasury_outputs_v1 details) required_fee
      then refused (underpaid tx_hash required_fee (sum_treasury_outputs_v1 details))
      else paid_by tx_hash

module _ ⦃lib : NounLib⦄ ⦃tx : TxLib⦄ ⦃node : NodeApi⦄ where
  -- with a configured endpoint, on the replies of the node: whether it accepts the transaction, and
  -- then the details of the transaction
  unfoldable pub check_replies :
      Str → Str → ℕ → Str → Result Bool → Result TransactionDetails → Payment
  unfolding check_details
  check_replies endpoint address required_fee tx_hash (err e) fetched = refused (rpc e)
  check_replies endpoint address required_fee tx_hash (ok false) fetched =
      refused (tx_not_accepted tx_hash endpoint)
  check_replies endpoint address required_fee tx_hash (ok true) (err e) = refused (rpc e)
  check_replies endpoint address required_fee tx_hash (ok true) (ok details) =
      check_details address required_fee tx_hash details

  unfoldable pub verify_on_chain : Option Str → ℕ → Str → ℕ → Str → Payment
  unfolding transaction_is_accepted fetch_transaction_details check_replies
  verify_on_chain none timeout address required_fee tx_hash =
      refused (rpc (text "chain endpoint not configured"))
  verify_on_chain (some endpoint) timeout address required_fee tx_hash =
      check_replies endpoint address required_fee tx_hash
        (transaction_is_accepted endpoint timeout tx_hash)
        (fetch_transaction_details endpoint tx_hash)

  -- `payment::verify`; `uuid` is the text of a fresh UUID
  unfoldable pub verify_given : SettlementConfig → Str → ℕ → Option Str → Str → Payment
  unfolding verify_on_chain
  verify_given settlement address required_fee none uuid = paid_by (codes "stub-" ++ uuid)
  verify_given settlement address required_fee (some tx_hash) uuid =
      if settlement.is_local
      then paid_by tx_hash
      else verify_on_chain settlement.chain_endpoint settlement.accept_timeout_secs address
          required_fee tx_hash

  unfoldable pub verify : SettlementConfig → Str → ℕ → Option Str → Str → Payment
  unfolding given_hash verify_given
  verify settlement address required_fee claimed_tx_hash uuid =
      verify_given settlement address required_fee (given_hash claimed_tx_hash) uuid
