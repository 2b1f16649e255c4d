-- ===== src/Payment/Verify/Sound.antt =====
-- What a payment that is let through has shown.
use mathlib.Core.Path.{subst}
use nns.Base.{Bool, Option, arith, false, none, refl, some, true, ℕ, ◌≡◌, ◌≤◌}
use nns.Base.Result.{Result, err, ok}
use nns.Base.Text.{Str}
use nns.Chain.Fetch.{fetch_transaction_details}
use nns.Chain.Node.{NodeApi}
use nns.Chain.Queries.{transaction_is_accepted}
use nns.Noun.{NounLib}
use nns.Payment.{TxLib, sum_treasury_outputs_v1}
use nns.Payment.Verify.{
  check_details, check_replies, given_hash, paid_by, sender_present, verify, verify_given,
  verify_on_chain,
}
use nns.Rpc.{SettlementConfig, TransactionDetails}

module _ ⦃lib : NounLib⦄ ⦃tx : TxLib⦄ ⦃node : NodeApi⦄ where
  -- The node at the configured endpoint accepts the transaction, an input of it is the address's,
  -- and its treasury outputs are worth the fee.
  pub record Paid (s : SettlementConfig) (address : Str) (fee : ℕ) (tx_hash : Str) : Type 0 where
    pub endpoint : Str
    pub details : TransactionDetails
    pub configured : s.chain_endpoint ≡ some endpoint
    pub accepted : transaction_is_accepted endpoint s.accept_timeout_secs tx_hash ≡ ok true
    pub fetched : fetch_transaction_details endpoint tx_hash ≡ ok details
    pub sender : sender_present address details ≡ true
    pub enough : fee ≤ sum_treasury_outputs_v1 details

  check_details-paid :
      (address : Str) (fee : ℕ) (tx_hash h : Str) (d : TransactionDetails)
      → check_details address fee tx_hash d ≡ paid_by h
      → (sender_present address d ≡ true) × (fee ≤ sum_treasury_outputs_v1 d) × (tx_hash ≡ h)
  unfolding check_details
  check_details-paid address fee tx_hash h d e = ground arith

  check_replies-paid :
      (endpoint address : Str) (fee : ℕ) (tx_hash h : Str) (a : Result Bool)
      (f : Result TransactionDetails)
      → check_replies endpoint address fee tx_hash a f ≡ paid_by h
      → (a ≡ ok true)
        × (d : TransactionDetails) × (f ≡ ok d)
        × (check_details address fee tx_hash d ≡ paid_by h)
  unfolding check_replies
  check_replies-paid endpoint address fee tx_hash h (err x) f e = cc
  check_replies-paid endpoint address fee tx_hash h (ok false) f e = cc
  check_replies-paid endpoint address fee tx_hash h (ok true) (err x) e = cc
  check_replies-paid endpoint address fee tx_hash h (ok true) (ok d) e = (refl, d, refl, e)

  on_chain-Paid :
      (s : SettlementConfig) (o : Option Str) (address : Str) (fee : ℕ) (tx_hash h : Str)
      → s.chain_endpoint ≡ o
      → verify_on_chain o s.accept_timeout_secs address fee tx_hash ≡ paid_by h
      → (tx_hash ≡ h) × Paid s address fee h
  unfolding verify_on_chain
  on_chain-Paid s none address fee tx_hash h c e = cc
  on_chain-Paid s (some endpoint) address fee tx_hash h c e =
      let (a, d, f, e1) = check_replies-paid endpoint address fee tx_hash h _ _ e in
      let (sender, enough, same) = check_details-paid address fee tx_hash h d e1 in
      (
        same,
        subst (Paid s address fee) same (record {
          endpoint = endpoint;
          details = d;
          configured = c;
          accepted = a;
          fetched = f;
          sender = sender;
          enough = enough;
        }),
      )

  -- Outside of local mode a payment that comes with a transaction hash is let through only under
  -- that hash, and only if the node at the configured endpoint accepts the transaction, an input
  -- of it belongs to the address, and its outputs to the treasury add up to the fee.
  pub verify-Paid :
      (s : SettlementConfig) (address : Str) (fee : ℕ) (claimed : Option Str) (uuid tx_hash h : Str)
      → s.is_local ≡ false
      → given_hash claimed ≡ some tx_hash
      → verify s address fee claimed uuid ≡ paid_by h
      → (tx_hash ≡ h) × Paid s address fee h
  unfolding verify verify_given
  verify-Paid s address fee claimed uuid tx_hash h remote given e =
      on_chain-Paid s s.chain_endpoint address fee tx_hash h refl (rw (given, remote) at e)
