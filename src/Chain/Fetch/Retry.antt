-- ===== src/Chain/Fetch/Retry.antt =====
-- When the retries succeed, and how long they wait.
use nns.Base.{
  List, [], ap, arith, inl, inr, refl, suc, sym, zero, ℕ, ◌+◌, ◌-◌, ◌↔◌, ◌∷◌, ◌≡◌, ◌≤◌, ◌⊎◌,
}
use nns.Base.Result.{Result, err, ok, ok-injective}
use nns.Base.Text.{Str}
use nns.Chain.Fetch.{
  TxDetailsOutcome, attempt_round, fetch_transaction_details_outcome_client, fetch_with_retries,
  initial_delay_ms, max_attempts, next_delay, pending, ready,
}
use nns.Chain.Node.{NodeApi}
use nns.Rpc.{TransactionDetails}

module _ ⦃node : NodeApi⦄ (endpoint hash : Str) where
  -- From this attempt on, the node says `Pending` so many times and then gives the details.
  pub data Awaited : ℕ → ℕ → TransactionDetails → Type 0 where
    at_once :
        {attempt : ℕ} {d : TransactionDetails}
        → fetch_transaction_details_outcome_client endpoint hash attempt ≡ ok (ready d)
        → Awaited attempt 0 d
    after_pending :
        {attempt n : ℕ} {d : TransactionDetails}
        → fetch_transaction_details_outcome_client endpoint hash attempt ≡ ok pending
        → Awaited (suc attempt) n d
        → Awaited attempt (suc n) d

  -- one round, by its outcome
  round-cases :
      (delay : ℕ) (o : Result TxDetailsOutcome) (more : Result (TransactionDetails × List ℕ))
      (d : TransactionDetails) (delays : List ℕ)
      → attempt_round endpoint hash delay o more ≡ ok (d, delays)
      → ((o ≡ ok (ready d)) × (delays ≡ []))
        ⊎ ((o ≡ ok pending) × (rest : List ℕ) × (more ≡ ok (d, rest)) × (delays ≡ delay ∷ rest))
  unfolding attempt_round
  round-cases delay (err e) more d delays h = cc
  round-cases delay (ok (ready x)) more d delays h =
      let same = ok-injective h in inl (ap (λ p. ok (ready p.0)) same, ap (λ p. p.1) (sym same))
  round-cases delay (ok pending) (ok (x, rest)) d delays h =
      let same = ok-injective h in
      inr (refl, rest, ap (λ p. ok (p.0, rest)) same, ap (λ p. p.1) (sym same))
  round-cases delay (ok pending) (err e) d delays h = cc

  retries-Awaited :
      (left attempt delay : ℕ) (d : TransactionDetails) (delays : List ℕ)
      → fetch_with_retries endpoint hash left attempt delay ≡ ok (d, delays)
      → (n : ℕ) × (n ≤ left) × Awaited attempt n d
  unfolding fetch_with_retries
  retries-Awaited zero attempt delay d delays h =
      elim (round-cases delay (fetch_transaction_details_outcome_client endpoint hash attempt) _ d
        delays h) [ inl (o, _) ↦ (0, omega arith, at_once o) | inr (_, _, m, _) ↦ cc ]
  retries-Awaited (suc left) attempt delay d delays h =
      elim (round-cases delay (fetch_transaction_details_outcome_client endpoint hash attempt) _ d
        delays h) [
          | inl (o, _) ↦ (0, omega arith, at_once o)
          | inr (o, rest, m, _) ↦
              let (n, l, w) = retries-Awaited left (suc attempt) (next_delay delay) d rest m in
              (suc n, omega arith, after_pending o w)
        ]

  Awaited-retries :
      (left attempt delay n : ℕ) (d : TransactionDetails)
      → n ≤ left
      → Awaited attempt n d
      → (delays : List ℕ) × (fetch_with_retries endpoint hash left attempt delay ≡ ok (d, delays))
  unfolding fetch_with_retries attempt_round
  Awaited-retries zero attempt delay n d l (at_once o) = ([], rw o refl)
  Awaited-retries (suc left) attempt delay n d l (at_once o) = ([], rw o refl)
  Awaited-retries zero attempt delay (suc n) d l (after_pending o w) = absurd (omega arith)
  Awaited-retries (suc left) attempt delay (suc n) d l (after_pending o w) =
      let (delays, e) = Awaited-retries left (suc attempt) (next_delay delay) n d (omega arith) w in
      (delay ∷ delays, rw (o, e) refl)

  -- The loop returns the details exactly if the node gives them after it has said `Pending` at most
  -- 23 times, and no request before that fails.
  pub fetch_with_retries_iff :
      (d : TransactionDetails)
      → ((delays : List ℕ) × (fetch_with_retries endpoint hash (max_attempts - 1) 0 initial_delay_ms
            ≡ ok (d, delays)))
        ↔ ((n : ℕ) × (n ≤ 23) × Awaited 0 n d)
  fetch_with_retries_iff d = (
    λ (delays, e). retries-Awaited 23 0 initial_delay_ms d delays e,
    λ (n, l, w). Awaited-retries 23 0 initial_delay_ms n d l w,
  )

  -- the delays of `left` pending replies in a row
  abbrev budget : ℕ → ℕ → ℕ
  budget zero delay = 0
  budget (suc left) delay = delay + budget left (next_delay delay)

  abbrev pub total : List ℕ → ℕ
  total [] = 0
  total (x ∷ xs) = x + total xs

  retries-budget :
      (left attempt delay : ℕ) (d : TransactionDetails) (delays : List ℕ)
      → fetch_with_retries endpoint hash left attempt delay ≡ ok (d, delays)
      → total delays ≤ budget left delay
  unfolding fetch_with_retries
  retries-budget zero attempt delay d delays h =
      elim (round-cases delay (fetch_transaction_details_outcome_client endpoint hash attempt) _ d
        delays h) [ inl (o, none_slept) ↦ rw none_slept (omega arith) | inr (_, _, m, _) ↦ cc ]
  retries-budget (suc left) attempt delay d delays h =
      elim (round-cases delay (fetch_transaction_details_outcome_client endpoint hash attempt) _ d
        delays h) [
          | inl (o, none_slept) ↦ rw none_slept (omega arith)
          | inr (o, rest, m, slept) ↦
              let more = retries-budget left (suc attempt) (next_delay delay) d rest m in
              rw slept (omega arith)
        ]

  -- The sleeps of a task that succeeds add up to at most 26437 milliseconds.
  pub fetch_with_retries-total :
      (d : TransactionDetails) (delays : List ℕ)
      → fetch_with_retries endpoint hash (max_attempts - 1) 0 initial_delay_ms ≡ ok (d, delays)
      → total delays ≤ 26437
  fetch_with_retries-total d delays h = retries-budget 23 0 initial_delay_ms d delays h
