-- ===== src/Chain/Fetch/Ordered.antt =====
-- When the fetch of a block succeeds, and with which details.
use mathlib.Core.Path.{subst}
use nns.Base.{
  All, Bool-cases, List, [], ap, arith, enumerate_from, inl, inr, is_empty, map, refl, suc, sym,
  true, ℕ, ◌-◌, ◌↔◌, ◌∙◌, ◌∷◌, ◌≡◌, ◌≤◌, ◌⊎◌,
}
use nns.Base.Result.{>>=-eq-ok, collect, ok, ok-injective}
use nns.Base.Sort.{IsSortedBy, sort-sorted, sort_by_key}
use nns.Base.Text.{Str}
use nns.Chain.Fetch.{
  fetch_block_transaction_details, fetch_task, fetch_with_retries, initial_delay_ms, max_attempts,
}
use nns.Chain.Fetch.Retry.{Awaited, fetch_with_retries_iff}
use nns.Chain.Node.{NodeApi, connect_block_service}
use nns.Rpc.{BlockDetails, TransactionDetails}

is_empty-eq : (hashes : List Str) → is_empty hashes ≡ true → hashes ≡ []
is_empty-eq [] h = refl
is_empty-eq (x ∷ xs) h = cc

module _ ⦃node : NodeApi⦄ (endpoint : Str) where
  -- The node gives the details of each transaction, in order, each after it has said `Pending` at
  -- most 23 times.
  pub data Served : List Str → List TransactionDetails → Type 0 where
    all_served : Served [] []
    served_next :
        {hash : Str} {hashes : List Str} {d : TransactionDetails} {ds : List TransactionDetails}
        {n : ℕ}
        → n ≤ 23
        → Awaited endpoint hash 0 n d
        → Served hashes ds
        → Served (hash ∷ hashes) (d ∷ ds)

  fetch_task-Awaited :
      (i : ℕ) (hash : Str) (p : ℕ × TransactionDetails)
      → fetch_task endpoint (i, hash) ≡ ok p
      → (p.0 ≡ i) × (n : ℕ) × (n ≤ 23) × Awaited endpoint hash 0 n p.1
  unfolding fetch_task
  fetch_task-Awaited i hash p h =
      let (found, e, e1) =
        >>=-eq-ok (fetch_with_retries endpoint hash (max_attempts - 1) 0 initial_delay_ms) _ h in
      let same = ok-injective e1 in
      let (n, l, w) = (fetch_with_retries_iff endpoint hash found.0).0 (found.1, e) in
      (
        ap (λ q. q.0) (sym same),
        n,
        l,
        subst (λ d. Awaited endpoint hash 0 n d) (ap (λ q. q.1) same) w,
      )

  Awaited-fetch_task :
      (i : ℕ) (hash : Str) (d : TransactionDetails) (n : ℕ)
      → n ≤ 23
      → Awaited endpoint hash 0 n d
      → fetch_task endpoint (i, hash) ≡ ok (i, d)
  unfolding fetch_task
  Awaited-fetch_task i hash d n l w =
      let (delays, e) = (fetch_with_retries_iff endpoint hash d).1 (n, l, w) in rw e refl

  -- numbered in ascending order from `i` on, with the details of the transactions
  abbrev InOrder : ℕ → List Str → List (ℕ × TransactionDetails) → Type 0
  InOrder i hashes out =
      All (λ p. i ≤ p.0) out × IsSortedBy (λ p. p.0) out × Served hashes (map (λ p. p.1) out)

  weaken :
      (i : ℕ) (out : List (ℕ × TransactionDetails))
      → All (λ p. suc i ≤ p.0) out
      → All (λ p. i ≤ p.0) out
  weaken i [] h = tt
  weaken i (p ∷ ps) h = (omega arith, weaken i ps h.1)

  tasks-InOrder :
      (i : ℕ) (hashes : List Str) (out : List (ℕ × TransactionDetails))
      → collect (fetch_task endpoint) (enumerate_from i hashes) ≡ ok out
      → InOrder i hashes out
  tasks-InOrder i [] out h = subst (InOrder i []) (ok-injective h) (tt, tt, all_served)
  tasks-InOrder i (hash ∷ hashes) out h =
      let (p, hp, h1) = >>=-eq-ok (fetch_task endpoint (i, hash)) _ h in
      let (rest, hr, h2) =
        >>=-eq-ok (collect (fetch_task endpoint) (enumerate_from (suc i) hashes)) _ h1 in
      let (later_ones, sorted, served) = tasks-InOrder (suc i) hashes rest hr in
      let (first, n, l, w) = fetch_task-Awaited i hash p hp in
      subst (InOrder i (hash ∷ hashes)) (ok-injective h2) (
        (omega arith, weaken i rest later_ones),
        (rw first (weaken i rest later_ones), sorted),
        served_next l w served,
      )

  Served-tasks :
      (i : ℕ) (hashes : List Str) (ds : List TransactionDetails)
      → Served hashes ds
      → (out : List (ℕ × TransactionDetails)) × (collect
            (fetch_task endpoint)
            (enumerate_from i hashes)
          ≡ ok out)
        × (map (λ p. p.1) out ≡ ds)
  Served-tasks i [] [] all_served = ([], refl, refl)
  Served-tasks i [] (d ∷ ds) served = elim served [ ]
  Served-tasks i (hash ∷ hashes) [] served = elim served [ ]
  Served-tasks i (hash ∷ hashes) (d ∷ ds) (served_next {n = n} l w more) =
      let (rest, e, same) = Served-tasks (suc i) hashes ds more in
      let first = Awaited-fetch_task i hash d n l w in
      ((i, d) ∷ rest, rw (first, e) refl, ap (λ xs. d ∷ xs) same)

  Served-nothing : (ds : List TransactionDetails) → Served [] ds → ds ≡ []
  Served-nothing [] served = refl
  Served-nothing (d ∷ ds) served = elim served [ ]

  -- the client connects, and the node serves the transactions
  abbrev pub Fetched : List Str → List TransactionDetails → Type 0
  Fetched hashes ds =
      ((hashes ≡ []) × (ds ≡ []))
      ⊎ ((client : Unit {0}) × (connect_block_service endpoint ≡ ok client) × Served hashes ds)

  sorted_details :
      (i : ℕ) (hashes : List Str) (out : List (ℕ × TransactionDetails))
      → collect (fetch_task endpoint) (enumerate_from i hashes) ≡ ok out
      → map (λ p. p.1) (sort_by_key (λ p. p.0) out) ≡ map (λ p. p.1) out
  sorted_details i hashes out h =
      let (_, sorted, _) = tasks-InOrder i hashes out h in
      ap (map (λ p. p.1)) (sort-sorted (λ p. p.0) out sorted)

  fetch_block-Fetched :
      (block : BlockDetails) (ds : List TransactionDetails)
      → fetch_block_transaction_details endpoint block ≡ ok ds
      → Fetched block.tx_ids ds
  unfolding fetch_block_transaction_details
  fetch_block-Fetched block ds h = elim (Bool-cases (is_empty block.tx_ids)) [
    | inl e ↦ inl (is_empty-eq block.tx_ids e, sym (ok-injective (rw e at h)))
    | inr e ↦
        let (client, connected, h1) = >>=-eq-ok (connect_block_service endpoint) _ (rw e at h) in
        let (out, ho, h2) =
          >>=-eq-ok (collect (fetch_task endpoint) (enumerate_from 0 block.tx_ids)) _ h1 in
        let (_, _, served) = tasks-InOrder 0 block.tx_ids out ho in
        let same = sym (sorted_details 0 block.tx_ids out ho) ∙ ok-injective h2 in
        inr (client, connected, subst (Served block.tx_ids) same served)
  ]

  Fetched-fetch_block :
      (block : BlockDetails) (ds : List TransactionDetails)
      → Fetched block.tx_ids ds
      → fetch_block_transaction_details endpoint block ≡ ok ds
  unfolding fetch_block_transaction_details
  Fetched-fetch_block block ds (inl (no_ids, no_details)) = rw (no_ids, no_details) refl
  Fetched-fetch_block block ds (inr (client, connected, served)) =
      elim (Bool-cases (is_empty block.tx_ids)) [
        | inl e ↦ rw e (
            ap ok (
              sym (
                Served-nothing ds
                  (subst (λ ids. Served ids ds) (is_empty-eq block.tx_ids e) served))))
        | inr e ↦
            let (out, ho, same) = Served-tasks 0 block.tx_ids ds served in
            rw (e, connected, ho) (ap ok (sorted_details 0 block.tx_ids out ho ∙ same))
      ]

  -- The fetch of a block returns exactly the details that the node gives of the block's
  -- transactions, one for each and in the block's order, each after at most 23 times `Pending`; it
  -- needs a connection unless the block is empty, and there is no other way for it to succeed.
  pub fetch_block_iff :
      (block : BlockDetails) (ds : List TransactionDetails)
      → (fetch_block_transaction_details endpoint block ≡ ok ds) ↔ Fetched block.tx_ids ds
  fetch_block_iff block ds = (fetch_block-Fetched block ds, Fetched-fetch_block block ds)
