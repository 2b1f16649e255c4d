-- ===== src/Follower/Claims/Extracted.antt =====
-- What the claims that are extracted have in common.
use mathlib.Core.Path.{subst}
use nns.Base.{
  =?_iff, All, Bool-cases, List, Option, [], ap, false, inl, inr, is_empty, none, refl, some, sym,
  true, ◌=?◌, ◌∙◌, ◌∷◌, ◌≡◌,
}
use nns.Base.Result.{>>=-eq-ok, Result, and_then-eq-some, err, ok, ok-injective, some-injective}
use nns.Base.Slices.{All-append}
use nns.Base.Strings.{trim}
use nns.Base.Text.{Bytes, Str, utf8}
use nns.Chain.Digest.{base58_hash_to_atom_bytes}
use nns.Claim.{ClaimNoteV1, NoteLib, from_note_data}
use nns.Follower.Claims.{
  claim_of_decoded_note, claim_of_entries, claim_of_note, claim_of_output, claim_of_reading,
  claim_witness_from_transaction, claims_of_outputs, effective_tx_id, extract_claims,
  extract_claims_from_transaction, infer_claim_owner_for_claim, owner_ok, prepend,
}
use nns.Kernel.Types.{ClaimCandidate, ClaimWitness}
use nns.Noun.{NounLib}
use nns.Packed.{BeltLib}
use nns.Payment.{TxLib, fee_for_name, sum_treasury_outputs_v1, treasury_lock_root_b58}
use nns.Rpc.{NoteDataEntry, TransactionDetails, TransactionOutput}

-- a member of the list with the property
pub data Among {ℓ κ} {A : Type ℓ} (P : A → Type κ) : List A → Type (ℓ ⊔ κ) where
  first_one : {x : A} {xs : List A} → P x → Among P (x ∷ xs)
  further : {x : A} {xs : List A} → Among P xs → Among P (x ∷ xs)

module _ ⦃lib : NounLib⦄ ⦃tx : TxLib⦄ where
  -- The claim belongs to the transaction: its two ids are the transaction's, its fee is that of the
  -- schedule for its name, its witness carries the owner and what the transaction pays to the
  -- treasury, and the owner signs the transaction, or owns a spent note if no signer is known.
  pub record ClaimOf (t : TransactionDetails) (c : ClaimCandidate) : Type 0 where
    pub tx_hash_of : base58_hash_to_atom_bytes (trim t.tx_id) ≡ ok c.tx_hash
    pub tx_id_of : base58_hash_to_atom_bytes (trim t.tx_id) ≡ ok c.witness.tx_id
    pub fee_of : c.fee ≡ fee_for_name c.name
    pub spender_of : c.witness.spender_pkh ≡ utf8 (trim c.owner)
    pub amount_of : c.witness.treasury_amount ≡ sum_treasury_outputs_v1 t
    pub root_of : c.witness.output_lock_root ≡ treasury_lock_root_b58
    pub owner_of : owner_ok t (trim c.owner) ≡ true
    pub named_owner : is_empty (trim c.owner) ≡ false

  witness-of :
      (t : TransactionDetails) (id : Bytes) (owner : Str) (w : ClaimWitness)
      → claim_witness_from_transaction t id owner ≡ some w
      → (is_empty (trim owner) ≡ false)
        × (owner_ok t (trim owner) ≡ true)
        × (w.tx_id ≡ id)
        × (w.spender_pkh ≡ utf8 (trim owner))
        × (w.treasury_amount ≡ sum_treasury_outputs_v1 t)
        × (w.output_lock_root ≡ treasury_lock_root_b58)
  unfolding claim_witness_from_transaction
  witness-of t id owner w h = elim (Bool-cases (is_empty (trim owner))) [
    | inl e ↦ cc (rw e at h)
    | inr e ↦ elim (Bool-cases (owner_ok t (trim owner))) [
      | inr n ↦ cc (rw (e, n) at h)
      | inl y ↦
          let same = some-injective (rw (e, y) at h) in
          (
            e,
            y,
            ap (λ v. v.tx_id) (sym same),
            ap (λ v. v.spender_pkh) (sym same),
            ap (λ v. v.treasury_amount) (sym same),
            ap (λ v. v.output_lock_root) (sym same),
          )
    ]
  ]

  claim_of_note-ClaimOf :
      (t : TransactionDetails) (note : ClaimNoteV1) (id actual : Bytes) (c : ClaimCandidate)
      → base58_hash_to_atom_bytes (trim t.tx_id) ≡ ok id
      → base58_hash_to_atom_bytes (trim t.tx_id) ≡ ok actual
      → claim_of_note t note id actual ≡ some c
      → ClaimOf t c
  unfolding claim_of_note
  claim_of_note-ClaimOf t note id actual c hi ha h =
      let (owner, _, h1) = and_then-eq-some (infer_claim_owner_for_claim t note) _ h in
      let (w, hw, h2) = and_then-eq-some (claim_witness_from_transaction t actual owner) _ h1 in
      let (e, y, i, s, a, r) = witness-of t actual owner w hw in
      subst (ClaimOf t) (some-injective h2) (record {
        tx_hash_of = hi;
        tx_id_of = ha ∙ ap ok (sym i);
        fee_of = refl;
        spender_of = s;
        amount_of = a;
        root_of = r;
        owner_of = y;
        named_owner = e;
      })

  decoded-ClaimOf :
      (t : TransactionDetails) (note : ClaimNoteV1) (c : ClaimCandidate)
      → claim_of_decoded_note t note ≡ ok (some c)
      → ClaimOf t c
  unfolding claim_of_decoded_note
  decoded-ClaimOf t note c h =
      let effective = effective_tx_id (trim note.tx_hash) (trim t.tx_id) in
      elim (Bool-cases (effective =? trim t.tx_id)) [
        | inr n ↦ cc (rw n at h)
        | inl y ↦
            let same : effective ≡ trim t.tx_id = (=?_iff effective (trim t.tx_id)).0 y in
            let (id, hi, h1) = >>=-eq-ok (base58_hash_to_atom_bytes effective) _ (rw y at h) in
            let (actual, ha, h2) = >>=-eq-ok (base58_hash_to_atom_bytes (trim t.tx_id)) _ h1 in
            claim_of_note-ClaimOf t note id actual c (ap base58_hash_to_atom_bytes (sym same) ∙ hi)
              ha (ok-injective h2)
      ]

module _ ⦃lib : NounLib⦄ ⦃tx : TxLib⦄ ⦃belt : BeltLib⦄ ⦃notes : NoteLib⦄ where
  reading-ClaimOf :
      (t : TransactionDetails) (r : Result ClaimNoteV1) (c : ClaimCandidate)
      → claim_of_reading t r ≡ ok (some c)
      → ClaimOf t c
  unfolding claim_of_reading
  reading-ClaimOf t (err e) c h = cc
  reading-ClaimOf t (ok note) c h = decoded-ClaimOf t note c h

  entries-ClaimOf :
      (t : TransactionDetails) (o : Option (List NoteDataEntry)) (c : ClaimCandidate)
      → claim_of_entries t o ≡ ok (some c)
      → ClaimOf t c
  unfolding claim_of_entries
  entries-ClaimOf t none c h = cc
  entries-ClaimOf t (some entries) c h = reading-ClaimOf t (from_note_data entries) c h

  output-ClaimOf :
      (t : TransactionDetails) (o : TransactionOutput) (c : ClaimCandidate)
      → claim_of_output t o ≡ ok (some c)
      → ClaimOf t c
  unfolding claim_of_output
  output-ClaimOf t o c h = entries-ClaimOf t o.note_data c h

  prepend-All :
      (P : ClaimCandidate → Type 0) (c : Option ClaimCandidate) (cs : List ClaimCandidate)
      → ((x : ClaimCandidate) → c ≡ some x → P x)
      → All P cs
      → All P (prepend c cs)
  prepend-All P none cs h k = k
  prepend-All P (some c) cs h k = (h c refl, k)

  outputs-ClaimOf :
      (t : TransactionDetails) (os : List TransactionOutput) (out : List ClaimCandidate)
      → claims_of_outputs t os ≡ ok out
      → All (ClaimOf t) out
  unfolding claims_of_outputs
  outputs-ClaimOf t [] out h = subst (All (ClaimOf t)) (ok-injective h) tt
  outputs-ClaimOf t (o ∷ os) out h =
      let (c, hc, h1) = >>=-eq-ok (claim_of_output t o) _ h in
      let (cs, hs, h2) = >>=-eq-ok (claims_of_outputs t os) _ h1 in
      subst (All (ClaimOf t)) (ok-injective h2) (
        prepend-All (ClaimOf t) c cs (λ x e. output-ClaimOf t o x (hc ∙ ap ok e))
          (outputs-ClaimOf t os cs hs))

  All-map :
      (P Q : ClaimCandidate → Type 0) (cs : List ClaimCandidate)
      → ((c : ClaimCandidate) → P c → Q c)
      → All P cs
      → All Q cs
  All-map P Q [] f h = tt
  All-map P Q (c ∷ cs) f h = (f c h.0, All-map P Q cs f h.1)

  -- Each claim that is extracted from a block belongs to a transaction of the block: it has the
  -- transaction's ids, the scheduled fee, the treasury payments of the transaction as its amount,
  -- and an owner that signs the transaction, or spends a note in it if it has no signers.
  pub extract_claims-ClaimOf :
      (ts : List TransactionDetails) (out : List ClaimCandidate)
      → extract_claims ts ≡ ok out
      → All (λ c. Among (λ t. ClaimOf t c) ts) out
  unfolding extract_claims extract_claims_from_transaction
  extract_claims-ClaimOf [] out h =
      subst (All (λ c. Among (λ t. ClaimOf t c) [])) (ok-injective h) tt
  extract_claims-ClaimOf (t ∷ ts) out h =
      let (cs, hc, h1) = >>=-eq-ok (claims_of_outputs t t.outputs) _ h in
      let (rest, hr, h2) = >>=-eq-ok (extract_claims ts) _ h1 in
      let Here : ClaimCandidate → Type 0 = λ c. Among (λ u. ClaimOf u c) (t ∷ ts) in
      subst (All Here) (ok-injective h2) (
        All-append Here cs rest
          (All-map (ClaimOf t) Here cs (λ c m. first_one m) (outputs-ClaimOf t t.outputs cs hc))
          (All-map (λ c. Among (λ u. ClaimOf u c) ts) Here rest (λ c m. further m)
            (extract_claims-ClaimOf ts rest hr)))
