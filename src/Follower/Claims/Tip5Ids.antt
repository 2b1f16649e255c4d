-- ===== src/Follower/Claims/Tip5Ids.antt =====
-- The ids of extracted claims have 40 bytes, which the transition poke asserts.
use nns.Base.{
  All, Bool, List, [], all, ap, false, if◌then◌else◌, length, none, refl, some, sym, true, ◌∙◌, ◌∷◌,
  ◌≡◌,
}
use nns.Base.Result.{>>=-eq-ok, both, map_err, ok, ok-injective, text, text_str}
use nns.Base.Strings.{trim}
use nns.Base.Text.{Bytes, Str}
use nns.Chain.Digest.{base58_hash_to_atom_bytes, tip5_hash_to_tx_atom_bytes}
use nns.Claim.{NoteLib}
use nns.Follower.Claims.{extract_claims}
use nns.Follower.Claims.Extracted.{Among, ClaimOf, extract_claims-ClaimOf, first_one, further}
use nns.Kernel.Pokes.{build_prove_recursive_transition_poke, has_tip5_ids}
use nns.Kernel.Types.{ClaimCandidate}
use nns.Noun.{Noun, NounLib}
use nns.Packed.{BeltLib}
use nns.Payment.{Tip5Hash, TxLib}
use nns.Rpc.{TransactionDetails}

if-some {ℓ} :
    {A : Type ℓ} (b : Bool) (x : A) → b ≡ true → (y : A) × ((if b then some x else none) ≡ some y)
if-some true x e = (x, refl)
if-some false x e = cc

length-tx_atom_bytes : (h : Tip5Hash) → length (tip5_hash_to_tx_atom_bytes h) ≡ 40
unfolding tip5_hash_to_tx_atom_bytes
length-tx_atom_bytes h = refl

module _ ⦃tx : TxLib⦄ where
  length-base58_hash : (s : Str) (d : Bytes) → base58_hash_to_atom_bytes s ≡ ok d → length d ≡ 40
  unfolding base58_hash_to_atom_bytes
  length-base58_hash s d e =
      let (h, _, e1) =
        >>=-eq-ok
          (map_err (tx.from_base58 s)
            (λ x. both (text_str "invalid base58 Tip5 hash " s) (both (text ": ") x)))
          _ e in
      ap length (sym (ok-injective e1)) ∙ length-tx_atom_bytes h

module _ ⦃lib : NounLib⦄ ⦃tx : TxLib⦄ where
  ClaimOf-has_tip5_ids :
      (t : TransactionDetails) (c : ClaimCandidate) → ClaimOf t c → has_tip5_ids c ≡ true
  unfolding has_tip5_ids
  ClaimOf-has_tip5_ids t c h =
      rw
        (
          length-base58_hash (trim t.tx_id) c.tx_hash h.tx_hash_of,
          length-base58_hash (trim t.tx_id) c.witness.tx_id h.tx_id_of,
        )
        refl

  Among-has_tip5_ids :
      (c : ClaimCandidate) (ts : List TransactionDetails)
      → Among (λ t. ClaimOf t c) ts
      → has_tip5_ids c ≡ true
  Among-has_tip5_ids c [] m = elim m [ ]
  Among-has_tip5_ids c (t ∷ ts) (first_one h) = ClaimOf-has_tip5_ids t c h
  Among-has_tip5_ids c (t ∷ ts) (further m) = Among-has_tip5_ids c ts m

  all-has_tip5_ids :
      (ts : List TransactionDetails) (cs : List ClaimCandidate)
      → All (λ c. Among (λ t. ClaimOf t c) ts) cs
      → all has_tip5_ids cs ≡ true
  all-has_tip5_ids ts [] h = refl
  all-has_tip5_ids ts (c ∷ cs) h = rw (Among-has_tip5_ids c ts h.0, all-has_tip5_ids ts cs h.1) refl

module _ ⦃lib : NounLib⦄ ⦃tx : TxLib⦄ ⦃belt : BeltLib⦄ ⦃notes : NoteLib⦄ where
  -- The assertions of the transition poke hold of extracted claims.
  pub extracted-transition_poke :
      (ts : List TransactionDetails) (cs : List ClaimCandidate) (proof subject formula page : Bytes)
      (ids : List Bytes) (block_proof : Bytes)
      → extract_claims ts ≡ ok cs
      → (cause : Noun) × (build_prove_recursive_transition_poke proof subject formula page ids cs
            block_proof
          ≡ some cause)
  unfolding build_prove_recursive_transition_poke
  extracted-transition_poke ts cs p s f page ids bp e =
      if-some _ _ (all-has_tip5_ids ts cs (extract_claims-ClaimOf ts cs e))
