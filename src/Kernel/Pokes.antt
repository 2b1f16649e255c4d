-- ===== src/Kernel/Pokes.antt =====
-- The poke builders of src/kernel.rs. `T(&[a, b, c])` is the cell `a ⸬ b ⸬ c`.
pub mod Injective
use nns.Base.{Bool, List, Option, [], all, if◌then◌else◌, length, none, some, ℕ, ◌&&◌, ◌==◌, ◌∷◌}
use nns.Base.Text.{Bytes, Str}
use nns.Kernel.Types.{AnchorHeader, ClaimBundle, ClaimCandidate, ClaimWitness}
use nns.Noun.{Noun, NounLib, atom, make_atom, make_cord, make_tag, ◌⸬◌}

module _ ⦃lib : NounLib⦄ where
  -- the loops `for id in ids.iter().rev()` that build a list of atoms
  unfoldable pub atom_list : List Bytes → Noun
  atom_list [] = atom 0
  atom_list (id ∷ ids) = make_atom id ⸬ atom_list ids

  unfoldable pub header_cell : AnchorHeader → Noun
  header_cell h = make_atom h.digest ⸬ atom h.height ⸬ make_atom h.parent

  unfoldable pub headers_list : List AnchorHeader → Noun
  unfolding header_cell
  headers_list [] = atom 0
  headers_list (h ∷ hs) = header_cell h ⸬ headers_list hs

  unfoldable pub witness_cell : ClaimWitness → Noun
  witness_cell w =
      make_atom w.tx_id
      ⸬ make_atom w.spender_pkh
      ⸬ atom w.treasury_amount
      ⸬ make_cord w.output_lock_root

  unfoldable pub claim_cell : ClaimCandidate → Noun
  unfolding witness_cell
  claim_cell c =
      make_cord c.name
      ⸬ make_cord c.owner
      ⸬ atom c.fee
      ⸬ make_atom c.tx_hash
      ⸬ witness_cell c.witness

  unfoldable pub claims_list : List ClaimCandidate → Noun
  unfolding claim_cell
  claims_list [] = atom 0
  claims_list (c ∷ cs) = claim_cell c ⸬ claims_list cs

  unfoldable pub build_claim_poke : Str → Str → ℕ → Str → Noun
  build_claim_poke name owner fee tx_hash =
      make_tag "claim" ⸬ make_cord name ⸬ make_cord owner ⸬ atom fee ⸬ make_cord tx_hash

  unfoldable pub build_set_primary_poke : Str → Str → Noun
  build_set_primary_poke address name = make_tag "set-primary" ⸬ make_cord address ⸬ make_cord name

  unfoldable pub build_prove_identity_poke : Noun
  build_prove_identity_poke = make_tag "prove-identity" ⸬ atom 0

  unfoldable pub build_verify_stark_poke : Bytes → Noun
  build_verify_stark_poke proof_jam = make_tag "verify-stark" ⸬ make_atom proof_jam

  unfoldable pub build_verify_stark_explicit_poke : Bytes → Bytes → Bytes → Noun
  build_verify_stark_explicit_poke proof_jam subject_jam formula_jam =
      make_tag "verify-stark-explicit"
      ⸬ make_atom proof_jam
      ⸬ make_atom subject_jam
      ⸬ make_atom formula_jam

  unfoldable pub build_verify_accumulator_snapshot_poke :
      Bytes → Bytes → Str → Str → Bytes → ℕ → Bytes → Noun
  build_verify_accumulator_snapshot_poke expected_root acc_jam name owner tx_hash claim_height
        block_digest =
      make_tag "verify-accumulator-snapshot"
      ⸬ make_atom expected_root
      ⸬ make_atom acc_jam
      ⸬ make_cord name
      ⸬ make_cord owner
      ⸬ make_atom tx_hash
      ⸬ atom claim_height
      ⸬ make_atom block_digest

  unfoldable pub build_verify_chain_link_poke : Bytes → List AnchorHeader → Bytes → Noun
  unfolding headers_list
  build_verify_chain_link_poke claim_digest headers anchored_tip =
      make_tag "verify-chain-link"
      ⸬ make_atom claim_digest
      ⸬ headers_list headers
      ⸬ make_atom anchored_tip

  unfoldable pub build_verify_tx_in_page_poke : Bytes → List Bytes → Bytes → Noun
  unfolding atom_list
  build_verify_tx_in_page_poke page_digest tx_ids claimed_tx_id =
      make_tag "verify-tx-in-page"
      ⸬ make_atom page_digest
      ⸬ atom_list tx_ids
      ⸬ make_atom claimed_tx_id

  unfoldable pub build_scan_block_poke : Bytes → ℕ → Bytes → List Bytes → List ClaimCandidate → Noun
  unfolding atom_list claims_list
  build_scan_block_poke parent height page_digest page_tx_ids claims =
      make_tag "scan-block"
      ⸬ make_atom parent
      ⸬ atom height
      ⸬ make_atom page_digest
      ⸬ atom_list page_tx_ids
      ⸬ claims_list claims

  unfoldable pub build_validate_claim_poke : ClaimBundle → Noun
  unfolding atom_list headers_list
  build_validate_claim_poke b =
      make_tag "validate-claim"
      ⸬ make_cord b.name
      ⸬ make_cord b.owner
      ⸬ atom b.fee
      ⸬ make_atom b.tx_hash
      ⸬ make_atom b.claim_block_digest
      ⸬ headers_list b.anchor_headers
      ⸬ make_atom b.page_digest
      ⸬ atom_list b.page_tx_ids
      ⸬ make_atom b.anchored_tip
      ⸬ atom b.anchored_tip_height
      ⸬ make_atom b.witness.tx_id
      ⸬ make_atom b.witness.spender_pkh
      ⸬ atom b.witness.treasury_amount
      ⸬ make_cord b.witness.output_lock_root

  unfoldable pub build_prove_claim_poke : ClaimBundle → Noun
  unfolding atom_list headers_list
  build_prove_claim_poke b =
      make_tag "prove-claim"
      ⸬ make_cord b.name
      ⸬ make_cord b.owner
      ⸬ atom b.fee
      ⸬ make_atom b.tx_hash
      ⸬ make_atom b.claim_block_digest
      ⸬ headers_list b.anchor_headers
      ⸬ make_atom b.page_digest
      ⸬ atom_list b.page_tx_ids
      ⸬ make_atom b.anchored_tip
      ⸬ atom b.anchored_tip_height
      ⸬ make_atom b.witness.tx_id
      ⸬ make_atom b.witness.spender_pkh
      ⸬ atom b.witness.treasury_amount
      ⸬ make_cord b.witness.output_lock_root

  unfoldable pub build_prove_arbitrary_poke : Bytes → Bytes → Noun
  build_prove_arbitrary_poke subject_jam formula_jam =
      make_tag "prove-arbitrary" ⸬ make_atom subject_jam ⸬ make_atom formula_jam

  -- no witness here
  unfoldable pub build_prove_claim_in_stark_poke : ClaimBundle → Noun
  unfolding atom_list headers_list
  build_prove_claim_in_stark_poke b =
      make_tag "prove-claim-in-stark"
      ⸬ make_cord b.name
      ⸬ make_cord b.owner
      ⸬ atom b.fee
      ⸬ make_atom b.tx_hash
      ⸬ make_atom b.claim_block_digest
      ⸬ headers_list b.anchor_headers
      ⸬ make_atom b.page_digest
      ⸬ atom_list b.page_tx_ids
      ⸬ make_atom b.anchored_tip
      ⸬ atom b.anchored_tip_height

  unfoldable pub build_prove_recursive_genesis_poke : Noun
  build_prove_recursive_genesis_poke = make_tag "prove-recursive-genesis" ⸬ atom 0

  -- the two assertions on each claim
  unfoldable pub has_tip5_ids : ClaimCandidate → Bool
  has_tip5_ids c = length c.tx_hash == 40 && length c.witness.tx_id == 40

  -- `none` is the panic of a failed assertion
  unfoldable pub build_prove_recursive_transition_poke :
      Bytes → Bytes → Bytes → Bytes → List Bytes → List ClaimCandidate → Bytes → Option Noun
  unfolding atom_list claims_list has_tip5_ids
  build_prove_recursive_transition_poke prev_proof_jam prev_subject_jam prev_formula_jam page_digest
        page_tx_ids claims block_proof =
      if all has_tip5_ids claims
      then some (
          make_tag "prove-recursive-transition"
          ⸬ make_atom prev_proof_jam
          ⸬ make_atom prev_subject_jam
          ⸬ make_atom prev_formula_jam
          ⸬ make_atom page_digest
          ⸬ atom_list page_tx_ids
          ⸬ claims_list claims
          ⸬ make_atom block_proof)
      else none
