-- ===== src/Kernel/Effects.antt =====
-- The effect decoders of src/kernel.rs. `?` on an `Option` is the `do` block of `Option`.
pub mod Reports
use nns.Base.{
  Bool, List, Option, [], any, filter_map, find_map, if◌then◌else◌, is_empty, none, some, ℕ, ◌++◌,
  ◌==◌, ◌=?◌, ◌||◌, ◌∷◌,
}
use nns.Base.Maybe.{◌>>=◌}
use nns.Base.Result.{to_option}
use nns.Base.Strings.{trim_end_matches}
use nns.Base.Text.{Bytes, Str, codes, from_utf8}
use nns.Kernel.Types.{
  AnchorAdvanced, ArbitraryProof, ClaimCountBumped, ClaimInStarkProof, ClaimProof,
  InStarkValidation, RecursiveTransitionProof, ScanBlockDone, ValidateClaimResult, VeslSettled,
  error, passed, rejected, valid,
}
use nns.Noun.{Noun, NounLib, as_cord, as_ne_bytes, as_u64, head, is_nul, jam_bytes, tail}

module _ ⦃lib : NounLib⦄ where
  unfoldable pub effect_tag : Noun → Option Str
  effect_tag effect = do tag ← to_option (head effect); to_option (as_cord tag)

  -- `if effect_tag(effect)? != name { return None; } ... sn.tail().ok()?`
  unfoldable pub payload : Str → Noun → Option Noun
  unfolding effect_tag
  payload name effect = do
    tag ← effect_tag effect
    if tag =? name then to_option (tail effect) else none

  -- `Some(tail.as_u64().ok()? == 0)`, a Hoon loobean
  unfoldable pub loobean : Noun → Option Bool
  loobean n = do v ← to_option (as_u64 n); some (v == 0)

  -- the message of an error effect
  unfoldable pub message : Noun → Option Str
  message n = do
    bytes ← to_option (as_ne_bytes n)
    s ← from_utf8 bytes
    some (trim_end_matches is_nul s)

  unfoldable pub prove_identity_result : Noun → Option Bool
  unfolding payload loobean
  prove_identity_result e = do t ← payload (codes "prove-identity-result") e; loobean t

  unfoldable pub chain_link_result : Noun → Option Bool
  unfolding payload loobean
  chain_link_result e = do t ← payload (codes "chain-link-result") e; loobean t

  unfoldable pub tx_in_page_result : Noun → Option Bool
  unfolding payload loobean
  tx_in_page_result e = do t ← payload (codes "tx-in-page-result") e; loobean t

  unfoldable pub genesis_recursive_dry_run_ok : Noun → Option Bool
  unfolding payload loobean
  genesis_recursive_dry_run_ok e = do
    t ← payload (codes "genesis-recursive-dry-run-ok") e
    loobean t

  unfoldable pub recursive_transition_dry_run_ok : Noun → Option Bool
  unfolding payload loobean
  recursive_transition_dry_run_ok e = do
    t ← payload (codes "recursive-transition-dry-run-ok") e
    loobean t

  unfoldable pub verify_stark_result : Noun → Option Bool
  unfolding payload loobean
  verify_stark_result e = do t ← payload (codes "verify-stark-result") e; loobean t

  unfoldable pub accumulator_snapshot_verify_result : Noun → Option Bool
  unfolding payload loobean
  accumulator_snapshot_verify_result e = do
    t ← payload (codes "accumulator-snapshot-verify-result") e
    loobean t

  unfoldable pub verify_stark_error : Noun → Option Str
  unfolding payload message
  verify_stark_error e = do t ← payload (codes "verify-stark-error") e; message t

  unfoldable pub accumulator_snapshot_verify_error : Noun → Option Str
  unfolding payload message
  accumulator_snapshot_verify_error e = do
    t ← payload (codes "accumulator-snapshot-verify-error") e
    message t

  unfoldable pub validate_claim_result : Noun → Option ValidateClaimResult
  unfolding effect_tag message
  validate_claim_result e = do
    tag ← effect_tag e
    if tag =? codes "validate-claim-ok"
        then some valid
        else if tag =? codes "validate-claim-error"
        then (do t ← to_option (tail e); s ← message t; some (error s))
        else none

  unfoldable pub claim_proof : Noun → Option ClaimProof
  unfolding payload
  claim_proof e = do
    rest ← payload (codes "claim-proof") e
    head_noun ← to_option (head rest)
    proof_noun ← to_option (tail rest)
    bundle_digest ← to_option (as_ne_bytes head_noun)
    some (record { bundle_digest = bundle_digest; proof_jam = jam_bytes proof_noun })

  unfoldable pub arbitrary_proof : Noun → Option ArbitraryProof
  unfolding payload
  arbitrary_proof e = do
    rest ← payload (codes "arbitrary-proof") e
    product_noun ← to_option (head rest)
    proof_noun ← to_option (tail rest)
    some (record { product_jam = jam_bytes product_noun; proof_jam = jam_bytes proof_noun })

  -- the `match tag_val` on the head of the product
  unfoldable pub in_stark_validation : ℕ → Noun → Option InStarkValidation
  unfolding message
  in_stark_validation tag_val product =
      if tag_val == 0
      then some passed
      else if tag_val == 1
      then (do t ← to_option (tail product); s ← message t; some (rejected s))
      else none

  unfoldable pub claim_in_stark_proof : Noun → Option ClaimInStarkProof
  unfolding payload in_stark_validation
  claim_in_stark_proof e = do
    rest ← payload (codes "claim-in-stark-proof") e
    product ← to_option (head rest)
    proof_noun ← to_option (tail rest)
    tag_noun ← to_option (head product)
    tag_val ← to_option (as_u64 tag_noun)
    validation ← in_stark_validation tag_val product
    some (record { validation = validation; proof_jam = jam_bytes proof_noun })

  unfoldable pub genesis_recursive_proof : Noun → Option Bytes
  unfolding payload
  genesis_recursive_proof e = do t ← payload (codes "genesis-recursive-proof") e; some (jam_bytes t)

  unfoldable pub recursive_transition_proof : Noun → Option RecursiveTransitionProof
  unfolding payload
  recursive_transition_proof e = do
    t ← payload (codes "recursive-transition-proof") e
    some (record { proof_jam = jam_bytes t })

  abbrev is_error_tag : Str → Bool
  is_error_tag tag =
      tag =? codes "claim-error"
      || tag =? codes "primary-error"
      || tag =? codes "batch-error"
      || tag =? codes "anchor-error"
      || tag =? codes "vesl-error"

  unfoldable pub error_message : Noun → Option Str
  unfolding effect_tag message
  error_message e = do
    tag ← effect_tag e
    if is_error_tag tag then (do t ← to_option (tail e); message t) else none

  unfoldable pub anchor_advanced : Noun → Option AnchorAdvanced
  unfolding payload
  anchor_advanced e = do
    rest ← payload (codes "anchor-advanced") e
    d ← to_option (head rest)
    tip_digest ← to_option (as_ne_bytes d)
    rest2 ← to_option (tail rest)
    h ← to_option (head rest2)
    tip_height ← to_option (as_u64 h)
    c ← to_option (tail rest2)
    count ← to_option (as_u64 c)
    some (record { tip_digest = tip_digest; tip_height = tip_height; count = count })

  unfoldable pub scan_block_done : Noun → Option ScanBlockDone
  unfolding payload
  scan_block_done e = do
    rest ← payload (codes "scan-block-done") e
    h ← to_option (head rest)
    height ← to_option (as_u64 h)
    rest2 ← to_option (tail rest)
    d ← to_option (head rest2)
    digest ← to_option (as_ne_bytes d)
    r ← to_option (tail rest2)
    accumulator_root ← to_option (as_ne_bytes r)
    some (record { height = height; digest = digest; accumulator_root = accumulator_root })

  unfoldable pub scan_block_error : Noun → Option Str
  unfolding payload
  scan_block_error e = do t ← payload (codes "scan-block-error") e; to_option (as_cord t)

  unfoldable pub primary_set : Noun → Option (Str × Str)
  unfolding payload
  primary_set e = do
    rest ← payload (codes "primary-set") e
    a ← to_option (head rest)
    addr ← to_option (as_cord a)
    n ← to_option (tail rest)
    name ← to_option (as_cord n)
    some (addr, name)

  unfoldable pub claim_count_bumped : Noun → Option ClaimCountBumped
  unfolding payload
  claim_count_bumped e = do
    rest ← payload (codes "claim-count-bumped") e
    c ← to_option (head rest)
    claim_count ← to_option (as_u64 c)
    pair ← to_option (tail rest)
    h ← to_option (head pair)
    hull ← to_option (as_ne_bytes h)
    r ← to_option (tail pair)
    root ← to_option (as_ne_bytes r)
    some (record { claim_count = claim_count; hull = hull; root = root })

  unfoldable pub vesl_settled : Noun → Option VeslSettled
  unfolding payload
  vesl_settled e = do
    note ← payload (codes "vesl-settled") e
    i ← to_option (head note)
    note_id ← to_option (as_ne_bytes i)
    rest ← to_option (tail note)
    h ← to_option (head rest)
    hull ← to_option (as_ne_bytes h)
    rest2 ← to_option (tail rest)
    r ← to_option (head rest2)
    root ← to_option (as_ne_bytes r)
    some (record { note_id = note_id; hull = hull; root = root })

  unfoldable pub prove_failed : Noun → Option Bytes
  unfolding payload
  prove_failed e = do t ← payload (codes "prove-failed") e; to_option (as_ne_bytes t)

  abbrev pub first_scan_block_done : List Noun → Option ScanBlockDone
  first_scan_block_done = find_map scan_block_done

  abbrev pub first_scan_block_error : List Noun → Option Str
  first_scan_block_error = find_map scan_block_error

  abbrev pub first_error_message : List Noun → Option Str
  first_error_message = find_map error_message

  abbrev pub first_genesis_recursive_proof : List Noun → Option Bytes
  first_genesis_recursive_proof = find_map genesis_recursive_proof

  abbrev pub first_recursive_transition_proof : List Noun → Option RecursiveTransitionProof
  first_recursive_transition_proof = find_map recursive_transition_proof

  abbrev pub first_verify_stark_error : List Noun → Option Str
  first_verify_stark_error = find_map verify_stark_error

  abbrev pub first_verify_stark_result : List Noun → Option Bool
  first_verify_stark_result = find_map verify_stark_result

  abbrev pub first_accumulator_snapshot_verify_error : List Noun → Option Str
  first_accumulator_snapshot_verify_error = find_map accumulator_snapshot_verify_error

  abbrev pub first_accumulator_snapshot_verify_result : List Noun → Option Bool
  first_accumulator_snapshot_verify_result = find_map accumulator_snapshot_verify_result

  unfoldable pub has_effect : List Noun → Str → Bool
  has_effect effects tag = any (λ t. t =? tag) (filter_map effect_tag effects)

  abbrev join : Str → List Str → Str
  join separator [] = []
  join separator (s ∷ []) = s
  join separator (s ∷ t ∷ ss) = s ++ separator ++ join separator (t ∷ ss)

  unfoldable pub format_effect_tags : List Noun → Str
  format_effect_tags effects =
      let tags = filter_map effect_tag effects in
      if is_empty tags then codes "(none)" else join (codes ", ") tags
