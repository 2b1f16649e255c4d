-- ===== src/Kernel/Peeks.antt =====
-- The peek paths of src/kernel.rs and the decoders of their results.
pub mod Paths
pub mod Digests
use nns.Base.{Bool, List, Option, [], if◌then◌else◌, none, some, ℕ, ◌==◌, ◌∷◌}
use nns.Base.Result.{Result, collect, err, ok, ok_or, or_err, text, ◌>>=◌}
use nns.Base.Text.{Bytes, Str}
use nns.Kernel.Types.{AccumulatorEntry, AnchorView, NameEntry, ProofNode, ScanState, Snapshot}
use nns.Noun.{
  Noun, NounLib, as_cord, as_ne_bytes, as_u64, atom, head, is_atom, list_elements, tail, uncons,
  ◌⸬◌,
}

module _ ⦃lib : NounLib⦄ where
  -- strips the `(unit (unit *))` of a peek; `ok none` is a known path with no value
  unfoldable pub peek_unwrap_inner : Noun → Result (Option Noun)
  peek_unwrap_inner (atom n) = err (text "peek: kernel did not recognize path")
  peek_unwrap_inner (a ⸬ inner) =
      if is_atom inner then ok none else (do value ← tail inner; ok (some value))

  unfoldable pub peek_unwrap_some : Noun → Result Noun
  unfolding peek_unwrap_inner
  peek_unwrap_some result = do
    inner ← peek_unwrap_inner result
    ok_or inner (text "peek: expected a value, got empty unit")

  unfoldable pub decode_fee_for_name : Noun → Result ℕ
  decode_fee_for_name result = do
    inner ← peek_unwrap_some result
    or_err (as_u64 inner) "fee-for-name: overflows u64"

  unfoldable pub decode_parity_trace_bool : Noun → Result Bool
  decode_parity_trace_bool result = do
    inner ← peek_unwrap_some result
    v ← or_err (as_u64 inner) "parity-trace peek: expected loobean atom"
    ok (v == 0)

  unfoldable pub decode_snapshot : Noun → Result Snapshot
  decode_snapshot result = do
    inner ← peek_unwrap_some result
    c ← or_err (head inner) "snapshot: expected cell"
    claim_id ← or_err (as_u64 c) "snapshot: claim_id overflows u64"
    rest ← or_err (tail inner) "snapshot: tail not a cell"
    pair ← or_err (uncons rest) "snapshot: tail not a pair"
    hull ← as_ne_bytes pair.0
    root ← as_ne_bytes pair.1
    ok (record { claim_id = claim_id; hull = hull; root = root })

  unfoldable pub decode_pending_batch : Noun → Result (List Str)
  decode_pending_batch result = do
    inner ← peek_unwrap_inner result
    elim inner [
      | none ↦ ok []
      | some list ↦ do elements ← list_elements list; collect as_cord elements
    ]

  unfoldable pub decode_last_settled : Noun → Result ℕ
  decode_last_settled result = do
    inner ← peek_unwrap_some result
    or_err (as_u64 inner) "last-settled: overflows u64"

  unfoldable pub decode_accumulator_entry : Noun → Result (Option AccumulatorEntry)
  decode_accumulator_entry result = do
    inner ← peek_unwrap_some result
    if is_atom inner then ok none else do
      entry ← tail inner
      p1 ← or_err (uncons entry) "accumulator: entry not a cell"
      p2 ← or_err (uncons p1.1) "accumulator: entry tail not a cell"
      p3 ← or_err (uncons p2.1) "accumulator: entry tail2 not a cell"
      p4 ← or_err (uncons p3.1) "accumulator: entry tail3 not a cell"
      name ← as_cord p1.0
      owner ← as_cord p2.0
      tx_hash ← as_ne_bytes p3.0
      claim_height ← or_err (as_u64 p4.0) "accumulator: claim_height overflows u64"
      block_digest ← as_ne_bytes p4.1
      ok (
          some (record {
            name = name;
            owner = owner;
            tx_hash = tx_hash;
            claim_height = claim_height;
            block_digest = block_digest;
          }))

  unfoldable pub decode_accumulator_proof_axis : Noun → Result (Option Bytes)
  decode_accumulator_proof_axis result = do
    inner ← peek_unwrap_some result
    if is_atom inner
        then ok none
        else do axis ← tail inner; bytes ← as_ne_bytes axis; ok (some bytes)

  unfoldable pub decode_accumulator_root : Noun → Result Bytes
  decode_accumulator_root result = do inner ← peek_unwrap_some result; as_ne_bytes inner

  unfoldable pub decode_accumulator_jam : Noun → Result Bytes
  unfolding decode_accumulator_root
  decode_accumulator_jam result = decode_accumulator_root result

  -- the three JAMs, or `none` before the first recursive proof
  unfoldable pub decode_recursive_proof : Noun → Result (Option (Bytes × Bytes × Bytes))
  decode_recursive_proof result = do
    inner? ← peek_unwrap_inner result
    elim inner? [
      | none ↦ ok none
      | some inner ↦ if is_atom inner then ok none else do
        p ← or_err (uncons inner) "recursive-proof: expected 3-tuple cell [proof [subj form]]"
        q ← or_err (uncons p.1) "recursive-proof: tail not a cell"
        proof ← as_ne_bytes p.0
        subject ← as_ne_bytes q.0
        formula ← as_ne_bytes q.1
        ok (some (proof, subject, formula))
    ]

  unfoldable pub decode_scan_state : Noun → Result ScanState
  decode_scan_state result = do
    inner ← peek_unwrap_some result
    h ← or_err (head inner) "scan-state: expected cell"
    last_proved_height ← or_err (as_u64 h) "scan-state: height overflows u64"
    rest ← or_err (tail inner) "scan-state: tail not a cell"
    p ← or_err (uncons rest) "scan-state: tail not a cell"
    q ← or_err (uncons p.1) "scan-state: tail2 not a cell"
    digest ← as_ne_bytes p.0
    root ← as_ne_bytes q.0
    size ← or_err (as_u64 q.1) "scan-state: size overflows u64"
    ok (record {
      last_proved_height = last_proved_height;
      last_proved_digest = digest;
      accumulator_root = root;
      accumulator_size = size;
    })

  unfoldable pub decode_owner : Noun → Result (Option NameEntry)
  decode_owner result = do
    inner ← peek_unwrap_some result
    if is_atom inner then ok none else do
      entry ← tail inner
      p ← or_err (uncons entry) "owner: entry not a cell"
      q ← or_err (uncons p.1) "owner: entry tail not a cell"
      owner ← as_cord p.0
      tx_hash ← as_cord q.0
      claim_count ← or_err (as_u64 q.1) "owner: claim_count overflows u64"
      ok (some (record { owner = owner; tx_hash = tx_hash; claim_count = claim_count }))

  unfoldable pub decode_proof_nodes : Noun → Result (List ProofNode)
  decode_proof_nodes (atom n) = ok []
  decode_proof_nodes (row ⸬ rest) =
      let more = decode_proof_nodes rest in
      do
        p ← or_err (uncons row) "proof: node not a cell"
        hash ← as_ne_bytes p.0
        side_val ← or_err (as_u64 p.1) "proof: side overflows u64"
        out ← more
        ok ((record { hash = hash; side = side_val == 0 }) ∷ out)

  unfoldable pub decode_proof : Noun → Result (List ProofNode)
  unfolding decode_proof_nodes
  decode_proof result = do inner ← peek_unwrap_some result; decode_proof_nodes inner

  unfoldable pub decode_anchor : Noun → Result AnchorView
  decode_anchor result = do
    inner ← peek_unwrap_some result
    p ← or_err (uncons inner) "anchor: expected cell"
    tip_digest ← as_ne_bytes p.0
    tip_height ← or_err (as_u64 p.1) "anchor: tip_height overflows u64"
    ok (record { tip_digest = tip_digest; tip_height = tip_height })
