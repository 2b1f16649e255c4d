-- ===== src/Api/Lookup.antt =====
-- What a client is told of a name, from what the kernel holds.
-- the parts of the kernel's state that a lookup shows, with atoms as numbers
use mathlib.Core.Option
use nns.Api.{
  AccumulatorLookupResponse, Reply, accumulator_handler, bad_request, decoded, failed,
  is_valid_name, json, lookup_entry, lookup_response, not_found,
}
use nns.Base.{
  Bool, Bool-cases, Option, String, ap, arith, false, if◌then◌else◌, inl, inr, ltb, none, not, refl,
  some, true, ℕ, ◌<◌, ◌^◌, ◌≡◌,
}
use nns.Base.Result.{Result, ok, text}
use nns.Base.Text.{Str}
use nns.Hex.{hex_encode}
use nns.Kernel.Debug.Dump.{DumpRow, IsRow, atom_hex, row_noun}
use nns.Kernel.Peeks.{
  decode_accumulator_entry, decode_accumulator_jam, decode_accumulator_proof_axis,
  decode_recursive_proof, decode_scan_state, peek_unwrap_inner, peek_unwrap_some,
}
use nns.Kernel.Peeks.Paths.{
  build_accumulator_jam_peek, build_accumulator_peek, build_accumulator_proof_peek,
  build_recursive_proof_peek, build_scan_state_peek,
}
use nns.Kernel.Types.{AccumulatorEntry, ScanState}
use nns.Noun.{Noun, NounLib, as_ne_bytes, as_u64, atom, head, is_atom, tail, uncons, ◌⸬◌}
use nns.Noun.Cord.{as_cord-make_cord}

pub record NameView : Type 0 where
  pub row : Option DumpRow
  pub axis : Option ℕ
  pub height : ℕ
  pub digest : ℕ
  pub root : ℕ
  pub size : ℕ
  pub jam : ℕ
  pub proof : Option (ℕ × ℕ × ℕ)

-- heights and sizes of 64 bits, and a row of cords
pub record IsView (v : NameView) : Type 0 where
  pub height_fits : v.height < 2 ^ 64
  pub size_fits : v.size < 2 ^ 64
  pub row_fits : (r : DumpRow) → v.row ≡ some r → IsRow r

-- what a peek and its decoding give
decoded-eq-json {ℓ} :
    {A : Type ℓ} (peeked : Result Noun) (peek_failed decode_failed : String)
    (decode : Noun → Result A) (n : Noun) (a : A)
    → peeked ≡ ok n
    → decode n ≡ ok a
    → decoded peeked peek_failed decode decode_failed ≡ json a
decoded-eq-json peeked peek_failed decode_failed decode n a hp hd = rw (hp, decoded) (rw hd refl)

module _ ⦃lib : NounLib⦄ where
  -- `(unit row)`, `(unit @)` and `(unit [@ @ @])`
  abbrev unit_row : Option DumpRow → Noun
  unit_row none = atom 0
  unit_row (some r) = atom 0 ⸬ row_noun r

  abbrev unit_atom : Option ℕ → Noun
  unit_atom none = atom 0
  unit_atom (some n) = atom 0 ⸬ atom n

  abbrev proof_noun : Option (ℕ × ℕ × ℕ) → Noun
  proof_noun none = atom 0
  proof_noun (some (p, s, f)) = atom p ⸬ atom s ⸬ atom f

  -- `[~ ~ value]`
  abbrev shown : Noun → Result Noun
  shown value = ok (atom 0 ⸬ atom 0 ⸬ value)

  -- A kernel that answers the five peeks of a lookup, as the Hoon program does.
  pub record Answers (peek : Noun → Result Noun) (name : Str) (v : NameView) : Type 0 where
    pub row : peek (build_accumulator_peek name) ≡ shown (unit_row v.row)
    pub axis : peek (build_accumulator_proof_peek name) ≡ shown (unit_atom v.axis)
    pub scan :
        peek build_scan_state_peek
        ≡ shown (atom v.height ⸬ atom v.digest ⸬ atom v.root ⸬ atom v.size)
    pub jam : peek build_accumulator_jam_peek ≡ shown (atom v.jam)
    pub proof : peek build_recursive_proof_peek ≡ shown (proof_noun v.proof)

  -- the reply on a registered name
  abbrev pub row_reply : Str → Bool → NameView → DumpRow → AccumulatorLookupResponse
  row_reply name wallet_export v r = record {
    name = name;
    value = some (record {
      owner = r.owner;
      tx_hash = atom_hex r.tx_hash;
      claim_height = r.claim_height;
      block_digest = atom_hex r.block_digest;
    });
    proof_axis = Option.map atom_hex v.axis;
    accumulator_snapshot_hex = if wallet_export then some (atom_hex v.jam) else none;
    recursive_proof_hex = Option.map (λ (p, s, f). atom_hex p) v.proof;
    recursive_subject_jam_hex = Option.map (λ (p, s, f). atom_hex s) v.proof;
    recursive_formula_jam_hex = Option.map (λ (p, s, f). atom_hex f) v.proof;
    last_proved_height = v.height;
    last_proved_digest = atom_hex v.digest;
    accumulator_root = atom_hex v.root;
    accumulator_size = v.size;
  }

  abbrev pub view_reply : Str → Bool → NameView → Option DumpRow → Reply AccumulatorLookupResponse
  view_reply name wallet_export v none = failed (not_found (text "not registered"))
  view_reply name wallet_export v (some r) = json (row_reply name wallet_export v r)

  -- the entry of a row
  abbrev row_entry : DumpRow → AccumulatorEntry
  row_entry x = record {
    name = x.name;
    owner = x.owner;
    tx_hash = lib.ne_bytes x.tx_hash;
    claim_height = x.claim_height;
    block_digest = lib.ne_bytes x.block_digest;
  }

  row-decoded :
      (r : Option DumpRow)
      → ((x : DumpRow) → r ≡ some x → IsRow x)
      → decode_accumulator_entry (atom 0 ⸬ atom 0 ⸬ unit_row r) ≡ ok (Option.map row_entry r)
  unfolding decode_accumulator_entry peek_unwrap_some is_atom tail uncons as_u64 as_ne_bytes
  row-decoded none h = refl
  row-decoded (some r) h =
      let row = h r refl in
      let fits : ltb r.claim_height (2 ^ 64) ≡ true = let s = row.height_fits in ground arith in
      rw (as_cord-make_cord r.name row.name_cord, as_cord-make_cord r.owner row.owner_cord, fits)
        refl

  axis-decoded :
      (a : Option ℕ)
      → decode_accumulator_proof_axis (atom 0 ⸬ atom 0 ⸬ unit_atom a)
        ≡ ok (Option.map lib.ne_bytes a)
  unfolding decode_accumulator_proof_axis peek_unwrap_some is_atom tail as_ne_bytes
  axis-decoded none = refl
  axis-decoded (some n) = refl

  scan-decoded :
      (h d r s : ℕ)
      → h < 2 ^ 64
      → s < 2 ^ 64
      → decode_scan_state (atom 0 ⸬ atom 0 ⸬ atom h ⸬ atom d ⸬ atom r ⸬ atom s)
        ≡ ok (record {
          last_proved_height = h;
          last_proved_digest = lib.ne_bytes d;
          accumulator_root = lib.ne_bytes r;
          accumulator_size = s;
        })
  unfolding decode_scan_state peek_unwrap_some is_atom head tail uncons as_u64 as_ne_bytes
  scan-decoded h d r s hh hs =
      let height : ltb h (2 ^ 64) ≡ true = ground arith in
      let size : ltb s (2 ^ 64) ≡ true = ground arith in rw (height, size) refl

  jam-decoded : (n : ℕ) → decode_accumulator_jam (atom 0 ⸬ atom 0 ⸬ atom n) ≡ ok (lib.ne_bytes n)
  unfolding decode_accumulator_jam peek_unwrap_some is_atom tail as_ne_bytes
  jam-decoded n = refl

  proof-decoded :
      (p : Option (ℕ × ℕ × ℕ))
      → decode_recursive_proof (atom 0 ⸬ atom 0 ⸬ proof_noun p)
        ≡ ok (Option.map (λ (a, b, c). (lib.ne_bytes a, lib.ne_bytes b, lib.ne_bytes c)) p)
  unfolding decode_recursive_proof peek_unwrap_inner is_atom tail uncons as_ne_bytes
  proof-decoded none = refl
  proof-decoded (some (a, b, c)) = refl

  scan_view : NameView → ScanState
  scan_view v = record {
    last_proved_height = v.height;
    last_proved_digest = lib.ne_bytes v.digest;
    accumulator_root = lib.ne_bytes v.root;
    accumulator_size = v.size;
  }

  response-view :
      (name : Str) (v : NameView) (r : DumpRow) (axis : Option ℕ) (proof : Option (ℕ × ℕ × ℕ))
      (wallet_export : Bool)
      → lookup_response name
          (row_entry r)
          (Option.map lib.ne_bytes axis)
          (scan_view v)
          (if wallet_export then some (hex_encode (lib.ne_bytes v.jam)) else none)
          (Option.map (λ (a, b, c). (lib.ne_bytes a, lib.ne_bytes b, lib.ne_bytes c)) proof)
        ≡ row_reply name wallet_export (record v { axis = axis; proof = proof }) r
  unfolding scan_view lookup_response
  response-view name v r none none wallet_export = refl
  response-view name v r none (some (a, b, c)) wallet_export = refl
  response-view name v r (some n) none wallet_export = refl
  response-view name v r (some n) (some (a, b, c)) wallet_export = refl

  lookup_entry-view :
      (peek : Noun → Result Noun) (name : Str) (wallet_export : Bool) (v : NameView) (r : DumpRow)
      → Answers peek name v
      → IsView v
      → lookup_entry peek name wallet_export (row_entry r) ≡ json (row_reply name wallet_export v r)
  unfolding lookup_entry scan_view
  lookup_entry-view peek name wallet_export v r a h =
      let scan_ok = scan-decoded v.height v.digest v.root v.size h.height_fits h.size_fits in
      let axis =
        decoded-eq-json (peek (build_accumulator_proof_peek name))
          "kernel accumulator-proof peek failed" "decode accumulator-proof failed"
          decode_accumulator_proof_axis _ _ a.axis (axis-decoded v.axis) in
      let scan =
        decoded-eq-json (peek build_scan_state_peek) "kernel scan-state peek failed"
          "decode scan-state failed" decode_scan_state _ _ a.scan scan_ok in
      let jam =
        decoded-eq-json (peek build_accumulator_jam_peek) "kernel accumulator-jam peek failed"
          "decode accumulator-jam failed" decode_accumulator_jam _ _ a.jam (jam-decoded v.jam) in
      let proof =
        decoded-eq-json (peek build_recursive_proof_peek) "kernel recursive-proof peek failed"
          "decode recursive-proof failed" decode_recursive_proof _ _ a.proof
          (proof-decoded v.proof) in
      let response = λ (e : Bool). ap json (response-view name v r v.axis v.proof e) in
      elim wallet_export
        as (λ e. lookup_entry peek name e (row_entry r) ≡ json (row_reply name e v r)) [
          | true ↦ rw (axis, scan, jam, proof) (response true)
          | false ↦ rw (axis, scan, proof) (response false)
        ]

  -- A name that is not valid is refused without a look at the kernel. For a valid name the reply is
  -- `not registered` if the kernel holds no row of it, and otherwise shows the row, the axis, the scan
  -- state and the recursive proof that the kernel holds, with digests and jams in hexadecimal, and
  -- the accumulator's jam exactly if it was asked for. The kernel answers the five peeks as the Hoon
  -- program does, with heights and sizes of 64 bits and rows of cords.
  pub accumulator_handler-view :
      (peek : Noun → Result Noun) (name : Str) (wallet_export : Bool) (v : NameView)
      → Answers peek name v
      → IsView v
      → accumulator_handler peek name wallet_export ≡ (
          if not (is_valid_name name)
          then failed (bad_request (text "invalid name"))
          else view_reply name wallet_export v v.row)
  unfolding accumulator_handler
  accumulator_handler-view peek name wallet_export v a h = elim (Bool-cases (is_valid_name name)) [
    | inr invalid ↦ rw invalid refl
    | inl fine ↦
        let row =
          decoded-eq-json (peek (build_accumulator_peek name)) "kernel accumulator peek failed"
            "decode accumulator failed" decode_accumulator_entry _ _ a.row
            (row-decoded v.row h.row_fits) in
        rw (fine, row) (found v.row)
  ]
    where
      found :
          (row : Option DumpRow)
          → (elim (Option.map row_entry row) [
            | none ↦ failed (not_found (text "not registered"))
            | some entry ↦ lookup_entry peek name wallet_export entry
          ])
            ≡ view_reply name wallet_export v row
      found none = refl
      found (some r) = lookup_entry-view peek name wallet_export v r a h
