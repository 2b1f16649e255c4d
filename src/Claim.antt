-- ===== src/Claim.antt =====
-- src/claim_note.rs: the claim note in the note-data of an output. nockchain_client_rs's note-data
-- with its two lookups is the record `NoteLib`.
pub mod RoundTrip
use nns.Base.{List, Option, [], if◌then◌else◌, is_empty, none, some, ◌==◌}
use nns.Base.Result.{Result, and_then, err, ok, ok_or, or_context, or_err, text, ◌>>=◌}
use nns.Base.Strings.{strip_prefix, strip_suffix, trim_end_matches}
use nns.Base.Text.{Bytes, Str, codes, from_utf8}
use nns.Noun.{Noun, NounLib, as_cord, as_u64_opt, atom, head, is_nul, make_cord, tail, uncons, ◌⸬◌}
use nns.Packed.{BeltLib, unpack_wallet_blob_jam}
use nns.Rpc.{NoteDataEntry}

abbrev pub claim_note_path_prefix : Str
claim_note_path_prefix = codes "nns/v1/claim/"

-- the rest of `s` after the prefix, as `starts_with` and the slice give it
abbrev after_prefix : Str → Option Str
after_prefix s = strip_prefix claim_note_path_prefix s

unfoldable pub claim_name_from_path_inner : Bytes → Option Str
unfolding trim_end_matches strip_prefix strip_suffix
claim_name_from_path_inner bytes = and_then (from_utf8 bytes) λ full.
    and_then (after_prefix (trim_end_matches is_nul full)) λ name.
      and_then (strip_suffix (codes ".nock") (trim_end_matches is_nul full))
        λ stem. if is_empty name then none else some name

pub record ClaimNoteV1 : Type 0 where
  pub name : Str
  pub owner : Str
  pub tx_hash : Str

-- `NoteData` is its entries; `find_opaque_bytes_entry` and `find_entry` look a key up.
pub record NoteLib : Type 0 where
  pub find_opaque_bytes_entry : List NoteDataEntry → Str → Result Bytes
  pub find_entry : List NoteDataEntry → Str → Result NoteDataEntry

module _ ⦃lib : NounLib⦄ where
  -- `Claim::jam_tuple`
  unfoldable pub jam_tuple : ClaimNoteV1 → Bytes
  jam_tuple note = lib.jam (make_cord note.name ⸬ make_cord note.owner ⸬ make_cord note.tx_hash)

  unfoldable pub cord_field : Noun → Result Str
  unfolding as_cord as_u64_opt
  cord_field (atom n) = or_context (as_cord (atom n)) "claim tuple field is not utf8"
  cord_field (head ⸬ tail) = elim (as_u64_opt tail) [
    | some v ↦
        if v == 0
        then or_context (as_cord head) "claim tuple field is not utf8"
        else err (text "claim tuple field is not an atom")
    | none ↦ err (text "claim tuple field is not an atom")
  ]

  unfoldable pub from_tuple_jam : Bytes → Result ClaimNoteV1
  unfolding uncons cord_field
  from_tuple_jam tuple_jam = do
    root ← ok_or (lib.cue tuple_jam) (text "failed to decode claim tuple")
    slot_1 ← or_err (uncons root) "claim tuple malformed (slot 1)"
    slot_2 ← or_err (uncons slot_1.1) "claim tuple malformed (slot 2)"
    name ← cord_field slot_1.0
    owner ← cord_field slot_2.0
    tx_hash ← cord_field slot_2.1
    ok (record { name = name; owner = owner; tx_hash = tx_hash })

  -- a claim path gives the name only, and otherwise the tuple is read
  unfoldable pub path_or_tuple : Option Str → Bytes → Result ClaimNoteV1
  unfolding from_tuple_jam
  path_or_tuple (some name) tuple_jam = ok (record { name = name; owner = []; tx_hash = [] })
  path_or_tuple none tuple_jam = from_tuple_jam tuple_jam

  unfoldable pub from_inner : Bytes → Result ClaimNoteV1
  unfolding claim_name_from_path_inner path_or_tuple
  from_inner tuple_jam = path_or_tuple (claim_name_from_path_inner tuple_jam) tuple_jam

module _ ⦃lib : NounLib⦄ ⦃belt : BeltLib⦄ where
  -- what unpacks, or else the wire itself
  abbrev pub inner_or_wire : Result Bytes → Bytes → Bytes
  inner_or_wire (ok inner) wire = inner
  inner_or_wire (err e) wire = wire

  unfoldable pub from_wallet_packed_blob_wire : Bytes → Result ClaimNoteV1
  unfolding unpack_wallet_blob_jam from_inner
  from_wallet_packed_blob_wire wire = from_inner (inner_or_wire (unpack_wallet_blob_jam wire) wire)

  unfoldable pub from_note_data : ⦃notes : NoteLib⦄ → List NoteDataEntry → Result ClaimNoteV1
  unfolding from_wallet_packed_blob_wire
  from_note_data ⦃notes = notes⦄ note_data =
      elim (notes.find_opaque_bytes_entry note_data (codes "blob")) [
        | ok wire ↦ from_wallet_packed_blob_wire wire
        | err e ↦ do
          entry ←
              or_context (notes.find_entry note_data (codes "blob")) "missing blob note-data entry"
          from_wallet_packed_blob_wire entry.blob
      ]
