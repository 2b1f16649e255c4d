-- ===== src/Claim/RoundTrip.antt =====
-- A claim note that is packed by the wallet is read back.
use nns.Base.{
  Bool-cases, Option-cases, [], ap, arith, inl, inr, length, none, refl, some, ℕ, ◌%◌, ◌<◌, ◌==◌,
  ◌∙◌, ◌∷◌, ◌≡◌, ◌≤◌,
}
use nns.Base.Result.{ok}
use nns.Base.Strings.{strip_prefix, trim_end_matches}
use nns.Base.Text.{Bytes, Str, from_utf8, from_utf8-ascii}
use nns.Claim.{
  ClaimNoteV1, claim_name_from_path_inner, claim_note_path_prefix, cord_field, from_inner,
  from_tuple_jam, from_wallet_packed_blob_wire, jam_tuple, path_or_tuple,
}
use nns.Noun.{NounLib, head, is_nul, make_cord, uncons, ◌⸬◌}
use nns.Noun.Cord.{IsCord, as_cord-make_cord}
use nns.Packed.{BeltLib, max_blob_payload_bytes, pack_wallet_blob_jam}
use nns.Packed.RoundTrip.{unpack-pack}

-- The three fields are text that a cord keeps.
pub record IsNote (note : ClaimNoteV1) : Type 0 where
  pub name_cord : IsCord note.name
  pub owner_cord : IsCord note.owner
  pub tx_hash_cord : IsCord note.tx_hash

-- A path starts with `n`, whose lowest bits are not those of a cell's jam.
after_prefix-none :
    (first : ℕ) (full : Str)
    → ((c : ℕ) (cs : Str) → full ≡ c ∷ cs → c < 0x80 → first ≡ c)
    → first % 4 ≡ 1
    → strip_prefix claim_note_path_prefix (trim_end_matches is_nul full) ≡ none
unfolding strip_prefix trim_end_matches
after_prefix-none first [] head odd = refl
after_prefix-none first (c ∷ cs) head odd = elim (Bool-cases (b'n' == c)) [
  | inr other ↦ ground arith
  | inl same ↦
      let c_n : c ≡ b'n' = ground arith in
      let first_c = head c cs refl (omega arith) in absurd (omega arith)
]

claim_name-none :
    (first : ℕ) (rest : Bytes) → first % 4 ≡ 1 → claim_name_from_path_inner (first ∷ rest) ≡ none
unfolding claim_name_from_path_inner
claim_name-none first rest odd = elim (Option-cases (from_utf8 (first ∷ rest))) [
  | inl e ↦ rw e refl
  | inr (full, e) ↦
      let no_prefix =
        after_prefix-none first full
          (λ c cs same small. from_utf8-ascii first rest c cs (e ∙ ap some same) small) odd in
      rw (e, no_prefix) refl
]

module _ ⦃lib : NounLib⦄ where
  cord_field-make_cord : (s : Str) → IsCord s → cord_field (make_cord s) ≡ ok s
  unfolding cord_field
  cord_field-make_cord s c = rw (as_cord-make_cord s c) refl

  from_tuple_jam-jam_tuple :
      (note : ClaimNoteV1) → IsNote note → from_tuple_jam (jam_tuple note) ≡ ok note
  unfolding from_tuple_jam jam_tuple uncons
  from_tuple_jam-jam_tuple note c =
      rw
        (
          lib.cue-jam _,
          cord_field-make_cord note.name c.name_cord,
          cord_field-make_cord note.owner c.owner_cord,
          cord_field-make_cord note.tx_hash c.tx_hash_cord,
        )
        refl

  from_inner-jam_tuple : (note : ClaimNoteV1) → IsNote note → from_inner (jam_tuple note) ≡ ok note
  unfolding jam_tuple from_inner
  from_inner-jam_tuple note c =
      let (first, rest, e, odd) =
        lib.jam-cell (make_cord note.name) (make_cord note.owner ⸬ make_cord note.tx_hash) in
      let no_path : claim_name_from_path_inner (jam_tuple note) ≡ none =
        ap claim_name_from_path_inner e ∙ claim_name-none first rest odd in
      rw (from_inner, path_or_tuple, no_path) (from_tuple_jam-jam_tuple note c)

  -- The note that the wallet packs is the note that the follower reads, if its fields are text
  -- that a cord keeps and its jam has at most 256 KiB.
  pub from_wallet_packed_blob_wire-pack :
      ⦃belt : BeltLib⦄ (note : ClaimNoteV1)
      → IsNote note
      → length (jam_tuple note) ≤ max_blob_payload_bytes
      → from_wallet_packed_blob_wire (pack_wallet_blob_jam (jam_tuple note)) ≡ ok note
  unfolding jam_tuple from_wallet_packed_blob_wire
  from_wallet_packed_blob_wire-pack note c l =
      rw (from_wallet_packed_blob_wire, unpack-pack (jam_tuple note) (lib.jam-IsByte _) l)
        (from_inner-jam_tuple note c)
