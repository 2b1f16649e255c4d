-- ===== src/Packed.antt =====
-- src/packed_blob.rs: note-data values as the wallet packs them, a byte count and 32-bit limbs.
-- Belts and their lists as nouns are nockchain_math's and noun_serde's: the record `BeltLib`.
pub mod RoundTrip
use nns.Base.{
  All, List, Option, [], if◌then◌else◌, length, ltb, none, not, replicate, some, suc, take, ℕ, ◌*◌,
  ◌++◌, ◌+◌, ◌/◌, ◌==◌, ◌∷◌, ◌≡◌,
}
use nns.Base.Result.{Result, err, ok, ok_or, or_context, text, ◌>>=◌}
use nns.Base.Text.{Bytes}
use nns.Kernel.Effects.{payload}
use nns.Noun.{IsByte, Noun, NounLib}

abbrev pub max_blob_payload_bytes : ℕ
max_blob_payload_bytes = 256 * 1024

-- `Vec::<Belt>::from_noun` and `to_noun`, `Belt::to_le_bytes` and `from_le_bytes`: four bytes in
-- a belt, and zero bytes that fill the last one.
pub record BeltLib : Type 0 where
  pub belts_from_noun : Noun → Result (List ℕ)
  pub belts_to_noun : List ℕ → Noun
  pub belts_to_le_bytes : List ℕ → Result Bytes
  pub belts_from_le_bytes : Bytes → List ℕ
  pub belts_from_noun-belts_to_noun : (bs : List ℕ) → belts_from_noun (belts_to_noun bs) ≡ ok bs
  pub length-belts_from_le_bytes :
      (bs : Bytes) → length (belts_from_le_bytes bs) ≡ (length bs + 3) / 4
  pub to_le_bytes-from_le_bytes :
      (bs : Bytes)
      → All IsByte bs
      → (fill : ℕ) × (belts_to_le_bytes (belts_from_le_bytes bs) ≡ ok (bs ++ replicate fill 0))

module _ ⦃belt : BeltLib⦄ where
  -- a `u64` always fits in a `usize` of 64 bits
  unfoldable pub decode_len_prefixed_blob : List ℕ → Option Bytes
  decode_len_prefixed_blob [] = none
  decode_len_prefixed_blob (byte_len ∷ belts) =
      if ltb max_blob_payload_bytes byte_len
      then none
      else if not (suc (length belts) == 1 + (byte_len + 3) / 4)
      then none
      else elim (belt.belts_to_le_bytes belts) [
        | err e ↦ none
        | ok body ↦ if ltb (length body) byte_len then none else some (take byte_len body)
      ]

module _ ⦃belt : BeltLib⦄ ⦃lib : NounLib⦄ where
  unfoldable pub unpack_wallet_blob_jam : Bytes → Result Bytes
  unfolding decode_len_prefixed_blob
  unpack_wallet_blob_jam jam = do
    noun ← ok_or (lib.cue jam) (text "cue blob jam")
    belts ← or_context (belt.belts_from_noun noun) "blob belt list noun"
    ok_or (decode_len_prefixed_blob belts) (text "invalid length-prefixed packed blob")

  abbrev encode_blob_belts : Bytes → List ℕ
  encode_blob_belts bytes = length bytes ∷ belt.belts_from_le_bytes bytes

  unfoldable pub pack_wallet_blob_jam : Bytes → Bytes
  pack_wallet_blob_jam payload = lib.jam (belt.belts_to_noun (encode_blob_belts payload))
