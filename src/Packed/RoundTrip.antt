-- ===== src/Packed/RoundTrip.antt =====
-- What the wallet packs is unpacked.
use nns.Base.{
  All, [], ap, arith, false, length, length-append, ltb, refl, replicate, some, suc, take, true,
  ◌++◌, ◌+◌, ◌/◌, ◌==◌, ◌∷◌, ◌≡◌, ◌≤◌,
}
use nns.Base.Result.{ok}
use nns.Base.Text.{Bytes}
use nns.Kernel.Effects.{payload}
use nns.Noun.{IsByte, NounLib}
use nns.Packed.{
  BeltLib, decode_len_prefixed_blob, max_blob_payload_bytes, pack_wallet_blob_jam,
  unpack_wallet_blob_jam,
}

take-append : (xs ys : Bytes) → take (length xs) (xs ++ ys) ≡ xs
take-append [] ys = refl
take-append (x ∷ xs) ys = ap (◌∷◌ x) (take-append xs ys)

module _ ⦃belt : BeltLib⦄ where
  decode-encode :
      (payload : Bytes)
      → All IsByte payload
      → length payload ≤ max_blob_payload_bytes
      → decode_len_prefixed_blob (length payload ∷ belt.belts_from_le_bytes payload) ≡ some payload
  unfolding decode_len_prefixed_blob
  decode-encode payload bytes h =
      let (fill, e) = belt.to_le_bytes-from_le_bytes payload bytes in
      let l = belt.length-belts_from_le_bytes payload in
      let small : ltb max_blob_payload_bytes (length payload) ≡ false = ground arith in
      let same : (suc (length (belt.belts_from_le_bytes payload)) == 1 + (length payload + 3) / 4)
          ≡ true =
        ground arith in
      let enough : ltb (length (payload ++ replicate fill 0)) (length payload) ≡ false =
        ground (arith, length-append payload (replicate fill 0)) in
      rw (small, same, e, enough) (ap some (take-append payload (replicate fill 0)))

  -- Unpacking what was packed gives the payload back, if it is a byte string of at most 256 KiB.
  pub unpack-pack :
      ⦃lib : NounLib⦄ (payload : Bytes)
      → All IsByte payload
      → length payload ≤ max_blob_payload_bytes
      → unpack_wallet_blob_jam (pack_wallet_blob_jam payload) ≡ ok payload
  unfolding unpack_wallet_blob_jam pack_wallet_blob_jam
  unpack-pack ⦃lib = lib⦄ payload bytes h =
      rw (lib.cue-jam _, belt.belts_from_noun-belts_to_noun _, decode-encode payload bytes h)
