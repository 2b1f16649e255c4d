-- ===== src/Tests/Codecs.antt =====
-- Text, nouns, hexadecimal text, blobs, notes and digests.
use nns.Base.{
  All, [], arith, length, refl, replicate, take, true, ◌*◌, ◌-◌, ◌^◌, ◌↔◌, ◌∷◌, ◌≡◌, ◌≤◌,
}
use nns.Base.Result.{ok}
use nns.Base.Slices.{All-replicate}
use nns.Base.Strings.{trim_end_matches}
use nns.Base.Text.{Bytes, Str, codes, utf8}
use nns.Chain.Digest.{tip5_atom_semantic_eq, tip5_hash_to_tx_atom_bytes, tx_atom_bytes_to_tip5_hash}
use nns.Chain.Digest.RoundTrip.{tip5_hash-tx_atom_bytes, tx_atom_bytes-tip5_hash}
use nns.Chain.Digest.SameValue.{tip5_atom_semantic_eq_iff}
use nns.Claim.{ClaimNoteV1, from_wallet_packed_blob_wire, jam_tuple}
use nns.Claim.RoundTrip.{IsNote, from_wallet_packed_blob_wire-pack}
use nns.Formula.{banned_head, walk}
use nns.Formula.Banned.{BannedCell, walk_iff}
use nns.Hex.{hex_decode_even, hex_encode}
use nns.Hex.RoundTrip.{hex_decode_even-hex_encode}
use nns.Noun.{IsByte, Noun, as_cord, as_u64, atom, le_value, make_cord, ◌⸬◌}
use nns.Noun.Cord.{IsCord, as_cord-make_cord}
use nns.Packed.{max_blob_payload_bytes, pack_wallet_blob_jam, unpack_wallet_blob_jam}
use nns.Packed.RoundTrip.{unpack-pack}
use nns.Payment.{IsU64, Tip5Hash, limbs}
use nns.Samples.Belts.{sample_belts}
use nns.Samples.Nouns.{sample_nouns}

abbrev three_bytes : Bytes
three_bytes = 0 ∷ 171 ∷ 255 ∷ []

three_bytes-IsByte : All IsByte three_bytes
three_bytes-IsByte = (omega arith, (omega arith, (omega arith, tt)))

hex_decode_even-hex_encode_example :
    (hex_decode_even (hex_encode three_bytes) ≡ ok three_bytes)
    × (length (hex_encode three_bytes) ≡ 2 * length three_bytes)
hex_decode_even-hex_encode_example = hex_decode_even-hex_encode three_bytes three_bytes-IsByte

hex_of_three : hex_encode three_bytes ≡ codes "00abff"
unfolding hex_encode
hex_of_three = refl

abbrev foo : Str
foo = codes "foo"

foo-IsCord : IsCord foo
unfolding trim_end_matches
foo-IsCord = record { scalars = (refl, (refl, (refl, tt))); trimmed = refl }

as_cord-make_cord_example : as_cord (make_cord foo) ≡ ok foo
as_cord-make_cord_example = as_cord-make_cord foo foo-IsCord

unpack-pack_example :
    unpack_wallet_blob_jam ⦃belt = sample_belts⦄ (pack_wallet_blob_jam three_bytes) ≡ ok three_bytes
unpack-pack_example = unpack-pack three_bytes three_bytes-IsByte (omega arith)

abbrev foo_note : ClaimNoteV1
foo_note = record { name = foo; owner = foo; tx_hash = foo }

foo_note-IsNote : IsNote foo_note
foo_note-IsNote = record {
  name_cord = foo-IsCord;
  owner_cord = foo-IsCord;
  tx_hash_cord = foo-IsCord;
}

foo_note-short : length (jam_tuple foo_note) ≤ max_blob_payload_bytes
unfolding jam_tuple sample_nouns utf8
foo_note-short = omega arith

from_wallet_packed_blob_wire-pack_example :
    from_wallet_packed_blob_wire ⦃belt = sample_belts⦄ (pack_wallet_blob_jam (jam_tuple foo_note))
    ≡ ok foo_note
from_wallet_packed_blob_wire-pack_example =
    from_wallet_packed_blob_wire-pack foo_note foo_note-IsNote foo_note-short

abbrev seven : Tip5Hash
seven = record { limb_0 = 7; limb_1 = 300; limb_2 = 0; limb_3 = 2 ^ 64 - 1; limb_4 = 1 }

seven-IsU64 : All IsU64 (limbs seven)
seven-IsU64 = (omega arith, (omega arith, (omega arith, (omega arith, (omega arith, tt)))))

tx_atom_bytes-tip5_hash_example :
    tx_atom_bytes_to_tip5_hash (tip5_hash_to_tx_atom_bytes seven) ≡ ok seven
tx_atom_bytes-tip5_hash_example = tx_atom_bytes-tip5_hash seven seven-IsU64

abbrev forty_zeros : Bytes
forty_zeros = replicate 40 0

zeros-IsByte : All IsByte forty_zeros
zeros-IsByte = All-replicate IsByte 40 0 (omega arith)

abbrev zero_hash : Tip5Hash
zero_hash = record { limb_0 = 0; limb_1 = 0; limb_2 = 0; limb_3 = 0; limb_4 = 0 }

zeros-hash : tx_atom_bytes_to_tip5_hash forty_zeros ≡ ok zero_hash
unfolding tx_atom_bytes_to_tip5_hash
zeros-hash = refl

tip5_hash-tx_atom_bytes_example : tip5_hash_to_tx_atom_bytes zero_hash ≡ forty_zeros
tip5_hash-tx_atom_bytes_example =
    tip5_hash-tx_atom_bytes forty_zeros zero_hash zeros-IsByte zeros-hash

tip5_atom_semantic_eq_iff_example :
    (tip5_atom_semantic_eq [] forty_zeros ≡ true)
    ↔ (le_value (take 40 []) ≡ le_value (take 40 forty_zeros))
tip5_atom_semantic_eq_iff_example = tip5_atom_semantic_eq_iff [] forty_zeros tt zeros-IsByte

abbrev slam : Noun
slam = atom 1 ⸬ atom 9 ⸬ atom 2

walk_iff_example : (walk slam ≡ true) ↔ BannedCell slam
walk_iff_example = walk_iff slam

walk-slam : walk slam ≡ true
unfolding walk banned_head as_u64
walk-slam = refl
