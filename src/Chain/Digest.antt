-- ===== src/Chain/Digest.antt =====
-- Tip5 digests as atoms: 40 bytes, five little-endian 64-bit limbs.
pub mod SameValue
pub mod RoundTrip
use nns.Base.{
  Bool, List, Option, [], drop, if◌then◌else◌, length, none, not, replicate, some, suc, take, zero,
  ℕ, ◌%◌, ◌&&◌, ◌++◌, ◌/◌, ◌==◌, ◌=?◌, ◌∷◌,
}
use nns.Base.Result.{Result, both, collect, err, map_err, ok, text, text_num, text_str, ◌>>=◌}
use nns.Base.Text.{Bytes, Str}
use nns.Noun.{le_value}
use nns.Payment.{Tip5Hash, TxLib}
use nns.Rpc.{BlockDetails, PbHash}

-- `v.to_le_bytes()`, as many bytes as asked for
abbrev pub le_bytes : ℕ → ℕ → Bytes
le_bytes zero v = []
le_bytes (suc k) v = v % 256 ∷ le_bytes k (v / 256)

-- limb `i` is `u64::from_le_bytes` of the bytes from `8 * i` on
abbrev pub words : ℕ → Bytes → List ℕ
words zero bs = []
words (suc k) bs = le_value (take 8 bs) ∷ words k (drop 8 bs)

abbrev pub belt_value : Option ℕ → ℕ
belt_value none = 0
belt_value (some v) = v

unfoldable pub hash_to_atom_bytes : PbHash → Bytes
hash_to_atom_bytes h =
    le_bytes 8 (belt_value h.belt_1)
    ++ le_bytes 8 (belt_value h.belt_2)
    ++ le_bytes 8 (belt_value h.belt_3)
    ++ le_bytes 8 (belt_value h.belt_4)
    ++ le_bytes 8 (belt_value h.belt_5)

-- zero bytes up to 40, and no byte after them
abbrev pub padded_40 : Bytes → Bytes
padded_40 s = take 40 (take 40 s ++ replicate 40 0)

abbrev pub five_limbs : Bytes → List ℕ
five_limbs s = words 5 (padded_40 s)

unfoldable pub tip5_atom_semantic_eq : Bytes → Bytes → Bool
unfolding ◌=?◌
tip5_atom_semantic_eq a b = five_limbs a =? five_limbs b

unfoldable pub scan_cursor_is_genesis_boot : ℕ → Bytes → Bool
unfolding tip5_atom_semantic_eq
scan_cursor_is_genesis_boot last_proved_height last_proved_digest =
    last_proved_height == 0 && tip5_atom_semantic_eq last_proved_digest (replicate 40 0)

unfoldable pub atom_bytes_to_hash : Bytes → Option PbHash
atom_bytes_to_hash bytes =
    if not (length bytes == 40)
    then none
    else some (record {
      belt_1 = some (le_value (take 8 bytes));
      belt_2 = some (le_value (take 8 (drop 8 bytes)));
      belt_3 = some (le_value (take 8 (drop 16 bytes)));
      belt_4 = some (le_value (take 8 (drop 24 bytes)));
      belt_5 = some (le_value (take 8 (drop 32 bytes)));
    })

unfoldable pub tx_atom_bytes_to_tip5_hash : Bytes → Result Tip5Hash
tx_atom_bytes_to_tip5_hash bytes =
    if not (length bytes == 40)
    then err (text_num "tx-id atom must be 40 bytes (5×u64 LE), got " (length bytes))
    else ok (record {
      limb_0 = le_value (take 8 bytes);
      limb_1 = le_value (take 8 (drop 8 bytes));
      limb_2 = le_value (take 8 (drop 16 bytes));
      limb_3 = le_value (take 8 (drop 24 bytes));
      limb_4 = le_value (take 8 (drop 32 bytes));
    })

unfoldable pub tip5_hash_to_tx_atom_bytes : Tip5Hash → Bytes
tip5_hash_to_tx_atom_bytes h =
    le_bytes 8 h.limb_0
    ++ le_bytes 8 h.limb_1
    ++ le_bytes 8 h.limb_2
    ++ le_bytes 8 h.limb_3
    ++ le_bytes 8 h.limb_4

module _ ⦃tx : TxLib⦄ where
  unfoldable pub base58_hash_to_atom_bytes : Str → Result Bytes
  unfolding tip5_hash_to_tx_atom_bytes
  base58_hash_to_atom_bytes value = do
    hash ←
        map_err (tx.from_base58 value)
          λ e. both (text_str "invalid base58 Tip5 hash " value) (both (text ": ") e)
    ok (tip5_hash_to_tx_atom_bytes hash)

  unfoldable pub tx_ids_from_block_details : BlockDetails → Result (List Bytes)
  unfolding base58_hash_to_atom_bytes
  tx_ids_from_block_details details = collect base58_hash_to_atom_bytes details.tx_ids
