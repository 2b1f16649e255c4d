-- ===== src/Chain/Digest/RoundTrip.antt =====
-- A digest as bytes and back.
use mathlib.Core.Path.{ap₂}
use nns.Base.{
  All, Bool-cases, [], ap, arith, drop, inl, inr, length, refl, suc, sym, take, zero, ℕ, ◌%◌, ◌*◌,
  ◌++◌, ◌+◌, ◌/◌, ◌<◌, ◌==◌, ◌^◌, ◌∙◌, ◌∷◌, ◌≡◌, ◌≤◌,
}
use nns.Base.Result.{ok, ok-injective}
use nns.Base.Slices.{
  All-drop, All-take, drop-drop, length-drop, length-take, take-append-drop, take_all,
}
use nns.Base.Text.{Bytes}
use nns.Chain.Digest.{le_bytes, tip5_hash_to_tx_atom_bytes, tx_atom_bytes_to_tip5_hash}
use nns.Noun.{IsByte, le_value}
use nns.Payment.{IsU64, Tip5Hash, limbs}

le_value-le_bytes : (k v : ℕ) → v < 256 ^ k → le_value (le_bytes k v) ≡ v
le_value-le_bytes zero v h = omega arith
le_value-le_bytes (suc k) v h =
    let small : v / 256 < 256 ^ k = omega arith in
    omega (arith, le_value-le_bytes k (v / 256) small)

pub le_bytes-le_value : (bs : Bytes) → All IsByte bs → le_bytes (length bs) (le_value bs) ≡ bs
le_bytes-le_value [] h = refl
le_bytes-le_value (b ∷ bs) h =
    let low : (b + 256 * le_value bs) % 256 ≡ b = omega arith in
    let high : (b + 256 * le_value bs) / 256 ≡ le_value bs = omega arith in
    rw (low, high) (ap (◌∷◌ b) (le_bytes-le_value bs h.1))

-- A digest is written as 40 bytes, whatever its limbs are.
length-tip5_hash_to_tx_atom_bytes : (h : Tip5Hash) → length (tip5_hash_to_tx_atom_bytes h) ≡ 40
unfolding tip5_hash_to_tx_atom_bytes
length-tip5_hash_to_tx_atom_bytes h = refl

-- A digest with limbs of 64 bits is read back from its bytes.
pub tx_atom_bytes-tip5_hash :
    (h : Tip5Hash)
    → All IsU64 (limbs h)
    → tx_atom_bytes_to_tip5_hash (tip5_hash_to_tx_atom_bytes h) ≡ ok h
unfolding tx_atom_bytes_to_tip5_hash tip5_hash_to_tx_atom_bytes
tx_atom_bytes-tip5_hash h u =
    rw
      (
        le_value-le_bytes 8 h.limb_0 u.0,
        le_value-le_bytes 8 h.limb_1 u.1.0,
        le_value-le_bytes 8 h.limb_2 u.1.1.0,
        le_value-le_bytes 8 h.limb_3 u.1.1.1.0,
        le_value-le_bytes 8 h.limb_4 u.1.1.1.1.0,
      )
      refl

le_bytes-take :
    (bs : Bytes) → All IsByte bs → 8 ≤ length bs → le_bytes 8 (le_value (take 8 bs)) ≡ take 8 bs
le_bytes-take bs h l =
    let eight : length (take 8 bs) ≡ 8 = omega (arith, length-take 8 bs) in
    ap (λ (n : ℕ). le_bytes n (le_value (take 8 bs))) (sym eight)
    ∙ le_bytes-le_value (take 8 bs) (All-take IsByte 8 bs h)

-- the 8 bytes at an offset, with the bytes after them
chunk :
    (n : ℕ) (bs : Bytes)
    → All IsByte bs
    → n + 8 ≤ length bs
    → le_bytes 8 (le_value (take 8 (drop n bs))) ++ drop (n + 8) bs ≡ drop n bs
chunk n bs h l =
    ap₂ ◌++◌ (le_bytes-take (drop n bs) (All-drop IsByte n bs h) (omega (arith, length-drop n bs)))
      (sym (drop-drop n 8 bs))
    ∙ take-append-drop 8 (drop n bs)

last_chunk :
    (bs : Bytes)
    → All IsByte bs
    → length bs ≡ 40
    → le_bytes 8 (le_value (take 8 (drop 32 bs))) ≡ drop 32 bs
last_chunk bs h l =
    le_bytes-take (drop 32 bs) (All-drop IsByte 32 bs h) (omega (arith, length-drop 32 bs))
    ∙ take_all 8 (drop 32 bs) (omega (arith, length-drop 32 bs))

-- Bytes that are read as a digest are the bytes that the digest is written as.
pub tip5_hash-tx_atom_bytes :
    (bs : Bytes) (h : Tip5Hash)
    → All IsByte bs
    → tx_atom_bytes_to_tip5_hash bs ≡ ok h
    → tip5_hash_to_tx_atom_bytes h ≡ bs
unfolding tx_atom_bytes_to_tip5_hash tip5_hash_to_tx_atom_bytes
tip5_hash-tx_atom_bytes bs h bytes e = elim (Bool-cases (length bs == 40)) [
  | inr other ↦ cc (rw other at e)
  | inl same ↦
      let l : length bs ≡ 40 = ground arith in
      let of_ok = ok-injective (rw same at e) in
      ap tip5_hash_to_tx_atom_bytes (sym of_ok)
      ∙ ap
          (λ (t : Bytes).
            le_bytes 8 (le_value (take 8 bs))
            ++ le_bytes 8 (le_value (take 8 (drop 8 bs)))
            ++ le_bytes 8 (le_value (take 8 (drop 16 bs)))
            ++ le_bytes 8 (le_value (take 8 (drop 24 bs)))
            ++ t)
          (last_chunk bs bytes l)
      ∙ ap
          (λ (t : Bytes).
            le_bytes 8 (le_value (take 8 bs))
            ++ le_bytes 8 (le_value (take 8 (drop 8 bs)))
            ++ le_bytes 8 (le_value (take 8 (drop 16 bs)))
            ++ t)
          (chunk 24 bs bytes (omega arith))
      ∙ ap
          (λ (t : Bytes).
            le_bytes 8 (le_value (take 8 bs)) ++ le_bytes 8 (le_value (take 8 (drop 8 bs))) ++ t)
          (chunk 16 bs bytes (omega arith))
      ∙ ap (λ (t : Bytes). le_bytes 8 (le_value (take 8 bs)) ++ t) (chunk 8 bs bytes (omega arith))
      ∙ chunk 0 bs bytes (omega arith)
]
