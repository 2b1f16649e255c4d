-- ===== src/Chain/Digest/SameValue.antt =====
-- When two digests count as equal.
use mathlib.Core.Path.{ap₂}
use nns.Base.{
  =?_iff, All, List, [], ap, arith, drop, length, length-append, length-replicate, refl, replicate,
  suc, sym, take, true, zero, ℕ, ◌*◌, ◌++◌, ◌↔◌, ◌∙◌, ◌∷◌, ◌≡◌,
}
use nns.Base.Slices.{
  All-append, All-drop, All-replicate, All-take, length-drop, length-take, take-append-drop,
}
use nns.Base.Text.{Bytes}
use nns.Chain.Digest.{five_limbs, padded_40, tip5_atom_semantic_eq, words}
use nns.Noun.{IsByte, le_value}
use nns.Noun.LeBytes.{le_value-injective}

∷-injective : {x y : ℕ} {xs ys : List ℕ} → x ∷ xs ≡ y ∷ ys → (x ≡ y) × (xs ≡ ys)
∷-injective h = (cc, cc)

-- the limbs determine the bytes
words-injective :
    (k : ℕ) (bs cs : Bytes)
    → All IsByte bs
    → All IsByte cs
    → length bs ≡ 8 * k
    → length cs ≡ 8 * k
    → words k bs ≡ words k cs
    → bs ≡ cs
words-injective zero [] [] hb hc lb lc e = refl
words-injective zero (b ∷ bs) cs hb hc lb lc e = absurd (omega arith)
words-injective zero [] (c ∷ cs) hb hc lb lc e = absurd (omega arith)
words-injective (suc k) bs cs hb hc lb lc e =
    let (first, others) = ∷-injective e in
    let front : take 8 bs ≡ take 8 cs =
      le_value-injective (take 8 bs) (take 8 cs) (All-take IsByte 8 bs hb) (All-take IsByte 8 cs hc)
        (omega (arith, length-take 8 bs, length-take 8 cs)) first in
    let back : drop 8 bs ≡ drop 8 cs =
      words-injective k (drop 8 bs) (drop 8 cs) (All-drop IsByte 8 bs hb) (All-drop IsByte 8 cs hc)
        (omega (arith, length-drop 8 bs)) (omega (arith, length-drop 8 cs)) others in
    sym (take-append-drop 8 bs) ∙ ap₂ ◌++◌ front back ∙ take-append-drop 8 cs

le_value-zeros : (m r : ℕ) → le_value (take m (replicate r 0)) ≡ 0
le_value-zeros zero r = refl
le_value-zeros (suc m) zero = refl
le_value-zeros (suc m) (suc r) = omega (arith, le_value-zeros m r)

le_value-fill :
    (n r : ℕ) (s : Bytes) → le_value (take n (take n s ++ replicate r 0)) ≡ le_value (take n s)
le_value-fill zero r s = refl
le_value-fill (suc n) r [] = le_value-zeros (suc n) r
le_value-fill (suc n) r (x ∷ xs) = omega (arith, le_value-fill n r xs)

length-padded_40 : (s : Bytes) → length (padded_40 s) ≡ 40
length-padded_40 s = omega (
  arith,
  length-take 40 (take 40 s ++ replicate 40 0),
  length-append (take 40 s) (replicate 40 0),
  length-replicate {A = ℕ} 40 0,
)

padded_40-IsByte : (s : Bytes) → All IsByte s → All IsByte (padded_40 s)
padded_40-IsByte s h = All-take IsByte 40 _ (
    All-append IsByte (take 40 s) _ (All-take IsByte 40 s h)
      (All-replicate IsByte 40 0 (omega arith)))

-- Two byte strings count as the same digest exactly if their first 40 bytes have the same value as
-- little-endian numbers, so the zero bytes that one of them lacks at its end do not count.
pub tip5_atom_semantic_eq_iff :
    (a b : Bytes)
    → All IsByte a
    → All IsByte b
    → (tip5_atom_semantic_eq a b ≡ true) ↔ (le_value (take 40 a) ≡ le_value (take 40 b))
unfolding tip5_atom_semantic_eq
tip5_atom_semantic_eq_iff a b ha hb =
    let pa = padded_40-IsByte a ha in
    let pb = padded_40-IsByte b hb in
    let la = length-padded_40 a in
    let lb = length-padded_40 b in
    let limbs_eq = =?_iff (five_limbs a) (five_limbs b) in
    (
      λ e.
          let same = words-injective 5 (padded_40 a) (padded_40 b) pa pb la lb (limbs_eq.0 e) in
          sym (le_value-fill 40 40 a) ∙ ap le_value same ∙ le_value-fill 40 40 b,
      λ e.
          let same =
            le_value-injective (padded_40 a) (padded_40 b) pa pb (la ∙ sym lb)
              (le_value-fill 40 40 a ∙ e ∙ sym (le_value-fill 40 40 b)) in
          limbs_eq.1 (ap (words 5) same),
    )
