-- ===== src/Noun/LeBytes.antt =====
-- Little-endian bytes: two byte strings of one value differ in zero bytes at their ends only.
use nns.Base.{
  All, Bool-cases, [], ap, arith, inl, inr, is_empty, length, refl, replicate, suc, sym, take, zero,
  ℕ, ◌++◌, ◌==◌, ◌∙◌, ◌∷◌, ◌≡◌,
}
use nns.Base.Strings.{trim_end_matches}
use nns.Base.Text.{Bytes}
use nns.Noun.{IsByte, Noun, NounLib, atom, is_nul, le_value, make_atom}

le_value-zero : (bs : Bytes) → le_value bs ≡ 0 → trim_end_matches is_nul bs ≡ []
unfolding trim_end_matches
le_value-zero [] h = refl
le_value-zero (b ∷ bs) h = ground (arith, le_value-zero bs)

-- The value determines the bytes, up to zero bytes at the end.
pub le_value-trimmed :
    (xs ys : Bytes)
    → All IsByte xs
    → All IsByte ys
    → le_value xs ≡ le_value ys
    → trim_end_matches is_nul xs ≡ trim_end_matches is_nul ys
unfolding trim_end_matches
le_value-trimmed [] ys hx hy h = sym (le_value-zero ys (sym h))
le_value-trimmed (x ∷ xs) [] hx hy h = le_value-zero (x ∷ xs) h
le_value-trimmed (x ∷ xs) (y ∷ ys) hx hy h =
    let e : x ≡ y = omega arith in rw (e, le_value-trimmed xs ys hx.1 hy.1 (omega arith))

-- At one length the value determines the bytes.
pub le_value-injective :
    (xs ys : Bytes)
    → All IsByte xs
    → All IsByte ys
    → length xs ≡ length ys
    → le_value xs ≡ le_value ys
    → xs ≡ ys
le_value-injective [] [] hx hy l h = refl
le_value-injective [] (y ∷ ys) hx hy l h = absurd (omega arith)
le_value-injective (x ∷ xs) [] hx hy l h = absurd (omega arith)
le_value-injective (x ∷ xs) (y ∷ ys) hx hy l h =
    ground (arith, le_value-injective xs ys hx.1 hy.1 (omega arith) (omega arith))

-- What the trimming takes away are zero bytes.
pub trim-append-replicate :
    (xs : Bytes) → (k : ℕ) × (xs ≡ trim_end_matches is_nul xs ++ replicate k 0)
unfolding trim_end_matches
trim-append-replicate [] = (0, refl)
trim-append-replicate (x ∷ xs) =
    let (k, e) = trim-append-replicate xs in
    elim (Bool-cases (x == 0)) [
      | inl z ↦ elim (Bool-cases (is_empty (trim_end_matches is_nul xs))) [
        | inl emp ↦ (suc k, ground arith)
        | inr full ↦ (k, ground arith)
      ]
      | inr nz ↦ (k, ground arith)
    ]

atom_value : Noun → ℕ
atom_value (atom n) = n
atom_value _ = 0

module _ ⦃lib : NounLib⦄ where
  -- Atoms made of byte strings of one length are equal only if the byte strings are.
  pub make_atom-injective :
      (xs ys : Bytes)
      → All IsByte xs
      → All IsByte ys
      → length xs ≡ length ys
      → make_atom xs ≡ make_atom ys
      → xs ≡ ys
  unfolding atom_value
  make_atom-injective xs ys hx hy l h =
      le_value-injective xs ys hx hy l
        (sym (lib.le_value-from_le_bytes xs) ∙ ap atom_value h ∙ lib.le_value-from_le_bytes ys)

le_value-take-nil : (n : ℕ) → le_value (take n []) ≡ 0
le_value-take-nil zero = refl
le_value-take-nil (suc n) = refl

-- Strings with one value differ only in the zero bytes at their ends, so their beginnings have one
-- value too.
pub le_value-take :
    (n : ℕ) (xs ys : Bytes)
    → All IsByte xs
    → All IsByte ys
    → le_value xs ≡ le_value ys
    → le_value (take n xs) ≡ le_value (take n ys)
le_value-take zero xs ys hx hy e = refl
le_value-take (suc n) [] [] hx hy e = refl
le_value-take (suc n) [] (y ∷ ys) hx hy e =
    omega (arith, le_value-take-nil n, le_value-take n [] ys tt hy.1 (omega arith))
le_value-take (suc n) (x ∷ xs) [] hx hy e =
    omega (arith, le_value-take-nil n, le_value-take n xs [] hx.1 tt (omega arith))
le_value-take (suc n) (x ∷ xs) (y ∷ ys) hx hy e =
    omega (arith, hx.0, hy.0, le_value-take n xs ys hx.1 hy.1 (omega arith))
