-- ===== src/Samples/Belts.antt =====
-- nockchain_math's part: four bytes in a belt.
use mathlib.Core.Path.{ap₂}
use nns.Base.{All, List, [], ap, arith, length, refl, replicate, ℕ, ◌++◌, ◌+◌, ◌/◌, ◌∙◌, ◌∷◌, ◌≡◌}
use nns.Base.Result.{Result, err, ok, text, ◌>>=◌}
use nns.Base.Text.{Bytes}
use nns.Chain.Digest.{le_bytes}
use nns.Chain.Digest.RoundTrip.{le_bytes-le_value}
use nns.Noun.{IsByte, Noun, atom, le_value, ◌⸬◌}
use nns.Packed.{BeltLib}

unfoldable pub to_belts : Bytes → List ℕ
to_belts (a ∷ b ∷ c ∷ d ∷ rest) = le_value (a ∷ b ∷ c ∷ d ∷ []) ∷ to_belts rest
to_belts [] = []
to_belts short = le_value short ∷ []

unfoldable pub of_belts : List ℕ → Bytes
of_belts [] = []
of_belts (v ∷ vs) = le_bytes 4 v ++ of_belts vs

pub length-to_belts : (bs : Bytes) → length (to_belts bs) ≡ (length bs + 3) / 4
unfolding to_belts
length-to_belts (a ∷ b ∷ c ∷ d ∷ rest) = omega (arith, length-to_belts rest)
length-to_belts [] = refl
length-to_belts (a ∷ []) = refl
length-to_belts (a ∷ b ∷ []) = refl
length-to_belts (a ∷ b ∷ c ∷ []) = refl

-- four bytes are read back
four :
    (a b c d : ℕ)
    → IsByte a
    → IsByte b
    → IsByte c
    → IsByte d
    → le_bytes 4 (le_value (a ∷ b ∷ c ∷ d ∷ [])) ≡ a ∷ b ∷ c ∷ d ∷ []
four a b c d ha hb hc hd = le_bytes-le_value (a ∷ b ∷ c ∷ d ∷ []) (ha, (hb, (hc, (hd, tt))))

pub of_belts-to_belts :
    (bs : Bytes) → All IsByte bs → (fill : ℕ) × (of_belts (to_belts bs) ≡ bs ++ replicate fill 0)
unfolding of_belts to_belts
of_belts-to_belts (a ∷ b ∷ c ∷ d ∷ rest) h =
    let (fill, e) = of_belts-to_belts rest h.1.1.1.1 in
    (fill, ap₂ ◌++◌ (four a b c d h.0 h.1.0 h.1.1.0 h.1.1.1.0) e)
of_belts-to_belts [] h = (0, refl)
of_belts-to_belts (a ∷ []) h = (
  3,
  ap (λ (t : Bytes). t ++ [])
      (ap (le_bytes 4) (omega arith) ∙ four a 0 0 0 h.0 (omega arith) (omega arith) (omega arith)),
)
of_belts-to_belts (a ∷ b ∷ []) h = (
  2,
  ap (λ (t : Bytes). t ++ [])
      (ap (le_bytes 4) (omega arith) ∙ four a b 0 0 h.0 h.1.0 (omega arith) (omega arith)),
)
of_belts-to_belts (a ∷ b ∷ c ∷ []) h = (
  1,
  ap (λ (t : Bytes). t ++ [])
      (ap (le_bytes 4) (omega arith) ∙ four a b c 0 h.0 h.1.0 h.1.1.0 (omega arith)),
)

unfoldable pub belt_nouns : List ℕ → Noun
belt_nouns [] = atom 0
belt_nouns (v ∷ vs) = atom v ⸬ belt_nouns vs

unfoldable pub belts_of : Noun → Result (List ℕ)
belts_of (atom n) = ok []
belts_of (atom v ⸬ rest) = belts_of rest >>= λ vs. ok (v ∷ vs)
belts_of ((a ⸬ b) ⸬ rest) = err (text "belt is a cell")

pub belts_of-belt_nouns : (vs : List ℕ) → belts_of (belt_nouns vs) ≡ ok vs
unfolding belts_of belt_nouns
belts_of-belt_nouns [] = refl
belts_of-belt_nouns (v ∷ vs) = rw (belts_of-belt_nouns vs) refl

instance unfoldable pub sample_belts : BeltLib
unfolding belts_of belt_nouns of_belts to_belts
sample_belts = record {
  belts_from_noun = belts_of;
  belts_to_noun = belt_nouns;
  belts_to_le_bytes = λ vs. ok (of_belts vs);
  belts_from_le_bytes = to_belts;
  belts_from_noun-belts_to_noun = belts_of-belt_nouns;
  length-belts_from_le_bytes = length-to_belts;
  to_le_bytes-from_le_bytes = λ bs h. let (fill, e) = of_belts-to_belts bs h in (fill, ap ok e);
}
