-- ===== src/Samples/Nouns.antt =====
-- nockvm's part: atoms as bytes, and a code for nouns. An atom's code pushes its number, most
-- significant byte first; a cell's code is that of its two halves, and takes them together. The
-- code of a noun is preceded by a byte that tells cells from atoms.
use mathlib.Core.List.{append-nil, append_assoc}
use nns.Base.{
  All, Bool-cases, List, Option, [], ap, arith, false, inl, inr, none, refl, some, suc, sym, true,
  zero, ℕ, ◌%◌, ◌*◌, ◌++◌, ◌+◌, ◌/◌, ◌<◌, ◌==◌, ◌∙◌, ◌∷◌, ◌≡◌, ◌≤◌,
}
use nns.Base.Slices.{All-append}
use nns.Base.Text.{Bytes}
use nns.Noun.{IsByte, Noun, NounLib, atom, le_value, ◌⸬◌}

-- the little-endian bytes of a number, without zero bytes at the end
unfoldable pub digits_of : ℕ → ℕ → Bytes
digits_of zero n = []
digits_of (suc fuel) n = elim (n == 0) [ true ↦ [] | false ↦ n % 256 ∷ digits_of fuel (n / 256) ]

pub le_value-digits_of : (fuel n : ℕ) → n ≤ fuel → le_value (digits_of fuel n) ≡ n
unfolding digits_of
le_value-digits_of zero n h = omega arith
le_value-digits_of (suc fuel) n h = elim (Bool-cases (n == 0)) [
  | inl e ↦ ground arith
  | inr e ↦
      let pos : 0 < n = ground arith in
      let ih = le_value-digits_of fuel (n / 256) (omega arith) in rw (digits_of, e) (omega arith)
]

pub digits_of-IsByte : (fuel n : ℕ) → All IsByte (digits_of fuel n)
unfolding digits_of
digits_of-IsByte zero n = tt
digits_of-IsByte (suc fuel) n = elim (Bool-cases (n == 0)) [
  | inl e ↦ rw (digits_of, e) tt
  | inr e ↦ rw (digits_of, e) (omega arith, digits_of-IsByte fuel (n / 256))
]

-- the code that pushes a number
unfoldable pub emit : Bytes → Bytes
emit [] = []
emit (d ∷ ds) = emit ds ++ 1 ∷ d ∷ []

unfoldable pub code_of : Noun → Bytes
unfolding digits_of emit
code_of (atom n) = emit (digits_of n n) ++ 2 ∷ []
code_of (a ⸬ b) = code_of a ++ (code_of b ++ 3 ∷ [])

-- the machine: a number so far, and a stack
unfoldable pub execute : Bytes → ℕ → List Noun → Option Noun
execute [] acc (n ∷ []) = some n
execute (suc zero ∷ d ∷ rest) acc stack = execute rest (acc * 256 + d) stack
execute (suc (suc zero) ∷ rest) acc stack = execute rest 0 (atom acc ∷ stack)
execute (suc (suc (suc zero)) ∷ rest) acc (b ∷ a ∷ stack) = execute rest acc ((a ⸬ b) ∷ stack)
execute _ acc stack = none

execute-emit :
    (ds rest : Bytes) (stack : List Noun)
    → execute (emit ds ++ rest) 0 stack ≡ execute rest (le_value ds) stack
unfolding emit execute
execute-emit [] rest stack = refl
execute-emit (d ∷ ds) rest stack =
    ap (λ (t : Bytes). execute t 0 stack) (append_assoc (emit ds) (1 ∷ d ∷ []) rest)
    ∙ execute-emit ds (1 ∷ d ∷ rest) stack
    ∙ ap (λ (n : ℕ). execute rest n stack) (omega arith)

execute-code_of :
    (n : Noun) (rest : Bytes) (stack : List Noun)
    → execute (code_of n ++ rest) 0 stack ≡ execute rest 0 (n ∷ stack)
unfolding code_of execute
execute-code_of (atom n) rest stack =
    ap (λ (t : Bytes). execute t 0 stack) (append_assoc (emit (digits_of n n)) (2 ∷ []) rest)
    ∙ execute-emit (digits_of n n) (2 ∷ rest) stack
    ∙ ap (λ (m : ℕ). execute rest 0 (atom m ∷ stack)) (le_value-digits_of n n (omega arith))
execute-code_of (a ⸬ b) rest stack =
    ap (λ (t : Bytes). execute t 0 stack)
      (append_assoc (code_of a) (code_of b ++ 3 ∷ []) rest
        ∙ ap (◌++◌ (code_of a)) (append_assoc (code_of b) (3 ∷ []) rest))
    ∙ execute-code_of a (code_of b ++ 3 ∷ rest) stack
    ∙ execute-code_of b (3 ∷ rest) (a ∷ stack)

emit-IsByte : (ds : Bytes) → All IsByte ds → All IsByte (emit ds)
unfolding emit
emit-IsByte [] h = tt
emit-IsByte (d ∷ ds) h =
    All-append IsByte (emit ds) (1 ∷ d ∷ []) (emit-IsByte ds h.1) (omega arith, (h.0, tt))

code_of-IsByte : (n : Noun) → All IsByte (code_of n)
unfolding code_of
code_of-IsByte (atom n) =
    All-append IsByte (emit (digits_of n n)) (2 ∷ []) (emit-IsByte _ (digits_of-IsByte n n))
      (omega arith, tt)
code_of-IsByte (a ⸬ b) =
    All-append IsByte (code_of a) (code_of b ++ 3 ∷ []) (code_of-IsByte a)
      (All-append IsByte (code_of b) (3 ∷ []) (code_of-IsByte b) (omega arith, tt))

unfoldable pub jam_of : Noun → Bytes
unfolding code_of
jam_of (atom n) = 0 ∷ code_of (atom n)
jam_of (a ⸬ b) = 1 ∷ code_of (a ⸬ b)

unfoldable pub cue_of : Bytes → Option Noun
unfolding execute
cue_of [] = none
cue_of (t ∷ bs) = execute bs 0 []

pub cue_of-jam_of : (n : Noun) → cue_of (jam_of n) ≡ some n
unfolding cue_of jam_of execute
cue_of-jam_of (atom n) =
    ap (λ (t : Bytes). execute t 0 []) (sym (append-nil (code_of (atom n))))
    ∙ execute-code_of (atom n) [] []
cue_of-jam_of (a ⸬ b) =
    ap (λ (t : Bytes). execute t 0 []) (sym (append-nil (code_of (a ⸬ b))))
    ∙ execute-code_of (a ⸬ b) [] []

pub jam_of-IsByte : (n : Noun) → All IsByte (jam_of n)
unfolding jam_of
jam_of-IsByte (atom n) = (omega arith, code_of-IsByte (atom n))
jam_of-IsByte (a ⸬ b) = (omega arith, code_of-IsByte (a ⸬ b))

pub jam_of-cell :
    (a b : Noun) → (first : ℕ) × (rest : Bytes) × (jam_of (a ⸬ b) ≡ first ∷ rest) × (first % 4 ≡ 1)
unfolding jam_of
jam_of-cell a b = (1, code_of (a ⸬ b), refl, refl)

instance unfoldable pub sample_nouns : NounLib
unfolding digits_of jam_of cue_of
sample_nouns = record {
  from_le_bytes = le_value;
  ne_bytes = λ n. digits_of n n;
  jam = jam_of;
  cue = cue_of;
  le_value-from_le_bytes = λ bs. refl;
  le_value-ne_bytes = λ n. le_value-digits_of n n (omega arith);
  ne_bytes-IsByte = λ n. digits_of-IsByte n n;
  cue-jam = cue_of-jam_of;
  jam-IsByte = jam_of-IsByte;
  jam-cell = jam_of-cell;
}
