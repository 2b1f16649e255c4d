-- ===== src/Hex/Nonempty.antt =====
-- Text that is not blank decodes, if it decodes, to at least one byte.
use mathlib.Core.Bool.{false≢true}
use nns.Base.{
  Bool, Bool-cases, Option, [], arith, false, if◌then◌else◌, inl, inr, is_empty, length, none, refl,
  some, sym, true, ℕ, ◌%◌, ◌<◌, ◌==◌, ◌∙◌, ◌∷◌, ◌≡◌, ◌≤◌, ◌⊎◌,
}
use nns.Base.Result.{Result, err, ok, text}
use nns.Base.Strings.{is_whitespace, trim, trim_end_matches, trim_start_matches}
use nns.Base.Text.{Bytes, Str, utf8}
use nns.Hex.{decode_pairs, decode_round, hex_decode_even}

trim_start-head :
    (s : Str)
    → (trim_start_matches is_whitespace s ≡ [])
      ⊎ ((c : ℕ) × (r : Str) × (trim_start_matches is_whitespace s ≡ c ∷ r)
          × (is_whitespace c ≡ false))
unfolding trim_start_matches
trim_start-head [] = inl refl
trim_start-head (c ∷ cs) = elim (Bool-cases (is_whitespace c)) [
  | inl space ↦ rw space (trim_start-head cs)
  | inr other ↦ inr (c, cs, rw other, other)
]

trim_end-head :
    (c : ℕ) (r : Str)
    → is_whitespace c ≡ false
    → trim_end_matches is_whitespace (c ∷ r) ≡ c ∷ trim_end_matches is_whitespace r
unfolding trim_end_matches
trim_end-head c r h = rw h

-- trimmed text that is not empty begins with a character that is no space
trim-head :
    (s : Str)
    → is_empty (trim s) ≡ false
    → (c : ℕ) × (r : Str) × (trim s ≡ c ∷ r) × (is_whitespace c ≡ false)
unfolding trim
trim-head s h = elim (trim_start-head s) [
  | inl e ↦ absurd (false≢true (sym h ∙ rw e))
  | inr (c, r, e, n) ↦ (c, trim_end_matches is_whitespace r, rw e (trim_end-head c r n), n)
]

trim-cons :
    (c : ℕ) (r : Str)
    → is_whitespace c ≡ false
    → trim (c ∷ r) ≡ c ∷ trim_end_matches is_whitespace r
unfolding trim trim_start_matches
trim-cons c r n = rw n (trim_end-head c r n)

decode_round-nonempty :
    (boundary : Bool) (pair : Option ℕ) (more : Result Bytes) (b : Bytes)
    → decode_round boundary pair more ≡ ok b
    → is_empty b ≡ false
unfolding decode_round
decode_round-nonempty false pair more b h = cc
decode_round-nonempty true none more b h = cc
decode_round-nonempty true (some v) (ok vs) [] h = cc
decode_round-nonempty true (some v) (ok vs) (x ∷ xs) h = refl
decode_round-nonempty true (some v) (err e) b h = cc

decode_pairs-nonempty : (s b : Bytes) → 2 ≤ length s → decode_pairs s ≡ ok b → is_empty b ≡ false
unfolding decode_pairs
decode_pairs-nonempty [] b l h = absurd (omega arith)
decode_pairs-nonempty (x ∷ []) b l h = absurd (omega arith)
decode_pairs-nonempty (x ∷ y ∷ rest) b l h = decode_round-nonempty _ _ _ b h

utf8-length : (c : ℕ) (r : Str) → 0 < length (utf8 (c ∷ r))
unfolding utf8
utf8-length c r = ground arith

decode_even-nonempty :
    (bytes b : Bytes)
    → 0 < length bytes
    → (if length bytes % 2 == 0 then decode_pairs bytes else err (text "hex length must be even"))
      ≡ ok b
    → is_empty b ≡ false
decode_even-nonempty bytes b l h = elim (Bool-cases (length bytes % 2 == 0)) [
  | inl even ↦ decode_pairs-nonempty bytes b (ground arith) (rw even at h)
  | inr odd ↦ cc (rw odd at h)
]

pub hex_decode_even-nonempty :
    (s b : Str) → is_empty (trim s) ≡ false → hex_decode_even (trim s) ≡ ok b → is_empty b ≡ false
unfolding hex_decode_even
hex_decode_even-nonempty s b full h =
    let (c, r, e, n) = trim-head s full in
    decode_even-nonempty (utf8 (trim (trim s))) b (rw (e, trim-cons c r n) (utf8-length c _)) h
