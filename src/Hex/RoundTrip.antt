-- ===== src/Hex/RoundTrip.antt =====
-- Decoding what was encoded, and what decoding accepts.
use nns.Base.{
  All, [], arith, false, length, refl, some, true, ℕ, ◌%◌, ◌*◌, ◌/◌, ◌<◌, ◌==◌, ◌∷◌, ◌≡◌,
}
use nns.Base.Result.{ok}
use nns.Base.Strings.{is_whitespace, trim, trim_end_matches}
use nns.Base.Text.{Bytes, Str, utf8}
use nns.Hex.{decode_pairs, hex_decode_even, hex_digit, hex_encode, is_boundary, parse_pair}
use nns.Noun.{IsByte}

parse_pair-hex_digit :
    (b : ℕ) → b < 256 → parse_pair (hex_digit (b / 16)) (hex_digit (b % 16)) ≡ some b
unfolding parse_pair hex_digit
parse_pair-hex_digit b h = ground arith

-- a digit is an ASCII character that is no space
abbrev IsPlain : ℕ → Type 0
IsPlain c = (c < 0x80) × (is_whitespace c ≡ false)

hex_digit-IsPlain : (d : ℕ) → d < 16 → IsPlain (hex_digit d)
unfolding hex_digit
hex_digit-IsPlain d h = ground arith

hex_encode-IsPlain : (bs : Bytes) → All IsByte bs → All IsPlain (hex_encode bs)
unfolding hex_encode
hex_encode-IsPlain [] h = tt
hex_encode-IsPlain (b ∷ bs) h = (
  hex_digit-IsPlain (b / 16) (omega arith),
  (hex_digit-IsPlain (b % 16) (omega arith), hex_encode-IsPlain bs h.1),
)

is_boundary-IsPlain : (s : Str) → All IsPlain s → is_boundary s ≡ true
is_boundary-IsPlain [] h = refl
is_boundary-IsPlain (c ∷ cs) h = ground arith

utf8-IsPlain : (s : Str) → All IsPlain s → utf8 s ≡ s
unfolding utf8
utf8-IsPlain [] h = refl
utf8-IsPlain (c ∷ cs) h = ground (arith, utf8-IsPlain cs h.1)

trim_end-IsPlain : (s : Str) → All IsPlain s → trim_end_matches is_whitespace s ≡ s
unfolding trim_end_matches
trim_end-IsPlain [] h = refl
trim_end-IsPlain (c ∷ cs) h = rw (h.0.1, trim_end-IsPlain cs h.1)

trim-IsPlain : (s : Str) → All IsPlain s → trim s ≡ s
unfolding trim
trim-IsPlain [] h = refl
trim-IsPlain (c ∷ cs) h = rw h.0.1 (trim_end-IsPlain (c ∷ cs) h)

decode_pairs-cons :
    (a b v : ℕ) (rest vs : Bytes)
    → parse_pair a b ≡ some v
    → is_boundary rest ≡ true
    → decode_pairs rest ≡ ok vs
    → decode_pairs (a ∷ b ∷ rest) ≡ ok (v ∷ vs)
unfolding decode_pairs
decode_pairs-cons a b v rest vs p q r = rw (q, p, r)

decode_pairs-hex_encode : (bs : Bytes) → All IsByte bs → decode_pairs (hex_encode bs) ≡ ok bs
unfolding hex_encode
decode_pairs-hex_encode [] h = unfold decode_pairs in refl
decode_pairs-hex_encode (b ∷ bs) h =
    decode_pairs-cons (hex_digit (b / 16)) (hex_digit (b % 16)) b (hex_encode bs) bs
      (parse_pair-hex_digit b h.0) (is_boundary-IsPlain (hex_encode bs) (hex_encode-IsPlain bs h.1))
      (decode_pairs-hex_encode bs h.1)

length-hex_encode : (bs : Bytes) → length (hex_encode bs) ≡ 2 * length bs
unfolding hex_encode
length-hex_encode [] = refl
length-hex_encode (b ∷ bs) = omega (arith, length-hex_encode bs)

even_length : (bs : Bytes) → (length (hex_encode bs) % 2 == 0) ≡ true
even_length bs = ground (arith, length-hex_encode bs)

-- Every byte string decodes from its hexadecimal text, which has two characters for each byte.
pub hex_decode_even-hex_encode :
    (bs : Bytes)
    → All IsByte bs
    → (hex_decode_even (hex_encode bs) ≡ ok bs) × (length (hex_encode bs) ≡ 2 * length bs)
unfolding hex_decode_even
hex_decode_even-hex_encode bs h =
    let plain = hex_encode-IsPlain bs h in
    (
      rw (trim-IsPlain (hex_encode bs) plain, utf8-IsPlain (hex_encode bs) plain, even_length bs)
          (decode_pairs-hex_encode bs h),
      length-hex_encode bs,
    )
