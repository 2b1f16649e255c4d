-- ===== src/Hex.antt =====
-- Hexadecimal text: `hex_encode` of src/state.rs and `hex_decode_even` of src/wallet_y4.rs.
pub mod RoundTrip
pub mod Nonempty
use nns.Base.{
  Bool, Option, [], false, if◌then◌else◌, leb, length, ltb, none, not, some, true, ℕ, ◌%◌, ◌&&◌,
  ◌*◌, ◌+◌, ◌-◌, ◌/◌, ◌==◌, ◌∷◌,
}
use nns.Base.Maybe.{◌>>=◌}
use nns.Base.Result.{Result, err, ok, panic, text}
use nns.Base.Strings.{is_ascii_digit, trim}
use nns.Base.Text.{Bytes, Str, utf8}

-- `{b:02x}`
unfoldable pub hex_digit : ℕ → ℕ
hex_digit d = if ltb d 10 then b'0' + d else b'a' + (d - 10)

unfoldable pub hex_encode : Bytes → Str
unfolding hex_digit
hex_encode [] = []
hex_encode (b ∷ bs) = hex_digit (b / 16) ∷ hex_digit (b % 16) ∷ hex_encode bs

-- `char::to_digit(16)`
abbrev pub digit_value : ℕ → Option ℕ
digit_value c =
    if is_ascii_digit c
    then some (c - b'0')
    else if leb b'a' c && leb c b'f'
    then some (c - b'a' + 10)
    else if leb b'A' c && leb c b'F'
    then some (c - b'A' + 10)
    else none

-- `u8::from_str_radix(&s[i..i + 2], 16)` on two bytes: a `+` may stand in front of one digit
unfoldable pub parse_pair : ℕ → ℕ → Option ℕ
parse_pair a b =
    if a == b'+'
    then digit_value b
    else (do x ← digit_value a; y ← digit_value b; some (16 * x + y))

-- a slice must end at the boundary of a character
abbrev pub is_boundary : Bytes → Bool
is_boundary [] = true
is_boundary (b ∷ bs) = not (leb 0x80 b && ltb b 0xc0)

-- one round of the `step_by(2)` loop: the slice panics unless it ends at a boundary, and
-- `collect` stops at the first pair that is refused, before the rest
unfoldable pub decode_round : Bool → Option ℕ → Result Bytes → Result Bytes
decode_round false pair more = err panic
decode_round true none more = err (text "invalid digit found in string")
decode_round true (some v) (ok vs) = ok (v ∷ vs)
decode_round true (some v) (err e) = err e

unfoldable pub decode_pairs : Bytes → Result Bytes
unfolding parse_pair decode_round
decode_pairs [] = ok []
decode_pairs (a ∷ []) = ok []
decode_pairs (a ∷ b ∷ rest) = decode_round (is_boundary rest) (parse_pair a b) (decode_pairs rest)

unfoldable pub hex_decode_even : Str → Result Bytes
unfolding decode_pairs
hex_decode_even s =
    let bytes = utf8 (trim s) in
    if length bytes % 2 == 0 then decode_pairs bytes else err (text "hex length must be even")
