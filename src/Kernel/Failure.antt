-- ===== src/Kernel/Failure.antt =====
-- The text that src/kernel.rs makes of a failed proof: `decode_prove_failure`.
use mathlib.Core.Option
use nns.Base.{
  Bool, Option, [], if◌then◌else◌, is_empty, leb, length, ltb, min, none, some, suc, take, zero, ℕ,
  ◌%◌, ◌++◌, ◌/◌, ◌=?◌, ◌||◌, ◌∷◌,
}
use nns.Base.Display.{to_string}
use nns.Base.Result.{Result, err, ok}
use nns.Base.Text.{Bytes, Str, codes}
use nns.Hex.{hex_digit, hex_encode}
use nns.Noun.{Noun, NounLib, as_cord, as_u64_opt, atom, ◌⸬◌}

-- `{n:x}`: hexadecimal digits; `fuel` digits are enough for a number below `16 ^ fuel`
hex_digits : ℕ → ℕ → Str → Str
unfolding hex_digit
hex_digits zero n acc = acc
hex_digits (suc fuel) n acc =
    let more = hex_digits fuel (n / 16) (hex_digit (n % 16) ∷ acc) in
    if ltb n 16 then hex_digit n ∷ acc else more

-- numbers have 64 bits, or 16 digits
unfoldable pub to_lower_hex : ℕ → Str
unfolding hex_digits
to_lower_hex n = hex_digits 16 n []

-- `{bs:02x?}`, without the brackets
unfoldable pub debug_bytes : Bytes → Str
unfolding hex_encode
debug_bytes [] = []
debug_bytes (b ∷ []) = hex_encode (b ∷ [])
debug_bytes (b ∷ c ∷ bs) = hex_encode (b ∷ []) ++ codes ", " ++ debug_bytes (c ∷ bs)

-- an atom whose bytes are `bytes`, and whose value is `value` if it has 64 bits
unfoldable pub format_atom : Bytes → Option ℕ → Str
unfolding to_string to_lower_hex debug_bytes
format_atom bytes value =
    if leb (length bytes) 8
    then to_string (Option.get_or value 0)
      ++ codes " (0x"
      ++ to_lower_hex (Option.get_or value 0)
      ++ codes ")"
    else if leb (length bytes) 32
    then codes "atom["
      ++ to_string (length bytes)
      ++ codes " bytes: ["
      ++ debug_bytes (take (min 16 (length bytes)) bytes)
      ++ codes "]...]"
    else codes "atom[" ++ to_string (length bytes) ++ codes " bytes]"

-- the tags that a failure may have
abbrev is_failure_tag : Str → Bool
unfolding ◌=?◌
is_failure_tag tag =
    tag =? codes "dry-run-failed"
    || tag =? codes "prover-mule-failed"
    || tag =? codes "stark-prove-failed"

module _ ⦃lib : NounLib⦄ where
  unfoldable pub format_noun_short : Noun → Str
  unfolding format_atom as_u64_opt
  format_noun_short (atom n) = format_atom (lib.ne_bytes n) (as_u64_opt (atom n))
  format_noun_short (a ⸬ b) =
      codes "[" ++ format_noun_short a ++ codes " " ++ format_noun_short b ++ codes "]"

  -- a noun whose head may be a tag: `tag` is that head as a cord
  unfoldable pub format_tagged : Result Str → Noun → Noun → Str
  unfolding format_noun_short is_failure_tag
  format_tagged (err e) h t = format_noun_short (h ⸬ t)
  format_tagged (ok tag) h t =
      if is_failure_tag tag
      then codes "[" ++ tag ++ codes " " ++ format_noun_short t ++ codes "]"
      else format_noun_short (h ⸬ t)

  unfoldable pub format_failure : Option Noun → Str
  unfolding format_tagged as_cord
  format_failure none = codes "<cue failed on jam>"
  format_failure (some (atom n)) = format_noun_short (atom n)
  format_failure (some (h ⸬ t)) = format_tagged (as_cord h) h t

  unfoldable pub decode_prove_failure : Bytes → Str
  unfolding format_failure
  decode_prove_failure jam =
      if is_empty jam then codes "<empty failure jam>" else format_failure (lib.cue jam)
