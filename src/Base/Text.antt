-- ===== src/Base/Text.antt =====
-- Rust strings. A `str` is the list of its Unicode scalar values; `utf8` is its bytes, and
-- `from_utf8` is `std::str::from_utf8`.
use Prim.Native.Char.{code}
use Prim.Native.Nat.{suc, zero, ℕ, ◌%◌, ◌*◌, ◌+◌, ◌-◌, ◌/◌, ◌<◌, ◌≤◌}
use Prim.Native.String.{String}
use mathlib.Core.Bool.{Bool, true, ◌&&◌, ◌||◌}
use mathlib.Core.List.{List, [], append_assoc, ◌++◌, ◌∷◌}
use mathlib.Core.Option.{Option, none, some}
use mathlib.Core.Path.{ap, refl, ◌∙◌, ◌≡◌}
use native.Mathlib.Omega.{arith}
use nns.Base.Lists.{All, replicate}
use nns.Base.Result.{and_then}
use nns.Base.Tests.{if◌then◌else◌, leb, ltb, ◌==◌}

abbrev pub Str : Type 0
Str = List ℕ

abbrev pub Bytes : Type 0
Bytes = List ℕ

-- The scalar values of a literal.
abbrev pub codes : String → Str
codes String.[] = []
codes (String.◌∷◌ c s) = code c ∷ codes s

-- A Unicode scalar value: a code point that is not a surrogate.
abbrev pub is_scalar : ℕ → Bool
is_scalar c = ltb c 0xd800 || (leb 0xe000 c && ltb c 0x110000)

pub utf8_char : ℕ → Bytes
utf8_char c =
    if ltb c 0x80
    then c ∷ []
    else if ltb c 0x800
    then (0xc0 + c / 64) ∷ (0x80 + c % 64) ∷ []
    else if ltb c 0x10000
    then (0xe0 + c / 4096) ∷ (0x80 + c / 64 % 64) ∷ (0x80 + c % 64) ∷ []
    else (0xf0 + c / 262144) ∷ (0x80 + c / 4096 % 64) ∷ (0x80 + c / 64 % 64) ∷ (0x80 + c % 64) ∷ []

-- `str::as_bytes`
unfoldable pub utf8 : Str → Bytes
unfolding utf8_char
utf8 [] = []
utf8 (c ∷ cs) = utf8_char c ++ utf8 cs

-- The decoder's state: continuation bytes still to come, the bits so far, and the least value
-- that is not overlong.
record Pending : Type 0 where
  need : ℕ
  bits : ℕ
  least : ℕ

abbrev start : Pending
start = record { need = 0; bits = 0; least = 0 }

-- One byte: the next state, and the scalar value that it completes.
decode_byte : Pending → ℕ → Option (Pending × Str)
decode_byte p b =
    if p.need == 0
    then (if ltb b 0x80
        then some (start, b ∷ [])
        else if leb 0xc0 b && ltb b 0xe0
        then some (record { need = 1; bits = b - 0xc0; least = 0x80 }, [])
        else if leb 0xe0 b && ltb b 0xf0
        then some (record { need = 2; bits = b - 0xe0; least = 0x800 }, [])
        else if leb 0xf0 b && ltb b 0xf8
        then some (record { need = 3; bits = b - 0xf0; least = 0x10000 }, [])
        else none)
    else if leb 0x80 b && ltb b 0xc0
    then (let bits = p.bits * 64 + (b - 0x80) in
        if p.need == 1
        then (if leb p.least bits && is_scalar bits then some (start, bits ∷ []) else none)
        else some (record { need = p.need - 1; bits = bits; least = p.least }, []))
    else none

decode_from : Pending → Bytes → Option Str
unfolding decode_byte
decode_from p [] = if p.need == 0 then some [] else none
decode_from p (b ∷ bs) =
    and_then (decode_byte p b)
      λ step. and_then (decode_from step.0 bs) λ rest. some (step.1 ++ rest)

unfoldable pub from_utf8 : Bytes → Option Str
unfolding decode_from
from_utf8 = decode_from start

abbrev pub IsScalar : ℕ → Type 0
IsScalar c = is_scalar c ≡ true

decode_from-utf8_char :
    (c : ℕ) (rest : Bytes)
    → IsScalar c
    → decode_from start (utf8_char c ++ rest) ≡ and_then (decode_from start rest) λ s. some (c ∷ s)
unfolding decode_from utf8_char
decode_from-utf8_char c rest h = ground arith

-- Every string decodes from its own bytes.
pub from_utf8-utf8 : (s : Str) → All IsScalar s → from_utf8 (utf8 s) ≡ some s
unfolding from_utf8 utf8
from_utf8-utf8 [] h = refl
from_utf8-utf8 (c ∷ cs) h = decode_from-utf8_char c (utf8 cs) h.0 ∙ rw (from_utf8-utf8 cs h.1)

utf8_char-IsByte :
    (c : ℕ) (rest : Bytes)
    → IsScalar c
    → All (λ b. b < 256) rest
    → All (λ b. b < 256) (utf8_char c ++ rest)
unfolding utf8_char
utf8_char-IsByte c rest h k = ground arith

-- Encoded text consists of bytes.
pub utf8-IsByte : (s : Str) → All IsScalar s → All (λ b. b < 256) (utf8 s)
unfolding utf8
utf8-IsByte [] h = tt
utf8-IsByte (c ∷ cs) h = utf8_char-IsByte c (utf8 cs) h.0 (utf8-IsByte cs h.1)

-- NULs at the end are zero bytes at the end.
pub utf8-replicate : (s : Str) (k : ℕ) → utf8 (s ++ replicate k 0) ≡ utf8 s ++ replicate k 0
unfolding utf8
utf8-replicate [] zero = refl
utf8-replicate [] (suc k) = ap (◌∷◌ 0) (utf8-replicate [] k)
utf8-replicate (c ∷ cs) k = rw (utf8-replicate cs k, append_assoc)

-- the first scalar value of some text, if there is one, is at least `n`
abbrev StartsAbove : ℕ → Option Str → Type 0
StartsAbove n none = Unit
StartsAbove n (some []) = Unit
StartsAbove n (some (c ∷ cs)) = n ≤ c

-- What one byte does to a pending state: a value of at least `least` is complete, more bytes are
-- to come, or the byte is refused.
decode_byte-pending :
    (need bits least b : ℕ) (m : Pending → Option Str)
    → 0 < need
    → 0x80 ≤ least
    → (0 < need - 1
        → StartsAbove 0x80
            (m (record { need = need - 1; bits = bits * 64 + (b - 0x80); least = least })))
    → StartsAbove 0x80 (
        and_then
          (decode_byte (record { need = need; bits = bits; least = least }) b)
          λ step. and_then (m step.0) λ rest. some (step.1 ++ rest))
unfolding decode_byte
decode_byte-pending need bits least b m h k more = ground (arith, more)

pending-StartsAbove :
    (need bits least : ℕ) (bs : Bytes)
    → 0 < need
    → 0x80 ≤ least
    → StartsAbove 0x80 (decode_from (record { need = need; bits = bits; least = least }) bs)
unfolding decode_from
pending-StartsAbove need bits least [] h k = ground arith
pending-StartsAbove need bits least (b ∷ bs) h k =
    decode_byte-pending need bits least b (λ p. decode_from p bs) h k
      λ l. pending-StartsAbove (need - 1) (bits * 64 + (b - 0x80)) least bs l k

decode_byte-start :
    (b : ℕ) (m : Pending → Option Str)
    → ((need bits least : ℕ)
        → 0 < need
        → 0x80 ≤ least
        → StartsAbove 0x80 (m (record { need = need; bits = bits; least = least })))
    → (c : ℕ) (cs : Str)
    → (and_then (decode_byte start b) λ step. and_then (m step.0) λ rest. some (step.1 ++ rest))
      ≡ some (c ∷ cs)
    → c < 0x80
    → b ≡ c
unfolding decode_byte
decode_byte-start b m more c cs e h = ground (
  arith,
  more 1 (b - 0xc0) 0x80 (omega arith) (omega arith),
  more 2 (b - 0xe0) 0x800 (omega arith) (omega arith),
  more 3 (b - 0xf0) 0x10000 (omega arith) (omega arith),
)

-- Text that starts with an ASCII character has it as its first byte.
pub from_utf8-ascii :
    (b : ℕ) (bs : Bytes) (c : ℕ) (cs : Str) → from_utf8 (b ∷ bs) ≡ some (c ∷ cs) → c < 0x80 → b ≡ c
unfolding from_utf8 decode_from
from_utf8-ascii b bs c cs e h =
    decode_byte-start b (λ p. decode_from p bs)
      (λ need bits least l k. pending-StartsAbove need bits least bs l k) c cs e h
