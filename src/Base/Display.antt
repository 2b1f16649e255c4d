-- ===== src/Base/Display.antt =====
-- The text of an error message, and searches in text.
use Prim.Native.Nat.{suc, zero, ℕ, ◌%◌, ◌+◌, ◌/◌}
use mathlib.Core.Bool.{Bool, false, true, ◌&&◌, ◌||◌}
use mathlib.Core.List.{[], ◌++◌, ◌∷◌}
use nns.Base.Result.{Error, both, context, panic, text, text_num, text_str}
use nns.Base.Strings.{is_ascii_uppercase}
use nns.Base.Tests.{if◌then◌else◌, ltb, ◌==◌}
use nns.Base.Text.{Str, codes}

-- `n.to_string()`: decimal digits; `fuel` digits are enough for a number below `10 ^ fuel`
decimal : ℕ → ℕ → Str → Str
decimal zero n acc = acc
decimal (suc fuel) n acc =
    let more = decimal fuel (n / 10) ((b'0' + n % 10) ∷ acc) in
    if ltb n 10 then (b'0' + n) ∷ acc else more

-- numbers in messages have 64 bits, or 20 digits
unfoldable pub to_string : ℕ → Str
unfolding decimal
to_string n = decimal 20 n []

unfoldable pub render : Error → Str
unfolding to_string
render (text s) = codes s
render (text_num s n) = codes s ++ to_string n
render (text_str s t) = codes s ++ t
render (context s e) = codes s ++ codes ": " ++ render e
render (both a b) = render a ++ render b
render panic = []

-- `s.starts_with(t)` and `s.contains(t)`
unfoldable pub starts_with : Str → Str → Bool
starts_with s [] = true
starts_with [] (t ∷ ts) = false
starts_with (c ∷ cs) (t ∷ ts) = c == t && starts_with cs ts

unfoldable pub contains : Str → Str → Bool
unfolding starts_with
contains [] t = starts_with [] t
contains (c ∷ cs) t = starts_with (c ∷ cs) t || contains cs t

-- `to_lowercase`, as far as a search for ASCII text sees it: the Kelvin sign and the dotted capital
-- I are the only other characters whose lower case has an ASCII character in it
unfoldable pub to_lowercase : Str → Str
to_lowercase [] = []
to_lowercase (c ∷ cs) =
    let rest = to_lowercase cs in
    if is_ascii_uppercase c
    then (c + 32) ∷ rest
    else if c == 0x212a
    then b'k' ∷ rest
    else if c == 0x130
    then b'i' ∷ 0x307 ∷ rest
    else c ∷ rest
