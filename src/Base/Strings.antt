-- ===== src/Base/Strings.antt =====
-- The methods of `str` that the program calls.
use mathlib.Core.Option
use Prim.Native.Nat.{suc, zero, ℕ, ◌<◌}
use mathlib.Core.Bool.{Bool, false, true, ◌&&◌, ◌||◌}
use mathlib.Core.List.{[], ◌++◌, ◌∷◌}
use mathlib.Core.Logic.{inl, inr}
use mathlib.Core.Option.{Option, none, some}
use mathlib.Core.Path.{ap, refl, ◌≡◌}
use native.Mathlib.Omega.{arith}
use nns.Base.Lists.{is_empty, length, length-append, replicate}
use nns.Base.Tests.{=?_iff, =?_refl, Bool-cases, Option-cases, if◌then◌else◌, leb, ◌==◌, ◌=?◌}
use nns.Base.Text.{Str, utf8}

-- `char::is_whitespace`, the Unicode property White_Space
abbrev pub is_whitespace : ℕ → Bool
is_whitespace c =
    (leb 0x9 c && leb c 0xd)
    || c == 0x20
    || c == 0x85
    || c == 0xa0
    || c == 0x1680
    || (leb 0x2000 c && leb c 0x200a)
    || c == 0x2028
    || c == 0x2029
    || c == 0x202f
    || c == 0x205f
    || c == 0x3000

unfoldable pub trim_start_matches : (ℕ → Bool) → Str → Str
trim_start_matches p [] = []
trim_start_matches p (c ∷ cs) = let rest = trim_start_matches p cs in if p c then rest else c ∷ cs

unfoldable pub trim_end_matches : (ℕ → Bool) → Str → Str
trim_end_matches p [] = []
trim_end_matches p (c ∷ cs) =
    let rest = trim_end_matches p cs in if p c && is_empty rest then [] else c ∷ rest

unfoldable pub trim : Str → Str
unfolding trim_start_matches trim_end_matches
trim s = trim_end_matches is_whitespace (trim_start_matches is_whitespace s)

unfoldable pub strip_suffix : Str → Str → Option Str
unfolding ◌=?◌
strip_suffix suffix [] = if [] =? suffix then some [] else none
strip_suffix suffix (c ∷ cs) =
    let rest = Option.map (◌∷◌ c) (strip_suffix suffix cs) in
    if (c ∷ cs) =? suffix then some [] else rest

unfoldable pub strip_prefix : Str → Str → Option Str
strip_prefix [] s = some s
strip_prefix (p ∷ ps) [] = none
strip_prefix (p ∷ ps) (c ∷ cs) = let rest = strip_prefix ps cs in if p == c then rest else none

-- `str::len`, in bytes
abbrev pub len : Str → ℕ
len s = length (utf8 s)

abbrev pub is_ascii_digit : ℕ → Bool
is_ascii_digit c = leb b'0' c && leb c b'9'

abbrev pub is_ascii_lowercase : ℕ → Bool
is_ascii_lowercase c = leb b'a' c && leb c b'z'

abbrev pub is_ascii_uppercase : ℕ → Bool
is_ascii_uppercase c = leb b'A' c && leb c b'Z'

abbrev pub is_ascii_alphanumeric : ℕ → Bool
is_ascii_alphanumeric c = is_ascii_digit c || is_ascii_lowercase c || is_ascii_uppercase c

-- A string that `trim_end_matches p` leaves as it is.
abbrev pub IsTrimmed : (ℕ → Bool) → Str → Type 0
IsTrimmed p s = trim_end_matches p s ≡ s

trim_end_matches-replicate :
    (p : ℕ → Bool) (k c : ℕ) → p c ≡ true → trim_end_matches p (replicate k c) ≡ []
unfolding trim_end_matches
trim_end_matches-replicate p zero c h = refl
trim_end_matches-replicate p (suc k) c h = rw (trim_end_matches-replicate p k c h, h)

trim_end_matches-append :
    (p : ℕ → Bool) (s t : Str)
    → trim_end_matches p t ≡ []
    → trim_end_matches p (s ++ t) ≡ trim_end_matches p s
unfolding trim_end_matches
trim_end_matches-append p [] t h = h
trim_end_matches-append p (c ∷ cs) t h = rw (trim_end_matches-append p cs t h)

-- Padding that the predicate accepts is trimmed away.
pub trim_end_matches-padded :
    (p : ℕ → Bool) (s : Str) (k c : ℕ)
    → p c ≡ true
    → IsTrimmed p s
    → trim_end_matches p (s ++ replicate k c) ≡ s
trim_end_matches-padded p s k c h trimmed =
    rw (trim_end_matches-append p s (replicate k c) (trim_end_matches-replicate p k c h)) trimmed

-- What `strip_suffix` returns is what stands in front of the suffix.
pub strip_suffix-append :
    (suffix s : Str) {stem : Str} → strip_suffix suffix s ≡ some stem → s ≡ stem ++ suffix
unfolding strip_suffix
strip_suffix-append suffix [] h = ground (arith, =?_iff [] suffix)
strip_suffix-append suffix (c ∷ cs) h = elim (Bool-cases ((c ∷ cs) =? suffix)) [
  | inl same ↦ ground (arith, =?_iff (c ∷ cs) suffix)
  | inr other ↦ elim (Option-cases (strip_suffix suffix cs)) [
    | inl e ↦ ground arith
    | inr (rest, e) ↦ ground (arith, strip_suffix-append suffix cs e)
  ]
]

length_ne : (s t : Str) → length s < length t → (t =? s) ≡ false
length_ne s t h = elim (Bool-cases (t =? s)) [
  | inl same ↦ absurd (omega (arith, ap length ((=?_iff t s).0 same)))
  | inr other ↦ other
]

pub strip_suffix-append_self :
    (stem suffix : Str) → strip_suffix suffix (stem ++ suffix) ≡ some stem
unfolding strip_suffix
strip_suffix-append_self [] [] = refl
strip_suffix-append_self [] (c ∷ cs) = rw (=?_refl (c ∷ cs))
strip_suffix-append_self (c ∷ cs) suffix =
    rw (length_ne suffix (c ∷ cs ++ suffix) (omega (arith, length-append cs suffix)))
      (rw (strip_suffix-append_self cs suffix))
