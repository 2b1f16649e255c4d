-- ===== src/Base/Parse.antt =====
-- `str::parse::<u64>`: decimal digits, with one `+` allowed in front.
use Prim.Native.Nat.{ℕ, ◌*◌, ◌+◌, ◌-◌, ◌≤◌}
use mathlib.Core.Bool.{not}
use mathlib.Core.List.{[], ◌∷◌}
use mathlib.Core.Option.{Option, none, some}
use mathlib.Core.Path.{◌≡◌}
use native.Mathlib.Omega.{arith}
use nns.Base.Strings.{is_ascii_digit}
use nns.Base.Tests.{if◌then◌else◌, leb, u64_max, ◌==◌}
use nns.Base.Text.{Str}

digits : ℕ → Str → Option ℕ
digits n [] = some n
digits n (c ∷ cs) =
    let m = n * 10 + (c - b'0') in
    let rest = digits m cs in
    if not (is_ascii_digit c) then none else if leb m u64_max then rest else none

unfoldable pub parse_u64 : Str → Option ℕ
unfolding digits
parse_u64 [] = none
parse_u64 (c ∷ []) = digits 0 (c ∷ [])
parse_u64 (c ∷ d ∷ cs) = if c == b'+' then digits 0 (d ∷ cs) else digits 0 (c ∷ d ∷ cs)

digits-le : (n : ℕ) (s : Str) (v : ℕ) → n ≤ u64_max → digits n s ≡ some v → v ≤ u64_max
unfolding digits
digits-le n [] v h e = ground arith
digits-le n (c ∷ cs) v h e = ground (arith, digits-le (n * 10 + (c - b'0')) cs v)

-- What parses fits in 64 bits.
pub parse_u64-le : (s : Str) (v : ℕ) → parse_u64 s ≡ some v → v ≤ u64_max
unfolding parse_u64
parse_u64-le [] v e = cc
parse_u64-le (c ∷ []) v e = digits-le 0 (c ∷ []) v (omega arith) e
parse_u64-le (c ∷ d ∷ cs) v e = ground (arith, digits-le 0 (d ∷ cs) v, digits-le 0 (c ∷ d ∷ cs) v)
