-- ===== src/LightVerify/Report/Verdicts.antt =====
-- The verdict lines of the report, told from its other lines.
use mathlib.Core.List.Memᴰ
use Prim.Native.Char.{code}
use mathlib.Core.List.{Memᴰ, append-nil}
use nns.Base.{
  All, Bool, List, Option, [], ap, false, if◌then◌else◌, inl, inr, length, none, refl, some, sym,
  true, ℕ, ◌++◌, ◌==◌, ◌∙◌, ◌∷◌, ◌≡◌,
}
use nns.Base.Text.{Str, codes}
use nns.LightVerify.Flow.{Flow, exit, go}
use nns.LightVerify.Report.{
  Checked, chain_line, checkpoint_line, first_lines, last_lines, mode_lines, output, print_report,
  row_line, stark_line, truncate_hex, value_line,
}
use nns.Wallet.{AccumulatorEntryJson, PathY4LookupBundle}

-- the verdict lines of the report
pub data Verdict : Type 0 where
  stark_passed : Verdict
  stark_skipped : Verdict
  row_passed : Verdict
  row_skipped : Verdict
  row_absent : Verdict
  chain_passed : Verdict

unfoldable pub line_of : Verdict → Str
line_of stark_passed = codes "  [PASS] recursive Vesl STARK (%verify-stark-explicit)"
line_of stark_skipped = codes "  [SKIP] recursive Vesl STARK (empty / absent proof)"
line_of row_passed = codes "  [PASS] z-map row (%verify-accumulator-snapshot)"
line_of row_skipped = codes "  [SKIP] z-map row (no snapshot; Y2 relax)"
line_of row_absent = codes "  [SKIP] z-map row (no value in bundle)"
line_of chain_passed = codes "  [PASS] header chain to checkpoint"

-- the lines have different lengths
verdict_of : ℕ → Verdict
verdict_of n =
    if n == 54
    then stark_passed
    else if n == 52
    then stark_skipped
    else if n == 49
    then row_passed
    else if n == 42
    then row_skipped
    else if n == 39
    then row_absent
    else chain_passed

verdict_of-line : (v : Verdict) → verdict_of (length (line_of v)) ≡ v
unfolding verdict_of line_of
verdict_of-line stark_passed = refl
verdict_of-line stark_skipped = refl
verdict_of-line row_passed = refl
verdict_of-line row_skipped = refl
verdict_of-line row_absent = refl
verdict_of-line chain_passed = refl

pub line_of-injective : (u v : Verdict) → line_of u ≡ line_of v → u ≡ v
line_of-injective u v e =
    sym (verdict_of-line u) ∙ ap (λ l. verdict_of (length l)) e ∙ verdict_of-line v

-- whether the third character is the bracket of a verdict
marked : Str → Bool
marked (a ∷ b ∷ c ∷ cs) = c == b'['
marked s = false

line_of-marked : (v : Verdict) → marked (line_of v) ≡ true
unfolding marked line_of
line_of-marked stark_passed = refl
line_of-marked stark_skipped = refl
line_of-marked row_passed = refl
line_of-marked row_skipped = refl
line_of-marked row_absent = refl
line_of-marked chain_passed = refl

-- A verdict line stands after the lines that are not marked.
after-unmarked :
    (v : Verdict) (xs ys : List Str)
    → All (λ x. marked x ≡ false) xs
    → Memᴰ (line_of v) (xs ++ ys)
    → Memᴰ (line_of v) ys
after-unmarked v [] ys h m = m
after-unmarked v (x ∷ xs) ys h m = elim (Memᴰ.cases_cons m) [
  | inl e ↦ let is_marked = line_of-marked v in cc (ap marked e)
  | inr more ↦ after-unmarked v xs ys h.1 more
]

first_lines-unmarked : (b : PathY4LookupBundle) → All (λ x. marked x ≡ false) (first_lines b)
unfolding marked first_lines
first_lines-unmarked b = (refl, (refl, tt))

value_line-unmarked : (o : Option AccumulatorEntryJson) → marked (value_line o) ≡ false
unfolding marked value_line
value_line-unmarked none = refl
value_line-unmarked (some v) = refl

mode_lines-unmarked : (a b : Bool) → All (λ x. marked x ≡ false) (mode_lines a b)
unfolding marked mode_lines
mode_lines-unmarked true true = (refl, tt)
mode_lines-unmarked true false = (refl, tt)
mode_lines-unmarked false true = (refl, tt)
mode_lines-unmarked false false = tt

checkpoint_line-unmarked : (h : ℕ) (s : Str) → marked (checkpoint_line h s) ≡ false
unfolding marked checkpoint_line
checkpoint_line-unmarked h s = refl

unfoldable pub verdict_lines : Checked → List Str
verdict_lines c = stark_line c.stark_ok ∷ row_line c.bundle.value c.acc_ok ∷ chain_line ∷ []

last_lines-verdict :
    (v : Verdict) (c : Checked) (shown : Str)
    → Memᴰ (line_of v) (last_lines c shown)
    → Memᴰ (line_of v) (verdict_lines c)
unfolding last_lines verdict_lines marked
last_lines-verdict v c shown m =
    let after_two =
      after-unmarked v (checkpoint_line c.cp_height shown ∷ value_line c.bundle.value ∷ []) _
        (checkpoint_line-unmarked c.cp_height shown, (value_line-unmarked c.bundle.value, tt)) m in
    let after_modes =
      after-unmarked v (mode_lines c.cli.allow_empty_recursive c.cli.allow_missing_z_in) _
        (mode_lines-unmarked c.cli.allow_empty_recursive c.cli.allow_missing_z_in) after_two in
    after-unmarked v (codes "checks:" ∷ []) (verdict_lines c) (refl, tt) after_modes

print_report-verdict :
    (v : Verdict) (c : Checked) (o : Option Str)
    → Memᴰ (line_of v) (print_report c o).lines
    → Memᴰ (line_of v) (verdict_lines c)
unfolding print_report
print_report-verdict v c none m =
    let lines = first_lines c.bundle in
    let nowhere = after-unmarked v lines [] (first_lines-unmarked c.bundle) (rw append-nil m) in
    elim nowhere [ ]
print_report-verdict v c (some shown) m =
    last_lines-verdict v c shown (
      after-unmarked v (first_lines c.bundle) (last_lines c shown) (first_lines-unmarked c.bundle)
        m)

-- A verdict line is printed by a report.
pub printed_by :
    (m : Flow Checked) (v : Verdict)
    → Memᴰ (line_of v) (output m).lines
    → (c : Checked) × (m ≡ go c) × Memᴰ (line_of v) (verdict_lines c)
unfolding output
printed_by (exit code) v m = elim m [ ]
printed_by (go c) v m = (c, refl, print_report-verdict v c (truncate_hex c.cp_hex 12) m)
