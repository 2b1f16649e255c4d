-- ===== src/LightVerify/Report.antt =====
-- The report of `main` on the standard output. A line is what one `println!` prints: the name is
-- printed as it is, line breaks included.
pub mod Verdicts
use mathlib.Core.Option
use Prim.Native.Char.{code}
use nns.Base.{
  Bool, List, Option, [], false, if◌then◌else◌, leb, length, max, none, some, suc, true, zero, ℕ,
  ◌++◌, ◌-◌, ◌/◌, ◌∷◌,
}
use nns.Base.Display.{to_string}
use nns.Base.Text.{Str, codes, utf8}
use nns.LightVerify.Args.{Cli}
use nns.LightVerify.Flow.{Flow, exit, go}
use nns.Wallet.{AccumulatorEntryJson, PathY4LookupBundle}

-- `&s[..n]` for a string: the characters that make up the first `n` bytes; `none` is the panic of
-- a cut inside a character, or past the end
unfoldable pub byte_prefix : ℕ → Str → Option Str
byte_prefix zero s = some []
byte_prefix (suc n) [] = none
byte_prefix (suc n) (c ∷ cs) =
    let width = length (utf8 (c ∷ [])) in
    let rest = byte_prefix (suc n - width) cs in
    if leb width (suc n) then Option.map (λ p. c ∷ p) rest else none

unfoldable pub truncate_hex : Str → ℕ → Option Str
unfolding byte_prefix
truncate_hex s max =
    if leb (length (utf8 s)) max
    then some s
    else Option.map (λ p. p ++ codes "…") (byte_prefix ((max - 1) / 2) s)

-- what `main` knows when all checks are done
pub record Checked : Type 0 where
  pub cli : Cli
  pub cp_height : ℕ
  pub cp_hex : Str
  pub bundle : PathY4LookupBundle
  pub stark_ok : Bool
  pub acc_ok : Bool

abbrev bool_text : Bool → Str
bool_text true = codes "true"
bool_text false = codes "false"

-- the lines up to the first that can panic
unfoldable pub first_lines : PathY4LookupBundle → List Str
first_lines bundle =
    (codes "verified: " ++ bundle.name)
    ∷ (codes "  last_proved_height: " ++ to_string bundle.last_proved_height)
    ∷ []

unfoldable pub checkpoint_line : ℕ → Str → Str
checkpoint_line height shown =
    codes "  checkpoint: height=" ++ to_string height ++ codes " (" ++ shown ++ codes "…)"

unfoldable pub value_line : Option AccumulatorEntryJson → Str
value_line (some v) = codes "  value: present"
value_line none = codes "  value: absent"

unfoldable pub mode_lines : Bool → Bool → List Str
mode_lines true true = codes "  mode: path-y2-dev (both Y2 relax flags set)" ∷ []
mode_lines false false = []
mode_lines empty_recursive missing_z_in =
    (codes "  mode: partial Y2 relax (empty_recursive="
      ++ bool_text empty_recursive
      ++ codes " missing_z_in="
      ++ bool_text missing_z_in
      ++ codes ")")
    ∷ []

unfoldable pub stark_line : Bool → Str
stark_line true = codes "  [PASS] recursive Vesl STARK (%verify-stark-explicit)"
stark_line false = codes "  [SKIP] recursive Vesl STARK (empty / absent proof)"

unfoldable pub row_line : Option AccumulatorEntryJson → Bool → Str
row_line (some v) true = codes "  [PASS] z-map row (%verify-accumulator-snapshot)"
row_line (some v) false = codes "  [SKIP] z-map row (no snapshot; Y2 relax)"
row_line none acc_ok = codes "  [SKIP] z-map row (no value in bundle)"

abbrev pub chain_line : Str
chain_line = codes "  [PASS] header chain to checkpoint"

unfoldable pub last_lines : Checked → Str → List Str
unfolding checkpoint_line value_line mode_lines stark_line row_line
last_lines c shown =
    checkpoint_line c.cp_height shown
      ∷ value_line c.bundle.value
      ∷ mode_lines c.cli.allow_empty_recursive c.cli.allow_missing_z_in
    ++ (codes "checks:"
        ∷ stark_line c.stark_ok
        ∷ row_line c.bundle.value c.acc_ok
        ∷ chain_line
        ∷ [])

-- what the process has printed, and its exit code
pub record Output : Type 0 where
  pub lines : List Str
  pub exit_code : ℕ

unfoldable pub print_report : Checked → Option Str → Output
unfolding first_lines last_lines
print_report c none = record { lines = first_lines c.bundle; exit_code = 101 }
print_report c (some shown) = record {
  lines = first_lines c.bundle ++ last_lines c shown;
  exit_code = 0;
}

unfoldable pub output : Flow Checked → Output
unfolding truncate_hex print_report
output (exit code) = record { lines = []; exit_code = code }
output (go c) = print_report c (truncate_hex c.cp_hex 12)
