-- ===== src/LightVerify/Main/Truthful.antt =====
-- What the verdict lines of the report say of the bundle.
use mathlib.Core.List.Memᴰ
use Prim.Native.Char.{code}
use mathlib.Core.List.{Memᴰ}
use mathlib.Core.Path.{subst}
use nns.Base.{
  All, Bool, List, Option, [], ap, false, inl, inr, none, refl, some, sym, true, ◌∙◌, ◌∷◌, ◌≡◌,
}
use nns.Base.Result.{Result, ok}
use nns.Base.Text.{Bytes, Str}
use nns.LightVerify.Args.{Cli, initial_cli, parse_args}
use nns.LightVerify.Flow.{Flow, exit, go, ◌>>=◌}
use nns.LightVerify.Main.{checks, main}
use nns.LightVerify.Main.Accepts.{
  Accepted, ChainVerified, RowVerdict, RowVerified, StarkVerdict, StarkVerified,
}
use nns.LightVerify.Main.Given.{IsBlank}
use nns.LightVerify.Main.Sections.{checks-Accepted}
use nns.LightVerify.Report.{Checked, output, row_line, stark_line}
use nns.LightVerify.Report.Verdicts.{
  Verdict, chain_passed, line_of, line_of-injective, printed_by, row_absent, row_passed,
  row_skipped, stark_passed, stark_skipped, verdict_lines,
}
use nns.Noun.{Noun, NounLib}
use nns.Wallet.{AccumulatorEntryJson, PathY4LookupBundle}

module _ ⦃lib : NounLib⦄ (run : Bytes → Noun → Result (List Noun))
    (read_file : Str → Result Bytes) where
  -- What a verdict line says of the arguments and the bundle.
  pub Holds : Verdict → Cli → PathY4LookupBundle → Type 0
  Holds stark_passed cli bundle = StarkVerified run read_file cli bundle
  Holds stark_skipped cli bundle =
      IsBlank bundle.recursive_proof_hex × (cli.allow_empty_recursive ≡ true)
  Holds row_passed cli bundle =
      (v : AccumulatorEntryJson) × (bundle.value ≡ some v) × RowVerified run read_file cli bundle v
  Holds row_skipped cli bundle =
      (v : AccumulatorEntryJson) × (bundle.value ≡ some v)
      × IsBlank bundle.accumulator_snapshot_jam_hex
      × (cli.allow_missing_z_in ≡ true)
  Holds row_absent cli bundle = bundle.value ≡ none
  Holds chain_passed cli bundle = ChainVerified run read_file cli bundle

  -- A line of the report that is true.
  IsTrue : Cli → PathY4LookupBundle → Str → Type 0
  IsTrue cli bundle line = (u : Verdict) × (line ≡ line_of u) × Holds u cli bundle

  stark_line-IsTrue :
      (cli : Cli) (bundle : PathY4LookupBundle) (b : Bool)
      → StarkVerdict run read_file cli bundle b
      → IsTrue cli bundle (stark_line b)
  unfolding IsTrue Holds StarkVerdict stark_line line_of
  stark_line-IsTrue cli bundle true (inl h) = (stark_passed, refl, h.1)
  stark_line-IsTrue cli bundle true (inr h) = cc
  stark_line-IsTrue cli bundle false (inl h) = cc
  stark_line-IsTrue cli bundle false (inr h) = (stark_skipped, refl, (h.1, h.2))

  row-IsTrue :
      (cli : Cli) (bundle : PathY4LookupBundle) (v : AccumulatorEntryJson) (a : Bool)
      → bundle.value ≡ some v
      → RowVerdict run read_file cli bundle v a
      → IsTrue cli bundle (row_line (some v) a)
  unfolding IsTrue Holds RowVerdict row_line line_of
  row-IsTrue cli bundle v true e (inl h) = (row_passed, refl, (v, e, h.1))
  row-IsTrue cli bundle v true e (inr h) = cc
  row-IsTrue cli bundle v false e (inl h) = cc
  row-IsTrue cli bundle v false e (inr h) = (row_skipped, refl, (v, e, h.1, h.2))

  row_line-IsTrue :
      (cli : Cli) (bundle : PathY4LookupBundle) (o : Option AccumulatorEntryJson) (a : Bool)
      → bundle.value ≡ o
      → ((v : AccumulatorEntryJson) → o ≡ some v → RowVerdict run read_file cli bundle v a)
      → IsTrue cli bundle (row_line o a)
  unfolding IsTrue Holds row_line line_of
  row_line-IsTrue cli bundle none a e h = (row_absent, refl, e)
  row_line-IsTrue cli bundle (some v) a e h = row-IsTrue cli bundle v a e (h v refl)

  verdict_lines-IsTrue :
      (c : Checked) → Accepted run read_file c → All (IsTrue c.cli c.bundle) (verdict_lines c)
  unfolding verdict_lines IsTrue Holds line_of
  verdict_lines-IsTrue c h = (
    stark_line-IsTrue c.cli c.bundle c.stark_ok h.stark,
    (
      row_line-IsTrue c.cli c.bundle c.bundle.value c.acc_ok refl h.row,
      ((chain_passed, refl, h.chain), tt),
    ),
  )

  line-Holds :
      (cli : Cli) (bundle : PathY4LookupBundle) (v : Verdict) (lines : List Str)
      → All (IsTrue cli bundle) lines
      → Memᴰ (line_of v) lines
      → Holds v cli bundle
  unfolding IsTrue
  line-Holds cli bundle v [] h m = elim m [ ]
  line-Holds cli bundle v (l ∷ ls) h m = elim (Memᴰ.cases_cons m) [
    | inl e ↦
        let (u, eu, hu) = h.0 in
        subst (λ x. Holds x cli bundle) (sym (line_of-injective v u (e ∙ eu))) hu
    | inr more ↦ line-Holds cli bundle v ls h.1 more
  ]

  output-Holds :
      (parsed : Flow Cli) (input : Result PathY4LookupBundle) (v : Verdict)
      → Memᴰ (line_of v) (output (parsed >>= λ cli. checks run read_file cli input)).lines
      → (cli : Cli) × (bundle : PathY4LookupBundle) × (parsed ≡ go cli)
        × (input ≡ ok bundle)
        × Holds v cli bundle
  unfolding output
  output-Holds (exit code) input v m = elim m [ ]
  output-Holds (go cli) input v m =
      let (c, e, printed) = printed_by (checks run read_file cli input) v m in
      let (same, h_in, all_done) = checks-Accepted run read_file cli input c e in
      (
        c.cli,
        c.bundle,
        ap go same,
        h_in,
        line-Holds c.cli c.bundle v (verdict_lines c) (verdict_lines-IsTrue c all_done) printed,
      )

  -- A verdict line that a run prints is true of its arguments and its bundle, however the run ends:
  -- a check that is said to pass has passed; a proof that is said to be skipped is absent, and a
  -- flag allows that; a row that is said to be skipped for want of a snapshot is in a bundle
  -- without one, and a flag allows that; a row that is said to be absent is absent.
  pub main-Holds :
      (env : Option Str) (args : List Str) (input : Result PathY4LookupBundle) (v : Verdict)
      → Memᴰ (line_of v) (main run read_file env args input).lines
      → (cli : Cli) × (bundle : PathY4LookupBundle) × (parse_args (initial_cli env) args ≡ go cli)
        × (input ≡ ok bundle)
        × Holds v cli bundle
  unfolding main
  main-Holds env args input v m = output-Holds (parse_args (initial_cli env) args) input v m
