-- ===== src/LightVerify/Main/Verified.antt =====
-- What a section of `main` has checked when the run goes on after it.
use Prim.Native.Char.{code}
use mathlib.Core.Path.{subst}
use nns.Base.{
  Bool, Bool-cases, List, Option, [], ap, arith, false, inl, inr, is_empty, none, not, refl, some,
  true, ℕ, ◌&&◌, ◌∙◌, ◌∷◌, ◌≡◌, ◌⊎◌,
}
use nns.Base.Result.{Result, ok}
use nns.Base.Strings.{trim}
use nns.Base.Text.{Bytes, Str}
use nns.Hex.{hex_decode_even}
use nns.Hex.Nonempty.{hex_decode_even-nonempty}
use nns.Kernel.Verify.{verify_accumulator_snapshot_offline, verify_stark_explicit_offline}
use nns.LightVerify.Args.{Cli}
use nns.LightVerify.Flow.{>>=-eq-go, go, or_exit, or_exit-eq-go, some_or_exit, some_or_exit-eq-go}
use nns.LightVerify.Main.{
  decode_proof_hex, decode_recursive_proof, exit_if, has_no_bytes, is_none, parse_entry_hex,
  trimmed_nonempty, verify_accumulator_section, verify_proof, verify_row, verify_snapshot,
  verify_stark_section,
}
use nns.LightVerify.Main.Accepts.{RowVerdict, RowVerified, StarkVerdict, StarkVerified}
use nns.LightVerify.Main.Given.{
  decode_proof_hex-none, decode_proof_hex-some, parse_entry_hex-ok, trimmed_nonempty-none,
  trimmed_nonempty-some,
}
use nns.Noun.{Noun, NounLib}
use nns.Wallet.{AccumulatorEntryJson, PathY4LookupBundle}

module _ ⦃lib : NounLib⦄ (run : Bytes → Noun → Result (List Noun))
    (read_file : Str → Result Bytes) where
  pub exit_if-go : (b : Bool) (code : ℕ) {u : Unit {0}} → exit_if b code ≡ go u → b ≡ false
  exit_if-go true code h = cc
  exit_if-go false code h = refl

  verify_proof-go :
      (cli : Cli) (bundle : PathY4LookupBundle) (b : Bytes) (sj fj : Str) (v : Bool)
      → decode_recursive_proof bundle ≡ go (some b)
      → trimmed_nonempty bundle.recursive_subject_jam_hex ≡ some sj
      → trimmed_nonempty bundle.recursive_formula_jam_hex ≡ some fj
      → verify_proof run read_file cli b sj fj ≡ go v
      → (v ≡ true) × StarkVerified run read_file cli bundle
  unfolding verify_proof decode_recursive_proof
  verify_proof-go cli bundle b sj fj v hb hsj hfj h =
      let (pj, hpj, hp) = decode_proof_hex-some bundle.recursive_proof_hex b hb in
      let (s, hs, h1) = >>=-eq-go (or_exit (hex_decode_even sj) 2) _ h in
      let (f, hf, h2) = >>=-eq-go (or_exit (hex_decode_even fj) 2) _ h1 in
      let (k, hk, h3) = >>=-eq-go (or_exit (read_file cli.kernel_jam_path) 7) _ h2 in
      let (r, hr, h4) = >>=-eq-go (or_exit (verify_stark_explicit_offline run k b s f) 7) _ h3 in
      let (_, he, h5) = >>=-eq-go (exit_if (not r) 7) _ h4 in
      let yes : r ≡ true = ground (arith, exit_if-go (not r) 7 he) in
      let said : v ≡ true = cc in
      (
        said,
        record {
          proof = b;
          proof_hex = pj;
          subject = s;
          formula = f;
          subject_hex = sj;
          formula_hex = fj;
          kernel_jam = k;
          proof_given = hpj;
          proof_decodes = hp;
          subject_given = trimmed_nonempty-some _ sj hsj;
          subject_decodes = or_exit-eq-go _ 2 hs;
          formula_given = trimmed_nonempty-some _ fj hfj;
          formula_decodes = or_exit-eq-go _ 2 hf;
          kernel_read = or_exit-eq-go _ 7 hk;
          yes_stark = or_exit-eq-go _ 7 hr ∙ ap ok yes;
        },
      )

  pub verify_stark_section-go :
      (cli : Cli) (bundle : PathY4LookupBundle) (r : Option Bytes) (v : Bool)
      → decode_recursive_proof bundle ≡ go r
      → verify_stark_section run read_file cli bundle r ≡ go v
      → ((v ≡ true) × StarkVerified run read_file cli bundle)
        ⊎ ((v ≡ false) × (has_no_bytes r ≡ true))
  unfolding verify_stark_section
  verify_stark_section-go cli bundle none v hr h = inr (cc, refl)
  verify_stark_section-go cli bundle (some []) v hr h = inr (cc, refl)
  verify_stark_section-go cli bundle (some (x ∷ xs)) v hr h =
      let (sj, hsj, h1) =
        >>=-eq-go (some_or_exit (trimmed_nonempty bundle.recursive_subject_jam_hex) 7) _ h in
      let (fj, hfj, h2) =
        >>=-eq-go (some_or_exit (trimmed_nonempty bundle.recursive_formula_jam_hex) 7) _ h1 in
      inl (
        verify_proof-go cli bundle (x ∷ xs) sj fj v hr (some_or_exit-eq-go _ 7 hsj)
          (some_or_exit-eq-go _ 7 hfj) h2)

  decode_proof_hex-nonempty :
      (o : Option Str) (b : Bytes) → decode_proof_hex o ≡ go (some b) → is_empty b ≡ false
  unfolding decode_proof_hex
  decode_proof_hex-nonempty none b h = cc
  decode_proof_hex-nonempty (some s) b h = elim (Bool-cases (is_empty (trim s))) [
    | inl e ↦ cc (rw e at h)
    | inr e ↦
        let (d, hd, h1) = >>=-eq-go (or_exit (hex_decode_even (trim s)) 2) _ (rw e at h) in
        let same : d ≡ b = cc in hex_decode_even-nonempty s b e (or_exit-eq-go _ 2 hd ∙ ap ok same)
  ]

  verify_snapshot-go :
      (cli : Cli) (bundle : PathY4LookupBundle) (v : AccumulatorEntryJson) (root : Bytes) (sh : Str)
      (a : Bool)
      → hex_decode_even bundle.accumulator_root_hex ≡ ok root
      → trimmed_nonempty bundle.accumulator_snapshot_jam_hex ≡ some sh
      → verify_snapshot run read_file cli bundle v root sh ≡ go a
      → (a ≡ true) × RowVerified run read_file cli bundle v
  unfolding verify_snapshot
  verify_snapshot-go cli bundle v root sh a hroot hsh h =
      let (acc, ha, h1) = >>=-eq-go (or_exit (hex_decode_even sh) 2) _ h in
      let (hs, hh, h2) = >>=-eq-go (or_exit (parse_entry_hex v) 2) _ h1 in
      let (k, hk, h3) = >>=-eq-go (or_exit (read_file cli.kernel_jam_path) 7) _ h2 in
      let (r, hr, h4) =
        >>=-eq-go
          (or_exit
            (verify_accumulator_snapshot_offline run k root acc (trim bundle.name) (trim v.owner)
              hs.0 v.claim_height hs.1)
            7)
          _ h3 in
      let (_, he, h5) = >>=-eq-go (exit_if (not r) 10) _ h4 in
      let yes : r ≡ true = ground (arith, exit_if-go (not r) 10 he) in
      let said : a ≡ true = cc in
      (
        said,
        record {
          root = root;
          snapshot = acc;
          snapshot_hex = sh;
          tx_hash = hs.0;
          block_digest = hs.1;
          kernel_jam = k;
          root_decodes = hroot;
          snapshot_given = trimmed_nonempty-some _ sh hsh;
          snapshot_decodes = or_exit-eq-go _ 2 ha;
          tx_hash_decodes = (parse_entry_hex-ok v hs (or_exit-eq-go _ 2 hh)).0;
          block_digest_decodes = (parse_entry_hex-ok v hs (or_exit-eq-go _ 2 hh)).1;
          kernel_read = or_exit-eq-go _ 7 hk;
          yes_row = or_exit-eq-go _ 7 hr ∙ ap ok yes;
        },
      )

  verify_row-go :
      (cli : Cli) (bundle : PathY4LookupBundle) (v : AccumulatorEntryJson) (root : Bytes)
      (o : Option Str) (a : Bool)
      → hex_decode_even bundle.accumulator_root_hex ≡ ok root
      → trimmed_nonempty bundle.accumulator_snapshot_jam_hex ≡ o
      → verify_row run read_file cli bundle v root o ≡ go a
      → RowVerdict run read_file cli bundle v a
  unfolding verify_row RowVerdict
  verify_row-go cli bundle v root none a hroot ho h =
      let (_, he, h1) = >>=-eq-go (exit_if (not cli.allow_missing_z_in) 9) _ h in
      let allowed = exit_if-go _ 9 he in inr (cc, trimmed_nonempty-none _ ho, ground arith)
  verify_row-go cli bundle v root (some sh) a hroot ho h =
      inl (verify_snapshot-go cli bundle v root sh a hroot ho h)

  pub verify_accumulator_section-go :
      (cli : Cli) (bundle : PathY4LookupBundle) (root : Bytes) (o : Option AccumulatorEntryJson)
      (a : Bool)
      → hex_decode_even bundle.accumulator_root_hex ≡ ok root
      → verify_accumulator_section run read_file cli bundle o root ≡ go a
      → (v : AccumulatorEntryJson) → o ≡ some v
      → RowVerdict run read_file cli bundle v a
  unfolding verify_accumulator_section
  verify_accumulator_section-go cli bundle root none a hroot h v hv = cc
  verify_accumulator_section-go cli bundle root (some w) a hroot h v hv =
      let same : w ≡ v = cc in
      subst (λ x. RowVerdict run read_file cli bundle x a) same
        (verify_row-go cli bundle w root (trimmed_nonempty bundle.accumulator_snapshot_jam_hex) a
          hroot refl h)

  pub stark-or-allowed :
      (cli : Cli) (bundle : PathY4LookupBundle) (r : Option Bytes) (v : Bool)
      → decode_recursive_proof bundle ≡ go r
      → verify_stark_section run read_file cli bundle r ≡ go v
      → (has_no_bytes r && is_none r && not cli.allow_empty_recursive) ≡ false
      → StarkVerdict run read_file cli bundle v
  unfolding decode_recursive_proof verify_stark_section StarkVerdict
  stark-or-allowed cli bundle none v hr h allowed =
      inr (cc, decode_proof_hex-none bundle.recursive_proof_hex hr, ground arith)
  stark-or-allowed cli bundle (some b) v hr h allowed =
      elim (verify_stark_section-go cli bundle (some b) v hr h) [
        | inl ver ↦ inl ver
        | inr (_, no_bytes) ↦
            let full = decode_proof_hex-nonempty bundle.recursive_proof_hex b hr in cc
      ]
