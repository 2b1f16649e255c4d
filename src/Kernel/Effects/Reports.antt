-- ===== src/Kernel/Effects/Reports.antt =====
-- What the hull reads in the kernel's report on a block.
use nns.Base.{arith, ltb, none, refl, some, true, ℕ, ◌<◌, ◌=?◌, ◌^◌, ◌≡◌}
use nns.Base.Strings.{trim_end_matches}
use nns.Base.Text.{Str, codes}
use nns.Kernel.Effects.{effect_tag, error_message, payload, scan_block_done, scan_block_error}
use nns.Kernel.Types.{ScanBlockDone}
use nns.Noun.{Noun, NounLib, as_ne_bytes, as_u64, atom, head, le_value, make_cord, tail, ◌⸬◌}
use nns.Noun.Cord.{IsCord, as_cord-make_cord}

abbrev done_tag : Str
done_tag = codes "scan-block-done"

done_tag-IsCord : IsCord done_tag
unfolding trim_end_matches
done_tag-IsCord = record {
  scalars = (
    refl,
    (
      refl,
      (
        refl,
        (
          refl,
          (
            refl,
            (refl, (refl, (refl, (refl, (refl, (refl, (refl, (refl, (refl, (refl, tt)))))))))),
          ),
        ),
      ),
    ),
  );
  trimmed = refl;
}

module _ ⦃lib : NounLib⦄ where
  -- the kernel's report: `[%scan-block-done height digest root]`
  abbrev pub done_report : ℕ → ℕ → ℕ → Noun
  done_report height digest root = make_cord done_tag ⸬ atom height ⸬ atom digest ⸬ atom root

  report-tag : (h d r : ℕ) → effect_tag (done_report h d r) ≡ some done_tag
  unfolding effect_tag head
  report-tag h d r = rw (as_cord-make_cord done_tag done_tag-IsCord) refl

  -- A report on a block whose height has 64 bits is read as that height, with bytes of the values
  -- of the digest and of the root, and it is read neither as a scan error nor as any other error.
  pub scan_block_done-report :
      (h d r : ℕ)
      → h < 2 ^ 64
      → (done : ScanBlockDone) × (scan_block_done (done_report h d r) ≡ some done)
        × (done.height ≡ h)
        × (le_value done.digest ≡ d)
        × (le_value done.accumulator_root ≡ r)
        × (scan_block_error (done_report h d r) ≡ none)
        × (error_message (done_report h d r) ≡ none)
  unfolding scan_block_done scan_block_error error_message payload head tail as_u64 as_ne_bytes ◌=?◌
  scan_block_done-report h d r small =
      let tag = report-tag h d r in
      let fits : ltb h (2 ^ 64) ≡ true = ground arith in
      (
        record { height = h; digest = lib.ne_bytes d; accumulator_root = lib.ne_bytes r },
        rw (tag, fits) refl,
        refl,
        lib.le_value-ne_bytes d,
        lib.le_value-ne_bytes r,
        rw tag refl,
        rw tag refl,
      )
