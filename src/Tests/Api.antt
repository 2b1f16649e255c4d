-- ===== src/Tests/Api.antt =====
-- The API and the dump of the kernel.
use mathlib.Core.Path.{subst}
use nns.Api.{accumulator_handler, bad_request, failed, is_valid_name}
use nns.Api.CaughtUp.{status-caught_up}
use nns.Api.Lookup.{Answers, IsView, NameView, accumulator_handler-view, view_reply}
use nns.Api.Status.{status, status_scan_state}
use nns.Base.{
  String, [], arith, if◌then◌else◌, none, not, refl, some, true, ℕ, ◌+◌, ◌==◌, ◌↔◌, ◌∷◌, ◌≡◌, ◌≤◌,
}
use nns.Base.Result.{Result, err, ok, some-injective, text}
use nns.Base.Strings.{trim_end_matches}
use nns.Base.Text.{Str, codes, utf8}
use nns.Kernel.Debug.{decode_kernel_debug}
use nns.Kernel.Debug.Dump.{
  DumpRow, IsDump, IsRow, KernelDump, decode_kernel_debug-dump, dump_noun, dump_view, row_noun,
}
use nns.Kernel.Peeks.Paths.{name_peek, single_tag_peek}
use nns.Kernel.Types.{ScanState}
use nns.Noun.{Noun, atom, le_value, ◌⸬◌}
use nns.Noun.Cord.{IsCord}
use nns.Samples.Kernels.{sample_world}
use nns.Samples.Nouns.{sample_nouns}
use nns.State.{HullState, default_observability}

abbrev name : Str
name = codes "foo.nock"

name-IsCord : IsCord name
unfolding trim_end_matches
name-IsCord = record {
  scalars = (refl, (refl, (refl, (refl, (refl, (refl, (refl, (refl, tt))))))));
  trimmed = refl;
}

abbrev sample_row : DumpRow
sample_row = record {
  name = name;
  owner = name;
  tx_hash = 300;
  claim_height = 63001;
  block_digest = 5;
}

sample_row-IsRow : IsRow sample_row
sample_row-IsRow = record {
  name_cord = name-IsCord;
  owner_cord = name-IsCord;
  height_fits = omega arith;
}

abbrev sample_dump : KernelDump
sample_dump = record {
  height = 63001;
  digest = 5;
  root = 7;
  size = 1;
  rows = sample_row ∷ [];
  registered = (1, 2) ∷ [];
  settled = 3 ∷ 4 ∷ [];
  last_proved = some (8, 9);
}

sample_dump-IsDump : IsDump sample_dump
sample_dump-IsDump = record {
  height_fits = omega arith;
  size_fits = omega arith;
  rows_fit = (sample_row-IsRow, tt);
}

decode_kernel_debug-dump_example :
    decode_kernel_debug ⦃lib = sample_nouns⦄ (dump_noun ⦃lib = sample_nouns⦄ sample_dump)
    ≡ ok (dump_view ⦃lib = sample_nouns⦄ sample_dump)
decode_kernel_debug-dump_example =
    decode_kernel_debug-dump ⦃lib = sample_nouns⦄ sample_dump sample_dump-IsDump

abbrev sample_view : NameView
sample_view = record {
  row = some sample_row;
  axis = some 6;
  height = 63001;
  digest = 5;
  root = 7;
  size = 1;
  jam = 257;
  proof = none;
}

sample_view-IsView : IsView sample_view
sample_view-IsView = record {
  height_fits = omega arith;
  size_fits = omega arith;
  row_fits = λ r e. subst IsRow (some-injective e) sample_row-IsRow;
}

abbrev tag : String → ℕ
tag s = le_value (utf8 (codes s))

-- `[~ ~ value]`
abbrev some_value : Noun → Result Noun
some_value n = ok (atom 0 ⸬ atom 0 ⸬ n)

-- the kernel's answers, by the first word of the path
answer_of : ℕ → Result Noun
answer_of t =
    if t == tag "accumulator"
    then some_value (atom 0 ⸬ row_noun ⦃lib = sample_nouns⦄ sample_row)
    else if t == tag "accumulator-proof"
    then some_value (atom 0 ⸬ atom 6)
    else if t == tag "scan-state"
    then some_value (atom 63001 ⸬ atom 5 ⸬ atom 7 ⸬ atom 1)
    else if t == tag "accumulator-jam"
    then some_value (atom 257)
    else if t == tag "recursive-proof"
    then some_value (atom 0)
    else err (text "no such path")

answer : Noun → Result Noun
unfolding answer_of
answer (atom t ⸬ rest) = answer_of t
answer noun = err (text "no such path")

answer-Answers : Answers ⦃lib = sample_nouns⦄ answer name sample_view
unfolding answer sample_nouns utf8 name_peek single_tag_peek
answer-Answers = record { row = refl; axis = refl; scan = refl; jam = refl; proof = refl }

accumulator_handler-view_example : accumulator_handler ⦃lib = sample_nouns⦄ answer name true ≡ (
    if not (is_valid_name name)
    then failed (bad_request (text "invalid name"))
    else view_reply ⦃lib = sample_nouns⦄ name true sample_view (some sample_row))
accumulator_handler-view_example =
    accumulator_handler-view ⦃lib = sample_nouns⦄ answer name true sample_view answer-Answers
      sample_view-IsView

name-valid : is_valid_name name ≡ true
unfolding is_valid_name
name-valid = refl

-- a hull that has seen the tip at height 63010
abbrev sample_hull : HullState
sample_hull = record sample_world.hull {
  follower = record default_observability { last_chain_tip_height = some 63010 };
}

status-caught_up_example :
    ((status ⦃lib = sample_nouns⦄ answer (λ s. codes "fakenet") sample_hull 5).follower.is_caught_up
      ≡ some true)
    ↔ ((t : ℕ) × (st : ScanState) × (sample_hull.follower.last_chain_tip_height ≡ some t)
        × (status_scan_state ⦃lib = sample_nouns⦄ answer ≡ some st)
        × (t ≤ st.last_proved_height + 11))
status-caught_up_example =
    status-caught_up ⦃lib = sample_nouns⦄ answer (λ s. codes "fakenet") sample_hull 5
