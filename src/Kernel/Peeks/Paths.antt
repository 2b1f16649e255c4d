-- ===== src/Kernel/Peeks/Paths.antt =====
-- The peek paths: a tag, sometimes a name, and the null terminator.
use nns.Base.{String}
use nns.Base.Text.{Str}
use nns.Noun.{Noun, NounLib, atom, make_cord, make_tag, ◌⸬◌}

module _ ⦃lib : NounLib⦄ where
  unfoldable pub single_tag_peek : String → Noun
  single_tag_peek tag = make_tag tag ⸬ atom 0

  unfoldable pub name_peek : String → Str → Noun
  name_peek tag name = make_tag tag ⸬ make_cord name ⸬ atom 0

  abbrev pub build_scan_state_peek : Noun
  build_scan_state_peek = single_tag_peek "scan-state"

  abbrev pub build_recursive_proof_peek : Noun
  build_recursive_proof_peek = single_tag_peek "recursive-proof"

  abbrev pub build_accumulator_jam_peek : Noun
  build_accumulator_jam_peek = single_tag_peek "accumulator-jam"

  abbrev pub build_accumulator_peek : Str → Noun
  build_accumulator_peek = name_peek "accumulator"

  abbrev pub build_accumulator_proof_peek : Str → Noun
  build_accumulator_proof_peek = name_peek "accumulator-proof"

  abbrev pub build_snapshot_peek : Noun
  build_snapshot_peek = single_tag_peek "snapshot"

  abbrev pub build_pending_batch_peek : Noun
  build_pending_batch_peek = single_tag_peek "pending-batch"

  abbrev pub build_last_settled_peek : Noun
  build_last_settled_peek = single_tag_peek "last-settled"

  abbrev pub build_owner_peek : Str → Noun
  build_owner_peek = name_peek "owner"

  abbrev pub build_accumulator_root_peek : Noun
  build_accumulator_root_peek = single_tag_peek "accumulator-root"

  abbrev pub build_parity_trace_genesis_peek : Noun
  build_parity_trace_genesis_peek = single_tag_peek "parity-trace-genesis"

  abbrev pub build_parity_trace_transition_empty_peek : Noun
  build_parity_trace_transition_empty_peek = single_tag_peek "parity-trace-transition-empty"

  abbrev pub build_parity_trace_transition_full_peek : Noun
  build_parity_trace_transition_full_peek = single_tag_peek "parity-trace-transition-full"

  abbrev pub build_kernel_debug_peek : Noun
  build_kernel_debug_peek = single_tag_peek "kernel-debug"

  abbrev pub build_proof_peek : Str → Noun
  build_proof_peek = name_peek "proof"

  abbrev pub build_anchor_peek : Noun
  build_anchor_peek = single_tag_peek "anchor"

  abbrev pub build_fee_for_name_peek : Str → Noun
  build_fee_for_name_peek = name_peek "fee-for-name"
