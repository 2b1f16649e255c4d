-- ===== src/Formula.antt =====
-- src/formula_nock.rs: the search of a formula for the opcodes that the prover cannot trace.
pub mod Banned
use nns.Base.{Bool, false, if◌then◌else◌, leb, true, ℕ, ◌&&◌, ◌||◌}
use nns.Base.Result.{err, ok}
use nns.Noun.{Noun, as_u64, atom, head, tail, ◌⸬◌}

abbrev pub is_banned : ℕ → Bool
is_banned v = leb 9 v && leb v 11

-- the test on the head of a cell: an atom of 64 bits between 9 and 11
unfoldable pub banned_head : Noun → Bool
unfolding as_u64
banned_head head = elim (as_u64 head) [ ok v ↦ is_banned v | err e ↦ false ]

-- `walk`, and `formula_contains_banned_nock_opcodes`
unfoldable pub walk : Noun → Bool
unfolding banned_head
walk (atom n) = false
walk (head ⸬ tail) = if banned_head head then true else walk head || walk tail
