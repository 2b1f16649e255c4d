-- ===== src/Follower/Apply/Cursor/Steps.antt =====
-- The steps after a `%scan-block` poke leave the kernel's cursor where the poke has put it.
-- Steps that leave the cursor where it is.
use mathlib.Core.Path.{subst}
use nns.Base.{List, Option, String, [], arith, none, refl, some, sym, ℕ, ◌∙◌, ◌≡◌}
use nns.Base.Result.{Error, Result, context, err, ok, panic}
use nns.Base.Text.{Bytes}
use nns.Chain.Blocks.{ScanBlockFetch}
use nns.Chain.Node.{NodeApi}
use nns.Chain.TxOrder.{ZSetLib}
use nns.Claim.{NoteLib}
use nns.Follower.Apply.Cursor.{KernelCursor, Shows, ShowsIn}
use nns.Follower.Block.{
  after_effects, count_scan, poke_transition, previous_proof, prove_transition, read_effects,
  try_y3_recursive_transition_after_block,
}
use nns.Follower.Keeps.{Keeps, bind-Keeps, fail-Keeps, pure-Keeps, then-Keeps}
use nns.Follower.Monad.{Action, Env, KernelApi, World, note_error, peek_kernel, try_note_error}
use nns.Kernel.Peeks.Paths.{build_recursive_proof_peek}
use nns.Kernel.Pokes.{build_prove_recursive_transition_poke}
use nns.Kernel.Types.{ClaimCandidate, ScanBlockDone}
use nns.Noun.{Noun, NounLib}
use nns.Packed.{BeltLib}
use nns.Payment.{TxLib}

module _ ⦃k : KernelApi⦄ ⦃lib : NounLib⦄ ⦃node : NodeApi⦄ ⦃tx : TxLib⦄ ⦃z : ZSetLib⦄
    ⦃belt : BeltLib⦄ ⦃notes : NoteLib⦄ (cursor : KernelCursor) (env : Env) (at : ℕ × Bytes) where
  pub hull-Shows :
      {A : Type 0} (m : Action k.State A)
      → ((w : World k.State) → (m w).1.kernel ≡ w.kernel)
      → Keeps (ShowsIn cursor at) m
  hull-Shows m same = record { after = λ w h. subst (Shows cursor at) (sym (same w)) h }

  note_error-Shows :
      (phase : String) (e : Error) → Keeps (ShowsIn cursor at) (note_error env phase e)
  unfolding note_error
  note_error-Shows phase e = hull-Shows _ λ w. refl

  try_note_error-Shows :
      (phase : String) (e : Error) → Keeps (ShowsIn cursor at) (try_note_error env phase e)
  unfolding try_note_error
  try_note_error-Shows phase e = hull-Shows _ λ w. ground arith

  poke_transition-Shows :
      (proof subject formula page : Bytes) (ids : List Bytes) (claims : List ClaimCandidate)
      (r : Option Noun)
      → build_prove_recursive_transition_poke proof subject formula page ids claims [] ≡ r
      → Keeps (ShowsIn cursor at) (poke_transition env r)
  unfolding poke_transition
  poke_transition-Shows p s f page ids claims none e = fail-Keeps (ShowsIn cursor at) panic
  poke_transition-Shows p s f page ids claims (some cause) e = record {
    after = λ w h.
        let (same_height, same_digest) =
          cursor.proved_transition w.kernel p s f page ids claims [] cause e in
        record { height = same_height ∙ h.height; digest = same_digest ∙ h.digest };
  }

  try_y3-Shows :
      (b : ScanBlockFetch) (claims : List ClaimCandidate)
      → Keeps (ShowsIn cursor at) (try_y3_recursive_transition_after_block env b claims)
  unfolding try_y3_recursive_transition_after_block
  try_y3-Shows b claims =
      bind-Keeps (ShowsIn cursor at) _ _
        (hull-Shows (peek_kernel build_recursive_proof_peek) λ w. refl)
        λ r. transition (previous_proof env r)
    where
      transition :
          (previous : Option (Bytes × Bytes × Bytes))
          → Keeps (ShowsIn cursor at) (prove_transition env b claims previous)
      transition none = pure-Keeps (ShowsIn cursor at) tt
      transition (some (p, s, f)) =
          poke_transition-Shows p s f b.page_digest b.page_tx_ids claims _ refl

  count_scan-Shows : (done : ScanBlockDone) → Keeps (ShowsIn cursor at) (count_scan env done)
  unfolding count_scan
  count_scan-Shows done = hull-Shows _ λ w. refl

  after_effects-Shows :
      (b : ScanBlockFetch) (claims : List ClaimCandidate) (r : Result ScanBlockDone)
      → Keeps (ShowsIn cursor at) (after_effects env b claims r)
  unfolding after_effects
  after_effects-Shows b claims (err e) =
      then-Keeps (ShowsIn cursor at) _ _ (note_error-Shows "scan_poke" e)
        (fail-Keeps (ShowsIn cursor at) e)
  after_effects-Shows b claims (ok done) =
      bind-Keeps (ShowsIn cursor at) _ _ (try_y3-Shows b claims) λ u. count_scan-Shows done

  pub read_effects-Shows :
      (b : ScanBlockFetch) (claims : List ClaimCandidate) (r : Result (List Noun))
      → Keeps (ShowsIn cursor at) (read_effects env b claims r)
  unfolding read_effects
  read_effects-Shows b claims (err e) =
      then-Keeps (ShowsIn cursor at) _ _
        (try_note_error-Shows "scan_poke" (context "scan-block poke failed" e))
        (fail-Keeps (ShowsIn cursor at) (context "scan-block poke failed" e))
  read_effects-Shows b claims (ok effects) = after_effects-Shows b claims _
