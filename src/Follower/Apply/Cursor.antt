-- ===== src/Follower/Apply/Cursor.antt =====
-- The kernel's cursor under the pokes of the follower.
pub mod Steps
pub mod Moves
pub mod Refines
use nns.Base.{List, none, some, ℕ, ◌≡◌, ◌⊎◌}
use nns.Base.Result.{ok}
use nns.Base.Text.{Bytes}
use nns.Follower.Monad.{KernelApi, World}
use nns.Kernel.Effects.{first_scan_block_done}
use nns.Kernel.Peeks.{decode_scan_state}
use nns.Kernel.Peeks.Paths.{build_scan_state_peek}
use nns.Kernel.Pokes.{
  build_prove_recursive_genesis_poke, build_prove_recursive_transition_poke, build_scan_block_poke,
}
use nns.Kernel.Types.{ClaimCandidate, ScanState}
use nns.Noun.{Noun, NounLib, le_value}
-- What the Hoon program in the kernel does with its cursor, the height and the digest of the last
-- scanned block, as hoon/app/app.hoon has it: the peek shows it; a `%scan-block` poke moves it to the
-- block, or leaves it and reports no block; the recursive proofs leave it.
use nns.Base.{List, none, some, ℕ, ◌≡◌, ◌⊎◌}
use nns.Base.Result.{ok}
use nns.Base.Text.{Bytes}
use nns.Follower.Monad.{KernelApi, World}
use nns.Kernel.Effects.{first_scan_block_done}
use nns.Kernel.Peeks.{decode_scan_state}
use nns.Kernel.Peeks.Paths.{build_scan_state_peek}
use nns.Kernel.Pokes.{
  build_prove_recursive_genesis_poke, build_prove_recursive_transition_poke, build_scan_block_poke,
}
use nns.Kernel.Types.{ClaimCandidate, ScanState}
use nns.Noun.{Noun, NounLib, le_value}

pub record KernelCursor ⦃k : KernelApi⦄ ⦃lib : NounLib⦄ : Type 0 where
  pub height : k.State → ℕ
  pub digest : k.State → ℕ
  pub shown :
      (s : k.State) (noun : Noun) (st : ScanState)
      → k.peek s build_scan_state_peek ≡ ok noun
      → decode_scan_state noun ≡ ok st
      → (st.last_proved_height ≡ height s) × (le_value st.last_proved_digest ≡ digest s)
  pub scanned :
      (s : k.State) (parent : Bytes) (h : ℕ) (page : Bytes) (ids : List Bytes)
      (claims : List ClaimCandidate)
      → let cause = build_scan_block_poke parent h page ids claims in
        ((height (k.after s cause) ≡ h) × (digest (k.after s cause) ≡ le_value page))
        ⊎ ((height (k.after s cause) ≡ height s)
            × (digest (k.after s cause) ≡ digest s)
            × ((effects : List Noun)
                → k.poke s cause ≡ ok effects
                → first_scan_block_done effects ≡ none))
  pub proved_transition :
      (s : k.State) (proof subject formula page : Bytes) (ids : List Bytes)
      (claims : List ClaimCandidate) (block_proof : Bytes) (cause : Noun)
      → build_prove_recursive_transition_poke proof subject formula page ids claims block_proof
        ≡ some cause
      → (height (k.after s cause) ≡ height s) × (digest (k.after s cause) ≡ digest s)
  pub proved_genesis :
      (s : k.State)
      → (height (k.after s build_prove_recursive_genesis_poke) ≡ height s)
        × (digest (k.after s build_prove_recursive_genesis_poke) ≡ digest s)

module _ ⦃k : KernelApi⦄ ⦃lib : NounLib⦄ (cursor : KernelCursor) where
  -- the cursor of a kernel
  pub record Shows (at : ℕ × Bytes) (s : k.State) : Type 0 where
    pub height : cursor.height s ≡ at.0
    pub digest : cursor.digest s ≡ le_value at.1

  abbrev pub ShowsIn : ℕ × Bytes → World k.State → Type 0
  ShowsIn at w = Shows at w.kernel
