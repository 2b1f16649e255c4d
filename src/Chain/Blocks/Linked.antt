-- ===== src/Chain/Blocks/Linked.antt =====
-- Which batches of blocks the check accepts.
use nns.Base.{All, Bool-cases, List, [], false, inl, inr, refl, take, true, ℕ, ◌↔◌, ◌∷◌, ◌≡◌, ◌⊎◌}
use nns.Base.Result.{ok}
use nns.Base.Text.{Bytes}
use nns.Chain.Blocks.{ScanBlockFetch, check_parents, validate_scan_block_chain}
use nns.Chain.Digest.{scan_cursor_is_genesis_boot, tip5_atom_semantic_eq}
use nns.Chain.Digest.SameValue.{tip5_atom_semantic_eq_iff}
use nns.Noun.{IsByte, le_value}

-- Blocks whose parents are the digest before them, up to zero bytes at the end.
pub data Linked : Bytes → List ScanBlockFetch → Type 0 where
  linked_end : {digest : Bytes} → Linked digest []
  link :
      {digest : Bytes} {b : ScanBlockFetch} {bs : List ScanBlockFetch}
      → le_value (take 40 b.parent) ≡ le_value (take 40 digest)
      → Linked b.page_digest bs
      → Linked digest (b ∷ bs)

-- digests that are byte strings
pub record BlockBytes (b : ScanBlockFetch) : Type 0 where
  pub digest_bytes : All IsByte b.page_digest
  pub parent_bytes : All IsByte b.parent

check_parents-Linked :
    (digest : Bytes) (bs : List ScanBlockFetch)
    → All IsByte digest
    → All BlockBytes bs
    → check_parents false digest bs ≡ ok tt
    → Linked digest bs
unfolding check_parents
check_parents-Linked digest [] hd hb e = linked_end
check_parents-Linked digest (b ∷ bs) hd hb e =
    let same = tip5_atom_semantic_eq_iff b.parent digest hb.0.parent_bytes hd in
    elim (Bool-cases (tip5_atom_semantic_eq b.parent digest)) [
      | inl y ↦
          link (same.0 y) (check_parents-Linked b.page_digest bs hb.0.digest_bytes hb.1 (rw y at e))
      | inr n ↦ cc (rw n at e)
    ]

Linked-check_parents :
    (digest : Bytes) (bs : List ScanBlockFetch)
    → All IsByte digest
    → All BlockBytes bs
    → Linked digest bs
    → check_parents false digest bs ≡ ok tt
unfolding check_parents
Linked-check_parents digest [] hd hb linked_end = refl
Linked-check_parents digest (b ∷ bs) hd hb (link e l) =
    let same = tip5_atom_semantic_eq_iff b.parent digest hb.0.parent_bytes hd in
    rw (same.1 e) (Linked-check_parents b.page_digest bs hb.0.digest_bytes hb.1 l)

rest_of :
    {digest : Bytes} {b : ScanBlockFetch} {bs : List ScanBlockFetch}
    → Linked digest (b ∷ bs)
    → Linked b.page_digest bs
rest_of (link e l) = l

-- A batch that the kernel's cursor may be followed by: it links to the cursor's digest, or the
-- cursor is the genesis one, and the blocks after the first link to it.
abbrev pub Follows : ℕ → Bytes → List ScanBlockFetch → Type 0
Follows height digest [] = Unit
Follows height digest (b ∷ bs) =
    Linked digest (b ∷ bs)
    ⊎ ((scan_cursor_is_genesis_boot height digest ≡ true) × Linked b.page_digest bs)

-- The check accepts a batch exactly if each block's parent is the digest of the block before it,
-- and the first one's parent is the cursor's digest, unless the cursor is the genesis one: height 0
-- and a digest of value 0. All digests are byte strings.
pub validate_scan_block_chain_iff :
    (height : ℕ) (digest : Bytes) (bs : List ScanBlockFetch)
    → All IsByte digest
    → All BlockBytes bs
    → (validate_scan_block_chain height digest bs ≡ ok tt) ↔ Follows height digest bs
unfolding validate_scan_block_chain check_parents
validate_scan_block_chain_iff height digest [] hd hb = (λ e. tt, λ f. refl)
validate_scan_block_chain_iff height digest (b ∷ bs) hd hb =
    elim (Bool-cases (scan_cursor_is_genesis_boot height digest)) [
      | inl boot ↦ (
        λ e.
            inr (boot, check_parents-Linked b.page_digest bs hb.0.digest_bytes hb.1 (rw boot at e)),
        λ f. elim f [
          | inr (_, l) ↦ rw boot (Linked-check_parents b.page_digest bs hb.0.digest_bytes hb.1 l)
          | inl l ↦
              rw boot (Linked-check_parents b.page_digest bs hb.0.digest_bytes hb.1 (rest_of l))
        ],
      )
      | inr plain ↦ (
        λ e. inl (check_parents-Linked digest (b ∷ bs) hd hb (rw plain at e)),
        λ f. elim f [
          | inl l ↦ rw plain (Linked-check_parents digest (b ∷ bs) hd hb l)
          | inr (boot, _) ↦ cc (rw plain at boot)
        ],
      )
    ]
