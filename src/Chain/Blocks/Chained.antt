-- ===== src/Chain/Blocks/Chained.antt =====
-- Blocks that extend a cursor, as the kernel sees them.
-- The value of a digest, of which 40 bytes count.
use nns.Base.{
  All, Bool-cases, List, [], arith, inl, inr, refl, replicate, suc, sym, take, true, zero, ℕ, ◌++◌,
  ◌==◌, ◌∙◌, ◌∷◌, ◌≡◌, ◌⊎◌,
}
use nns.Base.Slices.{All-replicate}
use nns.Base.Text.{Bytes}
use nns.Chain.Blocks.{ScanBlockFetch}
use nns.Chain.Blocks.Linked.{Follows, Linked, link, linked_end}
use nns.Chain.Digest.{scan_cursor_is_genesis_boot}
use nns.Chain.Digest.SameValue.{tip5_atom_semantic_eq_iff}
use nns.Noun.{IsByte, le_value}

abbrev pub digest_value : Bytes → ℕ
digest_value d = le_value (take 40 d)

-- Each block's parent is the digest before it. At a cursor of height 0 with a digest of value 0 any
-- block may follow.
pub data Chained : ℕ → Bytes → List ScanBlockFetch → Type 0 where
  chain_end : {height : ℕ} {digest : Bytes} → Chained height digest []
  chain_link :
      {height : ℕ} {digest : Bytes} {b : ScanBlockFetch} {bs : List ScanBlockFetch}
      → (digest_value b.parent ≡ digest_value digest) ⊎ ((height ≡ 0) × (digest_value digest ≡ 0))
      → Chained b.height b.page_digest bs
      → Chained height digest (b ∷ bs)

-- the cursor after blocks
abbrev pub cursor_after : ℕ × Bytes → List ScanBlockFetch → ℕ × Bytes
cursor_after c [] = c
cursor_after c (b ∷ bs) = cursor_after (b.height, b.page_digest) bs

Linked-Chained :
    (height : ℕ) (digest : Bytes) (bs : List ScanBlockFetch)
    → Linked digest bs
    → Chained height digest bs
Linked-Chained height digest [] linked_end = chain_end
Linked-Chained height digest (b ∷ bs) (link e l) =
    chain_link (inl e) (Linked-Chained b.height b.page_digest bs l)

boot-zero :
    (height : ℕ) (digest : Bytes)
    → All IsByte digest
    → scan_cursor_is_genesis_boot height digest ≡ true
    → (height ≡ 0) × (digest_value digest ≡ 0)
unfolding scan_cursor_is_genesis_boot
boot-zero height digest h e =
    let zeros = All-replicate IsByte 40 0 (omega arith) in
    let same = tip5_atom_semantic_eq_iff digest (replicate 40 0) h zeros in
    elim (Bool-cases (height == 0)) [
      | inl z ↦ (ground arith, same.0 (rw z at e))
      | inr n ↦ cc (rw n at e)
    ]

-- What the check accepts extends the cursor.
pub Follows-Chained :
    (height : ℕ) (digest : Bytes) (bs : List ScanBlockFetch)
    → All IsByte digest
    → Follows height digest bs
    → Chained height digest bs
Follows-Chained height digest [] h f = chain_end
Follows-Chained height digest (b ∷ bs) h f = elim f [
  | inl l ↦ Linked-Chained height digest (b ∷ bs) l
  | inr (boot, l) ↦
      chain_link (inr (boot-zero height digest h boot)) (Linked-Chained b.height b.page_digest bs l)
]

-- A cursor with a digest of the same value is extended by the same blocks.
pub Chained-same :
    (height : ℕ) (d e : Bytes) (bs : List ScanBlockFetch)
    → digest_value d ≡ digest_value e
    → Chained height d bs
    → Chained height e bs
Chained-same height d e [] same chain_end = chain_end
Chained-same height d e (b ∷ bs) same (chain_link (inl p) c) = chain_link (inl (p ∙ same)) c
Chained-same height d e (b ∷ bs) same (chain_link (inr (z, p)) c) =
    chain_link (inr (z, sym same ∙ p)) c

pub Chained-take :
    (n : ℕ) (height : ℕ) (d : Bytes) (bs : List ScanBlockFetch)
    → Chained height d bs
    → Chained height d (take n bs)
Chained-take zero height d bs c = chain_end
Chained-take (suc n) height d [] c = chain_end
Chained-take (suc n) height d (b ∷ bs) (chain_link p c) =
    chain_link p (Chained-take n b.height b.page_digest bs c)

pub Chained-append :
    (height : ℕ) (d : Bytes) (bs cs : List ScanBlockFetch)
    → Chained height d bs
    → let (h, e) = cursor_after (height, d) bs in Chained h e cs → Chained height d (bs ++ cs)
Chained-append height d [] cs chain_end k = k
Chained-append height d (b ∷ bs) cs (chain_link p c) k =
    chain_link p (Chained-append b.height b.page_digest bs cs c k)

pub cursor_after-append :
    (c : ℕ × Bytes) (bs cs : List ScanBlockFetch)
    → cursor_after c (bs ++ cs) ≡ cursor_after (cursor_after c bs) cs
cursor_after-append c [] cs = refl
cursor_after-append c (b ∷ bs) cs = cursor_after-append (b.height, b.page_digest) bs cs
