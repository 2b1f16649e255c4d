-- ===== src/Wallet/Chain.antt =====
-- What the walk over the headers accepts: an inductive chain of blocks.
use mathlib.Core.Path.{subst}
use nns.Base.{
  =?_iff, =?_refl, Bool-cases, List, [], ap, arith, inl, inr, length, refl, sym, ℕ, ◌%◌, ◌+◌, ◌<◌,
  ◌==◌, ◌^◌, ◌↔◌, ◌∙◌, ◌∷◌, ◌≡◌, ◌⊎◌,
}
use nns.Base.Result.{>>=-eq-ok, ok, ok-injective}
use nns.Base.Text.{Bytes}
use nns.Hex.{hex_decode_even}
use nns.Wallet.{
  CheckpointConfig, NockHeaderLink, check_first, check_headers, check_last_row, check_row, next_u64,
  verify_header_chain_to_checkpoint,
}

-- The row's text decodes to these two digests.
pub record Decodes (x : NockHeaderLink) (d p : Bytes) : Type 0 where
  pub digest : hex_decode_even x.digest_hex ≡ ok d
  pub parent : hex_decode_even x.parent_hex ≡ ok p

-- Rows that lead from height `h` and digest `d` to the checkpoint: each row's parent is the digest
-- of the next row, which is one block lower, and the last row is the checkpoint's block.
pub data LeadsTo (cp : CheckpointConfig) : ℕ → Bytes → List NockHeaderLink → Type 0 where
  final_row :
      {x : NockHeaderLink} {p : Bytes}
      → Decodes x cp.digest p
      → x.height ≡ cp.height
      → LeadsTo cp x.height cp.digest (x ∷ [])
  row_below :
      {x y : NockHeaderLink} {d p : Bytes} {rest : List NockHeaderLink}
      → Decodes x d p
      → next_u64 y.height ≡ x.height
      → LeadsTo cp y.height p (y ∷ rest)
      → LeadsTo cp x.height d (x ∷ y ∷ rest)

-- the tests on the last row, and on a row with another below it
last_row-ok :
    (cp : CheckpointConfig) (x : NockHeaderLink)
    → check_last_row cp x ≡ ok tt
    → (p : Bytes) × Decodes x cp.digest p × (x.height ≡ cp.height)
unfolding check_last_row
last_row-ok cp x h =
    let (d, hd, h1) = >>=-eq-ok (hex_decode_even x.digest_hex) _ h in
    let (p, hp, h2) = >>=-eq-ok (hex_decode_even x.parent_hex) _ h1 in
    let e : d ≡ cp.digest = ground (arith, =?_iff d cp.digest) in
    (p, record { digest = hd ∙ ap ok e; parent = hp }, ground arith)

row-ok :
    (i : ℕ) (x y : NockHeaderLink)
    → check_row i x y ≡ ok tt
    → (d p : Bytes) × Decodes x d p
      × (hex_decode_even y.digest_hex ≡ ok p)
      × (next_u64 y.height ≡ x.height)
unfolding check_row
row-ok i x y h =
    let (d, hd, h1) = >>=-eq-ok (hex_decode_even x.digest_hex) _ h in
    let (p, hp, h2) = >>=-eq-ok (hex_decode_even x.parent_hex) _ h1 in
    let (n, hn, h3) = >>=-eq-ok (hex_decode_even y.digest_hex) _ h2 in
    let e : p ≡ n = ground (arith, =?_iff p n) in
    (d, p, record { digest = hd; parent = hp }, hn ∙ ap ok (sym e), ground arith)

check_headers-LeadsTo :
    (cp : CheckpointConfig) (i : ℕ) (x : NockHeaderLink) (rest : List NockHeaderLink) (d : Bytes)
    → hex_decode_even x.digest_hex ≡ ok d
    → check_headers cp i (x ∷ rest) ≡ ok tt
    → LeadsTo cp x.height d (x ∷ rest)
unfolding check_headers
check_headers-LeadsTo cp i x [] d hd h =
    let (p, dec, e) = last_row-ok cp x h in
    subst (λ b. LeadsTo cp x.height b (x ∷ [])) (ok-injective (sym dec.digest ∙ hd))
      (final_row dec e)
check_headers-LeadsTo cp i x (y ∷ rest) d hd h =
    let (_, row, later) = >>=-eq-ok (check_row i x y) _ h in
    let (d', p, dec, hn, step) = row-ok i x y row in
    subst (λ b. LeadsTo cp x.height b (x ∷ y ∷ rest)) (ok-injective (sym dec.digest ∙ hd))
      (row_below dec step (check_headers-LeadsTo cp (i + 1) y rest p hn later))

LeadsTo-first :
    {cp : CheckpointConfig} {h : ℕ} {d : Bytes} {x : NockHeaderLink} {rest : List NockHeaderLink}
    → LeadsTo cp h d (x ∷ rest)
    → (hex_decode_even x.digest_hex ≡ ok d) × (x.height ≡ h)
LeadsTo-first (final_row dec e) = (dec.digest, refl)
LeadsTo-first (row_below dec e l) = (dec.digest, refl)

Decodes-check_last_row :
    (cp : CheckpointConfig) (x : NockHeaderLink) (p : Bytes)
    → Decodes x cp.digest p
    → x.height ≡ cp.height
    → check_last_row cp x ≡ ok tt
unfolding check_last_row
Decodes-check_last_row cp x p dec e =
    rw (dec.digest, dec.parent) (ground (arith, =?_refl cp.digest))

Decodes-check_row :
    (i : ℕ) (x y : NockHeaderLink) (d p : Bytes)
    → Decodes x d p
    → hex_decode_even y.digest_hex ≡ ok p
    → next_u64 y.height ≡ x.height
    → check_row i x y ≡ ok tt
unfolding check_row
Decodes-check_row i x y d p dec hn step =
    rw (dec.digest, dec.parent, hn) (ground (arith, =?_refl p))

LeadsTo-check_headers :
    {cp : CheckpointConfig} {h : ℕ} {d : Bytes} {rows : List NockHeaderLink}
    → LeadsTo cp h d rows
    → (i : ℕ) → check_headers cp i rows ≡ ok tt
unfolding check_headers
LeadsTo-check_headers {cp} (final_row {x} {p} dec e) i = Decodes-check_last_row cp x p dec e
LeadsTo-check_headers (row_below {x} {y} {d} {p} dec e l) i =
    rw (Decodes-check_row i x y d p dec (LeadsTo-first l).0 e) (LeadsTo-check_headers l (i + 1))

check_first-LeadsTo :
    (lh : ℕ) (ld : Bytes) (cp : CheckpointConfig) (headers : List NockHeaderLink)
    → check_first lh ld cp headers ≡ ok tt
    → LeadsTo cp lh ld headers
unfolding check_first
check_first-LeadsTo lh ld cp [] h = cc
check_first-LeadsTo lh ld cp (x ∷ rest) h =
    let (d, hd, h1) = >>=-eq-ok (hex_decode_even x.digest_hex) _ h in
    let same : d ≡ ld = ground (arith, =?_iff d ld) in
    let height : x.height ≡ lh = ground arith in
    let walk : check_headers cp 0 (x ∷ rest) ≡ ok tt = ground arith in
    subst (λ n. LeadsTo cp n ld (x ∷ rest)) height
      (check_headers-LeadsTo cp 0 x rest ld (hd ∙ ap ok same) walk)

LeadsTo-check_first :
    (lh : ℕ) (ld : Bytes) (cp : CheckpointConfig) (headers : List NockHeaderLink)
    → LeadsTo cp lh ld headers
    → check_first lh ld cp headers ≡ ok tt
unfolding check_first
LeadsTo-check_first lh ld cp [] l = elim l [ ]
LeadsTo-check_first lh ld cp (x ∷ rest) l =
    let (hd, hh) = LeadsTo-first l in rw hd (ground (arith, =?_refl ld, LeadsTo-check_headers l 0))

verify_sound :
    (lh : ℕ) (ld : Bytes) (cp : CheckpointConfig) (headers : List NockHeaderLink)
    → verify_header_chain_to_checkpoint lh ld cp headers ≡ ok tt
    → ((lh ≡ cp.height) × (headers ≡ []) × (ld ≡ cp.digest))
      ⊎ ((cp.height < lh) × LeadsTo cp lh ld headers)
unfolding verify_header_chain_to_checkpoint
verify_sound lh ld cp headers h = elim (Bool-cases (lh == cp.height)) [
  | inl same ↦ inl (ground arith, ground arith, ground (arith, =?_iff ld cp.digest))
  | inr differ ↦ inr (ground arith, check_first-LeadsTo lh ld cp headers (ground arith))
]

-- The walk accepts exactly: no rows and one digest, at the checkpoint's height; or, above it, rows
-- that lead from the last proved block to the checkpoint. Below that height it accepts nothing.
pub verify_iff :
    (last_height : ℕ) (last_digest : Bytes) (cp : CheckpointConfig) (headers : List NockHeaderLink)
    → (verify_header_chain_to_checkpoint last_height last_digest cp headers ≡ ok tt) ↔ (
        ((last_height ≡ cp.height) × (headers ≡ []) × (last_digest ≡ cp.digest))
        ⊎ ((cp.height < last_height) × LeadsTo cp last_height last_digest headers))
unfolding verify_header_chain_to_checkpoint
verify_iff lh ld cp headers = (
  verify_sound lh ld cp headers,
  λ h. elim h [
    | inl same ↦ ground (arith, =?_iff ld cp.digest)
    | inr (above, l) ↦ ground (arith, LeadsTo-check_first lh ld cp headers l)
  ],
)

LeadsTo-length :
    {cp : CheckpointConfig} {h : ℕ} {d : Bytes} {rows : List NockHeaderLink}
    → LeadsTo cp h d rows
    → (cp.height + length rows) % 2 ^ 64 ≡ (h + 1) % 2 ^ 64
LeadsTo-length (final_row dec e) = omega arith
LeadsTo-length (row_below dec e l) = omega (arith, LeadsTo-length l)

LeadsTo-nonempty :
    {cp : CheckpointConfig} {h : ℕ} {d : Bytes} {rows : List NockHeaderLink}
    → LeadsTo cp h d rows
    → 0 < length rows
LeadsTo-nonempty (final_row dec e) = omega arith
LeadsTo-nonempty (row_below dec e l) = omega arith

-- Of fewer than 2 ^ 64 rows, an accepted walk has one for each block from the last proved one
-- down to the checkpoint, both included, if it starts above the checkpoint.
verify-length :
    (last_height : ℕ) (last_digest : Bytes) (cp : CheckpointConfig) (headers : List NockHeaderLink)
    → last_height < 2 ^ 64
    → cp.height < last_height
    → length headers < 2 ^ 64
    → verify_header_chain_to_checkpoint last_height last_digest cp headers ≡ ok tt
    → cp.height + length headers ≡ last_height + 1
verify-length lh ld cp headers fits above short h = elim ((verify_iff lh ld cp headers).0 h) [
  | inl same ↦ absurd (omega arith)
  | inr (_, l) ↦ omega (arith, LeadsTo-length l, LeadsTo-nonempty l)
]
