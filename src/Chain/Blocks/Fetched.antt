-- ===== src/Chain/Blocks/Fetched.antt =====
-- Blocks that a node has served. Their digests are byte strings.
use mathlib.Core.Path.{subst}
use nns.Base.{All, List, Option, [], ap, arith, suc, zero, ℕ, ◌++◌, ◌/◌, ◌∷◌, ◌≡◌}
use nns.Base.Result.{>>=-eq-ok, Result, both, collect, ok, ok-injective, ok_or, text, text_num}
use nns.Base.Slices.{All-append}
use nns.Base.Sort.{All-sort_by_key}
use nns.Base.Text.{Bytes, Str}
use nns.Chain.Blocks.{ScanBlockFetch, fetch_scan_block_inputs, prefetch_scan_blocks_for_heights}
use nns.Chain.Blocks.Linked.{BlockBytes}
use nns.Chain.Digest.{belt_value, hash_to_atom_bytes, le_bytes, tx_ids_from_block_details}
use nns.Chain.Fetch.{fetch_block_transaction_details}
use nns.Chain.Node.{NodeApi}
use nns.Chain.Queries.{fetch_block_details_by_height}
use nns.Chain.TxOrder.{ZSetLib, align_scan_block_fetch_tx_order}
use nns.Noun.{IsByte}
use nns.Payment.{TxLib}
use nns.Rpc.{PbHash}

le_bytes-IsByte : (k n : ℕ) → All IsByte (le_bytes k n)
le_bytes-IsByte zero n = tt
le_bytes-IsByte (suc k) n = (omega arith, le_bytes-IsByte k (n / 256))

hash_to_atom_bytes-IsByte : (h : PbHash) → All IsByte (hash_to_atom_bytes h)
unfolding hash_to_atom_bytes
hash_to_atom_bytes-IsByte h =
    let bytes : Option ℕ → Bytes = λ b. le_bytes 8 (belt_value b) in
    let limb : (b : Option ℕ) → All IsByte (bytes b) = λ b. le_bytes-IsByte 8 (belt_value b) in
    let from_5 = bytes h.belt_5 in
    let from_4 = bytes h.belt_4 ++ from_5 in
    let from_3 = bytes h.belt_3 ++ from_4 in
    let from_2 = bytes h.belt_2 ++ from_3 in
    All-append IsByte (bytes h.belt_1) from_2 (limb h.belt_1) (
      All-append IsByte (bytes h.belt_2) from_3 (limb h.belt_2) (
        All-append IsByte (bytes h.belt_3) from_4 (limb h.belt_3)
          (All-append IsByte (bytes h.belt_4) from_5 (limb h.belt_4) (limb h.belt_5))))

module _ {ℓ κ} {A : Type ℓ} {B : Type κ} where
  collect-All :
      (P : B → Type 0) (f : A → Result B) (xs : List A) (ys : List B)
      → ((x : A) (y : B) → f x ≡ ok y → P y)
      → collect f xs ≡ ok ys
      → All P ys
  collect-All P f [] ys h e = subst (All P) (ok-injective e) tt
  collect-All P f (x ∷ xs) ys h e =
      let (y, first, e1) = >>=-eq-ok (f x) _ e in
      let (rest, others, e2) = >>=-eq-ok (collect f xs) _ e1 in
      subst (All P) (ok-injective e2) (h x y first, collect-All P f xs rest h others)

module _ ⦃node : NodeApi⦄ ⦃tx : TxLib⦄ ⦃z : ZSetLib⦄ where
  fetch_scan_block_inputs-BlockBytes :
      (endpoint : Str) (height : ℕ) (b : ScanBlockFetch)
      → fetch_scan_block_inputs endpoint height ≡ ok b
      → BlockBytes b
  unfolding fetch_scan_block_inputs
  fetch_scan_block_inputs-BlockBytes endpoint height b e =
      let (details, _, e1) = >>=-eq-ok (fetch_block_details_by_height endpoint height) _ e in
      let (digest, _, e2) =
        >>=-eq-ok
          (ok_or details.block_id (both (text_num "block " height) (text " missing block_id"))) _
          e1 in
      let (parent, _, e3) =
        >>=-eq-ok (ok_or details.parent (both (text_num "block " height) (text " missing parent")))
          _ e2 in
      let (ids, _, e4) = >>=-eq-ok (tx_ids_from_block_details details) _ e3 in
      let (all_details, _, e5) =
        >>=-eq-ok (fetch_block_transaction_details endpoint details) _ e4 in
      let (aligned, _, e6) = >>=-eq-ok (align_scan_block_fetch_tx_order ids all_details) _ e5 in
      let same = ok-injective e6 in
      record {
        digest_bytes =
            subst (All IsByte) (ap (λ x. x.page_digest) same) (hash_to_atom_bytes-IsByte digest);
        parent_bytes =
            subst (All IsByte) (ap (λ x. x.parent) same) (hash_to_atom_bytes-IsByte parent);
      }

  -- A block that a node has served.
  abbrev pub IsServed : ScanBlockFetch → Type 0
  IsServed b = (endpoint : Str) × (height : ℕ) × (fetch_scan_block_inputs endpoint height ≡ ok b)

  pub served-BlockBytes : (bs : List ScanBlockFetch) → All IsServed bs → All BlockBytes bs
  served-BlockBytes [] h = tt
  served-BlockBytes (b ∷ bs) ((endpoint, height, e), h) =
      (fetch_scan_block_inputs-BlockBytes endpoint height b e, served-BlockBytes bs h)

  -- The blocks that a prefetch gives were served.
  pub prefetch-IsServed :
      (endpoint : Str) (heights : List ℕ) (bs : List ScanBlockFetch)
      → prefetch_scan_blocks_for_heights endpoint heights ≡ ok bs
      → All IsServed bs
  unfolding prefetch_scan_blocks_for_heights
  prefetch-IsServed endpoint [] bs e = subst (All IsServed) (ok-injective e) tt
  prefetch-IsServed endpoint (h ∷ hs) bs e =
      let (blocks, fetched, e1) =
        >>=-eq-ok (collect (fetch_scan_block_inputs endpoint) (h ∷ hs)) _ e in
      let served =
        collect-All IsServed (fetch_scan_block_inputs endpoint) (h ∷ hs) blocks
          (λ height b f. (endpoint, height, f)) fetched in
      subst (All IsServed) (ok-injective e1)
        (All-sort_by_key IsServed (λ b. b.height) blocks served)
