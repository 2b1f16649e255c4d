-- ===== src/Kernel/Pokes/Injective.antt =====
-- What a `%scan-block` poke says of the block that it was built from.
use mathlib.Core.Path.{ap₂}
use nns.Base.{All, List, [], ap, length, refl, sym, ℕ, ◌∙◌, ◌∷◌, ◌≡◌}
use nns.Base.Result.{ok-injective}
use nns.Base.Strings.{IsTrimmed}
use nns.Base.Text.{Bytes, Str}
use nns.Kernel.Pokes.{atom_list, build_scan_block_poke, claim_cell, claims_list, witness_cell}
use nns.Kernel.Types.{ClaimCandidate}
use nns.Noun.{IsByte, Noun, NounLib, as_cord, atom, is_nul, make_atom, make_cord, ◌⸬◌}
use nns.Noun.Cord.{IsCord, as_cord-make_cord}
use nns.Noun.LeBytes.{le_value-trimmed, make_atom-injective}

-- A digest or an id: 40 bytes.
pub record IsDigest (bs : Bytes) : Type 0 where
  pub bytes : All IsByte bs
  pub size : length bs ≡ 40

-- A claim whose texts are cords, whose ids are digests, and whose spender is not padded.
pub record IsClaim (c : ClaimCandidate) : Type 0 where
  pub name_cord : IsCord c.name
  pub owner_cord : IsCord c.owner
  pub root_cord : IsCord c.witness.output_lock_root
  pub tx_hash_digest : IsDigest c.tx_hash
  pub tx_id_digest : IsDigest c.witness.tx_id
  pub spender_bytes : All IsByte c.witness.spender_pkh
  pub spender_trimmed : IsTrimmed is_nul c.witness.spender_pkh

cells : {a b c d : Noun} → (a ⸬ b) ≡ (c ⸬ d) → (a ≡ c) × (b ≡ d)
cells h = (cc, cc)

atoms : {m n : ℕ} → atom m ≡ atom n → m ≡ n
atoms h = cc

module _ ⦃lib : NounLib⦄ where
  cord-injective : (s t : Str) → IsCord s → IsCord t → make_cord s ≡ make_cord t → s ≡ t
  cord-injective s t hs ht h =
      ok-injective (sym (as_cord-make_cord s hs) ∙ ap as_cord h ∙ as_cord-make_cord t ht)

  digest-injective : (x y : Bytes) → IsDigest x → IsDigest y → make_atom x ≡ make_atom y → x ≡ y
  digest-injective x y hx hy h = make_atom-injective x y hx.bytes hy.bytes (hx.size ∙ sym hy.size) h

  trimmed-injective :
      (x y : Bytes)
      → All IsByte x
      → All IsByte y
      → IsTrimmed is_nul x
      → IsTrimmed is_nul y
      → make_atom x ≡ make_atom y
      → x ≡ y
  trimmed-injective x y hx hy tx ty h =
      sym tx
      ∙ le_value-trimmed x y hx hy
          (sym (lib.le_value-from_le_bytes x) ∙ atoms h ∙ lib.le_value-from_le_bytes y)
      ∙ ty

  witness-injective :
      (c d : ClaimCandidate)
      → IsClaim c
      → IsClaim d
      → witness_cell c.witness ≡ witness_cell d.witness
      → c.witness ≡ d.witness
  unfolding witness_cell
  witness-injective c d hc hd h =
      let (id, h1) = cells h in
      let (spender, h2) = cells h1 in
      let (paid, root) = cells h2 in
      let e1 = digest-injective _ _ hc.tx_id_digest hd.tx_id_digest id in
      let e2 =
        trimmed-injective _ _ hc.spender_bytes hd.spender_bytes hc.spender_trimmed
          hd.spender_trimmed spender in
      let e3 = atoms paid in
      let e4 = cord-injective _ _ hc.root_cord hd.root_cord root in
      λ i. record {
        tx_id = e1 i;
        spender_pkh = e2 i;
        treasury_amount = e3 i;
        output_lock_root = e4 i;
      }

  claim-injective :
      (c d : ClaimCandidate) → IsClaim c → IsClaim d → claim_cell c ≡ claim_cell d → c ≡ d
  unfolding claim_cell
  claim-injective c d hc hd h =
      let (name, h1) = cells h in
      let (owner, h2) = cells h1 in
      let (fee, h3) = cells h2 in
      let (hash, w) = cells h3 in
      let e1 = cord-injective _ _ hc.name_cord hd.name_cord name in
      let e2 = cord-injective _ _ hc.owner_cord hd.owner_cord owner in
      let e3 = atoms fee in
      let e4 = digest-injective _ _ hc.tx_hash_digest hd.tx_hash_digest hash in
      let e5 = witness-injective c d hc hd w in
      λ i. record { name = e1 i; owner = e2 i; fee = e3 i; tx_hash = e4 i; witness = e5 i }

  claims_list-injective :
      (cs ds : List ClaimCandidate)
      → All IsClaim cs
      → All IsClaim ds
      → claims_list cs ≡ claims_list ds
      → cs ≡ ds
  unfolding claims_list
  claims_list-injective [] [] hc hd h = refl
  claims_list-injective [] (d ∷ ds) hc hd h = cc
  claims_list-injective (c ∷ cs) [] hc hd h = cc
  claims_list-injective (c ∷ cs) (d ∷ ds) hc hd h =
      let (first, rest) = cells h in
      ap₂ ◌∷◌ (claim-injective c d hc.0 hd.0 first) (claims_list-injective cs ds hc.1 hd.1 rest)

  atom_list-injective :
      (xs ys : List Bytes)
      → All IsDigest xs
      → All IsDigest ys
      → atom_list xs ≡ atom_list ys
      → xs ≡ ys
  unfolding atom_list
  atom_list-injective [] [] hx hy h = refl
  atom_list-injective [] (y ∷ ys) hx hy h = cc
  atom_list-injective (x ∷ xs) [] hx hy h = cc
  atom_list-injective (x ∷ xs) (y ∷ ys) hx hy h =
      let (first, rest) = cells h in
      ap₂ ◌∷◌ (digest-injective x y hx.0 hy.0 first) (atom_list-injective xs ys hx.1 hy.1 rest)

  -- Two `%scan-block` pokes are the same noun only if they were built from the same block: the same
  -- parent, height, digest, transaction ids and claims. Digests and ids have 40 bytes, the texts of
  -- the claims are cords, and the spenders do not end in a zero byte.
  pub build_scan_block_poke-injective :
      (parent parent' : Bytes) (height height' : ℕ) (page page' : Bytes) (ids ids' : List Bytes)
      (claims claims' : List ClaimCandidate)
      → IsDigest parent
      → IsDigest parent'
      → IsDigest page
      → IsDigest page'
      → All IsDigest ids
      → All IsDigest ids'
      → All IsClaim claims
      → All IsClaim claims'
      → build_scan_block_poke parent height page ids claims
        ≡ build_scan_block_poke parent' height' page' ids' claims'
      → (parent ≡ parent') × (height ≡ height') × (page ≡ page') × (ids ≡ ids') × (claims ≡ claims')
  unfolding build_scan_block_poke
  build_scan_block_poke-injective parent parent' height height' page page' ids ids' claims claims'
        hp hp' hg hg' hi hi' hc hc' h =
      let (_, h1) = cells h in
      let (p, h2) = cells h1 in
      let (n, h3) = cells h2 in
      let (g, h4) = cells h3 in
      let (i, c) = cells h4 in
      (
        digest-injective parent parent' hp hp' p,
        atoms n,
        digest-injective page page' hg hg' g,
        atom_list-injective ids ids' hi hi' i,
        claims_list-injective claims claims' hc hc' c,
      )
