-- ===== src/Chain/TxOrder/Canonical.antt =====
-- The canonical order of transaction ids and the order in which they are given.
use mathlib.Core.List.{Permᴰ}
use nns.Base.{
  =?_iff, =?_refl, Bool, Bool-cases, List, [], any, ap, arith, drop, false, inl, inr, is_empty,
  length, map, none, refl, some, sym, take, true, ℕ, ◌==◌, ◌=?◌, ◌||◌, ◌∙◌, ◌∷◌, ◌≡◌, ◌⊎◌,
}
use nns.Base.Result.{Result, both, collect, err, ok, text, text_num, ◌>>=◌}
use nns.Base.Text.{Bytes}
use nns.Chain.Digest.{tx_atom_bytes_to_tip5_hash}
use nns.Chain.TxOrder.{
  ZSetLib, canonical_z_set_tx_order, find_duplicate, is_stub, member, name_items, unless_duplicate,
  z_set_order,
}
use nns.Noun.{le_value}
use nns.Payment.{Tip5Hash}

module _ {ℓ} {A : Type ℓ} where
  pub any-perm : (p : A → Bool) {xs ys : List A} → Permᴰ xs ys → any p xs ≡ any p ys
  any-perm p Permᴰ.nil = refl
  any-perm p (Permᴰ.cons e d) = let same = ap p e in let rest = any-perm p d in ground arith
  any-perm p (Permᴰ.swap e f) = let first = ap p e in let second = ap p f in ground arith
  any-perm p (Permᴰ.trans d e) = any-perm p d ∙ any-perm p e

  is_empty-perm : {xs ys : List A} → Permᴰ xs ys → is_empty xs ≡ is_empty ys
  is_empty-perm Permᴰ.nil = refl
  is_empty-perm (Permᴰ.cons e d) = refl
  is_empty-perm (Permᴰ.swap e f) = refl
  is_empty-perm (Permᴰ.trans d e) = is_empty-perm d ∙ is_empty-perm e

module _ {ℓ κ} {A : Type ℓ} {B : Type κ} where
  map-perm : (g : A → B) {xs ys : List A} → Permᴰ xs ys → Permᴰ (map g xs) (map g ys)
  map-perm g Permᴰ.nil = Permᴰ.nil
  map-perm g (Permᴰ.cons e d) = Permᴰ.cons (ap g e) (map-perm g d)
  map-perm g (Permᴰ.swap e f) = Permᴰ.swap (ap g e) (ap g f)
  map-perm g (Permᴰ.trans d e) = Permᴰ.trans (map-perm g d) (map-perm g e)

-- whether an id stands in the list twice, or among those seen
repeats : List Bytes → List Bytes → Bool
repeats seen [] = false
repeats seen (id ∷ ids) = member id seen || repeats (id ∷ seen) ids

-- the ids that are seen count only as a set
SameSeen : List Bytes → List Bytes → Type 0
SameSeen s t = (id : Bytes) → member id s ≡ member id t

repeats-seen : (s t ids : List Bytes) → SameSeen s t → repeats s ids ≡ repeats t ids
unfolding repeats SameSeen
repeats-seen s t [] h = refl
repeats-seen s t (id ∷ ids) h =
    let here = h id in
    let rest = repeats-seen (id ∷ s) (id ∷ t) ids λ x. ap (λ b. (id =? x) || b) (h x) in
    ground arith

or_swap : (a b c : Bool) → (a || (b || c)) ≡ (b || (a || c))
or_swap a b c = ground arith

or_exchange : (a b e f r s : Bool) → e ≡ f → r ≡ s → (a || ((e || b) || r)) ≡ (b || ((f || a) || s))
or_exchange a b e f r s h k = ground arith

repeats_swap :
    (seen : List Bytes) (a b : Bytes) (l : List Bytes)
    → repeats seen (a ∷ b ∷ l) ≡ repeats seen (b ∷ a ∷ l)
unfolding repeats SameSeen
repeats_swap seen a b l =
    let both_seen =
      repeats-seen (b ∷ a ∷ seen) (a ∷ b ∷ seen) l λ x. or_swap (b =? x) (a =? x) (member x seen) in
    let same : (a =? b) ≡ (b =? a) = ground (arith, =?_iff a b, =?_iff b a) in
    or_exchange (member a seen) (member b seen) (a =? b) (b =? a) _ _ same both_seen

repeats-perm :
    {ids ks : List Bytes} (seen : List Bytes) → Permᴰ ids ks → repeats seen ids ≡ repeats seen ks
unfolding repeats
repeats-perm seen Permᴰ.nil = refl
repeats-perm seen (Permᴰ.cons {a = a} {b = b} e d) =
    let rest = repeats-perm (b ∷ seen) d in rw e (ap (λ r. member b seen || r) rest)
repeats-perm seen (Permᴰ.swap {a = a} {b = b} {a' = c} {l = l} e f) =
    repeats_swap seen a b l
    ∙ ap (λ x. repeats seen (x ∷ a ∷ l)) f
    ∙ ap (λ y. repeats seen (c ∷ y ∷ l)) e
repeats-perm seen (Permᴰ.trans d e) = repeats-perm seen d ∙ repeats-perm seen e

find_duplicate-repeats :
    (seen ids : List Bytes)
    → (repeats seen ids ≡ false) × (find_duplicate seen ids ≡ none)
      ⊎ ((id : Bytes) × (repeats seen ids ≡ true)
          × (find_duplicate seen ids ≡ some id)
          × (member id ids ≡ true))
unfolding repeats find_duplicate
find_duplicate-repeats seen [] = inl (refl, refl)
find_duplicate-repeats seen (id ∷ ids) = elim (Bool-cases (member id seen)) [
  | inl e ↦ inr (id, rw e refl, rw e refl, rw (=?_refl id) refl)
  | inr e ↦ elim (find_duplicate-repeats (id ∷ seen) ids) [
    | inl h ↦ inl (rw e h.0, rw e h.1)
    | inr (k, r, f, m) ↦ inr (k, rw e r, rw e f, ground arith)
  ]
]

-- the digest that 40 bytes stand for
digest_of : Bytes → Tip5Hash
digest_of bytes = record {
  limb_0 = le_value (take 8 bytes);
  limb_1 = le_value (take 8 (drop 8 bytes));
  limb_2 = le_value (take 8 (drop 16 bytes));
  limb_3 = le_value (take 8 (drop 24 bytes));
  limb_4 = le_value (take 8 (drop 32 bytes));
}

collect-full :
    (ids : List Bytes)
    → any is_stub ids ≡ false
    → collect tx_atom_bytes_to_tip5_hash ids ≡ ok (map digest_of ids)
unfolding tx_atom_bytes_to_tip5_hash digest_of
collect-full [] h = refl
collect-full (id ∷ ids) h =
    let full : (length id == 40) ≡ true = ground arith in
    let rest = collect-full ids (ground arith) in rw (full, rest) refl

full-length :
    (id : Bytes) (ids : List Bytes)
    → any is_stub ids ≡ false
    → member id ids ≡ true
    → length id ≡ 40
full-length id [] h m = cc
full-length id (x ∷ xs) h m = elim (Bool-cases (x =? id)) [
  | inl e ↦ let same = (=?_iff x id).0 e in rw (sym same) (ground arith)
  | inr e ↦ full-length id xs (ground arith) (ground arith)
]

module _ ⦃z : ZSetLib⦄ where
  z_set_order-full :
      (ids : List Bytes)
      → find_duplicate [] ids ≡ none
      → any is_stub ids ≡ false
      → z_set_order ids ≡ name_items (z.z_set_items (map digest_of ids))
  unfolding z_set_order unless_duplicate
  z_set_order-full ids new full =
      ap (unless_duplicate ids) new
      ∙ ap (λ r. r >>= λ hashes. name_items (z.z_set_items hashes)) (collect-full ids full)

  -- the refusal of a duplicate of so many bytes
  abbrev refusal : ℕ → Result (List Bytes)
  refusal n = err (both (text_num "duplicate tx-id in block page_tx_ids list (" n) (text " bytes)"))

  z_set_order-perm :
      {ids ks : List Bytes}
      → ((hs js : List Tip5Hash) → Permᴰ hs js → z.z_set_items hs ≡ z.z_set_items js)
      → Permᴰ ids ks
      → any is_stub ids ≡ false
      → z_set_order ids ≡ z_set_order ks
  unfolding z_set_order unless_duplicate
  z_set_order-perm {ids = ids} {ks = ks} extensional d full =
      let full_ks : any is_stub ks ≡ false = sym (any-perm is_stub d) ∙ full in
      let same = repeats-perm [] d in
      elim (find_duplicate-repeats [] ids) [
        | inl h ↦ elim (find_duplicate-repeats [] ks) [
          | inl g ↦
              z_set_order-full ids h.1 full
              ∙ ap name_items
                  (extensional (map digest_of ids) (map digest_of ks) (map-perm digest_of d))
              ∙ sym (z_set_order-full ks g.1 full_ks)
          | inr g ↦ cc
        ]
        | inr (id, r, f, m) ↦ elim (find_duplicate-repeats [] ks) [
          | inl g ↦ cc
          | inr (k, _, g, n) ↦
              ap (unless_duplicate ids) f
              ∙ ap refusal (full-length id ids full m ∙ sym (full-length k ks full_ks n))
              ∙ sym (ap (unless_duplicate ks) g)
        ]
      ]

  -- The canonical order of full ids, of 40 bytes each, depends only on which ids are given, as long
  -- as the z-set does: a block whose ids are listed in another order has the same canonical ids,
  -- and one with an id twice is refused with the same message.
  pub canonical_z_set_tx_order-perm :
      (ids ks : List Bytes)
      → ((hs js : List Tip5Hash) → Permᴰ hs js → z.z_set_items hs ≡ z.z_set_items js)
      → Permᴰ ids ks
      → any is_stub ids ≡ false
      → canonical_z_set_tx_order ids ≡ canonical_z_set_tx_order ks
  unfolding canonical_z_set_tx_order
  canonical_z_set_tx_order-perm ids ks extensional d full =
      let full_ks : any is_stub ks ≡ false = sym (any-perm is_stub d) ∙ full in
      rw (full, full_ks, is_empty-perm d, z_set_order-perm extensional d full) refl
