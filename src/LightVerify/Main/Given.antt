-- ===== src/LightVerify/Main/Given.antt =====
-- What the fields of a bundle give.
use nns.Base.{
  Bool-cases, List, Option, [], ap, false, inl, inr, is_empty, none, not, refl, some, sym, true,
  ◌∙◌, ◌∷◌, ◌≡◌,
}
use nns.Base.Result.{Result, err, ok, ok-injective, some-injective}
use nns.Base.Strings.{trim}
use nns.Base.Text.{Bytes, Str}
use nns.Hex.{hex_decode_even}
use nns.LightVerify.Flow.{>>=-eq-go, go, or_exit, or_exit-eq-go}
use nns.LightVerify.Main.{decode_proof_hex, has_z_in_proof, parse_entry_hex, trimmed_nonempty}
use nns.Wallet.{AccumulatorEntryJson, PathY4LookupBundle, ZInProofNodeJson}

-- A field holds a text that is not blank: the text without the space around it.
unfoldable pub Gives : Option Str → Str → Type 0
Gives field s = (raw : Str) × (field ≡ some raw) × (trim raw ≡ s) × (is_empty s ≡ false)

-- A field holds no text, or a blank one.
unfoldable pub IsBlank : Option Str → Type 0
IsBlank field = (raw : Str) → field ≡ some raw → is_empty (trim raw) ≡ true

pub trimmed_nonempty-some :
    (field : Option Str) (s : Str) → trimmed_nonempty field ≡ some s → Gives field s
unfolding trimmed_nonempty Gives
trimmed_nonempty-some none s h = cc
trimmed_nonempty-some (some raw) s h = elim (Bool-cases (is_empty (trim raw))) [
  | inl e ↦ cc (rw e at h)
  | inr e ↦
      let same : trim raw ≡ s = some-injective (rw e at h) in
      (raw, refl, same, ap is_empty (sym same) ∙ e)
]

pub trimmed_nonempty-none : (field : Option Str) → trimmed_nonempty field ≡ none → IsBlank field
unfolding trimmed_nonempty IsBlank
trimmed_nonempty-none none h raw given = cc
trimmed_nonempty-none (some s) h raw given = elim (Bool-cases (is_empty (trim s))) [
  | inl e ↦ let same = some-injective given in ap (λ x. is_empty (trim x)) (sym same) ∙ e
  | inr e ↦ cc (rw e at h)
]

pub decode_proof_hex-some :
    (field : Option Str) (b : Bytes)
    → decode_proof_hex field ≡ go (some b)
    → (hex : Str) × Gives field hex × (hex_decode_even hex ≡ ok b)
unfolding decode_proof_hex Gives
decode_proof_hex-some none b h = cc
decode_proof_hex-some (some s) b h = elim (Bool-cases (is_empty (trim s))) [
  | inl e ↦ cc (rw e at h)
  | inr e ↦
      let (d, hd, h1) = >>=-eq-go (or_exit (hex_decode_even (trim s)) 2) _ (rw e at h) in
      let same : d ≡ b = cc in (trim s, (s, refl, refl, e), or_exit-eq-go _ 2 hd ∙ ap ok same)
]

pub decode_proof_hex-none : (field : Option Str) → decode_proof_hex field ≡ go none → IsBlank field
unfolding decode_proof_hex IsBlank
decode_proof_hex-none none h raw given = cc
decode_proof_hex-none (some s) h raw given = elim (Bool-cases (is_empty (trim s))) [
  | inl e ↦ let same = some-injective given in ap (λ x. is_empty (trim x)) (sym same) ∙ e
  | inr e ↦ let (d, hd, h1) = >>=-eq-go (or_exit (hex_decode_even (trim s)) 2) _ (rw e at h) in cc
]

both-ok :
    (a b : Result Bytes) (hs : Bytes × Bytes)
    → (elim a [ err e ↦ err e | ok tx ↦ elim b [ err e ↦ err e | ok bd ↦ ok (tx, bd) ] ]) ≡ ok hs
    → (a ≡ ok hs.0) × (b ≡ ok hs.1)
both-ok (err e) b hs h = cc
both-ok (ok tx) (err e) hs h = cc
both-ok (ok tx) (ok bd) hs h =
    let same = ok-injective h in (ap (λ p. ok p.0) same, ap (λ p. ok p.1) same)

pub parse_entry_hex-ok :
    (v : AccumulatorEntryJson) (hs : Bytes × Bytes)
    → parse_entry_hex v ≡ ok hs
    → (hex_decode_even (trim v.tx_hash_hex) ≡ ok hs.0)
      × (hex_decode_even (trim v.block_digest_hex) ≡ ok hs.1)
unfolding parse_entry_hex
parse_entry_hex-ok v hs h =
    both-ok (hex_decode_even (trim v.tx_hash_hex)) (hex_decode_even (trim v.block_digest_hex)) hs h

nodes-empty :
    (field : Option (List ZInProofNodeJson))
    → (elim field [ none ↦ false | some z ↦ not (is_empty z) ]) ≡ false
    → (z : List ZInProofNodeJson) → field ≡ some z
    → z ≡ []
nodes-empty none h z given = cc
nodes-empty (some []) h z given = sym (some-injective given)
nodes-empty (some (x ∷ xs)) h z given = cc

-- A bundle that is not refused for a Z-set proof has no nodes of one.
pub has_z_in_proof-empty :
    (bundle : PathY4LookupBundle)
    → has_z_in_proof bundle ≡ false
    → (z : List ZInProofNodeJson) → bundle.z_in_proof ≡ some z
    → z ≡ []
has_z_in_proof-empty bundle h = nodes-empty bundle.z_in_proof h
