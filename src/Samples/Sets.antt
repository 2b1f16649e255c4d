-- ===== src/Samples/Sets.antt =====
-- A set of digests over two digests, whose items do not depend on the order of the list.
use mathlib.Core.List.{Permᴰ}
use nns.Base.{
  =?_iff, Bool, Bool-cases, List, [], any, ap, arith, false, if◌then◌else◌, inl, inr, not, refl,
  sym, true, ℕ, ◌&&◌, ◌=?◌, ◌||◌, ◌∙◌, ◌∷◌, ◌≡◌,
}
use nns.Base.Result.{Result, err, ok, ok-injective, text}
use nns.Chain.TxOrder.{ZSetLib}
use nns.Chain.TxOrder.Canonical.{any-perm}
use nns.Payment.{Tip5Hash, limbs}

abbrev pub digest_one : Tip5Hash
digest_one = record { limb_0 = 1; limb_1 = 0; limb_2 = 0; limb_3 = 0; limb_4 = 0 }

abbrev pub digest_two : Tip5Hash
digest_two = record { limb_0 = 2; limb_1 = 0; limb_2 = 0; limb_3 = 0; limb_4 = 0 }

abbrev pub is_digest : Tip5Hash → Tip5Hash → Bool
unfolding ◌=?◌
is_digest d h = limbs h =? limbs d

from_limbs : List ℕ → Tip5Hash
from_limbs (a ∷ b ∷ c ∷ d ∷ e ∷ []) = record {
  limb_0 = a;
  limb_1 = b;
  limb_2 = c;
  limb_3 = d;
  limb_4 = e;
}
from_limbs other = digest_one

is_digest-eq : (d h : Tip5Hash) → is_digest d h ≡ true → h ≡ d
unfolding from_limbs is_digest
is_digest-eq d h e = ap from_limbs ((=?_iff (limbs h) (limbs d)).0 e)

abbrev pub is_unknown : Tip5Hash → Bool
unfolding is_digest
is_unknown h = not (is_digest digest_one h) && not (is_digest digest_two h)

abbrev pub present : Bool → Tip5Hash → List Tip5Hash → List Tip5Hash
present b d ds = if b then d ∷ ds else ds

abbrev pub chosen : Bool → Bool → Bool → Result (List Tip5Hash)
chosen true a b = err (text "unknown digest")
chosen false a b = ok (present a digest_one (present b digest_two []))

any-present :
    (p : Tip5Hash → Bool) (a b : Bool)
    → any p (present a digest_one (present b digest_two []))
      ≡ ((a && p digest_one) || (b && p digest_two))
any-present p true true = ground arith
any-present p true false = ground arith
any-present p false true = ground arith
any-present p false false = ground arith

any-known :
    (p : Tip5Hash → Bool) (hs : List Tip5Hash)
    → any is_unknown hs ≡ false
    → ((any (is_digest digest_one) hs && p digest_one)
        || (any (is_digest digest_two) hs && p digest_two))
      ≡ any p hs
unfolding is_unknown is_digest
any-known p [] h = refl
any-known p (x ∷ hs) h =
    let rest = any-known p hs (ground arith) in
    elim (Bool-cases (is_digest digest_one x)) [
      | inl e ↦ rw (is_digest-eq digest_one x e) (ground arith)
      | inr e ↦
          let other : is_digest digest_two x ≡ true = ground arith in
          rw (is_digest-eq digest_two x other) (ground arith)
    ]

pub chosen-any :
    (p : Tip5Hash → Bool) (hs : List Tip5Hash) (u : Bool) (items : List Tip5Hash)
    → any is_unknown hs ≡ u
    → chosen u (any (is_digest digest_one) hs) (any (is_digest digest_two) hs) ≡ ok items
    → any p items ≡ any p hs
chosen-any p hs true items h e = cc
chosen-any p hs false items h e =
    ap (any p) (sym (ok-injective e)) ∙ any-present p _ _ ∙ any-known p hs h

unfoldable pub two_digest_set : ZSetLib
unfolding is_unknown is_digest
two_digest_set = record {
  z_set_items = λ hs.
      chosen (any is_unknown hs) (any (is_digest digest_one) hs) (any (is_digest digest_two) hs);
  z_set_items-any = λ p hs {items} e. chosen-any p hs (any is_unknown hs) items refl e;
}

pub two_digest_set-perm :
    (hs js : List Tip5Hash)
    → Permᴰ hs js
    → two_digest_set.z_set_items hs ≡ two_digest_set.z_set_items js
unfolding two_digest_set is_unknown is_digest
two_digest_set-perm hs js d =
    rw (any-perm is_unknown d, any-perm (is_digest digest_one) d, any-perm (is_digest digest_two) d)
      refl
