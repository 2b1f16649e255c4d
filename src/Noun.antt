-- ===== src/Noun.antt =====
-- src/noun_access.rs: the accessors that the hull has for nouns, over any allocator.
-- A noun is an atom, which is a natural number, or a cell of two nouns; this is Nock's definition.
-- What nockvm and nock_noun_rs do with nouns and bytes is the record `NounLib`.
pub mod LeBytes
pub mod Cord
pub mod Lists
use nns.Base.{
  All, Bool, List, Option, String, [], false, if◌then◌else◌, ltb, some, true, ℕ, ◌%◌, ◌*◌, ◌+◌, ◌<◌,
  ◌==◌, ◌^◌, ◌∷◌, ◌≡◌,
}
use nns.Base.Result.{Result, err, ok, ok_or, text, to_option, ◌>>=◌}
use nns.Base.Strings.{trim_end_matches}
use nns.Base.Text.{Bytes, Str, codes, from_utf8, utf8}

infixr 66 ◌⸬◌
pub data Noun : Type 0 where
  atom : ℕ → Noun
  ◌⸬◌ : Noun → Noun → Noun

-- The number whose little-endian bytes these are.
abbrev pub le_value : Bytes → ℕ
le_value [] = 0
le_value (b ∷ bs) = b + 256 * le_value bs

abbrev pub IsByte : ℕ → Type 0
IsByte b = b < 256

-- nockvm and nock_noun_rs: `make_atom_in`, `Atom::as_ne_bytes`, `jam` and `cue`. `as_ne_bytes` may
-- pad with zero bytes (a direct atom is a machine word), so only its value is known. The jam of a
-- cell starts with the bits 1 and 0.
pub record NounLib : Type 0 where
  pub from_le_bytes : Bytes → ℕ
  pub ne_bytes : ℕ → Bytes
  pub jam : Noun → Bytes
  pub cue : Bytes → Option Noun
  pub le_value-from_le_bytes : (bs : Bytes) → from_le_bytes bs ≡ le_value bs
  pub le_value-ne_bytes : (n : ℕ) → le_value (ne_bytes n) ≡ n
  pub ne_bytes-IsByte : (n : ℕ) → All IsByte (ne_bytes n)
  pub cue-jam : (n : Noun) → cue (jam n) ≡ some n
  pub jam-IsByte : (n : Noun) → All IsByte (jam n)
  pub jam-cell :
      (a b : Noun) → (first : ℕ) × (rest : Bytes) × (jam (a ⸬ b) ≡ first ∷ rest) × (first % 4 ≡ 1)

unfoldable pub is_atom : Noun → Bool
is_atom (atom n) = true
is_atom (a ⸬ b) = false

unfoldable pub head : Noun → Result Noun
head (atom n) = err (text "expected cell")
head (a ⸬ b) = ok a

unfoldable pub tail : Noun → Result Noun
tail (atom n) = err (text "expected cell")
tail (a ⸬ b) = ok b

unfoldable pub uncons : Noun → Result (Noun × Noun)
uncons (atom n) = err (text "expected cell")
uncons (a ⸬ b) = ok (a, b)

unfoldable pub as_u64 : Noun → Result ℕ
as_u64 (atom n) = if ltb n (2 ^ 64) then ok n else err (text "atom overflows u64")
as_u64 (a ⸬ b) = err (text "expected atom")

unfoldable pub as_u64_opt : Noun → Option ℕ
unfolding as_u64
as_u64_opt n = to_option (as_u64 n)

unfoldable pub list_elements : Noun → Result (List Noun)
list_elements (atom n) = ok []
list_elements (a ⸬ rest) = list_elements rest >>= λ out. ok (a ∷ out)

abbrev pub is_nul : ℕ → Bool
is_nul c = c == 0

module _ ⦃lib : NounLib⦄ where
  unfoldable pub as_ne_bytes : Noun → Result Bytes
  as_ne_bytes (atom n) = ok (lib.ne_bytes n)
  as_ne_bytes (a ⸬ b) = err (text "expected atom")

  unfoldable pub as_cord : Noun → Result Str
  as_cord (atom n) = ok_or (from_utf8 (lib.ne_bytes n)) (text "cord not utf-8") >>= λ s.
      ok (trim_end_matches is_nul s)
  as_cord (a ⸬ b) = err (text "expected cord atom")

  -- `make_atom_in`, `make_cord_in`, `make_tag_in`
  abbrev pub make_atom : Bytes → Noun
  make_atom bs = atom (lib.from_le_bytes bs)

  abbrev pub make_cord : Str → Noun
  make_cord s = make_atom (utf8 s)

  abbrev pub make_tag : String → Noun
  make_tag s = make_cord (codes s)

  -- `jam_bytes_from_slab`: the copy into a fresh slab is the same noun
  unfoldable pub jam_bytes : Noun → Bytes
  jam_bytes n = lib.jam n
