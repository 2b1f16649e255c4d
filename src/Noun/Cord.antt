-- ===== src/Noun/Cord.antt =====
-- Cords: text stored in an atom, and read back by `as_cord`.
use nns.Base.{
  All, [], ap, arith, false, is_empty, refl, replicate, suc, zero, ℕ, ◌&&◌, ◌++◌, ◌==◌, ◌∙◌, ◌∷◌,
  ◌≡◌,
}
use nns.Base.Result.{ok}
use nns.Base.Strings.{IsTrimmed, trim_end_matches, trim_end_matches-padded}
use nns.Base.Text.{Bytes, IsScalar, Str, from_utf8-utf8, utf8, utf8-IsByte, utf8-replicate}
use nns.Noun.{NounLib, as_cord, is_nul, make_cord}
use nns.Noun.LeBytes.{le_value-trimmed, trim-append-replicate}

-- A string that a cord keeps: scalar values only, and no NUL at the end.
pub record IsCord (s : Str) : Type 0 where
  pub scalars : All IsScalar s
  pub trimmed : IsTrimmed is_nul s

is_empty-utf8 : (s : Str) → is_empty (utf8 s) ≡ is_empty s
unfolding utf8
is_empty-utf8 [] = refl
is_empty-utf8 (c ∷ cs) = ground arith

trim-utf8_char :
    (c : ℕ) (cs : Str)
    → IsTrimmed is_nul (utf8 cs)
    → (c == 0 && is_empty cs) ≡ false
    → IsTrimmed is_nul (utf8 (c ∷ cs))
unfolding trim_end_matches utf8
trim-utf8_char c cs h n = ground (arith, is_empty-utf8 cs)

trim-cons :
    (c : ℕ) (cs : Str)
    → IsTrimmed is_nul (c ∷ cs)
    → IsTrimmed is_nul cs × ((c == 0 && is_empty cs) ≡ false)
unfolding trim_end_matches
trim-cons c cs h = ground arith

trim-utf8 : (s : Str) → IsTrimmed is_nul s → IsTrimmed is_nul (utf8 s)
unfolding trim_end_matches utf8
trim-utf8 [] h = refl
trim-utf8 (c ∷ cs) h = let (h', n) = trim-cons c cs h in trim-utf8_char c cs (trim-utf8 cs h') n

All-append-replicate : (s : Str) (k : ℕ) → All IsScalar s → All IsScalar (s ++ replicate k 0)
All-append-replicate [] zero h = tt
All-append-replicate [] (suc k) h = (refl, All-append-replicate [] k tt)
All-append-replicate (c ∷ cs) k h = (h.0, All-append-replicate cs k h.1)

module _ ⦃lib : NounLib⦄ where
  padded :
      (s : Str)
      → IsCord s
      → (k : ℕ) × (lib.ne_bytes (lib.from_le_bytes (utf8 s)) ≡ utf8 s ++ replicate k 0)
  padded s c =
      let bs = lib.ne_bytes (lib.from_le_bytes (utf8 s)) in
      let (k, e) = trim-append-replicate bs in
      (
        k,
        e
            ∙ ap (λ (t : Bytes). t ++ replicate k 0)
                (le_value-trimmed bs (utf8 s) (lib.ne_bytes-IsByte _) (utf8-IsByte s c.scalars)
                    (lib.le_value-ne_bytes _ ∙ lib.le_value-from_le_bytes (utf8 s))
                  ∙ trim-utf8 s c.trimmed),
      )

  -- A cord reads back as the string that it was made of.
  pub as_cord-make_cord : (s : Str) → IsCord s → as_cord (make_cord s) ≡ ok s
  unfolding as_cord
  as_cord-make_cord s c =
      let (k, e) = padded s c in
      rw (
        e,
        ← utf8-replicate s k,
        from_utf8-utf8 (s ++ replicate k 0) (All-append-replicate s k c.scalars),
        trim_end_matches-padded is_nul s k 0 refl c.trimmed,
      )
