-- ===== src/Api/Names.antt =====
-- Which names a client may ask for, and how the status judges the follower.
use nns.Api.{is_name_char, is_valid_name, valid_stem}
use nns.Base.{Option, all, ap, arith, false, is_empty, none, refl, some, true, ◌++◌, ◌↔◌, ◌∙◌, ◌≡◌}
use nns.Base.Strings.{strip_suffix, strip_suffix-append, strip_suffix-append_self}
use nns.Base.Text.{Str, codes}

stem_of :
    (name : Str) (o : Option Str)
    → strip_suffix (codes ".nock") name ≡ o
    → valid_stem o ≡ true
    → (stem : Str) × (name ≡ stem ++ codes ".nock")
      × (is_empty stem ≡ false)
      × (all is_name_char stem ≡ true)
stem_of name none e h = cc
stem_of name (some stem) e h =
    (stem, strip_suffix-append (codes ".nock") name e, ground arith, ground arith)

-- A valid name is a stem with `.nock` after it, whose characters are lower-case letters and digits,
-- one at least.
pub is_valid_name_iff :
    (name : Str)
    → (is_valid_name name ≡ true) ↔ (
        (stem : Str) × (name ≡ stem ++ codes ".nock")
        × (is_empty stem ≡ false)
        × (all is_name_char stem ≡ true))
unfolding is_valid_name
is_valid_name_iff name = (
  λ h. stem_of name (strip_suffix (codes ".nock") name) refl h,
  λ (stem, e, full, chars).
      ap (λ (n : Str). valid_stem (strip_suffix (codes ".nock") n)) e
      ∙ ap valid_stem (strip_suffix-append_self stem (codes ".nock"))
      ∙ ground (arith, full, chars),
)
