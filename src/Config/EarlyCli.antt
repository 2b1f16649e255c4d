-- ===== src/Config/EarlyCli.antt =====
-- `boot_stack_size` and `handle_early_cli` of src/lib.rs.
use nns.Base.{Bool, List, Option, [], false, if◌then◌else◌, none, some, true, ◌+◌, ◌=?◌, ◌||◌, ◌∷◌}
use nns.Base.Strings.{is_ascii_uppercase}
use nns.Base.Text.{Str, codes}

-- nockapp's sizes of the Nock stack
pub record NockStackSizes : Type 1 where
  pub Size : Type 0
  pub tiny : Size
  pub small : Size
  pub normal : Size
  pub medium : Size
  pub large : Size
  pub huge : Size

-- `str::to_ascii_lowercase`
unfoldable pub to_ascii_lowercase : Str → Str
to_ascii_lowercase [] = []
to_ascii_lowercase (c ∷ cs) =
    let rest = to_ascii_lowercase cs in if is_ascii_uppercase c then (c + 32) ∷ rest else c ∷ rest

module _ (sizes : NockStackSizes) where
  abbrev size_of : Str → sizes.Size
  unfolding ◌=?◌
  size_of s =
      if s =? codes "tiny"
      then sizes.tiny
      else if s =? codes "small"
      then sizes.small
      else if s =? codes "normal"
      then sizes.normal
      else if s =? codes "medium"
      then sizes.medium
      else if s =? codes "huge"
      then sizes.huge
      else sizes.large

  -- on the lossy text of NNS_NOCK_STACK_SIZE; an unknown size is large, with a warning
  unfoldable pub boot_stack_size : Option Str → sizes.Size
  unfolding to_ascii_lowercase size_of
  boot_stack_size none = sizes.large
  boot_stack_size (some raw) = size_of (to_ascii_lowercase raw)

-- what is printed before the start, if anything is
pub data EarlyCli : Type 0 where
  prints_version : EarlyCli
  prints_help : EarlyCli
  starts : EarlyCli

abbrev is_version_flag : Str → Bool
unfolding ◌=?◌
is_version_flag arg = arg =? codes "--version" || arg =? codes "-V"

abbrev is_help_flag : Str → Bool
unfolding ◌=?◌
is_help_flag arg = arg =? codes "--help" || arg =? codes "-h"

-- the loop over the arguments after the program's name
unfoldable pub early_arguments : Bool → List Str → EarlyCli
unfolding is_version_flag is_help_flag
early_arguments show_help [] = if show_help then prints_help else starts
early_arguments show_help (arg ∷ args) =
    let rest = early_arguments (show_help || is_help_flag arg) args in
    if is_version_flag arg then prints_version else rest

-- `true` ends the program
unfoldable pub handle_early_cli : List Str → EarlyCli × Bool
unfolding early_arguments
handle_early_cli args = elim (early_arguments false args) [
  | prints_version ↦ (prints_version, true)
  | prints_help ↦ (prints_help, true)
  | starts ↦ (starts, false)
]
