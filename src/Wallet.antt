-- ===== src/Wallet.antt =====
-- src/wallet_y4.rs: the offline wallet's bundle, and the walk over block headers from the last
-- proved block down to a pinned checkpoint.
pub mod Chain
use nns.Base.{
  List, Option, [], if◌then◌else◌, is_empty, length, ltb, not, ℕ, ◌%◌, ◌+◌, ◌-◌, ◌==◌, ◌=?◌, ◌^◌,
  ◌∷◌,
}
use nns.Base.Result.{Result, both, err, ok, text, text_num, ◌>>=◌}
use nns.Base.Text.{Bytes, Str}
use nns.Hex.{hex_decode_even}

pub record CheckpointConfig : Type 0 where
  pub height : ℕ
  pub digest : Bytes

pub record NockHeaderLink : Type 0 where
  pub height : ℕ
  pub digest_hex : Str
  pub parent_hex : Str

pub record AccumulatorEntryJson : Type 0 where
  pub owner : Str
  pub tx_hash_hex : Str
  pub claim_height : ℕ
  pub block_digest_hex : Str

pub record ZInProofNodeJson : Type 0 where
  pub hash : Str
  pub side : Str

pub record PathY4LookupBundle : Type 0 where
  pub name : Str
  pub value : Option AccumulatorEntryJson
  pub last_proved_height : ℕ
  pub last_proved_digest_hex : Str
  pub accumulator_root_hex : Str
  pub recursive_proof_hex : Option Str
  pub recursive_subject_jam_hex : Option Str
  pub recursive_formula_jam_hex : Option Str
  pub accumulator_snapshot_jam_hex : Option Str
  pub z_in_proof : Option (List ZInProofNodeJson)
  pub headers_to_checkpoint : List NockHeaderLink

-- `h_next + 1` and `h - 1` on `u64`, which wrap in a release build
abbrev pub next_u64 : ℕ → ℕ
next_u64 h = (h + 1) % 2 ^ 64

abbrev pub prev_u64 : ℕ → ℕ
prev_u64 h = (h + 2 ^ 64 - 1) % 2 ^ 64

-- the loop's body on the last header
unfoldable pub check_last_row : CheckpointConfig → NockHeaderLink → Result (Unit {0})
unfolding ◌=?◌
check_last_row cp x = do
  d_i ← hex_decode_even x.digest_hex
  p_i ← hex_decode_even x.parent_hex
  if not (x.height == cp.height)
      then err (
          both (text_num "terminal header height " x.height)
            (text_num " does not match checkpoint height " cp.height))
      else if not (d_i =? cp.digest)
      then err (text "terminal header digest does not match checkpoint digest")
      else ok tt

-- the loop's body on header `i`, which has another one below it
unfoldable pub check_row : ℕ → NockHeaderLink → NockHeaderLink → Result (Unit {0})
unfolding ◌=?◌
check_row i x y = do
  d_i ← hex_decode_even x.digest_hex
  p_i ← hex_decode_even x.parent_hex
  d_next ← hex_decode_even y.digest_hex
  if not (p_i =? d_next)
      then err (
          both (text_num "header chain break at index " i)
            (text ": parent does not match next digest"))
      else if not (next_u64 y.height == x.height)
      then err (
          both (text_num "header height gap at index " i)
            (both (text_num ": expected height " (prev_u64 x.height)) (text_num ", got " y.height)))
      else ok tt

-- the loop over the headers, from index `i` on
unfoldable pub check_headers : CheckpointConfig → ℕ → List NockHeaderLink → Result (Unit {0})
unfolding check_last_row check_row
check_headers cp i [] = ok tt
check_headers cp i (x ∷ []) = check_last_row cp x
check_headers cp i (x ∷ y ∷ rest) =
    let later = check_headers cp (i + 1) (y ∷ rest) in check_row i x y >>= λ _. later

-- the headers above the checkpoint's height: the first one is the last proved block
unfoldable pub check_first : ℕ → Bytes → CheckpointConfig → List NockHeaderLink → Result (Unit {0})
unfolding check_headers ◌=?◌
check_first last_height last_digest cp [] =
    err (text "headers_to_checkpoint is empty but last_proved_height is above checkpoint height")
check_first last_height last_digest cp (x ∷ rest) = do
  first_d ← hex_decode_even x.digest_hex
  if not (first_d =? last_digest)
      then err (text "first header digest does not match last_proved_digest")
      else if not (x.height == last_height)
      then err (
          both (text_num "first header height " x.height)
            (text_num " does not match last_proved_height " last_height))
      else check_headers cp 0 (x ∷ rest)

unfoldable pub verify_header_chain_to_checkpoint :
    ℕ → Bytes → CheckpointConfig → List NockHeaderLink → Result (Unit {0})
unfolding check_first ◌=?◌
verify_header_chain_to_checkpoint last_height last_digest cp headers =
    if last_height == cp.height
    then (if not (is_empty headers)
        then err (
            both (text_num "expected empty headers when last_proved_height (" last_height) (
              both (text_num ") equals checkpoint height, got " (length headers))
                (text " headers")))
        else if not (last_digest =? cp.digest)
        then err (text "last_proved_digest does not match checkpoint digest at same height")
        else ok tt)
    else if ltb last_height cp.height
    then err (
        both (text_num "last_proved_height " last_height)
          (text_num " is below checkpoint height " cp.height))
    else check_first last_height last_digest cp headers
