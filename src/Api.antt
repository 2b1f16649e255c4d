-- ===== src/Api.antt =====
-- src/api.rs: the checks of what clients send, the lookup of a name, and the follower's status.
-- Routing, JSON and the server are axum's and serde's.
pub mod Names
pub mod Status
pub mod Lookup
pub mod CaughtUp
use mathlib.Core.Option
use nns.Base.{
  Bool, Option, String, all, false, if◌then◌else◌, is_empty, ltb, none, not, some, true, ℕ, ◌&&◌,
  ◌==◌, ◌||◌,
}
use nns.Base.Display.{render}
use nns.Base.Result.{Error, Result, context, err, ok, text}
use nns.Base.Strings.{
  is_ascii_alphanumeric, is_ascii_digit, is_ascii_lowercase, len, strip_suffix, trim,
}
use nns.Base.Text.{Bytes, Str, codes}
use nns.Hex.{hex_encode}
use nns.Kernel.Peeks.{
  decode_accumulator_entry, decode_accumulator_jam, decode_accumulator_proof_axis,
  decode_recursive_proof, decode_scan_state,
}
use nns.Kernel.Peeks.Paths.{
  build_accumulator_jam_peek, build_accumulator_peek, build_accumulator_proof_peek,
  build_recursive_proof_peek, build_scan_state_peek,
}
use nns.Kernel.Types.{AccumulatorEntry, ScanState}
use nns.Noun.{Noun, NounLib}

unfoldable pub is_valid_address : Str → Bool
unfolding trim
is_valid_address address =
    let a = trim address in
    let length_of = len a in
    if ltb 43 length_of && ltb length_of 57
    then true
    else length_of == 132 && all is_ascii_alphanumeric a

abbrev pub is_name_char : ℕ → Bool
is_name_char c = is_ascii_lowercase c || is_ascii_digit c

abbrev pub valid_stem : Option Str → Bool
valid_stem none = false
valid_stem (some stem) = not (is_empty stem) && all is_name_char stem

unfoldable pub is_valid_name : Str → Bool
unfolding strip_suffix
is_valid_name name = valid_stem (strip_suffix (codes ".nock") name)

-- the error responses
pub data Response : Type 0 where
  bad_request : Error → Response
  not_found : Error → Response
  server_error : Error → Response

-- their status and the text of their body
unfoldable pub status_code : Response → ℕ
status_code (bad_request msg) = 400
status_code (not_found msg) = 404
status_code (server_error msg) = 500

unfoldable pub error_body : Response → Str
unfolding render
error_body (bad_request msg) = render msg
error_body (not_found msg) = render msg
error_body (server_error msg) = render msg

pub data Reply {ℓ} (A : Type ℓ) : Type ℓ where
  json : A → Reply A
  failed : Response → Reply A

infixl 5 ◌>>=◌
abbrev pub ◌>>=◌ {ℓ κ} : {A : Type ℓ} {B : Type κ} → Reply A → (A → Reply B) → Reply B
json a >>= f = f a
failed r >>= f = failed r

-- `peek(..)`, and its decoding: a failure of either is a server error
abbrev pub decoded {ℓ} : {A : Type ℓ} → Result Noun → String → (Noun → Result A) → String → Reply A
decoded (err e) peek_failed decode decode_failed = failed (server_error (context peek_failed e))
decoded (ok noun) peek_failed decode decode_failed = elim (decode noun) [
  | ok a ↦ json a
  | err e ↦ failed (server_error (context decode_failed e))
]

pub record AccumulatorValueResponse : Type 0 where
  pub owner : Str
  pub tx_hash : Str
  pub claim_height : ℕ
  pub block_digest : Str

pub record AccumulatorLookupResponse : Type 0 where
  pub name : Str
  pub value : Option AccumulatorValueResponse
  pub proof_axis : Option Str
  pub accumulator_snapshot_hex : Option Str
  pub recursive_proof_hex : Option Str
  pub recursive_subject_jam_hex : Option Str
  pub recursive_formula_jam_hex : Option Str
  pub last_proved_height : ℕ
  pub last_proved_digest : Str
  pub accumulator_root : Str
  pub accumulator_size : ℕ

-- the value of an entry
abbrev pub entry_value : AccumulatorEntry → AccumulatorValueResponse
unfolding hex_encode
entry_value entry = record {
  owner = entry.owner;
  tx_hash = hex_encode entry.tx_hash;
  claim_height = entry.claim_height;
  block_digest = hex_encode entry.block_digest;
}

abbrev pub lookup_response :
    Str
    → AccumulatorEntry
    → Option Bytes
    → ScanState
    → Option Str
    → Option (Bytes × Bytes × Bytes)
    → AccumulatorLookupResponse
unfolding hex_encode entry_value
lookup_response name entry proof_axis scan_state snapshot recursive = record {
  name = name;
  value = some (entry_value entry);
  proof_axis = Option.map hex_encode proof_axis;
  accumulator_snapshot_hex = snapshot;
  recursive_proof_hex = Option.map (λ (p, s, f). hex_encode p) recursive;
  recursive_subject_jam_hex = Option.map (λ (p, s, f). hex_encode s) recursive;
  recursive_formula_jam_hex = Option.map (λ (p, s, f). hex_encode f) recursive;
  last_proved_height = scan_state.last_proved_height;
  last_proved_digest = hex_encode scan_state.last_proved_digest;
  accumulator_root = hex_encode scan_state.accumulator_root;
  accumulator_size = scan_state.accumulator_size;
}

module _ ⦃lib : NounLib⦄ (peek : Noun → Result Noun) where
  -- a name's entry and what proves it; all peeks are made under one lock
  unfoldable pub lookup_entry : Str → Bool → AccumulatorEntry → Reply AccumulatorLookupResponse
  unfolding decode_accumulator_proof_axis decode_scan_state decode_accumulator_jam
      decode_recursive_proof hex_encode lookup_response
  lookup_entry name wallet_export entry = do
    axis ←
        decoded (peek (build_accumulator_proof_peek name)) "kernel accumulator-proof peek failed"
          decode_accumulator_proof_axis "decode accumulator-proof failed"
    scan_state ←
        decoded (peek build_scan_state_peek) "kernel scan-state peek failed" decode_scan_state
          "decode scan-state failed"
    snapshot ←
        (if wallet_export
          then (do
            jam ←
                decoded (peek build_accumulator_jam_peek) "kernel accumulator-jam peek failed"
                  decode_accumulator_jam "decode accumulator-jam failed"
            json (some (hex_encode jam)))
          else json none)
    recursive ←
        decoded (peek build_recursive_proof_peek) "kernel recursive-proof peek failed"
          decode_recursive_proof "decode recursive-proof failed"
    json (lookup_response name entry axis scan_state snapshot recursive)

  unfoldable pub accumulator_handler : Str → Bool → Reply AccumulatorLookupResponse
  unfolding is_valid_name decode_accumulator_entry lookup_entry
  accumulator_handler name wallet_export =
      if not (is_valid_name name) then failed (bad_request (text "invalid name")) else (do
        found ←
            decoded (peek (build_accumulator_peek name)) "kernel accumulator peek failed"
              decode_accumulator_entry "decode accumulator failed"
        elim found [
          | none ↦ failed (not_found (text "not registered"))
          | some entry ↦ lookup_entry name wallet_export entry
        ])
