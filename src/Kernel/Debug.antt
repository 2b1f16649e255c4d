-- ===== src/Kernel/Debug.antt =====
-- The dump of the kernel's state that `/debug/kernel-state` shows: `decode_kernel_debug` and the
-- types of its result in src/types.rs.
pub mod Dump
use nns.Base.{List, Option, if◌then◌else◌, none, some, ℕ, ◌==◌}
use nns.Base.Result.{Result, collect, err, ok, or_err, text_num, ◌>>=◌}
use nns.Base.Text.{Str}
use nns.Hex.{hex_encode}
use nns.Kernel.Peeks.{peek_unwrap_some}
use nns.Noun.{Noun, NounLib, as_cord, as_ne_bytes, as_u64, is_atom, list_elements, uncons}

pub record KernelDebugNameEntry : Type 0 where
  pub name : Str
  pub owner : Str
  pub tx_hash_hex : Str
  pub claim_height : ℕ
  pub block_digest_hex : Str

pub record KernelDebugVeslRegistered : Type 0 where
  pub hull_id_hex : Str
  pub merkle_root_hex : Str

pub record KernelDebugVesl : Type 0 where
  pub registered : List KernelDebugVeslRegistered
  pub settled_note_ids_hex : List Str

pub record KernelDebugLastProved : Type 0 where
  pub subject_jam_hex : Str
  pub formula_jam_hex : Str

pub record KernelDebugResponse : Type 0 where
  pub version : ℕ
  pub last_proved_height : ℕ
  pub last_proved_digest_hex : Str
  pub accumulator_root_hex : Str
  pub accumulator_size : ℕ
  pub names : List KernelDebugNameEntry
  pub vesl : KernelDebugVesl
  pub last_proved : Option KernelDebugLastProved

-- `ver != 0` is refused
unfoldable pub check_version : ℕ → Result (Unit {0})
check_version version =
    if version == 0 then ok tt else err (text_num "kernel-debug: unknown version " version)

module _ ⦃lib : NounLib⦄ where
  -- `hex_encode(&n.as_ne_bytes()?)`
  unfoldable pub hex_of_atom : Noun → Result Str
  unfolding as_ne_bytes hex_encode
  hex_of_atom n = do bytes ← as_ne_bytes n; ok (hex_encode bytes)

  unfoldable pub decode_kernel_debug_name_row : Noun → Result KernelDebugNameEntry
  unfolding hex_of_atom
  decode_kernel_debug_name_row row = do
    p1 ← uncons row
    p2 ← uncons p1.1
    p3 ← uncons p2.1
    p4 ← uncons p3.1
    name ← as_cord p1.0
    owner ← as_cord p2.0
    tx_hash_hex ← hex_of_atom p3.0
    claim_height ← or_err (as_u64 p4.0) "kernel-debug: claim_height overflows u64"
    block_digest_hex ← hex_of_atom p4.1
    ok (record {
      name = name;
      owner = owner;
      tx_hash_hex = tx_hash_hex;
      claim_height = claim_height;
      block_digest_hex = block_digest_hex;
    })

  -- a hull and its root
  unfoldable pub decode_registered : Noun → Result KernelDebugVeslRegistered
  unfolding hex_of_atom
  decode_registered pair = do
    p ← uncons pair
    hull_id_hex ← hex_of_atom p.0
    merkle_root_hex ← hex_of_atom p.1
    ok (record { hull_id_hex = hull_id_hex; merkle_root_hex = merkle_root_hex })

  unfoldable pub decode_optional_jam_pair : Noun → Result (Option KernelDebugLastProved)
  unfolding is_atom hex_of_atom
  decode_optional_jam_pair n = if is_atom n then ok none else do
    p ← or_err (uncons n) "kernel-debug: last_proved not unit"
    q ← or_err (uncons p.1) "kernel-debug: last_proved inner not pair"
    subject_jam_hex ← hex_of_atom q.0
    formula_jam_hex ← hex_of_atom q.1
    ok (some (record { subject_jam_hex = subject_jam_hex; formula_jam_hex = formula_jam_hex }))

  unfoldable pub decode_kernel_debug : Noun → Result KernelDebugResponse
  unfolding peek_unwrap_some list_elements hex_of_atom decode_kernel_debug_name_row
      decode_registered decode_optional_jam_pair check_version
  decode_kernel_debug result = do
    inner ← peek_unwrap_some result
    p0 ← uncons inner
    version ← or_err (as_u64 p0.0) "kernel-debug: version not u64"
    known ← check_version version
    p1 ← uncons p0.1
    p2 ← uncons p1.1
    p3 ← uncons p2.1
    p4 ← uncons p3.1
    p5 ← uncons p4.1
    p6 ← uncons p5.1
    p7 ← uncons p6.1
    height ← or_err (as_u64 p1.0) "kernel-debug: height overflows u64"
    digest_hex ← hex_of_atom p2.0
    root_hex ← hex_of_atom p3.0
    size ← or_err (as_u64 p4.0) "kernel-debug: size overflows u64"
    rows ← list_elements p5.0
    names ← collect decode_kernel_debug_name_row rows
    pairs ← list_elements p6.0
    registered ← collect decode_registered pairs
    ids ← list_elements p7.0
    settled_note_ids_hex ← collect hex_of_atom ids
    last_proved ← decode_optional_jam_pair p7.1
    ok (record {
      version = version;
      last_proved_height = height;
      last_proved_digest_hex = digest_hex;
      accumulator_root_hex = root_hex;
      accumulator_size = size;
      names = names;
      vesl = record { registered = registered; settled_note_ids_hex = settled_note_ids_hex };
      last_proved = last_proved;
    })
