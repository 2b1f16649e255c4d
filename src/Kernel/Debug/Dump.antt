-- ===== src/Kernel/Debug/Dump.antt =====
-- What the Hoon kernel answers on `/kernel-debug`, and what the decoder makes of it.
use mathlib.Core.Option
use nns.Base.{All, List, Option, [], arith, ltb, map, none, refl, some, true, ℕ, ◌<◌, ◌^◌, ◌∷◌, ◌≡◌}
use nns.Base.Result.{Result, collect, ok}
use nns.Base.Text.{Str}
use nns.Hex.{hex_encode}
use nns.Kernel.Debug.{
  KernelDebugLastProved, KernelDebugNameEntry, KernelDebugResponse, KernelDebugVeslRegistered,
  decode_kernel_debug, decode_kernel_debug_name_row, decode_optional_jam_pair, decode_registered,
  hex_of_atom,
}
use nns.Noun.{Noun, NounLib, as_ne_bytes, as_u64, atom, is_atom, make_cord, tail, uncons, ◌⸬◌}
use nns.Noun.Cord.{IsCord, as_cord-make_cord}
use nns.Noun.Lists.{list_elements-noun_list, noun_list}

pub record DumpRow : Type 0 where
  pub name : Str
  pub owner : Str
  pub tx_hash : ℕ
  pub claim_height : ℕ
  pub block_digest : ℕ

-- the parts of the kernel's state that it dumps, with atoms as numbers
pub record KernelDump : Type 0 where
  pub height : ℕ
  pub digest : ℕ
  pub root : ℕ
  pub size : ℕ
  pub rows : List DumpRow
  pub registered : List (ℕ × ℕ)
  pub settled : List ℕ
  pub last_proved : Option (ℕ × ℕ)

abbrev pub IsU64Number : ℕ → Type 0
IsU64Number n = n < 2 ^ 64

pub record IsRow (r : DumpRow) : Type 0 where
  pub name_cord : IsCord r.name
  pub owner_cord : IsCord r.owner
  pub height_fits : IsU64Number r.claim_height

pub record IsDump (d : KernelDump) : Type 0 where
  pub height_fits : IsU64Number d.height
  pub size_fits : IsU64Number d.size
  pub rows_fit : All IsRow d.rows

module _ {ℓ κ μ} {A : Type ℓ} {B : Type κ} {C : Type μ} where
  collect-map {ν} :
      (P : A → Type ν) (f : B → Result C) (g : A → B) (h : A → C) (xs : List A)
      → ((x : A) → P x → f (g x) ≡ ok (h x))
      → All P xs
      → collect f (map g xs) ≡ ok (map h xs)
  collect-map P f g h [] e k = refl
  collect-map P f g h (x ∷ xs) e k = rw (e x k.0, collect-map P f g h xs e k.1) refl

  collect-map_all :
      (f : B → Result C) (g : A → B) (h : A → C) (xs : List A)
      → ((x : A) → f (g x) ≡ ok (h x))
      → collect f (map g xs) ≡ ok (map h xs)
  collect-map_all f g h [] e = refl
  collect-map_all f g h (x ∷ xs) e = rw (e x, collect-map_all f g h xs e) refl

module _ ⦃lib : NounLib⦄ where
  abbrev pub row_noun : DumpRow → Noun
  row_noun r =
      make_cord r.name
      ⸬ make_cord r.owner
      ⸬ atom r.tx_hash
      ⸬ atom r.claim_height
      ⸬ atom r.block_digest

  abbrev pair_noun : ℕ × ℕ → Noun
  pair_noun p = atom p.0 ⸬ atom p.1

  abbrev unit_noun : Option (ℕ × ℕ) → Noun
  unit_noun none = atom 0
  unit_noun (some p) = atom 0 ⸬ pair_noun p

  -- `[~ ~ 0 height digest root size rows registered settled last-proved]`
  abbrev pub dump_noun : KernelDump → Noun
  dump_noun d =
      atom 0
      ⸬ atom 0
      ⸬ atom 0
      ⸬ atom d.height
      ⸬ atom d.digest
      ⸬ atom d.root
      ⸬ atom d.size
      ⸬ noun_list (map row_noun d.rows)
      ⸬ noun_list (map pair_noun d.registered)
      ⸬ noun_list (map atom d.settled)
      ⸬ unit_noun d.last_proved

  abbrev pub atom_hex : ℕ → Str
  atom_hex n = hex_encode (lib.ne_bytes n)

  abbrev row_view : DumpRow → KernelDebugNameEntry
  row_view r = record {
    name = r.name;
    owner = r.owner;
    tx_hash_hex = atom_hex r.tx_hash;
    claim_height = r.claim_height;
    block_digest_hex = atom_hex r.block_digest;
  }

  abbrev registered_view : ℕ × ℕ → KernelDebugVeslRegistered
  registered_view p = record { hull_id_hex = atom_hex p.0; merkle_root_hex = atom_hex p.1 }

  abbrev last_proved_view : ℕ × ℕ → KernelDebugLastProved
  last_proved_view p = record { subject_jam_hex = atom_hex p.0; formula_jam_hex = atom_hex p.1 }

  -- the same with the digests, roots and jams in hexadecimal
  abbrev pub dump_view : KernelDump → KernelDebugResponse
  dump_view d = record {
    version = 0;
    last_proved_height = d.height;
    last_proved_digest_hex = atom_hex d.digest;
    accumulator_root_hex = atom_hex d.root;
    accumulator_size = d.size;
    names = map row_view d.rows;
    vesl = record {
      registered = map registered_view d.registered;
      settled_note_ids_hex = map atom_hex d.settled;
    };
    last_proved = Option.map last_proved_view d.last_proved;
  }

  row-decoded :
      (r : DumpRow) → IsRow r → decode_kernel_debug_name_row (row_noun r) ≡ ok (row_view r)
  unfolding decode_kernel_debug_name_row uncons as_u64 as_ne_bytes
  row-decoded r h =
      let fits : ltb r.claim_height (2 ^ 64) ≡ true = let s = h.height_fits in ground arith in
      rw (as_cord-make_cord r.name h.name_cord, as_cord-make_cord r.owner h.owner_cord, fits) refl

  pair-decoded : (p : ℕ × ℕ) → decode_registered (pair_noun p) ≡ ok (registered_view p)
  unfolding decode_registered uncons as_ne_bytes
  pair-decoded p = refl

  id-decoded : (n : ℕ) → hex_of_atom (atom n) ≡ ok (atom_hex n)
  unfolding hex_of_atom
  id-decoded n = refl

  last_proved-decoded :
      (p : Option (ℕ × ℕ))
      → decode_optional_jam_pair (unit_noun p) ≡ ok (Option.map last_proved_view p)
  unfolding decode_optional_jam_pair uncons
  last_proved-decoded none = refl
  last_proved-decoded (some p) = refl

  -- The dump of a kernel whose heights and size have 64 bits and whose names and owners are cords is
  -- read back: the numbers as they are, every row, hull and settled id in its order, and each digest,
  -- root and jam as the hexadecimal text of its bytes.
  pub decode_kernel_debug-dump :
      (d : KernelDump) → IsDump d → decode_kernel_debug (dump_noun d) ≡ ok (dump_view d)
  unfolding decode_kernel_debug uncons tail is_atom as_u64 as_ne_bytes
  decode_kernel_debug-dump d h =
      let height : ltb d.height (2 ^ 64) ≡ true = let s = h.height_fits in ground arith in
      let size : ltb d.size (2 ^ 64) ≡ true = let s = h.size_fits in ground arith in
      let names =
        collect-map IsRow decode_kernel_debug_name_row row_noun row_view d.rows row-decoded
          h.rows_fit in
      let registered =
        collect-map_all decode_registered pair_noun registered_view d.registered pair-decoded in
      let settled = collect-map_all hex_of_atom atom atom_hex d.settled id-decoded in
      rw
        (
          height,
          size,
          list_elements-noun_list (map row_noun d.rows),
          names,
          list_elements-noun_list (map pair_noun d.registered),
          registered,
          list_elements-noun_list (map atom d.settled),
          settled,
          last_proved-decoded d.last_proved,
        )
        refl
