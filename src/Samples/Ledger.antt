-- ===== src/Samples/Ledger.antt =====
-- The ledger's part: hashes, the order of the transaction ids, note data and a node.
use mathlib.Core.Path.{subst}
use nns.Base.{
  All, List, Option, [], any, ap, arith, if◌then◌else◌, none, refl, some, suc, sym, true, zero, ℕ,
  ◌%◌, ◌=?◌, ◌^◌, ◌∷◌, ◌≡◌,
}
use nns.Base.Result.{Result, err, ok, ok-injective, text}
use nns.Base.Strings.{trim}
use nns.Base.Text.{Str, codes}
use nns.Chain.Node.{
  NodeApi, TransactionDetailsReply, block_details, current_height, in_block, tx_details, tx_pending,
}
use nns.Chain.TxOrder.{ZSetLib}
use nns.Claim.{NoteLib}
use nns.Noun.{le_value}
use nns.Payment.{IsU64, Tip5Hash, TxLib, limbs, treasury_lock_root_b58}
use nns.Rpc.{BlockDetails, NoteDataEntry, PbHash, TransactionDetails, amount}

-- a hash from its text: the value of the text, cut off at 64 bits
hash_of : Str → Tip5Hash
hash_of s = record { limb_0 = le_value s % 2 ^ 64; limb_1 = 0; limb_2 = 0; limb_3 = 0; limb_4 = 0 }

base58_of : Str → Result Tip5Hash
unfolding hash_of
base58_of [] = err (text "empty hash")
base58_of (c ∷ cs) = ok (hash_of (c ∷ cs))

base58_of-IsU64 : (s : Str) {h : Tip5Hash} → base58_of s ≡ ok h → All IsU64 (limbs h)
unfolding base58_of hash_of
base58_of-IsU64 [] e = cc
base58_of-IsU64 (c ∷ cs) e =
    subst (λ h. All IsU64 (limbs h)) (ok-injective e)
      (omega arith, (omega arith, (omega arith, (omega arith, (omega arith, tt)))))

instance unfoldable pub sample_tx : TxLib
unfolding base58_of hash_of trim base58_of-IsU64
sample_tx = record {
  from_base58 = base58_of;
  lock_from_noun = some;
  lock_hash = λ n. none;
  treasury_root = hash_of (trim treasury_lock_root_b58);
  from_base58-treasury = refl;
  from_base58-IsU64 = base58_of-IsU64;
}

-- the order of the list
instance abbrev pub sample_z_set : ZSetLib
sample_z_set = record {
  z_set_items = λ hs. ok hs;
  z_set_items-any = λ p hs {items} e. ap (any p) (sym (ok-injective e));
}

entry_of : List NoteDataEntry → Str → Result NoteDataEntry
unfolding ◌=?◌
entry_of [] key = err (text "no entry")
entry_of (e ∷ es) key = let rest = entry_of es key in if e.key =? key then ok e else rest

-- no entry is an opaque one
instance unfoldable pub sample_notes : NoteLib
unfolding entry_of
sample_notes = record {
  find_opaque_bytes_entry = λ es key. err (text "not opaque");
  find_entry = entry_of;
}

-- A transaction of one input and two outputs: a payment to the treasury, and a claim path.
abbrev pub sample_details : TransactionDetails
sample_details = record {
  tx_id = codes "tx1";
  inputs = record { note_name_b58 = codes "note"; signer_pubkey_b58 = codes "alice" ∷ [] } ∷ [];
  outputs =
      record {
        note_name_b58 = treasury_lock_root_b58;
        amount_required = some (amount 6553600);
        note_data = none;
      }
      ∷ record {
        note_name_b58 = codes "other";
        amount_required = none;
        note_data =
            some (record { key = codes "blob"; blob = codes "nns/v1/claim/longername.nock" } ∷ []);
      }
      ∷ [];
}

abbrev sample_hash : ℕ → PbHash
sample_hash n = record {
  belt_1 = some n;
  belt_2 = some 0;
  belt_3 = some 0;
  belt_4 = some 0;
  belt_5 = some 0;
}

abbrev pub sample_block : BlockDetails
sample_block = record {
  height = 63000;
  block_id = some (sample_hash 5);
  parent = some (sample_hash 4);
  tx_ids = codes "tx1" ∷ [];
  pow = none;
}

-- the node says `Pending` once, and then gives the details
details_reply : ℕ → Option TransactionDetailsReply
details_reply zero = some tx_pending
details_reply (suc n) = some (tx_details sample_details)

instance unfoldable pub sample_node : NodeApi
unfolding details_reply
sample_node = record {
  connect = λ endpoint. ok tt;
  connect_chain_client = λ endpoint timeout. ok tt;
  check_accepted = λ endpoint timeout id. ok true;
  get_transaction_block = λ endpoint id. ok (some (in_block 63000));
  get_block_details = λ endpoint height. ok (some (block_details sample_block));
  get_transaction_details = λ endpoint id earlier. ok (details_reply earlier);
  get_blocks = λ endpoint. ok (some (current_height 63010));
}

-- a node that gives the details at once
unfoldable pub prompt_node : NodeApi
unfolding sample_node
prompt_node = record sample_node {
  get_transaction_details = λ endpoint id earlier. ok (some (tx_details sample_details));
}

-- a node that cannot tell its blocks
unfoldable pub busy_node : NodeApi
unfolding sample_node
busy_node = record sample_node { get_blocks = λ endpoint. err (text "503 Service Unavailable") }
