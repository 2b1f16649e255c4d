-- ===== src/Formula/Banned.antt =====
-- What the search finds: the cells inside a formula, and those with a banned head.
use mathlib.Core.Path.{subst}
use nns.Base.{Bool-cases, arith, inl, inr, refl, sym, true, ℕ, ◌↔◌, ◌≡◌, ◌≤◌}
use nns.Formula.{banned_head, walk}
use nns.Noun.{Noun, as_u64, atom, ◌⸬◌}

-- `Within sub n`: the noun `sub` is `n`, or it is a part of it at some axis.
pub data Within (sub : Noun) : Noun → Type 0 where
  here : Within sub sub
  in_head : {h t : Noun} → Within sub h → Within sub (h ⸬ t)
  in_tail : {h t : Noun} → Within sub t → Within sub (h ⸬ t)

-- A part of the formula that is a cell with an opcode from 9 to 11 as its head.
pub record BannedCell (n : Noun) : Type 0 where
  pub opcode : ℕ
  pub operand : Noun
  pub low : 9 ≤ opcode
  pub high : opcode ≤ 11
  pub place : Within (atom opcode ⸬ operand) n

banned_head-atom : (h : Noun) → banned_head h ≡ true → (k : ℕ) × (h ≡ atom k) × (9 ≤ k) × (k ≤ 11)
unfolding banned_head as_u64
banned_head-atom (atom k) e = (k, refl, ground arith, ground arith)
banned_head-atom (a ⸬ b) e = cc

atom-banned_head : (k : ℕ) → 9 ≤ k → k ≤ 11 → banned_head (atom k) ≡ true
unfolding banned_head as_u64
atom-banned_head k l h = ground arith

widen_head : {h t : Noun} → BannedCell h → BannedCell (h ⸬ t)
widen_head b = record {
  opcode = b.opcode;
  operand = b.operand;
  low = b.low;
  high = b.high;
  place = in_head b.place;
}

widen_tail : {h t : Noun} → BannedCell t → BannedCell (h ⸬ t)
widen_tail b = record {
  opcode = b.opcode;
  operand = b.operand;
  low = b.low;
  high = b.high;
  place = in_tail b.place;
}

walk-finds : (n : Noun) → walk n ≡ true → BannedCell n
unfolding walk
walk-finds (atom n) e = cc
walk-finds (h ⸬ t) e = elim (Bool-cases (banned_head h)) [
  | inl yes_head ↦
      let (k, h_k, l, u) = banned_head-atom h yes_head in
      subst (λ x. BannedCell (x ⸬ t)) (sym h_k)
        (record { opcode = k; operand = t; low = l; high = u; place = here })
  | inr no_head ↦ elim (Bool-cases (walk h)) [
    | inl in_h ↦ widen_head (walk-finds h in_h)
    | inr not_h ↦ widen_tail (walk-finds t (rw (no_head, not_h) at e))
  ]
]

Within-walk : (k : ℕ) (x n : Noun) → 9 ≤ k → k ≤ 11 → Within (atom k ⸬ x) n → walk n ≡ true
unfolding walk
Within-walk k x n l u here = rw (atom-banned_head k l u) refl
Within-walk k x (h ⸬ t) l u (in_head w) = let found = Within-walk k x h l u w in ground arith
Within-walk k x (h ⸬ t) l u (in_tail w) = let found = Within-walk k x t l u w in ground arith

-- The search says yes exactly if the formula has a cell in it, itself included, whose head is one
-- of the atoms 9, 10 and 11.
pub walk_iff : (n : Noun) → (walk n ≡ true) ↔ BannedCell n
walk_iff n = (walk-finds n, λ b. Within-walk b.opcode b.operand n b.low b.high b.place)
