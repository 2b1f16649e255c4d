-- ===== src/State/Persist.antt =====
-- The count of scans goes round with the stride.
use mathlib.Core.Path.{subst}
use native.Mathlib.Nat.{mod-eq_of_lt, mod-lt, mod_self, suc-mod, zero-mod}
use nns.Base.{
  Option, ap, arith, if◌then◌else◌, inl, inr, leb, none, refl, some, suc, sym, u64_max, zero, ℕ,
  ◌%◌, ◌<◌, ◌^◌, ◌∙◌, ◌≡◌, ◌≤◌, ◌⊎◌,
}
use nns.Base.Parse.{parse_u64, parse_u64-le}
use nns.Base.Text.{Str}
use nns.State.{follower_persist_stride_blocks, maybe_persist_after_follower_scan}

-- after `k` scans from a count of 0
abbrev pub scans : ℕ → ℕ → ℕ
scans stride zero = 0
scans stride (suc k) = maybe_persist_after_follower_scan stride (scans stride k)

pub step-below :
    (stride prev : ℕ)
    → 0 < stride
    → stride < 2 ^ 64
    → prev < stride
    → (maybe_persist_after_follower_scan stride prev < stride)
      × (((suc prev < stride) × (maybe_persist_after_follower_scan stride prev ≡ suc prev))
          ⊎ ((suc prev ≡ stride) × (maybe_persist_after_follower_scan stride prev ≡ 0)))
unfolding maybe_persist_after_follower_scan
step-below stride prev h u l = ground arith

-- For a positive stride that fits in 64 bits, the count that the hook keeps after `k` scans from 0
-- is `k` modulo the stride.
pub scans-mod : (stride k : ℕ) → 0 < stride → stride < 2 ^ 64 → scans stride k ≡ k % stride
scans-mod stride zero h u = sym (zero-mod stride)
scans-mod stride (suc k) h u =
    let ih = scans-mod stride k h u in
    let (below, cases) =
      step-below stride (scans stride k) h u (subst (λ x. x < stride) (sym ih) (mod-lt k h)) in
    let next : suc (scans stride k) % stride ≡ suc k % stride = rw ih (sym (suc-mod k stride)) in
    elim cases [
      | inl (more, s) ↦ s ∙ sym (mod-eq_of_lt more) ∙ next
      | inr (full, s) ↦ s ∙ sym (mod_self stride) ∙ ap (λ (x : ℕ). x % stride) (sym full) ∙ next
    ]

parsed-bounds :
    (r : Option ℕ) (default : ℕ)
    → ((n : ℕ) → r ≡ some n → n ≤ u64_max)
    → 0 < default
    → default < 2 ^ 64
    → let value : ℕ = elim r [ none ↦ default | some n ↦ if leb 1 n then n else default ] in
      (0 < value) × (value < 2 ^ 64)
parsed-bounds none default h pos fits = (pos, fits)
parsed-bounds (some n) default h pos fits = let small : n ≤ u64_max = h n refl in ground arith

pub follower_persist_stride_blocks-bounds :
    (variable : Option Str)
    → (0 < follower_persist_stride_blocks variable)
      × (follower_persist_stride_blocks variable < 2 ^ 64)
unfolding follower_persist_stride_blocks
follower_persist_stride_blocks-bounds none = omega arith
follower_persist_stride_blocks-bounds (some s) =
    parsed-bounds (parse_u64 s) 1000 (parse_u64-le s) (omega arith) (omega arith)
