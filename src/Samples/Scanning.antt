-- ===== src/Samples/Scanning.antt =====
-- A kernel that keeps a cursor as the Hoon program does, without the accumulator.
use mathlib.Core.Path.{subst}
use nns.Base.{
  Bool, Bool-cases, [], ap, false, if◌then◌else◌, inl, inr, ltb, none, refl, some, sym, true, ℕ,
  ◌==◌, ◌^◌, ◌∙◌, ◌∷◌, ◌≡◌,
}
use nns.Base.Result.{ok, ok-injective, some-injective}
use nns.Base.Text.{codes, utf8}
use nns.Follower.Apply.Cursor.{KernelCursor}
use nns.Follower.Monad.{KernelApi}
use nns.Kernel.Peeks.{decode_scan_state, peek_unwrap_some}
use nns.Kernel.Pokes.{
  build_prove_recursive_genesis_poke, build_prove_recursive_transition_poke, build_scan_block_poke,
}
use nns.Kernel.Types.{ScanState}
use nns.Noun.{Noun, as_ne_bytes, as_u64, atom, head, is_atom, le_value, tail, uncons, ◌⸬◌}
use nns.Samples.Kernels.{sample_report}
use nns.Samples.Nouns.{sample_nouns}

abbrev scan_tag : Noun → Bool
scan_tag (atom n) = n == le_value (utf8 (codes "scan-block"))
scan_tag (a ⸬ b) = false

abbrev scan_after : ℕ × ℕ → Noun → ℕ × ℕ
scan_after s (tag ⸬ parent ⸬ atom h ⸬ atom page ⸬ rest) = if scan_tag tag then (h, page) else s
scan_after s noun = s

instance abbrev pub scanning_kernel : KernelApi
scanning_kernel = record {
  State = ℕ × ℕ;
  peek = λ s path. ok (atom 0 ⸬ atom 0 ⸬ atom s.0 ⸬ atom s.1 ⸬ atom 0 ⸬ atom 0);
  poke = λ s cause. ok (sample_report ∷ []);
  after = scan_after;
}

pub if_some {ℓ} : {A : Type ℓ} (b : Bool) (x c : A) → (if b then some x else none) ≡ some c → x ≡ c
if_some true x c e = some-injective e
if_some false x c e = cc

pub scanning_shown :
    (h d : ℕ) (st : ScanState)
    → decode_scan_state ⦃lib = sample_nouns⦄ (atom 0 ⸬ atom 0 ⸬ atom h ⸬ atom d ⸬ atom 0 ⸬ atom 0)
      ≡ ok st
    → (st.last_proved_height ≡ h) × (le_value st.last_proved_digest ≡ d)
unfolding decode_scan_state peek_unwrap_some is_atom head tail uncons as_u64 as_ne_bytes
scanning_shown h d st e = elim (Bool-cases (ltb h (2 ^ 64))) [
  | inl fits ↦
      let same = ok-injective (rw fits at e) in
      (
        sym (ap (λ s. s.last_proved_height) same),
        sym (ap (λ s. le_value s.last_proved_digest) same) ∙ sample_nouns.le_value-ne_bytes d,
      )
  | inr big ↦ cc (rw big at e)
]

unfoldable pub scanning_cursor : KernelCursor ⦃k = scanning_kernel⦄ ⦃lib = sample_nouns⦄
unfolding build_scan_block_poke build_prove_recursive_genesis_poke
    build_prove_recursive_transition_poke sample_nouns utf8
scanning_cursor = record {
  height = λ s. s.0;
  digest = λ s. s.1;
  shown = λ s noun st hp hd.
      scanning_shown s.0 s.1 st
        (ap (decode_scan_state ⦃lib = sample_nouns⦄) (ok-injective hp) ∙ hd);
  scanned = λ s parent h page ids claims. inl (refl, refl);
  proved_transition = λ s p su f page ids claims bp cause e.
      subst (λ c. ((scan_after s c).0 ≡ s.0) × ((scan_after s c).1 ≡ s.1)) (if_some _ _ cause e)
        (refl, refl);
  proved_genesis = λ s. (refl, refl);
}
