-- ===== src/Kernel/Peeks/Digests.antt =====
-- The digest in a decoded scan state.
use mathlib.Core.Path.{subst}
use nns.Base.{All, ap, ◌≡◌}
use nns.Base.Result.{>>=-eq-ok, ok, ok-injective, or_err}
use nns.Base.Text.{Bytes}
use nns.Kernel.Peeks.{decode_scan_state, peek_unwrap_some}
use nns.Kernel.Types.{ScanState}
use nns.Noun.{IsByte, Noun, NounLib, as_ne_bytes, as_u64, atom, head, tail, uncons, ◌⸬◌}

module _ ⦃lib : NounLib⦄ where
  as_ne_bytes-IsByte : (n : Noun) (d : Bytes) → as_ne_bytes n ≡ ok d → All IsByte d
  unfolding as_ne_bytes
  as_ne_bytes-IsByte (atom n) d e = subst (All IsByte) (ok-injective e) (lib.ne_bytes-IsByte n)
  as_ne_bytes-IsByte (a ⸬ b) d e = cc

  -- The digest of a decoded scan state consists of bytes.
  pub decode_scan_state-IsByte :
      (n : Noun) (st : ScanState) → decode_scan_state n ≡ ok st → All IsByte st.last_proved_digest
  unfolding decode_scan_state
  decode_scan_state-IsByte n st e =
      let (inner, _, e1) = >>=-eq-ok (peek_unwrap_some n) _ e in
      let (h, _, e2) = >>=-eq-ok (or_err (head inner) "scan-state: expected cell") _ e1 in
      let (height, _, e3) = >>=-eq-ok (or_err (as_u64 h) "scan-state: height overflows u64") _ e2 in
      let (rest, _, e4) = >>=-eq-ok (or_err (tail inner) "scan-state: tail not a cell") _ e3 in
      let (p, _, e5) = >>=-eq-ok (or_err (uncons rest) "scan-state: tail not a cell") _ e4 in
      let (q, _, e6) = >>=-eq-ok (or_err (uncons p.1) "scan-state: tail2 not a cell") _ e5 in
      let (digest, bytes, e7) = >>=-eq-ok (as_ne_bytes p.0) _ e6 in
      let (root, _, e8) = >>=-eq-ok (as_ne_bytes q.0) _ e7 in
      let (size, _, e9) = >>=-eq-ok (or_err (as_u64 q.1) "scan-state: size overflows u64") _ e8 in
      let same : digest ≡ st.last_proved_digest =
        ap (λ s. s.last_proved_digest) (ok-injective e9) in
      subst (All IsByte) same (as_ne_bytes-IsByte p.0 digest bytes)
