-- ===== src/Conf/Validation/Headers.antt =====
-- The four magic headers in `ValidateAWG` of core/conf/awg_validation.go.

use pinus_smart_awg.Common.{
  All, All-append, All-middle, Bool-cases, List, [], append-nil, append_assoc, arith, bind-eq-ok,
  false, inl, inr, map_err, map_err-eq-ok, ok, refl, ℕ, ◌++◌, ◌+◌, ◌<◌, ◌↔◌, ◌∷◌, ◌≡◌, ◌⊎◌,
}
use pinus_smart_awg.Conf.Range.{parse_awg_range}
use pinus_smart_awg.Conf.Range.Laws.{IsRange, parse_awg_range_iff}
use pinus_smart_awg.Conf.Validation.{
  bad_header, check_headers, check_overlap, header_text, overlaps,
}
use pinus_smart_awg.Text.{Bytes}

-- Two ranges that share no value.
abbrev pub Disjoint : ℕ × ℕ → ℕ × ℕ → Type 0
Disjoint r s = (r.1 < s.0) ⊎ (s.1 < r.0)

-- Every range of the list is apart from the later ones.
abbrev pub AllDisjoint : List (ℕ × ℕ) → Type 0
AllDisjoint [] = Unit
AllDisjoint (r ∷ rs) = All (Disjoint r) rs × AllDisjoint rs

-- The headers from number `n` on and the ranges that they write.
pub data AreHeaders : ℕ → List Bytes → List (ℕ × ℕ) → Type 0 where
  none_left : {n : ℕ} → AreHeaders n [] []
  header :
      {n : ℕ} {h : Bytes} {hs : List Bytes} {lo hi : ℕ} {rs : List (ℕ × ℕ)}
      → IsRange 32 (header_text n h) lo hi
      → AreHeaders (n + 1) hs rs
      → AreHeaders n (h ∷ hs) ((lo, hi) ∷ rs)

check_overlap_iff :
    (k n : ℕ) (seen : List (ℕ × ℕ)) (r : ℕ × ℕ)
    → (check_overlap k n seen r ≡ ok tt) ↔ All (λ prev. Disjoint prev r) seen
unfolding check_overlap
check_overlap_iff k n [] r = (λ _. tt, λ _. refl)
check_overlap_iff k n (prev ∷ rest) r =
    let ih = check_overlap_iff (k + 1) n rest r in
    (
      λ h. elim (Bool-cases (overlaps prev r)) [
        | inl e ↦ cc (rw e at h)
        | inr e ↦ (ground arith, ih.0 (rw e at h))
      ],
      λ d. let apart : overlaps prev r ≡ false = ground (arith, d.0) in rw apart (ih.1 d.1),
    )

AllDisjoint-concat :
    (seen : List (ℕ × ℕ)) (r : ℕ × ℕ) (rs : List (ℕ × ℕ))
    → AllDisjoint (seen ++ r ∷ rs)
    → All (λ prev. Disjoint prev r) seen
AllDisjoint-concat [] r rs h = tt
AllDisjoint-concat (s ∷ seen) r rs h =
    (All-middle (Disjoint s) seen r rs h.0, AllDisjoint-concat seen r rs h.1)

AllDisjoint-snoc :
    (seen : List (ℕ × ℕ)) (r : ℕ × ℕ)
    → AllDisjoint seen
    → All (λ prev. Disjoint prev r) seen
    → AllDisjoint (seen ++ r ∷ [])
AllDisjoint-snoc [] r d h = (tt, tt)
AllDisjoint-snoc (s ∷ seen) r d h =
    (All-append (Disjoint s) seen (r ∷ []) d.0 (h.0, tt), AllDisjoint-snoc seen r d.1 h.1)

-- `seen` holds the ranges of the headers before number `n`.
check_headers-AreHeaders :
    (n : ℕ) (seen : List (ℕ × ℕ)) (hs : List Bytes)
    → AllDisjoint seen
    → check_headers n seen hs ≡ ok tt
    → (rs : List (ℕ × ℕ)) × AreHeaders n hs rs × AllDisjoint (seen ++ rs)
unfolding check_headers
check_headers-AreHeaders n seen [] d h = ([], none_left, rw append-nil d)
check_headers-AreHeaders n seen (h ∷ hs) d e =
    let ((lo, hi), p, f) =
      bind-eq-ok (map_err (bad_header n) (parse_awg_range (header_text n h) 32)) _ e in
    let (_, g, k) = bind-eq-ok (check_overlap 1 n seen (lo, hi)) _ f in
    let apart = (check_overlap_iff 1 n seen (lo, hi)).0 g in
    let (rs, a, b) =
      check_headers-AreHeaders (n + 1) (seen ++ (lo, hi) ∷ []) hs
        (AllDisjoint-snoc seen (lo, hi) d apart) k in
    (
      (lo, hi) ∷ rs,
      header ((parse_awg_range_iff _ 32 lo hi).0 (map_err-eq-ok (bad_header n) _ p)) a,
      rw append_assoc at b,
    )

AreHeaders-check_headers :
    (seen : List (ℕ × ℕ)) {n : ℕ} {hs : List Bytes} {rs : List (ℕ × ℕ)}
    → AreHeaders n hs rs
    → AllDisjoint (seen ++ rs)
    → check_headers n seen hs ≡ ok tt
unfolding check_headers
AreHeaders-check_headers seen none_left d = refl
AreHeaders-check_headers seen {n} (header {h = h} {lo = lo} {hi = hi} {rs = rs} r a) d =
    let apart = (check_overlap_iff 1 n seen (lo, hi)).1 (AllDisjoint-concat seen (lo, hi) rs d) in
    let later = AreHeaders-check_headers (seen ++ (lo, hi) ∷ []) a (rw append_assoc d) in
    rw ((parse_awg_range_iff (header_text n h) 32 lo hi).1 r, apart) later

-- The check of the headers passes exactly if they write ranges of 32 bits, an unset one standing
-- for its number, and no two of these share a value.
pub check_headers_iff :
    (hs : List Bytes)
    → (check_headers 1 [] hs ≡ ok tt) ↔ ((rs : List (ℕ × ℕ)) × AreHeaders 1 hs rs × AllDisjoint rs)
check_headers_iff hs =
    (check_headers-AreHeaders 1 [] hs tt, λ p. AreHeaders-check_headers [] p.1 p.2)
