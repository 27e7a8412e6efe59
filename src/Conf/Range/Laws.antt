-- ===== src/Conf/Range/Laws.antt =====
-- `ParseAWGRange` of core/conf/awg_validation.go, against the grammar of its ranges.

use pinus_smart_awg.Common.{
  All-all, All-weaken, Bool-cases, List, [], all, all-All, ap, arith, bind-eq-ok, inl, inr, lt→ltb,
  of_option-eq-ok, ok, refl, some, subst, sym, ℕ, ◌++◌, ◌<◌, ◌^◌, ◌↔◌, ◌∙◌, ◌∷◌, ◌≡◌, ◌≢◌, ◌≤◌,
}
use pinus_smart_awg.Conf.Range.{parse_awg_range, range_bound, range_parts, too_large}
use pinus_smart_awg.Text.{Bytes, is_digit}
use pinus_smart_awg.Text.Number.{
  Digits, below-eq-some, parse_digits, parse_uint, parse_uint-lt, parse_uint_lem,
}
use pinus_smart_awg.Text.Search.{Free, join, join-split, split, split-Free, split-append}

-- `p` writes `n` in decimal digits, and `n` has `bits` bits.
pub record IsBound (bits : ℕ) (p : Bytes) (n : ℕ) : Type 0 where
  pub not_empty : p ≢ []
  pub digits : Digits p
  pub value : parse_digits 0 p ≡ some n
  pub fits : n < 2 ^ bits

-- The grammar of a range, with its ends.
pub data IsRange (bits : ℕ) : Bytes → ℕ → ℕ → Type 0 where
  single : {p : Bytes} {n : ℕ} → IsBound bits p n → IsRange bits p n n
  pair :
      {s : Bytes} {lo hi : ℕ} (p q : Bytes)
      → s ≡ p ++ b'-' ∷ q
      → IsBound bits p lo
      → IsBound bits q hi
      → lo ≤ hi
      → IsRange bits s lo hi

range_bound-IsBound : (bits : ℕ) (p : Bytes) {n : ℕ} → range_bound bits p ≡ ok n → IsBound bits p n
unfolding range_bound
range_bound-IsBound bits [] h = cc
range_bound-IsBound bits (c ∷ cs) {n} h = elim (Bool-cases (all is_digit (c ∷ cs))) [
  | inl e ↦
      let parsed : parse_uint bits (c ∷ cs) ≡ some n = of_option-eq-ok too_large _ (rw e at h) in
      record {
        not_empty = λ k. cc;
        digits = all-All is_digit (c ∷ cs) e;
        value =
            below-eq-some (2 ^ bits) (parse_digits 0 (c ∷ cs))
              (sym (parse_uint_lem bits (c ∷ cs) (λ k. cc)) ∙ parsed);
        fits = parse_uint-lt bits (c ∷ cs) parsed;
      }
  | inr e ↦ cc (rw e at h)
]

IsBound-range_bound : (bits : ℕ) (p : Bytes) {n : ℕ} → IsBound bits p n → range_bound bits p ≡ ok n
unfolding range_bound
IsBound-range_bound bits [] b = absurd (b.not_empty refl)
IsBound-range_bound bits (c ∷ cs) {n} b = rw (
  All-all is_digit (c ∷ cs) b.digits,
  parse_uint_lem bits (c ∷ cs) b.not_empty,
  b.value,
  lt→ltb n (2 ^ bits) b.fits,
)

range_parts-IsRange :
    (bits : ℕ) (ps : List Bytes) {lo hi : ℕ}
    → range_parts bits ps ≡ ok (lo, hi)
    → IsRange bits (join (b'-' ∷ []) ps) lo hi
unfolding range_parts join
range_parts-IsRange bits [] h = cc
range_parts-IsRange bits (p ∷ []) {lo} {hi} h =
    let (a, e, f) = bind-eq-ok (range_bound bits p) _ h in
    subst (λ x. IsRange bits p x hi) (cc f)
      (subst (IsRange bits p a) (cc f) (single (range_bound-IsBound bits p e)))
range_parts-IsRange bits (p ∷ q ∷ []) {lo} {hi} h =
    let (a, e, f) = bind-eq-ok (range_bound bits p) _ h in
    let (b, e', g) = bind-eq-ok (range_bound bits q) _ f in
    let ends : (a ≡ lo) × (b ≡ hi) × (a ≤ b) = (ground arith, ground arith, ground arith) in
    pair p q refl (range_bound-IsBound bits p (e ∙ ap ok ends.0))
      (range_bound-IsBound bits q (e' ∙ ap ok ends.1)) (omega arith)
range_parts-IsRange bits (p ∷ q ∷ r ∷ ps) h = cc

pub Digits-Free : (p : Bytes) → Digits p → Free b'-' p
Digits-Free p = All-weaken (λ c h. ground arith) p

-- A range is accepted exactly if it is a decimal number or two of them joined by a dash, in
-- order and each below 2 to the power `bits`; the ends returned are their values.
pub parse_awg_range_iff :
    (value : Bytes) (bits lo hi : ℕ)
    → (parse_awg_range value bits ≡ ok (lo, hi)) ↔ IsRange bits value lo hi
unfolding parse_awg_range
parse_awg_range_iff value bits lo hi = (sound, complete value lo hi)
  where
    sound : range_parts bits (split b'-' value) ≡ ok (lo, hi) → IsRange bits value lo hi
    sound h =
        subst (λ s. IsRange bits s lo hi) (join-split b'-' value)
          (range_parts-IsRange bits (split b'-' value) h)

    complete :
        (s : Bytes) (a b : ℕ) → IsRange bits s a b → range_parts bits (split b'-' s) ≡ ok (a, b)
    complete s a b (single h) =
        rw (split-Free b'-' s (Digits-Free s h.digits))
          (unfold range_parts in rw (IsBound-range_bound bits s h))
    complete s a b (pair p q e h k le) =
        rw
          (
            e,
            split-append b'-' p q (Digits-Free p h.digits),
            split-Free b'-' q (Digits-Free q k.digits),
          )
          (unfold range_parts in
            rw (IsBound-range_bound bits p h, IsBound-range_bound bits q k) (ground arith))

-- Both ends of an accepted range fit the width, in order.
pub parse_awg_range_bounds :
    (value : Bytes) (bits : ℕ) {lo hi : ℕ}
    → parse_awg_range value bits ≡ ok (lo, hi)
    → (lo ≤ hi) × (hi < 2 ^ bits)
parse_awg_range_bounds value bits {lo} {hi} h = go ((parse_awg_range_iff value bits lo hi).0 h)
  where
    go : {s : Bytes} {a b : ℕ} → IsRange bits s a b → (a ≤ b) × (b < 2 ^ bits)
    go (single b) = (omega arith, b.fits)
    go (pair p q e b c le) = (le, c.fits)
