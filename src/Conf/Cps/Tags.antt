-- ===== src/Conf/Cps/Tags.antt =====
-- The tags of `ValidateCPS` of core/conf/awg_validation.go that have an argument.
use pinus_smart_awg.Common.{
  ==_iff, Bool, Bool-cases, Option, Option-cases, Result, [], ap, arith, err, false, if◌then◌else◌,
  inl, inr, is_empty, length, none, not, ok, ok-injective, refl, some, subst, sym, true, ℕ, ◌%◌,
  ◌*◌, ◌++◌, ◌<◌, ◌==◌, ◌||◌, ◌∙◌, ◌∷◌, ◌≡◌,
}
use pinus_smart_awg.Conf.Cps.{CpsTag, bad_length, filler, filler_tag, raw, raw_tag}
use pinus_smart_awg.Conf.Cps.Grammar.{Means, hex_given}
use pinus_smart_awg.Conf.Range.{RangeError, parse_awg_range}
use pinus_smart_awg.Conf.Range.Laws.{
  Digits-Free, IsBound, IsRange, pair, parse_awg_range_iff, single,
}
use pinus_smart_awg.Text.{Bytes, codes}
use pinus_smart_awg.Text.Hex.{from_hex, hex_byte, hex_value}
use pinus_smart_awg.Text.Search.{contains_byte, contains_byte-Free, trim_prefix}

length-from_hex : (s : Bytes) {bs : Bytes} → from_hex s ≡ some bs → length s ≡ 2 * length bs
unfolding from_hex
length-from_hex [] h = ground arith
length-from_hex (c ∷ []) h = cc
length-from_hex (c ∷ d ∷ s) {bs} h =
    go (hex_value c) (hex_value d) (from_hex s) (λ r. length-from_hex s {bs = r}) h
  where
    go :
        (x y : Option ℕ) (o : Option Bytes)
        → ((r : Bytes) → o ≡ some r → length s ≡ 2 * length r)
        → hex_byte x y o ≡ some bs
        → length (c ∷ d ∷ s) ≡ 2 * length bs
    go (some x) (some y) (some r) k e = ground (arith, k r refl)
    go (some x) (some y) none k e = cc e
    go (some x) none o k e = cc e
    go none y o k e = cc e

neither : (a b : Bool) → (a || b) ≡ false → (a ≡ false) × (b ≡ false)
neither a b h = ground arith

full_length : (s : Bytes) → is_empty s ≡ false → 0 < length s
full_length [] h = cc h
full_length (c ∷ s) h = omega arith

positive : (n : ℕ) → 0 < 2 * n → 0 < n
positive n h = omega (arith, h)

no_bytes : (s : Bytes) → 0 < length s → is_empty s ≡ false
no_bytes [] h = absurd (omega (arith, h))
no_bytes (c ∷ s) h = refl

even : (m n : ℕ) → m ≡ 2 * n → (m % 2 == 0) ≡ true
even m n h = (==_iff (m % 2) 0).1 (omega (arith, h))

same_number : (a : ℕ) → (a == a) ≡ true
same_number a = (==_iff a a).1 refl

contains_byte-append : (c : ℕ) (a b : Bytes) → contains_byte c (a ++ c ∷ b) ≡ true
unfolding contains_byte
contains_byte-append c [] b = rw (contains_byte, same_number c) refl
contains_byte-append c (x ∷ a) b = elim (Bool-cases (x == c)) [
  | inl e ↦ rw (contains_byte, e) refl
  | inr e ↦ rw (contains_byte, e) (contains_byte-append c a b)
]

-- a range without a dash is one number
one_number :
    (arg : Bytes) {lo hi : ℕ}
    → IsRange 16 arg lo hi
    → contains_byte b'-' arg ≡ false
    → IsBound 16 arg lo
one_number arg (single b) h = b
one_number arg (pair p q e b c le) h = cc (rw (e, contains_byte-append b'-' p q) at h)

pub raw_tag_sound : (arg : Bytes) {t : CpsTag} → raw_tag arg ≡ ok t → Means (codes "b") arg t
unfolding raw_tag
raw_tag_sound arg {t} h =
    let text = trim_prefix arg (codes "0x") in
    elim (Bool-cases (is_empty text || not (length text % 2 == 0))) [
      | inl e ↦ cc (rw e at h)
      | inr e ↦ elim (Option-cases (from_hex text)) [
        | inl f ↦ cc (rw (e, f) at h)
        | inr (bs, f) ↦
            let size = length-from_hex text f in
            let full : 0 < length bs =
              positive (length bs)
                (omega (arith, size, full_length text (neither (is_empty text) _ e).0)) in
            subst (Means (codes "b") arg)
              (ap raw (omega (arith, size)) ∙ ok-injective (rw (e, f) at h)) (hex_given f full)
      ]
    ]

pub raw_tag_complete :
    (arg : Bytes) {bs : Bytes}
    → from_hex (trim_prefix arg (codes "0x")) ≡ some bs
    → 0 < length bs
    → raw_tag arg ≡ ok (raw (length bs))
unfolding raw_tag
raw_tag_complete arg {bs} h k =
    let size = length-from_hex (trim_prefix arg (codes "0x")) h in
    rw
      (
        no_bytes (trim_prefix arg (codes "0x")) (omega (arith, size, k)),
        even (length (trim_prefix arg (codes "0x"))) (length bs) size,
        h,
      )
      (ap (λ n. ok (raw n)) (omega (arith, size)))

pub filler_tag_sound :
    (arg : Bytes) {t : CpsTag} → filler_tag arg ≡ ok t → (n : ℕ) × IsBound 16 arg n × (t ≡ filler n)
unfolding filler_tag
filler_tag_sound arg {t} h = go (parse_awg_range arg 16) refl h
  where
    go :
        (r : Result RangeError (ℕ × ℕ))
        → parse_awg_range arg 16 ≡ r
        → (elim r [
          | ok (low, high) ↦
              if not (low == high) || contains_byte b'-' arg
              then err bad_length
              else ok (filler low)
          | err e ↦ err bad_length
        ])
          ≡ ok t
        → (n : ℕ) × IsBound 16 arg n × (t ≡ filler n)
    go (err e) k l = cc l
    go (ok (low, high)) k l = elim (Bool-cases (not (low == high) || contains_byte b'-' arg)) [
      | inl e ↦ cc (rw e at l)
      | inr e ↦
          let (same, free) = neither (not (low == high)) _ e in
          (
            low,
            one_number arg ((parse_awg_range_iff arg 16 low high).0 k) free,
            sym (ok-injective (rw e at l)),
          )
    ]

pub filler_tag_complete : (arg : Bytes) {n : ℕ} → IsBound 16 arg n → filler_tag arg ≡ ok (filler n)
unfolding filler_tag
filler_tag_complete arg {n} b =
    rw
      (
        filler_tag,
        (parse_awg_range_iff arg 16 n n).1 (single b),
        same_number n,
        contains_byte-Free b'-' arg (Digits-Free arg b.digits),
      )
      refl
