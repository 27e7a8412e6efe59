-- ===== src/Text/Number.antt =====
-- `strconv.Atoi`, `ParseInt` and `ParseUint` in base 10, and `%d`.
use pinus_smart_awg.Common.{
  All, Bool-cases, Option, [], arith, if◌then◌else◌, inl, inr, leb, ltb, lt→ltb, none, refl, some,
  suc, true, zero, ℕ, ◌%◌, ◌*◌, ◌+◌, ◌-◌, ◌/◌, ◌<◌, ◌==◌, ◌^◌, ◌∙◌, ◌∷◌, ◌≡◌, ◌≢◌,
}
use pinus_smart_awg.Text.{Bytes, is_digit}

pub data ℤ : Type 0 where
  pos : ℕ → ℤ
  negsuc : ℕ → ℤ

unfoldable pub parse_digits : ℕ → Bytes → Option ℕ
parse_digits acc [] = some acc
parse_digits acc (c ∷ cs) =
    let rest = parse_digits (acc * 10 + (c - b'0')) cs in if is_digit c then rest else none

abbrev pub below : ℕ → Option ℕ → Option ℕ
below limit none = none
below limit (some n) = if ltb n limit then some n else none

-- `ParseUint(s, 10, bits)`, with `none` for both of its errors
unfoldable pub parse_uint : ℕ → Bytes → Option ℕ
unfolding parse_digits
parse_uint bits [] = none
parse_uint bits (c ∷ cs) = below (2 ^ bits) (parse_digits 0 (c ∷ cs))

abbrev negate : ℕ → ℤ
negate zero = pos 0
negate (suc n) = negsuc n

abbrev pub unsigned : Option ℕ → Option ℤ
unsigned none = none
unsigned (some n) = if ltb n (2 ^ 63) then some (pos n) else none

abbrev negative : Option ℕ → Option ℤ
negative none = none
negative (some n) = if leb n (2 ^ 63) then some (negate n) else none

-- the digits behind the sign, at least one
abbrev magnitude : Bytes → Option ℕ
magnitude [] = none
magnitude (c ∷ cs) = parse_digits 0 (c ∷ cs)

-- `Atoi(s)` with an `int` of 64 bits, and `ParseInt(s, 10, 64)`
unfoldable pub atoi : Bytes → Option ℤ
unfolding parse_digits
atoi [] = none
atoi (c ∷ cs) =
    if c == b'-'
    then negative (magnitude cs)
    else unsigned (magnitude (if c == b'+' then cs else c ∷ cs))

format_digits : ℕ → ℕ → Bytes → Bytes
format_digits zero n acc = acc
format_digits (suc f) n acc =
    let out = (b'0' + n % 10) ∷ acc in
    let rest = format_digits f (n / 10) out in if ltb n 10 then out else rest

-- `%d` of a number that is not negative
unfoldable pub itoa : ℕ → Bytes
unfolding format_digits
itoa n = format_digits (suc n) n []

parse_digits-format_digits :
    (f n : ℕ) (acc : Bytes) → n < f → parse_digits 0 (format_digits f n acc) ≡ parse_digits n acc
unfolding parse_digits format_digits
parse_digits-format_digits zero n acc h = elim h [ ]
parse_digits-format_digits (suc f) n acc h =
    ground (arith, parse_digits-format_digits f (n / 10) ((b'0' + n % 10) ∷ acc))

pub parse_digits-itoa : (n : ℕ) → parse_digits 0 (itoa n) ≡ some n
unfolding itoa parse_digits
parse_digits-itoa n = parse_digits-format_digits (suc n) n [] (omega arith)

abbrev pub Digits : Bytes → Type 0
Digits = All (λ c. is_digit c ≡ true)

format_digits-Digits : (f n : ℕ) (acc : Bytes) → Digits acc → Digits (format_digits f n acc)
unfolding format_digits
format_digits-Digits zero n acc h = h
format_digits-Digits (suc f) n acc h = elim (Bool-cases (ltb n 10)) [
  | inl e ↦ rw e (ground arith, h)
  | inr e ↦ rw e (format_digits-Digits f (n / 10) _ (ground arith, h))
]

pub itoa-Digits : (n : ℕ) → Digits (itoa n)
unfolding itoa
itoa-Digits n = format_digits-Digits (suc n) n [] tt

format_digits-ne-nil : (f n c : ℕ) (acc : Bytes) → format_digits f n (c ∷ acc) ≢ []
unfolding format_digits
format_digits-ne-nil zero n c acc h = cc
format_digits-ne-nil (suc f) n c acc h = elim (Bool-cases (ltb n 10)) [
  | inl e ↦ cc (rw e at h)
  | inr e ↦ format_digits-ne-nil f (n / 10) (b'0' + n % 10) (c ∷ acc) (rw e at h)
]

pub itoa-ne-nil : (n : ℕ) → itoa n ≢ []
unfolding itoa format_digits
itoa-ne-nil n h = elim (Bool-cases (ltb n 10)) [
  | inl e ↦ cc (rw e at h)
  | inr e ↦ format_digits-ne-nil n (n / 10) (b'0' + n % 10) [] (rw e at h)
]

pub parse_uint_lem :
    (bits : ℕ) (s : Bytes) → s ≢ [] → parse_uint bits s ≡ below (2 ^ bits) (parse_digits 0 s)
unfolding parse_uint
parse_uint_lem bits [] h = absurd (h refl)
parse_uint_lem bits (c ∷ cs) h = refl

pub parse_uint-itoa : (bits n : ℕ) → n < 2 ^ bits → parse_uint bits (itoa n) ≡ some n
parse_uint-itoa bits n h =
    parse_uint_lem bits (itoa n) (itoa-ne-nil n) ∙ rw (parse_digits-itoa, lt→ltb n (2 ^ bits) h)

pub parse_uint-lt : (bits : ℕ) (s : Bytes) {n : ℕ} → parse_uint bits s ≡ some n → n < 2 ^ bits
unfolding parse_uint
parse_uint-lt bits [] h = cc
parse_uint-lt bits (c ∷ cs) h = ground arith

pub atoi-Digits : (s : Bytes) → s ≢ [] → Digits s → atoi s ≡ unsigned (parse_digits 0 s)
unfolding atoi
atoi-Digits [] h d = absurd (h refl)
atoi-Digits (c ∷ cs) h d = ground arith

pub atoi-itoa : (n : ℕ) → n < 2 ^ 63 → atoi (itoa n) ≡ some (pos n)
atoi-itoa n h =
    atoi-Digits (itoa n) (itoa-ne-nil n) (itoa-Digits n)
    ∙ rw (parse_digits-itoa, lt→ltb n (2 ^ 63) h)

pub below-eq-some : (limit : ℕ) (o : Option ℕ) {n : ℕ} → below limit o ≡ some n → o ≡ some n
below-eq-some limit none h = h
below-eq-some limit (some m) h = ground arith
