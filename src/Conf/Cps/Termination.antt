-- ===== src/Conf/Cps/Termination.antt =====
-- The loop of `ValidateCPS` of core/conf/awg_validation.go ends on every text.
use pinus_smart_awg.Common.{
  Bool, Bool-cases, List, Option, Result, [], arith, err, false, inl, inr, length, ltb, none,
  of_option, ok, refl, some, suc, true, zero, ℕ, ◌==◌, ◌>>=◌, ◌∷◌, ◌≡◌, ◌≤◌,
}
use pinus_smart_awg.Conf.Cps.{
  Counters, CpsError, CpsTag, account, cps_loop, filler, filler_tag, max_spec, next_tag, no_tags,
  out_of_fuel, payload, raw, raw_tag, read_parts, read_tag, stamp, unclosed_tag, validate_cps,
}
use pinus_smart_awg.Conf.Cps.Laws.{next_tag-shorter}
use pinus_smart_awg.Text.{Bytes}
use pinus_smart_awg.Text.Search.{cut}
use pinus_smart_awg.Text.Trim.{fields, length-trim_space, trim_space}

-- the error of the loop whose fuel is used up, which the code does not have
abbrev pub runs_out {ℓ} : {A : Type ℓ} → Result CpsError A → Bool
runs_out (err out_of_fuel) = true
runs_out _ = false

runs_out-bind {ℓ κ} :
    {A : Type ℓ} {B : Type κ} (r : Result CpsError A) (f : A → Result CpsError B)
    → runs_out r ≡ false
    → ((a : A) → r ≡ ok a → runs_out (f a) ≡ false)
    → runs_out (r >>= f) ≡ false
runs_out-bind (ok a) f h k = k a refl
runs_out-bind (err out_of_fuel) f h k = h
runs_out-bind (err _) f h k = refl

filler_tag-ends : (arg : Bytes) → runs_out (filler_tag arg) ≡ false
unfolding filler_tag
filler_tag-ends arg = ground arith

raw_tag-ends : (arg : Bytes) → runs_out (raw_tag arg) ≡ false
unfolding raw_tag
raw_tag-ends arg = ground arith

read_tag-ends : (tag arg : Bytes) → runs_out (read_tag tag arg) ≡ false
unfolding read_tag
read_tag-ends tag arg = ground (arith, filler_tag-ends arg, raw_tag-ends arg)

read_parts-ends : (parts : List Bytes) → runs_out (read_parts parts) ≡ false
unfolding read_parts
read_parts-ends [] = refl
read_parts-ends (tag ∷ []) = read_tag-ends tag []
read_parts-ends (tag ∷ arg ∷ []) = read_tag-ends tag arg
read_parts-ends (tag ∷ arg ∷ _ ∷ _) = refl

of_option-ends {ℓ} : {A : Type ℓ} (o : Option A) → runs_out (of_option unclosed_tag o) ≡ false
of_option-ends (some a) = refl
of_option-ends none = refl

next_tag-ends : (s : Bytes) → runs_out (next_tag s) ≡ false
unfolding next_tag
next_tag-ends [] = refl
next_tag-ends (c ∷ cs) = elim (Bool-cases (c == b'<')) [
  | inr e ↦ rw e refl
  | inl e ↦ rw e (
      runs_out-bind (of_option unclosed_tag (cut b'>' cs)) _ (of_option-ends (cut b'>' cs)) (λ p e.
        runs_out-bind (read_parts (fields p.0)) _ (read_parts-ends (fields p.0)) (λ tag f. refl)))
]

account-ends : (s : Counters) (tag : CpsTag) → runs_out (account s tag) ≡ false
unfolding account
account-ends s (filler n) = ground arith
account-ends s (raw n) = ground arith
account-ends s stamp = ground arith
account-ends s payload = ground arith

cps_loop-ends :
    (fuel : ℕ) (s : Counters) (text : Bytes)
    → length text ≤ fuel
    → runs_out (cps_loop fuel s text) ≡ false
unfolding cps_loop
cps_loop-ends fuel s [] h = ground arith
cps_loop-ends zero s (c ∷ cs) h = absurd (omega arith)
cps_loop-ends (suc fuel) s (c ∷ cs) h =
    runs_out-bind (next_tag (c ∷ cs)) _ (next_tag-ends (c ∷ cs)) (λ p e.
      runs_out-bind (account s p.0) _ (account-ends s p.0) (λ t f.
        cps_loop-ends fuel t p.1
          (omega (arith, h, next_tag-shorter (c ∷ cs) {tag = p.0} {rest = p.1} e))))

-- The check of a description ends on every text: the loop over its tags, which is given the length
-- of the text as the bound of its rounds, never uses that bound up, so that every error is one of
-- the code's.
pub validate_cps-ends : (spec : Bytes) → runs_out (validate_cps spec) ≡ false
unfolding validate_cps
validate_cps-ends spec = elim (Bool-cases (ltb max_spec (length spec))) [
  | inl e ↦ rw e refl
  | inr e ↦ rw e (
      runs_out-bind (cps_loop (length spec) no_tags (trim_space spec)) _
        (cps_loop-ends (length spec) no_tags (trim_space spec) (length-trim_space spec))
        (λ t e. refl))
]
