-- ===== src/Smart/Values/Laws.antt =====
-- The values of rules that client/smart/settings.go stores.
-- A domain of a stored rule: not empty, at most 253 bytes, with a dot and no IP address.
use pinus_smart_awg.Common.{
  All, Bool-cases, IfSome, IfSome-if, List, Option, arith, false, if◌then◌else◌, inl, inr, is_empty,
  length, ltb, none, not, refl, some, true, ◌++◌, ◌||◌, ◌∙◌, ◌≡◌, ◌≤◌,
}
use pinus_smart_awg.Smart.{
  CustomRule, RuleKind, rule_application, rule_cidr, rule_domain, rule_unknown,
}
use pinus_smart_awg.Smart.Values.{Normalizers, ascii_host, checked_host, is_found, normalize_domain}
use pinus_smart_awg.Text.{Bytes, codes}
use pinus_smart_awg.Text.Case.{to_lower}
use pinus_smart_awg.Text.Ip.{parse_ip}
use pinus_smart_awg.Text.Search.{contains, trim_prefix, trim_suffix}
use pinus_smart_awg.Text.Trim.{trim_space}

pub record IsStoredDomain (v : Bytes) : Type 0 where
  pub not_empty : is_empty v ≡ false
  pub short : length v ≤ 253
  pub with_dot : contains v (codes ".") ≡ true
  pub no_address : parse_ip v ≡ none

abbrev pub IsStoredRule : RuleKind → Bytes → Type 0
IsStoredRule rule_application v = Unit {0}
IsStoredRule rule_domain v = IsStoredDomain v
IsStoredRule rule_cidr v = Unit {0}
IsStoredRule (rule_unknown k) v = ⊥

abbrev pub AreStoredRules : List CustomRule → Type 0
AreStoredRules = All (λ r. IsStoredRule r.kind r.value)

checked_host-IsStored : (o : Option Bytes) → IfSome IsStoredDomain (checked_host o)
checked_host-IsStored none = tt
checked_host-IsStored (some h) = go (parse_ip h) refl
  where
    go :
        (o : Option Bytes)
        → parse_ip h ≡ o
        → IfSome IsStoredDomain (
            if is_empty h || (ltb 253 (length h) || (not (contains h (codes ".")) || is_found o))
            then none
            else some h)
    go o k =
        elim (Bool-cases
          (is_empty h || (ltb 253 (length h) || (not (contains h (codes ".")) || is_found o)))) [
            | inl e ↦ rw e tt
            | inr e ↦ rw e record {
              not_empty = ground (arith, e);
              short = ground (arith, e);
              with_dot = ground (arith, e);
              no_address = k ∙ ground (arith, e);
            }
          ]

ascii_host-IsStored : (n : Normalizers) (o : Option Bytes) → IfSome IsStoredDomain (ascii_host n o)
ascii_host-IsStored n none = tt
ascii_host-IsStored n (some h) = IfSome-if IsStoredDomain (is_empty h) none _ tt (
    checked_host-IsStored
      (n.to_ascii (trim_prefix (trim_suffix (to_lower n.lower h) (codes ".")) (codes "*."))))

pub normalize_domain-IsStored :
    (n : Normalizers) (v : Bytes) → IfSome IsStoredDomain (normalize_domain n v)
unfolding normalize_domain
normalize_domain-IsStored n v =
    let t = trim_prefix (trim_space v) (codes "*.") in
    IfSome-if IsStoredDomain (is_empty t) none _ tt
      (ascii_host-IsStored n (n.hostname (if contains t (codes "://") then t else codes "//" ++ t)))
