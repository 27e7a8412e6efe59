-- ===== src/Smart/Explain/Engine.antt =====
-- How the routing engine reads the rules that client/smart/smart.go writes: the first rule that
-- matches and ends the search decides. The engine is another program; what its matchers do
-- on a connection is a hypothesis, from its documentation.
-- The outcome of the first rule that ends the search; `none` is a connection that is refused.
use pinus_smart_awg.Common.{
  All, Bool, List, Option, [], any, any-cons, ap, false, if◌then◌else◌, is_empty, none, not, refl,
  reverse, reverse-append, some, sym, true, ℕ, ◌&&◌, ◌++◌, ◌||◌, ◌∙◌, ◌∷◌, ◌≡◌,
}
use pinus_smart_awg.Smart.{
  CustomRule, RouteTarget, RuleKind, Service, rule_application, rule_cidr, rule_domain,
  rule_unknown,
}
use pinus_smart_awg.Smart.Explain.{Explanation, Query, match, match_if, plain_rule}
use pinus_smart_awg.Smart.Rules.{
  Matcher, Outbound, RouteRule, dns_protocol, domain, dotted, hijack_dns, ip_cidr, outbound_of,
  process_name, process_path, reject, root_of, route, sniff,
}
use pinus_smart_awg.Text.{Bytes, equal}
use pinus_smart_awg.Text.Search.{has_prefix, has_suffix}

unfoldable pub first_match : (Matcher → Bool) → Outbound → List RouteRule → Option Outbound
first_match m final [] = some final
first_match m final (r ∷ rs) =
    let rest = first_match m final rs in
    elim r.action [
      | sniff ↦ rest
      | hijack_dns ↦ if m r.matcher then none else rest
      | reject ↦ if m r.matcher then none else rest
      | route out ↦ if m r.matcher then some out else rest
    ]

-- What a matcher answers if it knows the process as the query does: one of its names, paths, domains, suffixes
-- or networks, or its version of IP; a connection is not a DNS query.
pub record Answers (q : Query) (m : Matcher → Bool) : Type 0 where
  pub not_dns : m dns_protocol ≡ false
  pub by_name : (ns : List Bytes) → m (process_name ns) ≡ any q.has_name ns
  pub by_path : (ps : List Bytes) → m (process_path ps) ≡ any q.has_path ps
  pub by_domain :
      (ds ss : List Bytes)
      → m (domain ds ss) ≡ (any (equal q.domain) ds || any (has_suffix q.domain) ss)
  pub by_cidr : (cs : List Bytes) → m (ip_cidr cs) ≡ any q.is_in cs

-- A query without an application: no name and no path of a rule is the query's.
pub record NoApplication (q : Query) : Type 0 where
  pub unnamed : (n : Bytes) → q.has_name n ≡ false
  pub without_path : (p : Bytes) → q.has_path p ≡ false

-- What a matcher answers on the connection of such a query, whose process is not known: nothing
-- about processes, one of its domains, suffixes or networks; it is not a DNS query.
pub record AnswersPlace (q : Query) (m : Matcher → Bool) : Type 0 where
  pub not_dns : m dns_protocol ≡ false
  pub no_name : (ns : List Bytes) → m (process_name ns) ≡ false
  pub no_path : (ps : List Bytes) → m (process_path ps) ≡ false
  pub by_domain :
      (ds ss : List Bytes)
      → m (domain ds ss) ≡ (any (equal q.domain) ds || any (has_suffix q.domain) ss)
  pub by_cidr : (cs : List Bytes) → m (ip_cidr cs) ≡ any q.is_in cs

any-none : (p : Bytes → Bool) → ((x : Bytes) → p x ≡ false) → (xs : List Bytes) → any p xs ≡ false
any-none p h [] = refl
any-none p h (x ∷ xs) = rw (any-cons, h x, any-none p h xs) refl

pub AnswersPlace-Answers :
    (q : Query) (m : Matcher → Bool) → NoApplication q → AnswersPlace q m → Answers q m
AnswersPlace-Answers q m n a = record {
  not_dns = a.not_dns;
  by_name = λ ns. a.no_name ns ∙ sym (any-none q.has_name n.unnamed ns);
  by_path = λ ps. a.no_path ps ∙ sym (any-none q.has_path n.without_path ps);
  by_domain = a.by_domain;
  by_cidr = a.by_cidr;
}

-- A value of a domain rule in lower case, not empty, without a dot at its ends. `normalizeDomain`
-- keeps a dot in front, and one of two behind, so that not every stored rule is plain.
pub record IsPlainDomain (lower : ℕ → ℕ) (v : Bytes) : Type 0 where
  pub plain : plain_rule lower v ≡ v
  pub not_empty : is_empty v ≡ false

-- A suffix of a catalog: a dot and a plain domain.
pub record IsSuffix (lower : ℕ → ℕ) (s : Bytes) : Type 0 where
  pub plain : plain_rule lower s ≡ root_of s
  pub with_dot : s ≡ dotted (root_of s)
  pub not_empty : is_empty (root_of s) ≡ false

-- a kind that `normalized` lets through, with a plain domain in a domain rule
abbrev pub IsKnownRule : (ℕ → ℕ) → RuleKind → Bytes → Type 0
IsKnownRule lower rule_application v = Unit {0}
IsKnownRule lower rule_domain v = IsPlainDomain lower v
IsKnownRule lower rule_cidr v = Unit {0}
IsKnownRule lower (rule_unknown k) v = ⊥

abbrev pub AreKnownRules : (ℕ → ℕ) → List CustomRule → Type 0
AreKnownRules lower rs = All (λ r. IsKnownRule lower r.kind r.value) rs

abbrev pub IsCatalog : (ℕ → ℕ) → List Service → Type 0
IsCatalog lower xs = All (λ x. All (IsSuffix lower) x.domain_suffixes) xs

-- The route of an explanation, or the route `o` where no rule matched.
abbrev pub decided : Explanation → Option Outbound → Option Outbound
decided e o = if is_empty e.matched_rules then o else some (outbound_of e.target)

pub decided-match_if :
    (b : Bool) (t : RouteTarget) (label : Bytes) (e : Explanation) (o : Option Outbound)
    → decided (match_if b t label e) o ≡ decided e (if b then some (outbound_of t) else o)
decided-match_if false t label e o = refl
decided-match_if true t label e o = go e.target e.rule e.matched_rules
  where
    go :
        (u : RouteTarget) (r : Bytes) (ms : List Bytes)
        → decided (match t label (record { target = u; rule = r; matched_rules = ms })) o
          ≡ decided (record { target = u; rule = r; matched_rules = ms }) (some (outbound_of t))
    go u r [] = refl
    go u r (x ∷ xs) = refl

has_suffix-nil : (c : ℕ) (v : Bytes) → has_suffix [] (c ∷ v) ≡ false
unfolding has_suffix has_prefix
has_suffix-nil c v = ap (has_prefix []) (reverse-append (c ∷ []) v) ∙ go (reverse v)
  where
    go : (ys : Bytes) → has_prefix [] (ys ++ c ∷ []) ≡ false
    go [] = refl
    go (y ∷ ys) = refl

-- The engine does not ask whether there is a domain: a plain one is not matched without.
pub no_domain :
    (d v : Bytes)
    → is_empty v ≡ false
    → (equal d v || has_suffix d (dotted v))
      ≡ (not (is_empty d) && (equal d v || has_suffix d (dotted v)))
unfolding equal
no_domain [] [] h = cc
no_domain [] (c ∷ v) h = rw (has_suffix-nil b'.' (c ∷ v)) refl
no_domain (c ∷ d) v h = refl
