-- ===== src/Smart/Explain/Segments.antt =====
-- The user's rules and the regional services: what the engine does with their rules, against what
-- the explanation says.
use pinus_smart_awg.Common.{
  All, Bool, Bool-cases, List, [], any, any-append, any-cons, ap, append_assoc, arith, false, if_or,
  if◌then◌else◌, inl, inr, is_empty, map, not, or_assoc, or_swap, refl, some, sym, true, ℕ, ◌&&◌,
  ◌++◌, ◌||◌, ◌∙◌, ◌∷◌, ◌≡◌,
}
use pinus_smart_awg.Smart.{
  CustomRule, RoutingSettings, RuleKind, Service, rule_application, rule_cidr, rule_domain,
  rule_unknown,
}
use pinus_smart_awg.Smart.Explain.{
  Explanation, Query, custom_matches, domain_matches, explain_custom, explain_regional, match_if,
  service_matches, vpn_or_direct,
}
use pinus_smart_awg.Smart.Explain.Engine.{
  Answers, AreKnownRules, IsCatalog, IsKnownRule, IsSuffix, decided, decided-match_if, first_match,
  no_domain,
}
use pinus_smart_awg.Smart.Regional.{service_uses_vpn}
use pinus_smart_awg.Smart.Rules.{
  Matcher, Outbound, RouteRule, awg_out, custom_matcher, custom_rules_of, direct, domain, is_path,
  outbound_of, process_name, regional_rule_objects, regional_rules_of, root_of, route,
  service_outbound,
}
use pinus_smart_awg.Text.{Bytes, equal}
use pinus_smart_awg.Text.Search.{has_suffix}

module _ (lower : ℕ → ℕ) (q : Query) (m : Matcher → Bool) (final : Outbound)
    (answers : Answers q m) where
  custom_matcher-matches :
      (kind : RuleKind) (v : Bytes)
      → IsKnownRule lower kind v
      → m (custom_matcher kind v) ≡ custom_matches lower q kind v
  unfolding domain_matches
  custom_matcher-matches rule_application v k = elim (Bool-cases (is_path v)) [
    | inl e ↦ rw (e, answers.by_path) (ground arith)
    | inr e ↦ rw (e, answers.by_name) (ground arith)
  ]
  custom_matcher-matches rule_domain v k =
      rw (answers.by_domain, k.plain, sym (no_domain q.domain v k.not_empty)) (ground arith)
  custom_matcher-matches rule_cidr v k = rw answers.by_cidr (ground arith)
  custom_matcher-matches (rule_unknown u) v k = absurd k

  pub explain_custom-follows :
      (rs : List CustomRule) (rest : List RouteRule) (e : Explanation)
      → AreKnownRules lower rs
      → decided e (first_match m final (custom_rules_of rs ++ rest))
        ≡ decided (explain_custom lower q rs e) (first_match m final rest)
  unfolding custom_rules_of explain_custom first_match
  explain_custom-follows [] rest e k = refl
  explain_custom-follows (r ∷ rs) rest e k =
      let b = custom_matches lower q r.kind r.value in
      elim (Bool-cases r.enabled) [
        | inl on ↦
            rw (on, custom_matcher-matches r.kind r.value k.0)
              (sym (decided-match_if b r.target r.name e _)
                ∙ explain_custom-follows rs rest (match_if b r.target r.name e) k.1)
        | inr off ↦ rw off (explain_custom-follows rs rest e k.1)
      ]

  suffix-matches :
      (s : Bytes)
      → IsSuffix lower s
      → (equal q.domain (root_of s) || has_suffix q.domain s)
        ≡ (not (is_empty q.domain) && domain_matches lower q.domain s)
  unfolding domain_matches
  suffix-matches s k =
      ap (λ t. equal q.domain (root_of s) || has_suffix q.domain t) k.with_dot
      ∙ rw k.plain (no_domain q.domain (root_of s) k.not_empty)

  pub suffixes-match :
      (ss : List Bytes)
      → All (IsSuffix lower) ss
      → (any (equal q.domain) (map root_of ss) || any (has_suffix q.domain) ss)
        ≡ any (λ s. not (is_empty q.domain) && domain_matches lower q.domain s) ss
  suffixes-match [] k = refl
  suffixes-match (s ∷ ss) k =
      rw (any-cons, any-cons, any-cons, or_swap, suffix-matches s k.0, suffixes-match ss k.1) refl

  regional_rules_of-matches :
      (out : Outbound) (x : Service) (rest : List RouteRule)
      → All (IsSuffix lower) x.domain_suffixes
      → first_match m final (regional_rules_of out x ++ rest)
        ≡ (if service_matches lower q x then some out else first_match m final rest)
  unfolding first_match
  regional_rules_of-matches out x rest k =
      go x.process_names
      ∙ ap (λ b. if b then some out else first_match m final rest)
          (or_assoc (any q.has_name x.process_names) (any (equal q.domain) x.domains) (
            any (λ s. not (is_empty q.domain) && domain_matches lower q.domain s)
              x.domain_suffixes))
    where
      named : Bool
      named = m (domain (x.domains ++ map root_of x.domain_suffixes) x.domain_suffixes)

      listed : Bool
      listed =
          any (equal q.domain) x.domains
          || any (λ s. not (is_empty q.domain) && domain_matches lower q.domain s) x.domain_suffixes

      same : named ≡ listed
      same =
          rw
            (
              answers.by_domain,
              any-append,
              sym (
                  or_assoc (any (equal q.domain) x.domains)
                    (any (equal q.domain) (map root_of x.domain_suffixes))
                    (any (has_suffix q.domain) x.domain_suffixes)),
              suffixes-match x.domain_suffixes k,
            )
            refl

      go :
          (ps : List Bytes)
          → first_match m final (
              (if is_empty ps
                then record {
                  matcher = domain (x.domains ++ map root_of x.domain_suffixes) x.domain_suffixes;
                  action = route out;
                }
                  ∷ []
                else record { matcher = process_name ps; action = route out }
                  ∷ record {
                    matcher = domain (x.domains ++ map root_of x.domain_suffixes) x.domain_suffixes;
                    action = route out;
                  }
                  ∷ [])
              ++ rest)
            ≡ (if any q.has_name ps || listed then some out else first_match m final rest)
      go [] = ap (λ b. if b then some out else first_match m final rest) same
      go (p ∷ ps) =
          rw (answers.by_name, same)
            (if_or (any q.has_name (p ∷ ps)) listed (some out) (first_match m final rest))

  outbound_of-vpn_or_direct :
      (b : Bool) → outbound_of (vpn_or_direct b) ≡ (if b then awg_out else direct)
  outbound_of-vpn_or_direct true = refl
  outbound_of-vpn_or_direct false = refl

  pub explain_regional-follows :
      (s : RoutingSettings) (xs : List Service) (rest : List RouteRule) (e : Explanation)
      → IsCatalog lower xs
      → decided e (first_match m final (regional_rule_objects lower s xs ++ rest))
        ≡ decided (explain_regional lower s q xs e) (first_match m final rest)
  unfolding regional_rule_objects explain_regional
  explain_regional-follows s [] rest e k = refl
  explain_regional-follows s (x ∷ xs) rest e k =
      let b = service_matches lower q x in
      let u = service_uses_vpn lower x.id s in
      let later = regional_rule_objects lower s xs ++ rest in
      let here = ap (decided e) (
        ap (first_match m final) (
          append_assoc (regional_rules_of (service_outbound lower s x) x)
            (regional_rule_objects lower s xs) rest)
        ∙ regional_rules_of-matches (service_outbound lower s x) x later k.0
        ∙ rw (sym (outbound_of-vpn_or_direct u)) refl) in
      here
      ∙ sym (decided-match_if b (vpn_or_direct u) x.name e (first_match m final later))
      ∙ explain_regional-follows s xs rest (match_if b (vpn_or_direct u) x.name e) k.1
