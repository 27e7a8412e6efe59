-- ===== src/Smart/Explain/Agreement.antt =====
-- `ExplainRoute` of client/smart/explain.go, against the rules that `BuildConfig` of
-- client/smart/smart.go writes for the engine.
-- The rule of the local networks.
use pinus_smart_awg.Common.{
  Bool, List, Option, [], any, any-cons, ap, arith, false, if_or, if◌then◌else◌, is_empty, none,
  not, refl, some, sym, true, ℕ, ◌&&◌, ◌++◌, ◌||◌, ◌∙◌, ◌∷◌, ◌≡◌,
}
use pinus_smart_awg.Smart.{
  RouteTarget, RoutingSettings, Service, mode_selected, target_direct, target_vpn,
}
use pinus_smart_awg.Smart.Explain.{
  Explanation, Query, explain_custom, explain_regional, explain_route, explain_selected,
  explain_services, is_update, match_if, nothing_matched,
}
use pinus_smart_awg.Smart.Explain.Catalogs.{regional_services-IsCatalog}
use pinus_smart_awg.Smart.Explain.Engine.{
  Answers, AnswersPlace, AnswersPlace-Answers, AreKnownRules, IsCatalog, NoApplication, decided,
  decided-match_if, first_match,
}
use pinus_smart_awg.Smart.Explain.Fallback.{
  Falls, explain_custom-Falls, explain_regional-Falls, explain_services-Falls, match_if-Falls,
  nothing_matched-Falls, nothing_matched-follows,
}
use pinus_smart_awg.Smart.Explain.Merged.{explain_services-follows, service_rule_objects-matches}
use pinus_smart_awg.Smart.Explain.Segments.{explain_custom-follows, explain_regional-follows}
use pinus_smart_awg.Smart.Regional.{regional_services}
use pinus_smart_awg.Smart.Rules.{
  Families, Matcher, Outbound, RouteRule, awg_out, build_rules, direct, domain, final_outbound,
  ip_cidr, ip_version, local_cidrs, outbound_of, policy_rules, reject_version, route,
  update_domains,
}
use pinus_smart_awg.Text.{Bytes, equal}

local_rule-follows :
    (q : Query) (m : Matcher → Bool) (final : Outbound)
    → Answers q m
    → (rest : List RouteRule) (label : Bytes) (e : Explanation)
    → decided e (
        first_match m final
          (record { matcher = ip_cidr local_cidrs; action = route direct } ∷ rest))
      ≡ decided
          (match_if (any q.is_in local_cidrs) target_direct label e)
          (first_match m final rest)
unfolding first_match
local_rule-follows q m final answers rest label e = rw (answers.by_cidr local_cidrs) (
    sym
      (decided-match_if (any q.is_in local_cidrs) target_direct label e (first_match m final rest)))

-- whether the engine refuses a version of IP that the profile does not carry
abbrev pub refused : Families → (Matcher → Bool) → Bool
refused f m = (not f.ipv4 && m (ip_version 4)) || (not f.ipv6 && m (ip_version 6))

-- The route of an explanation, unless nothing matched and everything goes through the VPN, which
-- refuses a version of IP that the profile does not carry.
abbrev pub expected_outcome : Bool → Bool → Explanation → Option Outbound
expected_outcome selected refuses e =
    if selected || not (is_empty e.matched_rules)
    then some (outbound_of e.target)
    else if refuses
    then none
    else some awg_out

guards :
    (services : List Service) (f : Families) (m : Matcher → Bool)
    → first_match m awg_out (policy_rules false services f)
      ≡ (if refused f m then none else some awg_out)
unfolding policy_rules first_match
guards services f m = go f.ipv4 f.ipv6
  where
    go :
        (four six : Bool)
        → first_match m awg_out (
            (if four then [] else reject_version 4 ∷ [])
            ++ (if six then [] else reject_version 6 ∷ []))
          ≡ (if (not four && m (ip_version 4)) || (not six && m (ip_version 6))
              then none
              else some awg_out)
    go true true = refl
    go true false = refl
    go false true = ground arith
    go false false = if_or (m (ip_version 4)) (m (ip_version 6)) none (some awg_out)

update_rule-follows :
    (q : Query) (m : Matcher → Bool)
    → Answers q m
    → (label : Bytes) (e : Explanation)
    → decided e (
        first_match m direct
          (record { matcher = domain update_domains []; action = route awg_out } ∷ []))
      ≡ decided (match_if (is_update q.domain) target_vpn label e) (some direct)
unfolding first_match
update_rule-follows q m answers label e = rw (answers.by_domain update_domains []) (
    ap (decided e)
      (ap (λ b. if b then some awg_out else some direct) (rw (any-cons, any-cons) (ground arith)))
    ∙ sym (decided-match_if (is_update q.domain) target_vpn label e (some direct)))

flipped {ℓ} :
    {A : Type ℓ} (b : Bool) (x y : A) → (if b then y else x) ≡ (if false || not b then x else y)
flipped true x y = refl
flipped false x y = refl

module _ (lower : ℕ → ℕ) (s : RoutingSettings) (services : List Service) (f : Families) (q : Query)
    (m : Matcher → Bool) (answers : Answers q m) (known : AreKnownRules lower s.custom_rules)
    (catalog : IsCatalog lower services) where
  policy-follows :
      (selected : Bool) (e : Explanation)
      → Falls (if selected then target_direct else target_vpn) e
      → decided e (first_match m (final_outbound selected) (policy_rules selected services f))
        ≡ expected_outcome selected (refused f m) (explain_selected lower selected q services e)
  unfolding policy_rules explain_selected
  policy-follows false e h =
      ap (decided e) (guards services f m)
      ∙ flipped (is_empty e.matched_rules) (some (outbound_of e.target)) _
  policy-follows true e h =
      ap (decided e) (
        service_rule_objects-matches lower q m direct answers services awg_out
          (record { matcher = domain update_domains []; action = route awg_out } ∷ []) catalog)
      ∙ sym (explain_services-follows lower q m direct answers services e _)
      ∙ update_rule-follows q m answers _ (explain_services lower q services e)
      ∙ match_if-Falls target_direct target_vpn (is_update q.domain) _ _
          (explain_services-Falls target_direct lower q services e h)

  explain_route-answered :
      first_match m (final_outbound (equal s.mode mode_selected)) (build_rules lower s services f)
      ≡ expected_outcome
          (equal s.mode mode_selected)
          (refused f m)
          (explain_route lower s services q)
  unfolding build_rules first_match explain_route
  explain_route-answered = rw answers.not_dns (
      nothing_matched-follows selected _
      ∙ explain_custom-follows lower q m final answers s.custom_rules _ e0 known
      ∙ explain_regional-follows lower q m final answers s regional_services _ e1
          (regional_services-IsCatalog lower)
      ∙ local_rule-follows q m final answers (policy_rules selected services f) _ e2
      ∙ policy-follows selected _ (match_if-Falls t target_direct _ _ e2 falls))
    where
      selected : Bool
      selected = equal s.mode mode_selected

      final : Outbound
      final = final_outbound selected

      t : RouteTarget
      t = if selected then target_direct else target_vpn

      e0 : Explanation
      e0 = nothing_matched selected

      e1 : Explanation
      e1 = explain_custom lower q s.custom_rules e0

      e2 : Explanation
      e2 = explain_regional lower s q regional_services e1

      falls : Falls t e2
      falls =
          explain_regional-Falls t lower s q regional_services e1
            (explain_custom-Falls t lower q s.custom_rules e0 (nothing_matched-Falls selected))

-- For a query about a domain or an address, without an application: the engine, on the rules that
-- `BuildConfig` writes, sends a connection whose process it does not know where `ExplainRoute` says,
-- except that with everything through the VPN a connection that no rule matches is refused when the
-- profile does not carry its version of IP.  The user's rules are of known kinds, and the value of
-- a domain rule is in lower case, not empty and without a dot at its ends; the catalog's suffixes
-- are a dot and such a domain; and the engine's matchers for domains and networks answer as
-- documented.
pub explain_route-build_rules :
    (lower : ℕ → ℕ) (s : RoutingSettings) (services : List Service) (f : Families) (q : Query)
    (m : Matcher → Bool)
    → NoApplication q
    → AnswersPlace q m
    → AreKnownRules lower s.custom_rules
    → IsCatalog lower services
    → first_match m (final_outbound (equal s.mode mode_selected)) (build_rules lower s services f)
      ≡ expected_outcome
          (equal s.mode mode_selected)
          (refused f m)
          (explain_route lower s services q)
explain_route-build_rules lower s services f q m none_named answers known catalog =
    explain_route-answered lower s services f q m (AnswersPlace-Answers q m none_named answers)
      known catalog
