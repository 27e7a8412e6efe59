-- ===== src/Smart/Explain/Fallback.antt =====
-- What `ExplainRoute` of client/smart/explain.go says while no rule has matched.
use pinus_smart_awg.Common.{
  Bool, List, Option, [], false, if◌then◌else◌, refl, some, true, ℕ, ◌∷◌, ◌≡◌,
}
use pinus_smart_awg.Smart.{
  CustomRule, RouteTarget, RoutingSettings, Service, target_direct, target_vpn,
}
use pinus_smart_awg.Smart.Explain.{
  Explanation, Query, explain_custom, explain_regional, explain_services, match, match_if,
  nothing_matched,
}
use pinus_smart_awg.Smart.Explain.Engine.{decided}
use pinus_smart_awg.Smart.Rules.{Outbound, outbound_of}
use pinus_smart_awg.Text.{Bytes}

-- An explanation without a matched rule still has the target `t`.
abbrev pub Falls : RouteTarget → Explanation → Type 0
Falls t e = decided e (some (outbound_of t)) ≡ some (outbound_of e.target)

pub match_if-Falls :
    (t u : RouteTarget) (b : Bool) (label : Bytes) (e : Explanation)
    → Falls t e
    → Falls t (match_if b u label e)
match_if-Falls t u false label e h = h
match_if-Falls t u true label e h = go e.target e.rule e.matched_rules
  where
    go :
        (v : RouteTarget) (r : Bytes) (ms : List Bytes)
        → Falls t (match u label (record { target = v; rule = r; matched_rules = ms }))
    go v r [] = refl
    go v r (x ∷ xs) = refl

pub explain_custom-Falls :
    (t : RouteTarget) (lower : ℕ → ℕ) (q : Query) (rs : List CustomRule) (e : Explanation)
    → Falls t e
    → Falls t (explain_custom lower q rs e)
unfolding explain_custom
explain_custom-Falls t lower q [] e h = h
explain_custom-Falls t lower q (r ∷ rs) e h =
    explain_custom-Falls t lower q rs _ (match_if-Falls t r.target _ r.name e h)

pub explain_regional-Falls :
    (t : RouteTarget) (lower : ℕ → ℕ) (s : RoutingSettings) (q : Query) (xs : List Service)
    (e : Explanation)
    → Falls t e
    → Falls t (explain_regional lower s q xs e)
unfolding explain_regional
explain_regional-Falls t lower s q [] e h = h
explain_regional-Falls t lower s q (x ∷ xs) e h =
    explain_regional-Falls t lower s q xs _ (match_if-Falls t _ _ x.name e h)

pub explain_services-Falls :
    (t : RouteTarget) (lower : ℕ → ℕ) (q : Query) (xs : List Service) (e : Explanation)
    → Falls t e
    → Falls t (explain_services lower q xs e)
unfolding explain_services
explain_services-Falls t lower q [] e h = h
explain_services-Falls t lower q (x ∷ xs) e h =
    explain_services-Falls t lower q xs _ (match_if-Falls t target_vpn _ x.name e h)

pub nothing_matched-follows :
    (selected : Bool) (o : Option Outbound) → o ≡ decided (nothing_matched selected) o
nothing_matched-follows true o = refl
nothing_matched-follows false o = refl

pub nothing_matched-Falls :
    (selected : Bool)
    → Falls (if selected then target_direct else target_vpn) (nothing_matched selected)
nothing_matched-Falls true = refl
nothing_matched-Falls false = refl
