-- ===== src/Smart/Explain/Merged.antt =====
-- The selected services, whose names `serviceRuleObjects` of client/smart/smart.go merges into two
-- rules, against the explanation, which asks them one by one.
use pinus_smart_awg.Common.{
  All, All-weaken, Bool, Bool-cases, List, Option, [], any, any-append, any-cons, ap, arith, false,
  if_or, if_or_or, if◌then◌else◌, inl, inr, is_empty, map, or_assoc, refl, some, sym, true, ℕ, ◌&&◌,
  ◌++◌, ◌||◌, ◌∙◌, ◌∷◌, ◌≡◌,
}
use pinus_smart_awg.Smart.{Service, member, target_vpn}
use pinus_smart_awg.Smart.Explain.{Explanation, Query, explain_services, match_if, service_matches}
use pinus_smart_awg.Smart.Explain.Engine.{
  Answers, IsCatalog, IsSuffix, decided, decided-match_if, first_match,
}
use pinus_smart_awg.Smart.Explain.Segments.{suffixes-match}
use pinus_smart_awg.Smart.Rules.{
  Matcher, Names, Outbound, RouteRule, add_all_new, add_new, add_roots, awg_out, collect_names,
  domain, no_names, process_name, root_of, route, service_rule_objects,
}
use pinus_smart_awg.Text.{Bytes, equal, equal_iff}
use pinus_smart_awg.Text.Search.{has_suffix}

any-member :
    (p : Bytes → Bool) (x : Bytes) (xs : List Bytes)
    → member x xs ≡ true
    → p x ≡ true
    → any p xs ≡ true
unfolding member
any-member p x [] h k = cc
any-member p x (y ∷ ys) h k = elim (Bool-cases (equal y x)) [
  | inl e ↦ rw (any-cons, (equal_iff y x).0 e, k) refl
  | inr e ↦ rw (any-cons, any-member p x ys (rw (e, member) at h) k) (ground arith)
]

any-add_new :
    (p : Bytes → Bool) (xs : List Bytes) (x : Bytes) → any p (add_new xs x) ≡ (any p xs || p x)
any-add_new p xs x = elim (Bool-cases (member x xs)) [
  | inl e ↦ rw e (elim (Bool-cases (p x)) [
    | inl k ↦ rw (any-member p x xs e k) refl
    | inr k ↦ rw k (ground arith)
  ])
  | inr e ↦ rw (e, any-append, any-cons) (ground arith)
]

any-add_all_new :
    (p : Bytes → Bool) (xs ys : List Bytes) → any p (add_all_new xs ys) ≡ (any p xs || any p ys)
unfolding add_all_new
any-add_all_new p xs [] = ground arith
any-add_all_new p xs (y ∷ ys) =
    any-add_all_new p (add_new xs y) ys
    ∙ rw (any-add_new, any-cons) (sym (or_assoc (any p xs) (p y) (any p ys)))

any-add_roots :
    (p : Bytes → Bool) (ds ss : List Bytes)
    → All (λ s. is_empty (root_of s) ≡ false) ss
    → any p (add_roots ds ss) ≡ (any p ds || any p (map root_of ss))
unfolding add_roots
any-add_roots p ds [] h = ground arith
any-add_roots p ds (s ∷ ss) h =
    rw (h.0, any-cons)
      (any-add_roots p (add_new ds (root_of s)) ss h.1
        ∙ rw any-add_new (sym (or_assoc (any p ds) (p (root_of s)) (any p (map root_of ss)))))

gathered :
    (np xp nd xd r ns xs : Bool)
    → (((np || xp) || ((nd || xd) || r)) || (ns || xs))
      ≡ (((np || nd) || ns) || ((xp || xd) || (r || xs)))
gathered np xp nd xd r ns xs = ground arith

-- whether one of the gathered names is the query's
abbrev pub hits : Query → Names → Bool
hits q n =
    any q.has_name n.processes
    || any (equal q.domain) n.domains
    || any (has_suffix q.domain) n.suffixes

module _ (lower : ℕ → ℕ) (q : Query) (m : Matcher → Bool) (final : Outbound)
    (answers : Answers q m) where
  hits-gathered :
      (n : Names) (x : Service)
      → All (IsSuffix lower) x.domain_suffixes
      → hits q (record {
        processes = add_all_new n.processes x.process_names;
        domains = add_roots (add_all_new n.domains x.domains) x.domain_suffixes;
        suffixes = add_all_new n.suffixes x.domain_suffixes;
      })
        ≡ (hits q n || service_matches lower q x)
  hits-gathered n x k =
      let rooted = All-weaken (λ s h. h.not_empty) x.domain_suffixes k in
      rw
        (
          any-add_all_new,
          any-add_roots (equal q.domain) (add_all_new n.domains x.domains) x.domain_suffixes rooted,
          any-add_all_new,
          any-add_all_new,
          sym (suffixes-match lower q m final answers x.domain_suffixes k),
        )
        (gathered (any q.has_name n.processes) (any q.has_name x.process_names)
          (any (equal q.domain) n.domains) (any (equal q.domain) x.domains)
          (any (equal q.domain) (map root_of x.domain_suffixes))
          (any (has_suffix q.domain) n.suffixes) (any (has_suffix q.domain) x.domain_suffixes))

  hits-collect_names :
      (xs : List Service) (n : Names)
      → IsCatalog lower xs
      → hits q (collect_names n xs) ≡ (hits q n || any (service_matches lower q) xs)
  unfolding collect_names
  hits-collect_names [] n k = ground arith
  hits-collect_names (x ∷ xs) n k =
      hits-collect_names xs _ k.1
      ∙ rw (hits-gathered n x k.0, any-cons)
          (sym (or_assoc (hits q n) (service_matches lower q x) (any (service_matches lower q) xs)))

  two_rules :
      (ps ds ss : List Bytes) (out : Outbound) (rest : List RouteRule)
      → first_match m final (
          ((if is_empty ps
              then []
              else record { matcher = process_name ps; action = route out } ∷ [])
            ++ (if is_empty ds && is_empty ss
                then []
                else record { matcher = domain ds ss; action = route out } ∷ []))
          ++ rest)
        ≡ (if any q.has_name ps || any (equal q.domain) ds || any (has_suffix q.domain) ss
            then some out
            else first_match m final rest)
  unfolding first_match
  two_rules [] [] [] out rest = refl
  two_rules [] [] (s ∷ ss) out rest = rw answers.by_domain refl
  two_rules [] (d ∷ ds) ss out rest = rw answers.by_domain refl
  two_rules (p ∷ ps) [] [] out rest = rw answers.by_name (ground arith)
  two_rules (p ∷ ps) [] (s ∷ ss) out rest =
      rw (answers.by_name, answers.by_domain)
        (if_or_or (any q.has_name (p ∷ ps)) false (any (has_suffix q.domain) (s ∷ ss)) (some out)
          (first_match m final rest))
  two_rules (p ∷ ps) (d ∷ ds) ss out rest =
      rw (answers.by_name, answers.by_domain)
        (if_or_or (any q.has_name (p ∷ ps)) (any (equal q.domain) (d ∷ ds))
          (any (has_suffix q.domain) ss) (some out) (first_match m final rest))

  pub service_rule_objects-matches :
      (xs : List Service) (out : Outbound) (rest : List RouteRule)
      → IsCatalog lower xs
      → first_match m final (service_rule_objects xs out ++ rest)
        ≡ (if any (service_matches lower q) xs then some out else first_match m final rest)
  unfolding service_rule_objects
  service_rule_objects-matches xs out rest k =
      let n = collect_names no_names xs in
      two_rules n.processes n.domains n.suffixes out rest
      ∙ rw (hits-collect_names xs no_names k) refl

  pub explain_services-follows :
      (xs : List Service) (e : Explanation) (o : Option Outbound)
      → decided (explain_services lower q xs e) o
        ≡ decided e (if any (service_matches lower q) xs then some awg_out else o)
  unfolding explain_services
  explain_services-follows [] e o = refl
  explain_services-follows (x ∷ xs) e o =
      let b = service_matches lower q x in
      explain_services-follows xs (match_if b target_vpn x.name e) o
      ∙ decided-match_if b target_vpn x.name e _
      ∙ rw any-cons (ap (decided e) (if_or b (any (service_matches lower q) xs) (some awg_out) o))
