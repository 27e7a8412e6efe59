-- ===== src/Conf/Network/Laws.antt =====
-- Two configurations intersect if they have a route in common.
use pinus_smart_awg.Common.{
  Bool, List, [], any, any-append, any-cons, ap, arith, false, if◌then◌else◌, map, or_swap, refl,
  sym, true, ℕ, ◌&&◌, ◌==◌, ◌||◌, ◌∙◌, ◌∷◌, ◌≡◌,
}
use pinus_smart_awg.Conf.{Config, IpCidr, Peer}
use pinus_smart_awg.Conf.Network.{
  HashableIpCidr, address_routes, all_routes, allowed_routes, check_addresses, check_allowed,
  check_peers, has_route, host_route, intersects_with, mask_self, masked_config, masked_route,
  same_route,
}
use pinus_smart_awg.Text.{Bytes, equal, equal_iff}

abbrev answer_of : {X : Type 0} → Bool × X → Bool
answer_of p = p.0

stops_or :
    {X : Type 0} (b : Bool) (x : X) (q : Bool × X) {e : Bool}
    → q.0 ≡ e
    → answer_of (if b then (true, x) else q) ≡ (b || e)
stops_or true x q h = refl
stops_or false x q h = h

abbrev first_answer : Bool × Config × Config → Bool
first_answer p = p.0

triple_or :
    (b : Bool) {d e : Bool} (c x y : Config)
    → d ≡ e
    → first_answer (if b then (true, c, x) else (d, c, y)) ≡ (b || e)
triple_or true c x y h = refl
triple_or false c x y h = h

check_addresses-any :
    (routes : List HashableIpCidr) (list : List IpCidr)
    → (check_addresses routes list).0 ≡ any (has_route routes) (address_routes list)
unfolding check_addresses address_routes
check_addresses-any routes [] = refl
check_addresses-any routes (a ∷ rest) =
    let later = check_addresses routes rest in
    let last : Bool × List IpCidr = (later.0, mask_self a ∷ later.1) in
    rw (any-cons (has_route routes) (host_route a), any-cons (has_route routes) (masked_route a))
      (stops_or (has_route routes (host_route a)) (a ∷ rest)
        (if has_route routes (masked_route a) then (true, mask_self a ∷ rest) else last)
        (stops_or (has_route routes (masked_route a)) (mask_self a ∷ rest) last
          (check_addresses-any routes rest)))

check_allowed-any :
    (routes : List HashableIpCidr) (list : List IpCidr)
    → (check_allowed routes list).0 ≡ any (has_route routes) (map masked_route list)
unfolding check_allowed
check_allowed-any routes [] = refl
check_allowed-any routes (a ∷ rest) =
    let later = check_allowed routes rest in
    rw any-cons (
      stops_or (has_route routes (masked_route a)) (mask_self a ∷ rest)
        (later.0, mask_self a ∷ later.1) (check_allowed-any routes rest))

check_peers-any :
    (routes : List HashableIpCidr) (ps : List Peer)
    → (check_peers routes ps).0 ≡ any (has_route routes) (allowed_routes ps)
unfolding check_peers allowed_routes
check_peers-any routes [] = refl
check_peers-any routes (p ∷ ps) =
    let here = check_allowed routes p.allowed_ips in
    let changed = record p { allowed_ips = here.1 } in
    let later = check_peers routes ps in
    stops_or here.0 (changed ∷ ps) (later.0, changed ∷ later.1) (check_peers-any routes ps)
    ∙ ap (λ b. b || any (has_route routes) (allowed_routes ps))
        (check_allowed-any routes p.allowed_ips)
    ∙ sym (any-append (has_route routes) (map masked_route p.allowed_ips) (allowed_routes ps))

-- the two lists have an element in common
abbrev pub have_common : List HashableIpCidr → List HashableIpCidr → Bool
have_common routes others = any (has_route routes) others

intersects_with-common :
    (c other : Config) → (intersects_with c other).0 ≡ have_common (all_routes c) (all_routes other)
unfolding intersects_with all_routes
intersects_with-common c other =
    let routes = all_routes c in
    let addresses = check_addresses routes other.interface.addresses in
    let peers = check_peers routes other.peers in
    let half = record other { interface = record other.interface { addresses = addresses.1 } } in
    triple_or addresses.0 (masked_config c) half (record half { peers = peers.1 })
      (check_peers-any routes other.peers)
    ∙ ap (λ b. b || any (has_route routes) (allowed_routes other.peers))
        (check_addresses-any routes other.interface.addresses)
    ∙ sym (
        any-append (has_route routes) (address_routes other.interface.addresses)
          (allowed_routes other.peers))

any-same :
    {A : Type 0} {p q : A → Bool} (f : (x : A) → p x ≡ q x) (xs : List A) → any p xs ≡ any q xs
any-same f [] = refl
any-same f (x ∷ xs) = rw (any-cons, any-cons, f x, any-same f xs) refl

any-either :
    {A : Type 0} (p q : A → Bool) (xs : List A) → any (λ x. p x || q x) xs ≡ (any p xs || any q xs)
any-either p q [] = refl
any-either p q (x ∷ xs) =
    rw (any-cons, any-cons, any-cons, any-either p q xs) (or_swap (p x) (q x) (any p xs) (any q xs))

equal_comm : (s t : Bytes) → equal s t ≡ equal t s
equal_comm s t = ground (arith, equal_iff s t, equal_iff t s)

same_route_comm : (a b : HashableIpCidr) → same_route a b ≡ same_route b a
same_route_comm a b = rw (equal_comm a.0 b.0) (ap (λ x. equal b.0 a.0 && x) (same_number a.1 b.1))
  where
    same_number : (m n : ℕ) → (m == n) ≡ (n == m)
    same_number m n = ground arith

have_common_comm : (xs ys : List HashableIpCidr) → have_common xs ys ≡ have_common ys xs
have_common_comm [] ys = never ys
  where
    never : (zs : List HashableIpCidr) → any (λ z. false) zs ≡ false
    never [] = refl
    never (z ∷ zs) = never zs
have_common_comm (x ∷ xs) ys =
    any-same (λ y. any-cons (same_route y) x xs) ys
    ∙ any-either (λ y. same_route y x) (has_route xs) ys
    ∙ rw (any-same (λ y. same_route_comm y x) ys, have_common_comm xs ys)
        (sym (any-cons (has_route ys) x xs))

-- IntersectsWith answers whether the two configurations have a route in common, so the answer is
-- the same the other way round.
pub intersects_with_comm :
    (c other : Config)
    → ((intersects_with c other).0 ≡ have_common (all_routes c) (all_routes other))
      × ((intersects_with c other).0 ≡ (intersects_with other c).0)
intersects_with_comm c other = (
  intersects_with-common c other,
  intersects_with-common c other
      ∙ have_common_comm (all_routes c) (all_routes other)
      ∙ sym (intersects_with-common other c),
)
