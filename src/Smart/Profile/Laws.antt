-- ===== src/Smart/Profile/Laws.antt =====
-- The families of a profile, its servers for names, and when it has an endpoint.
use pinus_smart_awg.Common.{
  Bool, Bool-cases, List, [], all, any, any-cons, ap, arith, count, count-any, count-append, false,
  if◌then◌else◌, inl, inr, is_empty, is_ok, is_ok-bind, is_ok-map_err, is_ok-refuse_if, length,
  map_err, not, or_assoc, refl, refuse_if, sym, true, ℕ, ◌&&◌, ◌++◌, ◌==◌, ◌||◌, ◌∙◌, ◌∷◌, ◌≡◌, ◌≤◌,
}
use pinus_smart_awg.Conf.{Config, Ip, IpCidr, Peer, is_unset}
use pinus_smart_awg.Conf.Validation.{validate_awg}
use pinus_smart_awg.Smart.Profile.{
  DnsServer, accepts_address, add_profile_servers, add_server, all_allowed, awg_endpoint,
  detect_profile_families, dns_servers, is_default, is_v4_address, no_address, no_endpoint,
  no_families, no_peer, not_valid, note_families, peer_object, peer_objects,
}
use pinus_smart_awg.Smart.Rules.{Families}
use pinus_smart_awg.Text.{Bytes, codes, equal, equal_iff}
use pinus_smart_awg.Text.Ip.{ip_string}
use pinus_smart_awg.Text.Number.{itoa}

abbrev pub is_v6_address : Ip → Bool
is_v6_address ip = not (is_v4_address ip) && length ip == 16

noted_lem :
    (w v4 v6 : Bool) (f : Families)
    → ((if not w
          then f
          else if v4
          then record f { ipv4 = true }
          else if v6
          then record f { ipv6 = true }
          else f).ipv4
        ≡ (f.ipv4 || (w && v4)))
      × ((if not w
            then f
            else if v4
            then record f { ipv4 = true }
            else if v6
            then record f { ipv6 = true }
            else f).ipv6
          ≡ (f.ipv6 || (w && (not v4 && v6))))
noted_lem true true v6 f = (ground arith, ground arith)
noted_lem true false true f = (ground arith, ground arith)
noted_lem true false false f = (ground arith, ground arith)
noted_lem false v4 v6 f = (ground arith, ground arith)

note_families_lem :
    (wanted : IpCidr → Bool) (list : List IpCidr) (f : Families)
    → ((note_families wanted list f).ipv4
        ≡ (f.ipv4 || any (λ a. wanted a && is_v4_address a.ip) list))
      × ((note_families wanted list f).ipv6
          ≡ (f.ipv6 || any (λ a. wanted a && is_v6_address a.ip) list))
unfolding note_families
note_families_lem wanted [] f = (ground arith, ground arith)
note_families_lem wanted (a ∷ rest) f =
    let noted =
      if not (wanted a)
      then f
      else if is_v4_address a.ip
      then record f { ipv4 = true }
      else if length a.ip == 16
      then record f { ipv6 = true }
      else f in
    let here = noted_lem (wanted a) (is_v4_address a.ip) (length a.ip == 16) f in
    let later = note_families_lem wanted rest noted in
    let by4 = λ (c : IpCidr). wanted c && is_v4_address c.ip in
    let by6 = λ (c : IpCidr). wanted c && is_v6_address c.ip in
    (
      later.0
          ∙ ap (λ b. b || any by4 rest) here.0
          ∙ sym (or_assoc f.ipv4 (by4 a) (any by4 rest))
          ∙ ap (λ b. f.ipv4 || b) (sym (any-cons by4 a rest)),
      later.1
          ∙ ap (λ b. b || any by6 rest) here.1
          ∙ sym (or_assoc f.ipv6 (by6 a) (any by6 rest))
          ∙ ap (λ b. f.ipv6 || b) (sym (any-cons by6 a rest)),
    )

-- A profile carries a family exactly if an address of its interface and a default route of one of
-- its peers are of that family.
pub detect_profile_families_iff :
    (config : Config)
    → ((detect_profile_families config).ipv4 ≡ (
        any (λ a. is_v4_address a.ip) config.interface.addresses
        && any (λ a. is_default a && is_v4_address a.ip) (all_allowed config.peers)))
      × ((detect_profile_families config).ipv6 ≡ (
          any (λ a. is_v6_address a.ip) config.interface.addresses
          && any (λ a. is_default a && is_v6_address a.ip) (all_allowed config.peers)))
unfolding detect_profile_families
detect_profile_families_iff config =
    let own = note_families_lem (λ a. true) config.interface.addresses no_families in
    let routed = note_families_lem is_default (all_allowed config.peers) no_families in
    (rw (own.0, routed.0) refl, rw (own.1, routed.1) refl)

and_yes : (b : Bool) → (b && true) ≡ b
and_yes b = ground arith

peer_object-is_ok : (p : Peer) → is_ok (peer_object p) ≡ not (is_unset p.endpoint)
unfolding peer_object
peer_object-is_ok p =
    is_ok-bind (refuse_if (is_unset p.endpoint) no_endpoint) _ true (λ u. refl)
    ∙ and_yes (is_ok (refuse_if (is_unset p.endpoint) no_endpoint))
    ∙ is_ok-refuse_if (is_unset p.endpoint) no_endpoint

peer_objects-is_ok :
    (ps : List Peer) → is_ok (peer_objects ps) ≡ all (λ p. not (is_unset p.endpoint)) ps
unfolding peer_objects
peer_objects-is_ok [] = refl
peer_objects-is_ok (p ∷ ps) =
    is_ok-bind (peer_object p) _ (is_ok (peer_objects ps))
      (λ o. is_ok-bind (peer_objects ps) _ true (λ os. refl) ∙ and_yes (is_ok (peer_objects ps)))
    ∙ rw (peer_object-is_ok p, peer_objects-is_ok ps) refl

-- A profile has an endpoint exactly if its AmneziaWG settings are valid, it has an address and a
-- peer, and each of its peers has an endpoint.
pub awg_endpoint-is_ok :
    (lower : ℕ → ℕ) (config : Config)
    → is_ok (awg_endpoint lower config) ≡ (
        is_ok (validate_awg lower config)
        && (not (is_empty config.interface.addresses)
            && (not (is_empty config.peers) && all (λ p. not (is_unset p.endpoint)) config.peers)))
unfolding awg_endpoint
awg_endpoint-is_ok lower config =
    let i = config.interface in
    let endpoints = all (λ (p : Peer). not (is_unset p.endpoint)) config.peers in
    is_ok-bind (map_err not_valid (validate_awg lower config)) _
      (not (is_empty i.addresses) && (not (is_empty config.peers) && endpoints))
      (λ u.
        is_ok-bind (refuse_if (is_empty i.addresses) no_address) _
          (not (is_empty config.peers) && endpoints)
          (λ v.
            is_ok-bind (refuse_if (is_empty config.peers) no_peer) _ endpoints (λ w.
              is_ok-bind (peer_objects config.peers) _ true (λ os. refl)
              ∙ and_yes (is_ok (peer_objects config.peers))
              ∙ peer_objects-is_ok config.peers)
            ∙ rw (is_ok-refuse_if (is_empty config.peers) no_peer) refl)
        ∙ rw (is_ok-refuse_if (is_empty i.addresses) no_address) refl)
    ∙ rw (is_ok-map_err not_valid (validate_awg lower config)) refl

abbrev with_address : Bytes → DnsServer → Bool
with_address a s = equal a s.address

count-new :
    (a tag address : Bytes) (servers : List DnsServer)
    → any (with_address address) servers ≡ false
    → count (with_address a) servers ≤ 1
    → count (with_address a) (servers ++ record { tag = tag; address = address } ∷ []) ≤ 1
count-new a tag address servers free h =
    let joined =
      count-append (with_address a) servers (record { tag = tag; address = address } ∷ []) in
    elim (Bool-cases (equal a address)) [
      | inl e ↦
          let same : count (with_address a) servers ≡ 0 =
            ap (λ b. count (with_address b) servers) ((equal_iff a address).0 e)
            ∙ count-any (with_address address) servers free in
          rw (joined, e) (omega (arith, same))
      | inr e ↦ rw (joined, e) (omega (arith, h))
    ]

add_server-count :
    (a tag address : Bytes) (servers : List DnsServer)
    → count (with_address a) servers ≤ 1
    → count (with_address a) (add_server tag address servers) ≤ 1
unfolding add_server
add_server-count a tag address servers h =
    elim (Bool-cases (is_empty address || any (with_address address) servers)) [
      | inl e ↦ rw e h
      | inr e ↦ rw e (
          count-new a tag address servers
            (or_false (is_empty address) (any (with_address address) servers) e) h)
    ]
  where
    or_false : (b c : Bool) → (b || c) ≡ false → c ≡ false
    or_false b c h = ground arith

add_profile_servers-count :
    (a : Bytes) (f : Families) (ips : List Ip) (servers : List DnsServer)
    → count (with_address a) servers ≤ 1
    → count (with_address a) (add_profile_servers f ips servers) ≤ 1
unfolding add_profile_servers
add_profile_servers-count a f [] servers h = h
add_profile_servers-count a f (ip ∷ ips) servers h =
    let tag = codes "profile-dns-" ++ itoa (length servers) in
    elim (Bool-cases (accepts_address f ip)) [
      | inl e ↦ rw e (
          add_profile_servers-count a f ips (add_server tag (ip_string ip) servers)
            (add_server-count a tag (ip_string ip) servers h))
      | inr e ↦ rw e (add_profile_servers-count a f ips servers h)
    ]

-- the choice of `dns_servers`
abbrev chosen_servers : List DnsServer → Bool → Bool → List DnsServer
chosen_servers own v4 v6 =
    let with_4 = if v4 then add_server (codes "cloudflare-ipv4") (codes "1.1.1.1") [] else [] in
    if not (is_empty own)
    then own
    else if v6
    then add_server (codes "cloudflare-ipv6") (codes "2606:4700:4700::1111") with_4
    else with_4

is_empty-chosen_servers :
    (own : List DnsServer) (v4 v6 : Bool)
    → (v4 || v6) ≡ true
    → is_empty (chosen_servers own v4 v6) ≡ false
unfolding add_server equal
is_empty-chosen_servers (s ∷ own) v4 v6 h = refl
is_empty-chosen_servers [] true true h = refl
is_empty-chosen_servers [] true false h = refl
is_empty-chosen_servers [] false true h = refl
is_empty-chosen_servers [] false false h = cc

chosen_servers-count :
    (a : Bytes) (own : List DnsServer) (v4 v6 : Bool)
    → count (with_address a) own ≤ 1
    → count (with_address a) (chosen_servers own v4 v6) ≤ 1
chosen_servers-count a (s ∷ own) v4 v6 h = h
chosen_servers-count a [] true true h =
    add_server-count a (codes "cloudflare-ipv6") (codes "2606:4700:4700::1111")
      (add_server (codes "cloudflare-ipv4") (codes "1.1.1.1") [])
      (add_server-count a (codes "cloudflare-ipv4") (codes "1.1.1.1") [] h)
chosen_servers-count a [] true false h =
    add_server-count a (codes "cloudflare-ipv4") (codes "1.1.1.1") [] h
chosen_servers-count a [] false true h =
    add_server-count a (codes "cloudflare-ipv6") (codes "2606:4700:4700::1111") [] h
chosen_servers-count a [] false false h = h

-- A profile with a family has at least one server for names, so that the first one is there, and no
-- two servers have the same address.
pub dns_servers_lem :
    (config : Config) (f : Families) (a : Bytes)
    → (f.ipv4 || f.ipv6) ≡ true
    → (is_empty (dns_servers config f) ≡ false)
      × (count (λ s. equal a s.address) (dns_servers config f) ≤ 1)
unfolding dns_servers
dns_servers_lem config f a h =
    let own = add_profile_servers f config.interface.dns [] in
    (
      is_empty-chosen_servers own f.ipv4 f.ipv6 h,
      chosen_servers-count a own f.ipv4 f.ipv6
          (add_profile_servers-count a f config.interface.dns [] (omega arith)),
    )
