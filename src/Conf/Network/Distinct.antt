-- ===== src/Conf/Network/Distinct.antt =====
-- DeduplicateNetworkEntries leaves one entry of each text.
use pinus_smart_awg.Common.{
  Bool, Bool-cases, List, [], any, any-cons, arith, count, false, if◌then◌else◌, inl, inr, map,
  refl, true, ℕ, ◌+◌, ◌||◌, ◌∷◌, ◌≡◌,
}
use pinus_smart_awg.Conf.{Config, Peer}
use pinus_smart_awg.Conf.Network.{deduplicate_network_entries, unseen}
use pinus_smart_awg.Conf.Values.{ip_cidr_string}
use pinus_smart_awg.Text.{Bytes, equal, equal_iff, one_of}
use pinus_smart_awg.Text.Ip.{ip_string}

-- how often a text is kept, from whether it has been seen and is still to come
abbrev kept : Bool → Bool → ℕ
kept before later = if before then 0 else if later then 1 else 0

kept_skip :
    (same before later : Bool)
    → (same ≡ true → before ≡ true)
    → kept before later ≡ kept before (same || later)
kept_skip same before later h = ground arith

kept_take :
    (same before later : Bool)
    → (same ≡ true → before ≡ false)
    → (if same then 1 else 0) + kept (same || before) later ≡ kept before (same || later)
kept_take same before later h = ground arith

one_of-cons : (s t : Bytes) (ts : List Bytes) → one_of s (t ∷ ts) ≡ (equal s t || one_of s ts)
unfolding one_of
one_of-cons s t ts = refl

module _ {A : Type 0} (text : A → Bytes) where
  unseen_skip :
      (a : A) (seen : List Bytes) (rest : List A)
      → one_of (text a) seen ≡ true
      → unseen text seen (a ∷ rest) ≡ unseen text seen rest
  unfolding unseen
  unseen_skip a seen rest h = rw (unseen, h) refl

  unseen_take :
      (a : A) (seen : List Bytes) (rest : List A)
      → one_of (text a) seen ≡ false
      → unseen text seen (a ∷ rest) ≡ a ∷ unseen text (text a ∷ seen) rest
  unfolding unseen
  unseen_take a seen rest h = rw (unseen, h) refl

  same_seen :
      (t : Bytes) (a : A) (seen : List Bytes) {b : Bool}
      → one_of (text a) seen ≡ b
      → equal t (text a) ≡ true
      → one_of t seen ≡ b
  same_seen t a seen h e = rw ((equal_iff t (text a)).0 e) h

  count-unseen :
      (t : Bytes) (seen : List Bytes) (list : List A)
      → count (λ a. equal t (text a)) (unseen text seen list)
        ≡ kept (one_of t seen) (any (λ a. equal t (text a)) list)
  unfolding unseen
  count-unseen t seen [] = none_kept (one_of t seen)
    where
      none_kept : (before : Bool) → 0 ≡ kept before false
      none_kept before = ground arith
  count-unseen t seen (a ∷ rest) =
      let here = λ (x : A). equal t (text x) in
      elim (Bool-cases (one_of (text a) seen)) [
        | inl e ↦
            rw (unseen_skip a seen rest e, count-unseen t seen rest, any-cons)
              (kept_skip (here a) (one_of t seen) (any here rest) (same_seen t a seen e))
        | inr e ↦
            rw
              (
                unseen_take a seen rest e,
                count-unseen t (text a ∷ seen) rest,
                any-cons,
                one_of-cons t (text a) seen,
              )
              (kept_take (here a) (one_of t seen) (any here rest) (same_seen t a seen e))
      ]

  -- one entry of each text that the list has
  abbrev pub IsDistinct : Bytes → List A → List A → Type 0
  IsDistinct t list result =
      count (λ a. equal t (text a)) result ≡ (if any (λ a. equal t (text a)) list then 1 else 0)

  unseen-IsDistinct : (t : Bytes) (list : List A) → IsDistinct t list (unseen text [] list)
  unfolding one_of
  unseen-IsDistinct t list = count-unseen t [] list

-- the peers of two configurations, one by one
abbrev pub ArePeersDistinct : Bytes → List Peer → List Peer → Type 0
ArePeersDistinct t [] [] = Unit
ArePeersDistinct t (p ∷ ps) (r ∷ rs) =
    IsDistinct ip_cidr_string t p.allowed_ips r.allowed_ips × ArePeersDistinct t ps rs
ArePeersDistinct t _ _ = ⊥

peers-ArePeersDistinct :
    (t : Bytes) (ps : List Peer)
    → ArePeersDistinct t ps
        (map (λ (p : Peer). record p { allowed_ips = unseen ip_cidr_string [] p.allowed_ips }) ps)
peers-ArePeersDistinct t [] = tt
peers-ArePeersDistinct t (p ∷ ps) =
    (unseen-IsDistinct ip_cidr_string t p.allowed_ips, peers-ArePeersDistinct t ps)

-- After DeduplicateNetworkEntries each text stands for exactly one of the addresses if it stood for
-- any before, and so it is for the servers for names and for the allowed networks of each peer.
pub deduplicate_network_entries-IsDistinct :
    (c : Config) (t : Bytes)
    → IsDistinct ip_cidr_string t c.interface.addresses
        (deduplicate_network_entries c).interface.addresses
      × IsDistinct ip_string t c.interface.dns (deduplicate_network_entries c).interface.dns
      × ArePeersDistinct t c.peers (deduplicate_network_entries c).peers
unfolding deduplicate_network_entries
deduplicate_network_entries-IsDistinct c t = (
  unseen-IsDistinct ip_cidr_string t c.interface.addresses,
  unseen-IsDistinct ip_string t c.interface.dns,
  peers-ArePeersDistinct t c.peers,
)
