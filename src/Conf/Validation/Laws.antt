-- ===== src/Conf/Validation/Laws.antt =====
-- `ValidateAWG` of core/conf/awg_validation.go, against the configurations that it means.

use pinus_smart_awg.Common.{
  All, All-weaken, Bool, Bool-cases, List, Option, Result, [], arith, bind-eq-ok, err, for_each,
  for_each_iff, if◌then◌else◌, inl, inr, is_empty, le→ltb-false, ltb-false→le, map_err, none,
  of_option, ok, refl, refuse_if, refuse_if-eq-ok, refuse_if_iff, some, then_iff, true, ℕ, ◌+◌, ◌↔◌,
  ◌∷◌, ◌≡◌, ◌≤◌, ◌⊎◌,
}
use pinus_smart_awg.Conf.{Config, Peer}
use pinus_smart_awg.Conf.Cps.{CpsTag, max_payload}
use pinus_smart_awg.Conf.Cps.Laws.{IsCps, validate_cps_iff}
use pinus_smart_awg.Conf.Range.{parse_awg_bool, parse_awg_range}
use pinus_smart_awg.Conf.Range.Laws.{IsRange, parse_awg_range_iff}
use pinus_smart_awg.Conf.Validation.{
  AwgError, Padding, bad_keepalive, bad_packet, bad_setting, bad_switch, check_headers,
  check_packet, check_padding, check_peer, check_setting, check_switch, checked, headers,
  is_protected, jmax_exceeds_payload, jmin_exceeds_jmax, packet_keys, paddings,
  parse_persistent_keepalive, settings, switches, validate_awg,
}
use pinus_smart_awg.Conf.Validation.Headers.{AllDisjoint, AreHeaders, check_headers_iff}
use pinus_smart_awg.Text.{Bytes, codes, one_of}
use pinus_smart_awg.Text.Case.{equal_fold}

-- A setting is unset or a range of 16 bits.
abbrev pub SettingFits : Bytes → Type 0
SettingFits v = (v ≡ []) ⊎ ((lo : ℕ) × (hi : ℕ) × IsRange 16 v lo hi)

abbrev pub SwitchFits : (ℕ → ℕ) → Bytes → Type 0
SwitchFits lower v = (v ≡ []) ⊎ ((b : Bool) × (parse_awg_bool lower v ≡ some b))

abbrev pub PaddingFits : Bool → Padding → Type 0
PaddingFits protected p = (p.size + p.base ≤ max_payload) × (protected ≡ true → 12 ≤ p.size)

-- `off`, in any case, or a range of 16 bits
abbrev pub KeepaliveFits : Peer → Type 0
KeepaliveFits p =
    (p.persistent_keepalive ≡ [])
    ⊎ (equal_fold p.persistent_keepalive (codes "off") ≡ true)
    ⊎ ((lo : ℕ) × (hi : ℕ) × IsRange 16 p.persistent_keepalive lo hi)

abbrev pub PacketFits : Bytes × Bytes → Type 0
PacketFits p = (one_of p.0 packet_keys ≡ true) × ((tags : List CpsTag) × IsCps p.1 tags)

-- What `ValidateAWG` promises of a configuration.
pub record IsAwg (lower : ℕ → ℕ) (c : Config) : Type 0 where
  pub junk_ordered : c.interface.junk_packet_min_size ≤ c.interface.junk_packet_max_size
  pub junk_fits : c.interface.junk_packet_max_size ≤ max_payload
  pub paddings_fit : All (PaddingFits (is_protected c.interface)) (paddings c.interface)
  pub headers_apart : (rs : List (ℕ × ℕ)) × AreHeaders 1 (headers c.interface) rs × AllDisjoint rs
  pub settings_fit : All SettingFits (settings c.interface)
  pub switches_fit : All (SwitchFits lower) (switches c.interface)
  pub keepalives_fit : All KeepaliveFits c.peers
  pub packets_fit : All PacketFits c.interface.i_packets

check_padding_iff :
    (protected : Bool) (p : Padding) → (check_padding protected p ≡ ok tt) ↔ PaddingFits protected p
unfolding check_padding
check_padding_iff protected p = (λ h. ground arith, λ h. ground arith)

checked_iff {ℓ} :
    {A : Type ℓ} (m : Result AwgError A) → (checked m ≡ ok tt) ↔ ((a : A) × (m ≡ ok a))
checked_iff (ok a) = (λ h. (a, refl), λ h. refl)
checked_iff (err e) = (λ h. cc, λ h. cc h.1)

map_err_iff {ℓ} :
    {E F : Type 0} {A : Type ℓ} (f : E → F) (m : Result E A) (a : A)
    → (map_err f m ≡ ok a) ↔ (m ≡ ok a)
map_err_iff f (ok x) a = (λ h. cc, λ h. cc)
map_err_iff f (err e) a = (λ h. cc, λ h. cc)

check_setting_iff : (v : Bytes) → (check_setting v ≡ ok tt) ↔ SettingFits v
unfolding check_setting
check_setting_iff [] = (λ h. inl refl, λ h. refl)
check_setting_iff (c ∷ cs) = (to, from)
  where
    to : checked (map_err bad_setting (parse_awg_range (c ∷ cs) 16)) ≡ ok tt → SettingFits (c ∷ cs)
    to h =
        let ((lo, hi), e) = (checked_iff (map_err bad_setting (parse_awg_range (c ∷ cs) 16))).0 h in
        inr (
          lo,
          hi,
          (parse_awg_range_iff (c ∷ cs) 16 lo hi).0 ((map_err_iff bad_setting _ (lo, hi)).0 e),
        )

    from :
        SettingFits (c ∷ cs) → checked (map_err bad_setting (parse_awg_range (c ∷ cs) 16)) ≡ ok tt
    from (inl e) = cc
    from (inr (lo, hi, r)) = rw ((parse_awg_range_iff (c ∷ cs) 16 lo hi).1 r)

check_switch_iff : (lower : ℕ → ℕ) (v : Bytes) → (check_switch lower v ≡ ok tt) ↔ SwitchFits lower v
unfolding check_switch
check_switch_iff lower [] = (λ h. inl refl, λ h. refl)
check_switch_iff lower (c ∷ cs) = go (parse_awg_bool lower (c ∷ cs))
  where
    go :
        (o : Option Bool)
        → (checked (of_option bad_switch o) ≡ ok tt)
          ↔ (((c ∷ cs) ≡ []) ⊎ ((b : Bool) × (o ≡ some b)))
    go none = (λ h. cc, λ h. absurd (nothing h))
      where
        nothing : (((c ∷ cs) ≡ []) ⊎ ((b : Bool) × (none ≡ some b))) → ⊥
        nothing (inl e) = cc
        nothing (inr (b, e)) = cc
    go (some b) = (λ h. inr (b, refl), λ h. refl)

check_packet_iff : (p : Bytes × Bytes) → (check_packet p ≡ ok tt) ↔ PacketFits p
unfolding check_packet
check_packet_iff (key, spec) = (to, from)
  where
    to : check_packet (key, spec) ≡ ok tt → PacketFits (key, spec)
    to h = elim (Bool-cases (one_of key packet_keys)) [
      | inl e ↦ (e, (validate_cps_iff spec).0 ((map_err_iff bad_packet _ tt).0 (rw e at h)))
      | inr e ↦ cc (rw e at h)
    ]

    from : PacketFits (key, spec) → check_packet (key, spec) ≡ ok tt
    from h = rw (h.0, (validate_cps_iff spec).1 h.1)

parse_persistent_keepalive_iff :
    (s : Bytes)
    → ((t : Bytes) × (parse_persistent_keepalive s ≡ ok t))
      ↔ ((equal_fold s (codes "off") ≡ true) ⊎ ((lo : ℕ) × (hi : ℕ) × IsRange 16 s lo hi))
unfolding parse_persistent_keepalive
parse_persistent_keepalive_iff s = (λ p. to p.0 p.1, from)
  where
    to :
        (t : Bytes)
        → parse_persistent_keepalive s ≡ ok t
        → (equal_fold s (codes "off") ≡ true) ⊎ ((lo : ℕ) × (hi : ℕ) × IsRange 16 s lo hi)
    to t h = elim (Bool-cases (equal_fold s (codes "off"))) [
      | inl e ↦ inl e
      | inr e ↦
          let ((lo, hi), f, _) = bind-eq-ok (parse_awg_range s 16) _ (rw e at h) in
          inr (lo, hi, (parse_awg_range_iff s 16 lo hi).0 f)
    ]

    from :
        (equal_fold s (codes "off") ≡ true) ⊎ ((lo : ℕ) × (hi : ℕ) × IsRange 16 s lo hi)
        → (t : Bytes) × (parse_persistent_keepalive s ≡ ok t)
    from (inl e) = (codes "0", rw e)
    from (inr (lo, hi, r)) = elim (Bool-cases (equal_fold s (codes "off"))) [
      | inl e ↦ (codes "0", rw e)
      | inr e ↦ (s, rw (e, (parse_awg_range_iff s 16 lo hi).1 r))
    ]

check_peer_iff : (p : Peer) → (check_peer p ≡ ok tt) ↔ KeepaliveFits p
unfolding check_peer
check_peer_iff p = go p.persistent_keepalive
  where
    go :
        (v : Bytes)
        → ((if is_empty v
              then ok tt
              else checked (map_err bad_keepalive (parse_persistent_keepalive v)))
            ≡ ok tt)
          ↔ ((v ≡ [])
              ⊎ (equal_fold v (codes "off") ≡ true)
              ⊎ ((lo : ℕ) × (hi : ℕ) × IsRange 16 v lo hi))
    go [] = (λ h. inl refl, λ h. refl)
    go (c ∷ cs) = (to, from)
      where
        to :
            checked (map_err bad_keepalive (parse_persistent_keepalive (c ∷ cs))) ≡ ok tt
            → ((c ∷ cs) ≡ [])
              ⊎ (equal_fold (c ∷ cs) (codes "off") ≡ true)
              ⊎ ((lo : ℕ) × (hi : ℕ) × IsRange 16 (c ∷ cs) lo hi)
        to h =
            let (t, e) =
              (checked_iff (map_err bad_keepalive (parse_persistent_keepalive (c ∷ cs)))).0 h in
            inr
              ((parse_persistent_keepalive_iff (c ∷ cs)).0 (t, (map_err_iff bad_keepalive _ t).0 e))

        from :
            ((c ∷ cs) ≡ [])
              ⊎ (equal_fold (c ∷ cs) (codes "off") ≡ true)
              ⊎ ((lo : ℕ) × (hi : ℕ) × IsRange 16 (c ∷ cs) lo hi)
            → checked (map_err bad_keepalive (parse_persistent_keepalive (c ∷ cs))) ≡ ok tt
        from (inl e) = cc
        from (inr h) = let (t, e) = (parse_persistent_keepalive_iff (c ∷ cs)).1 h in rw e

for_each_as {κ} :
    {A : Type 0} {P : A → Type κ} (f : A → Result AwgError (Unit {0}))
    → ((x : A) → (f x ≡ ok tt) ↔ P x)
    → (xs : List A) → (for_each f xs ≡ ok tt) ↔ All P xs
for_each_as f e xs = (
  λ h. All-weaken (λ x. (e x).0) xs ((for_each_iff f xs).0 h),
  λ a. (for_each_iff f xs).1 (All-weaken (λ x. (e x).1) xs a),
)

validate_awg-IsAwg : (lower : ℕ → ℕ) (c : Config) → validate_awg lower c ≡ ok tt → IsAwg lower c
unfolding validate_awg
validate_awg-IsAwg lower c h =
    let (a, h1) = (then_iff (refuse_if _ jmin_exceeds_jmax) _).0 h in
    let (b, h2) = (then_iff (refuse_if _ jmax_exceeds_payload) _).0 h1 in
    let (p, h3) =
      (then_iff (for_each (check_padding (is_protected c.interface)) (paddings c.interface)) _).0
        h2 in
    let (m, h4) = (then_iff (check_headers 1 [] (headers c.interface)) _).0 h3 in
    let (s, h5) = (then_iff (for_each check_setting (settings c.interface)) _).0 h4 in
    let (w, h6) = (then_iff (for_each (check_switch lower) (switches c.interface)) _).0 h5 in
    let (k, n) = (then_iff (for_each check_peer c.peers) _).0 h6 in
    record {
      junk_ordered = ltb-false→le _ _ (refuse_if-eq-ok _ jmin_exceeds_jmax a);
      junk_fits = ltb-false→le _ _ (refuse_if-eq-ok _ jmax_exceeds_payload b);
      paddings_fit =
          (for_each_as (check_padding (is_protected c.interface))
              (check_padding_iff (is_protected c.interface)) (paddings c.interface)).0
            p;
      headers_apart = (check_headers_iff (headers c.interface)).0 m;
      settings_fit = (for_each_as check_setting check_setting_iff (settings c.interface)).0 s;
      switches_fit =
          (for_each_as (check_switch lower) (check_switch_iff lower) (switches c.interface)).0 w;
      keepalives_fit = (for_each_as check_peer check_peer_iff c.peers).0 k;
      packets_fit = (for_each_as check_packet check_packet_iff c.interface.i_packets).0 n;
    }

IsAwg-validate_awg : (lower : ℕ → ℕ) (c : Config) → IsAwg lower c → validate_awg lower c ≡ ok tt
unfolding validate_awg
IsAwg-validate_awg lower c v = (then_iff (refuse_if _ jmin_exceeds_jmax) _).1 (
  (refuse_if_iff _ jmin_exceeds_jmax).1 (le→ltb-false _ _ v.junk_ordered),
  (then_iff (refuse_if _ jmax_exceeds_payload) _).1 (
    (refuse_if_iff _ jmax_exceeds_payload).1 (le→ltb-false _ _ v.junk_fits),
    (then_iff (for_each (check_padding (is_protected c.interface)) (paddings c.interface)) _).1 (
      (for_each_as (check_padding (is_protected c.interface))
            (check_padding_iff (is_protected c.interface)) (paddings c.interface)).1
          v.paddings_fit,
      (then_iff (check_headers 1 [] (headers c.interface)) _).1 (
        (check_headers_iff (headers c.interface)).1 v.headers_apart,
        (then_iff (for_each check_setting (settings c.interface)) _).1 (
          (for_each_as check_setting check_setting_iff (settings c.interface)).1 v.settings_fit,
          (then_iff (for_each (check_switch lower) (switches c.interface)) _).1 (
            (for_each_as (check_switch lower) (check_switch_iff lower) (switches c.interface)).1
                v.switches_fit,
            (then_iff (for_each check_peer c.peers) _).1 (
              (for_each_as check_peer check_peer_iff c.peers).1 v.keepalives_fit,
              (for_each_as check_packet check_packet_iff c.interface.i_packets).1 v.packets_fit,
            ),
          ),
        ),
      ),
    ),
  ),
)

-- A configuration passes `ValidateAWG` exactly if it is as `IsAwg` says: junk sizes in order
-- and within a datagram, paddings within it and long enough to protect a header, headers that are
-- disjoint ranges, settings, switches and keepalives that parse, and packets under the known keys.
pub validate_awg_iff : (lower : ℕ → ℕ) (c : Config) → (validate_awg lower c ≡ ok tt) ↔ IsAwg lower c
validate_awg_iff lower c = (validate_awg-IsAwg lower c, IsAwg-validate_awg lower c)
