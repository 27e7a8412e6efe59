-- ===== src/Conf/Cps/Laws.antt =====
-- `ValidateCPS` of core/conf/awg_validation.go, against the sequences of tags that it means.
use pinus_smart_awg.Common.{
  Bool-cases, List, [], ap, arith, bind-eq-ok, false, inl, inr, length, ltb, of_option,
  of_option-eq-ok, ok, some, suc, zero, ℕ, ◌+◌, ◌<◌, ◌==◌, ◌↔◌, ◌∷◌, ◌≡◌, ◌≤◌,
}
use pinus_smart_awg.Conf.Cps.{
  Counters, CpsTag, account, cps_loop, filler, max_payload, max_spec, max_tags, next_tag, no_tags,
  payload, raw, read_parts, stamp, unclosed_tag, validate_cps,
}
use pinus_smart_awg.Conf.Cps.Elements.{next_tag_complete, next_tag_sound}
use pinus_smart_awg.Conf.Cps.Grammar.{Reads, nothing, one_more}
use pinus_smart_awg.Text.{Bytes}
use pinus_smart_awg.Text.Search.{cut, length-cut}
use pinus_smart_awg.Text.Trim.{fields, length-trim_space, trim_space}

abbrev pub tag_size : CpsTag → ℕ
tag_size (filler n) = n
tag_size (raw n) = n
tag_size stamp = 4
tag_size payload = 0

abbrev pub packet_size : List CpsTag → ℕ
packet_size [] = 0
packet_size (t ∷ ts) = tag_size t + packet_size ts

abbrev is_stamp : CpsTag → ℕ
is_stamp stamp = 1
is_stamp _ = 0

abbrev pub stamps : List CpsTag → ℕ
stamps [] = 0
stamps (t ∷ ts) = is_stamp t + stamps ts

account_exact :
    (s : Counters) (tag : CpsTag) {t : Counters}
    → account s tag ≡ ok t
    → (t.size ≡ s.size + tag_size tag)
      × (t.count ≡ s.count + 1)
      × (t.timestamps ≡ s.timestamps + is_stamp tag)
      × (t.size ≤ max_payload)
      × (t.count ≤ max_tags)
      × ((s.timestamps ≤ 1) → (t.timestamps ≤ 1))
unfolding account
account_exact s (filler n) h = ground arith
account_exact s (raw n) h = ground arith
account_exact s stamp h = ground arith
account_exact s payload h = ground arith

record Counted (s t : Counters) (text : Bytes) (tags : List CpsTag) : Type 0 where
  spelled : Reads text tags
  sized : t.size ≡ s.size + packet_size tags
  counted : t.count ≡ s.count + length tags
  stamped : t.timestamps ≡ s.timestamps + stamps tags
  bounded : (t.size ≤ max_payload) × (t.count ≤ max_tags) × (t.timestamps ≤ 1) × (0 < t.count)

cps_loop-Counted :
    (fuel : ℕ) (s : Counters) (text : Bytes) {t : Counters}
    → (s.size ≤ max_payload) × (s.count ≤ max_tags) × (s.timestamps ≤ 1)
    → cps_loop fuel s text ≡ ok t
    → (tags : List CpsTag) × Counted s t text tags
unfolding cps_loop
cps_loop-Counted fuel s [] {t} b h = (
  [],
  record {
    spelled = nothing;
    sized = ground arith;
    counted = ground arith;
    stamped = ground arith;
    bounded = ground arith;
  },
)
cps_loop-Counted zero s (c ∷ cs) b h = cc
cps_loop-Counted (suc fuel) s (c ∷ cs) {t} b h =
    let ((tag, rest), e, f) = bind-eq-ok (next_tag (c ∷ cs)) _ h in
    let (u, g, k) = bind-eq-ok (account s tag) _ f in
    let x = account_exact s tag g in
    let (tags, r) = cps_loop-Counted fuel u rest {t = t} (x.3, x.4, x.5 b.2) k in
    (
      tag ∷ tags,
      record {
        spelled = one_more (next_tag_sound (c ∷ cs) e) r.spelled;
        sized = omega (arith, r.sized, x.0);
        counted = omega (arith, r.counted, x.1);
        stamped = omega (arith, r.stamped, x.2);
        bounded = r.bounded;
      },
    )

next_tag_nil : {t : CpsTag × Bytes} → next_tag [] ≡ ok t → ⊥
unfolding next_tag
next_tag_nil h = cc

pub next_tag-shorter :
    (s : Bytes) {tag : CpsTag} {rest : Bytes} → next_tag s ≡ ok (tag, rest) → length rest < length s
unfolding next_tag
next_tag-shorter [] h = cc
next_tag-shorter (c ∷ cs) {tag} {rest} h = elim (Bool-cases (c == b'<')) [
  | inr e ↦ cc (rw e at h)
  | inl e ↦
      let ((inside, behind), f, g) =
        bind-eq-ok (of_option unclosed_tag (cut b'>' cs)) _ (rw e at h) in
      let (t, _, k) = bind-eq-ok (read_parts (fields inside)) _ g in
      let same : trim_space behind ≡ rest = cc k in
      let found : cut b'>' cs ≡ some (inside, behind) = of_option-eq-ok unclosed_tag _ f in
      omega (
        arith,
        ap (length {0}) same,
        length-trim_space behind,
        length-cut b'>' cs inside behind found,
      )
]

abbrev after : Counters → CpsTag → Counters
after s tag = record {
  size = s.size + tag_size tag;
  count = s.count + 1;
  timestamps = s.timestamps + is_stamp tag;
}

account_complete :
    (s : Counters) (tag : CpsTag)
    → s.size + tag_size tag ≤ max_payload
    → s.count + 1 ≤ max_tags
    → s.timestamps + is_stamp tag ≤ 1
    → account s tag ≡ ok (after s tag)
unfolding account
account_complete s (filler n) h k l = ground arith
account_complete s (raw n) h k l = ground arith
account_complete s stamp h k l = ground arith
account_complete s payload h k l = ground arith

cps_loop_complete :
    (fuel : ℕ) (s : Counters) {text : Bytes} {tags : List CpsTag}
    → Reads text tags
    → length text ≤ fuel
    → s.size + packet_size tags ≤ max_payload
    → s.count + length tags ≤ max_tags
    → s.timestamps + stamps tags ≤ 1
    → 0 < s.count + length tags
    → (t : Counters) × (cps_loop fuel s text ≡ ok t)
unfolding cps_loop
cps_loop_complete fuel s nothing f h k l m = (s, ground arith)
cps_loop_complete fuel s (one_more {s = []} e r) f h k l m =
    absurd (next_tag_nil (next_tag_complete e))
cps_loop_complete zero s (one_more {s = c ∷ cs} e r) f h k l m = absurd (omega arith)
cps_loop_complete (suc fuel) s (one_more {s = c ∷ cs} {tag = tag} e r) f h k l m =
    let step = next_tag_complete e in
    let (t, g) =
      cps_loop_complete fuel (after s tag) r (omega (arith, next_tag-shorter (c ∷ cs) step))
        (omega arith) (omega arith) (omega arith) (omega arith) in
    (t, rw (step, account_complete s tag (omega arith) (omega arith) (omega arith)) g)

-- What `ValidateCPS` is to accept: white space around at least one and at most 4096 well-formed
-- tags, whose packet fits the payload of a UDP datagram and holds at most one time stamp.
pub record IsCps (spec : Bytes) (tags : List CpsTag) : Type 0 where
  pub short : length spec ≤ max_spec
  pub spelled : Reads (trim_space spec) tags
  pub not_empty : 0 < length tags
  pub few : length tags ≤ max_tags
  pub fits : packet_size tags ≤ max_payload
  pub one_stamp : stamps tags ≤ 1

validate_cps_sound :
    (spec : Bytes) → validate_cps spec ≡ ok tt → (tags : List CpsTag) × IsCps spec tags
unfolding validate_cps
validate_cps_sound spec h = elim (Bool-cases (ltb max_spec (length spec))) [
  | inl e ↦ cc (rw e at h)
  | inr e ↦
      let (t, f, _) = bind-eq-ok (cps_loop (length spec) no_tags (trim_space spec)) _ (rw e at h) in
      let (tags, c) =
        cps_loop-Counted (length spec) no_tags (trim_space spec) {t = t} (omega arith) f in
      (
        tags,
        record {
          short = ground arith;
          spelled = c.spelled;
          not_empty = omega (arith, c.counted, c.bounded);
          few = omega (arith, c.counted, c.bounded);
          fits = omega (arith, c.sized, c.bounded);
          one_stamp = omega (arith, c.stamped, c.bounded);
        },
      )
]

validate_cps_complete :
    (spec : Bytes) (tags : List CpsTag) → IsCps spec tags → validate_cps spec ≡ ok tt
unfolding validate_cps
validate_cps_complete spec tags c =
    let (t, e) =
      cps_loop_complete (length spec) no_tags c.spelled (length-trim_space spec) (omega arith)
        (omega arith) (omega arith) (omega arith) in
    let within : ltb max_spec (length spec) ≡ false = ground arith in rw (within, e)

-- A description is accepted exactly if it has at most 256 KiB and is, without the blanks at its
-- ends, a sequence of 1 to 4096 elements of the grammar `Reads`, with at most one time stamp, whose
-- packet has at most 65507 bytes.
pub validate_cps_iff :
    (spec : Bytes) → (validate_cps spec ≡ ok tt) ↔ ((tags : List CpsTag) × IsCps spec tags)
validate_cps_iff spec = (sound, λ p. complete p.0 p.1)
  where
    sound : validate_cps spec ≡ ok tt → (tags : List CpsTag) × IsCps spec tags
    sound h = validate_cps_sound spec h

    complete : (tags : List CpsTag) → IsCps spec tags → validate_cps spec ≡ ok tt
    complete tags c = validate_cps_complete spec tags c
