-- ===== src/Conf/Cps/Elements.antt =====
-- The elements that `ValidateCPS` of core/conf/awg_validation.go reads, against their grammar.
use pinus_smart_awg.Common.{
  ==_iff, Bool-cases, List, Option, [], ap, bind-eq-ok, err, false, if◌then◌else◌, inl, inr,
  is_empty, none, of_option, of_option-eq-ok, ok, ok-injective, refl, some, subst, sym, true, ℕ,
  ◌++◌, ◌==◌, ◌∙◌, ◌∷◌, ◌≡◌,
}
use pinus_smart_awg.Conf.Cps.{
  CpsError, CpsTag, data_argument, next_tag, payload, read_parts, read_tag, stamp, stamp_argument,
  unclosed_tag,
}
use pinus_smart_awg.Conf.Cps.Grammar.{
  AreWords, IsElement, IsFiller, IsPayload, Means, alone, both, bracketed, carried, data_bytes,
  data_text, filled, hex_given, random_bytes, random_digits, random_letters, size_field, timed,
}
use pinus_smart_awg.Conf.Cps.Tags.{
  filler_tag_complete, filler_tag_sound, raw_tag_complete, raw_tag_sound,
}
use pinus_smart_awg.Text.{Bytes, codes, equal, equal_iff, one_of}
use pinus_smart_awg.Text.Search.{Free, before, cut, cut-append}
use pinus_smart_awg.Text.Trim.{fields, trim_space}

named : (P : Bytes → Type 0) {word : Bytes} (v : Bytes) → P v → equal word v ≡ true → P word
named P {word} v k h = subst P (sym ((equal_iff word v).0 h)) k

one_of_fillers :
    (word : Bytes)
    → one_of word (codes "r" ∷ codes "rc" ∷ codes "rd" ∷ codes "dz" ∷ []) ≡ true
    → IsFiller word
unfolding one_of
one_of_fillers word h = elim (Bool-cases (equal word (codes "r"))) [
  | inl e ↦ named IsFiller (codes "r") random_bytes e
  | inr e ↦ elim (Bool-cases (equal word (codes "rc"))) [
    | inl f ↦ named IsFiller (codes "rc") random_letters f
    | inr f ↦ elim (Bool-cases (equal word (codes "rd"))) [
      | inl g ↦ named IsFiller (codes "rd") random_digits g
      | inr g ↦ elim (Bool-cases (equal word (codes "dz"))) [
        | inl i ↦ named IsFiller (codes "dz") size_field i
        | inr i ↦ cc (rw (one_of, e, f, g, i) at h)
      ]
    ]
  ]
]

one_of_payloads : (word : Bytes) → one_of word (codes "d" ∷ codes "ds" ∷ []) ≡ true → IsPayload word
unfolding one_of
one_of_payloads word h = elim (Bool-cases (equal word (codes "d"))) [
  | inl e ↦ named IsPayload (codes "d") data_bytes e
  | inr e ↦ elim (Bool-cases (equal word (codes "ds"))) [
    | inl f ↦ named IsPayload (codes "ds") data_text f
    | inr f ↦ cc (rw (one_of, e, f) at h)
  ]
]

read_tag_sound : (word arg : Bytes) {t : CpsTag} → read_tag word arg ≡ ok t → Means word arg t
unfolding read_tag
read_tag_sound word arg {t} h =
    elim (Bool-cases (one_of word (codes "r" ∷ codes "rc" ∷ codes "rd" ∷ codes "dz" ∷ []))) [
      | inl e ↦
          let (n, b, same) = filler_tag_sound arg (rw e at h) in
          subst (Means word arg) (sym same) (filled (one_of_fillers word e) b)
      | inr e ↦ elim (Bool-cases (equal word (codes "b"))) [
        | inl f ↦
            subst (λ w. Means w arg t) (sym ((equal_iff word (codes "b")).0 f))
              (raw_tag_sound arg (rw (e, f) at h))
        | inr f ↦ elim (Bool-cases (equal word (codes "t"))) [
          | inl g ↦
              subst (λ w. Means w arg t) (sym ((equal_iff word (codes "t")).0 g))
                (no_argument arg stamp_argument stamp timed (rw (e, f, g) at h))
          | inr g ↦ elim (Bool-cases (one_of word (codes "d" ∷ codes "ds" ∷ []))) [
            | inl i ↦
                no_argument arg data_argument payload (carried (one_of_payloads word i))
                  (rw (e, f, g, i) at h)
            | inr i ↦ cc (rw (e, f, g, i) at h)
          ]
        ]
      ]
    ]
  where
    no_argument :
        {w : Bytes} (arg : Bytes) (x : CpsError) (u : CpsTag) {t : CpsTag}
        → Means w [] u
        → (if is_empty arg then ok u else err x) ≡ ok t
        → Means w arg t
    no_argument {w} [] x u m k = subst (Means w []) (ok-injective k) m
    no_argument (c ∷ cs) x u m k = cc k

read_tag_complete : {word arg : Bytes} {t : CpsTag} → Means word arg t → read_tag word arg ≡ ok t
unfolding read_tag one_of equal
read_tag_complete {arg = arg} (filled random_bytes b) = filler_tag_complete arg b
read_tag_complete {arg = arg} (filled random_letters b) = filler_tag_complete arg b
read_tag_complete {arg = arg} (filled random_digits b) = filler_tag_complete arg b
read_tag_complete {arg = arg} (filled size_field b) = filler_tag_complete arg b
read_tag_complete {arg = arg} (hex_given h k) = raw_tag_complete arg h k
read_tag_complete timed = refl
read_tag_complete (carried data_bytes) = refl
read_tag_complete (carried data_text) = refl

read_parts_sound : (parts : List Bytes) {t : CpsTag} → read_parts parts ≡ ok t → AreWords parts t
unfolding read_parts
read_parts_sound [] h = cc h
read_parts_sound (word ∷ []) h = alone (read_tag_sound word [] h)
read_parts_sound (word ∷ arg ∷ []) h = both (read_tag_sound word arg h)
read_parts_sound (word ∷ arg ∷ _ ∷ _) h = cc h

read_parts_complete : {parts : List Bytes} {t : CpsTag} → AreWords parts t → read_parts parts ≡ ok t
unfolding read_parts
read_parts_complete (alone m) = read_tag_complete m
read_parts_complete (both m) = read_tag_complete m

cut-eq-some : (c : ℕ) (s a b : Bytes) → cut c s ≡ some (a, b) → (s ≡ a ++ c ∷ b) × Free c a
unfolding cut
cut-eq-some c [] a b h = cc h
cut-eq-some c (x ∷ s) a b h = elim (Bool-cases (x == c)) [
  | inl e ↦
      let found : some ([], s) ≡ some (a, b) = rw e at h in
      let same : ([], s) ≡ (a, b) = cc found in
      subst {A = Bytes × Bytes} (λ p. (x ∷ s ≡ p.0 ++ c ∷ p.1) × Free c p.0) same
        (ap (λ y. y ∷ s) ((==_iff x c).0 e), tt)
  | inr e ↦ go (cut c s) (λ p q. cut-eq-some c s p q) e (rw e at h)
]
  where
    go :
        (o : Option (Bytes × Bytes))
        → ((p q : Bytes) → o ≡ some (p, q) → (s ≡ p ++ c ∷ q) × Free c p)
        → (x == c) ≡ false
        → before x o ≡ some (a, b)
        → (x ∷ s ≡ a ++ c ∷ b) × Free c a
    go none rec other k = cc k
    go (some (p, q)) rec other k =
        let (shape, free) = rec p q refl in
        let same : (x ∷ p, q) ≡ (a, b) = cc k in
        subst {A = Bytes × Bytes} (λ p. (x ∷ s ≡ p.0 ++ c ∷ p.1) × Free c p.0) same
          (ap (◌∷◌ x) shape, (other, free))

pub next_tag_sound :
    (s : Bytes) {t : CpsTag} {rest : Bytes} → next_tag s ≡ ok (t, rest) → IsElement s t rest
unfolding next_tag
next_tag_sound [] h = cc h
next_tag_sound (c ∷ cs) {t} {rest} h = elim (Bool-cases (c == b'<')) [
  | inr e ↦ cc (rw e at h)
  | inl e ↦
      let ((inside, behind), f, g) =
        bind-eq-ok (of_option unclosed_tag (cut b'>' cs)) _ (rw e at h) in
      let (u, parsed, k) = bind-eq-ok (read_parts (fields inside)) _ g in
      let found : cut b'>' cs ≡ some (inside, behind) = of_option-eq-ok unclosed_tag _ f in
      let (shape, free) = cut-eq-some b'>' cs inside behind found in
      let whole : b'<' ∷ (inside ++ b'>' ∷ behind) ≡ c ∷ cs =
        ap (◌∷◌ b'<') (sym shape) ∙ ap (λ y. y ∷ cs) (sym ((==_iff c b'<').0 e)) in
      subst {A = CpsTag × Bytes} (λ p. IsElement (c ∷ cs) p.0 p.1) (cc k)
        (subst (λ w. IsElement w u (trim_space behind)) whole
          (bracketed inside behind free (read_parts_sound (fields inside) parsed)))
]

pub next_tag_complete :
    {s : Bytes} {t : CpsTag} {rest : Bytes} → IsElement s t rest → next_tag s ≡ ok (t, rest)
unfolding next_tag
next_tag_complete (bracketed inside behind free words) =
    rw (cut-append b'>' inside behind free, read_parts_complete words) refl
