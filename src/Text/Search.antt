-- ===== src/Text/Search.antt =====
-- `strings.IndexByte`, `LastIndexByte`, `Contains`, `Split`, prefixes and suffixes.
use mathlib.Core.Option
use pinus_smart_awg.Common.{
  All, Bool, Bool-cases, List, Option, [], all, and_true, ap, arith, drop, false, if◌then◌else◌,
  inl, inr, is_empty, length, none, not, refl, reverse, some, suc, take, true, ℕ, ◌&&◌, ◌++◌, ◌+◌,
  ◌-◌, ◌==◌, ◌∙◌, ◌∷◌, ◌≡◌, ◌≢◌,
}
use pinus_smart_awg.Text.{Bytes}

abbrev pub before : ℕ → Option (Bytes × Bytes) → Option (Bytes × Bytes)
before x none = none
before x (some (a, b)) = some (x ∷ a, b)

-- The part before the first `c` and the part behind it, or `none`: `i := IndexByte(s, c)` with
-- `s[:i]` and `s[i+1:]`.
unfoldable pub cut : ℕ → Bytes → Option (Bytes × Bytes)
cut c [] = none
cut c (x ∷ xs) = let rest = before x (cut c xs) in if x == c then some ([], xs) else rest

-- `IndexByte(s, c)`, with `none` for -1
unfoldable pub index_byte : ℕ → Bytes → Option ℕ
index_byte c [] = none
index_byte c (x ∷ xs) =
    let rest = Option.map suc (index_byte c xs) in if x == c then some 0 else rest

-- `s[:LastIndexByte(s, c)]` and the part behind that byte
unfoldable pub cut_last : ℕ → Bytes → Option (Bytes × Bytes)
unfolding cut
cut_last c s = Option.map (λ (p : Bytes × Bytes). (reverse p.1, reverse p.0)) (cut c (reverse s))

unfoldable pub contains_byte : ℕ → Bytes → Bool
contains_byte c [] = false
contains_byte c (x ∷ xs) = elim (x == c) [ true ↦ true | false ↦ contains_byte c xs ]

-- `strings.ContainsAny(s, chars)` for ASCII `chars`
unfoldable pub contains_any : Bytes → Bytes → Bool
unfolding contains_byte
contains_any chars [] = false
contains_any chars (x ∷ xs) = elim (contains_byte x chars) [
  | true ↦ true
  | false ↦ contains_any chars xs
]

unfoldable pub has_prefix : Bytes → Bytes → Bool
has_prefix s [] = true
has_prefix [] (p ∷ ps) = false
has_prefix (x ∷ xs) (p ∷ ps) = x == p && has_prefix xs ps

unfoldable pub has_suffix : Bytes → Bytes → Bool
unfolding has_prefix
has_suffix s p = has_prefix (reverse s) (reverse p)

unfoldable pub trim_prefix : Bytes → Bytes → Bytes
unfolding has_prefix
trim_prefix s p = if has_prefix s p then drop (length p) s else s

unfoldable pub trim_suffix : Bytes → Bytes → Bytes
unfolding has_suffix
trim_suffix s p = if has_suffix s p then take (length s - length p) s else s

-- `strings.Contains(s, sub)`
unfoldable pub contains : Bytes → Bytes → Bool
unfolding has_prefix
contains [] sub = is_empty sub
contains (x ∷ xs) sub = elim (has_prefix (x ∷ xs) sub) [ true ↦ true | false ↦ contains xs sub ]

abbrev cons_first : ℕ → List Bytes → List Bytes
cons_first x [] = (x ∷ []) ∷ []
cons_first x (p ∷ ps) = (x ∷ p) ∷ ps

-- `strings.Split(s, sep)` for a `sep` of one byte
unfoldable pub split : ℕ → Bytes → List Bytes
split c [] = [] ∷ []
split c (x ∷ xs) = let rest = split c xs in if x == c then [] ∷ rest else cons_first x rest

-- `strings.Join(parts, sep)`
unfoldable pub join : Bytes → List Bytes → Bytes
join sep [] = []
join sep (p ∷ []) = p
join sep (p ∷ q ∷ ps) = p ++ (sep ++ join sep (q ∷ ps))

abbrev pub Free : ℕ → Bytes → Type 0
Free c = All (λ x. (x == c) ≡ false)

pub contains_byte-Free : (c : ℕ) (s : Bytes) → Free c s → contains_byte c s ≡ false
unfolding contains_byte
contains_byte-Free c [] h = refl
contains_byte-Free c (x ∷ xs) h = rw (h.0, contains_byte) (contains_byte-Free c xs h.1)

pub cut-append : (c : ℕ) (a b : Bytes) → Free c a → cut c (a ++ c ∷ b) ≡ some (a, b)
unfolding cut
cut-append c [] b h = ground arith
cut-append c (x ∷ a) b h = rw (h.0, cut-append c a b h.1)

pub cut-Free : (c : ℕ) (a : Bytes) → Free c a → cut c a ≡ none
unfolding cut
cut-Free c [] h = refl
cut-Free c (x ∷ a) h = rw (h.0, cut-Free c a h.1)

pub split-Free : (c : ℕ) (a : Bytes) → Free c a → split c a ≡ a ∷ []
unfolding split
split-Free c [] h = refl
split-Free c (x ∷ a) h = rw (h.0, split-Free c a h.1)

pub split-append : (c : ℕ) (a b : Bytes) → Free c a → split c (a ++ c ∷ b) ≡ a ∷ split c b
unfolding split
split-append c [] b h = ground arith
split-append c (x ∷ a) b h = rw (h.0, split-append c a b h.1)

pub split-ne-nil : (c : ℕ) (s : Bytes) → split c s ≢ []
unfolding split
split-ne-nil c [] h = cc
split-ne-nil c (x ∷ s) h = elim (Bool-cases (x == c)) [
  | inl e ↦ cc (rw e at h)
  | inr e ↦ go (split c s) (rw e at h)
]
  where
    go : (ps : List Bytes) → cons_first x ps ≡ [] → ⊥
    go [] k = cc
    go (p ∷ ps) k = cc

join-cons_first :
    (c x : ℕ) (s : Bytes) → join (c ∷ []) (cons_first x (split c s)) ≡ x ∷ join (c ∷ []) (split c s)
unfolding join
join-cons_first c x s = go (split c s) (split-ne-nil c s)
  where
    go : (ps : List Bytes) → ps ≢ [] → join (c ∷ []) (cons_first x ps) ≡ x ∷ join (c ∷ []) ps
    go [] h = absurd (h refl)
    go (p ∷ []) h = refl
    go (p ∷ q ∷ ps) h = refl

join_nil : (c : ℕ) (ps : List Bytes) → ps ≢ [] → join (c ∷ []) ([] ∷ ps) ≡ c ∷ join (c ∷ []) ps
unfolding join
join_nil c [] h = absurd (h refl)
join_nil c (p ∷ ps) h = refl

pub join-split : (c : ℕ) (s : Bytes) → join (c ∷ []) (split c s) ≡ s
unfolding split
join-split c [] = unfold join in refl
join-split c (x ∷ s) = elim (Bool-cases (x == c)) [
  | inl e ↦ rw e (join_nil c (split c s) (split-ne-nil c s) ∙ rw (join-split c s) (ground arith))
  | inr e ↦ rw e (join-cons_first c x s ∙ ap (◌∷◌ x) (join-split c s))
]

pub length-cut :
    (c : ℕ) (s a b : Bytes) → cut c s ≡ some (a, b) → length s ≡ length a + length b + 1
unfolding cut
length-cut c [] a b h = cc
length-cut c (x ∷ s) a b h = elim (Bool-cases (x == c)) [
  | inl e ↦ ground arith
  | inr e ↦ go (cut c s) (λ p q. length-cut c s p q) (rw e at h)
]
  where
    go :
        (o : Option (Bytes × Bytes))
        → ((p q : Bytes) → o ≡ some (p, q) → length s ≡ length p + length q + 1)
        → before x o ≡ some (a, b)
        → length (x ∷ s) ≡ length a + length b + 1
    go none rec k = cc
    go (some (p, q)) rec k = ground (arith, rec p q refl)

pub contains_byte-all :
    (p : ℕ → Bool) (chars : Bytes) (x : ℕ)
    → all (λ c. not (p c)) chars ≡ true
    → p x ≡ true
    → contains_byte x chars ≡ false
unfolding contains_byte
contains_byte-all p [] x h k = refl
contains_byte-all p (c ∷ chars) x h k =
    let both = and_true (not (p c)) (all (λ d. not (p d)) chars) h in
    elim (Bool-cases (c == x)) [
      | inl e ↦
          let same : c ≡ x = ground arith in
          let bad : not (p c) ≡ false = rw (same, k) in cc (both.0, bad)
      | inr e ↦ rw (e, contains_byte) (contains_byte-all p chars x both.1 k)
    ]
