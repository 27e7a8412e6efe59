-- ===== src/Updater/Versions/Laws.antt =====
-- Newer versions: an order on the numbers between the dots.
use pinus_smart_awg.Common.{
  All, Bool, Bool-cases, List, Option, Result, [], ap, arith, bind-eq-ok, err, false, if◌then◌else◌,
  inl, inr, is_empty, length, ltb, ltb-false→le, map, none, ok, ok-injective, refl, refuse_if, some,
  subst, true, ℕ, ◌&&◌, ◌++◌, ◌<◌, ◌==◌, ◌>>=◌, ◌>>◌, ◌^◌, ◌||◌, ◌∙◌, ◌∷◌, ◌≡◌, ◌≢◌, ◌≤◌,
}
use pinus_smart_awg.Text.{Bytes, codes, is_digit}
use pinus_smart_awg.Text.Number.{Digits, itoa, itoa-Digits, itoa-ne-nil, parse_uint-itoa}
use pinus_smart_awg.Text.Search.{Free, join, split, split-Free, split-append}
use pinus_smart_awg.Updater.Versions.{
  UpdateFound, VersionError, compare_parts, decide_part, dot, find_candidate, installer_version,
  is_installer, is_newer_installer, version_newer_than, version_part, version_too_long,
}

-- the lexicographic order of two versions, the shorter one continued by zeros
unfoldable pub is_newer_version : List ℕ → List ℕ → Bool
is_newer_version [] [] = false
is_newer_version (c ∷ cs) [] = ltb 0 c || is_newer_version cs []
is_newer_version [] (o ∷ os) = (0 == o) && is_newer_version [] os
is_newer_version (c ∷ cs) (o ∷ os) = ltb o c || ((c == o) && is_newer_version cs os)

-- the text of a version
unfoldable pub version_text : List ℕ → Bytes
version_text ns = join (codes ".") (map itoa ns)

version_part-itoa : (n : ℕ) → n < 2 ^ 16 → version_part (itoa n) ≡ ok n
unfolding version_part
version_part-itoa n h = rw (not_empty (itoa n) (itoa-ne-nil n), parse_uint-itoa 16 n h) refl
  where
    not_empty : (s : Bytes) → s ≢ [] → is_empty s ≡ false
    not_empty [] k = absurd (k refl)
    not_empty (c ∷ s) k = refl

decide_part_lem :
    (rest : Result VersionError Bool) (r : Bool) (c o : ℕ)
    → rest ≡ ok r
    → decide_part rest c o ≡ ok (ltb o c || ((c == o) && r))
decide_part_lem rest r c o h = rw h (go r c o)
  where
    go : (r : Bool) (c o : ℕ) → decide_part (ok r) c o ≡ ok (ltb o c || ((c == o) && r))
    go r c o = ground arith

decide_part_swap :
    (rest back : Result VersionError Bool) (x y : ℕ)
    → (rest ≡ ok true → back ≡ ok false)
    → decide_part rest x y ≡ ok true
    → decide_part back y x ≡ ok false
decide_part_swap rest back x y f h = ground arith

decide_part_trans :
    (p q r : Result VersionError Bool) (x y z : ℕ)
    → (p ≡ ok true → q ≡ ok true → r ≡ ok true)
    → decide_part p x y ≡ ok true
    → decide_part q y z ≡ ok true
    → decide_part r x z ≡ ok true
decide_part_trans p q r x y z f h k = ground arith

-- one round of the loop, on parts that are read or missing
abbrev round_of :
    Result VersionError ℕ
    → Result VersionError ℕ
    → Result VersionError Bool
    → Result VersionError Bool
round_of m n rest = m >>= λ x. n >>= λ y. decide_part rest x y

round_of_ok :
    {m n : Result VersionError ℕ} {rest : Result VersionError Bool} {c o : ℕ} {r : Bool}
    → m ≡ ok c
    → n ≡ ok o
    → rest ≡ ok r
    → round_of m n rest ≡ ok (ltb o c || ((c == o) && r))
round_of_ok {rest = rest} {c = c} {o = o} {r = r} h k l = rw (h, k) (decide_part_lem rest r c o l)

round_of_swap :
    (m n : Result VersionError ℕ) {p q : Result VersionError Bool}
    → (p ≡ ok true → q ≡ ok false)
    → round_of m n p ≡ ok true
    → round_of n m q ≡ ok false
round_of_swap (ok x) (ok y) {p} {q} f h = decide_part_swap p q x y f h
round_of_swap (ok x) (err e) f h = cc
round_of_swap (err e) n f h = cc

round_of_trans :
    (m n k : Result VersionError ℕ) {p q r : Result VersionError Bool}
    → (p ≡ ok true → q ≡ ok true → r ≡ ok true)
    → round_of m n p ≡ ok true
    → round_of n k q ≡ ok true
    → round_of m k r ≡ ok true
round_of_trans (ok x) (ok y) (ok z) {p} {q} {r} f h l = decide_part_trans p q r x y z f h l
round_of_trans (err e) n k f h l = cc
round_of_trans (ok x) (err e) k f h l = cc
round_of_trans (ok x) (ok y) (err e) f h l = cc

compare_parts-itoa :
    (cs os : List ℕ)
    → All (λ n. n < 2 ^ 16) cs
    → All (λ n. n < 2 ^ 16) os
    → compare_parts (map itoa cs) (map itoa os) ≡ ok (is_newer_version cs os)
unfolding compare_parts is_newer_version
compare_parts-itoa [] [] h k = refl
compare_parts-itoa (c ∷ cs) [] h k =
    round_of_ok (version_part-itoa c h.0) refl (compare_parts-itoa cs [] h.1 tt)
    ∙ ap ok (zero_part c (is_newer_version cs []))
  where
    zero_part : (c : ℕ) (r : Bool) → (ltb 0 c || ((c == 0) && r)) ≡ (ltb 0 c || r)
    zero_part c r = ground arith
compare_parts-itoa [] (o ∷ os) h k =
    round_of_ok refl (version_part-itoa o k.0) (compare_parts-itoa [] os tt k.1)
    ∙ ap ok (zero_part o (is_newer_version [] os))
  where
    zero_part : (o : ℕ) (r : Bool) → (ltb o 0 || ((0 == o) && r)) ≡ ((0 == o) && r)
    zero_part o r = ground arith
compare_parts-itoa (c ∷ cs) (o ∷ os) h k =
    round_of_ok (version_part-itoa c h.0) (version_part-itoa o k.0)
      (compare_parts-itoa cs os h.1 k.1)

compare_parts_swap :
    (cs os : List Bytes) → compare_parts cs os ≡ ok true → compare_parts os cs ≡ ok false
unfolding compare_parts
compare_parts_swap [] [] h = cc
compare_parts_swap (c ∷ cs) [] h =
    round_of_swap (version_part c) (ok 0) (compare_parts_swap cs []) h
compare_parts_swap [] (o ∷ os) h =
    round_of_swap (ok 0) (version_part o) (compare_parts_swap [] os) h
compare_parts_swap (c ∷ cs) (o ∷ os) h =
    round_of_swap (version_part c) (version_part o) (compare_parts_swap cs os) h

compare_parts_trans :
    (cs os ps : List Bytes)
    → compare_parts cs os ≡ ok true
    → compare_parts os ps ≡ ok true
    → compare_parts cs ps ≡ ok true
unfolding compare_parts
compare_parts_trans [] [] ps h k = cc
compare_parts_trans [] (o ∷ os) [] h k =
    round_of_trans (ok 0) (version_part o) (ok 0) (compare_parts_trans [] os []) h k
compare_parts_trans [] (o ∷ os) (p ∷ ps) h k =
    round_of_trans (ok 0) (version_part o) (version_part p) (compare_parts_trans [] os ps) h k
compare_parts_trans (c ∷ cs) [] [] h k = cc
compare_parts_trans (c ∷ cs) [] (p ∷ ps) h k =
    round_of_trans (version_part c) (ok 0) (version_part p) (compare_parts_trans cs [] ps) h k
compare_parts_trans (c ∷ cs) (o ∷ os) [] h k =
    round_of_trans (version_part c) (version_part o) (ok 0) (compare_parts_trans cs os []) h k
compare_parts_trans (c ∷ cs) (o ∷ os) (p ∷ ps) h k =
    round_of_trans (version_part c) (version_part o) (version_part p) (compare_parts_trans cs os ps)
      h k

-- Being newer is a strict order on the texts of versions: if a second version is newer than a first
-- one, and a third one newer than the second, then the third is newer than the first, and the first
-- is not newer than the second.
pub version_newer_than_order :
    (v w z : Bytes)
    → version_newer_than v w ≡ ok true
    → version_newer_than w z ≡ ok true
    → (version_newer_than v z ≡ ok true) × (version_newer_than w v ≡ ok false)
unfolding version_newer_than
version_newer_than_order v w z h k = (
  compare_parts_trans (split dot z) (split dot w) (split dot v) k h,
  compare_parts_swap (split dot w) (split dot v) h,
)

Digits-Free : (s : Bytes) → Digits s → Free dot s
Digits-Free [] h = tt
Digits-Free (c ∷ s) h = (no_dot c h.0, Digits-Free s h.1)
  where
    no_dot : (c : ℕ) → is_digit c ≡ true → (c == dot) ≡ false
    no_dot c h = ground arith

split-version_text : (n : ℕ) (ns : List ℕ) → split dot (version_text (n ∷ ns)) ≡ map itoa (n ∷ ns)
unfolding version_text join
split-version_text n [] = split-Free dot (itoa n) (Digits-Free (itoa n) (itoa-Digits n))
split-version_text n (m ∷ ns) =
    split-append dot (itoa n) (version_text (m ∷ ns)) (Digits-Free (itoa n) (itoa-Digits n))
    ∙ ap (◌∷◌ (itoa n)) (split-version_text m ns)

-- Of two versions of 16-bit numbers the one is newer than the other exactly if its numbers are
-- greater in the lexicographic order, where a missing number is 0.
pub version_newer_than-text :
    (c o : ℕ) (cs os : List ℕ)
    → All (λ n. n < 2 ^ 16) (c ∷ cs)
    → All (λ n. n < 2 ^ 16) (o ∷ os)
    → version_newer_than (version_text (o ∷ os)) (version_text (c ∷ cs))
      ≡ ok (is_newer_version (c ∷ cs) (o ∷ os))
unfolding version_newer_than
version_newer_than-text c o cs os h k =
    rw (split-version_text c cs, split-version_text o os) (compare_parts-itoa (c ∷ cs) (o ∷ os) h k)

-- What `findCandidate` may return: an installer that is newer than this program, the first of the
-- list that is, or none, if there is none.
abbrev pub Chosen : Bytes → Bytes → List UpdateFound → Option UpdateFound → Type 0
Chosen ours arch list none = All (λ f. is_newer_installer ours arch f.0 ≡ ok false) list
Chosen ours arch list (some u) =
    (earlier : List UpdateFound) × (later : List UpdateFound) × (list ≡ earlier ++ u ∷ later)
    × All (λ f. is_newer_installer ours arch f.0 ≡ ok false) earlier
    × (is_installer arch u.0 ≡ true)
    × (length (installer_version arch u.0) ≤ 128)
    × (version_newer_than ours (installer_version arch u.0) ≡ ok true)

is_newer_installer-eq-true :
    (ours arch name : Bytes)
    → is_newer_installer ours arch name ≡ ok true
    → (is_installer arch name ≡ true)
      × (length (installer_version arch name) ≤ 128)
      × (version_newer_than ours (installer_version arch name) ≡ ok true)
unfolding is_newer_installer
is_newer_installer-eq-true ours arch name h =
    go (is_installer arch name) (installer_version arch name) h
  where
    go :
        (b : Bool) (v : Bytes)
        → (if b
            then (refuse_if (ltb 128 (length v)) version_too_long >> version_newer_than ours v)
            else ok false)
          ≡ ok true
        → (b ≡ true) × (length v ≤ 128) × (version_newer_than ours v ≡ ok true)
    go false v h = cc
    go true v h = elim (Bool-cases (ltb 128 (length v))) [
      | inl e ↦ cc (rw e at h)
      | inr e ↦ (refl, ltb-false→le 128 (length v) e, rw e at h)
    ]

Chosen-cons :
    (ours arch : Bytes) (f : UpdateFound) (list : List UpdateFound) (r : Option UpdateFound)
    → is_newer_installer ours arch f.0 ≡ ok false
    → Chosen ours arch list r
    → Chosen ours arch (f ∷ list) r
Chosen-cons ours arch f list none h k = (h, k)
Chosen-cons ours arch f list (some u) h (earlier, later, e, old, a, b, c) =
    (f ∷ earlier, later, ap (◌∷◌ f) e, (h, old), a, b, c)

-- If `findCandidate` returns no error, an update that it returns is an installer of the list for
-- this architecture with a newer version of at most 128 bytes, and no entry before it is an update;
-- if it returns none, no entry of the list is an update.
pub find_candidate-Chosen :
    (ours arch : Bytes) (list : List UpdateFound) {r : Option UpdateFound}
    → find_candidate ours arch list ≡ ok r
    → Chosen ours arch list r
unfolding find_candidate
find_candidate-Chosen ours arch [] {r = none} h = tt
find_candidate-Chosen ours arch [] {r = some u} h = cc
find_candidate-Chosen ours arch (f ∷ list) {r} h =
    let parts =
      bind-eq-ok (is_newer_installer ours arch f.0)
        (λ newer. if newer then ok (some f) else find_candidate ours arch list) h in
    go parts.0 parts.1 parts.2 (λ k. find_candidate-Chosen ours arch list k)
  where
    go :
        (newer : Bool)
        → is_newer_installer ours arch f.0 ≡ ok newer
        → (if newer then ok (some f) else find_candidate ours arch list) ≡ ok r
        → (find_candidate ours arch list ≡ ok r → Chosen ours arch list r)
        → Chosen ours arch (f ∷ list) r
    go true e k ih =
        subst (Chosen ours arch (f ∷ list)) (ok-injective k) (
          let u = is_newer_installer-eq-true ours arch f.0 e in ([], list, refl, tt, u.0, u.1, u.2))
    go false e k ih = Chosen-cons ours arch f list r e (ih k)
