-- ===== src/Ringlogger/Line.antt =====
-- The bytes of a line of the log.
use native.Mathlib.Nat
use pinus_smart_awg.Common.{
  All-append, Bool-cases, [], ap, append_assoc, arith, drop, false, inl, inr, length, length-append,
  length-replicate, ltb, ltb-false→le, refl, replicate, some, suc, sym, take, take-length-append,
  zero, ℕ, ◌++◌, ◌+◌, ◌-◌, ◌<◌, ◌==◌, ◌∙◌, ◌∷◌, ◌≡◌, ◌≤◌,
}
use pinus_smart_awg.Ringlogger.{copy_at, fill_line, fitting, line_text, shown}
use pinus_smart_awg.Text.{Bytes, codes}
use pinus_smart_awg.Text.Number.{ℤ}
use pinus_smart_awg.Text.Search.{Free, index_byte}

abbrev pub zeros : ℕ → Bytes
zeros n = replicate n 0

length-zeros : (n : ℕ) → length (zeros n) ≡ n
length-zeros n = length-replicate {A = ℕ} n 0

take_all : (m : ℕ) (b : Bytes) → length b ≤ m → take m b ≡ b
take_all zero [] h = refl
take_all zero (x ∷ b) h = ground arith
take_all (suc m) [] h = refl
take_all (suc m) (x ∷ b) h = ap (◌∷◌ x) (take_all m b (omega (arith, h)))

drop_behind : (a z : Bytes) (m : ℕ) → drop (length a + m) (a ++ z) ≡ drop m z
drop_behind [] z m = rw (Nat.zero-add m) refl
drop_behind (x ∷ a) z m = rw (Nat.suc-add (length a) m) (drop_behind a z m)

drop-replicate : (m n : ℕ) → drop m (zeros n) ≡ zeros (n - m)
drop-replicate zero n = rw (Nat.sub-zero n) refl
drop-replicate (suc m) zero = rw (Nat.zero-sub (suc m)) refl
drop-replicate (suc m) (suc n) = rw (Nat.suc-sub-suc n m) (drop-replicate m n)

replicate-append : (m n : ℕ) → zeros m ++ zeros n ≡ zeros (m + n)
replicate-append zero n = rw (Nat.zero-add n) refl
replicate-append (suc m) n = rw (Nat.suc-add m n) (ap (◌∷◌ 0) (replicate-append m n))

-- a copy behind what is written, into bytes that are still 0
copy_at-zeros :
    (a b : Bytes) (i n : ℕ)
    → i ≡ length a
    → length b ≤ n
    → copy_at i b (a ++ zeros n) ≡ (a ++ b) ++ zeros (n - length b)
unfolding copy_at
copy_at-zeros a b i n e h =
    rw
      (
        e,
        take-length-append a (zeros n),
        length-append a (zeros n),
        length-zeros n,
        take_all (length a + n - length a) b (omega (arith, h)),
        drop_behind a (zeros n) (length b),
        drop-replicate (length b) n,
      )
      (sym (append_assoc a b (zeros (n - length b))))

one_more : (m : ℕ) → 0 < m → suc (m - 1) ≡ m
one_more m h = omega (arith, h)

copy_zero : (i n : ℕ) → i < n → copy_at i (0 ∷ []) (zeros n) ≡ zeros n
copy_zero i n h = rw (sym (zeros_split i n h)) (
    copy_at-zeros (zeros i) (0 ∷ []) i (n - i) (sym (length-zeros i)) (omega (arith, h))
    ∙ shorter i n h)
  where
    zeros_split : (i n : ℕ) → i < n → zeros i ++ zeros (n - i) ≡ zeros n
    zeros_split i n h = replicate-append i (n - i) ∙ ap zeros (omega (arith, h))

    shorter :
        (i n : ℕ) → i < n → (zeros i ++ (0 ∷ [])) ++ zeros (n - i - 1) ≡ zeros i ++ zeros (n - i)
    shorter i n h =
        append_assoc (zeros i) (0 ∷ []) (zeros (n - i - 1))
        ∙ ap (λ m. zeros i ++ zeros m) (one_more (n - i) (omega (arith, h)))

length-take : (n : ℕ) (s : Bytes) → length (take n s) ≤ n
length-take zero s = omega arith
length-take (suc n) [] = omega arith
length-take (suc n) (x ∷ s) = omega (arith, length-take n s)

-- the visible text of a message
abbrev pub line_of : Bytes → Bytes → Bytes
line_of tag p = b'[' ∷ (tag ++ (b']' ∷ b' ' ∷ fitting tag p))

length-fitting : (tag p : Bytes) → length tag ≤ 5 → 3 + length (fitting tag p) + length tag ≤ 511
unfolding fitting
length-fitting tag p h = elim (Bool-cases (ltb 511 (3 + length p + length tag))) [
  | inl e ↦ rw e (omega (arith, length-take (508 - length tag) p, h))
  | inr e ↦ rw e (omega (arith, ltb-false→le 511 (3 + length p + length tag) e))
]

length-line_of : (tag p : Bytes) → length (line_of tag p) ≡ 3 + length (fitting tag p) + length tag
length-line_of tag p = omega (arith, length-append tag (b']' ∷ b' ' ∷ fitting tag p))

take_front : (a p : Bytes) (n : ℕ) → take (length a + n) (a ++ p) ≡ a ++ take n p
take_front [] p n = rw (Nat.zero-add n) refl
take_front (x ∷ a) p n = rw (Nat.suc-add (length a) n) (ap (◌∷◌ x) (take_front a p n))

take-fitting : (tag p : Bytes) → length tag ≤ 5 → take (508 - length tag) p ≡ fitting tag p
unfolding fitting
take-fitting tag p h = elim (Bool-cases (ltb 511 (3 + length p + length tag))) [
  | inl e ↦ rw e refl
  | inr e ↦ rw e (
      take_all (508 - length tag) p (omega (arith, ltb-false→le 511 (3 + length p + length tag) e)))
]

-- A line is the first 511 bytes of the whole text.
pub line_of_lem :
    (tag p : Bytes)
    → length tag ≤ 5
    → line_of tag p ≡ take 511 (codes "[" ++ (tag ++ (codes "] " ++ p)))
line_of_lem tag p h =
    let room : length tag + (510 - length tag) ≡ 510 = omega (arith, h) in
    let two : 510 - length tag ≡ suc (suc (508 - length tag)) = omega (arith, h) in
    ap (λ t. b'[' ∷ (tag ++ (b']' ∷ b' ' ∷ t))) (sym (take-fitting tag p h))
    ∙ ap (λ n. b'[' ∷ (tag ++ take n (codes "] " ++ p))) (sym two)
    ∙ ap (◌∷◌ b'[') (sym (take_front tag (codes "] " ++ p) (510 - length tag)))
    ∙ ap (λ n. b'[' ∷ take n (tag ++ (codes "] " ++ p))) room

copy_first : (c x : ℕ) (xs : Bytes) → copy_at 0 (c ∷ []) (x ∷ xs) ≡ c ∷ xs
unfolding copy_at
copy_first c x xs = rw (take_all (suc (length xs) - 0) (c ∷ []) (omega arith)) refl

-- The assignments to the bytes of a line put the tag in brackets and the message, cut to the room
-- that is left, in front of zeros: whatever the line held before.
pub fill_line_lem :
    (tag p old : Bytes)
    → length tag ≤ 5
    → length old ≡ 512
    → fill_line tag p old ≡ line_of tag p ++ zeros (512 - length (line_of tag p))
unfolding fill_line
fill_line_lem tag p old h k =
    let text = fitting tag p in
    let room = length-fitting tag p h in
    let end1 = copy_at-zeros (0 ∷ []) tag 1 511 refl (omega (arith, h)) in
    let end2 =
      copy_at-zeros (0 ∷ tag) (codes "]") (1 + length tag) (511 - length tag) (omega arith)
        (omega (arith, h)) in
    let end3 =
      copy_at-zeros (0 ∷ (tag ++ codes "]")) (codes " ") (2 + length tag) (511 - length tag - 1)
        (omega (arith, length-append tag (codes "]"))) (omega (arith, h)) in
    let end4 =
      copy_at-zeros (0 ∷ ((tag ++ codes "]") ++ codes " ")) text (3 + length tag)
        (511 - length tag - 1 - 1)
        (omega (arith, length-append (tag ++ codes "]") (codes " "), length-append tag (codes "]")))
        (omega (arith, h, room)) in
    rw
      (
        k,
        copy_zero (3 + length text + length tag) 512 (omega (arith, room)),
        copy_zero 0 512 (omega arith),
        end1,
        end2,
        end3,
        end4,
        copy_first b'[' 0 (
            (((tag ++ codes "]") ++ codes " ") ++ text)
            ++ zeros (511 - length tag - 1 - 1 - length text)),
        append_assoc tag (codes "]") (codes " "),
        append_assoc tag (codes "] ") text,
      )
      (ap (λ m. line_of tag p ++ zeros m) (omega (arith, length-line_of tag p)))

index_byte-append : (s z : Bytes) → Free 0 s → index_byte 0 (s ++ 0 ∷ z) ≡ some (length s)
unfolding index_byte
index_byte-append [] z h = refl
index_byte-append (x ∷ s) z h = rw (h.0, index_byte-append s z h.1) refl

Free-take : (n : ℕ) (s : Bytes) → Free 0 s → Free 0 (take n s)
Free-take zero s h = tt
Free-take (suc n) [] h = tt
Free-take (suc n) (x ∷ s) h = (h.0, Free-take n s h.1)

Free-line_of : (tag p : Bytes) → Free 0 tag → Free 0 p → Free 0 (line_of tag p)
unfolding fitting
Free-line_of tag p h k = (
  refl,
  All-append (λ x. (x == 0) ≡ false) tag (b']' ∷ b' ' ∷ fitting tag p) h (refl, (refl, fits)),
)
  where
    fits : Free 0 (fitting tag p)
    fits = elim (Bool-cases (ltb 511 (3 + length p + length tag))) [
      | inl e ↦ rw e (Free-take (508 - length tag) p k)
      | inr e ↦ rw e k
    ]

-- the bytes of a line that holds a message
abbrev pub padded : Bytes → Bytes → Bytes
padded tag p = line_of tag p ++ zeros (512 - length (line_of tag p))

-- a line is shown as it was written
pub shown-padded :
    (tag p : Bytes) (ts : ℤ)
    → length tag ≤ 5
    → Free 0 tag
    → Free 0 p
    → shown (record { time_ns = ts; line_bytes = padded tag p }) ≡ (line_of tag p, ts) ∷ []
unfolding shown line_text
shown-padded tag p ts h free_tag free_p =
    rw
      (
        one_more_zero (512 - length (line_of tag p))
            (omega (arith, length-line_of tag p, length-fitting tag p h)),
        index_byte-append (line_of tag p) (zeros (512 - length (line_of tag p) - 1))
            (Free-line_of tag p free_tag free_p),
        take-length-append (line_of tag p) (0 ∷ zeros (512 - length (line_of tag p) - 1)),
      )
      refl
  where
    one_more_zero : (n : ℕ) → 0 < n → zeros n ≡ 0 ∷ zeros (n - 1)
    one_more_zero n h = ap zeros (sym (one_more n h))

pub length-fill_line :
    (tag p old : Bytes) → length tag ≤ 5 → length old ≡ 512 → length (fill_line tag p old) ≡ 512
length-fill_line tag p old h k =
    rw
      (
        fill_line_lem tag p old h k,
        length-append (line_of tag p) (zeros (512 - length (line_of tag p))),
        length-zeros (512 - length (line_of tag p)),
      )
      (omega (arith, length-line_of tag p, length-fitting tag p h))
