-- ===== src/Ringlogger/Window.antt =====
-- The log as a queue of the last 2048 lines.
use pinus_smart_awg.Common.{
  ==_iff, Bool, Bool-cases, List, [], ap, append-nil, append_assoc, arith, drop, false,
  if◌then◌else◌, inl, inr, length, map, not, refl, suc, sym, zero, ℕ, ◌%◌, ◌++◌, ◌+◌, ◌<◌, ◌==◌,
  ◌^◌, ◌∙◌, ◌∷◌, ◌≡◌, ◌≢◌, ◌≤◌,
}
use pinus_smart_awg.Ringlogger.{
  FollowLine, LogLine, LogMem, add_32, fill_line, is_zero_time, max_lines, set_line, shown,
  write_line, write_loop,
}
use pinus_smart_awg.Ringlogger.Line.{fill_line_lem, length-fill_line, padded}
use pinus_smart_awg.Text.{Bytes}
use pinus_smart_awg.Text.Number.{ℤ}

-- the slots from a position on
unfoldable pub window : (ℕ → LogLine) → ℕ → ℕ → List LogLine
window lines i zero = []
window lines i (suc left) = lines (i % max_lines) ∷ window lines (i + 1) left

abbrev pub is_set : LogLine → Bool
is_set line = not (is_zero_time line.time_ns)

-- what is shown of some lines
unfoldable pub shown_all : List LogLine → List FollowLine
shown_all [] = []
shown_all (line ∷ lines) =
    let rest = shown_all lines in if is_zero_time line.time_ns then rest else shown line ++ rest

pub write_loop-window :
    (log : LogMem) (i l left : ℕ)
    → write_loop log i l left ≡ shown_all (window log.log_lines (i + l) left)
unfolding write_loop shown_all window
write_loop-window log i l zero = refl
write_loop-window log i l (suc left) =
    rw (wrap (i + l), write_loop-window log i (l + 1) left, plus_one i l) refl
  where
    wrap : (a : ℕ) → (a % 2 ^ 32) % 2048 ≡ a % 2048
    wrap a = omega arith

    plus_one : (i l : ℕ) → i + (l + 1) ≡ (i + l) + 1
    plus_one i l = omega arith

-- only the slots of the positions matter
pub window_same :
    (lines : ℕ → LogLine) (i j left : ℕ)
    → i % 2048 ≡ j % 2048
    → window lines i left ≡ window lines j left
unfolding window
window_same lines i j zero h = refl
window_same lines i j (suc left) h =
    rw (h, window_same lines (i + 1) (j + 1) left (omega (arith, h))) refl

window-last :
    (lines : ℕ → LogLine) (i left : ℕ)
    → window lines i (suc left) ≡ window lines i left ++ lines ((i + left) % max_lines) ∷ []
unfolding window
window-last lines i zero = ap (λ j. lines (j % max_lines) ∷ []) (omega arith)
window-last lines i (suc left) = ap (◌∷◌ (lines (i % max_lines))) (
    window-last lines (i + 1) left
    ∙ ap (λ j. window lines (i + 1) left ++ lines (j % max_lines) ∷ []) (omega arith))

pub not_equal : (a b : ℕ) → a ≢ b → (a == b) ≡ false
not_equal a b h = elim (Bool-cases (a == b)) [ inl e ↦ absurd (h ((==_iff a b).0 e)) | inr e ↦ e ]

set_line_here :
    (i j : ℕ) (line : LogLine) (lines : ℕ → LogLine) → j ≡ i → set_line i line lines j ≡ line
unfolding set_line
set_line_here i j line lines h = rw ((==_iff j i).1 h) refl

-- a slot that is written is none of the others
window-set_line :
    (lines : ℕ → LogLine) (line : LogLine) (n d left : ℕ)
    → 0 < d
    → d + left ≤ 2048
    → window (set_line (n % max_lines) line lines) (n + d) left ≡ window lines (n + d) left
unfolding window set_line
window-set_line lines line n d zero h k = refl
window-set_line lines line n d (suc left) h k =
    rw (apart n d h (omega (arith, k)), next n d)
      (ap (◌∷◌ (lines ((n + d) % max_lines)))
        (window-set_line lines line n (d + 1) left (omega arith) (omega (arith, k))))
  where
    apart : (n d : ℕ) → 0 < d → d < 2048 → ((n + d) % 2048 == n % 2048) ≡ false
    apart n d h k = not_equal ((n + d) % 2048) (n % 2048) (λ e. omega (arith, e, h, k))

    next : (n d : ℕ) → (n + d) + 1 ≡ n + (d + 1)
    next n d = omega arith

-- the line that a write leaves in its slot
abbrev new_line : Bytes → ℤ → Bytes → LogMem → LogLine
new_line tag ts p log = record {
  time_ns = ts;
  line_bytes = fill_line tag p (log.log_lines (log.next_index % max_lines)).line_bytes;
}

window-write_line :
    (tag : Bytes) (ts : ℤ) (p : Bytes) (log : LogMem)
    → window (write_line tag ts p log).log_lines (write_line tag ts p log).next_index 2048
      ≡ window log.log_lines (log.next_index + 1) 2047 ++ new_line tag ts p log ∷ []
unfolding write_line
window-write_line tag ts p log =
    let n = log.next_index in
    let lines = set_line (n % max_lines) (new_line tag ts p log) log.log_lines in
    window_same lines (add_32 n 1) (n + 1) 2048 (omega arith)
    ∙ window-last lines (n + 1) 2047
    ∙ rw
        (window-set_line log.log_lines (new_line tag ts p log) n 1 2047 (omega arith) (omega arith))
        (ap (λ l. window log.log_lines (n + 1) 2047 ++ l ∷ [])
          (set_line_here (n % max_lines) ((n + 1 + 2047) % max_lines) (new_line tag ts p log)
            log.log_lines (omega arith)))

-- A message: its text, without blanks at the ends, and its time.
abbrev pub Message : Type 0
Message = Bytes × ℤ

-- a sequence of writes by one logger
unfoldable pub write_all : Bytes → List Message → LogMem → LogMem
write_all tag [] log = log
write_all tag (m ∷ ms) log = write_all tag ms (write_line tag m.1 m.0 log)

-- every line of the memory has its 512 bytes
abbrev pub IsSized : LogMem → Type 0
IsSized log = (i : ℕ) → length (log.log_lines i).line_bytes ≡ 512

-- the line of a message
abbrev pub written : Bytes → Message → LogLine
written tag m = record { time_ns = m.1; line_bytes = padded tag m.0 }

write_line-IsSized :
    (tag : Bytes) (m : Message) (log : LogMem)
    → length tag ≤ 5
    → IsSized log
    → IsSized (write_line tag m.1 m.0 log)
unfolding write_line set_line
write_line-IsSized tag m log h sized i = elim (Bool-cases (i == log.next_index % max_lines)) [
  | inl e ↦ rw e (
      length-fill_line tag m.0 (log.log_lines (log.next_index % max_lines)).line_bytes h
        (sized (log.next_index % max_lines)))
  | inr e ↦ rw e (sized i)
]

new_line-written :
    (tag : Bytes) (m : Message) (log : LogMem)
    → length tag ≤ 5
    → IsSized log
    → new_line tag m.1 m.0 log ≡ written tag m
new_line-written tag m log h sized =
    ap (λ bytes. record { time_ns = m.1; line_bytes = bytes })
      (fill_line_lem tag m.0 (log.log_lines (log.next_index % max_lines)).line_bytes h
        (sized (log.next_index % max_lines)))

pub window_first :
    (lines : ℕ → LogLine) (i left : ℕ)
    → window lines i (suc left) ≡ lines (i % max_lines) ∷ window lines (i + 1) left
unfolding window
window_first lines i left = refl

-- After any writes the slots from the next one on are the last 2048 of the old ones and the new
-- lines.
pub window-write_all :
    (tag : Bytes) (ms : List Message) (log : LogMem)
    → length tag ≤ 5
    → IsSized log
    → window (write_all tag ms log).log_lines (write_all tag ms log).next_index 2048
      ≡ drop (length ms) (window log.log_lines log.next_index 2048 ++ map (written tag) ms)
unfolding write_all
window-write_all tag [] log h sized = sym (append-nil (window log.log_lines log.next_index 2048))
window-write_all tag (m ∷ ms) log h sized =
    window-write_all tag ms (write_line tag m.1 m.0 log) h (write_line-IsSized tag m log h sized)
    ∙ rw (window-write_line tag m.1 m.0 log, new_line-written tag m log h sized)
        (rw (window_first log.log_lines log.next_index 2047) (
          ap (drop (length ms)) (
            append_assoc (window log.log_lines (log.next_index + 1) 2047) (written tag m ∷ [])
              (map (written tag) ms))))
