-- ===== src/Ringlogger/Follow.antt =====
-- What a reader sees that goes on from the position it has read.
use native.Mathlib.Nat
use pinus_smart_awg.Common.{
  ==_iff, All, List, [], ap, arith, drop, drop-length-append, false, length, map, refl, suc, sym,
  zero, ℕ, ◌%◌, ◌++◌, ◌+◌, ◌-◌, ◌<◌, ◌∙◌, ◌∷◌, ◌≡◌, ◌≢◌, ◌≤◌,
}
use pinus_smart_awg.Ringlogger.{
  LogLine, LogMem, add_32, cursor_all, follow_from_cursor, follow_loop, is_zero_time, max_lines,
  shown, write_line,
}
use pinus_smart_awg.Ringlogger.Contents.{IsShown, message_line, shown-written}
use pinus_smart_awg.Ringlogger.Window.{
  IsSized, Message, not_equal, window, window-write_all, window_first, window_same, write_all,
  written,
}
use pinus_smart_awg.Text.{Bytes}
use pinus_smart_awg.Text.Search.{Free}

cons_head : {A : Type 0} {x y : A} {xs ys : List A} → Path (List A) (x ∷ xs) (y ∷ ys) → x ≡ y
cons_head h = cc

follow_stop :
    (log : LogMem) (i next left : ℕ)
    → i % 2048 ≡ log.next_index % 2048
    → follow_loop log false i next (suc left) ≡ ([], next)
unfolding follow_loop
follow_stop log i next left h = rw ((==_iff (i % 2048) (log.next_index % 2048)).1 h) refl

follow_more :
    (log : LogMem) (i next left : ℕ)
    → i % 2048 ≢ log.next_index % 2048
    → is_zero_time (log.log_lines (i % max_lines)).time_ns ≡ false
    → follow_loop log false i next (suc left) ≡ (
      shown (log.log_lines (i % max_lines))
          ++ (follow_loop log false (add_32 i 1) (add_32 i 1 % max_lines) left).0,
      (follow_loop log false (add_32 i 1) (add_32 i 1 % max_lines) left).1,
    )
unfolding follow_loop
follow_more log i next left h k = rw (not_equal (i % 2048) (log.next_index % 2048) h, k) refl

-- the loop over lines that are in the slots from `i` up to the next one
follow_loop-written :
    (log : LogMem) (tag : Bytes) (ms : List Message) (i next left : ℕ)
    → length tag ≤ 5
    → Free 0 tag
    → All IsShown ms
    → window log.log_lines i (length ms) ≡ map (written tag) ms
    → (i + length ms) % 2048 ≡ log.next_index % 2048
    → length ms < 2048
    → length ms < left
    → next ≡ i % 2048
    → follow_loop log false i next left ≡ (map (message_line tag) ms, (i + length ms) % 2048)
follow_loop-written log tag ms i next zero h free fine w e few enough n = ground arith
follow_loop-written log tag [] i next (suc left) h free fine w e few enough n =
    follow_stop log i next left (omega (arith, e)) ∙ rw (n, Nat.add-zero i) refl
follow_loop-written log tag (m ∷ ms) i next (suc left) h free fine w e few enough n =
    let here : log.log_lines (i % max_lines) ≡ written tag m =
      cons_head (sym (window_first log.log_lines i (length ms)) ∙ w) in
    let later : window log.log_lines (add_32 i 1) (length ms) ≡ map (written tag) ms =
      window_same log.log_lines (add_32 i 1) (i + 1) (length ms) (omega arith)
      ∙ ap (drop 1) (sym (window_first log.log_lines i (length ms)) ∙ w) in
    let rest =
      follow_loop-written log tag ms (add_32 i 1) (add_32 i 1 % max_lines) left h free fine.1 later
        (omega (arith, e)) (omega (arith, few)) (omega (arith, enough)) refl in
    follow_more log i next left (λ q. omega (arith, q, e, few)) (rw here fine.0.1)
    ∙ rw (here, rest, shown-written tag m h free fine.0)
        (ap (λ c. (map (message_line tag) (m ∷ ms), c)) (omega arith))

window-drop :
    (lines : ℕ → LogLine) (j i left : ℕ)
    → drop j (window lines i (j + left)) ≡ window lines (i + j) left
window-drop lines zero i left = rw (Nat.zero-add left) (ap (λ k. window lines k left) (omega arith))
window-drop lines (suc j) i left =
    rw (Nat.suc-add j left, window_first lines i (j + left))
      (window-drop lines j (i + 1) left ∙ ap (λ k. window lines k left) (omega arith))

drop-drop : {A : Type 0} (j k : ℕ) (xs : List A) → drop j (drop k xs) ≡ drop (k + j) xs
drop-drop j zero xs = rw (Nat.zero-add j) refl
drop-drop zero (suc k) [] = rw (Nat.suc-add k 0) refl
drop-drop (suc j) (suc k) [] = rw (Nat.suc-add k (suc j)) refl
drop-drop j (suc k) (x ∷ xs) = rw (Nat.suc-add k j) (drop-drop j k xs)

length-window : (lines : ℕ → LogLine) (i left : ℕ) → length (window lines i left) ≡ left
unfolding window
length-window lines i zero = refl
length-window lines i (suc left) = ap suc (length-window lines (i + 1) left)

-- the new lines are in the slots from the old position on
window-new :
    (tag : Bytes) (ms : List Message) (log : LogMem)
    → length tag ≤ 5
    → IsSized log
    → length ms < 2048
    → (write_all tag ms log).next_index % 2048 ≡ (log.next_index + length ms) % 2048
    → window (write_all tag ms log).log_lines log.next_index (length ms) ≡ map (written tag) ms
window-new tag ms log h sized few moved =
    let lines = (write_all tag ms log).log_lines in
    let at = (write_all tag ms log).next_index in
    let old = window log.log_lines log.next_index 2048 in
    let spare = 2048 - length ms in
    window_same lines log.next_index (at + spare) (length ms) (omega (arith, moved, few))
    ∙ sym (window-drop lines spare at (length ms))
    ∙ ap (λ k. drop spare (window lines at k)) (omega (arith, few))
    ∙ ap (drop spare) (window-write_all tag ms log h sized)
    ∙ drop-drop spare (length ms) (old ++ map (written tag) ms)
    ∙ ap (λ k. drop k (old ++ map (written tag) ms))
        (omega (arith, few, length-window log.log_lines log.next_index 2048))
    ∙ drop-length-append old (map (written tag) ms)

next_index-write_line :
    (tag : Bytes) (m : Message) (log : LogMem)
    → (write_line tag m.1 m.0 log).next_index ≡ add_32 log.next_index 1
unfolding write_line
next_index-write_line tag m log = refl

next_index-write_all :
    (tag : Bytes) (ms : List Message) (log : LogMem)
    → (write_all tag ms log).next_index % 2048 ≡ (log.next_index + length ms) % 2048
unfolding write_all
next_index-write_all tag [] log = rw (Nat.add-zero log.next_index) refl
next_index-write_all tag (m ∷ ms) log =
    next_index-write_all tag ms (write_line tag m.1 m.0 log) ∙ moved m
  where
    moved :
        (m : Message)
        → ((write_line tag m.1 m.0 log).next_index + length ms) % 2048
          ≡ (log.next_index + suc (length ms)) % 2048
    moved m = omega (arith, next_index-write_line tag m log)

-- A reader that goes on from the position of the log it has read gets exactly what was written
-- since, in order, and the new position, as long as these are fewer than 2048 lines: whatever the
-- log held, and also where its 32-bit index wraps.  The tag has at most five bytes, no tag or message
-- has a zero byte, and no time is the beginning of 1970.
pub follow_from_cursor-write_all :
    (tag : Bytes) (ms : List Message) (log : LogMem)
    → length tag ≤ 5
    → Free 0 tag
    → All IsShown ms
    → IsSized log
    → length ms < 2048
    → follow_from_cursor (log.next_index % 2048) (write_all tag ms log)
      ≡ (map (message_line tag) ms, (log.next_index + length ms) % 2048)
unfolding follow_from_cursor
follow_from_cursor-write_all tag ms log h free fine sized few =
    rw (not_equal (log.next_index % 2048) cursor_all (λ e. omega (arith, e))) (
      follow_loop-written (write_all tag ms log) tag ms (log.next_index % 2048)
        (log.next_index % 2048) 2048 h free fine
        (window_same (write_all tag ms log).log_lines (log.next_index % 2048) log.next_index
            (length ms) (omega arith)
          ∙ window-new tag ms log h sized few (next_index-write_all tag ms log))
        (omega (arith, next_index-write_all tag ms log)) few few (omega arith)
      ∙ ap (λ c. (map (message_line tag) ms, c)) (omega arith))
