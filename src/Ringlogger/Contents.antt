-- ===== src/Ringlogger/Contents.antt =====
-- What a reader of the whole log sees.
use native.Mathlib.Nat
use pinus_smart_awg.Common.{
  All, Bool-cases, List, Result, [], ap, drop, false, if◌then◌else◌, inl, inr, is_empty, length,
  length-replicate, map, ok, refl, replicate, some, suc, take, zero, ℕ, ◌++◌, ◌+◌, ◌-◌, ◌>>=◌, ◌∙◌,
  ◌∷◌, ◌≡◌, ◌≤◌,
}
use pinus_smart_awg.Ringlogger.{
  FollowLine, LogError, LogLine, LogMem, Ringlogger, is_zero_time, shown, write_line, write_to,
  write_to_open, write_with_timestamp, zero_line, zero_mem,
}
use pinus_smart_awg.Ringlogger.Line.{line_of_lem, shown-padded}
use pinus_smart_awg.Ringlogger.Window.{
  Message, shown_all, window, window-write_all, write_all, write_loop-window, written,
}
use pinus_smart_awg.Text.{Bytes, codes}
use pinus_smart_awg.Text.Search.{Free}
use pinus_smart_awg.Text.Trim.{trim_space}

-- a message that is shown: no zero byte, and not at the beginning of 1970
abbrev pub IsShown : Message → Type 0
IsShown m = Free 0 m.0 × (is_zero_time m.1 ≡ false)

-- what is to be shown of a message: the tag in brackets and the text, of which a line of 512 bytes
-- with a zero at its end has room for the first bytes
abbrev pub message_line : Bytes → Message → FollowLine
message_line tag m = (take 511 (codes "[" ++ (tag ++ (codes "] " ++ m.0))), m.1)

pub shown-written :
    (tag : Bytes) (m : Message)
    → length tag ≤ 5
    → Free 0 tag
    → IsShown m
    → shown (written tag m) ≡ message_line tag m ∷ []
shown-written tag m h free fine =
    shown-padded tag m.0 m.1 h free fine.0 ∙ ap (λ t. (t, m.1) ∷ []) (line_of_lem tag m.0 h)

shown_all-written :
    (tag : Bytes) (ms : List Message)
    → length tag ≤ 5
    → Free 0 tag
    → All IsShown ms
    → shown_all (map (written tag) ms) ≡ map (message_line tag) ms
unfolding shown_all
shown_all-written tag [] h free fine = refl
shown_all-written tag (m ∷ ms) h free fine =
    rw (fine.0.1, shown-written tag m h free fine.0, shown_all-written tag ms h free fine.1) refl

-- the empty lines of a new log are not shown
shown_all-blank :
    (n : ℕ) (lines : List LogLine) → shown_all (replicate n zero_line ++ lines) ≡ shown_all lines
unfolding shown_all
shown_all-blank zero lines = refl
shown_all-blank (suc n) lines = shown_all-blank n lines

drop-blank :
    (k n : ℕ) (lines : List LogLine)
    → drop k (replicate n zero_line ++ lines) ≡ replicate (n - k) zero_line ++ drop (k - n) lines
drop-blank zero n lines = rw (Nat.sub-zero n, Nat.zero-sub n) refl
drop-blank (suc k) zero lines = rw (Nat.zero-sub (suc k), Nat.sub-zero (suc k)) refl
drop-blank (suc k) (suc n) lines =
    rw (Nat.suc-sub-suc n k, Nat.suc-sub-suc k n) (drop-blank k n lines)

window-zero : (i n : ℕ) → window zero_mem.log_lines i n ≡ replicate n zero_line
unfolding window
window-zero i zero = refl
window-zero i (suc n) = ap (◌∷◌ zero_line) (window-zero (i + 1) n)

drop-map : {A B : Type 0} (f : A → B) (n : ℕ) (xs : List A) → drop n (map f xs) ≡ map f (drop n xs)
drop-map f zero xs = refl
drop-map f (suc n) [] = refl
drop-map f (suc n) (x ∷ xs) = drop-map f n xs

All-drop {ℓ} : {A : Type 0} (P : A → Type ℓ) (n : ℕ) (xs : List A) → All P xs → All P (drop n xs)
All-drop P zero xs h = h
All-drop P (suc n) [] h = h
All-drop P (suc n) (x ∷ xs) h = All-drop P n xs h.1

write_to-window :
    (log : LogMem) → write_to log ≡ shown_all (window log.log_lines log.next_index 2048)
unfolding write_to
write_to-window log =
    write_loop-window log log.next_index 0 2048
    ∙ ap (λ i. shown_all (window log.log_lines i 2048)) (Nat.add-zero log.next_index)

-- a sequence of calls of `WriteWithTimestamp`, up to the first error
unfoldable pub log_all : List Message → Ringlogger → Result LogError Ringlogger
log_all [] rl = ok rl
log_all (m ∷ ms) rl = do next ← write_with_timestamp m.0 m.1 rl; log_all ms next

-- the messages that are more than blanks, without the blanks at their ends
unfoldable pub trimmed : List Message → List Message
trimmed [] = []
trimmed (m ∷ ms) =
    let rest = trimmed ms in
    if is_empty (trim_space m.0) then rest else (trim_space m.0, m.1) ∷ rest

-- a logger that is open for writing
abbrev pub open_logger : Bytes → LogMem → Ringlogger
open_logger tag log = record { tag = tag; log = some log; read_only = false }

pub log_all_lem :
    (tag : Bytes) (ms : List Message) (log : LogMem)
    → log_all ms (open_logger tag log) ≡ ok (open_logger tag (write_all tag (trimmed ms) log))
unfolding log_all write_all trimmed write_with_timestamp
log_all_lem tag [] log = refl
log_all_lem tag (m ∷ ms) log = elim (Bool-cases (is_empty (trim_space m.0))) [
  | inl e ↦ rw e (log_all_lem tag ms log)
  | inr e ↦ rw e (log_all_lem tag ms (write_line tag m.1 (trim_space m.0) log))
]

write_to-write_all :
    (tag : Bytes) (ms : List Message)
    → length tag ≤ 5
    → Free 0 tag
    → All IsShown ms
    → write_to (write_all tag ms zero_mem) ≡ map (message_line tag) (drop (length ms - 2048) ms)
write_to-write_all tag ms h free fine =
    write_to-window (write_all tag ms zero_mem)
    ∙ ap shown_all (
        window-write_all tag ms zero_mem h (λ i. length-replicate {A = ℕ} 512 0)
        ∙ rw (window-zero 0 2048) (drop-blank (length ms) 2048 (map (written tag) ms)))
    ∙ shown_all-blank (2048 - length ms) (drop (length ms - 2048) (map (written tag) ms))
    ∙ rw (drop-map (written tag) (length ms - 2048) ms) (
        shown_all-written tag (drop (length ms - 2048) ms) h free
          (All-drop IsShown (length ms - 2048) ms fine))

-- what `WriteTo` gives after the messages have been written
abbrev pub logged : List Message → Ringlogger → Result LogError (List FollowLine)
logged ms rl = do done ← log_all ms rl; write_to_open done.log

-- The log is a queue of at most 2048 lines.  After any number of calls of `WriteWithTimestamp` on a
-- new log that is open for writing, `WriteTo` gives, without an error and in order, the last 2048 of
-- the messages that are more than blanks: each with its time, and as one line of the tag in
-- brackets and the text without the blanks at its ends, cut after 511 bytes.  The tag has at most five bytes, no tag or
-- message has a zero byte, and no time is the beginning of 1970.
pub logged_lem :
    (tag : Bytes) (ms : List Message)
    → length tag ≤ 5
    → Free 0 tag
    → All IsShown (trimmed ms)
    → logged ms (open_logger tag zero_mem)
      ≡ ok (map (message_line tag) (drop (length (trimmed ms) - 2048) (trimmed ms)))
logged_lem tag ms h free fine =
    rw (log_all_lem tag ms zero_mem) (ap ok (write_to-write_all tag (trimmed ms) h free fine))
