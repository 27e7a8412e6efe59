-- ===== src/Ringlogger.antt =====
-- client/ringlogger/ringlogger.go: the log of the last 2048 lines in shared memory. The memory is
-- written by one writer at a time here; races between writers are not modelled. core/ringlogger is
-- the same code.
pub mod Line
pub mod Window
pub mod Contents
pub mod Follow
use mathlib.Core.Option
use pinus_smart_awg.Common.{
  Bool, List, Option, Result, [], drop, err, false, if◌then◌else◌, is_empty, length, ltb, none, not,
  ok, replicate, some, suc, take, zero, ℕ, ◌%◌, ◌&&◌, ◌++◌, ◌+◌, ◌-◌, ◌==◌, ◌^◌, ◌∷◌,
}
use pinus_smart_awg.Text.{Bytes, codes}
use pinus_smart_awg.Text.Number.{negsuc, pos, ℤ}
use pinus_smart_awg.Text.Search.{index_byte}
use pinus_smart_awg.Text.Trim.{trim_space}

abbrev pub max_log_line_length : ℕ
max_log_line_length = 512

abbrev pub max_lines : ℕ
max_lines = 2048

-- the bytes of a line, always 512 of them
pub record LogLine : Type 0 where
  pub time_ns : ℤ
  pub line_bytes : Bytes

-- The array of the lines is a function of the index, below 2048.
pub record LogMem : Type 0 where
  pub next_index : ℕ
  pub log_lines : ℕ → LogLine

-- `log` is none after `Close`.
pub record Ringlogger : Type 0 where
  pub tag : Bytes
  pub log : Option LogMem
  pub read_only : Bool

pub data LogError : Type 0 where
  short_write : LogError
  eof : LogError

abbrev pub add_32 : ℕ → ℕ → ℕ
add_32 a b = (a + b) % 2 ^ 32

abbrev pub is_zero_time : ℤ → Bool
is_zero_time (pos n) = n == 0
is_zero_time (negsuc n) = false

abbrev pub zero_line : LogLine
zero_line = record { time_ns = pos 0; line_bytes = replicate max_log_line_length 0 }

-- what `newRingloggerFromMappingHandle` makes of memory without the magic number
abbrev pub zero_mem : LogMem
zero_mem = record { next_index = 0; log_lines = λ i. zero_line }

-- `copy(dst[i:], src)`
unfoldable pub copy_at : ℕ → Bytes → Bytes → Bytes
copy_at i src dst = take i dst ++ (take (length dst - i) src ++ drop (i + length src) dst)

-- the text of a message with as much of it as the line has room for
unfoldable pub fitting : Bytes → Bytes → Bytes
fitting tag p =
    if ltb (max_log_line_length - 1) (3 + length p + length tag)
    then take (max_log_line_length - 1 - 3 - length tag) p
    else p

-- the assignments to the bytes of a line
unfoldable pub fill_line : Bytes → Bytes → Bytes → Bytes
fill_line tag p old =
    let text = fitting tag p in
    let cleared = replicate (length old) 0 in
    let ended = copy_at (3 + length text + length tag) (0 ∷ []) cleared in
    let closed = copy_at 0 (0 ∷ []) ended in
    let tagged = copy_at 1 tag closed in
    let bracket = copy_at (1 + length tag) (codes "]") tagged in
    let spaced = copy_at (2 + length tag) (codes " ") bracket in
    let filled = copy_at (3 + length tag) text spaced in copy_at 0 (codes "[") filled

unfoldable pub set_line : ℕ → LogLine → (ℕ → LogLine) → ℕ → LogLine
set_line i line lines j = if j == i then line else lines j

unfoldable pub write_line : Bytes → ℤ → Bytes → LogMem → LogMem
write_line tag ts p log =
    let i = log.next_index % max_lines in
    record {
      next_index = add_32 log.next_index 1;
      log_lines =
          set_line i
            (record { time_ns = ts; line_bytes = fill_line tag p (log.log_lines i).line_bytes })
            log.log_lines;
    }

abbrev write_open : Bytes → Bytes → ℤ → Ringlogger → Option LogMem → Result LogError Ringlogger
write_open p text ts rl none = err eof
write_open p text ts rl (some log) = ok (record rl { log = some (write_line rl.tag ts text log) })

-- The new logger; the number of bytes that Go returns beside it is `length p`.
unfoldable pub write_with_timestamp : Bytes → ℤ → Ringlogger → Result LogError Ringlogger
write_with_timestamp p ts rl =
    if rl.read_only
    then err short_write
    else if is_empty (trim_space p)
    then ok rl
    else write_open p (trim_space p) ts rl rl.log

-- the bytes before the first 0, if there is one
unfoldable pub line_text : Bytes → Option Bytes
line_text bytes = Option.map (λ i. take i bytes) (index_byte 0 bytes)

-- a line that `WriteTo` and `FollowFromCursor` show: its text and its time
abbrev pub FollowLine : Type 0
FollowLine = Bytes × ℤ

abbrev shown_text : ℤ → Option Bytes → List FollowLine
shown_text ts none = []
shown_text ts (some []) = []
shown_text ts (some (c ∷ cs)) = (c ∷ cs, ts) ∷ []

unfoldable pub shown : LogLine → List FollowLine
shown line = shown_text line.time_ns (line_text line.line_bytes)

-- the lines that `WriteTo` prints, from the slot `i + l` on
unfoldable pub write_loop : LogMem → ℕ → ℕ → ℕ → List FollowLine
write_loop log i l zero = []
write_loop log i l (suc left) =
    let line = log.log_lines (add_32 i l % max_lines) in
    let rest = write_loop log i (l + 1) left in
    if is_zero_time line.time_ns then rest else shown line ++ rest

unfoldable pub write_to : LogMem → List FollowLine
write_to log = write_loop log log.next_index 0 max_lines

abbrev pub write_to_open : Option LogMem → Result LogError (List FollowLine)
write_to_open none = err eof
write_to_open (some log) = ok (write_to log)

abbrev pub cursor_all : ℕ
cursor_all = 2 ^ 32 - 1

abbrev cons_lines : List FollowLine → List FollowLine × ℕ → List FollowLine × ℕ
cons_lines lines rest = (lines ++ rest.0, rest.1)

-- the loop with its position, the rounds that are left and the cursor so far
unfoldable pub follow_loop : LogMem → Bool → ℕ → ℕ → ℕ → List FollowLine × ℕ
follow_loop log all_lines i next zero = ([], next)
follow_loop log all_lines i next (suc left) =
    let line = log.log_lines (i % max_lines) in
    let skips = is_zero_time line.time_ns in
    let rest =
      follow_loop log all_lines (add_32 i 1) (if skips then next else add_32 i 1 % max_lines)
        left in
    if not all_lines && (i % max_lines == log.next_index % max_lines)
    then ([], next)
    else if skips
    then if all_lines then rest else ([], next)
    else cons_lines (shown line) rest

unfoldable pub follow_from_cursor : ℕ → LogMem → List FollowLine × ℕ
follow_from_cursor cursor log =
    let all_lines = cursor == cursor_all in
    follow_loop log all_lines (if all_lines then log.next_index else cursor) cursor max_lines

abbrev pub follow_open : ℕ → Option LogMem → List FollowLine × ℕ
follow_open cursor none = ([], cursor)
follow_open cursor (some log) = follow_from_cursor cursor log
