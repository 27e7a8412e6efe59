-- ===== src/Updater/Signify/RoundTrip.antt =====
-- A list of installers that was written is read back.
use pinus_smart_awg.Common.{
  All, All-append, List, [], arith, false, is_empty, length, ok, refl, some, ℕ, ◌%◌, ◌&&◌, ◌++◌,
  ◌/◌, ◌<◌, ◌==◌, ◌∷◌, ◌≡◌, ◌≢◌,
}
use pinus_smart_awg.Smart.{insert}
use pinus_smart_awg.Text.{Bytes}
use pinus_smart_awg.Text.Base64.{IsByte}
use pinus_smart_awg.Text.Hex.{from_hex-to_hex, hex_digit, to_hex}
use pinus_smart_awg.Text.Search.{Free, has_prefix, split, split-append, split-ne-nil}
use pinus_smart_awg.Updater.Signify.{cut_text, hash_line, hash_lines, newline, two_spaces}
use pinus_smart_awg.Updater.Signify.Laws.{hash_lines_cons, hash_lines_last}

-- the line of `b2sum -l 256`
unfoldable pub hash_text : Bytes × Bytes → Bytes
hash_text entry = to_hex entry.1 ++ (two_spaces ++ entry.0)

unfoldable pub hash_list_text : List (Bytes × Bytes) → Bytes
hash_list_text [] = []
hash_list_text (entry ∷ entries) = hash_text entry ++ newline ∷ hash_list_text entries

-- the entries one after the other; a name that comes again gets its last hash
unfoldable pub insert_all : List (Bytes × Bytes) → List (Bytes × Bytes) → List (Bytes × Bytes)
insert_all [] hashes = hashes
insert_all (entry ∷ entries) hashes = insert_all entries (insert entry.0 entry.1 hashes)

-- a hash of 32 bytes and a name that stays on its line
abbrev pub IsHashEntry : Bytes × Bytes → Type 0
IsHashEntry entry = All IsByte entry.1 × (length entry.1 ≡ 32) × Free newline entry.0

hex_digit-Plain :
    (v : ℕ) → v < 16 → ((hex_digit v == 32) ≡ false) × ((hex_digit v == newline) ≡ false)
unfolding hex_digit
hex_digit-Plain v h = ground arith

to_hex-Free : (s : Bytes) → All IsByte s → Free 32 (to_hex s) × Free newline (to_hex s)
unfolding to_hex
to_hex-Free [] h = (tt, tt)
to_hex-Free (b ∷ s) h =
    let high = hex_digit-Plain (b / 16) (omega (arith, h.0)) in
    let low = hex_digit-Plain (b % 16) (omega arith) in
    let rest = to_hex-Free s h.1 in ((high.0, (low.0, rest.0)), (high.1, (low.1, rest.1)))

cut_text-append :
    (a b : Bytes) → Free 32 a → cut_text two_spaces (a ++ (two_spaces ++ b)) ≡ some (a, b)
unfolding cut_text has_prefix
cut_text-append [] b h = refl
cut_text-append (x ∷ a) b h = rw (h.0, cut_text-append a b h.1) refl

hash_line-text :
    (entry : Bytes × Bytes) → IsHashEntry entry → hash_line (hash_text entry) ≡ ok entry
unfolding hash_line hash_text
hash_line-text entry h =
    rw
      (
        cut_text-append (to_hex entry.1) entry.0 (to_hex-Free entry.1 h.0).0,
        from_hex-to_hex entry.1 h.0,
        h.1,
      )
      refl

hash_text-Free : (entry : Bytes × Bytes) → IsHashEntry entry → Free newline (hash_text entry)
unfolding hash_text
hash_text-Free entry h =
    All-append (λ x. (x == newline) ≡ false) (to_hex entry.1) (two_spaces ++ entry.0)
      (to_hex-Free entry.1 h.0).1 (refl, (refl, h.2))

not_last :
    (line : Bytes) (lines : List Bytes) → lines ≢ [] → (is_empty line && is_empty lines) ≡ false
not_last line [] h = absurd (h refl)
not_last line (l ∷ lines) h = ground arith

-- A list that was written line by line is read back, each name with its last hash.
pub hash_lines-text :
    (entries hashes : List (Bytes × Bytes))
    → All IsHashEntry entries
    → hash_lines (split newline (hash_list_text entries)) hashes ≡ ok (insert_all entries hashes)
unfolding hash_list_text insert_all split
hash_lines-text [] hashes h = hash_lines_last [] [] hashes refl
hash_lines-text (entry ∷ entries) hashes h =
    rw
      (
        split-append newline (hash_text entry) (hash_list_text entries) (hash_text-Free entry h.0),
        hash_lines_cons (hash_text entry) (split newline (hash_list_text entries)) hashes (
            not_last (hash_text entry) (split newline (hash_list_text entries))
              (split-ne-nil newline (hash_list_text entries))),
        hash_line-text entry h.0,
      )
      (hash_lines-text entries (insert entry.0 entry.1 hashes) h.1)
