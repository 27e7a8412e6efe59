-- ===== src/Updater/Signify.antt =====
-- client/updater/signify.go: the signed list of installers and their hashes.
pub mod Laws
pub mod RoundTrip
use mathlib.Core.Option
use pinus_smart_awg.Common.{
  Bool, List, Option, Result, [], drop, err, false, if◌then◌else◌, is_empty, length, none, not,
  of_option, ok, refuse_if, some, take, true, ℕ, ◌&&◌, ◌==◌, ◌>>=◌, ◌>>◌, ◌∷◌,
}
use pinus_smart_awg.Smart.{insert}
use pinus_smart_awg.Text.{Bytes, codes, equal}
use pinus_smart_awg.Text.Base64.{decode}
use pinus_smart_awg.Text.Hex.{from_hex}
use pinus_smart_awg.Text.Search.{cut, has_prefix, split}

pub data ListError : Type 0 where
  invalid_public_key : ListError
  too_few_lines : ListError
  missing_comment : ListError
  signature_not_base64 : ListError
  signature_incorrect : ListError
  signature_invalid : ListError
  too_few_components : ListError
  hash_invalid : ListError
  no_hashes : ListError

-- client/updater/constants.go
abbrev pub release_public_key : Bytes
release_public_key = codes "RWRNqGKtBXftKTKPpBPGDMe8jHLnFQ0EdRy8Wg0apV6vTDFLAODD83G4"

abbrev pub newline : ℕ
newline = 10

-- `strings.Cut(s, sep)`
unfoldable pub cut_text : Bytes → Bytes → Option (Bytes × Bytes)
cut_text sep [] = if is_empty sep then some ([], []) else none
cut_text sep (x ∷ xs) =
    let rest = cut_text sep xs in
    if has_prefix (x ∷ xs) sep
    then some ([], drop (length sep) (x ∷ xs))
    else Option.map (λ (p : Bytes × Bytes). (x ∷ p.0, p.1)) rest

abbrev pub two_spaces : Bytes
two_spaces = codes "  "

abbrev pub is_hash : Bytes → Bool
is_hash hash = length hash == 32

abbrev pub of_hash : Option Bytes → Result ListError Bytes
of_hash none = err hash_invalid
of_hash (some hash) = if is_hash hash then ok hash else err hash_invalid

-- one line: the name and its hash
unfoldable pub hash_line : Bytes → Result ListError (Bytes × Bytes)
hash_line line = do
  (first, second) ← of_option too_few_components (cut_text two_spaces line)
  hash ← of_hash (from_hex first)
  ok (second, hash)

-- the loop over the lines; an empty last line ends it
unfoldable pub hash_lines :
    List Bytes → List (Bytes × Bytes) → Result ListError (List (Bytes × Bytes))
hash_lines [] hashes = ok hashes
hash_lines (line ∷ lines) hashes = elim (is_empty line && is_empty lines) [
  | true ↦ ok hashes
  | false ↦ hash_line line >>= λ entry. hash_lines lines (insert entry.0 entry.1 hashes)
]

abbrev two_parts : Bytes → Option (Bytes × Bytes) → Option (Bytes × Bytes × Bytes)
two_parts first none = none
two_parts first (some rest) = some (first, rest.0, rest.1)

abbrev three_parts : Option (Bytes × Bytes) → Option (Bytes × Bytes × Bytes)
three_parts none = none
three_parts (some first) = two_parts first.0 (cut newline first.1)

-- `bytes.SplitN(input, "\n", 3)`, if it has three parts
unfoldable pub three_lines : Bytes → Option (Bytes × Bytes × Bytes)
three_lines input = three_parts (cut newline input)

abbrev pub untrusted_comment : Bytes
untrusted_comment = codes "untrusted comment: "

-- `ed25519.Verify` with a key, a message and a signature
abbrev pub Verify : Type 0
Verify = Bytes → Bytes → Bytes → Bool

-- the decoded public key with its type and key id
unfoldable pub decoded_key : Bytes → Result ListError Bytes
decoded_key text = do
  key ← of_option invalid_public_key (decode text)
  refuse_if (not (length key == 42 && has_prefix key (codes "Ed"))) invalid_public_key
  ok key

abbrev pub is_signature_of : Bytes → Bytes → Bool
is_signature_of key signature = length signature == 74 && equal (take 10 signature) (take 10 key)

unfoldable pub read_file_list : Verify → Bytes → Result ListError (List (Bytes × Bytes))
read_file_list verify input = do
  key ← decoded_key release_public_key
  (comment, signature_text, message) ← of_option too_few_lines (three_lines input)
  refuse_if (not (has_prefix comment untrusted_comment)) missing_comment
  signature ← of_option signature_not_base64 (decode signature_text)
  refuse_if (not (is_signature_of key signature)) signature_incorrect
  refuse_if (not (verify (drop 10 key) message (drop 10 signature))) signature_invalid
  hashes ← hash_lines (split newline message) []
  refuse_if (is_empty hashes) no_hashes
  ok hashes
