-- ===== src/Updater/Signify/Laws.antt =====
-- What the signed list guarantees, and what it reads from a list that was written.
use pinus_smart_awg.Common.{
  ==_iff, All, Bool-cases, Ensures, Ensures-any, Ensures-bind, Ensures-ok, List, Option, [], ap,
  bind-eq-ok, drop, false, inl, inr, is_empty, length, none, not, not-false, of_option,
  of_option-eq-ok, ok, ok-injective, refl, refuse_if, refuse_if-eq-ok, some, subst, true, ◌&&◌,
  ◌>>=◌, ◌∙◌, ◌∷◌, ◌≡◌,
}
use pinus_smart_awg.Smart.{insert}
use pinus_smart_awg.Text.{Bytes, equal}
use pinus_smart_awg.Text.Base64.{decode}
use pinus_smart_awg.Text.Hex.{from_hex}
use pinus_smart_awg.Text.Search.{has_prefix, split}
use pinus_smart_awg.Updater.Signify.{
  Verify, cut_text, decoded_key, hash_line, hash_lines, is_hash, is_signature_of, missing_comment,
  newline, no_hashes, of_hash, read_file_list, release_public_key, signature_incorrect,
  signature_invalid, signature_not_base64, three_lines, too_few_components, too_few_lines,
  two_spaces, untrusted_comment,
}

-- every hash has the length of BLAKE2b-256
abbrev pub AreHashes : List (Bytes × Bytes) → Type 0
AreHashes hashes = All (λ e. length e.1 ≡ 32) hashes

insert-AreHashes :
    (name hash : Bytes) (hashes : List (Bytes × Bytes))
    → length hash ≡ 32
    → AreHashes hashes
    → AreHashes (insert name hash hashes)
unfolding insert
insert-AreHashes name hash [] h k = (h, tt)
insert-AreHashes name hash (e ∷ hashes) h k = elim (Bool-cases (equal e.0 name)) [
  | inl q ↦ rw q (h, k.1)
  | inr q ↦ rw q (k.0, insert-AreHashes name hash hashes h k.1)
]

of_hash-Ensures : (o : Option Bytes) → Ensures (λ hash. length hash ≡ 32) (of_hash o)
of_hash-Ensures none = tt
of_hash-Ensures (some hash) = elim (Bool-cases (is_hash hash)) [
  | inl e ↦ rw e ((==_iff (length hash) 32).0 e)
  | inr e ↦ rw e tt
]

hash_line-Ensures : (line : Bytes) → Ensures (λ e. length e.1 ≡ 32) (hash_line line)
unfolding hash_line
hash_line-Ensures line =
    Ensures-bind (λ _. Unit {0}) (λ e. length e.1 ≡ 32)
      (of_option too_few_components (cut_text two_spaces line))
      (λ parts. of_hash (from_hex parts.0) >>= λ hash. ok (parts.1, hash))
      (Ensures-any (of_option too_few_components (cut_text two_spaces line)))
      (λ parts _.
        Ensures-bind (λ hash. length hash ≡ 32) (λ e. length e.1 ≡ 32) (of_hash (from_hex parts.0))
          (λ hash. ok (parts.1, hash)) (of_hash-Ensures (from_hex parts.0)) (λ hash h. h))

pub hash_lines_last :
    (line : Bytes) (lines : List Bytes) (hashes : List (Bytes × Bytes))
    → (is_empty line && is_empty lines) ≡ true
    → hash_lines (line ∷ lines) hashes ≡ ok hashes
unfolding hash_lines
hash_lines_last line lines hashes h = rw (hash_lines, h) refl

pub hash_lines_cons :
    (line : Bytes) (lines : List Bytes) (hashes : List (Bytes × Bytes))
    → (is_empty line && is_empty lines) ≡ false
    → hash_lines (line ∷ lines) hashes
      ≡ (hash_line line >>= λ entry. hash_lines lines (insert entry.0 entry.1 hashes))
unfolding hash_lines
hash_lines_cons line lines hashes h = rw (hash_lines, h) refl

hash_lines-AreHashes :
    (lines : List Bytes) (hashes : List (Bytes × Bytes))
    → AreHashes hashes
    → Ensures AreHashes (hash_lines lines hashes)
unfolding hash_lines
hash_lines-AreHashes [] hashes h = h
hash_lines-AreHashes (line ∷ lines) hashes h = elim (Bool-cases (is_empty line && is_empty lines)) [
  | inl e ↦ rw (hash_lines_last line lines hashes e) h
  | inr e ↦ rw (hash_lines_cons line lines hashes e) (
      Ensures-bind (λ x. length x.1 ≡ 32) AreHashes (hash_line line)
        (λ entry. hash_lines lines (insert entry.0 entry.1 hashes)) (hash_line-Ensures line)
        (λ entry k.
          hash_lines-AreHashes lines (insert entry.0 entry.1 hashes)
            (insert-AreHashes entry.0 entry.1 hashes k h)))
]

-- What a list that is accepted satisfies.
pub record IsSigned (verify : Verify) (input : Bytes) (hashes : List (Bytes × Bytes)) : Type 0 where
  pub key : Bytes
  pub signature : Bytes
  pub lines : Bytes × Bytes × Bytes
  pub is_key : decoded_key release_public_key ≡ ok key
  pub is_input : three_lines input ≡ some lines
  pub is_decoded : decode lines.1 ≡ some signature
  pub same_key : is_signature_of key signature ≡ true
  pub verified : verify (drop 10 key) lines.2 (drop 10 signature) ≡ true
  pub read : hash_lines (split newline lines.2) [] ≡ ok hashes
  pub not_empty : is_empty hashes ≡ false
  pub are_hashes : AreHashes hashes

-- Every list that `readFileList` returns is not empty, has hashes of 32 bytes, and is read from the
-- message behind the second line of the input, whose signature in the second line has the id of the
-- release key and is valid for that key.
pub read_file_list-IsSigned :
    (verify : Verify) (input : Bytes) {hashes : List (Bytes × Bytes)}
    → read_file_list verify input ≡ ok hashes
    → IsSigned verify input hashes
unfolding read_file_list
read_file_list-IsSigned verify input {hashes} h =
    let (key, is_key, k1) = bind-eq-ok (decoded_key release_public_key) _ h in
    let (parts, is_input, k2) = bind-eq-ok (of_option too_few_lines (three_lines input)) _ k1 in
    let (u1, has_comment, k3) =
      bind-eq-ok (refuse_if (not (has_prefix parts.0 untrusted_comment)) missing_comment) _ k2 in
    let (signature, is_decoded, k4) =
      bind-eq-ok (of_option signature_not_base64 (decode parts.1)) _ k3 in
    let (u2, same_key, k5) =
      bind-eq-ok (refuse_if (not (is_signature_of key signature)) signature_incorrect) _ k4 in
    let (u3, verified, k6) =
      bind-eq-ok
        (refuse_if (not (verify (drop 10 key) parts.2 (drop 10 signature))) signature_invalid) _
        k5 in
    let (found, read, k7) = bind-eq-ok (hash_lines (split newline parts.2) []) _ k6 in
    let (u4, some_hash, k8) = bind-eq-ok (refuse_if (is_empty found) no_hashes) _ k7 in
    let same : found ≡ hashes = ok-injective k8 in
    record {
      key = key;
      signature = signature;
      lines = parts;
      is_key = is_key;
      is_input = of_option-eq-ok too_few_lines (three_lines input) is_input;
      is_decoded = of_option-eq-ok signature_not_base64 (decode parts.1) is_decoded;
      same_key =
          not-false (is_signature_of key signature)
            (refuse_if-eq-ok (not (is_signature_of key signature)) signature_incorrect same_key);
      verified = not-false (verify (drop 10 key) parts.2 (drop 10 signature)) (
          refuse_if-eq-ok (not (verify (drop 10 key) parts.2 (drop 10 signature))) signature_invalid
            verified);
      read = read ∙ ap ok same;
      not_empty =
          subst (λ r. is_empty r ≡ false) same
            (refuse_if-eq-ok (is_empty found) no_hashes some_hash);
      are_hashes =
          subst AreHashes same
            (Ensures-ok AreHashes (hash_lines-AreHashes (split newline parts.2) [] tt) read);
    }
