-- ===== src/Text/Ip/Laws.antt =====
-- The text of an IPv4 address, against its parser.
use mathlib.Core.Option
use pinus_smart_awg.Common.{
  All-weaken, Bool, Option, [], arith, false, none, refl, some, subst, suc, sym, true, zero, ℕ,
  ◌&&◌, ◌++◌, ◌<◌, ◌==◌, ◌∙◌, ◌∷◌, ◌≡◌,
}
use pinus_smart_awg.Text.{Bytes, is_digit}
use pinus_smart_awg.Text.Ip.{
  dispatch, ip_string, parse_ip, parse_octet, parse_v4, v4_prefix, v4_string,
}
use pinus_smart_awg.Text.Number.{Digits, itoa, itoa-Digits, parse_uint}
use pinus_smart_awg.Text.Search.{Free, join, split-Free, split-append}

-- a test of every octet, and of every number that is less
passes_to : (ℕ → Bool) → ℕ → Bool
passes_to test zero = true
passes_to test (suc limit) = passes_to test limit && test limit

passes_to-below :
    (test : ℕ → Bool) (limit k : ℕ) → k < limit → passes_to test limit ≡ true → test k ≡ true
unfolding passes_to
passes_to-below test zero k small t = absurd (omega (arith, small))
passes_to-below test (suc limit) k small t = ground (passes_to-below test limit k, arith)

abbrev reads_as : ℕ → Option ℕ → Bool
reads_as n none = false
reads_as n (some m) = m == n

reads_as-eq : (n : ℕ) (o : Option ℕ) → reads_as n o ≡ true → o ≡ some n
reads_as-eq n none h = cc
reads_as-eq n (some m) h = ground arith

octets_read : passes_to (λ n. reads_as n (parse_octet (itoa n))) 256 ≡ true
unfolding passes_to parse_octet itoa parse_uint
octets_read = refl

parse_octet-itoa : (n : ℕ) → n < 256 → parse_octet (itoa n) ≡ some n
parse_octet-itoa n h =
    reads_as-eq n (parse_octet (itoa n))
      (passes_to-below (λ k. reads_as k (parse_octet (itoa k))) 256 n h octets_read)

itoa-Free : (c n : ℕ) → is_digit c ≡ false → Free c (itoa n)
itoa-Free c n h = All-weaken (λ d k. ground arith) (itoa n) (itoa-Digits n)

dispatch-Digits :
    (s d r : Bytes)
    → Digits d
    → dispatch s (d ++ b'.' ∷ r) ≡ Option.map (◌++◌ v4_prefix) (parse_v4 s)
unfolding dispatch
dispatch-Digits s [] r h = refl
dispatch-Digits s (c ∷ d) r h = ground (arith, dispatch-Digits s d r h.1)

module _ (a b c d : ℕ) (ha : a < 256) (hb : b < 256) (hc : c < 256) (hd : d < 256) where
  parse_v4-v4_string : parse_v4 (v4_string (a ∷ b ∷ c ∷ d ∷ [])) ≡ some (a ∷ b ∷ c ∷ d ∷ [])
  unfolding parse_v4 v4_string join
  parse_v4-v4_string =
      rw
        (
          split-append b'.' (itoa a) _ (itoa-Free b'.' a refl),
          split-append b'.' (itoa b) _ (itoa-Free b'.' b refl),
          split-append b'.' (itoa c) _ (itoa-Free b'.' c refl),
          split-Free b'.' (itoa d) (itoa-Free b'.' d refl),
        )
        (rw (
          parse_octet-itoa a ha,
          parse_octet-itoa b hb,
          parse_octet-itoa c hc,
          parse_octet-itoa d hd,
        ))

  v4_string_dotted : (r : Bytes) × (v4_string (a ∷ b ∷ c ∷ d ∷ []) ≡ itoa a ++ b'.' ∷ r)
  unfolding v4_string join
  v4_string_dotted = (_, refl)

  pub parse_ip-v4_string :
      parse_ip (v4_string (a ∷ b ∷ c ∷ d ∷ [])) ≡ some (v4_prefix ++ a ∷ b ∷ c ∷ d ∷ [])
  unfolding parse_ip
  parse_ip-v4_string =
      let (r, e) = v4_string_dotted in
      let seen = dispatch-Digits (v4_string (a ∷ b ∷ c ∷ d ∷ [])) (itoa a) r (itoa-Digits a) in
      subst
        (λ t. dispatch (v4_string (a ∷ b ∷ c ∷ d ∷ [])) t ≡ some (v4_prefix ++ a ∷ b ∷ c ∷ d ∷ []))
        (sym e) (seen ∙ rw parse_v4-v4_string)

  pub parse_ip-ip_string :
      parse_ip (ip_string (a ∷ b ∷ c ∷ d ∷ [])) ≡ some (v4_prefix ++ a ∷ b ∷ c ∷ d ∷ [])
  unfolding ip_string
  parse_ip-ip_string = parse_ip-v4_string
