-- ===== src/Text/Ip/Sizes.antt =====
-- The lengths of the addresses that `net.ParseIP` and `To4` return.
use mathlib.Core.Option
use pinus_smart_awg.Common.{
  ==_iff, Bool-cases, IfSome, IfSome-if, List, Option, [], ap, arith, drop, if◌then◌else◌, inl, inr,
  is_empty, length, length-append, length-drop, length-replicate, ltb, ltb→lt, none, not, refl,
  replicate, some, suc, take, take-append-drop, zero, ℕ, ◌%◌, ◌&&◌, ◌++◌, ◌+◌, ◌-◌, ◌/◌, ◌==◌, ◌||◌,
  ◌∷◌, ◌≡◌,
}
use pinus_smart_awg.Text.{Bytes, equal}
use pinus_smart_awg.Text.Ip.{
  V6, begins_with, dispatch, fields_v6, finish_v6, hex_field, is_some, octets, parse_ip,
  parse_octet, parse_v4, parse_v6, quad, separator, to_4, trailing_v4, v4_prefix,
}
use pinus_smart_awg.Text.Search.{contains_byte, split}

abbrev Sized : Option Bytes → Type 0
Sized = IfSome (λ ip. length ip ≡ 16)

finish_v6-Sized : (v : V6) → Sized (finish_v6 v)
unfolding finish_v6
finish_v6-Sized v = go v.ellipsis
  where
    go :
        (o : Option ℕ)
        → Sized (elim o [
          | none ↦ if length v.bytes == 16 then some v.bytes else none
          | some at ↦
              if ltb (length v.bytes) 16
              then some (take at v.bytes ++ (replicate (16 - length v.bytes) 0 ++ drop at v.bytes))
              else none
        ])
    go none = elim (Bool-cases (length v.bytes == 16)) [
      | inl e ↦ rw e ((==_iff _ 16).0 e)
      | inr e ↦ rw e tt
    ]
    go (some at) = elim (Bool-cases (ltb (length v.bytes) 16)) [
      | inl e ↦ rw e (
          omega (
            arith,
            length-append {0} (take at v.bytes)
                (replicate (16 - length v.bytes) 0 ++ drop at v.bytes),
            length-append {0} (replicate (16 - length v.bytes) 0) (drop at v.bytes),
            length-replicate {0} {A = ℕ} (16 - length v.bytes) 0,
            length-append {0} (take at v.bytes) (drop at v.bytes),
            ap (length {0}) (take-append-drop at v.bytes),
            ltb→lt (length v.bytes) 16 e,
          ))
      | inr e ↦ rw e tt
    ]

trailing_v4-Sized : (v : V6) (s : Bytes) → Sized (trailing_v4 v s)
unfolding trailing_v4
trailing_v4-Sized v s =
    IfSome-if _
      (not (is_some v.ellipsis) && not (length v.bytes == 12) || ltb 16 (length v.bytes + 4)) none _
      tt (go (parse_v4 s))
  where
    go :
        (o : Option Bytes)
        → Sized (elim o [ none ↦ none | some q ↦ finish_v6 (record v { bytes = v.bytes ++ q }) ])
    go none = tt
    go (some q) = finish_v6-Sized (record v { bytes = v.bytes ++ q })

fields_v6-Sized : (fuel : ℕ) (v : V6) (s : Bytes) → Sized (fields_v6 fuel v s)
unfolding fields_v6
fields_v6-Sized zero v s = tt
fields_v6-Sized (suc fuel) v s =
    let (acc, n, rest) = hex_field 0 0 s in
    let next : V6 = record v { bytes = v.bytes ++ (acc / 256) ∷ (acc % 256) ∷ [] } in
    IfSome-if _ (n == 0 || ltb 4 n) none _ tt (
      IfSome-if _ (begins_with b'.' rest) _ _ (trailing_v4-Sized v s) (
        IfSome-if _ (is_empty rest) _ _ (finish_v6-Sized next)
          (go (fields_v6-Sized fuel) (separator next rest))))
  where
    go :
        ((w : V6) (r : Bytes) → Sized (fields_v6 fuel w r))
        → (o : Option (V6 × Bytes))
        → Sized (elim o [
          | none ↦ none
          | some (w, r) ↦
              let again = fields_v6 fuel w r in if is_empty r then finish_v6 w else again
        ])
    go rec none = tt
    go rec (some (w, r)) = IfSome-if _ (is_empty r) _ _ (finish_v6-Sized w) (rec w r)

parse_v6-Sized : (s : Bytes) → Sized (parse_v6 s)
unfolding parse_v6
parse_v6-Sized [] = fields_v6-Sized 8 _ []
parse_v6-Sized (c ∷ []) = fields_v6-Sized 8 _ (c ∷ [])
parse_v6-Sized (c ∷ d ∷ r) =
    IfSome-if _ (c == b':' && d == b':') _ _
      (IfSome-if _ (is_empty r) (some (replicate 16 0)) _ refl (fields_v6-Sized 8 _ r))
      (fields_v6-Sized 8 _ (c ∷ d ∷ r))

quad-Sized : (a b c d : Option ℕ) → Sized (Option.map (◌++◌ v4_prefix) (quad a b c d))
quad-Sized (some a) (some b) (some c) (some d) = refl
quad-Sized none b c d = tt
quad-Sized (some a) none c d = tt
quad-Sized (some a) (some b) none d = tt
quad-Sized (some a) (some b) (some c) none = tt

octets-Sized : (ps : List Bytes) → Sized (Option.map (◌++◌ v4_prefix) (octets ps))
unfolding octets
octets-Sized (a ∷ b ∷ c ∷ d ∷ []) =
    quad-Sized (parse_octet a) (parse_octet b) (parse_octet c) (parse_octet d)
octets-Sized _ = tt

dispatch-Sized : (s t : Bytes) → Sized (dispatch s t)
unfolding dispatch parse_v4
dispatch-Sized s [] = tt
dispatch-Sized s (c ∷ cs) = IfSome-if _ (c == b'.') _ _ (octets-Sized (split b'.' s)) (
    IfSome-if _ (c == b':') _ _ (IfSome-if _ (contains_byte b'%' s) none _ tt (parse_v6-Sized s))
      (IfSome-if _ (c == b'%') none _ tt (dispatch-Sized s cs)))

pub length-parse_ip : (s : Bytes) → IfSome (λ ip. length ip ≡ 16) (parse_ip s)
unfolding parse_ip
length-parse_ip s = dispatch-Sized s s

pub length-to_4 : (ip : Bytes) → length ip ≡ 16 → IfSome (λ q. length q ≡ 4) (to_4 ip)
unfolding to_4
length-to_4 ip h =
    rw h
      (IfSome-if _ (equal (take 12 ip) v4_prefix) _ none (omega (arith, length-drop {0} 12 ip)) tt)
