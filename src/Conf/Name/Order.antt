-- ===== src/Conf/Name/Order.antt =====
-- The order `TunnelNameIsLess` of core/conf/name.go.
use Prim.Native.Nat.{Ordering}
use pinus_smart_awg.Common.{
  Bool-cases, List, [], arith, false, inl, inr, refl, subst, sym, true, ℕ, ◌∷◌, ◌≡◌,
}
use pinus_smart_awg.Conf.Name.{
  NaturalSortToken, cmp, natural_tokens, tokens_less, tunnel_name_is_less,
}
use pinus_smart_awg.Text.{Bytes, equal, equal_iff}
use pinus_smart_awg.Text.Order.{compare_bytes-eq, compare_bytes-flip, compare_bytes_trans, flip}

cmp-flip : (s t : NaturalSortToken) → cmp t s ≡ flip (cmp s t)
unfolding cmp
cmp-flip s t = ground (arith, compare_bytes-flip s.maybe_string t.maybe_string)

module _ (s t u : NaturalSortToken) where
  cmp_trans : cmp s t ≡ Ordering.lt → cmp t u ≡ Ordering.lt → cmp s u ≡ Ordering.lt
  unfolding cmp
  cmp_trans h k = ground (arith, compare_bytes_trans s.maybe_string t.maybe_string u.maybe_string)

  cmp_eq_left : cmp s t ≡ Ordering.eq → cmp s u ≡ cmp t u
  unfolding cmp
  cmp_eq_left h = ground (arith, compare_bytes-eq s.maybe_string t.maybe_string)

  cmp_eq_right : cmp t u ≡ Ordering.eq → cmp s t ≡ cmp s u
  unfolding cmp
  cmp_eq_right h = ground (arith, compare_bytes-eq t.maybe_string u.maybe_string)

tokens_less_trans :
    (a b c : List NaturalSortToken)
    → tokens_less a b ≡ true
    → tokens_less b c ≡ true
    → tokens_less a c ≡ true
unfolding tokens_less
tokens_less_trans a b [] h k = cc
tokens_less_trans a [] (u ∷ c) h k = cc
tokens_less_trans [] (t ∷ b) (u ∷ c) h k = refl
tokens_less_trans (s ∷ a) (t ∷ b) (u ∷ c) h k =
    ground (arith, cmp_trans s t u, cmp_eq_left s t u, cmp_eq_right s t u, tokens_less_trans a b c)

tokens_less_asymm : (a b : List NaturalSortToken) → tokens_less a b ≡ true → tokens_less b a ≡ false
unfolding tokens_less
tokens_less_asymm a [] h = cc
tokens_less_asymm [] (t ∷ b) h = refl
tokens_less_asymm (s ∷ a) (t ∷ b) h = ground (arith, cmp-flip s t, tokens_less_asymm a b)

tokens_less_of_is_less :
    (lower : ℕ → ℕ) (a b : Bytes)
    → tunnel_name_is_less lower a b ≡ true
    → tokens_less (natural_tokens lower a) (natural_tokens lower b) ≡ true
unfolding tunnel_name_is_less
tokens_less_of_is_less lower a b h = elim (Bool-cases (equal a b)) [
  | inl e ↦ cc (rw e at h)
  | inr e ↦ rw e at h
]

tunnel_name_is_less_asymm :
    (lower : ℕ → ℕ) (a b : Bytes)
    → tunnel_name_is_less lower a b ≡ true
    → tunnel_name_is_less lower b a ≡ false
unfolding tunnel_name_is_less
tunnel_name_is_less_asymm lower a b h = elim (Bool-cases (equal b a)) [
  | inl e ↦ rw e
  | inr e ↦ rw e (
      tokens_less_asymm (natural_tokens lower a) (natural_tokens lower b)
        (tokens_less_of_is_less lower a b h))
]

tunnel_name_is_less_trans :
    (lower : ℕ → ℕ) (a b c : Bytes)
    → tunnel_name_is_less lower a b ≡ true
    → tunnel_name_is_less lower b c ≡ true
    → tunnel_name_is_less lower a c ≡ true
unfolding tunnel_name_is_less
tunnel_name_is_less_trans lower a b c h k =
    let less =
      tokens_less_trans (natural_tokens lower a) (natural_tokens lower b) (natural_tokens lower c)
        (tokens_less_of_is_less lower a b h) (tokens_less_of_is_less lower b c k) in
    elim (Bool-cases (equal a c)) [
      | inl e ↦
          let same =
            subst (λ x. tokens_less (natural_tokens lower a) (natural_tokens lower x) ≡ true)
              (sym ((equal_iff a c).0 e)) less in
          cc (same, tokens_less_asymm (natural_tokens lower a) (natural_tokens lower a) same)
      | inr e ↦ rw e less
    ]

-- The order in which tunnel names are listed is a strict one: if `a` comes before `b` and `b`
-- before `c`, then `a` comes before `c`, `c` not before `a`, and `a` not before itself.
pub tunnel_name_is_less_order :
    (lower : ℕ → ℕ) (a b c : Bytes)
    → tunnel_name_is_less lower a b ≡ true
    → tunnel_name_is_less lower b c ≡ true
    → (tunnel_name_is_less lower a c ≡ true)
      × (tunnel_name_is_less lower c a ≡ false)
      × (tunnel_name_is_less lower a a ≡ false)
tunnel_name_is_less_order lower a b c h k =
    let less = tunnel_name_is_less_trans lower a b c h k in
    (less, tunnel_name_is_less_asymm lower a c less, irreflexive)
  where
    irreflexive : tunnel_name_is_less lower a a ≡ false
    irreflexive = elim (Bool-cases (tunnel_name_is_less lower a a)) [
      | inl e ↦ tunnel_name_is_less_asymm lower a a e
      | inr e ↦ e
    ]
