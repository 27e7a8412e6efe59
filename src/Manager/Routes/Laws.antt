-- ===== src/Manager/Routes/Laws.antt =====
-- The selection of interfaces, against the candidates of minimal metric.
use pinus_smart_awg.Common.{
  ==_iff, Bool, Bool-cases, List, [], all, any, any-cons, ap, arith, false, if◌then◌else◌, inl, inr,
  leb, ltb, not, refl, true, ℕ, ◌&&◌, ◌-◌, ◌==◌, ◌^◌, ◌||◌, ◌∙◌, ◌∷◌, ◌≡◌,
}
use pinus_smart_awg.Manager.Routes.{
  SmartDefaultRouteCandidate, index_of, is_candidate, select_routes,
  select_smart_default_route_indexes, total_metric,
}
use pinus_smart_awg.Text.Number.{below}

-- no candidate of the list is below a metric
abbrev pub none_below : ℕ → List SmartDefaultRouteCandidate → Bool
none_below m cs = all (λ d. not (is_candidate d) || leb m (total_metric d)) cs

-- a candidate for an interface of minimal metric, no worse than a limit
abbrev pub is_best : ℕ → ℕ → List SmartDefaultRouteCandidate → SmartDefaultRouteCandidate → Bool
is_best n limit cs c =
    (is_candidate c && (n == index_of c.interface_index))
    && (leb (total_metric c) limit && none_below (total_metric c) cs)

any-same :
    {A : Type 0} {p q : A → Bool} (f : (x : A) → p x ≡ q x) (xs : List A) → any p xs ≡ any q xs
any-same f [] = refl
any-same f (x ∷ xs) = rw (any-cons, any-cons, f x, any-same f xs) refl

select_routes_skip :
    (c : SmartDefaultRouteCandidate) (cs : List SmartDefaultRouteCandidate) (lowest : ℕ)
    (selected : List ℕ)
    → is_candidate c ≡ false
    → select_routes (c ∷ cs) lowest selected ≡ select_routes cs lowest selected
unfolding select_routes
select_routes_skip c cs lowest selected h = rw h refl

select_routes_lower :
    (c : SmartDefaultRouteCandidate) (cs : List SmartDefaultRouteCandidate) (lowest : ℕ)
    (selected : List ℕ)
    → is_candidate c ≡ true
    → ltb (total_metric c) lowest ≡ true
    → select_routes (c ∷ cs) lowest selected
      ≡ select_routes cs (total_metric c) (index_of c.interface_index ∷ [])
unfolding select_routes
select_routes_lower c cs lowest selected h k =
    rw (h, k, (==_iff (total_metric c) (total_metric c)).1 refl) refl

select_routes_same :
    (c : SmartDefaultRouteCandidate) (cs : List SmartDefaultRouteCandidate) (lowest : ℕ)
    (selected : List ℕ)
    → is_candidate c ≡ true
    → ltb (total_metric c) lowest ≡ false
    → select_routes (c ∷ cs) lowest selected
      ≡ select_routes cs lowest
          (if total_metric c == lowest then index_of c.interface_index ∷ selected else selected)
unfolding select_routes
select_routes_same c cs lowest selected h k = rw (h, k) refl

-- the limit of the remaining candidates
is_best_skip :
    (n limit : ℕ) (c : SmartDefaultRouteCandidate) (cs : List SmartDefaultRouteCandidate)
    (d : SmartDefaultRouteCandidate)
    → is_candidate c ≡ false
    → is_best n limit (c ∷ cs) d ≡ is_best n limit cs d
is_best_skip n limit c cs d h = rw h refl

limits :
    (limit m k : ℕ) (f g : Bool)
    → (f && (leb k limit && (leb k m && g)))
      ≡ (f && (leb k (if ltb m limit then m else limit) && g))
limits limit m k f g = ground arith

is_best_take :
    (n limit : ℕ) (c : SmartDefaultRouteCandidate) (cs : List SmartDefaultRouteCandidate)
    (d : SmartDefaultRouteCandidate)
    → is_candidate c ≡ true
    → is_best n limit (c ∷ cs) d
      ≡ is_best n (if ltb (total_metric c) limit then total_metric c else limit) cs d
is_best_take n limit c cs d h = rw h (
    limits limit (total_metric c) (total_metric d)
      (is_candidate d && (n == index_of d.interface_index)) (none_below (total_metric d) cs))

skip_case : (s x y : Bool) → ((s && x) || y) ≡ ((s && (true && x)) || (false || y))
skip_case s x y = ground arith

any-both : (n i : ℕ) (xs : List ℕ) → any (◌==◌ n) (i ∷ xs) ≡ ((n == i) || any (◌==◌ n) xs)
any-both n i xs = any-cons (◌==◌ n) i xs

-- A lower metric starts the set again.
lower_case :
    (m l : ℕ) (h s b u v : Bool)
    → ltb m l ≡ true
    → (((h || false) && u) || b)
      ≡ ((s && (leb l m && v)) || ((h && (leb m l && (leb m m && u))) || b))
lower_case m l h s b u v k = ground arith

-- An equal metric adds to the set.
equal_case :
    (m l : ℕ) (h s b : Bool) (below : ℕ → Bool)
    → m ≡ l
    → (((h || s) && below l) || b)
      ≡ ((s && (leb l m && below l)) || ((h && (leb m l && (leb m m && below m))) || b))
equal_case m l h s b below q = rw q (go (below l))
  where
    go :
        (u : Bool)
        → (((h || s) && u) || b)
          ≡ ((s && (leb l l && u)) || ((h && (leb l l && (leb l l && u))) || b))
    go u = ground arith

-- A higher metric changes nothing.
higher_case :
    (m l : ℕ) (h s b u v : Bool)
    → ltb m l ≡ false
    → (m == l) ≡ false
    → ((s && v) || b) ≡ ((s && (leb l m && v)) || ((h && (leb m l && (leb m m && u))) || b))
higher_case m l h s b u v k q = ground arith

no_candidate : (b : Bool) → b ≡ ((b && true) || false)
no_candidate b = ground arith

select_routes_none : (lowest : ℕ) (selected : List ℕ) → select_routes [] lowest selected ≡ selected
unfolding select_routes
select_routes_none lowest selected = refl

select_routes_lem :
    (n : ℕ) (cs : List SmartDefaultRouteCandidate) (lowest : ℕ) (selected : List ℕ)
    → any (◌==◌ n) (select_routes cs lowest selected)
      ≡ ((any (◌==◌ n) selected && none_below lowest cs) || any (is_best n lowest cs) cs)
select_routes_lem n [] lowest selected =
    ap (any (◌==◌ n)) (select_routes_none lowest selected) ∙ no_candidate (any (◌==◌ n) selected)
select_routes_lem n (c ∷ cs) lowest selected =
    let m = total_metric c in
    let here = n == index_of c.interface_index in
    let best = is_best n lowest (c ∷ cs) in
    elim (Bool-cases (is_candidate c)) [
      | inr e ↦
          ap (any (◌==◌ n)) (select_routes_skip c cs lowest selected e)
          ∙ select_routes_lem n cs lowest selected
          ∙ rw (any-cons best c cs, any-same (λ d. is_best_skip n lowest c cs d e) cs, e)
              (skip_case (any (◌==◌ n) selected) (none_below lowest cs)
                (any (is_best n lowest cs) cs))
      | inl e ↦ elim (Bool-cases (ltb m lowest)) [
        | inl k ↦
            ap (any (◌==◌ n)) (select_routes_lower c cs lowest selected e k)
            ∙ select_routes_lem n cs m (index_of c.interface_index ∷ [])
            ∙ rw (any-cons best c cs, any-same (λ d. is_best_take n lowest c cs d e) cs, e, k)
                (rw (any-both n (index_of c.interface_index) []) (
                  lower_case m lowest here (any (◌==◌ n) selected) (any (is_best n m cs) cs)
                    (none_below m cs) (none_below lowest cs) k))
        | inr k ↦
            ap (any (◌==◌ n)) (select_routes_same c cs lowest selected e k)
            ∙ select_routes_lem n cs lowest
                (if m == lowest then index_of c.interface_index ∷ selected else selected)
            ∙ rw (any-cons best c cs, any-same (λ d. is_best_take n lowest c cs d e) cs, e, k)
                (elim (Bool-cases (m == lowest)) [
                  | inl q ↦
                      rw (q, any-both n (index_of c.interface_index) selected)
                        (equal_case m lowest here (any (◌==◌ n) selected)
                          (any (is_best n lowest cs) cs) (λ d. none_below d cs)
                          ((==_iff m lowest).0 q))
                  | inr q ↦ rw q (
                      higher_case m lowest here (any (◌==◌ n) selected)
                        (any (is_best n lowest cs) cs) (none_below m cs) (none_below lowest cs) k q)
                ])
      ]
    ]

-- Whether the selection holds an interface `n`: it does exactly when some candidate of the list, up
-- and not excluded, is for `n` and no candidate of the list has a lower total metric.  The total
-- metric is at most the largest number of 64 bits.
pub select_smart_default_route_indexes_iff :
    (n : ℕ) (cs : List SmartDefaultRouteCandidate)
    → any (◌==◌ n) (select_smart_default_route_indexes cs) ≡ any (is_best n (2 ^ 64 - 1) cs) cs
unfolding select_smart_default_route_indexes
select_smart_default_route_indexes_iff n cs = select_routes_lem n cs (2 ^ 64 - 1) []
