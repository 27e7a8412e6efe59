-- ===== src/Manager/Fallback/Laws.antt =====
-- The fallback profiles are tried one after the other until one starts.
use pinus_smart_awg.Common.{
  Bool, List, Option, [], ap, false, inl, inr, none, refl, reverse, reverse-cons, some, true, ℕ,
  ◌++◌, ◌∷◌, ◌≡◌, ◌≢◌, ◌⊎◌,
}
use pinus_smart_awg.Manager.Fallback.{FallbackRun, StartAnswer, recover_with_fallbacks, try_names}
use pinus_smart_awg.Smart.{RoutingSettings}
use pinus_smart_awg.Text.{Bytes, one_of}
use pinus_smart_awg.Text.Case.{to_lower}

-- the names that differ, but for case, from those before them
unfoldable pub distinct : (ℕ → ℕ) → List Bytes → List Bytes → List Bytes
distinct lower seen [] = []
distinct lower seen (n ∷ ns) = elim (one_of (to_lower lower n) seen) [
  | true ↦ distinct lower seen ns
  | false ↦ n ∷ distinct lower (to_lower lower n ∷ seen) ns
]

module _ {E : Type 0} where
  -- none of the names starts, after those already tried
  unfoldable pub none_starts : StartAnswer E → List Bytes → List Bytes → Bool
  none_starts attempt made [] = true
  none_starts attempt made (n ∷ ns) = elim (attempt (n ∷ made)) [
    | none ↦ false
    | some e ↦ none_starts attempt (n ∷ made) ns
  ]

  -- The run stopped at the first name that starts, or all of them were tried in vain.
  abbrev pub Outcome : StartAnswer E → List Bytes → List Bytes → FallbackRun E → Type 0
  Outcome attempt made names run =
      ((earlier : List Bytes) × (n : Bytes) × (later : List Bytes) × (names ≡ earlier ++ n ∷ later)
        × (none_starts attempt made earlier ≡ true)
        × (attempt (n ∷ (reverse earlier ++ made)) ≡ none)
        × (run.tried ≡ n ∷ (reverse earlier ++ made))
        × (run.errors ≡ none))
      ⊎ ((none_starts attempt made names ≡ true)
          × (run.tried ≡ reverse names ++ made)
          × (run.errors ≢ none))

  none_starts-cons :
      (attempt : StartAnswer E) (made : List Bytes) (n : Bytes) (ns : List Bytes) (e : E)
      → attempt (n ∷ made) ≡ some e
      → none_starts attempt (n ∷ made) ns ≡ true
      → none_starts attempt made (n ∷ ns) ≡ true
  unfolding none_starts
  none_starts-cons attempt made n ns e h k = rw (none_starts, h) k

  Outcome-cons :
      (attempt : StartAnswer E) (made : List Bytes) (n : Bytes) (ns : List Bytes)
      (run : FallbackRun E) (e : E)
      → attempt (n ∷ made) ≡ some e
      → Outcome attempt (n ∷ made) ns run
      → Outcome attempt made (n ∷ ns) run
  Outcome-cons attempt made n ns run e h
        (inl (earlier, m, later, parts, failing, starts, order, fine)) =
      inl (
        n ∷ earlier,
        m,
        later,
        ap (◌∷◌ n) parts,
        none_starts-cons attempt made n earlier e h failing,
        rw (reverse-cons n earlier made) starts,
        rw (reverse-cons n earlier made) order,
        fine,
      )
  Outcome-cons attempt made n ns run e h (inr (failing, order, bad)) =
      inr (none_starts-cons attempt made n ns e h failing, rw (reverse-cons n ns made) order, bad)

  try_names-Outcome :
      (lower : ℕ → ℕ) (attempt : StartAnswer E) (seen names made : List Bytes)
      (errors : List (Bytes × E))
      → Outcome attempt made
          (distinct lower seen names)
          (try_names lower attempt seen names made errors)
  unfolding try_names distinct none_starts
  try_names-Outcome lower attempt seen [] made errors = inr (refl, refl, λ h. cc)
  try_names-Outcome lower attempt seen (n ∷ ns) made errors =
      go (one_of (to_lower lower n) seen) (attempt (n ∷ made)) refl
        (try_names-Outcome lower attempt seen ns made errors)
        (λ e.
          try_names-Outcome lower attempt (to_lower lower n ∷ seen) ns (n ∷ made)
            (errors ++ (n, e) ∷ []))
    where
      go :
          (b : Bool) (o : Option E)
          → attempt (n ∷ made) ≡ o
          → Outcome attempt made
              (distinct lower seen ns)
              (try_names lower attempt seen ns made errors)
          → ((e : E)
              → Outcome attempt (n ∷ made) (distinct lower (to_lower lower n ∷ seen) ns) (
                  try_names lower attempt
                    (to_lower lower n ∷ seen)
                    ns
                    (n ∷ made)
                    (errors ++ (n, e) ∷ [])))
          → Outcome attempt made
              (elim b [
                | true ↦ distinct lower seen ns
                | false ↦ n ∷ distinct lower (to_lower lower n ∷ seen) ns
              ])
              (elim b [
                | true ↦ try_names lower attempt seen ns made errors
                | false ↦ elim o [
                  | none ↦ record { tried = n ∷ made; errors = none }
                  | some e ↦
                      try_names lower attempt
                        (to_lower lower n ∷ seen)
                        ns
                        (n ∷ made)
                        (errors ++ (n, e) ∷ [])
                ]
              ])
      go true o h skip next = skip
      go false none h skip next =
          inl ([], n, distinct lower (to_lower lower n ∷ seen) ns, refl, refl, h, refl, refl)
      go false (some e) h skip next =
          Outcome-cons attempt made n (distinct lower (to_lower lower n ∷ seen) ns)
            (try_names lower attempt (to_lower lower n ∷ seen) ns (n ∷ made)
              (errors ++ (n, e) ∷ []))
            e h (next e)

  -- Recovery tries the profile and then its fallbacks in order, each name once whatever its case,
  -- and stops with success at the first that starts; it returns an error if and only if it has tried
  -- all of them and none has started.
  pub recover_with_fallbacks-Outcome :
      (lower : ℕ → ℕ) (primary : Bytes) (routing : RoutingSettings) (attempt : StartAnswer E)
      → Outcome attempt []
          (distinct lower [] (primary ∷ routing.fallback_profiles))
          (recover_with_fallbacks lower primary routing attempt)
  unfolding recover_with_fallbacks
  recover_with_fallbacks-Outcome lower primary routing attempt =
      try_names-Outcome lower attempt [] (primary ∷ routing.fallback_profiles) [] []
