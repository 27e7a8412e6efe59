-- ===== src/Manager/Fallback.antt =====
-- client/manager/fallback.go: recovery with other profiles when the first one does not start.
pub mod Laws
use pinus_smart_awg.Common.{List, Option, [], false, none, some, true, ℕ, ◌++◌, ◌∷◌}
use pinus_smart_awg.Smart.{RoutingSettings}
use pinus_smart_awg.Text.{Bytes, one_of}
use pinus_smart_awg.Text.Case.{to_lower}

-- The names that `start` was called with, newest first, and the joined errors; no errors mean that
-- the last of them started.
pub record FallbackRun (E : Type 0) : Type 0 where
  pub tried : List Bytes
  pub errors : Option (List (Bytes × E))

-- What `start` answers to the last of the names tried so far, newest first.
abbrev pub StartAnswer : Type 0 → Type 0
StartAnswer E = List Bytes → Option E

module _ {E : Type 0} where
  -- The loop over the names, with the keys seen, the names tried and the errors joined so far.
  unfoldable pub try_names :
      (ℕ → ℕ)
      → StartAnswer E
      → List Bytes
      → List Bytes
      → List Bytes
      → List (Bytes × E)
      → FallbackRun E
  try_names lower attempt seen [] made errors = record { tried = made; errors = some errors }
  try_names lower attempt seen (n ∷ ns) made errors = elim (one_of (to_lower lower n) seen) [
    | true ↦ try_names lower attempt seen ns made errors
    | false ↦ elim (attempt (n ∷ made)) [
      | none ↦ record { tried = n ∷ made; errors = none }
      | some e ↦
          try_names lower attempt (to_lower lower n ∷ seen) ns (n ∷ made) (errors ++ (n, e) ∷ [])
    ]
  ]

  unfoldable pub recover_with_fallbacks :
      (ℕ → ℕ) → Bytes → RoutingSettings → StartAnswer E → FallbackRun E
  recover_with_fallbacks lower primary routing attempt =
      try_names lower attempt [] (primary ∷ routing.fallback_profiles) [] []
