-- ===== src/Manager/Switch/Stop.antt =====
-- Stopping a list of tunnels: each name once.
use pinus_smart_awg.Common.{
  Bool, Bool-cases, List, [], any, any-cons, ap, append-nil, arith, count, false, if◌then◌else◌,
  inl, inr, is_empty, map, not, refl, reverse, sym, true, ℕ, ◌&&◌, ◌++◌, ◌+◌, ◌||◌, ◌∙◌, ◌∷◌, ◌≡◌,
}
use pinus_smart_awg.Manager.Switch.{
  Answer, forgiving, start_run, stop_native_tunnels_locked, stop_tunnel, unique_names, wait_tunnel,
}
use pinus_smart_awg.Manager.Switch.Execute.{
  call_all-append, call_all-calls, call_all-failures, succeed,
}
use pinus_smart_awg.Text.{Bytes, equal, equal_iff, one_of}
use pinus_smart_awg.Text.Order.{sort_strings}
use pinus_smart_awg.Text.Order.Sorted.{IsSorted, count-sort_strings, sort_strings-IsSorted}

unique_names_skip :
    (n : Bytes) (seen ns : List Bytes)
    → (is_empty n || one_of n seen) ≡ true
    → unique_names seen (n ∷ ns) ≡ unique_names seen ns
unfolding unique_names
unique_names_skip n seen ns h = rw (unique_names, h) refl

unique_names_take :
    (n : Bytes) (seen ns : List Bytes)
    → (is_empty n || one_of n seen) ≡ false
    → unique_names seen (n ∷ ns) ≡ n ∷ unique_names (n ∷ seen) ns
unfolding unique_names
unique_names_take n seen ns h = rw (unique_names, h) refl

one_of-any : (s : Bytes) (ts : List Bytes) → one_of s ts ≡ any (equal s) ts
unfolding one_of
one_of-any s [] = refl
one_of-any s (t ∷ ts) = rw (any-cons, one_of-any s ts) refl

-- how often a name is called, from whether it is empty, has been seen, and is still to come
abbrev once : Bool → Bool → Bool → ℕ
once blank before later = if before then 0 else if not blank && later then 1 else 0

once_skip :
    (same blank before later : Bool)
    → (same ≡ true → (blank || before) ≡ true)
    → once blank before later ≡ once blank before (same || later)
once_skip same blank before later h = ground arith

once_take :
    (same blank before later : Bool)
    → (same ≡ true → (blank || before) ≡ false)
    → (if same then 1 else 0) + once blank (same || before) later
      ≡ once blank before (same || later)
once_take same blank before later h = ground arith

same_test :
    (name n : Bytes) (seen : List Bytes) {b : Bool}
    → (is_empty n || one_of n seen) ≡ b
    → equal name n ≡ true
    → (is_empty name || any (equal name) seen) ≡ b
same_test name n seen h e = rw ((equal_iff name n).0 e, sym (one_of-any n seen)) h

-- each name once, unless it is empty or has been seen
count-unique_names :
    (name : Bytes) (seen names : List Bytes)
    → count (equal name) (unique_names seen names)
      ≡ once (is_empty name) (any (equal name) seen) (any (equal name) names)
unfolding unique_names
count-unique_names name seen [] = once_none (is_empty name) (any (equal name) seen)
  where
    once_none : (blank before : Bool) → 0 ≡ once blank before false
    once_none blank before = ground arith
count-unique_names name seen (n ∷ ns) = elim (Bool-cases (is_empty n || one_of n seen)) [
  | inl e ↦
      rw (unique_names_skip n seen ns e, count-unique_names name seen ns, any-cons)
        (once_skip (equal name n) (is_empty name) (any (equal name) seen) (any (equal name) ns)
          (same_test name n seen e))
  | inr e ↦
      rw (unique_names_take n seen ns e, count-unique_names name (n ∷ seen) ns, any-cons, any-cons)
        (once_take (equal name n) (is_empty name) (any (equal name) seen) (any (equal name) ns)
          (same_test name n seen e))
]

module _ {E : Type 0} where
  -- Stopping a list of tunnels asks each of them to stop and then waits for each, in ascending
  -- order, whatever the answers are: every name but the empty one is called once, however often the
  -- list has it. The result is no error if and only if every call succeeds, where a service that no
  -- longer exists counts as stopped.
  pub stop_native_tunnels_locked_lem :
      (gone : E → Bool) (names : List Bytes) (answer : Answer E)
      → (ordered : List Bytes) × ((stop_native_tunnels_locked gone names answer).calls
          ≡ reverse (map stop_tunnel ordered ++ map wait_tunnel ordered))
        × (is_empty (stop_native_tunnels_locked gone names answer).failures
            ≡ succeed
                (forgiving gone answer)
                []
                (map stop_tunnel ordered ++ map wait_tunnel ordered))
        × IsSorted ordered
        × ((name : Bytes)
            → count (equal name) ordered
              ≡ (if not (is_empty name) && any (equal name) names then 1 else 0))
  unfolding stop_native_tunnels_locked
  stop_native_tunnels_locked_lem gone names answer =
      let ordered = sort_strings (unique_names [] names) in
      let cs = map stop_tunnel ordered ++ map wait_tunnel ordered in
      (
        ordered,
        ap (λ r. r.calls)
              (sym (
                call_all-append (forgiving gone answer) (map stop_tunnel ordered)
                  (map wait_tunnel ordered) start_run))
            ∙ call_all-calls (forgiving gone answer) cs start_run
            ∙ append-nil (reverse cs),
        ap (λ r. is_empty r.failures)
              (sym (
                call_all-append (forgiving gone answer) (map stop_tunnel ordered)
                  (map wait_tunnel ordered) start_run))
            ∙ call_all-failures (forgiving gone answer) cs start_run,
        sort_strings-IsSorted (unique_names [] names),
        λ name.
            count-sort_strings (equal name) (unique_names [] names)
            ∙ count-unique_names name [] names,
      )
