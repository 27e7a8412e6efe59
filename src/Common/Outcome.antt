-- ===== src/Common/Outcome.antt =====
-- Results with errors, for `(T, error)`.
use pinus_smart_awg.Common.Lists.{All}
use mathlib.Core.Logic.{◌↔◌}
use mathlib.Core.Path.{◌≡◌, refl, subst}
use mathlib.Core.Bool.{Bool, true, false, not, ◌&&◌}
use mathlib.Core.Option.{Option, none, some}
use mathlib.Core.List.{List, [], ◌∷◌}

pub data Result {ℓ} (E : Type 0) (A : Type ℓ) : Type ℓ where
  ok : A → Result E A
  err : E → Result E A

infixl 5 ◌>>=◌ ◌>>◌
abbrev pub ◌>>=◌ {ℓ κ} :
    {E : Type 0} {A : Type ℓ} {B : Type κ} → Result E A → (A → Result E B) → Result E B
ok a >>= f = f a
err e >>= f = err e

abbrev pub ◌>>◌ {ℓ} : {E : Type 0} {B : Type ℓ} → Result E (Unit {0}) → Result E B → Result E B
m >> k = m >>= λ _. k

-- `if bad { return err }`
abbrev pub refuse_if : {E : Type 0} → Bool → E → Result E (Unit {0})
refuse_if true e = err e
refuse_if false e = ok tt

abbrev pub of_option {ℓ} : {E : Type 0} {A : Type ℓ} → E → Option A → Result E A
of_option e none = err e
of_option e (some a) = ok a

abbrev pub is_ok {ℓ} : {E : Type 0} {A : Type ℓ} → Result E A → Bool
is_ok (ok a) = true
is_ok (err e) = false

-- `fmt.Errorf("...: %w", err)`
abbrev pub map_err {ℓ} : {E F : Type 0} {A : Type ℓ} → (E → F) → Result E A → Result F A
map_err f (ok a) = ok a
map_err f (err e) = err (f e)

-- a loop whose body may return an error
abbrev pub for_each {ℓ} :
    {E : Type 0} {A : Type ℓ} → (A → Result E (Unit {0})) → List A → Result E (Unit {0})
for_each f [] = ok tt
for_each f (x ∷ xs) = elim (f x) [ ok _ ↦ for_each f xs | err e ↦ err e ]

pub bind-eq-ok {ℓ κ} :
    {E : Type 0} {A : Type ℓ} {B : Type κ} (m : Result E A) (f : A → Result E B) {b : B}
    → (m >>= f) ≡ ok b
    → (a : A) × (m ≡ ok a) × (f a ≡ ok b)
bind-eq-ok (ok a) f h = (a, refl, h)
bind-eq-ok (err e) f h = cc

pub refuse_if-eq-ok :
    {E : Type 0} (b : Bool) (e : E) {u : Unit {0}} → refuse_if b e ≡ ok u → b ≡ false
refuse_if-eq-ok true e h = cc
refuse_if-eq-ok false e h = refl

pub of_option-eq-ok {ℓ} :
    {E : Type 0} {A : Type ℓ} (e : E) (o : Option A) {a : A} → of_option e o ≡ ok a → o ≡ some a
of_option-eq-ok e none h = cc
of_option-eq-ok e (some x) h = cc

pub map_err-eq-ok {ℓ} :
    {E F : Type 0} {A : Type ℓ} (f : E → F) (m : Result E A) {a : A} → map_err f m ≡ ok a → m ≡ ok a
map_err-eq-ok f (ok x) h = cc
map_err-eq-ok f (err e) h = cc

pub refuse_if_iff : {E : Type 0} (b : Bool) (e : E) → (refuse_if b e ≡ ok tt) ↔ (b ≡ false)
refuse_if_iff true e = (λ h. cc, λ h. cc)
refuse_if_iff false e = (λ h. refl, λ h. refl)

pub for_each_iff {ℓ} :
    {E : Type 0} {A : Type ℓ} (f : A → Result E (Unit {0})) (xs : List A)
    → (for_each f xs ≡ ok tt) ↔ All (λ x. f x ≡ ok tt) xs
for_each_iff {E = E} f [] = (λ h. tt, λ h. refl)
for_each_iff {E = E} f (x ∷ xs) = go (f x) refl (for_each_iff f xs)
  where
    go :
        (r : Result E (Unit {0}))
        → f x ≡ r
        → (for_each f xs ≡ ok tt) ↔ All (λ y. f y ≡ ok tt) xs
        → (elim r [ ok _ ↦ for_each f xs | err e ↦ err e ] ≡ ok tt)
          ↔ ((r ≡ ok tt) × All (λ y. f y ≡ ok tt) xs)
    go (ok u) e ih = (λ h. (refl, ih.0 h), λ h. ih.1 h.1)
    go (err e') e ih = (λ h. cc, λ h. cc h.0)

-- two checks in a row
pub then_iff :
    {E : Type 0} (m k : Result E (Unit {0})) → ((m >> k) ≡ ok tt) ↔ ((m ≡ ok tt) × (k ≡ ok tt))
then_iff (ok u) k = (λ h. (refl, h), λ h. h.1)
then_iff (err e) k = (λ h. cc, λ h. cc h.0)

-- What holds of the value of a result that is no error.
abbrev pub Ensures {ℓ κ} : {E : Type 0} {A : Type ℓ} → (A → Type κ) → Result E A → Type κ
Ensures P (ok a) = P a
Ensures P (err e) = Unit

pub Ensures-bind {ℓ κ η μ} :
    {E : Type 0} {A : Type ℓ} {B : Type κ} (P : A → Type η) (Q : B → Type μ) (m : Result E A)
    (f : A → Result E B)
    → Ensures P m
    → ((a : A) → P a → Ensures Q (f a))
    → Ensures Q (m >>= f)
Ensures-bind P Q (ok a) f h k = k a h
Ensures-bind P Q (err e) f h k = tt

pub Ensures-any {ℓ} : {E : Type 0} {A : Type ℓ} (m : Result E A) → Ensures (λ a. Unit {0}) m
Ensures-any (ok a) = tt
Ensures-any (err e) = tt

pub Ensures-map_err {ℓ κ} :
    {E F : Type 0} {A : Type ℓ} (P : A → Type κ) (f : E → F) (m : Result E A)
    → Ensures P m
    → Ensures P (map_err f m)
Ensures-map_err P f (ok a) h = h
Ensures-map_err P f (err e) h = tt

pub Ensures-ok {ℓ κ} :
    {E : Type 0} {A : Type ℓ} (P : A → Type κ) {m : Result E A} {a : A}
    → Ensures P m
    → m ≡ ok a
    → P a
Ensures-ok P h e = subst (Ensures P) e h

pub Ensures-of_option {ℓ κ} :
    {E : Type 0} {A : Type ℓ} (P : A → Type κ) (e : E) (o : Option A)
    → ((a : A) → o ≡ some a → P a)
    → Ensures P (of_option e o)
Ensures-of_option P e none h = tt
Ensures-of_option P e (some a) h = h a refl

pub Ensures-then {ℓ κ} :
    {E : Type 0} {A : Type ℓ} (P : A → Type κ) (m : Result E (Unit {0})) (k : Result E A)
    → Ensures P k
    → Ensures P (m >> k)
Ensures-then P (ok u) k h = h
Ensures-then P (err e) k h = tt

pub ok-injective {ℓ} : {E : Type 0} {A : Type ℓ} {a b : A} → Path (Result E A) (ok a) (ok b) → a ≡ b
ok-injective h = cc

pub is_ok-bind {ℓ κ} :
    {E : Type 0} {A : Type ℓ} {B : Type κ} (m : Result E A) (f : A → Result E B) (b : Bool)
    → ((a : A) → is_ok (f a) ≡ b)
    → is_ok (m >>= f) ≡ (is_ok m && b)
is_ok-bind (ok a) f b h = h a
is_ok-bind (err e) f b h = refl

pub is_ok-refuse_if : {E : Type 0} (b : Bool) (e : E) → is_ok (refuse_if b e) ≡ not b
is_ok-refuse_if true e = refl
is_ok-refuse_if false e = refl

pub is_ok-map_err {ℓ} :
    {E F : Type 0} {A : Type ℓ} (f : E → F) (m : Result E A) → is_ok (map_err f m) ≡ is_ok m
is_ok-map_err f (ok a) = refl
is_ok-map_err f (err e) = refl
