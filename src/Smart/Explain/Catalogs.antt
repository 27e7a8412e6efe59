-- ===== src/Smart/Explain/Catalogs.antt =====
-- The suffixes of the catalogs in client/smart.
use pinus_smart_awg.Common.{
  All-weaken, Bool, List, all, all-All, and_true, arith, is_empty, not, refl, true, ℕ, ◌&&◌, ◌≡◌,
}
use pinus_smart_awg.Smart.{Service}
use pinus_smart_awg.Smart.Explain.{plain_rule}
use pinus_smart_awg.Smart.Explain.Engine.{IsCatalog, IsSuffix}
use pinus_smart_awg.Smart.Regional.{regional_services}
use pinus_smart_awg.Smart.Rules.{dotted, root_of}
use pinus_smart_awg.Text.{Bytes, equal, equal_iff}
use pinus_smart_awg.Text.Case.{to_lower}
use pinus_smart_awg.Text.Search.{trim_suffix}

-- a catalog's suffix, by a test
abbrev is_suffix : (ℕ → ℕ) → Bytes → Bool
is_suffix lower s =
    equal (plain_rule lower s) (root_of s)
    && equal s (dotted (root_of s))
    && not (is_empty (root_of s))

is_suffix-IsSuffix : (lower : ℕ → ℕ) (s : Bytes) → is_suffix lower s ≡ true → IsSuffix lower s
is_suffix-IsSuffix lower s h =
    let (p, n) =
      and_true (equal (plain_rule lower s) (root_of s) && equal s (dotted (root_of s))) _ h in
    let (a, d) = and_true (equal (plain_rule lower s) (root_of s)) _ p in
    record {
      plain = (equal_iff (plain_rule lower s) (root_of s)).0 a;
      with_dot = (equal_iff s (dotted (root_of s))).0 d;
      not_empty = ground (arith, n);
    }

abbrev is_catalog : (ℕ → ℕ) → List Service → Bool
is_catalog lower xs = all (λ x. all (is_suffix lower) x.domain_suffixes) xs

pub is_catalog-IsCatalog :
    (lower : ℕ → ℕ) (xs : List Service) → is_catalog lower xs ≡ true → IsCatalog lower xs
is_catalog-IsCatalog lower xs h =
    All-weaken
      (λ x k.
        All-weaken (λ s j. is_suffix-IsSuffix lower s j) x.domain_suffixes
          (all-All (is_suffix lower) x.domain_suffixes k))
      xs (all-All (λ x. all (is_suffix lower) x.domain_suffixes) xs h)

pub regional_services-IsCatalog : (lower : ℕ → ℕ) → IsCatalog lower regional_services
unfolding equal to_lower trim_suffix
regional_services-IsCatalog lower = is_catalog-IsCatalog lower regional_services refl
