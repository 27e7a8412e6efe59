-- ===== src/Text/Order/Sorted.antt =====
-- What `sort.Strings` returns: the same strings, whatever their order, in ascending order.
use mathlib.Core.List.{Permᴰ}
use pinus_smart_awg.Common.{
  All, All-weaken, Bool, Bool-cases, List, [], any, any-cons, arith, count, false, if◌then◌else◌,
  inl, inr, refl, sym, true, ◌+◌, ◌||◌, ◌∙◌, ◌∷◌, ◌≡◌,
}
use pinus_smart_awg.Text.{Bytes}
use pinus_smart_awg.Text.Order.{
  comes_first, compare_bytes-eq, compare_bytes-flip, compare_bytes_trans, insert_sorted,
  sort_strings,
}

abbrev pub IsSorted : List Bytes → Type 0
IsSorted [] = Unit
IsSorted (s ∷ ss) = All (λ t. comes_first s t ≡ true) ss × IsSorted ss

pub any-insert_sorted :
    (p : Bytes → Bool) (s : Bytes) (ss : List Bytes)
    → any p (insert_sorted s ss) ≡ (p s || any p ss)
unfolding insert_sorted
any-insert_sorted p s [] = any-cons p s []
any-insert_sorted p s (t ∷ ts) = elim (Bool-cases (comes_first s t)) [
  | inl e ↦ rw (e, any-cons, any-cons) refl
  | inr e ↦ rw (e, any-cons, any-cons, any-insert_sorted p s ts) (ground arith)
]

pub any-sort_strings : (p : Bytes → Bool) (ss : List Bytes) → any p (sort_strings ss) ≡ any p ss
unfolding sort_strings
any-sort_strings p [] = refl
any-sort_strings p (s ∷ ss) = rw (any-insert_sorted, any-sort_strings p ss, any-cons) refl

comes_first_swap : (s t : Bytes) → comes_first s t ≡ false → comes_first t s ≡ true
comes_first_swap s t h = ground (arith, compare_bytes-flip s t)

comes_first_trans :
    (s t u : Bytes) → comes_first s t ≡ true → comes_first t u ≡ true → comes_first s u ≡ true
comes_first_trans s t u h k = ground (
  arith,
  compare_bytes-flip s t,
  compare_bytes-flip t u,
  compare_bytes-flip s u,
  compare_bytes_trans u t s,
  compare_bytes_trans s t u,
  compare_bytes_trans u s t,
  compare_bytes-eq s t,
  compare_bytes-eq t u,
)

comes_first_antisym : (s t : Bytes) → comes_first s t ≡ true → comes_first t s ≡ true → s ≡ t
comes_first_antisym s t h k = ground (arith, compare_bytes-flip s t, compare_bytes-eq s t)

insert_sorted_yes :
    (s t : Bytes) (ts : List Bytes) → comes_first s t ≡ true → insert_sorted s (t ∷ ts) ≡ s ∷ t ∷ ts
unfolding insert_sorted
insert_sorted_yes s t ts h = rw h

insert_sorted_no :
    (s t : Bytes) (ts : List Bytes)
    → comes_first s t ≡ false
    → insert_sorted s (t ∷ ts) ≡ t ∷ insert_sorted s ts
unfolding insert_sorted
insert_sorted_no s t ts h = rw h

All-insert_sorted {ℓ} :
    (P : Bytes → Type ℓ) (s : Bytes) (ss : List Bytes) → P s → All P ss → All P (insert_sorted s ss)
unfolding insert_sorted
All-insert_sorted P s [] h k = (h, k)
All-insert_sorted P s (t ∷ ts) h k = elim (Bool-cases (comes_first s t)) [
  | inl e ↦ rw e (h, k)
  | inr e ↦ rw e (k.0, All-insert_sorted P s ts h k.1)
]

insert_sorted-IsSorted : (s : Bytes) (ss : List Bytes) → IsSorted ss → IsSorted (insert_sorted s ss)
unfolding insert_sorted
insert_sorted-IsSorted s [] h = (tt, tt)
insert_sorted-IsSorted s (t ∷ ts) h = elim (Bool-cases (comes_first s t)) [
  | inl e ↦ rw e ((e, All-weaken (λ u k. comes_first_trans s t u e k) ts h.0), h)
  | inr e ↦ rw e (
    All-insert_sorted (λ u. comes_first t u ≡ true) s ts (comes_first_swap s t e) h.0,
    insert_sorted-IsSorted s ts h.1,
  )
]

pub sort_strings-IsSorted : (ss : List Bytes) → IsSorted (sort_strings ss)
unfolding sort_strings
sort_strings-IsSorted [] = tt
sort_strings-IsSorted (s ∷ ss) =
    insert_sorted-IsSorted s (sort_strings ss) (sort_strings-IsSorted ss)

pub count-insert_sorted :
    (p : Bytes → Bool) (s : Bytes) (ss : List Bytes)
    → count p (insert_sorted s ss) ≡ (if p s then 1 else 0) + count p ss
unfolding insert_sorted
count-insert_sorted p s [] = refl
count-insert_sorted p s (t ∷ ts) = elim (Bool-cases (comes_first s t)) [
  | inl e ↦ rw e refl
  | inr e ↦ rw (e, count-insert_sorted p s ts) (omega arith)
]

pub count-sort_strings :
    (p : Bytes → Bool) (ss : List Bytes) → count p (sort_strings ss) ≡ count p ss
unfolding sort_strings
count-sort_strings p [] = refl
count-sort_strings p (s ∷ ss) = rw (count-insert_sorted, count-sort_strings p ss) refl

insert_sorted_nil : (s : Bytes) → insert_sorted s [] ≡ s ∷ []
unfolding insert_sorted
insert_sorted_nil s = refl

after :
    (s t u : Bytes)
    → comes_first s t ≡ true
    → comes_first t u ≡ false
    → comes_first s u ≡ true
    → comes_first t s ≡ false
after s t u h k m = elim (Bool-cases (comes_first t s)) [
  | inl e ↦ ground (arith, comes_first_trans t s u e m)
  | inr e ↦ e
]

-- the two strings in one order
insert_sorted_two :
    (s t : Bytes) (us : List Bytes)
    → comes_first s t ≡ true
    → insert_sorted s (insert_sorted t us) ≡ insert_sorted t (insert_sorted s us)
insert_sorted_two s t [] h = elim (Bool-cases (comes_first t s)) [
  | inl k ↦ rw (comes_first_antisym s t h k)
  | inr k ↦
      rw
        (
          insert_sorted_nil,
          insert_sorted_nil,
          insert_sorted_yes s t [] h,
          insert_sorted_no t s [] k,
          insert_sorted_nil,
        )
        refl
]
insert_sorted_two s t (u ∷ us) h = elim (Bool-cases (comes_first t u)) [
  | inl k ↦ elim (Bool-cases (comes_first t s)) [
    | inl m ↦ rw (comes_first_antisym s t h m)
    | inr m ↦
        rw
          (
            insert_sorted_yes t u us k,
            insert_sorted_yes s t (u ∷ us) h,
            insert_sorted_yes s u us (comes_first_trans s t u h k),
            insert_sorted_no t s (u ∷ us) m,
            insert_sorted_yes t u us k,
          )
          refl
  ]
  | inr k ↦ elim (Bool-cases (comes_first s u)) [
    | inl m ↦
        rw
          (
            insert_sorted_no t u us k,
            insert_sorted_yes s u (insert_sorted t us) m,
            insert_sorted_yes s u us m,
            insert_sorted_no t s (u ∷ us) (after s t u h k m),
            insert_sorted_no t u us k,
          )
          refl
    | inr m ↦
        rw
          (
            insert_sorted_no t u us k,
            insert_sorted_no s u (insert_sorted t us) m,
            insert_sorted_no s u us m,
            insert_sorted_no t u (insert_sorted s us) k,
            insert_sorted_two s t us h,
          )
          refl
  ]
]

insert_sorted_comm :
    (s t : Bytes) (us : List Bytes)
    → insert_sorted s (insert_sorted t us) ≡ insert_sorted t (insert_sorted s us)
insert_sorted_comm s t us = elim (Bool-cases (comes_first s t)) [
  | inl h ↦ insert_sorted_two s t us h
  | inr h ↦ sym (insert_sorted_two t s us (comes_first_swap s t h))
]

-- However the strings come, they are sorted in the same way.
pub sort_strings-Perm : {ss ts : List Bytes} → Permᴰ ss ts → sort_strings ss ≡ sort_strings ts
unfolding sort_strings
sort_strings-Perm Permᴰ.nil = refl
sort_strings-Perm (Permᴰ.cons e p) = rw (e, sort_strings-Perm p) refl
sort_strings-Perm (Permᴰ.swap {a} {b} {l = l} e f) =
    rw (sym e, sym f) (insert_sorted_comm a b (sort_strings l))
sort_strings-Perm (Permᴰ.trans p q) = sort_strings-Perm p ∙ sort_strings-Perm q
