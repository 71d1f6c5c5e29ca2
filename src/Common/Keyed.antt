-- ===== src/Common/Keyed.antt =====
-- Linked lists of records that are found by a key.
use Prim.Native.Nat.{ℕ, ◌+◌, ◌≤◌}
use mathlib.Core.Path.{◌≡◌, refl, sym, ap, ◌∙◌, subst}
use mathlib.Core.Logic.{inl, inr, ◌≢◌}
use mathlib.Core.Option.{Option, none, some, some-injective, none-ne-some}
use mathlib.Core.List.{List, [], ◌∷◌, ◌++◌}
use native.Mathlib.Omega.{arith}
use algorithm.Common.Tests.{◌==◌, if◌then◌else◌, Bool-cases, Option-cases, if_true, if_false}

module _ {ℓ} {A : Type ℓ} (key : A → ℕ) where
  abbrev pub find_by : ℕ → List A → Option A
  find_by k [] = none
  find_by k (a ∷ xs) = if key a == k then some a else find_by k xs

  -- A change of the record that is found.
  abbrev pub modify_by : ℕ → (A → A) → List A → List A
  modify_by k f [] = []
  modify_by k f (a ∷ xs) = let rest = modify_by k f xs in if key a == k then f a ∷ xs else a ∷ rest

  -- A new record at the tail, where none is found.
  abbrev pub ensure_by : ℕ → A → List A → List A
  ensure_by k new xs = elim (find_by k xs) [ none ↦ xs ++ new ∷ [] | some a ↦ xs ]

  -- How many records have the key.
  abbrev pub number_by : ℕ → List A → ℕ
  number_by k [] = 0
  number_by k (a ∷ xs) = (if key a == k then 1 else 0) + number_by k xs

  pub number_none : (k : ℕ) (xs : List A) → find_by k xs ≡ none → number_by k xs ≡ 0
  number_none k [] h = refl
  number_none k (a ∷ xs) h = elim (Bool-cases (key a == k)) [
    | inl e ↦ absurd (none-ne-some a (sym h ∙ if_true (some a) (find_by k xs) e))
    | inr e ↦ ground (arith, number_none k xs (sym (if_false (some a) (find_by k xs) e) ∙ h))
  ]

  pub number-modify_by :
      (z k : ℕ) (f : A → A) (xs : List A)
      → ((a : A) → key a ≡ k → key (f a) ≡ k)
      → number_by z (modify_by k f xs) ≡ number_by z xs
  number-modify_by z k f [] h = refl
  number-modify_by z k f (a ∷ xs) h = elim (Bool-cases (key a == k)) [
    | inl e ↦
        ap (number_by z) (if_true (f a ∷ xs) (a ∷ modify_by k f xs) e)
        ∙ ground (arith, h a (ground arith))
    | inr e ↦
        ap (number_by z) (if_false (f a ∷ xs) (a ∷ modify_by k f xs) e)
        ∙ ap (λ n. (if key a == z then 1 else 0) + n) (number-modify_by z k f xs h)
  ]

  pub find-modify_self :
      (k : ℕ) (f : A → A) (xs : List A) {a : A}
      → find_by k xs ≡ some a
      → ((a : A) → key a ≡ k → key (f a) ≡ k)
      → find_by k (modify_by k f xs) ≡ some (f a)
  find-modify_self k f [] {a} h g = absurd (none-ne-some a h)
  find-modify_self k f (b ∷ xs) {a} h g = elim (Bool-cases (key b == k)) [
    | inl e ↦
        let same : b ≡ a = some-injective b a (sym (if_true (some b) (find_by k xs) e) ∙ h) in
        ap (find_by k) (if_true (f b ∷ xs) (b ∷ modify_by k f xs) e)
        ∙ if_true {b = key (f b) == k} (some (f b)) (find_by k xs)
            (ground (arith, g b (ground arith)))
        ∙ ap (λ c. some (f c)) same
    | inr e ↦
        ap (find_by k) (if_false (f b ∷ xs) (b ∷ modify_by k f xs) e)
        ∙ if_false (some b) (find_by k (modify_by k f xs)) e
        ∙ find-modify_self k f xs (sym (if_false (some b) (find_by k xs) e) ∙ h) g
  ]

  pub find-modify_none :
      (k : ℕ) (f : A → A) (xs : List A) → find_by k xs ≡ none → find_by k (modify_by k f xs) ≡ none
  find-modify_none k f [] h = refl
  find-modify_none k f (b ∷ xs) h = elim (Bool-cases (key b == k)) [
    | inl e ↦ absurd (none-ne-some b (sym h ∙ if_true (some b) (find_by k xs) e))
    | inr e ↦
        ap (find_by k) (if_false (f b ∷ xs) (b ∷ modify_by k f xs) e)
        ∙ if_false (some b) (find_by k (modify_by k f xs)) e
        ∙ find-modify_none k f xs (sym (if_false (some b) (find_by k xs) e) ∙ h)
  ]

  pub find-modify_other :
      (z k : ℕ) (f : A → A) (xs : List A)
      → z ≢ k
      → ((a : A) → key a ≡ k → key (f a) ≡ k)
      → find_by z (modify_by k f xs) ≡ find_by z xs
  find-modify_other z k f [] ne g = refl
  find-modify_other z k f (b ∷ xs) ne g = elim (Bool-cases (key b == k)) [
    | inl e ↦
        ap (find_by z) (if_true (f b ∷ xs) (b ∷ modify_by k f xs) e)
        ∙ if_false {b = key (f b) == z} (some (f b)) (find_by z xs)
            (ground (arith, g b (ground arith)))
        ∙ sym (if_false {b = key b == z} (some b) (find_by z xs) (ground arith))
    | inr e ↦
        ap (find_by z) (if_false (f b ∷ xs) (b ∷ modify_by k f xs) e)
        ∙ ap (λ o. if key b == z then some b else o) (find-modify_other z k f xs ne g)
  ]

  number-append :
      (z : ℕ) (xs : List A) (new : A)
      → number_by z (xs ++ new ∷ []) ≡ number_by z xs + (if key new == z then 1 else 0)
  number-append z [] new = omega arith
  number-append z (a ∷ xs) new = omega (arith, number-append z xs new)

  find-append_none :
      (z : ℕ) (xs : List A) (new : A)
      → find_by z xs ≡ none
      → find_by z (xs ++ new ∷ []) ≡ (if key new == z then some new else none)
  find-append_none z [] new h = refl
  find-append_none z (a ∷ xs) new h = elim (Bool-cases (key a == z)) [
    | inl e ↦ absurd (none-ne-some a (sym h ∙ if_true (some a) (find_by z xs) e))
    | inr e ↦
        if_false (some a) (find_by z (xs ++ new ∷ [])) e
        ∙ find-append_none z xs new (sym (if_false (some a) (find_by z xs) e) ∙ h)
  ]

  find-append_other :
      (z : ℕ) (xs : List A) (new : A) → key new ≢ z → find_by z (xs ++ new ∷ []) ≡ find_by z xs
  find-append_other z [] new ne = if_false {b = key new == z} (some new) none (ground arith)
  find-append_other z (a ∷ xs) new ne =
      ap (λ o. if key a == z then some a else o) (find-append_other z xs new ne)

  -- There is one record with the key `k`, the old one or the new, and the others are as before.
  pub record Ensured (k : ℕ) (new : A) (xs bs : List A) : Type ℓ where
    pub single : ((z : ℕ) → number_by z xs ≤ 1) → (z : ℕ) → number_by z bs ≤ 1
    pub found : find_by k bs ≡ elim (find_by k xs) [ none ↦ some new | some a ↦ some a ]
    pub other : (z : ℕ) → z ≢ k → find_by z bs ≡ find_by z xs

  pub ensure_lem :
      (k : ℕ) (new : A) (xs : List A) → key new ≡ k → Ensured k new xs (ensure_by k new xs)
  ensure_lem k new xs h = elim (Option-cases (find_by k xs)) [
    | inl e ↦
        subst (Ensured k new xs)
          (sym (ap (λ o. elim o as (λ x. List A) [ none ↦ xs ++ new ∷ [] | some a ↦ xs ]) e))
          (record {
            single = λ s z. ground (arith, s z, number-append z xs new, number_none k xs e);
            found =
                find-append_none k xs new e
                ∙ if_true {b = key new == k} (some new) none (ground arith)
                ∙ sym (ap (λ o. elim o as (λ x. Option A) [ none ↦ some new | some a ↦ some a ]) e);
            other = λ z ne. find-append_other z xs new (λ r. ne (sym r ∙ h));
          })
    | inr (a, e) ↦
        subst (Ensured k new xs)
          (sym (ap (λ o. elim o as (λ x. List A) [ none ↦ xs ++ new ∷ [] | some a ↦ xs ]) e))
          (record {
            single = λ s. s;
            found =
                e
                ∙ sym (ap (λ o. elim o as (λ x. Option A) [ none ↦ some new | some a ↦ some a ]) e);
            other = λ z ne. refl;
          })
  ]
