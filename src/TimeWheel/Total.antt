-- ===== src/TimeWheel/Total.antt =====
-- How often a node stands in the slots of the wheel.
use algorithm.Common.{
  ℕ, zero, suc, ◌+◌, ◌<◌, ◌≤◌, ◌≡◌, refl, List, [], ◌∷◌, ◌-◌, ◌≢◌, arith, ◌==◌, if◌then◌else◌,
  count, true, false, Bool-cases, inl, inr, ◌⊎◌,
}
use algorithm.TimeWheel.{write_vec, remove}

-- In the first `n` slots of one vector.
pub row : ℕ → ℕ → (ℕ → List ℕ) → ℕ
row p zero f = 0
row p (suc n) f = row p n f + count p (f n)

pub total : ℕ → (ℕ → ℕ → List ℕ) → ℕ
total p vec =
    row p 256 (vec 0)
    + row p 256 (vec 1)
    + row p 256 (vec 2)
    + row p 256 (vec 3)
    + row p 256 (vec 4)

row-write_out :
    (p n : ℕ) (vec : ℕ → ℕ → List ℕ) (l i m : ℕ) (q : List ℕ)
    → n ≤ i
    → row p n (write_vec vec l i q m) ≡ row p n (vec m)
unfolding row
row-write_out p zero vec l i m q h = refl
row-write_out p (suc n) vec l i m q h = ground (arith, row-write_out p n vec l i m q)

abbrev Trade : ℕ → (ℕ → ℕ → List ℕ) → ℕ → ℕ → List ℕ → ℕ → Type 0
Trade p vec l i q m =
    row p 256 (write_vec vec l i q m) + (if l == m then count p (vec l i) else 0)
    ≡ row p 256 (vec m) + (if l == m then count p q else 0)

row-write :
    (p n : ℕ) (vec : ℕ → ℕ → List ℕ) (l i m : ℕ) (q : List ℕ)
    → i < n
    → row p n (write_vec vec l i q m) + (if l == m then count p (vec l i) else 0)
      ≡ row p n (vec m) + (if l == m then count p q else 0)
unfolding row
row-write p zero vec l i m q h = absurd (omega arith)
row-write p (suc n) vec l i m q h =
    ground (arith, row-write p n vec l i m q, row-write_out p n vec l i m q)

rows :
    (p : ℕ) (vec : ℕ → ℕ → List ℕ) (l i : ℕ) (q : List ℕ)
    → i < 256
    → Trade p vec l i q 0
      × Trade p vec l i q 1
      × Trade p vec l i q 2
      × Trade p vec l i q 3
      × Trade p vec l i q 4
rows p vec l i q k = (
  row-write p 256 vec l i 0 q k,
  row-write p 256 vec l i 1 q k,
  row-write p 256 vec l i 2 q k,
  row-write p 256 vec l i 3 q k,
  row-write p 256 vec l i 4 q k,
)

-- A slot that is written trades its old nodes for the new ones.
pub total-write :
    (p : ℕ) (vec : ℕ → ℕ → List ℕ) (l i : ℕ) (q : List ℕ)
    → l < 5
    → i < 256
    → total p (write_vec vec l i q) + count p (vec l i) ≡ total p vec + count p q
unfolding total
total-write p vec zero i q h k = omega (arith, rows p vec zero i q k)
total-write p vec (suc zero) i q h k = omega (arith, rows p vec 1 i q k)
total-write p vec (suc (suc zero)) i q h k = omega (arith, rows p vec 2 i q k)
total-write p vec (suc (suc (suc zero))) i q h k = omega (arith, rows p vec 3 i q k)
total-write p vec (suc (suc (suc (suc zero)))) i q h k = omega (arith, rows p vec 4 i q k)
total-write p vec (suc (suc (suc (suc (suc l))))) i q h k = absurd (omega arith)

count-le-row : (p n i : ℕ) (f : ℕ → List ℕ) → i < n → count p (f i) ≤ row p n f
unfolding row
count-le-row p zero i f h = absurd (omega arith)
count-le-row p (suc n) i f h = ground (arith, count-le-row p n i f)

pub count-le-total :
    (p : ℕ) (vec : ℕ → ℕ → List ℕ) (l i : ℕ) → l < 5 → i < 256 → count p (vec l i) ≤ total p vec
unfolding total
count-le-total p vec zero i h k = omega (arith, count-le-row p 256 i (vec 0) k)
count-le-total p vec (suc zero) i h k = omega (arith, count-le-row p 256 i (vec 1) k)
count-le-total p vec (suc (suc zero)) i h k = omega (arith, count-le-row p 256 i (vec 2) k)
count-le-total p vec (suc (suc (suc zero))) i h k = omega (arith, count-le-row p 256 i (vec 3) k)
count-le-total p vec (suc (suc (suc (suc zero)))) i h k =
    omega (arith, count-le-row p 256 i (vec 4) k)
count-le-total p vec (suc (suc (suc (suc (suc l))))) i h k = absurd (omega arith)

-- A node that the slots hold stands in one of them.
row_slot : (p n : ℕ) (f : ℕ → List ℕ) → 0 < row p n f → (i : ℕ) × (0 < count p (f i))
unfolding row
row_slot p zero f h = absurd (omega arith)
row_slot p (suc n) f h = elim (Bool-cases (count p (f n) == 0)) [
  | inl e ↦ row_slot p n f (ground arith)
  | inr e ↦ (n, ground arith)
]

pub total_slot :
    (p : ℕ) (vec : ℕ → ℕ → List ℕ) → 0 < total p vec → (l : ℕ) × (i : ℕ) × (0 < count p (vec l i))
unfolding total
total_slot p vec h =
    first (Bool-cases (row p 256 (vec 0) == 0)) (Bool-cases (row p 256 (vec 1) == 0))
      (Bool-cases (row p 256 (vec 2) == 0)) (Bool-cases (row p 256 (vec 3) == 0))
  where
    at_row :
        (l : ℕ) → (row p 256 (vec l) == 0) ≡ false → (l : ℕ) × (i : ℕ) × (0 < count p (vec l i))
    at_row l e = let (i, q) = row_slot p 256 (vec l) (ground arith) in (l, i, q)

    first :
        ((row p 256 (vec 0) == 0) ≡ true) ⊎ ((row p 256 (vec 0) == 0) ≡ false)
        → ((row p 256 (vec 1) == 0) ≡ true) ⊎ ((row p 256 (vec 1) == 0) ≡ false)
        → ((row p 256 (vec 2) == 0) ≡ true) ⊎ ((row p 256 (vec 2) == 0) ≡ false)
        → ((row p 256 (vec 3) == 0) ≡ true) ⊎ ((row p 256 (vec 3) == 0) ≡ false)
        → (l : ℕ) × (i : ℕ) × (0 < count p (vec l i))
    first (inr e) _ _ _ = at_row 0 e
    first (inl a) (inr e) _ _ = at_row 1 e
    first (inl a) (inl b) (inr e) _ = at_row 2 e
    first (inl a) (inl b) (inl d) (inr e) = at_row 3 e
    first (inl a) (inl b) (inl d) (inl g) = at_row 4 (ground arith)

pub count-remove :
    (q p : ℕ) (xs : List ℕ)
    → count q (remove p xs) ≡ (if q == p then count p xs - 1 else count q xs)
unfolding remove
count-remove q p [] = ground arith
count-remove q p (x ∷ xs) = ground (arith, count-remove q p xs)

row-remove_ne : (q p n : ℕ) (f : ℕ → List ℕ) → q ≢ p → row q n (λ i. remove p (f i)) ≡ row q n f
unfolding row
row-remove_ne q p zero f h = refl
row-remove_ne q p (suc n) f h = ground (arith, count-remove q p (f n), row-remove_ne q p n f h)

row-remove_self : (p n : ℕ) (f : ℕ → List ℕ) → row p n f ≤ 1 → row p n (λ i. remove p (f i)) ≡ 0
unfolding row
row-remove_self p zero f h = refl
row-remove_self p (suc n) f h =
    ground (arith, count-remove p p (f n), row-remove_self p n f (omega arith))

pub total-remove_ne :
    (q p : ℕ) (vec : ℕ → ℕ → List ℕ) → q ≢ p → total q (λ l i. remove p (vec l i)) ≡ total q vec
unfolding total
total-remove_ne q p vec h = omega (
  arith,
  row-remove_ne q p 256 (vec 0) h,
  row-remove_ne q p 256 (vec 1) h,
  row-remove_ne q p 256 (vec 2) h,
  row-remove_ne q p 256 (vec 3) h,
  row-remove_ne q p 256 (vec 4) h,
)

pub total-remove_self :
    (p : ℕ) (vec : ℕ → ℕ → List ℕ) → total p vec ≤ 1 → total p (λ l i. remove p (vec l i)) ≡ 0
unfolding total
total-remove_self p vec h = omega (
  arith,
  row-remove_self p 256 (vec 0) (omega arith),
  row-remove_self p 256 (vec 1) (omega arith),
  row-remove_self p 256 (vec 2) (omega arith),
  row-remove_self p 256 (vec 3) (omega arith),
  row-remove_self p 256 (vec 4) (omega arith),
)

row-empty : (p n : ℕ) → row p n (λ i. []) ≡ 0
unfolding row
row-empty p zero = refl
row-empty p (suc n) = ground (arith, row-empty p n)

pub total-empty : (p : ℕ) → total p (λ l i. []) ≡ 0
unfolding total
total-empty p = omega (arith, row-empty p 256)
