-- ===== src/Common/Slots.antt =====
-- The first `n` cells of an array of pointers: what one cell holds, and how often a pointer occurs.
use Prim.Native.Nat.{ℕ, zero, suc, ◌+◌, ◌<◌, ◌≤◌}
use mathlib.Core.Path.{◌≡◌, refl}
use mathlib.Core.Logic.{inl, inr}
use mathlib.Core.List.{List, [], ◌∷◌, ◌++◌}
use native.Mathlib.Omega.{arith}
use algorithm.Common.Tests.{◌==◌, if◌then◌else◌, Bool-cases}
use algorithm.Common.Lists.{length, get_or, set, get_or-set}

-- `a[i]` for an array of pointers, NULL being 0.
abbrev pub at : List ℕ → ℕ → ℕ
at a i = get_or a i 0

abbrev pub bit : ℕ → ℕ → ℕ
bit p q = if p == q then 1 else 0

-- How often `p` stands in a list of pointers.
abbrev pub count : ℕ → List ℕ → ℕ
count p [] = 0
count p (q ∷ qs) = bit p q + count p qs

pub count-append : (p : ℕ) (qs rs : List ℕ) → count p (qs ++ rs) ≡ count p qs + count p rs
count-append p [] rs = omega arith
count-append p (q ∷ qs) rs = omega (arith, count-append p qs rs)

-- No entry of the list has a greater key than one that stands later.
abbrev pub IsAscending : (ℕ → ℕ) → List ℕ → Type 0
IsAscending k [] = Unit {0}
IsAscending k (p ∷ ps) = ((q : ℕ) → 0 < count q ps → k p ≤ k q) × IsAscending k ps

pub IsAscending-append :
    (k : ℕ → ℕ) (ps qs : List ℕ) (n : ℕ)
    → IsAscending k ps
    → IsAscending k qs
    → ((p : ℕ) → 0 < count p ps → k p ≤ n)
    → ((q : ℕ) → 0 < count q qs → n ≤ k q)
    → IsAscending k (ps ++ qs)
IsAscending-append k [] qs n h g a b = g
IsAscending-append k (p ∷ ps) qs n h g a b = (
  λ q r. elim (Bool-cases (count q ps == 0)) [
    | inl e ↦ ground (arith, a p, b q, count-append q ps qs)
    | inr e ↦ h.0 q (ground arith)
  ],
  IsAscending-append k ps qs n h.1 g (λ q r. a q (ground arith)) b,
)

-- All entries have one key.
pub IsAscending-const :
    (k : ℕ → ℕ) (ps : List ℕ) (n : ℕ) → ((p : ℕ) → 0 < count p ps → k p ≡ n) → IsAscending k ps
IsAscending-const k [] n h = tt
IsAscending-const k (p ∷ ps) n h =
    (λ q r. ground (arith, h p, h q), IsAscending-const k ps n (λ q r. h q (ground arith)))

-- How often `p` stands in `a[0 .. n)`.
pub occurs : ℕ → ℕ → List ℕ → ℕ
occurs p zero a = 0
occurs p (suc n) a = occurs p n a + bit p (at a n)

pub occurs-zero : (p : ℕ) (a : List ℕ) → occurs p 0 a ≡ 0
unfolding occurs
occurs-zero p a = refl

pub occurs-suc : (p n : ℕ) (a : List ℕ) → occurs p (suc n) a ≡ occurs p n a + bit p (at a n)
unfolding occurs
occurs-suc p n a = refl

pub occurs-ext :
    (p n : ℕ) (a b : List ℕ) → ((i : ℕ) → i < n → at a i ≡ at b i) → occurs p n a ≡ occurs p n b
unfolding occurs
occurs-ext p zero a b h = refl
occurs-ext p (suc n) a b h = ground (arith, h n, occurs-ext p n a b (λ i q. h i (omega arith)))

-- A write past the range is not seen.
pub occurs-set_out :
    (p n i v : ℕ) (a : List ℕ) → i < length a → n ≤ i → occurs p n (set a i v) ≡ occurs p n a
occurs-set_out p n i v a h out =
    occurs-ext p n (set a i v) a (λ j q. ground (arith, get_or-set a i j v 0))

-- A write trades the old entry for the new one.
pub occurs-set :
    (p n i v : ℕ) (a : List ℕ)
    → i < length a
    → i < n
    → occurs p n (set a i v) + bit p (at a i) ≡ occurs p n a + bit p v
unfolding occurs
occurs-set p zero i v a h q = absurd (omega arith)
occurs-set p (suc n) i v a h q =
    ground (arith, get_or-set a i n v 0, occurs-set p n i v a h, occurs-set_out p n i v a h)

pub occurs-at : (n i : ℕ) (a : List ℕ) → i < n → 0 < occurs (at a i) n a
unfolding occurs
occurs-at zero i a h = absurd (omega arith)
occurs-at (suc n) i a h = ground (arith, occurs-at n i a)

pub at_of_occurs : (p n : ℕ) (a : List ℕ) → 0 < occurs p n a → (i : ℕ) × (i < n) × (at a i ≡ p)
unfolding occurs
at_of_occurs p zero a h = absurd (omega arith)
at_of_occurs p (suc n) a h = elim (Bool-cases (p == at a n)) [
  | inl e ↦ (n, omega arith, ground arith)
  | inr e ↦
      let (i, q, r) = at_of_occurs p n a (ground arith) in
      let s : i < suc n = omega arith in (i, s, r)
]
