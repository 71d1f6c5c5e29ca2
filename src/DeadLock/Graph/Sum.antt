-- ===== src/DeadLock/Graph/Sum.antt =====
-- Sums over the vertices of a wait graph, by which its invariants are stated.
use algorithm.Common.{
  ℕ, ◌+◌, ◌≤◌, ◌≡◌, refl, sym, ap, ◌∙◌, some, List, [], ◌∷◌, ◌==◌, if◌then◌else◌, arith, Bool-cases,
  inl, inr, subst, if_true, if_false, count, some-injective, none-ne-some,
}
use algorithm.DeadLock.Graph.{Vertex, vertex_lookup, vertex_modify}

-- The sum of the vertices' weights.
abbrev pub sum : (Vertex → ℕ) → List Vertex → ℕ
sum w [] = 0
sum w (v ∷ g) = w v + sum w g

-- The weight, for the vertices of one thread.
abbrev pub only : ℕ → (Vertex → ℕ) → Vertex → ℕ
only x w v = if v.thread_id == x then w v else 0

-- How many vertices a thread has.
abbrev pub number : ℕ → List Vertex → ℕ
number x g = sum (only x (λ v. 1)) g

abbrev pub degree : ℕ → List Vertex → ℕ
degree x g = sum (only x (λ v. v.indegress)) g

-- The edges from `x` to `y`.
abbrev pub links : ℕ → ℕ → List Vertex → ℕ
links x y g = sum (only x (λ v. count y v.threads)) g

-- The edges to `y`.
abbrev pub total : ℕ → List Vertex → ℕ
total y g = sum (λ v. count y v.threads) g

pub lookup_id :
    (x : ℕ) (g : List Vertex) {v : Vertex} → vertex_lookup x g ≡ some v → v.thread_id ≡ x
unfolding vertex_lookup
lookup_id x [] {v} h = absurd (none-ne-some _ h)
lookup_id x (u ∷ g) {v} h = elim (Bool-cases (u.thread_id == x)) [
  | inl e ↦
      let same : u ≡ v = some-injective u v (sym (if_true (some u) (vertex_lookup x g) e) ∙ h) in
      ground (arith, ap (λ (r : Vertex). r.thread_id) same)
  | inr e ↦ lookup_id x g (sym (if_false (some u) (vertex_lookup x g) e) ∙ h)
]

-- A change of the vertex that is found changes the sum by its weight.
pub sum-modify :
    (w : Vertex → ℕ) (f : Vertex → Vertex) (y : ℕ) (g : List Vertex) {v : Vertex}
    → vertex_lookup y g ≡ some v
    → sum w (vertex_modify y f g) + w v ≡ sum w g + w (f v)
unfolding vertex_lookup vertex_modify
sum-modify w f y [] {v} h = absurd (none-ne-some _ h)
sum-modify w f y (u ∷ g) {v} h = elim (Bool-cases (u.thread_id == y)) [
  | inl e ↦
      let same : u ≡ v = some-injective u v (sym (if_true (some u) (vertex_lookup y g) e) ∙ h) in
      subst (λ vs. sum w vs + w v ≡ (w u + sum w g) + w (f v))
        (sym (if_true (f u ∷ g) (u ∷ vertex_modify y f g) e))
        (omega (arith, ap w same, ap (λ r. w (f r)) same))
  | inr e ↦
      subst (λ vs. sum w vs + w v ≡ (w u + sum w g) + w (f v))
        (sym (if_false (f u ∷ g) (u ∷ vertex_modify y f g) e))
        (omega (arith, sum-modify w f y g (sym (if_false (some u) (vertex_lookup y g) e) ∙ h)))
]

-- A thread without a vertex has no weight.
pub sum-none : (w : Vertex → ℕ) (x : ℕ) (g : List Vertex) → number x g ≡ 0 → sum (only x w) g ≡ 0
sum-none w x [] k = refl
sum-none w x (u ∷ g) k = ground (arith, sum-none w x g)

pub sum-only :
    (w : Vertex → ℕ) (x : ℕ) (g : List Vertex) {v : Vertex}
    → number x g ≤ 1
    → vertex_lookup x g ≡ some v
    → sum (only x w) g ≡ w v
unfolding vertex_lookup
sum-only w x [] {v} k h = absurd (none-ne-some _ h)
sum-only w x (u ∷ g) {v} k h = elim (Bool-cases (u.thread_id == x)) [
  | inl e ↦
      let same : u ≡ v = some-injective u v (sym (if_true (some u) (vertex_lookup x g) e) ∙ h) in
      ground (arith, ap w same, sum-none w x g)
  | inr e ↦
      ground
        (arith, sum-only w x g (ground arith) (sym (if_false (some u) (vertex_lookup x g) e) ∙ h))
]

pub find : (x : ℕ) (g : List Vertex) → 1 ≤ number x g → (v : Vertex) × (vertex_lookup x g ≡ some v)
unfolding vertex_lookup
find x [] k = absurd (omega arith)
find x (u ∷ g) k = elim (Bool-cases (u.thread_id == x)) [
  | inl e ↦ (u, if_true (some u) (vertex_lookup x g) e)
  | inr e ↦
      let rest = find x g (ground arith) in
      (rest.0, if_false (some u) (vertex_lookup x g) e ∙ rest.1)
]

-- A weight that is the sum of two.
pub sum-add :
    (w a b : Vertex → ℕ) (g : List Vertex)
    → ((v : Vertex) → w v ≡ a v + b v)
    → sum w g ≡ sum a g + sum b g
sum-add w a b [] h = omega arith
sum-add w a b (v ∷ g) h = omega (arith, h v, sum-add w a b g h)

pub sum_mono : (a b : Vertex → ℕ) (g : List Vertex) → ((v : Vertex) → a v ≤ b v) → sum a g ≤ sum b g
sum_mono a b [] h = omega arith
sum_mono a b (v ∷ g) h = omega (arith, h v, sum_mono a b g h)
