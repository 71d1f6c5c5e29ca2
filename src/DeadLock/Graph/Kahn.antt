-- ===== src/DeadLock/Graph/Kahn.antt =====
-- The loops of _check_dead_lock_stub that take away the vertices nobody waits for, one by one.
use algorithm.Common.{
  ℕ, suc, ◌+◌, ◌-◌, ◌≤◌, ◌≡◌, refl, sym, ap, ◌∙◌, Bool, true, false, Option, none, some, List, [],
  ◌∷◌, ◌==◌, if◌then◌else◌, length, arith, Bool-cases, inl, inr, subst, if_true, if_false, count,
  ltb,
}
use algorithm.DeadLock.Graph.{
  Vertex, vertex_lookup, vertex_modify, queue_push_back, Search, release,
}
use algorithm.DeadLock.Graph.Sum.{
  sum, only, number, degree, links, lookup_id, sum-modify, sum-only, sum-none, find, sum_mono,
}

-- The edges to `y` from the threads that are not in `p`.
abbrev pub rest : (ℕ → Bool) → ℕ → List Vertex → ℕ
rest p y g = sum (λ v. if p v.thread_id then 0 else count y v.threads) g

abbrev pub is_ready : Vertex → ℕ
is_ready v = if v.indegress == 0 then 1 else 0

-- Each thread of the set is waited for by one of the set.
abbrev pub IsCircle : List Vertex → (ℕ → Bool) → Type 0
IsCircle g s = (y : ℕ) → s y ≡ true → (x : ℕ) × (s x ≡ true) × (1 ≤ links x y g)

-- The threads of `p`, `n` of them, have been taken away, but for the edges to `ys`.
pub record IsSearch (g : List Vertex) (p : ℕ → Bool) (n : ℕ) (ys : List ℕ) (s : Search)
    : Type 0 where
  pub single : (x : ℕ) → number x s.graphics ≤ 1
  pub balance : (y : ℕ) → degree y s.graphics ≡ rest p y s.graphics + count y ys
  pub queued : (y : ℕ) → (if p y then 1 else 0) + count y s.queue ≡ sum (only y is_ready) s.graphics
  pub counted : s.counter ≡ sum is_ready s.graphics
  pub sized : length s.queue + n ≡ s.counter
  pub same : (x y : ℕ) → links x y s.graphics ≡ links x y g
  pub size : length s.graphics ≡ length g
  pub safe : (c : ℕ → Bool) → IsCircle g c → (y : ℕ) → c y ≡ true → p y ≡ false

-- A thread that is waited for is not ready.
pub busy : (y : ℕ) (g : List Vertex) → number y g ≤ 1 → 1 ≤ degree y g → sum (only y is_ready) g ≡ 0
busy y g k d = elim (Bool-cases (number y g == 0)) [
  | inl e ↦ absurd (ground (arith, sum-none (λ v. v.indegress) y g))
  | inr e ↦
      let found = find y g (ground arith) in
      sum-only is_ready y g k found.1
      ∙ if_false {b = found.0.indegress == 0} 1 0
          (ground (arith, sum-only (λ v. v.indegress) y g k found.1))
]

-- The edges from a thread that is not taken away count.
pub links-rest : (p : ℕ → Bool) (x y : ℕ) (g : List Vertex) → p x ≡ false → links x y g ≤ rest p y g
links-rest p x y g h = sum_mono _ _ g (λ v. elim (Bool-cases (v.thread_id == x)) [
  | inl e ↦ let eq : v.thread_id ≡ x = ground arith in ground (arith, ap p eq)
  | inr e ↦ ground arith
])

pub length-modify :
    (f : Vertex → Vertex) (y : ℕ) (g : List Vertex) → length (vertex_modify y f g) ≡ length g
unfolding vertex_modify
length-modify f y [] = refl
length-modify f y (v ∷ g) = elim (Bool-cases (v.thread_id == y)) [
  | inl e ↦ ap length (if_true (f v ∷ g) (v ∷ vertex_modify y f g) e)
  | inr e ↦
      ap length (if_false (f v ∷ g) (v ∷ vertex_modify y f g) e) ∙ ap suc (length-modify f y g)
]

pub ready-length : (g : List Vertex) → sum is_ready g ≤ length g
ready-length [] = omega arith
ready-length (v ∷ g) = ground (arith, ready-length g)

-- The decrement.
abbrev lower : Vertex → Vertex
lower v = record v { indegress = v.indegress - 1 }

module _ {g : List Vertex} {p : ℕ → Bool} {n : ℕ} (y : ℕ) (ys : List ℕ) {s : Search}
    (w : IsSearch g p n (y ∷ ys) s) where
  waited : 1 ≤ degree y s.graphics
  waited = ground (arith, w.balance y)

  present : (v : Vertex) × (vertex_lookup y s.graphics ≡ some v)
  present = find y s.graphics (ground (arith, waited, sum-none (λ v. v.indegress) y s.graphics))

  value : present.0.indegress ≡ degree y s.graphics
  value = sym (sum-only (λ v. v.indegress) y s.graphics (w.single y) present.1)

  change :
      (f : Vertex → ℕ)
      → sum f (vertex_modify y lower s.graphics) + f present.0
        ≡ sum f s.graphics + f (lower present.0)
  change f = sum-modify f lower y s.graphics present.1

  name : present.0.thread_id ≡ y
  name = lookup_id y s.graphics present.1

  after :
      (q : List ℕ) (c : ℕ)
      → ((z : ℕ)
          → count z q
            ≡ count z s.queue + (if z == y then (if present.0.indegress == 1 then 1 else 0) else 0))
      → c ≡ s.counter + (if present.0.indegress == 1 then 1 else 0)
      → length q ≡ length s.queue + (if present.0.indegress == 1 then 1 else 0)
      → IsSearch g p n ys
          (record { graphics = vertex_modify y lower s.graphics; queue = q; counter = c })
  after q c a b d = record {
    single = λ x. omega (arith, change (only x (λ v. 1)), w.single x);
    balance = λ z. ground (
      arith,
      change (only z (λ v. v.indegress)),
      change (λ v. if p v.thread_id then 0 else count z v.threads),
      w.balance z,
      value,
      waited,
      name,
    );
    queued = λ z. ground (arith, change (only z is_ready), w.queued z, value, waited, name, a z);
    counted = ground (arith, change is_ready, w.counted, value, waited, b);
    sized = omega (arith, w.sized);
    same = λ x z. omega (arith, change (only x (λ v. count z v.threads)), w.same x z);
    size = length-modify lower y s.graphics ∙ w.size;
    safe = w.safe;
  }

  -- What one turn of the inner loop makes of the state.
  turn : Search
  unfolding queue_push_back
  turn =
      if present.0.indegress == 1
      then record {
        graphics = vertex_modify y lower s.graphics;
        queue = queue_push_back y s.queue;
        counter = suc s.counter;
      }
      else record s { graphics = vertex_modify y lower s.graphics }

  turn-release : release (y ∷ ys) s ≡ release ys turn
  unfolding release turn
  turn-release =
      ap
        (λ o. elim o as (λ x. Option Search) [
          | none ↦ none
          | some v ↦ release ys (
              if v.indegress == 1
              then record {
                graphics = vertex_modify y lower s.graphics;
                queue = queue_push_back y s.queue;
                counter = suc s.counter;
              }
              else record s { graphics = vertex_modify y lower s.graphics })
        ])
        present.1

  turn-IsSearch : length g ≤ 100 → IsSearch g p n ys turn
  unfolding turn queue_push_back
  turn-IsSearch h = elim (Bool-cases (present.0.indegress == 1)) [
    | inl e ↦
        let room : ltb (length s.queue) 100 ≡ true = ground (
          arith,
          w.sized,
          w.counted,
          w.size,
          change is_ready,
          ready-length (vertex_modify y lower s.graphics),
          value,
          waited,
          length-modify lower y s.graphics,
        ) in
        let pushed : queue_push_back y s.queue ≡ y ∷ s.queue = if_true (y ∷ s.queue) s.queue room in
        subst (IsSearch g p n ys)
          (sym (
            if_true
              (record {
                graphics = vertex_modify y lower s.graphics;
                queue = queue_push_back y s.queue;
                counter = suc s.counter;
              })
              (record s { graphics = vertex_modify y lower s.graphics }) e))
          (after (queue_push_back y s.queue) (suc s.counter)
            (λ z.
              subst
                (λ q.
                  count z q
                  ≡ count z s.queue
                    + (if z == y then (if present.0.indegress == 1 then 1 else 0) else 0))
                (sym pushed) (ground arith))
            (ground arith) (ap length pushed ∙ ground arith))
    | inr e ↦
        subst (IsSearch g p n ys)
          (sym (
            if_false
              (record {
                graphics = vertex_modify y lower s.graphics;
                queue = queue_push_back y s.queue;
                counter = suc s.counter;
              })
              (record s { graphics = vertex_modify y lower s.graphics }) e))
          (after s.queue s.counter (λ z. ground arith) (ground arith) (ground arith))
  ]

-- The inner loop finds every thread that it looks up, and takes the edges away.
pub release_lem :
    {g : List Vertex} {p : ℕ → Bool} {n : ℕ} (ys : List ℕ) {s : Search}
    → length g ≤ 100
    → IsSearch g p n ys s
    → (t : Search) × (release ys s ≡ some t) × IsSearch g p n [] t
unfolding release
release_lem [] {s} h w = (s, refl, w)
release_lem (y ∷ ys) {s} h w =
    let more = release_lem ys h (turn-IsSearch y ys w h) in
    (more.0, turn-release y ys w ∙ more.1, more.2)
