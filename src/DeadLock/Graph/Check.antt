-- ===== src/DeadLock/Graph/Check.antt =====
-- _check_dead_lock_stub on a wait graph: what its report says.
use algorithm.Common.{
  ℕ, suc, ◌+◌, ◌<◌, ◌≤◌, ◌≡◌, refl, sym, ap, ◌∙◌, Bool, true, false, Option, none, some, List, [],
  ◌∷◌, ◌==◌, if◌then◌else◌, length, arith, Bool-cases, inl, inr, subst, if_true, if_false, count,
  not, ltb, ◌||◌, ◌≢◌,
}
use algorithm.DeadLock.Graph.{Vertex, queue_push_back, Search, scan, search_graph}
use algorithm.DeadLock.Graph.Sum.{sum, only, number, degree, links, total, sum-only, find}
use algorithm.DeadLock.Graph.Kahn.{rest, is_ready, IsCircle, IsSearch, links-rest, ready-length}
use algorithm.DeadLock.Graph.Pop.{drain_lem}

-- Threads, one at least, of whom each is waited for by one of them.
pub record Circle (g : List Vertex) : Type 0 where
  pub within : ℕ → Bool
  pub thread : ℕ
  pub inside : within thread ≡ true
  pub circle : IsCircle g within

-- The first loop queues and counts the vertices that nobody waits for.
scan_lem :
    (g : List Vertex) (q : List ℕ) (n : ℕ)
    → length q + length g ≤ 100
    → ((y : ℕ) → count y (scan g q n).0 ≡ count y q + sum (only y is_ready) g)
      × ((scan g q n).1 ≡ n + sum is_ready g)
      × (length (scan g q n).0 + n ≡ length q + (scan g q n).1)
unfolding scan queue_push_back
scan_lem [] q n h = (λ y. omega arith, omega arith, omega arith)
scan_lem (v ∷ g) q n h = elim (Bool-cases (v.indegress == 0)) [
  | inl e ↦
      let more = scan_lem g (v.thread_id ∷ q) (suc n) (omega arith) in
      let pushed : queue_push_back v.thread_id q ≡ v.thread_id ∷ q =
        if_true {b = ltb (length q) 100} _ q (ground arith) in
      let run : (if v.indegress == 0
            then scan g (queue_push_back v.thread_id q) (suc n)
            else scan g q n)
          ≡ scan g (v.thread_id ∷ q) (suc n) =
        if_true _ _ e ∙ ap (λ r. scan g r (suc n)) pushed in
      subst
        (λ (r : List ℕ × ℕ).
          ((y : ℕ) → count y r.0 ≡ count y q + sum (only y is_ready) (v ∷ g))
          × (r.1 ≡ n + sum is_ready (v ∷ g))
          × (length r.0 + n ≡ length q + r.1))
        (sym run) (λ y. ground (arith, more.0 y), ground (arith, more.1), ground (arith, more.2))
  | inr e ↦
      let more = scan_lem g q n (omega arith) in
      subst
        (λ (r : List ℕ × ℕ).
          ((y : ℕ) → count y r.0 ≡ count y q + sum (only y is_ready) (v ∷ g))
          × (r.1 ≡ n + sum is_ready (v ∷ g))
          × (length r.0 + n ≡ length q + r.1))
        (sym (if_false (scan g (queue_push_back v.thread_id q) (suc n)) (scan g q n) e))
        (λ y. ground (arith, more.0 y), ground (arith, more.1), ground (arith, more.2))
]

-- A vertex that is not ready.
unready : (g : List Vertex) → sum is_ready g < length g → (x : ℕ) × (1 ≤ degree x g)
unready [] h = absurd (omega arith)
unready (v ∷ g) h = elim (Bool-cases (v.indegress == 0)) [
  | inl e ↦ let more = unready g (ground arith) in (more.0, omega (arith, more.1))
  | inr e ↦ (v.thread_id, ground arith)
]

unready_less : (x : ℕ) (g : List Vertex) → 1 ≤ degree x g → sum is_ready g < length g
unready_less x [] h = absurd (omega arith)
unready_less x (v ∷ g) h = elim (Bool-cases (degree x g == 0)) [
  | inl e ↦ ground (arith, ready-length g)
  | inr e ↦ ground (arith, unready_less x g (ground arith))
]

-- One of those that wait for `y`.
waiter :
    (p : ℕ → Bool) (y : ℕ) (g : List Vertex)
    → 1 ≤ rest p y g
    → (x : ℕ) × (p x ≡ false) × (1 ≤ links x y g) × (1 ≤ number x g)
waiter p y [] h = absurd (omega arith)
waiter p y (v ∷ g) h = elim (Bool-cases (p v.thread_id || (count y v.threads == 0))) [
  | inl e ↦
      let more = waiter p y g (ground arith) in
      (more.0, more.1, omega (arith, more.2), omega (arith, more.3))
  | inr e ↦ (v.thread_id, ground arith, ground arith, ground arith)
]

-- Nobody waits for a vertex of degree 0.
idle :
    (x : ℕ) (g : List Vertex)
    → number x g ≤ 1
    → 1 ≤ number x g
    → degree x g ≡ 0
    → sum (only x is_ready) g ≡ 1
idle x g k l d =
    let found = find x g l in
    sum-only is_ready x g k found.1
    ∙ if_true {b = found.0.indegress == 0} 1 0
        (ground (arith, sum-only (λ v. v.indegress) x g k found.1))

module _ {g : List Vertex} {p : ℕ → Bool} {n : ℕ} {t : Search} (w : IsSearch g p n [] t)
    (e : t.queue ≡ []) where
  left : (y : ℕ) → p y ≡ false → sum (only y is_ready) t.graphics ≡ 0
  left y h = ground (arith, w.queued y, ap (count y) e)

  report-Circle : t.counter ≢ length g → Circle g
  report-Circle h =
      let some_left =
        unready t.graphics (ground (arith, w.counted, w.size, ready-length t.graphics)) in
      record {
        within = λ y. not (degree y t.graphics == 0);
        thread = some_left.0;
        inside = ground (arith, some_left.1);
        circle = λ y r.
            let x = waiter p y t.graphics (ground (arith, w.balance y)) in
            (
              x.0,
              ground (arith, idle x.0 t.graphics (w.single x.0) x.3, left x.0 x.1),
              omega (arith, w.same x.0 y, x.2),
            );
      }

  Circle-report : Circle g → t.counter ≢ length g
  Circle-report c h =
      let z = c.circle c.thread c.inside in
      ground (
        arith,
        unready_less c.thread t.graphics (
            ground (
              arith,
              w.same z.0 c.thread,
              z.2,
              links-rest p z.0 c.thread t.graphics (w.safe c.within c.circle z.0 z.1),
              w.balance c.thread,
            )),
        w.counted,
        w.size,
      )

-- A graph as it has been built: the in-degree of a thread is the number of edges to it.
pub record IsBuilt (g : List Vertex) : Type 0 where
  pub single : (x : ℕ) → number x g ≤ 1
  pub balance : (y : ℕ) → degree y g ≡ total y g

start :
    {g : List Vertex}
    → IsBuilt g
    → length g ≤ 100
    → IsSearch g
        (λ x. false)
        0
        []
        (record { graphics = g; queue = (scan g [] 0).0; counter = (scan g [] 0).1 })
start {g} b h =
    let first = scan_lem g [] 0 (omega (arith, h)) in
    record {
      single = b.single;
      balance = λ y. omega (arith, b.balance y);
      queued = λ y. omega (arith, first.0 y);
      counted = omega (arith, first.1);
      sized = omega (arith, first.2);
      same = λ x y. refl;
      size = refl;
      safe = λ s c y r. refl;
    }

-- On a graph of at most 100 threads the search ends, and it reports a deadlock just where some
-- threads are each waited for by one of them.
pub search_graph_lem :
    {g : List Vertex}
    → IsBuilt g
    → length g ≤ 100
    → (b : Bool) × (left : List Vertex) × (search_graph g ≡ some (b, left))
      × (b ≡ true → Circle g)
      × (Circle g → b ≡ true)
unfolding search_graph
search_graph_lem {g} w h =
    let first = scan g [] 0 in
    let end = drain_lem (suc (length g)) g first.0 first.1 h (omega arith) (start w h) in
    let t = end.2 in
    (
      not (t.counter == length g),
      t.graphics,
      ap
          (λ o. elim o as (λ x. Option (Bool × List Vertex)) [
            | none ↦ none
            | some s ↦ some (not (s.counter == length g), s.graphics)
          ])
          end.3,
      λ r. report-Circle end.4 end.5 (ground arith),
      λ c. ground (arith, Circle-report end.4 end.5 c),
    )
