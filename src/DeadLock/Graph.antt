-- ===== src/DeadLock/Graph.antt =====
-- The wait graph: thread_graphic_vertex_*, the graphics queue and _check_dead_lock_stub. A vertex
-- is a thread, and its `threads` are those whose locks it waits for.
pub mod Sum
pub mod Build
pub mod Kahn
pub mod Pop
pub mod Check
pub mod Report
pub mod Tests
use algorithm.Common.{
  ℕ, zero, suc, ◌+◌, ◌-◌, Bool, true, false, Option, none, some, List, [], ◌∷◌, ◌++◌, ltb, ◌==◌,
  if◌then◌else◌, length, not,
}
use algorithm.DeadLock.{ReqLock, HoldLock, Monitor, hold_lookup}

-- `thread_graphic_vertex_t`; `thread_count` is the length of `threads`.
pub record Vertex : Type 0 where
  pub indegress : ℕ
  pub thread_id : ℕ
  pub threads : List ℕ

pub vertex_lookup : ℕ → List Vertex → Option Vertex
vertex_lookup id [] = none
vertex_lookup id (v ∷ g) = if v.thread_id == id then some v else vertex_lookup id g

-- A new vertex, at the head.
pub vertex_alloc : ℕ → List Vertex → List Vertex
vertex_alloc id g = record { indegress = 0; thread_id = id; threads = [] } ∷ g

pub vertex_lookup_or_alloc : ℕ → List Vertex → List Vertex
unfolding vertex_lookup vertex_alloc
vertex_lookup_or_alloc id g = elim (vertex_lookup id g) [ none ↦ vertex_alloc id g | some v ↦ g ]

-- A change of the vertex that a lookup finds.
pub vertex_modify : ℕ → (Vertex → Vertex) → List Vertex → List Vertex
vertex_modify id f [] = []
vertex_modify id f (v ∷ g) =
    let rest = vertex_modify id f g in if v.thread_id == id then f v ∷ g else v ∷ rest

-- At most WAIT_HOLD_THREAD_MAX of them.
pub vertex_push_back : ℕ → Vertex → Vertex
vertex_push_back id v =
    if ltb (length v.threads) 10 then record v { threads = v.threads ++ id ∷ [] } else v

-- The edge from the thread `x`, which waits, to the thread `y`, which holds.
pub add_edge : ℕ → ℕ → List Vertex → List Vertex
unfolding vertex_lookup_or_alloc vertex_modify vertex_push_back
add_edge x y g =
    vertex_modify y (λ v. record v { indegress = suc v.indegress })
      (vertex_modify x (vertex_push_back y) (vertex_lookup_or_alloc y (vertex_lookup_or_alloc x g)))

pub add_request : List HoldLock → ReqLock → List Vertex → List Vertex
unfolding hold_lookup add_edge
add_request hs r g =
    if r.valid
    then elim (hold_lookup r.lock_addr hs) [
      | none ↦ g
      | some h ↦ if h.count == 0 then g else add_edge r.thread_id h.thread_id g
    ]
    else g

pub build : List HoldLock → List ReqLock → List Vertex → List Vertex
unfolding add_request
build hs [] g = g
build hs (r ∷ rs) g = build hs rs (add_request hs r g)

-- The head is the last that was pushed; MAX_DEAD_MUTEXLOCK_CHECK is the limit.
pub queue_push_back : ℕ → List ℕ → List ℕ
queue_push_back id q = if ltb (length q) 100 then id ∷ q else q

-- The state of the search: the graph, the queue and the counter.
pub record Search : Type 0 where
  pub graphics : List Vertex
  pub queue : List ℕ
  pub counter : ℕ

-- The first loop: the vertices that nobody waits for.
pub scan : List Vertex → List ℕ → ℕ → List ℕ × ℕ
unfolding queue_push_back
scan [] q n = (q, n)
scan (v ∷ g) q n =
    if v.indegress == 0 then scan g (queue_push_back v.thread_id q) (suc n) else scan g q n

-- The inner loop over the threads of a vertex; `none` is a NULL that is dereferenced. The test is
-- made after the decrement, so it is for 1 before; an indegress is never 0 there (Kahn).
pub release : List ℕ → Search → Option Search
unfolding vertex_lookup vertex_modify queue_push_back
release [] s = some s
release (y ∷ ys) s = elim (vertex_lookup y s.graphics) [
  | none ↦ none
  | some v ↦ release ys (
      if v.indegress == 1
      then record {
        graphics = vertex_modify y (λ v. record v { indegress = v.indegress - 1 }) s.graphics;
        queue = queue_push_back y s.queue;
        counter = suc s.counter;
      }
      else record s {
        graphics = vertex_modify y (λ v. record v { indegress = v.indegress - 1 }) s.graphics;
      })
]

-- The loop while the queue is not empty; `none` is also a loop that has run out of fuel.
pub drain : ℕ → Search → Option Search
unfolding vertex_lookup release
drain zero s = none
drain (suc fuel) s = elim s.queue [
  | [] ↦ some s
  | a ∷ q ↦ elim (vertex_lookup a s.graphics) [
    | none ↦ none
    | some v ↦ elim (release v.threads (record s { queue = q })) [
      | none ↦ none
      | some s' ↦ drain fuel s'
    ]
  ]
]

-- The search on a graph, and the vertices that are left with somebody waiting for them; the report
-- is `true` where the counter is not the number of vertices.
pub search_graph : List Vertex → Option (Bool × List Vertex)
unfolding scan drain
search_graph g =
    let first = scan g [] 0 in
    elim (drain (suc (length g)) (record { graphics = g; queue = first.0; counter = first.1 })) [
      | none ↦ none
      | some s ↦ some (not (s.counter == length g), s.graphics)
    ]

-- Whether the check reports a deadlock.
pub check_dead_lock : Monitor → Option Bool
unfolding build search_graph
check_dead_lock m = elim (search_graph (build m.belong m.apply [])) [
  | none ↦ none
  | some r ↦ some r.0
]
