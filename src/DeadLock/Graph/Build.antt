-- ===== src/DeadLock/Graph/Build.antt =====
-- The graph that _check_dead_lock_stub builds from the requests and the held locks.
use algorithm.Common.{
  ℕ, suc, ◌+◌, ◌*◌, ◌≤◌, ◌≡◌, refl, sym, ap, ◌∙◌, true, Option, none, some, List, [], ◌∷◌, ◌++◌,
  ◌==◌, if◌then◌else◌, length, length-append, arith, Bool-cases, inl, inr, subst, if_true, if_false,
  count, count-append, bit, ltb, Option-cases, none-ne-some,
}
use algorithm.DeadLock.{ReqLock, HoldLock, hold_lookup}
use algorithm.DeadLock.Graph.{
  Vertex, vertex_lookup, vertex_alloc, vertex_lookup_or_alloc, vertex_modify, vertex_push_back,
  add_edge, add_request, build,
}
use algorithm.DeadLock.Graph.Sum.{sum, only, number, links, lookup_id, sum-modify, sum-only, find}
use algorithm.DeadLock.Graph.Check.{IsBuilt}
use algorithm.DeadLock.Graph.Kahn.{length-modify}

-- The edges from a thread.
abbrev out : ℕ → List Vertex → ℕ
out x g = sum (only x (λ v. length v.threads)) g

absent : (x : ℕ) (g : List Vertex) → vertex_lookup x g ≡ none → number x g ≡ 0
absent x g h = elim (Bool-cases (number x g == 0)) [
  | inl e ↦ ground arith
  | inr e ↦ absurd (none-ne-some (find x g (ground arith)).0 (sym h ∙ (find x g (ground arith)).1))
]

-- The graph has a vertex for `x`, and is otherwise as before.
record Allocated (x : ℕ) (g h : List Vertex) : Type 0 where
  single : (z : ℕ) → number z h ≤ 1
  present : 1 ≤ number x h
  kept : (z : ℕ) → number z g ≤ number z h
  sums :
      (w : Vertex → ℕ)
      → w (record { indegress = 0; thread_id = x; threads = [] }) ≡ 0
      → sum w h ≡ sum w g
  size : length h ≤ suc (length g)

loa-Allocated :
    (x : ℕ) (g : List Vertex)
    → ((z : ℕ) → number z g ≤ 1)
    → Allocated x g (vertex_lookup_or_alloc x g)
unfolding vertex_lookup_or_alloc vertex_alloc
loa-Allocated x g k = elim (Option-cases (vertex_lookup x g)) [
  | inl e ↦
      subst (Allocated x g)
        (sym (ap (λ o. elim o as (λ y. List Vertex) [ none ↦ vertex_alloc x g | some v ↦ g ]) e))
        (record {
          single = λ z. ground (arith, k z, absent x g e);
          present = ground arith;
          kept = λ z. ground arith;
          sums = λ w h. omega (arith, h);
          size = omega arith;
        })
  | inr (v, e) ↦
      subst (Allocated x g)
        (sym (ap (λ o. elim o as (λ y. List Vertex) [ none ↦ vertex_alloc x g | some v ↦ g ]) e))
        (record {
          single = k;
          present = omega (arith, sum-only (λ v. 1) x g (k x) e);
          kept = λ z. omega arith;
          sums = λ w h. refl;
          size = omega arith;
        })
]

-- The graph has one more edge, from `x` to `y`.
record Linked (x y : ℕ) (g h : List Vertex) : Type 0 where
  built : IsBuilt h
  edges : (a b : ℕ) → links a b h ≡ links a b g + (if a == x then bit b y else 0)
  outs : (a : ℕ) → out a h ≡ out a g + bit a x
  size : length h ≤ 2 + length g

module _ (x y : ℕ) (g : List Vertex) (w : IsBuilt g) (few : out x g ≤ 9) where
  abbrev g1 : List Vertex
  g1 = vertex_lookup_or_alloc x g

  first : Allocated x g g1
  first = loa-Allocated x g w.single

  abbrev g2 : List Vertex
  g2 = vertex_lookup_or_alloc y g1

  second : Allocated y g1 g2
  second = loa-Allocated y g1 first.single

  source : (v : Vertex) × (vertex_lookup x g2 ≡ some v)
  source = find x g2 (omega (arith, first.present, second.kept x))

  abbrev g3 : List Vertex
  g3 = vertex_modify x (vertex_push_back y) g2

  -- There is room in the array of threads.
  pushed : vertex_push_back y source.0 ≡ record source.0 { threads = source.0.threads ++ y ∷ [] }
  unfolding vertex_push_back
  pushed = if_true {b = ltb (length source.0.threads) 10} _ source.0 (
      ground (
        arith,
        sum-only (λ v. length v.threads) x g2 (second.single x) source.1,
        first.sums (only x (λ v. length v.threads)),
        second.sums (only x (λ v. length v.threads)),
      ))

  pushing :
      (f : Vertex → ℕ)
      → sum f g3 + f source.0
        ≡ sum f g2 + f (record source.0 { threads = source.0.threads ++ y ∷ [] })
  pushing f = sum-modify f (vertex_push_back y) x g2 source.1 ∙ ap (λ v. sum f g2 + f v) pushed

  source_name : source.0.thread_id ≡ x
  source_name = lookup_id x g2 source.1

  target : (v : Vertex) × (vertex_lookup y g3 ≡ some v)
  target = find y g3 (omega (arith, pushing (only y (λ v. 1)), second.present))

  target_name : target.0.thread_id ≡ y
  target_name = lookup_id y g3 target.1

  abbrev raised : Vertex → Vertex
  raised v = record v { indegress = suc v.indegress }

  raising :
      (f : Vertex → ℕ)
      → sum f (vertex_modify y raised g3) + f target.0 ≡ sum f g3 + f (raised target.0)
  raising f = sum-modify f raised y g3 target.1

  add_edge-Linked : Linked x y g (add_edge x y g)
  unfolding add_edge
  add_edge-Linked = record {
    built = record {
      single =
          λ z. omega (arith, raising (only z (λ v. 1)), pushing (only z (λ v. 1)), second.single z);
      balance = λ z. ground (
        arith,
        target_name,
        raising (only z (λ v. v.indegress)),
        pushing (only z (λ v. v.indegress)),
        first.sums (only z (λ v. v.indegress)),
        second.sums (only z (λ v. v.indegress)),
        raising (λ v. count z v.threads),
        pushing (λ v. count z v.threads),
        first.sums (λ v. count z v.threads) refl,
        second.sums (λ v. count z v.threads) refl,
        count-append z source.0.threads (y ∷ []),
        w.balance z,
      );
    };
    edges = λ a b. ground (
      arith,
      source_name,
      raising (only a (λ v. count b v.threads)),
      pushing (only a (λ v. count b v.threads)),
      first.sums (only a (λ v. count b v.threads)),
      second.sums (only a (λ v. count b v.threads)),
      count-append b source.0.threads (y ∷ []),
    );
    outs = λ a. ground (
      arith,
      source_name,
      raising (only a (λ v. length v.threads)),
      pushing (only a (λ v. length v.threads)),
      first.sums (only a (λ v. length v.threads)),
      second.sums (only a (λ v. length v.threads)),
      length-append source.0.threads (y ∷ []),
    );
    size = omega (
      arith,
      first.size,
      second.size,
      length-modify (vertex_push_back y) x g2,
      length-modify raised y g3,
    );
  }

-- The edge that one request stands for: from the thread that waits, to the one that holds the lock.
pub edge : List HoldLock → ReqLock → ℕ → ℕ → ℕ
unfolding hold_lookup
edge hs r x y =
    if r.valid
    then elim (hold_lookup r.lock_addr hs) [
      | none ↦ 0
      | some h ↦ if h.count == 0 then 0 else if x == r.thread_id then bit y h.thread_id else 0
    ]
    else 0

-- How often the thread `x` waits for a lock that the thread `y` holds.
pub waits : List HoldLock → List ReqLock → ℕ → ℕ → ℕ
unfolding edge
waits hs [] x y = 0
waits hs (r ∷ rs) x y = edge hs r x y + waits hs rs x y

-- How many requests a thread has.
abbrev pub requests : ℕ → List ReqLock → ℕ
requests x [] = 0
requests x (r ∷ rs) = bit x r.thread_id + requests x rs

-- What one request adds.
record Requested (hs : List HoldLock) (r : ReqLock) (g h : List Vertex) : Type 0 where
  built : IsBuilt h
  edges : (a b : ℕ) → links a b h ≡ links a b g + edge hs r a b
  outs : (a : ℕ) → out a h ≤ out a g + bit a r.thread_id
  size : length h ≤ 2 + length g

unchanged :
    (hs : List HoldLock) (r : ReqLock) (g : List Vertex)
    → IsBuilt g
    → ((a b : ℕ) → edge hs r a b ≡ 0)
    → Requested hs r g g
unchanged hs r g w h = record {
  built = w;
  edges = λ a b. omega (arith, h a b);
  outs = λ a. omega arith;
  size = omega arith;
}

module _ (hs : List HoldLock) (r : ReqLock) (g : List Vertex) (w : IsBuilt g)
    (few : out r.thread_id g ≤ 9) where
  abbrev graph_of : Option HoldLock → List Vertex
  graph_of none = g
  graph_of (some h) = if h.count == 0 then g else add_edge r.thread_id h.thread_id g

  abbrev edge_of : ℕ → ℕ → Option HoldLock → ℕ
  edge_of x y none = 0
  edge_of x y (some h) =
      if h.count == 0 then 0 else if x == r.thread_id then bit y h.thread_id else 0

  held-Requested :
      (o : Option HoldLock)
      → hold_lookup r.lock_addr hs ≡ o
      → r.valid ≡ true
      → Requested hs r g (graph_of o)
  unfolding edge
  held-Requested none n e = unchanged hs r g w (λ a b. if_true _ 0 e ∙ ap (edge_of a b) n)
  held-Requested (some h) n e = elim (Bool-cases (h.count == 0)) [
    | inl z ↦
        subst (Requested hs r g) (sym (if_true g (add_edge r.thread_id h.thread_id g) z))
          (unchanged hs r g w (λ a b. if_true _ 0 e ∙ ap (edge_of a b) n ∙ if_true 0 _ z))
    | inr z ↦
        let more = add_edge-Linked r.thread_id h.thread_id g w few in
        subst (Requested hs r g) (sym (if_false g (add_edge r.thread_id h.thread_id g) z)) (record {
          built = more.built;
          edges = λ a b.
              more.edges a b
              ∙ ap (λ k. links a b g + k)
                  (sym (
                    if_true (edge_of a b (hold_lookup r.lock_addr hs)) 0 e
                    ∙ ap (edge_of a b) n
                    ∙ if_false 0 (if a == r.thread_id then bit b h.thread_id else 0) z));
          outs = λ a. omega (arith, more.outs a);
          size = more.size;
        })
  ]

  add_request-Requested : Requested hs r g (add_request hs r g)
  unfolding add_request edge
  add_request-Requested = elim (Bool-cases r.valid) [
    | inl e ↦
        subst (Requested hs r g) (sym (if_true (graph_of (hold_lookup r.lock_addr hs)) g e))
          (held-Requested (hold_lookup r.lock_addr hs) refl e)
    | inr e ↦
        subst (Requested hs r g) (sym (if_false (graph_of (hold_lookup r.lock_addr hs)) g e))
          (unchanged hs r g w (λ a b. if_false _ 0 e))
  ]

-- A graph has been built from a list of requests.
pub record Built (hs : List HoldLock) (rs : List ReqLock) (g h : List Vertex) : Type 0 where
  pub built : IsBuilt h
  pub edges : (x y : ℕ) → links x y h ≡ links x y g + waits hs rs x y
  pub size : length h ≤ 2 * length rs + length g

build-Built :
    (hs : List HoldLock) (rs : List ReqLock) (g : List Vertex)
    → IsBuilt g
    → ((x : ℕ) → out x g + requests x rs ≤ 10)
    → Built hs rs g (build hs rs g)
unfolding build waits
build-Built hs [] g w h = record { built = w; edges = λ x y. omega arith; size = omega arith }
build-Built hs (r ∷ rs) g w h =
    let first = add_request-Requested hs r g w (ground (arith, h r.thread_id)) in
    let more =
      build-Built hs rs (add_request hs r g) first.built (λ x. omega (arith, first.outs x, h x)) in
    record {
      built = more.built;
      edges = λ x y. omega (arith, more.edges x y, first.edges x y);
      size = omega (arith, more.size, first.size);
    }

-- From an empty list, where no thread has more than one request, each wait is an edge.
pub build_lem :
    (hs : List HoldLock) (rs : List ReqLock)
    → ((x : ℕ) → requests x rs ≤ 1)
    → Built hs rs [] (build hs rs [])
build_lem hs rs h =
    build-Built hs rs [] (record { single = λ x. omega arith; balance = λ y. refl })
      (λ x. omega (arith, h x))
