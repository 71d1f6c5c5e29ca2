-- ===== src/MinHeap/Invariant.antt =====
-- The invariant of a timer heap, and time_heap_resize.
use algorithm.Common.{
  ℕ, zero, suc, ◌+◌, ◌*◌, ◌<◌, ◌≤◌, ◌≡◌, ◌≢◌, List, arith, ltb, leb, if◌then◌else◌, length, set,
  length-set, get_or-set, at, true, false, occurs, occurs-ext, occurs-zero, occurs-at,
  length-replicate, refl, replicate, ◌&&◌, ◌∙◌,
}
use algorithm.MinHeap.{Memory, TimeHeap, key, copy_nodes, time_heap_init, time_heap_resize}
use algorithm.MinHeap.Order.{parent, IsOrdered}

-- How often the heap holds a node pointer.
abbrev pub holds : TimeHeap → ℕ → ℕ
holds h p = occurs p h.cursize h.nodes

pub record IsValid (h : TimeHeap) : Type 0 where
  pub size : length h.nodes ≡ h.capacity
  pub room : h.cursize ≤ h.capacity
  pub positive : 0 < h.capacity
  pub ordered : IsOrdered (key h.mem) h.cursize h.nodes
  pub unique : (p : ℕ) → holds h p ≤ 1
  pub alive : (p : ℕ) → 0 < holds h p → h.mem.live p ≡ true
  pub null : h.mem.live 0 ≡ false
  pub started : 0 < h.mem.next
  pub fresh : (p : ℕ) → h.mem.next ≤ p → h.mem.live p ≡ false

-- A cell of the heap points to a live node, so to neither NULL nor the next address.
pub cell_live :
    {h : TimeHeap} (i : ℕ) → IsValid h → i < h.cursize → h.mem.live (at h.nodes i) ≡ true
cell_live {h} i v q = v.alive (at h.nodes i) (occurs-at h.cursize i h.nodes q)

pub cell_known : {h : TimeHeap} (i : ℕ) → IsValid h → i < h.cursize → at h.nodes i < h.mem.next
cell_known {h} i v q = ground (arith, cell_live i v q, v.fresh (at h.nodes i))

pub cell_nonnull : {h : TimeHeap} (i : ℕ) → IsValid h → i < h.cursize → at h.nodes i ≢ 0
cell_nonnull {h} i v q e = let live = cell_live i v q in ground (arith, v.null, (rw e at live))

length-copy_nodes : (n i : ℕ) (a b : List ℕ) → length (copy_nodes n i a b) ≡ length b
unfolding copy_nodes
length-copy_nodes zero i a b = refl
length-copy_nodes (suc n) i a b =
    omega (arith, length-copy_nodes n (i + 1) a (set b i (at a i)), length-set b i (at a i))

at-copy_nodes :
    (n i j : ℕ) (a b : List ℕ)
    → i + n ≤ length b
    → at (copy_nodes n i a b) j ≡ (if leb i j && ltb j (i + n) then at a j else at b j)
unfolding copy_nodes
at-copy_nodes zero i j a b h = ground arith
at-copy_nodes (suc n) i j a b h = ground (
  arith,
  get_or-set b i j (at a i) 0,
  length-set b i (at a i),
  at-copy_nodes n (i + 1) j a (set b i (at a i)),
)

-- What time_heap_resize leaves: room for more, and the same nodes in the same cells.
pub record Resized (h h' : TimeHeap) : Type 0 where
  pub valid : IsValid h'
  pub doubled : h'.capacity ≡ h.capacity * 2
  pub count : h'.cursize ≡ h.cursize
  pub cells : (i : ℕ) → i < h.cursize → at h'.nodes i ≡ at h.nodes i
  pub memory : h'.mem ≡ h.mem
  pub same : (p : ℕ) → holds h' p ≡ holds h p

-- time_heap_resize doubles the capacity and keeps every pointer in its cell.
pub resize-Resized : {h : TimeHeap} → IsValid h → Resized h (time_heap_resize h)
unfolding time_heap_resize
resize-Resized {h} v = record {
  valid = record {
    size = omega (arith, size);
    room = omega (arith, v.room);
    positive = omega (arith, v.positive);
    ordered = λ c p q. ground (arith, v.ordered c p q, kept c q, kept (parent c) (omega arith));
    unique = λ p. ground (arith, same p, v.unique p);
    alive = λ p q. v.alive p (ground (arith, same p));
    null = v.null;
    started = v.started;
    fresh = v.fresh;
  };
  doubled = refl;
  count = refl;
  cells = kept;
  memory = refl;
  same = same;
}
  where
    fresh_nodes : List ℕ
    fresh_nodes = replicate (h.capacity * 2) 0

    size : length (copy_nodes h.cursize 0 h.nodes fresh_nodes) ≡ h.capacity * 2
    size =
        length-copy_nodes h.cursize 0 h.nodes fresh_nodes
        ∙ length-replicate {A = ℕ} (h.capacity * 2) 0

    kept :
        (i : ℕ) → i < h.cursize → at (copy_nodes h.cursize 0 h.nodes fresh_nodes) i ≡ at h.nodes i
    kept i q = ground (
      arith,
      v.room,
      length-replicate {A = ℕ} (h.capacity * 2) 0,
      at-copy_nodes h.cursize 0 i h.nodes fresh_nodes,
    )

    same :
        (p : ℕ)
        → occurs p h.cursize (copy_nodes h.cursize 0 h.nodes fresh_nodes)
          ≡ occurs p h.cursize h.nodes
    same p = occurs-ext p h.cursize _ h.nodes kept

-- time_heap_init gives an empty, valid heap over a memory with no stray live cells.
pub init-IsValid :
    (m : Memory)
    → m.live 0 ≡ false
    → 0 < m.next
    → ((p : ℕ) → m.next ≤ p → m.live p ≡ false)
    → IsValid (time_heap_init m) × ((p : ℕ) → holds (time_heap_init m) p ≡ 0)
unfolding time_heap_init
init-IsValid m null started fresh =
    let none_held : (p : ℕ) → occurs p 0 (replicate 100 0) ≡ 0 =
      λ p. occurs-zero p (replicate 100 0) in
    (
      record {
        size = refl;
        room = omega arith;
        positive = omega arith;
        ordered = λ c p q. absurd (omega arith);
        unique = λ p. omega (arith, none_held p);
        alive = λ p q. absurd (omega (arith, none_held p));
        null = null;
        started = started;
        fresh = fresh;
      },
      none_held,
    )
