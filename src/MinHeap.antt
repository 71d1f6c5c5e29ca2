-- ===== src/MinHeap.antt =====
-- timer/min_heap/minheap_internal/min_heap.c: timers in a binary min-heap of node pointers.
pub mod Order
pub mod Down
pub mod Invariant
pub mod Add
pub mod Pop
pub mod Tick
mod Tests
use algorithm.Common.{
  Int32, to_i32, to_u32, ℕ, zero, suc, ◌+◌, ◌-◌, ◌*◌, ◌/◌, ◌%◌, ◌^◌, Bool, true, false, Option,
  none, some, List, [], ◌∷◌, ltb, leb, ◌==◌, if◌then◌else◌, length, get_or, set, replicate, at,
  ◌&&◌, ◌<◌, ◌≡◌,
}

-- `minheap_node_t`; a function pointer is a number, NULL is `none`.
pub record Node : Type 0 where
  pub expire : ℕ
  pub cb : Option ℕ
  pub args : ℕ

-- The memory that node pointers point into. A freed cell keeps its bytes and is not live.
pub record Memory : Type 0 where
  pub node : ℕ → Node
  pub live : ℕ → Bool
  pub next : ℕ

-- `time_heap_t`, with the memory of its nodes.
pub record TimeHeap : Type 0 where
  pub nodes : List ℕ
  pub capacity : ℕ
  pub cursize : ℕ
  pub mem : Memory

abbrev pub write_node : Memory → ℕ → Node → Memory
write_node m p v = record m { node = λ q. if p == q then v else m.node q }

abbrev pub key : Memory → ℕ → ℕ
key m p = (m.node p).expire

pub time_heap_empty : TimeHeap → Bool
time_heap_empty h = h.cursize == 0

-- `for(i = 0; i < h->cursize; i++) tmp[i] = h->nodes[i];`, with the rounds left and `i`.
pub copy_nodes : ℕ → ℕ → List ℕ → List ℕ → List ℕ
copy_nodes zero i nodes tmp = tmp
copy_nodes (suc n) i nodes tmp = copy_nodes n (i + 1) nodes (set tmp i (at nodes i))

pub time_heap_resize : TimeHeap → TimeHeap
unfolding copy_nodes
time_heap_resize h = record h {
  nodes = copy_nodes h.cursize 0 h.nodes (replicate (h.capacity * 2) 0);
  capacity = h.capacity * 2;
}

-- `calloc` gives the next fresh address; `now` is what `gettime` returns.
pub minheap_node_init : Option ℕ → ℕ → ℕ → ℕ → Memory → ℕ × Memory
minheap_node_init cb args timeout now m =
    let v : Node = record { expire = to_u32 (now + timeout); cb = cb; args = args } in
    (
      m.next,
      record {
        node = λ q. if m.next == q then v else m.node q;
        live = λ q. if m.next == q then true else m.live q;
        next = m.next + 1;
      },
    )

pub minheap_node_free : ℕ → Memory → Memory
minheap_node_free p m =
    if p == 0 then m else record m { live = λ q. if p == q then false else m.live q }

-- The loops read `expire` through the pointers: `k p` is `p->expire`.
module _ (k : ℕ → ℕ) where
  -- The body of percolate_down, with the rounds left. `cursize - 1` is signed there, so
  -- `hole*2+1 <= cursize-1` is `hole*2+1 < cursize`.
  abbrev pub smaller_child : ℕ → List ℕ → ℕ → ℕ
  smaller_child cursize nodes hole =
      let child = hole * 2 + 1 in
      if ltb (child + 1) cursize && ltb (k (at nodes (child + 1))) (k (at nodes child))
      then child + 1
      else child

  pub down_loop : ℕ → ℕ → List ℕ → ℕ → ℕ → List ℕ
  down_loop zero cursize nodes tmp hole = set nodes hole tmp
  down_loop (suc f) cursize nodes tmp hole =
      let child = smaller_child cursize nodes hole in
      let rest = down_loop f cursize (set nodes hole (at nodes child)) tmp child in
      if ltb (hole * 2 + 1) cursize
      then (if ltb (k (at nodes child)) (k tmp) then rest else set nodes hole tmp)
      else set nodes hole tmp

  pub percolate_down : ℕ → List ℕ → ℕ → List ℕ
  unfolding down_loop
  percolate_down cursize nodes hole = down_loop cursize cursize nodes (at nodes hole) hole

  pub up_loop : ℕ → List ℕ → ℕ → ℕ → List ℕ
  up_loop zero nodes n hole = set nodes hole n
  up_loop (suc f) nodes n hole =
      let parent = (hole - 1) / 2 in
      let rest = up_loop f (set nodes hole (at nodes parent)) n parent in
      if ltb 0 hole
      then (if leb (k (at nodes parent)) (k n) then set nodes hole n else rest)
      else set nodes hole n

  pub insert_time_heap : List ℕ → ℕ → ℕ → List ℕ
  unfolding up_loop
  insert_time_heap nodes n hole = up_loop hole nodes n hole

pub time_heap_add_timer : Option ℕ → ℕ → ℕ → ℕ → TimeHeap → ℕ × TimeHeap
unfolding insert_time_heap time_heap_resize minheap_node_init
time_heap_add_timer cb args timeout now h =
    let h1 : TimeHeap = if leb h.capacity h.cursize then time_heap_resize h else h in
    let (node, m) = minheap_node_init cb args timeout now h1.mem in
    (
      node,
      record {
        nodes = insert_time_heap (key m) h1.nodes node h1.cursize;
        capacity = h1.capacity;
        cursize = h1.cursize + 1;
        mem = m;
      },
    )

-- Lazy: the node stays in the heap without its callback.
pub time_heap_del_timer : ℕ → TimeHeap → TimeHeap
time_heap_del_timer node h =
    if node == 0
    then h
    else record h { mem = write_node h.mem node (record (h.mem.node node) { cb = none }) }

pub pop_timer : TimeHeap → TimeHeap
unfolding time_heap_empty minheap_node_free percolate_down
pop_timer h =
    let m = minheap_node_free (at h.nodes 0) h.mem in
    let n = h.cursize - 1 in
    let moved = set (set h.nodes 0 0) 0 (at (set h.nodes 0 0) n) in
    if time_heap_empty h
    then h
    else if at h.nodes 0 == 0
    then h
    else record h { nodes = percolate_down (key m) n moved 0; cursize = n; mem = m }

pub time_heap_top : TimeHeap → ℕ
unfolding time_heap_empty
time_heap_top h = if time_heap_empty h then 0 else at h.nodes 0

pub time_heap_top_expire : TimeHeap → Option ℕ
unfolding time_heap_empty
time_heap_top_expire h = if time_heap_empty h then none else some (key h.mem (at h.nodes 0))

pub time_heap_time_wait : ℕ → TimeHeap → Option Int32
unfolding time_heap_top_expire
time_heap_time_wait now h = elim (time_heap_top_expire h) [
  | none ↦ none
  | some expire ↦ some (to_i32 (if ltb (to_u32 now) expire then expire - to_u32 now else 1))
]

-- A callback may change the rest of the program, `E`, and the heap through its functions.
module _ {E : Type 0} (call : ℕ → ℕ → E × TimeHeap → E × TimeHeap) where
  pub fire : ℕ → E × TimeHeap → E × TimeHeap
  fire p (e, h) = elim (h.mem.node p).cb [
    | none ↦ (e, h)
    | some c ↦ call c (h.mem.node p).args (e, h)
  ]

  -- The loop of time_heap_tick with the pointer `tmp`; `none` is the fuel running out.
  pub tick_loop : ℕ → ℕ → ℕ → E × TimeHeap → Option (E × TimeHeap)
  tick_loop zero tmp cur s = none
  tick_loop (suc f) tmp cur s =
      let fired = fire (at s.1.nodes 0) s in
      let popped = pop_timer fired.1 in
      let rest = tick_loop f (at popped.nodes 0) cur (fired.0, popped) in
      if time_heap_empty s.1
      then some s
      else if tmp == 0
      then some s
      else if ltb cur (key s.1.mem tmp)
      then some s
      else rest

  pub time_heap_tick : ℕ → ℕ → E × TimeHeap → Option (E × TimeHeap)
  unfolding tick_loop
  time_heap_tick fuel now s = tick_loop fuel (at s.1.nodes 0) (to_u32 now) s

pub time_heap_init : Memory → TimeHeap
time_heap_init m = record { nodes = replicate 100 0; capacity = 100; cursize = 0; mem = m }

-- `for(i = 0; i < heap->cursize; i++) minheap_node_free(heap->nodes[i]);`
free_nodes : ℕ → ℕ → List ℕ → Memory → Memory
free_nodes zero i nodes m = m
free_nodes (suc n) i nodes m = free_nodes n (i + 1) nodes (minheap_node_free (at nodes i) m)

-- What is left after time_head_free is the memory.
pub time_head_free : TimeHeap → Memory
unfolding free_nodes minheap_node_free
time_head_free h = free_nodes h.cursize 0 h.nodes h.mem
