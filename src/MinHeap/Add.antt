-- ===== src/MinHeap/Add.antt =====
-- time_heap_add_timer, with and without a resize, and the lazy time_heap_del_timer.
use algorithm.Common.{
  to_u32, ℕ, suc, ◌+◌, ◌<◌, ◌≡◌, ◌≢◌, arith, leb, at, bit, occurs, occurs-suc, refl, ap, ◌∙◌,
  Option, none, Bool-cases, inl, inr, ◌==◌,
}
use algorithm.MinHeap.{
  Memory, TimeHeap, Node, key, time_heap_add_timer, time_heap_del_timer, minheap_node_init,
  insert_time_heap,
}
use algorithm.MinHeap.Order.{parent, Sifted, insert_sifts}
use algorithm.MinHeap.Invariant.{IsValid, holds, cell_known, Resized, resize-Resized}

-- What adding a timer leaves: one more node, new to the heap, that carries the request.
pub record Added (cb : Option ℕ) (args timeout now : ℕ) (h : TimeHeap) (r : ℕ × TimeHeap)
    : Type 0 where
  pub valid : IsValid r.1
  pub new : holds h r.0 ≡ 0
  pub more : (p : ℕ) → holds r.1 p ≡ holds h p + bit p r.0
  pub request : r.1.mem.node r.0 ≡ record { expire = to_u32 (now + timeout); cb = cb; args = args }
  pub others : (p : ℕ) → p ≢ r.0 → r.1.mem.node p ≡ h.mem.node p

not_held : {h : TimeHeap} → IsValid h → holds h h.mem.next ≡ 0
not_held {h} v = ground (arith, v.alive h.mem.next, v.fresh h.mem.next)

module _ (cb : Option ℕ) (args timeout now : ℕ) {h : TimeHeap} (v : IsValid h) where
  abbrev node : Node
  node = record { expire = to_u32 (now + timeout); cb = cb; args = args }

  abbrev mem' : Memory
  mem' = (minheap_node_init cb args timeout now h.mem).1

  key_kept : (i : ℕ) → i < h.cursize → key mem' (at h.nodes i) ≡ key h.mem (at h.nodes i)
  unfolding minheap_node_init
  key_kept i q = ground (arith, cell_known i v q)

  -- The part of time_heap_add_timer that follows the test for room.
  insert-Added :
      h.cursize < h.capacity
      → Added cb args timeout now h (
        h.mem.next,
        record {
          nodes = insert_time_heap (key mem') h.nodes h.mem.next h.cursize;
          capacity = h.capacity;
          cursize = h.cursize + 1;
          mem = mem';
        },
      )
  unfolding minheap_node_init
  insert-Added room = record {
    valid = record {
      size = omega (arith, sifted.size, v.size);
      room = omega arith;
      positive = v.positive;
      ordered = λ c p q. sifted.ordered c p (omega arith);
      unique = λ p. ground (arith, more p, v.unique p, not_held v);
      alive = λ p q. ground (arith, more p, v.alive p);
      null = ground (arith, v.null, v.started);
      started = omega arith;
      fresh = λ p q. ground (arith, v.fresh p);
    };
    new = not_held v;
    more = more;
    request = ground arith;
    others = λ p q. ground arith;
  }
    where
      sifted :
          Sifted
            (key mem')
            (suc h.cursize)
            h.nodes
            h.cursize
            h.mem.next
            (insert_time_heap (key mem') h.nodes h.mem.next h.cursize)
      sifted =
          insert_sifts (key mem') h.cursize h.nodes h.mem.next (omega (arith, v.size)) (λ c p q.
            ground (arith, v.ordered c p q, key_kept c q, key_kept (parent c) (omega arith)))

      more :
          (p : ℕ)
          → occurs p (h.cursize + 1) (insert_time_heap (key mem') h.nodes h.mem.next h.cursize)
            ≡ occurs p h.cursize h.nodes + bit p h.mem.next
      more p = ground (arith, sifted.same p, occurs-suc p h.cursize h.nodes)

-- A resize before the insertion is not seen.
widen :
    (cb : Option ℕ) (args timeout now : ℕ) {h h1 : TimeHeap} {r : ℕ × TimeHeap}
    → Resized h h1
    → Added cb args timeout now h1 r
    → Added cb args timeout now h r
widen cb args timeout now {h} {h1} {r} s a = record {
  valid = a.valid;
  new = omega (arith, s.same r.0, a.new);
  more = λ p. omega (arith, s.same p, a.more p);
  request = a.request;
  others = λ p q. a.others p q ∙ ap (λ (m : Memory). m.node p) s.memory;
}

-- time_heap_add_timer keeps the heap valid, and adds exactly one node, which carries the request;
-- the other nodes are as before.
pub add_timer-Added :
    (cb : Option ℕ) (args timeout now : ℕ) {h : TimeHeap}
    → IsValid h
    → Added cb args timeout now h (time_heap_add_timer cb args timeout now h)
unfolding time_heap_add_timer
add_timer-Added cb args timeout now {h} v = elim (Bool-cases (leb h.capacity h.cursize)) [
  | inr e ↦ rw e (insert-Added cb args timeout now v (ground arith))
  | inl e ↦
      let s = resize-Resized v in
      rw e (
        widen cb args timeout now s (
          insert-Added cb args timeout now s.valid
            (omega (arith, s.doubled, s.count, v.room, v.positive))))
]

-- time_heap_del_timer leaves the node in its place in the heap, with its expiry, and takes its
-- callback away; no other node changes.
pub del_timer_lem :
    (p : ℕ) {h : TimeHeap}
    → IsValid h
    → 0 < p
    → let h' = time_heap_del_timer p h in
      IsValid h'
      × (h'.nodes ≡ h.nodes)
      × (h'.mem.node p ≡ record (h.mem.node p) { cb = none })
      × ((q : ℕ) → q ≢ p → h'.mem.node q ≡ h.mem.node q)
unfolding time_heap_del_timer
del_timer_lem p {h} v pos = elim (Bool-cases (p == 0)) [
  | inl e ↦ absurd (ground arith)
  | inr e ↦ rw e (
    record {
      size = v.size;
      room = v.room;
      positive = v.positive;
      ordered = λ c q r. ground (arith, v.ordered c q r);
      unique = v.unique;
      alive = v.alive;
      null = v.null;
      started = v.started;
      fresh = v.fresh;
    },
    refl,
    ground arith,
    λ q ne. ground arith,
  )
]
