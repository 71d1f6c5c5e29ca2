-- ===== src/EventLoop/Dispatch/HeapTick.antt =====
-- cl_time_heap_tick and time_heap_del_timer of framework/zebra_epoll/min_heap.c: which node a tick
-- takes out, and what a cancelled node leaves.
use algorithm.Common.{
  to_u32, ℕ, zero, suc, ◌+◌, ◌<◌, ◌≤◌, ◌≡◌, ◌≢◌, Option, some, arith, ltb, ◌==◌, at, bit, ap,
  Bool-cases, inl, inr, refl, true, false, ◌∙◌, occurs, occurs-zero,
}
use algorithm.MinHeap.{Node, TimeHeap, key, pop_timer}
use algorithm.MinHeap.Invariant.{IsValid, holds, cell_nonnull}
use algorithm.MinHeap.Pop.{Popped, pop_timer-Popped, top_least, top-at, time_heap_empty_lem}
use algorithm.EventLoop.Dispatch.{heap_tick_loop, heap_tick}

abbrev pub args : TimeHeap → ℕ → ℕ
args h p = (h.mem.node p).args

-- What a tick at `cur` gives: the node `p` with its thread `t`, or no thread.
pub record Due (cur : ℕ) (h : TimeHeap) (r : Option (ℕ × TimeHeap)) : Type 0 where
  pub t : ℕ
  pub p : ℕ
  pub rest : TimeHeap
  pub result : r ≡ some (t, rest)
  pub valid : IsValid rest
  pub nodes : (q : ℕ) → rest.mem.node q ≡ h.mem.node q
  pub fewer : (q : ℕ) → holds rest q ≤ holds h q
  pub kept : (q : ℕ) → 0 < args h q → (0 < t → q ≢ p) → holds rest q ≡ holds h q
  pub node : 0 < t → (0 < holds h p) × (args h p ≡ t) × (key h.mem p ≤ cur) × (holds rest p ≡ 0)
  pub least : 0 < t → (q : ℕ) → 0 < holds h q → 0 < args h q → key h.mem p ≤ key h.mem q
  pub none_due : t ≡ 0 → (q : ℕ) → 0 < holds h q → 0 < args h q → cur < key h.mem q

-- No node has expired.
nothing :
    (cur : ℕ) {h : TimeHeap}
    → IsValid h
    → ((q : ℕ) → 0 < holds h q → cur < key h.mem q)
    → Due cur h (some (0, h))
nothing cur {h} v later = record {
  t = 0;
  p = 0;
  rest = h;
  result = refl;
  valid = v;
  nodes = λ q. refl;
  fewer = λ q. omega arith;
  kept = λ q a ne. refl;
  node = λ pos. absurd (omega arith);
  least = λ pos. absurd (omega arith);
  none_due = λ e q held a. later q held;
}

module _ (cur : ℕ) {h h' : TimeHeap} (v : IsValid h) (pos : 0 < h.cursize)
    (due : key h.mem (at h.nodes 0) ≤ cur) (pop : Popped h h') where
  abbrev top : ℕ
  top = at h.nodes 0

  removed : (q : ℕ) → holds h' q + bit q top ≡ holds h q
  removed q = omega (arith, pop.removed q, ap (bit q) (top-at h pos))

  top_first : (q : ℕ) → 0 < holds h q → key h.mem top ≤ key h.mem q
  top_first q held = omega (arith, (top_least q v held).0, ap (key h.mem) (top-at h pos))

  same : (q : ℕ) → (args h' q ≡ args h q) × (key h'.mem q ≡ key h.mem q)
  same q = (ap (λ (n : Node). n.args) (pop.nodes q), ap (λ (n : Node). n.expire) (pop.nodes q))

  -- The top has expired and names a thread.
  found : 0 < args h top → Due cur h (some (args h top, h'))
  found a = record {
    t = args h top;
    p = top;
    rest = h';
    result = refl;
    valid = pop.valid;
    nodes = pop.nodes;
    fewer = λ q. omega (arith, removed q);
    kept = λ q b ne. ground (arith, removed q, ne a);
    node = λ b. (ground (arith, removed top), refl, due, ground (arith, removed top, v.unique top));
    least = λ b q held x. top_first q held;
    none_due = λ e. absurd (omega arith);
  }

  -- The top has been cancelled, and the rest of the loop goes on without it.
  skipped : {r : Option (ℕ × TimeHeap)} → args h top ≡ 0 → Due cur h' r → Due cur h r
  skipped a d = record {
    t = d.t;
    p = d.p;
    rest = d.rest;
    result = d.result;
    valid = d.valid;
    nodes = λ q. d.nodes q ∙ pop.nodes q;
    fewer = λ q. omega (arith, d.fewer q, removed q);
    kept = λ q b ne. ground (arith, d.kept q, removed q, same q, ne);
    node = λ b. ground (arith, d.node b, removed d.p, same d.p);
    least = λ b q held x. ground (arith, d.least b q, removed q, same q, same d.p);
    none_due = λ e q held x. ground (arith, d.none_due e q, removed q, same q);
  }

heap_tick_loop-Due :
    (f cur : ℕ) {h : TimeHeap}
    → IsValid h
    → h.cursize < f
    → Due cur h (heap_tick_loop f (at h.nodes 0) cur h)
unfolding heap_tick_loop
heap_tick_loop-Due zero cur {h} v q = absurd (omega arith)
heap_tick_loop-Due (suc f) cur {h} v q = elim (Bool-cases (h.cursize == 0)) [
  | inl z ↦ rw (time_heap_empty_lem h, z) (nothing cur v (λ p held. absurd (empty z p held)))
  | inr pos ↦ elim (Bool-cases (ltb cur (key h.mem (at h.nodes 0)))) [
    | inl late ↦
        rw (time_heap_empty_lem h, pos, nonnull pos, late)
          (nothing cur v (λ p held.
            ground (arith, (top_least p v held).0, ap (key h.mem) (top-at h (ground arith)))))
    | inr due ↦ elim (Bool-cases (args h (at h.nodes 0) == 0)) [
      | inl a ↦
          rw (time_heap_empty_lem h, pos, nonnull pos, due, a)
            (skipped cur v (ground arith) (ground arith) (pop pos) (ground arith)
              (heap_tick_loop-Due f cur (pop pos).valid (omega (arith, (pop pos).count))))
      | inr a ↦
          rw (time_heap_empty_lem h, pos, nonnull pos, due, a)
            (found cur v (ground arith) (ground arith) (pop pos) (ground arith))
    ]
  ]
]
  where
    empty : (h.cursize == 0) ≡ true → (p : ℕ) → 0 < holds h p → ⊥
    empty z p held =
        let e : h.cursize ≡ 0 = ground arith in
        omega (arith, occurs-zero p h.nodes, ap (λ n. occurs p n h.nodes) e)

    nonnull : (h.cursize == 0) ≡ false → (at h.nodes 0 == 0) ≡ false
    nonnull pos = ground (arith, cell_nonnull 0 v (ground arith))

    pop : (h.cursize == 0) ≡ false → Popped h (pop_timer h)
    pop pos = pop_timer-Popped v (ground arith)

pub heap_tick-Due : (now : ℕ) {h : TimeHeap} → IsValid h → Due (to_u32 now) h (heap_tick now h)
unfolding heap_tick
heap_tick-Due now {h} v = heap_tick_loop-Due (suc h.cursize) (to_u32 now) v (omega arith)
