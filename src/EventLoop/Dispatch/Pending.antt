-- ===== src/EventLoop/Dispatch/Pending.antt =====
-- The part of cl_thread_fetch of framework/zebra_epoll/cl_thread.c before epoll_wait: which thread
-- it hands out.
use algorithm.Common.{
  ℕ, ◌<◌, ◌≡◌, inl, inr, true, false, Option, none, some, arith, ltb, if◌then◌else◌, ◌==◌,
  Bool-cases, ◌∙◌, ap, refl, sym, if_true, if_false, to_u32, none-ne-some,
}
use algorithm.MinHeap.{TimeHeap}
use algorithm.EventLoop.{
  Thread, Master, head, trim_head, list_del, retire, thread_event, thread_ready,
}
use algorithm.EventLoop.Dispatch.{run, heap_tick, pending, handed}
use algorithm.EventLoop.Dispatch.Filed.{Trimmed, trim_head-Trimmed}
use algorithm.EventLoop.Dispatch.Trim.{trim_head-found, trim_head-empty}
use algorithm.EventLoop.Dispatch.Invariant.{IsConsistent}
use algorithm.EventLoop.Dispatch.HeapTick.{Due, heap_tick-Due}
use algorithm.EventLoop.Dispatch.Choice.{expires, IsTimer, Choice, event, timer, ready, wait}
use algorithm.EventLoop.Dispatch.HandOther.{
  run_event, run_timer, ticked, ticked-IsConsistent, found,
}
use algorithm.EventLoop.Dispatch.Handout.{HandedOut, run-HandedOut}

pub record Pended (now : ℕ) (m : Master) : Type 0 where
  pub o : Option Thread
  pub r : Master
  pub result : pending now m ≡ some (o, r)
  pub consistent : IsConsistent r
  pub choice : Choice (to_u32 now) m o
  pub in_tree : r.in_tree ≡ m.in_tree
  pub quiet :
      o ≡ none
      → (r.socket ≡ m.socket) × (r.thread ≡ m.thread) × (r.next ≡ m.next) × (r.lists ≡ m.lists)

module _ (now : ℕ) (m : Master) (c : IsConsistent m) where
  d : Due (to_u32 now) m.heap (heap_tick now m.heap)
  d = heap_tick-Due now c.timed.valid

  abbrev m1 : Master
  m1 = ticked now m c d

  abbrev after_ready : ℕ × Master → Option (Option Thread × Master)
  after_ready q = if q.0 == 0 then some (none, m1) else some (handed (run q.0 q.1))

  abbrev after_tick : ℕ × TimeHeap → Option (Option Thread × Master)
  after_tick r =
      let m1 : Master = record m { heap = r.1 } in
      let q = trim_head thread_ready m1 in
      if r.0 == 0
      then (if q.0 == 0 then some (none, m1) else some (handed (run q.0 q.1)))
      else some (handed (run r.0 (list_del r.0 m1)))

  abbrev after_event : ℕ × Master → Option (Option Thread × Master)
  after_event e =
      if e.0 == 0
      then (elim (heap_tick now m.heap) [ none ↦ none | some r ↦ after_tick r ])
      else some (handed (run e.0 e.1))

  pending_lem : pending now m ≡ after_event (trim_head thread_event m)
  unfolding pending
  pending_lem = refl

  abbrev give : Thread × Master → Option (Option Thread × Master)
  give x = some (handed x)

  pending_event : 0 < head (m.lists thread_event) → Pended now m
  pending_event pos = record {
    o = some (m.thread t);
    r = retire t (list_del t m);
    result =
        pending_lem
        ∙ ap after_event (trim_head-found thread_event m pos)
        ∙ if_false _ (give (run t (list_del t m))) some_head
        ∙ ap give out.0;
    consistent = out.1;
    choice = event pos refl;
    in_tree = out.2;
    quiet = λ e. absurd (none-ne-some _ (sym e));
  }
    where
      t : ℕ
      t = head (m.lists thread_event)

      some_head : (t == 0) ≡ false
      some_head = ground arith

      trimmed : Trimmed thread_event m t
      trimmed = trim_head-Trimmed thread_event m c.filed pos

      out :
          (run t (list_del t m) ≡ (m.thread t, retire t (list_del t m)))
          × IsConsistent (retire t (list_del t m))
          × ((retire t (list_del t m)).in_tree ≡ m.in_tree)
      out = run_event t m c pos trimmed.lt trimmed.type

  -- No event: the tick decides.
  module _ (no_event : head (m.lists thread_event) ≡ 0) where
    to_tick : pending now m ≡ after_tick (d.t, d.rest)
    to_tick =
        pending_lem
        ∙ ap after_event (trim_head-empty thread_event m no_event)
        ∙ ap (λ (o : Option (ℕ × TimeHeap)). elim o [ none ↦ none | some r ↦ after_tick r ])
            d.result

    pending_timer : 0 < d.t → Pended now m
    pending_timer pos = record {
      o = some (m.thread d.t);
      r = retire d.t (list_del d.t m1);
      result = to_tick ∙ if_false _ (give (run d.t (list_del d.t m1))) some_thread ∙ ap give out.0;
      consistent = out.1;
      choice =
          timer d.t no_event f.0 (ground (arith, f.1, d.node pos))
            (λ x k. ground (arith, f.1, d.least pos (m.thread x).u, c.timed.armed x k.0 k.1 k.2))
            refl;
      in_tree = out.2;
      quiet = λ e. absurd (none-ne-some _ (sym e));
    }
      where
        f : IsTimer m d.t × ((m.thread d.t).u ≡ d.p)
        f = found now m c d pos

        some_thread : (d.t == 0) ≡ false
        some_thread = ground arith

        out :
            (run d.t (list_del d.t m1) ≡ (m.thread d.t, retire d.t (list_del d.t m1)))
            × IsConsistent (retire d.t (list_del d.t m1))
            × ((retire d.t (list_del d.t m1)).in_tree ≡ m.in_tree)
        out = run_timer now m c d pos

    module _ (none_due : d.t ≡ 0) where
      later : (x : ℕ) → IsTimer m x → to_u32 now < expires m x
      later x k = ground (arith, d.none_due none_due (m.thread x).u, c.timed.armed x k.0 k.1 k.2)

      no_thread : (d.t == 0) ≡ true
      no_thread = ground arith

      c1 : IsConsistent m1
      c1 = ticked-IsConsistent now m c d none_due

      to_ready : pending now m ≡ after_ready (trim_head thread_ready m1)
      to_ready = to_tick ∙ if_true _ _ no_thread

      pending_ready : 0 < head (m.lists thread_ready) → Pended now m
      pending_ready pos = record {
        o = some (m.thread t);
        r = out.r;
        result =
            to_ready
            ∙ ap after_ready (trim_head-found thread_ready m1 pos)
            ∙ if_false _ (give (run t (list_del t m1))) some_head
            ∙ ap give out.result;
        consistent = out.consistent;
        choice = ready no_event later pos refl;
        in_tree = out.in_tree;
        quiet = λ e. absurd (none-ne-some _ (sym e));
      }
        where
          t : ℕ
          t = head (m.lists thread_ready)

          some_head : (t == 0) ≡ false
          some_head = ground arith

          trimmed : Trimmed thread_ready m1 t
          trimmed = trim_head-Trimmed thread_ready m1 c1.filed pos

          out : HandedOut t m1
          out = run-HandedOut t m1 c1 pos trimmed.lt trimmed.type

      pending_none : head (m.lists thread_ready) ≡ 0 → Pended now m
      pending_none no_ready = record {
        o = none;
        r = m1;
        result = to_ready ∙ ap after_ready (trim_head-empty thread_ready m1 no_ready);
        consistent = c1;
        choice = wait no_event later no_ready refl;
        in_tree = refl;
        quiet = λ e. (refl, refl, refl, refl);
      }

  -- What is handed out before any waiting is the first event; without an event, a timer that has
  -- expired and that no other timer expires before; without one, the head of the ready list; and
  -- nothing is handed out only where there is none of them. The data stay consistent.
  pub pending-Pended : Pended now m
  pending-Pended = elim (Bool-cases (ltb 0 (head (m.lists thread_event)))) [
    | inl e ↦ pending_event (ground arith)
    | inr e ↦ elim (Bool-cases (ltb 0 d.t)) [
      | inl t ↦ pending_timer (ground arith) (ground arith)
      | inr t ↦ elim (Bool-cases (ltb 0 (head (m.lists thread_ready)))) [
        | inl q ↦ pending_ready (ground arith) (ground arith) (ground arith)
        | inr q ↦ pending_none (ground arith) (ground arith) (ground arith)
      ]
    ]
  ]
