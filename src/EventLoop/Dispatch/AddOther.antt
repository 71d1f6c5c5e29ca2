-- ===== src/EventLoop/Dispatch/AddOther.antt =====
-- cl_thread_add_event and cl_thread_add_timer of framework/zebra_epoll/cl_thread.c.
use algorithm.Common.{ℕ, ◌<◌, ◌≡◌, ◌≢◌, true, none, arith, ap, subst, sym}
use algorithm.MinHeap.{Node, TimeHeap, time_heap_add_timer}
use algorithm.MinHeap.Add.{Added, add_timer-Added}
use algorithm.EventLoop.{
  Master, add_event, add_timer, set_u, set_thread, list_add_tail, thread_read, thread_write,
  thread_timer, thread_event, thread_ready,
}
use algorithm.EventLoop.Dispatch.Filed.{
  IsFiled, Got, get-Got, got, list_add_tail-IsFiled, set_thread-IsLoose,
}
use algorithm.EventLoop.Dispatch.Invariant.{IsLinked, IsWatched, IsTimed, IsConsistent}

-- A new thread that is of no descriptor, with its union `u` and a heap.
module _ (type func arg u : ℕ) (m : Master) (c : IsConsistent m) (g : Got type func arg m)
    (h : TimeHeap) (not_read : type ≢ thread_read) (not_write : type ≢ thread_write)
    (not_ready : type ≢ thread_ready) where
  abbrev got_m : Master
  got_m = record (got g.t type func arg g.u g.next g.lists m) { heap = h }

  abbrev after : Master
  after = list_add_tail g.t type (set_u g.t u got_m)

  after-IsFiled : IsFiled after
  unfolding set_u
  after-IsFiled =
      list_add_tail-IsFiled g.t type (set_u g.t u got_m)
        (set_thread-IsLoose g.t (record (got_m.thread g.t) { u = u }) got_m g.loose) (ground arith)

  new_other :
      (f : ℕ)
      → m.in_tree f ≡ true
      → (0 < (m.socket f).t_read → (m.socket f).t_read ≢ g.t)
        × (0 < (m.socket f).t_write → (m.socket f).t_write ≢ g.t)
  new_other f j = (
    λ p e. ground (arith, g.unused, c.linked.reader f j p),
    λ p e. ground (arith, g.unused, c.linked.writer f j p),
  )

  after-IsLinked : IsLinked after
  unfolding set_u list_add_tail set_thread
  after-IsLinked = record {
    descriptor = c.linked.descriptor;
    read_bit = c.linked.read_bit;
    write_bit = c.linked.write_bit;
    reader = λ f j p. ground (arith, c.linked.reader f j p, new_other f j, g.grows);
    writer = λ f j p. ground (arith, c.linked.writer f j p, new_other f j, g.grows);
    apart = c.linked.apart;
    reads = λ t p l y. ground (arith, c.linked.reads t p, g.only t l);
    writes = λ t p l y. ground (arith, c.linked.writes t p, g.only t l);
    readies = λ t p l y. ground (arith, c.linked.readies t p, g.only t l);
  }

  after-IsWatched : IsWatched after
  unfolding set_u list_add_tail set_thread
  after-IsWatched = record {
    orderly = c.watched.orderly;
    added = c.watched.added;
    unknown = c.watched.unknown;
    input = λ f j p y. ground (arith, c.watched.input f j p, new_other f j);
    output = λ f j p y. ground (arith, c.watched.output f j p, new_other f j);
  }

  after-IsConsistent : IsTimed after → IsConsistent after
  unfolding set_u list_add_tail set_thread
  after-IsConsistent d = record {
    started = omega (arith, c.started, g.grows);
    filed = after-IsFiled;
    linked = after-IsLinked;
    watched = after-IsWatched;
    timed = d;
  }

-- A new event keeps the data consistent.
pub add_event-IsConsistent :
    (func arg val : ℕ) (m : Master) → IsConsistent m → IsConsistent (add_event func arg val m).1
unfolding add_event
add_event-IsConsistent func arg val m c =
    subst (λ (r : ℕ × Master). IsConsistent (list_add_tail r.0 thread_event (set_u r.0 val r.1)))
      (sym g.result)
      (after-IsConsistent thread_event func arg val m c g m.heap (λ e. omega arith)
        (λ e. omega arith) (λ e. omega arith) timed)
  where
    g : Got thread_event func arg m
    g = get-Got thread_event func arg m c.filed c.started

    timed : IsTimed (
        list_add_tail g.t thread_event
          (set_u g.t val (got g.t thread_event func arg g.u g.next g.lists m)))
    timed = record {
      valid = c.timed.valid;
      armed = λ t p l y. ground (arith, c.timed.armed t p, g.only t l);
      owner = λ p q y. ground (arith, c.timed.owner p q y, g.unused, g.grows);
    }

-- A new timer keeps the data consistent: its node, new to the heap, is the new thread's.
pub add_timer-IsConsistent :
    (func arg timer now : ℕ) (m : Master)
    → IsConsistent m
    → IsConsistent (add_timer func arg timer now m).1
unfolding add_timer
add_timer-IsConsistent func arg timer now m c =
    subst (λ (r : ℕ × Master). IsConsistent (finish r)) (sym g.result)
      (after-IsConsistent thread_timer func arg node m c g heap (λ e. omega arith)
        (λ e. omega arith) (λ e. omega arith) timed)
  where
    g : Got thread_timer func arg m
    g = get-Got thread_timer func arg m c.filed c.started

    node : ℕ
    node = (time_heap_add_timer none g.t timer now m.heap).0

    heap : TimeHeap
    heap = (time_heap_add_timer none g.t timer now m.heap).1

    finish : ℕ × Master → Master
    finish r =
        let h = time_heap_add_timer none r.0 timer now r.1.heap in
        list_add_tail r.0 thread_timer (set_u r.0 h.0 (record r.1 { heap = h.1 }))

    a : Added none g.t timer now m.heap (node, heap)
    a = add_timer-Added none g.t timer now c.timed.valid

    args : (heap.mem.node node).args ≡ g.t
    args = ap (λ (v : Node). v.args) a.request

    other_args : (p : ℕ) → p ≢ node → (heap.mem.node p).args ≡ (m.heap.mem.node p).args
    other_args p ne = ap (λ (v : Node). v.args) (a.others p ne)

    timed : IsTimed (
        list_add_tail g.t thread_timer (
          set_u g.t node
            (record (got g.t thread_timer func arg g.u g.next g.lists m) { heap = heap })))
    timed = record {
      valid = a.valid;
      armed = λ t p l y. ground (
        arith,
        c.timed.armed t p,
        g.only t l,
        a.more (m.thread t).u,
        a.more node,
        a.new,
        args,
        other_args (m.thread t).u,
      );
      owner = λ p q y.
          ground
            (arith, c.timed.owner p, g.unused, g.grows, g.loose.1, a.more p, args, other_args p);
    }
