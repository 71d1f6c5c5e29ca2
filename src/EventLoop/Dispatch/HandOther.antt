-- ===== src/EventLoop/Dispatch/HandOther.antt =====
-- cl_thread_run of framework/zebra_epoll/cl_thread.c on an event and on a timer.
use algorithm.Common.{ℕ, ◌<◌, ◌≡◌, ◌≢◌, false, arith, ◌==◌, ap, refl, if_false, to_u32}
use algorithm.MinHeap.{Node}
use algorithm.EventLoop.{
  Master, set_thread, set_type, list_del, list_add, retire, thread_event, thread_ready,
}
use algorithm.EventLoop.Dispatch.{run, heap_tick}
use algorithm.EventLoop.Dispatch.Invariant.{IsConsistent}
use algorithm.EventLoop.Dispatch.HeapTick.{args, Due}
use algorithm.EventLoop.Dispatch.Release.{released-IsConsistent}
use algorithm.EventLoop.Dispatch.Choice.{IsTimer}

pub run_other :
    (t : ℕ) (m : Master)
    → (m.thread t).type ≢ thread_ready
    → run t (list_del t m) ≡ (m.thread t, retire t (list_del t m))
unfolding run list_del
run_other t m other =
    let is_other : ((m.thread t).type == thread_ready) ≡ false = ground (arith, other) in
    ap (λ x. (m.thread t, x)) (if_false _ (retire t (list_del t m)) is_other)

module _ (t : ℕ) (m : Master) (c : IsConsistent m) (pos : 0 < t) (lt : t < m.next) where
  -- An event is handed out and unused from then on.
  pub run_event :
      (m.thread t).type ≡ thread_event
      → (run t (list_del t m) ≡ (m.thread t, retire t (list_del t m)))
        × IsConsistent (retire t (list_del t m))
        × ((retire t (list_del t m)).in_tree ≡ m.in_tree)
  unfolding run retire set_type set_thread list_del list_add
  run_event e = (
    run_other t m (λ x. omega arith),
    released-IsConsistent t m c pos lt (λ x. omega arith) (λ x. omega arith) (λ x. omega arith)
        m.thread (λ x ne. refl) m.heap
        (record {
          valid = c.timed.valid;
          armed = λ x p l y. ground (arith, c.timed.armed x p);
          owner = λ p q y. ground (arith, c.timed.owner p);
        }),
    refl,
  )

module _ (now : ℕ) (m : Master) (c : IsConsistent m)
    (d : Due (to_u32 now) m.heap (heap_tick now m.heap)) where
  abbrev pub ticked : Master
  ticked = record m { heap = d.rest }

  same_args : (p : ℕ) → args d.rest p ≡ args m.heap p
  same_args p = ap (λ (v : Node). v.args) (d.nodes p)

  pub ticked-IsConsistent : d.t ≡ 0 → IsConsistent ticked
  ticked-IsConsistent e = record {
    started = c.started;
    filed = c.filed;
    linked = record {
      descriptor = c.linked.descriptor;
      read_bit = c.linked.read_bit;
      write_bit = c.linked.write_bit;
      reader = c.linked.reader;
      writer = c.linked.writer;
      apart = c.linked.apart;
      reads = c.linked.reads;
      writes = c.linked.writes;
      readies = c.linked.readies;
    };
    watched = record {
      orderly = c.watched.orderly;
      added = c.watched.added;
      unknown = c.watched.unknown;
      input = c.watched.input;
      output = c.watched.output;
    };
    timed = record {
      valid = d.valid;
      armed = λ x p l y.
          ground (arith, c.timed.armed x p l y, d.kept (m.thread x).u, same_args (m.thread x).u);
      owner = λ p h y. ground (arith, c.timed.owner p, d.fewer p, same_args p);
    };
  }

  -- The thread of the node that the tick has taken out.
  module _ (pos : 0 < d.t) where
    pub found : IsTimer m d.t × ((m.thread d.t).u ≡ d.p)
    found = ground (arith, d.node pos, c.timed.owner d.p)

    pub run_timer :
        (run d.t (list_del d.t ticked) ≡ (m.thread d.t, retire d.t (list_del d.t ticked)))
        × IsConsistent (retire d.t (list_del d.t ticked))
        × ((retire d.t (list_del d.t ticked)).in_tree ≡ m.in_tree)
    unfolding run retire set_type set_thread list_del list_add
    run_timer = (
      run_other d.t ticked (λ x. ground (arith, found)),
      released-IsConsistent d.t m c pos found.0.1 (λ x. ground (arith, found))
          (λ x. ground (arith, found)) (λ x. ground (arith, found)) m.thread (λ x ne. refl) d.rest
          (record {
            valid = d.valid;
            armed = λ x p l y. ground (
              arith,
              c.timed.armed x p,
              d.kept (m.thread x).u,
              same_args (m.thread x).u,
              d.node pos,
            );
            owner =
                λ p q y. ground (arith, c.timed.owner p, d.fewer p, same_args p, d.node pos, found);
          }),
      refl,
    )
