-- ===== src/EventLoop/Dispatch/Cancel.antt =====
-- cl_thread_cancel of framework/zebra_epoll/cl_thread.c.
use algorithm.Common.{
  ℕ, ◌<◌, ◌≡◌, ◌≢◌, inl, inr, Bool, true, none, some, arith, ltb, if◌then◌else◌, ◌==◌, ◌&&◌,
  Bool-cases, refl, subst,
}
use algorithm.MinHeap.{TimeHeap}
use algorithm.MinHeap.Invariant.{IsValid, holds}
use algorithm.EventLoop.{
  Thread, Master, retire, set_u, set_thread, set_type, list_del, list_add, socket_lookup,
  thread_unused, thread_read, thread_write, thread_timer, thread_event, thread_ready,
}
use algorithm.EventLoop.Unregister.{
  cancel, cancel_read, cancel_write, cancel_timer, drop_read, drop_write, del_timer,
}
use algorithm.EventLoop.Dispatch.Invariant.{IsTimed, IsConsistent}
use algorithm.EventLoop.Dispatch.DropRead.{reader_gone-IsConsistent}
use algorithm.EventLoop.Dispatch.DropWrite.{writer_gone-IsConsistent}
use algorithm.EventLoop.Dispatch.Release.{released-IsConsistent}

-- The cancelled node stays where it is, without its thread.
pub record Disarmed (node : ℕ) (h : TimeHeap) (h' : TimeHeap) : Type 0 where
  pub valid : IsValid h'
  pub same : (p : ℕ) → holds h' p ≡ holds h p
  pub args : (p : ℕ) → (h'.mem.node p).args ≡ (if p == node then 0 else (h.mem.node p).args)

pub del_timer-Disarmed :
    (node : ℕ) {h : TimeHeap} → IsValid h → 0 < node → Disarmed node h (del_timer node h)
unfolding del_timer
del_timer-Disarmed node {h} v pos = elim (Bool-cases (node == 0)) [
  | inl e ↦ absurd (ground arith)
  | inr e ↦ rw e (record {
    valid = record {
      size = v.size;
      room = v.room;
      positive = v.positive;
      ordered = λ c q r. ground (arith, v.ordered c q r);
      unique = v.unique;
      alive = v.alive;
      null = v.null;
      started = v.started;
      fresh = v.fresh;
    };
    same = λ p. refl;
    args = λ p. ground arith;
  })
]

-- The types of a thread that waits for something.
abbrev pub waits : ℕ → Bool
waits type = ltb thread_unused type && ltb type thread_ready

-- What cancelling the thread `t` gives; `result` is the whole behaviour.
pub record Cancelled (t : ℕ) (m : Master) : Type 0 where
  pub r : Master
  pub result : cancel t m ≡ (if waits (m.thread t).type then some r else none)
  pub consistent : waits (m.thread t).type ≡ true → IsConsistent r
  pub unused : waits (m.thread t).type ≡ true → (r.thread t).type ≡ thread_unused
  pub others : (x : ℕ) → x ≢ t → r.thread x ≡ m.thread x

module _ (t : ℕ) (m : Master) (c : IsConsistent m) (pos : 0 < t) (lt : t < m.next) where
  cancel_read-Cancelled : (m.thread t).type ≡ thread_read → Cancelled t m
  unfolding cancel cancel_read socket_lookup retire set_type set_thread list_add drop_read
  cancel_read-Cancelled e = record {
    r = retire t (drop_read fd m);
    result = ground (arith, l);
    consistent = λ w.
        subst (λ x. IsConsistent (retire x (drop_read fd m))) l.1
          (reader_gone-IsConsistent fd m c l.0 (ground (arith, l)));
    unused = λ w. ground arith;
    others = λ x ne. ground arith;
  }
    where
      fd : ℕ
      fd = (m.thread t).u

      l : (m.in_tree fd ≡ true) × ((m.socket fd).t_read ≡ t)
      l = c.linked.reads t pos lt e

  cancel_write-Cancelled : (m.thread t).type ≡ thread_write → Cancelled t m
  unfolding cancel cancel_write socket_lookup retire set_type set_thread list_add drop_write
  cancel_write-Cancelled e = record {
    r = retire t (drop_write fd m);
    result = ground (arith, l);
    consistent = λ w.
        subst (λ x. IsConsistent (retire x (drop_write fd m))) l.1
          (writer_gone-IsConsistent fd m c l.0 (ground (arith, l)));
    unused = λ w. ground arith;
    others = λ x ne. ground arith;
  }
    where
      fd : ℕ
      fd = (m.thread t).u

      l : (m.in_tree fd ≡ true) × ((m.socket fd).t_write ≡ t)
      l = c.linked.writes t pos lt e

  cancel_timer-Cancelled : (m.thread t).type ≡ thread_timer → Cancelled t m
  unfolding cancel cancel_timer retire set_type set_thread list_add list_del set_u
  cancel_timer-Cancelled e = record {
    r = retire t (cancel_timer t m);
    result = ground arith;
    consistent = λ w.
        released-IsConsistent t m c pos lt (λ x. omega arith) (λ x. omega arith) (λ x. omega arith)
          disarmed_thread (λ x ne. ground arith) heap timed;
    unused = λ w. ground arith;
    others = λ x ne. ground arith;
  }
    where
      node : ℕ
      node = (m.thread t).u

      heap : TimeHeap
      heap = del_timer node m.heap

      disarmed_thread : ℕ → Thread
      disarmed_thread x = if x == t then record (m.thread t) { u = 0 } else m.thread x

      started : 0 < node
      started =
          ground (arith, c.timed.valid.alive node, c.timed.valid.null, c.timed.armed t pos lt e)

      d : Disarmed node m.heap heap
      d = del_timer-Disarmed node c.timed.valid started

      timed : IsTimed (retire t (list_del t (record m { thread = disarmed_thread; heap = heap })))
      timed = record {
        valid = d.valid;
        armed = λ x p l y. ground (
          arith,
          c.timed.armed x p,
          c.timed.armed t pos lt e,
          d.same (m.thread x).u,
          d.args (m.thread x).u,
        );
        owner = λ p q y. ground (arith, c.timed.owner p, d.same p, d.args p);
      }

  cancel_event-Cancelled : (m.thread t).type ≡ thread_event → Cancelled t m
  unfolding cancel retire set_type set_thread list_add list_del
  cancel_event-Cancelled e = record {
    r = retire t (list_del t m);
    result = ground arith;
    consistent = λ w.
        released-IsConsistent t m c pos lt (λ x. omega arith) (λ x. omega arith) (λ x. omega arith)
          m.thread (λ x ne. refl) m.heap
          (record {
            valid = c.timed.valid;
            armed = λ x p l y. ground (arith, c.timed.armed x p);
            owner = λ p q y. ground (arith, c.timed.owner p);
          });
    unused = λ w. ground arith;
    others = λ x ne. ground arith;
  }

  -- Cancelling stores through NULL exactly where the thread is unused or ready, which it ought to
  -- do for the unused alone. A thread that waits, of whatever type, is cancelled without a failed
  -- assertion: it becomes unused, no other thread changes, and the data stay consistent.
  pub cancel-Cancelled : Cancelled t m
  unfolding cancel
  cancel-Cancelled = elim (Bool-cases (waits (m.thread t).type)) [
    | inr e ↦ record {
      r = m;
      result = ground arith;
      consistent = λ w. absurd (ground arith);
      unused = λ w. absurd (ground arith);
      others = λ x ne. refl;
    }
    | inl e ↦ elim (Bool-cases ((m.thread t).type == thread_read)) [
      | inl a ↦ cancel_read-Cancelled (ground arith)
      | inr a ↦ elim (Bool-cases ((m.thread t).type == thread_write)) [
        | inl b ↦ cancel_write-Cancelled (ground arith)
        | inr b ↦ elim (Bool-cases ((m.thread t).type == thread_timer)) [
          | inl d ↦ cancel_timer-Cancelled (ground arith)
          | inr d ↦ cancel_event-Cancelled (ground arith)
        ]
      ]
    ]
  ]
