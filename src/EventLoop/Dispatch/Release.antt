-- ===== src/EventLoop/Dispatch/Release.antt =====
-- A thread of framework/zebra_epoll/cl_thread.c that no descriptor names leaves its list and
-- becomes unused: an event or a timer that is cancelled or handed out.
use algorithm.Common.{ℕ, ◌<◌, ◌≡◌, ◌≢◌, arith}
use algorithm.MinHeap.{TimeHeap}
use algorithm.EventLoop.{
  Thread, Master, retire, set_type, set_thread, list_del, list_add, thread_read, thread_write,
  thread_timer, thread_ready,
}
use algorithm.EventLoop.Dispatch.Filed.{IsFiledBut, list_del-IsLoose, retire-IsFiled}
use algorithm.EventLoop.Dispatch.Invariant.{IsLinked, IsWatched, IsTimed, IsConsistent}

-- A thread that is no timer any more, where no node of the heap names it.
pub retire-IsTimed :
    (t : ℕ) (m : Master) → IsTimed m → (m.thread t).type ≢ thread_timer → IsTimed (retire t m)
unfolding retire set_type set_thread list_add
retire-IsTimed t m d other = record {
  valid = d.valid;
  armed = λ x p l y. ground (arith, d.armed x p);
  owner = λ p q y. ground (arith, d.owner p q);
}

module _ (t : ℕ) (m : Master) (c : IsConsistent m) (pos : 0 < t) (lt : t < m.next)
    (not_read : (m.thread t).type ≢ thread_read) (not_write : (m.thread t).type ≢ thread_write)
    (not_ready : (m.thread t).type ≢ thread_ready) (thread : ℕ → Thread)
    (same : (x : ℕ) → x ≢ t → thread x ≡ m.thread x) (heap : TimeHeap) where
  abbrev before : Master
  before = record m { thread = thread; heap = heap }

  abbrev pub released : Master
  released = retire t (list_del t before)

  before-IsFiledBut : IsFiledBut t before
  before-IsFiledBut x q ne = ground (arith, c.filed x q, same x ne)

  released-IsLinked : IsLinked released
  unfolding retire set_type set_thread list_add list_del
  released-IsLinked = record {
    descriptor = c.linked.descriptor;
    read_bit = c.linked.read_bit;
    write_bit = c.linked.write_bit;
    reader = λ f j p. ground (arith, c.linked.reader f j p, same (m.socket f).t_read);
    writer = λ f j p. ground (arith, c.linked.writer f j p, same (m.socket f).t_write);
    apart = c.linked.apart;
    reads = λ x p l y. ground (arith, c.linked.reads x p l, same x);
    writes = λ x p l y. ground (arith, c.linked.writes x p l, same x);
    readies = λ x p l y. ground (arith, c.linked.readies x p l, same x);
  }

  released-IsWatched : IsWatched released
  unfolding retire set_type set_thread list_add list_del
  released-IsWatched = record {
    orderly = c.watched.orderly;
    added = c.watched.added;
    unknown = c.watched.unknown;
    input = λ f j p y.
        ground (arith, c.watched.input f j p, same (m.socket f).t_read, c.linked.reader f j p);
    output = λ f j p y.
        ground (arith, c.watched.output f j p, same (m.socket f).t_write, c.linked.writer f j p);
  }

  pub released-IsConsistent : IsTimed released → IsConsistent released
  unfolding retire set_type set_thread list_add list_del
  released-IsConsistent d = record {
    started = c.started;
    filed =
        retire-IsFiled t (list_del t before) (list_del-IsLoose t before pos lt before-IsFiledBut);
    linked = released-IsLinked;
    watched = released-IsWatched;
    timed = d;
  }
