-- ===== src/EventLoop/Dispatch/Run.antt =====
-- cl_thread_socket_set of framework/zebra_epoll/cl_thread.c: a ready thread that goes back to its list,
-- and one that leaves its descriptor.
use algorithm.Common.{ℕ, ◌<◌, ◌≡◌, ◌≢◌, ◌⊎◌, true, false, arith}
use algorithm.EventLoop.{
  Socket, Master, set_thread, set_type, set_socket, list_del, list_add, retire, thread_read,
  thread_write, thread_ready,
}
use algorithm.EventLoop.Dispatch.Filed.{
  IsLoose, but, list_del-IsLoose, set_thread-IsLoose, list_add-IsFiled, retire-IsFiled,
}
use algorithm.EventLoop.Dispatch.Invariant.{IsTimed, IsConsistent}

module _ (t : ℕ) (m : Master) (c : IsConsistent m) (pos : 0 < t) (lt : t < m.next)
    (ready : (m.thread t).type ≡ thread_ready) where
  abbrev fd : ℕ
  fd = (m.thread t).u

  abbrev s : Socket
  s = m.socket fd

  known : (m.in_tree fd ≡ true) × ((s.t_read ≡ t) ⊎ (s.t_write ≡ t))
  known = c.linked.readies t pos lt ready

  abbrev free : Master
  free = list_del t m

  free-IsLoose : IsLoose t free
  free-IsLoose = list_del-IsLoose t m pos lt (but t m c.filed)

  free-IsTimed : IsTimed free
  unfolding list_del
  free-IsTimed = record { valid = c.timed.valid; armed = c.timed.armed; owner = c.timed.owner }

  -- Back to a list of its descriptor, as a thread of the type `q`.
  module _ (q : ℕ)
      (persists : ((q ≡ thread_read) × (s.t_read ≡ t) × (s.read_persist ≡ true))
        ⊎ ((q ≡ thread_write) × (s.t_write ≡ t) × (s.write_persist ≡ true) × (s.t_read ≢ t))) where
    abbrev pub back : Master
    back = list_add t q (set_type t q free)

    pub back-IsConsistent : IsConsistent back
    unfolding set_type set_thread list_del list_add
    back-IsConsistent = record {
      started = c.started;
      filed =
          list_add-IsFiled t q (set_type t q free)
            (set_thread-IsLoose t (record (m.thread t) { type = q }) free free-IsLoose)
            (ground arith);
      linked = record {
        descriptor = c.linked.descriptor;
        read_bit = c.linked.read_bit;
        write_bit = c.linked.write_bit;
        reader = λ f j p. ground (arith, c.linked.reader f j p, c.linked.apart fd known.0);
        writer = λ f j p. ground (arith, c.linked.writer f j p, c.linked.apart fd known.0);
        apart = c.linked.apart;
        reads = λ x p l y. ground (arith, c.linked.reads x p l, known.0);
        writes = λ x p l y. ground (arith, c.linked.writes x p l, known.0);
        readies = λ x p l y. ground (arith, c.linked.readies x p l);
      };
      watched = record {
        orderly = c.watched.orderly;
        added = c.watched.added;
        unknown = c.watched.unknown;
        input = λ f j p y. ground (arith, c.watched.input f j p, c.linked.reader f j p);
        output = λ f j p y. ground (arith, c.watched.output f j p, c.linked.writer f j p);
      };
      timed = record {
        valid = c.timed.valid;
        armed = λ x p l y. ground (arith, c.timed.armed x p l);
        owner = λ p h y. ground (arith, c.timed.owner p h y);
      };
    }

  -- Away from its descriptor, whose socket is `v` then.
  module _ (v : Socket)
      (forgets : ((s.t_read ≡ t) × (v ≡ record s { read = false; t_read = 0 }))
        ⊎ ((s.t_write ≡ t) × (s.t_read ≢ t) × (v ≡ record s { write = false; t_write = 0 }))) where
    abbrev pub away : Master
    away = retire t (set_socket fd v free)

    pub away-IsConsistent : IsConsistent away
    unfolding retire set_socket set_type set_thread list_del list_add
    away-IsConsistent = record {
      started = c.started;
      filed = retire-IsFiled t (set_socket fd v free) free-IsLoose;
      linked = record {
        descriptor = λ f j. ground (arith, c.linked.descriptor f);
        read_bit = λ f j. ground (arith, c.linked.read_bit f);
        write_bit = λ f j. ground (arith, c.linked.write_bit f);
        reader = λ f j p. ground (arith, c.linked.reader f j, c.linked.apart fd known.0);
        writer = λ f j p. ground (arith, c.linked.writer f j, c.linked.apart fd known.0);
        apart = λ f j p. ground (arith, c.linked.apart f j);
        reads = λ x p l y. ground (arith, c.linked.reads x p l);
        writes = λ x p l y. ground (arith, c.linked.writes x p l);
        readies = λ x p l y. ground (arith, c.linked.readies x p l);
      };
      watched = record {
        orderly = c.watched.orderly;
        added = λ f j. ground (arith, c.watched.added f);
        unknown = c.watched.unknown;
        input = λ f j p y. ground (arith, c.watched.input f j, c.linked.reader f j);
        output = λ f j p y. ground (arith, c.watched.output f j, c.linked.writer f j);
      };
      timed = record {
        valid = c.timed.valid;
        armed = λ x p l y. ground (arith, c.timed.armed x p l);
        owner = λ p h y. ground (arith, c.timed.owner p h y);
      };
    }
