-- ===== src/EventLoop/Dispatch/DropRead.antt =====
-- _cl_thread_cancel_read of framework/zebra_epoll/cl_thread.c, and the thread put away.
use algorithm.Common.{ℕ, ◌<◌, ◌≡◌, true, false, arith, if◌then◌else◌, ◌==◌, ap, sym, ◌∷◌, ◌∙◌}
use algorithm.EventLoop.{
  Socket, Master, retire, set_type, set_socket, set_thread, list_del, list_add, epoll_ctl,
}
use algorithm.EventLoop.Unregister.{drop_read}
use algorithm.EventLoop.Dispatch.Filed.{IsFiled, but, list_del-IsLoose, retire-IsFiled}
use algorithm.EventLoop.Dispatch.Release.{retire-IsTimed}
use algorithm.EventLoop.Dispatch.Log.{
  told, registered, told-IsOrderly, registered-told, watches_in-told, watches_out-told,
}
use algorithm.EventLoop.Dispatch.Invariant.{IsLinked, IsWatched, IsConsistent}

module _ (fd : ℕ) (m : Master) (c : IsConsistent m) (i : m.in_tree fd ≡ true)
    (pos : 0 < (m.socket fd).t_read) where
  abbrev s : Socket
  s = m.socket fd

  abbrev dropped : Master
  dropped = epoll_ctl (told s.write s.added s.fd false true) (
      set_socket fd (record s { t_read = 0; read = false; read_persist = false; added = s.write })
        m)

  abbrev pub reader_gone : Master
  reader_gone = retire s.t_read (drop_read fd m)

  reader_gone-IsFiled : IsFiled reader_gone
  unfolding drop_read
  reader_gone-IsFiled =
      retire-IsFiled s.t_read (drop_read fd m) (
        list_del-IsLoose s.t_read dropped pos (c.linked.reader fd i pos).0 (but s.t_read m c.filed))

  reader_gone-IsLinked : IsLinked reader_gone
  unfolding retire drop_read set_type set_thread list_add list_del set_socket epoll_ctl
  reader_gone-IsLinked = record {
    descriptor = λ f j. ground (arith, c.linked.descriptor f);
    read_bit = λ f j. ground (arith, c.linked.read_bit f);
    write_bit = λ f j. ground (arith, c.linked.write_bit f);
    reader = λ f j p. ground (arith, c.linked.reader f j, c.linked.reader fd i pos);
    writer =
        λ f j p. ground (arith, c.linked.writer f j, c.linked.reader fd i pos, c.linked.apart fd i);
    apart = λ f j p. ground (arith, c.linked.apart f j);
    reads = λ t p l y. ground (arith, c.linked.reads t p l);
    writes = λ t p l y. ground (arith, c.linked.writes t p l);
    readies = λ t p l y. ground (arith, c.linked.readies t p l);
  }

  reader_gone-IsWatched : IsWatched reader_gone
  unfolding retire drop_read set_type set_thread list_add list_del set_socket epoll_ctl
  reader_gone-IsWatched = record {
    orderly = told-IsOrderly s.write s.added s.fd false true m.ctls known c.watched.orderly;
    added = λ f j. ground (arith, c.watched.added f, same, reg f);
    unknown = λ f j. ground (arith, c.watched.unknown f, same, reg f);
    input = λ f j p y. ground (
      arith,
      c.watched.input f j,
      same,
      watches_in-told s.write s.added s.fd false true m.ctls f known,
    );
    output = λ f j p y. ground (
      arith,
      c.watched.output f j,
      c.linked.write_bit f j,
      same,
      watches_out-told s.write s.added s.fd false true m.ctls f known,
    );
  }
    where
      same : s.fd ≡ fd
      same = c.linked.descriptor fd i

      known : s.added ≡ registered m.ctls s.fd
      known = c.watched.added fd i ∙ ap (registered m.ctls) (sym same)

      reg :
          (f : ℕ)
          → registered (told s.write s.added s.fd false true ∷ m.ctls) f
            ≡ (if s.fd == f then s.write else registered m.ctls f)
      reg f = registered-told s.write s.added s.fd false true m.ctls f known

  pub reader_gone-IsConsistent : IsConsistent reader_gone
  unfolding retire drop_read set_type set_thread list_add list_del set_socket epoll_ctl
  reader_gone-IsConsistent = record {
    started = c.started;
    filed = reader_gone-IsFiled;
    linked = reader_gone-IsLinked;
    watched = reader_gone-IsWatched;
    timed =
        retire-IsTimed s.t_read (drop_read fd m)
          (record { valid = c.timed.valid; armed = c.timed.armed; owner = c.timed.owner })
          (ground (arith, c.linked.reader fd i pos));
  }
