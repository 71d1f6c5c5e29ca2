-- ===== src/EventLoop/Dispatch/DropWrite.antt =====
-- _cl_thread_cancel_write of framework/zebra_epoll/cl_thread.c, and the thread put away.
use algorithm.Common.{ℕ, ◌<◌, ◌≡◌, true, false, arith, if◌then◌else◌, ◌==◌, ap, sym, ◌∷◌, ◌∙◌}
use algorithm.EventLoop.{
  Socket, Master, retire, set_type, set_socket, set_thread, list_del, list_add, epoll_ctl,
}
use algorithm.EventLoop.Unregister.{drop_write}
use algorithm.EventLoop.Dispatch.Filed.{IsFiled, but, list_del-IsLoose, retire-IsFiled}
use algorithm.EventLoop.Dispatch.Release.{retire-IsTimed}
use algorithm.EventLoop.Dispatch.Log.{
  told, registered, told-IsOrderly, registered-told, watches_out-told, watches_in-told,
}
use algorithm.EventLoop.Dispatch.Invariant.{IsLinked, IsWatched, IsConsistent}

module _ (fd : ℕ) (m : Master) (c : IsConsistent m) (i : m.in_tree fd ≡ true)
    (pos : 0 < (m.socket fd).t_write) where
  abbrev s : Socket
  s = m.socket fd

  abbrev dropped : Master
  dropped = epoll_ctl (told s.read s.added s.fd true false) (
      set_socket fd (record s { t_write = 0; write = false; write_persist = false; added = s.read })
        m)

  abbrev pub writer_gone : Master
  writer_gone = retire s.t_write (drop_write fd m)

  writer_gone-IsFiled : IsFiled writer_gone
  unfolding drop_write
  writer_gone-IsFiled = retire-IsFiled s.t_write (drop_write fd m) (
      list_del-IsLoose s.t_write dropped pos (c.linked.writer fd i pos).0 (but s.t_write m c.filed))

  writer_gone-IsLinked : IsLinked writer_gone
  unfolding retire drop_write set_type set_thread list_add list_del set_socket epoll_ctl
  writer_gone-IsLinked = record {
    descriptor = λ f j. ground (arith, c.linked.descriptor f);
    write_bit = λ f j. ground (arith, c.linked.write_bit f);
    read_bit = λ f j. ground (arith, c.linked.read_bit f);
    writer = λ f j p. ground (arith, c.linked.writer f j, c.linked.writer fd i pos);
    reader =
        λ f j p. ground (arith, c.linked.reader f j, c.linked.writer fd i pos, c.linked.apart fd i);
    apart = λ f j p. ground (arith, c.linked.apart f j);
    writes = λ t p l y. ground (arith, c.linked.writes t p l);
    reads = λ t p l y. ground (arith, c.linked.reads t p l);
    readies = λ t p l y. ground (arith, c.linked.readies t p l);
  }

  writer_gone-IsWatched : IsWatched writer_gone
  unfolding retire drop_write set_type set_thread list_add list_del set_socket epoll_ctl
  writer_gone-IsWatched = record {
    orderly = told-IsOrderly s.read s.added s.fd true false m.ctls known c.watched.orderly;
    added = λ f j. ground (arith, c.watched.added f, same, reg f);
    unknown = λ f j. ground (arith, c.watched.unknown f, same, reg f);
    output = λ f j p y. ground (
      arith,
      c.watched.output f j,
      same,
      watches_out-told s.read s.added s.fd true false m.ctls f known,
    );
    input = λ f j p y. ground (
      arith,
      c.watched.input f j,
      c.linked.read_bit f j,
      same,
      watches_in-told s.read s.added s.fd true false m.ctls f known,
    );
  }
    where
      same : s.fd ≡ fd
      same = c.linked.descriptor fd i

      known : s.added ≡ registered m.ctls s.fd
      known = c.watched.added fd i ∙ ap (registered m.ctls) (sym same)

      reg :
          (f : ℕ)
          → registered (told s.read s.added s.fd true false ∷ m.ctls) f
            ≡ (if s.fd == f then s.read else registered m.ctls f)
      reg f = registered-told s.read s.added s.fd true false m.ctls f known

  pub writer_gone-IsConsistent : IsConsistent writer_gone
  unfolding retire drop_write set_type set_thread list_add list_del set_socket epoll_ctl
  writer_gone-IsConsistent = record {
    started = c.started;
    filed = writer_gone-IsFiled;
    linked = writer_gone-IsLinked;
    watched = writer_gone-IsWatched;
    timed =
        retire-IsTimed s.t_write (drop_write fd m)
          (record { valid = c.timed.valid; armed = c.timed.armed; owner = c.timed.owner })
          (ground (arith, c.linked.writer fd i pos));
  }
