-- ===== src/EventLoop/Dispatch/AddRead.antt =====
-- cl_thread_add_read of framework/zebra_epoll/cl_thread.c.
use algorithm.Common.{
  ℕ, ◌≡◌, ◌≢◌, inl, inr, Bool, true, Option, none, some, ◌∷◌, arith, ltb, if◌then◌else◌, ◌==◌,
  Bool-cases, sym, if_true, if_false, ap, ◌∙◌,
}
use algorithm.EventLoop.{
  Socket, Master, add_read, get, set_u, search_or_insert, set_socket, set_thread, epoll_ctl,
  add_or_mod, list_add_tail, thread_read, get_read,
}
use algorithm.EventLoop.Dispatch.Filed.{
  IsFiled, Got, get-Got, got, list_add_tail-IsFiled, set_thread-IsLoose,
}
use algorithm.EventLoop.Dispatch.Tree.{
  search_or_insert-IsConsistent, search_or_insert-in_tree, search_or_insert-get_read,
  get_read-socket,
}
use algorithm.EventLoop.Dispatch.Log.{
  registered, add_or_mod-IsOrderly, registered-add_or_mod, watches_in-add_or_mod,
  watches_out-add_or_mod,
}
use algorithm.EventLoop.Dispatch.Invariant.{IsLinked, IsWatched, IsTimed, IsConsistent}

module _ (func arg sock : ℕ) (persist : Bool) (m : Master) (c : IsConsistent m)
    (i : m.in_tree sock ≡ true) (free : (m.socket sock).t_read ≡ 0)
    (g : Got thread_read func arg m) where
  abbrev s : Socket
  s = m.socket sock

  abbrev got_m : Master
  got_m = got g.t thread_read func arg g.u g.next g.lists m

  abbrev read_set : Master
  read_set =
      set_socket sock (record s { t_read = g.t; read = true; added = true; read_persist = persist })
        (epoll_ctl (add_or_mod s.added sock true s.write) (set_u g.t sock got_m))

  read_set-IsFiled : IsFiled (list_add_tail g.t thread_read read_set)
  unfolding set_socket set_u epoll_ctl
  read_set-IsFiled =
      list_add_tail-IsFiled g.t thread_read read_set
        (set_thread-IsLoose g.t (record (got_m.thread g.t) { u = sock }) got_m g.loose)
        (ground arith)

  -- No socket names the thread that has just been taken.
  new_reader :
      (f : ℕ) → m.in_tree f ≡ true → ((m.socket f).t_read ≢ g.t) × ((m.socket f).t_write ≢ g.t)
  new_reader f j = (
    λ e. ground (arith, g.unused, g.loose.0, c.linked.reader f j),
    λ e. ground (arith, g.unused, g.loose.0, c.linked.writer f j),
  )

  read_set-IsLinked : IsLinked (list_add_tail g.t thread_read read_set)
  unfolding set_socket set_u epoll_ctl list_add_tail set_thread
  read_set-IsLinked = record {
    descriptor = λ f j. ground (arith, c.linked.descriptor f);
    read_bit = λ f j. ground (arith, c.linked.read_bit f, g.loose.0);
    write_bit = λ f j. ground (arith, c.linked.write_bit f);
    reader = λ f j p. ground (arith, c.linked.reader f j, new_reader f j, g.loose.1, g.grows);
    writer = λ f j p. ground (arith, c.linked.writer f j, new_reader f j, g.loose.1, g.grows);
    apart = λ f j p. ground (arith, c.linked.apart f j, new_reader f j);
    reads = λ t p l y. ground (arith, c.linked.reads t p, g.only t l);
    writes = λ t p l y. ground (arith, c.linked.writes t p, g.only t l);
    readies = λ t p l y. ground (arith, c.linked.readies t p, g.only t l, free);
  }

  read_set-IsWatched : IsWatched (list_add_tail g.t thread_read read_set)
  unfolding set_socket set_u epoll_ctl list_add_tail set_thread
  read_set-IsWatched = record {
    orderly = add_or_mod-IsOrderly s.added sock true s.write m.ctls told c.watched.orderly;
    added = λ f j. ground (arith, c.watched.added f, reg f);
    unknown = λ f j. ground (arith, c.watched.unknown f, reg f);
    input = λ f j p y. ground (
      arith,
      c.watched.input f j,
      c.linked.reader f j,
      new_reader f j,
      watches_in-add_or_mod s.added sock f true s.write m.ctls told,
    );
    output = λ f j p y. ground (
      arith,
      c.watched.output f j,
      c.linked.writer f j,
      c.linked.write_bit f j,
      new_reader f j,
      watches_out-add_or_mod s.added sock f true s.write m.ctls told,
    );
  }
    where
      told : s.added ≡ registered m.ctls sock
      told = c.watched.added sock i

      reg :
          (f : ℕ)
          → registered (add_or_mod s.added sock true s.write ∷ m.ctls) f
            ≡ (if sock == f then true else registered m.ctls f)
      reg f = registered-add_or_mod s.added sock f true s.write m.ctls told

  read_set-IsTimed : IsTimed (list_add_tail g.t thread_read read_set)
  unfolding set_socket set_u epoll_ctl list_add_tail set_thread
  read_set-IsTimed = record {
    valid = c.timed.valid;
    armed = λ t p l y. ground (arith, c.timed.armed t p, g.only t l);
    owner = λ p h y. ground (arith, c.timed.owner p h y, g.unused, g.grows);
  }

-- What adding a reader gives.
pub record ReaderAdded (func arg sock : ℕ) (persist : Bool) (m : Master) : Type 0 where
  pub r : ℕ × Master
  pub result : add_read func arg sock persist m ≡ some r
  pub consistent : IsConsistent r.1
  pub refused : (r.0 == 0) ≡ ltb 0 (get_read sock m)
  pub reader : get_read sock r.1 ≡ (if r.0 == 0 then get_read sock m else r.0)

-- With consistent data, adding a reader fails no assertion and keeps the data consistent. The
-- result is NULL exactly where the descriptor has a reader, who then stays; else it is the
-- thread that the descriptor now has as its reader.
pub add_read-ReaderAdded :
    (func arg sock : ℕ) (persist : Bool) (m : Master)
    → IsConsistent m
    → ReaderAdded func arg sock persist m
unfolding add_read
add_read-ReaderAdded func arg sock persist m c = elim (Bool-cases (m1.socket sock).read) [
  | inl e ↦ record {
    r = (0, m1);
    result = if_true (some (0, m1)) taken e;
    consistent = c1;
    refused = ground (arith, bit, known);
    reader = search_or_insert-get_read sock m;
  }
  | inr e ↦
      let free : (m1.socket sock).t_read ≡ 0 = ground (arith, bit) in
      let after = list_add_tail g.t thread_read (read_set func arg sock persist m1 c1 i1 free g) in
      record {
        r = (g.t, after);
        result =
            if_false (some (0, m1)) taken e
            ∙ if_true (finish r0) none (ground arith)
            ∙ ap finish g.result;
        consistent = record {
          started = omega (arith, c1.started, g.grows);
          filed = read_set-IsFiled func arg sock persist m1 c1 i1 free g;
          linked = read_set-IsLinked func arg sock persist m1 c1 i1 free g;
          watched = read_set-IsWatched func arg sock persist m1 c1 i1 free g;
          timed = read_set-IsTimed func arg sock persist m1 c1 i1 free g;
        };
        refused = ground (arith, bit, known, g.loose.0);
        reader = ground (arith, g.loose.0, get_read-socket sock after i1);
      }
]
  where
    m1 : Master
    m1 = search_or_insert sock m

    i1 : m1.in_tree sock ≡ true
    i1 = search_or_insert-in_tree sock m

    c1 : IsConsistent m1
    c1 = search_or_insert-IsConsistent sock m c

    g : Got thread_read func arg m1
    g = get-Got thread_read func arg m1 c1.filed c1.started

    r0 : ℕ × Master
    r0 = get thread_read func arg m1

    finish : ℕ × Master → Option (ℕ × Master)
    finish r = some (
      r.0,
      list_add_tail r.0 thread_read (
          set_socket sock
            (record (m1.socket sock) {
              t_read = r.0;
              read = true;
              added = true;
              read_persist = persist;
            })
            (epoll_ctl (add_or_mod (m1.socket sock).added sock true (m1.socket sock).write)
              (set_u r.0 sock r.1))),
    )

    taken : Option (ℕ × Master)
    taken = if (m1.socket sock).t_read == 0 then finish r0 else none

    bit : (m1.socket sock).read ≡ ltb 0 (m1.socket sock).t_read
    bit = c1.linked.read_bit sock i1

    known : (m1.socket sock).t_read ≡ get_read sock m
    known = sym (get_read-socket sock m1 i1) ∙ search_or_insert-get_read sock m
