-- ===== src/EventLoop/Dispatch/Event.antt =====
-- The parts of cl_thread_do_event of framework/zebra_epoll/cl_thread.c: a thread is made ready, and
-- epoll is told what is left to watch.
use algorithm.Common.{
  ℕ, ◌<◌, ◌≡◌, ◌≢◌, ◌⊎◌, inl, inr, Bool, true, false, ◌∷◌, arith, if◌then◌else◌, ◌==◌, ◌&&◌, ◌||◌,
  not, Bool-cases, ◌∙◌, ap, refl, sym, subst, if_true, if_false,
}
use algorithm.EventLoop.{
  Socket, Master, set_thread, set_type, set_socket, epoll_ctl, list_del, list_add, thread_timer,
  thread_ready,
}
use algorithm.EventLoop.Dispatch.{make_ready, rearm}
use algorithm.EventLoop.Dispatch.Filed.{
  IsFiled, but, list_del-IsLoose, set_thread-IsFiledBut, list_add-IsFiled,
}
use algorithm.EventLoop.Dispatch.Log.{
  told, registered, told-IsOrderly, registered-told, watches_in-told, watches_out-told,
}
use algorithm.EventLoop.Dispatch.Invariant.{IsWatched, IsConsistent}

module _ (fd t : ℕ) (m : Master) (c : IsConsistent m) (i : m.in_tree fd ≡ true) (pos : 0 < t)
    (owns : ((m.socket fd).t_read ≡ t) ⊎ ((m.socket fd).t_write ≡ t)) where
  of_socket : (t < m.next) × ((m.thread t).u ≡ fd) × ((m.thread t).type ≢ thread_timer)
  of_socket = ground (arith, c.linked.reader fd i, c.linked.writer fd i)

  abbrev made : Master
  made = list_add t thread_ready (list_del t (set_type t thread_ready m))

  made-IsFiled : IsFiled made
  unfolding set_type set_thread list_del
  made-IsFiled =
      list_add-IsFiled t thread_ready (list_del t (set_type t thread_ready m))
        (list_del-IsLoose t (set_type t thread_ready m) pos of_socket.0 (
          set_thread-IsFiledBut t (record (m.thread t) { type = thread_ready }) m
            (but t m c.filed)))
        (ground arith)

  made-IsConsistent : IsConsistent made
  unfolding set_type set_thread list_del list_add
  made-IsConsistent = record {
    started = c.started;
    filed = made-IsFiled;
    linked = record {
      descriptor = c.linked.descriptor;
      read_bit = c.linked.read_bit;
      write_bit = c.linked.write_bit;
      reader = λ f j p. ground (arith, c.linked.reader f j p);
      writer = λ f j p. ground (arith, c.linked.writer f j p);
      apart = c.linked.apart;
      reads = λ x p l y. ground (arith, c.linked.reads x p l);
      writes = λ x p l y. ground (arith, c.linked.writes x p l);
      readies = λ x p l y. ground (arith, c.linked.readies x p l, of_socket);
    };
    watched = record {
      orderly = c.watched.orderly;
      added = c.watched.added;
      unknown = c.watched.unknown;
      input = λ f j p y. ground (arith, c.watched.input f j p);
      output = λ f j p y. ground (arith, c.watched.output f j p);
    };
    timed = record {
      valid = c.timed.valid;
      armed = λ x p l y. ground (arith, c.timed.armed x p);
      owner = λ p q y. ground (arith, c.timed.owner p q, of_socket);
    };
  }

-- What a thread that is made ready, where `b` says so, leaves as it was.
pub record Readied (b : Bool) (t : ℕ) (m m1 : Master) : Type 0 where
  pub consistent : IsConsistent m1
  pub in_tree : m1.in_tree ≡ m.in_tree
  pub socket : m1.socket ≡ m.socket
  pub next : m1.next ≡ m.next
  pub type :
      (x : ℕ) → (m1.thread x).type ≡ (if b && (x == t) then thread_ready else (m.thread x).type)

pub make_ready-Readied :
    (b : Bool) (fd t : ℕ) (m : Master)
    → IsConsistent m
    → m.in_tree fd ≡ true
    → (b ≡ true → 0 < t)
    → ((m.socket fd).t_read ≡ t) ⊎ ((m.socket fd).t_write ≡ t)
    → Readied b t m (if b then make_ready t m else m)
unfolding make_ready set_type set_thread list_del list_add
make_ready-Readied false fd t m c i pos owns = record {
  consistent = c;
  in_tree = refl;
  socket = refl;
  next = refl;
  type = λ x. refl;
}
make_ready-Readied true fd t m c i pos owns =
    elim (Bool-cases ((m.thread t).type == thread_ready)) [
      | inl e ↦
          subst (Readied true t m) (sym (if_true m (made fd t m c i (pos refl) owns) e)) (record {
            consistent = c;
            in_tree = refl;
            socket = refl;
            next = refl;
            type = λ x. ground arith;
          })
      | inr e ↦
          subst (Readied true t m) (sym (if_false m (made fd t m c i (pos refl) owns) e)) (record {
            consistent = made-IsConsistent fd t m c i (pos refl) owns;
            in_tree = refl;
            socket = refl;
            next = refl;
            type = λ x. ground arith;
          })
    ]

-- What telling epoll leaves as it was.
abbrev pub IsSilent : Master → Master → Type 0
IsSilent m m1 =
    (m1.in_tree ≡ m.in_tree)
    × (m1.next ≡ m.next)
    × (m1.thread ≡ m.thread)
    × ((f : ℕ)
        → ((m1.socket f).t_read ≡ (m.socket f).t_read)
          × ((m1.socket f).t_write ≡ (m.socket f).t_write))

pub rearm-IsSilent : (fd : ℕ) (a b : Bool) (m : Master) → IsSilent m (rearm fd a b m)
unfolding rearm epoll_ctl set_socket
rearm-IsSilent fd a b m =
    elim (Bool-cases (((m.socket fd).read && not a) || ((m.socket fd).write && not b))) [
      | inl e ↦ rw e (refl, refl, refl, λ f. ground arith)
      | inr e ↦ rw e (refl, refl, refl, λ f. ground arith)
    ]

module _ (fd : ℕ) (ctl_read ctl_write : Bool) (m : Master) (c : IsConsistent m)
    (k : m.in_tree fd ≡ true) where
  abbrev s : Socket
  s = m.socket fd

  abbrev i : Bool
  i = s.read && not ctl_read

  abbrev o : Bool
  o = s.write && not ctl_write

  abbrev after : Master
  after = epoll_ctl (told (i || o) s.added s.fd i o) (set_socket fd (record s { added = i || o }) m)

  rearm_lem : rearm fd ctl_read ctl_write m ≡ after
  unfolding rearm
  rearm_lem = elim (Bool-cases (i || o)) [ inl e ↦ rw e refl | inr e ↦ rw e refl ]

  module _
      (given_read : ctl_read ≡ true
        → ((m.thread s.t_read).type ≡ thread_ready) × (s.read_persist ≡ false))
      (given_write : ctl_write ≡ true
        → ((m.thread s.t_write).type ≡ thread_ready) × (s.write_persist ≡ false)) where
    after-IsWatched : IsWatched after
    unfolding epoll_ctl set_socket
    after-IsWatched = record {
      orderly = told-IsOrderly (i || o) s.added s.fd i o m.ctls known c.watched.orderly;
      added = λ f j. ground (arith, c.watched.added f, same, reg f);
      unknown = λ f j. ground (arith, c.watched.unknown f, same, reg f);
      input = λ f j p y. ground (
        arith,
        c.watched.input f j,
        c.linked.read_bit f j,
        same,
        watches_in-told (i || o) s.added s.fd i o m.ctls f known,
        given_read,
      );
      output = λ f j p y. ground (
        arith,
        c.watched.output f j,
        c.linked.write_bit f j,
        same,
        watches_out-told (i || o) s.added s.fd i o m.ctls f known,
        given_write,
      );
    }
      where
        same : s.fd ≡ fd
        same = c.linked.descriptor fd k

        known : s.added ≡ registered m.ctls s.fd
        known = c.watched.added fd k ∙ ap (registered m.ctls) (sym same)

        reg :
            (f : ℕ)
            → registered (told (i || o) s.added s.fd i o ∷ m.ctls) f
              ≡ (if s.fd == f then i || o else registered m.ctls f)
        reg f = registered-told (i || o) s.added s.fd i o m.ctls f known

    pub rearm-IsConsistent : IsConsistent (rearm fd ctl_read ctl_write m)
    unfolding epoll_ctl set_socket
    rearm-IsConsistent = subst IsConsistent (sym rearm_lem) (record {
      started = c.started;
      filed = λ x q. ground (arith, c.filed x q);
      linked = record {
        descriptor = λ f j. ground (arith, c.linked.descriptor f);
        read_bit = λ f j. ground (arith, c.linked.read_bit f);
        write_bit = λ f j. ground (arith, c.linked.write_bit f);
        reader = λ f j p. ground (arith, c.linked.reader f j);
        writer = λ f j p. ground (arith, c.linked.writer f j);
        apart = λ f j p. ground (arith, c.linked.apart f j);
        reads = λ x p l y. ground (arith, c.linked.reads x p l y);
        writes = λ x p l y. ground (arith, c.linked.writes x p l y);
        readies = λ x p l y. ground (arith, c.linked.readies x p l y);
      };
      watched = after-IsWatched;
      timed = record { valid = c.timed.valid; armed = c.timed.armed; owner = c.timed.owner };
    })
