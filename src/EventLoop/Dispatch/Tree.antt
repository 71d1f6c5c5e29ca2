-- ===== src/EventLoop/Dispatch/Tree.antt =====
-- The search or insertion in the tree of the sockets of framework/zebra_epoll/cl_thread.c.
use algorithm.Common.{ℕ, ◌≡◌, inl, inr, true, arith, Bool-cases, subst, sym, if_true, if_false}
use algorithm.EventLoop.{
  Master, search_or_insert, socket_calloc, set_socket, get_read, get_write, socket_lookup,
}
use algorithm.EventLoop.Dispatch.Invariant.{IsConsistent}

-- The socket is in the tree now, and nothing else has changed.
pub search_or_insert-IsConsistent :
    (fd : ℕ) (m : Master) → IsConsistent m → IsConsistent (search_or_insert fd m)
unfolding search_or_insert socket_calloc set_socket
search_or_insert-IsConsistent fd m c = elim (Bool-cases (m.in_tree fd)) [
  | inl e ↦ subst IsConsistent (sym (if_true m _ e)) c
  | inr e ↦ subst IsConsistent (sym (if_false m _ e)) (record {
    started = c.started;
    filed = λ t q. ground (arith, c.filed t q);
    linked = record {
      descriptor = λ f i. ground (arith, c.linked.descriptor f);
      read_bit = λ f i. ground (arith, c.linked.read_bit f);
      write_bit = λ f i. ground (arith, c.linked.write_bit f);
      reader = λ f i. ground (arith, c.linked.reader f);
      writer = λ f i. ground (arith, c.linked.writer f);
      apart = λ f i. ground (arith, c.linked.apart f);
      reads = λ t p l y. ground (arith, c.linked.reads t p l y);
      writes = λ t p l y. ground (arith, c.linked.writes t p l y);
      readies = λ t p l y. ground (arith, c.linked.readies t p l y);
    };
    watched = record {
      orderly = c.watched.orderly;
      added = λ f i. ground (arith, c.watched.added f, c.watched.unknown f);
      unknown = λ f i. ground (arith, c.watched.unknown f);
      input = λ f i. ground (arith, c.watched.input f);
      output = λ f i. ground (arith, c.watched.output f);
    };
    timed = record { valid = c.timed.valid; armed = c.timed.armed; owner = c.timed.owner };
  })
]

pub search_or_insert-in_tree : (fd : ℕ) (m : Master) → (search_or_insert fd m).in_tree fd ≡ true
unfolding search_or_insert socket_calloc set_socket
search_or_insert-in_tree fd m = elim (Bool-cases (m.in_tree fd)) [
  | inl e ↦ ground arith
  | inr e ↦ ground arith
]

-- A descriptor that is new to the tree has no thread, as before.
pub search_or_insert-get_read :
    (fd : ℕ) (m : Master) → get_read fd (search_or_insert fd m) ≡ get_read fd m
unfolding search_or_insert socket_calloc set_socket get_read socket_lookup
search_or_insert-get_read fd m = elim (Bool-cases (m.in_tree fd)) [
  | inl e ↦ ground arith
  | inr e ↦ ground arith
]

pub search_or_insert-get_write :
    (fd : ℕ) (m : Master) → get_write fd (search_or_insert fd m) ≡ get_write fd m
unfolding search_or_insert socket_calloc set_socket get_write socket_lookup
search_or_insert-get_write fd m = elim (Bool-cases (m.in_tree fd)) [
  | inl e ↦ ground arith
  | inr e ↦ ground arith
]

pub get_read-socket :
    (fd : ℕ) (m : Master) → m.in_tree fd ≡ true → get_read fd m ≡ (m.socket fd).t_read
unfolding get_read socket_lookup
get_read-socket fd m i = ground arith

pub get_write-socket :
    (fd : ℕ) (m : Master) → m.in_tree fd ≡ true → get_write fd m ≡ (m.socket fd).t_write
unfolding get_write socket_lookup
get_write-socket fd m i = ground arith
