-- ===== src/EventLoop.antt =====
-- framework/zebra_epoll/cl_thread.h and cl_thread.c: the event loop over epoll. A pointer to a
-- thread is its address and NULL is 0. The calls of epoll_ctl are kept as a log, the last one
-- first, and a store through NULL, also the one of a failed cl_assert, is `none`. There is one
-- master, so the field of a thread that points to it is left out.
pub mod Unregister
pub mod Dispatch
use algorithm.Common.{
  ℕ, zero, suc, ◌+◌, Bool, true, false, ◌||◌, ◌&&◌, not, Option, none, some, List, [], ◌∷◌, ◌++◌,
  ltb, ◌==◌, if◌then◌else◌,
}
use algorithm.MinHeap.{TimeHeap, Memory, write_node, time_heap_add_timer, time_heap_init}

-- `CL_THREAD_UNUSED` and the other thread types
abbrev pub thread_unused : ℕ
thread_unused = 0

abbrev pub thread_read : ℕ
thread_read = 1

abbrev pub thread_write : ℕ
thread_write = 2

abbrev pub thread_timer : ℕ
thread_timer = 3

abbrev pub thread_event : ℕ
thread_event = 4

abbrev pub thread_ready : ℕ
thread_ready = 5

-- `cl_thread_s`: `u` is the union of `val`, `fd` and `timer`.
pub record Thread : Type 0 where
  pub type : ℕ
  pub func : ℕ
  pub arg : ℕ
  pub u : ℕ

-- `cl_thread_socket_t`: its `type` is a set of four bits, and `added` is `op == CL_EPOLL_ADDED`.
pub record Socket : Type 0 where
  pub fd : ℕ
  pub read : Bool
  pub write : Bool
  pub read_persist : Bool
  pub write_persist : Bool
  pub added : Bool
  pub t_read : ℕ
  pub t_write : ℕ

-- A call of epoll_ctl: the descriptor, then whether EPOLLIN and EPOLLOUT are asked for.
pub data Ctl : Type 0 where
  ctl_add ctl_mod : ℕ → Bool → Bool → Ctl
  ctl_del : ℕ → Ctl

-- `cl_thread_master_t`, with the memory of the threads. The tree of the sockets holds the
-- descriptors of `in_tree`, and `lists` gives the list of the threads of each type.
pub record Master : Type 0 where
  pub thread : ℕ → Thread
  pub next : ℕ
  pub socket : ℕ → Socket
  pub in_tree : ℕ → Bool
  pub lists : ℕ → List ℕ
  pub heap : TimeHeap
  pub ctls : List Ctl

abbrev pub remove : ℕ → List ℕ → List ℕ
remove t [] = []
remove t (x ∷ xs) = if x == t then remove t xs else x ∷ remove t xs

abbrev pub head : List ℕ → ℕ
head [] = 0
head (x ∷ xs) = x

-- `stlc_list_del`: a link is in one list at most, and leaves that list.
pub list_del : ℕ → Master → Master
list_del t m = record m { lists = λ q. remove t (m.lists q) }

pub list_add : ℕ → ℕ → Master → Master
list_add t q m = record m { lists = λ p. if p == q then t ∷ m.lists p else m.lists p }

pub list_add_tail : ℕ → ℕ → Master → Master
list_add_tail t q m = record m { lists = λ p. if p == q then m.lists p ++ t ∷ [] else m.lists p }

pub set_thread : ℕ → Thread → Master → Master
set_thread t v m = record m { thread = λ x. if x == t then v else m.thread x }

pub set_socket : ℕ → Socket → Master → Master
set_socket fd s m = record m { socket = λ x. if x == fd then s else m.socket x }

pub epoll_ctl : Ctl → Master → Master
epoll_ctl c m = record m { ctls = c ∷ m.ctls }

-- A store to the field `type` of a thread.
pub set_type : ℕ → ℕ → Master → Master
unfolding set_thread
set_type t q m = set_thread t (record (m.thread t) { type = q }) m

pub trim_head : ℕ → Master → ℕ × Master
unfolding list_del
trim_head q m = let t = head (m.lists q) in if t == 0 then (0, m) else (t, list_del t m)

-- `calloc` gives the next address.
pub calloc_thread : Master → ℕ × Master
unfolding set_thread
calloc_thread m = (
  m.next,
  set_thread m.next (record { type = 0; func = 0; arg = 0; u = 0 })
      (record m { next = suc m.next }),
)

pub get : ℕ → ℕ → ℕ → Master → ℕ × Master
unfolding trim_head calloc_thread set_thread
get type func arg m =
    let r = trim_head thread_unused m in
    let r1 = if r.0 == 0 then calloc_thread r.1 else r in
    (
      r1.0,
      set_thread r1.0 (record { type = type; func = func; arg = arg; u = (r1.1.thread r1.0).u })
          r1.1,
    )

pub set_u : ℕ → ℕ → Master → Master
unfolding set_thread
set_u t u m = set_thread t (record (m.thread t) { u = u }) m

pub socket_calloc : ℕ → Socket
socket_calloc fd = record {
  fd = fd;
  read = false;
  write = false;
  read_persist = false;
  write_persist = false;
  added = false;
  t_read = 0;
  t_write = 0;
}

-- `rb_search_or_insert` on the tree of the sockets
pub search_or_insert : ℕ → Master → Master
unfolding socket_calloc set_socket
search_or_insert fd m =
    if m.in_tree fd
    then m
    else set_socket fd (socket_calloc fd)
        (record m { in_tree = λ x. if x == fd then true else m.in_tree x })

pub socket_lookup : ℕ → Master → Option Socket
socket_lookup fd m = if m.in_tree fd then some (m.socket fd) else none

-- EPOLL_CTL_ADD for a socket that is not added, and EPOLL_CTL_MOD for one that is.
pub add_or_mod : Bool → ℕ → Bool → Bool → Ctl
add_or_mod added fd i o = if added then ctl_mod fd i o else ctl_add fd i o

-- The result is the new thread, 0 where the socket has a reader.
pub add_read : ℕ → ℕ → ℕ → Bool → Master → Option (ℕ × Master)
unfolding search_or_insert get set_u set_socket epoll_ctl add_or_mod list_add_tail
add_read func arg sock persist m =
    let m1 = search_or_insert sock m in
    let s = m1.socket sock in
    let r = get thread_read func arg m1 in
    let t = r.0 in
    let s1 = record s { t_read = t; read = true; added = true; read_persist = persist } in
    if s.read
    then some (0, m1)
    else if s.t_read == 0
    then some (
      t,
      list_add_tail t thread_read (
          set_socket sock s1 (epoll_ctl (add_or_mod s.added sock true s.write) (set_u t sock r.1))),
    )
    else none

pub add_write : ℕ → ℕ → ℕ → Bool → Master → Option (ℕ × Master)
unfolding search_or_insert get set_u set_socket epoll_ctl add_or_mod list_add_tail
add_write func arg sock persist m =
    let m1 = search_or_insert sock m in
    let s = m1.socket sock in
    let r = get thread_write func arg m1 in
    let t = r.0 in
    let s1 = record s { t_write = t; write = true; added = true; write_persist = persist } in
    if s.write
    then some (0, m1)
    else if s.t_write == 0
    then some (
      t,
      list_add_tail t thread_write
          (set_socket sock s1 (epoll_ctl (add_or_mod s.added sock s.read true) (set_u t sock r.1))),
    )
    else none

-- MINHEAP_TIMER_ON on a NULL timer; `now` is what `gettime` returns.
pub add_timer : ℕ → ℕ → ℕ → ℕ → Master → ℕ × Master
unfolding get set_u list_add_tail
add_timer func arg timer now m =
    let r = get thread_timer func arg m in
    let h = time_heap_add_timer none r.0 timer now r.1.heap in
    (r.0, list_add_tail r.0 thread_timer (set_u r.0 h.0 (record r.1 { heap = h.1 })))

pub add_event : ℕ → ℕ → ℕ → Master → ℕ × Master
unfolding get set_u list_add_tail
add_event func arg val m =
    let r = get thread_event func arg m in (r.0, list_add_tail r.0 thread_event (set_u r.0 val r.1))

-- The end of cl_thread_cancel.
pub retire : ℕ → Master → Master
unfolding set_type list_add
retire t m = list_add t thread_unused (set_type t thread_unused m)

pub get_read : ℕ → Master → ℕ
unfolding socket_lookup
get_read sock m = elim (socket_lookup sock m) [ none ↦ 0 | some s ↦ s.t_read ]

pub get_write : ℕ → Master → ℕ
unfolding socket_lookup
get_write sock m = elim (socket_lookup sock m) [ none ↦ 0 | some s ↦ s.t_write ]

-- cl_thread_init, where epoll_create succeeds.
pub init : Memory → Master
init mem = record {
  thread = λ t. record { type = 0; func = 0; arg = 0; u = 0 };
  next = 1;
  socket = λ fd. record {
    fd = 0;
    read = false;
    write = false;
    read_persist = false;
    write_persist = false;
    added = false;
    t_read = 0;
    t_write = 0;
  };
  in_tree = λ fd. false;
  lists = λ q. [];
  heap = time_heap_init mem;
  ctls = [];
}
