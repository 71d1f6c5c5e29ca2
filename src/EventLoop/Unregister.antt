-- ===== src/EventLoop/Unregister.antt =====
-- cl_thread_cancel of framework/zebra_epoll/cl_thread.c, with what it does for each type of thread.
use algorithm.Common.{ℕ, true, false, Option, none, some, if◌then◌else◌, ◌==◌}
use algorithm.MinHeap.{TimeHeap, write_node}
use algorithm.EventLoop.{
  Master, ctl_del, thread_read, thread_write, thread_timer, thread_event, list_del, set_socket,
  epoll_ctl, add_or_mod, set_u, socket_lookup, retire,
}

-- `_cl_thread_cancel_read`
unfoldable pub drop_read : ℕ → Master → Master
unfolding set_socket epoll_ctl add_or_mod list_del
drop_read fd m =
    let s = m.socket fd in
    let s1 = record s { t_read = 0; read = false; read_persist = false; added = s.write } in
    let c = if s.write then add_or_mod s.added s.fd false true else ctl_del s.fd in
    list_del s.t_read (epoll_ctl c (set_socket fd s1 m))

-- `_cl_thread_cancel_write`
unfoldable pub drop_write : ℕ → Master → Master
unfolding set_socket epoll_ctl add_or_mod list_del
drop_write fd m =
    let s = m.socket fd in
    let s1 = record s { t_write = 0; write = false; write_persist = false; added = s.read } in
    let c = if s.read then add_or_mod s.added s.fd true false else ctl_del s.fd in
    list_del s.t_write (epoll_ctl c (set_socket fd s1 m))

unfoldable pub cancel_read : ℕ → Master → Option Master
unfolding drop_read socket_lookup list_del
cancel_read t m =
    let fd = (m.thread t).u in
    elim (socket_lookup fd m) [
      | none ↦ some (list_del t m)
      | some s ↦ if s.t_read == t then some (drop_read fd m) else none
    ]

unfoldable pub cancel_write : ℕ → Master → Option Master
unfolding drop_write socket_lookup list_del
cancel_write t m =
    let fd = (m.thread t).u in
    elim (socket_lookup fd m) [
      | none ↦ some (list_del t m)
      | some s ↦ if s.t_write == t then some (drop_write fd m) else none
    ]

pub cancel_ready : ℕ → Master → Master
unfolding drop_read drop_write socket_lookup list_del
cancel_ready t m =
    let fd = (m.thread t).u in
    elim (socket_lookup fd m) [
      | none ↦ list_del t m
      | some s ↦
          if s.t_read == t
          then drop_read fd m
          else if s.t_write == t
          then drop_write fd m
          else list_del t m
    ]

-- time_heap_del_timer of this directory's min_heap.c: it also clears `args`.
unfoldable pub del_timer : ℕ → TimeHeap → TimeHeap
del_timer node h =
    if node == 0
    then h
    else record h { mem = write_node h.mem node (record (h.mem.node node) { cb = none; args = 0 }) }

-- MINHEAP_TIMER_OFF sets the thread's pointer to NULL.
unfoldable pub cancel_timer : ℕ → Master → Master
unfolding del_timer set_u list_del
cancel_timer t m = list_del t (set_u t 0 (record m { heap = del_timer (m.thread t).u m.heap }))

-- The case of CL_THREAD_READY has no `break`: after cl_thread_cancel_ready it runs into the
-- store through NULL of the default case.
unfoldable pub cancel : ℕ → Master → Option Master
unfolding cancel_read cancel_write cancel_timer cancel_ready list_del retire
cancel t m =
    let type = (m.thread t).type in
    if type == thread_read
    then (elim (cancel_read t m) [ none ↦ none | some m1 ↦ some (retire t m1) ])
    else if type == thread_write
    then (elim (cancel_write t m) [ none ↦ none | some m1 ↦ some (retire t m1) ])
    else if type == thread_timer
    then some (retire t (cancel_timer t m))
    else if type == thread_event
    then some (retire t (list_del t m))
    else none
