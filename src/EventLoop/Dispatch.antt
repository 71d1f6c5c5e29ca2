-- ===== src/EventLoop/Dispatch.antt =====
-- framework/zebra_epoll/cl_thread.c, from cl_thread_timer_wait on, and cl_time_heap_tick of
-- min_heap.c beside it: what the loop does with the answers of epoll_wait, and which thread it
-- hands to its caller.
pub mod Filed
pub mod Log
pub mod Invariant
pub mod Tree
pub mod AddOther
pub mod HeapTick
pub mod Cancel
pub mod Event
pub mod DoEvent
pub mod Run
pub mod Handout
pub mod Pending
pub mod Choice
pub mod HandOther
pub mod Trim
pub mod DoEvents
pub mod Fetch
pub mod Reach
pub mod Locked
pub mod Stop
mod Tests
pub mod Release
pub mod DropRead
pub mod DropWrite
pub mod AddRead
pub mod AddWrite
use algorithm.Common.{
  Int32, plus, to_u32, ℕ, zero, suc, Bool, true, false, ◌||◌, ◌&&◌, not, Option, none, some, List,
  [], ◌∷◌, ltb, ◌==◌, if◌then◌else◌, at,
}
use algorithm.MinHeap.{TimeHeap, key, pop_timer, time_heap_empty, time_heap_time_wait}
use algorithm.EventLoop.{
  Thread, Socket, Ctl, ctl_del, Master, thread_unused, thread_read, thread_write, thread_event,
  thread_ready, list_del, list_add, set_type, set_socket, epoll_ctl, add_or_mod, trim_head,
  socket_lookup, retire,
}

-- The loop of cl_time_heap_tick, with the pointer `tmp`: `args` of the node that is due, 0 for
-- NULL. `none` is the fuel running out.
pub heap_tick_loop : ℕ → ℕ → ℕ → TimeHeap → Option (ℕ × TimeHeap)
heap_tick_loop zero tmp cur h = none
heap_tick_loop (suc f) tmp cur h =
    let popped = pop_timer h in
    let args = (h.mem.node (at h.nodes 0)).args in
    let rest = heap_tick_loop f (at popped.nodes 0) cur popped in
    if time_heap_empty h
    then some (0, h)
    else if tmp == 0
    then some (0, h)
    else if ltb cur (key h.mem tmp)
    then some (0, h)
    else if args == 0
    then rest
    else some (args, popped)

-- The fuel is one more than the nodes, since each round but the last pops one.
pub heap_tick : ℕ → TimeHeap → Option (ℕ × TimeHeap)
unfolding heap_tick_loop
heap_tick now h = heap_tick_loop (suc h.cursize) (at h.nodes 0) (to_u32 now) h

-- The wait starts as 1 and stays 1 where the heap is empty.
pub timer_wait : ℕ → Master → Int32
timer_wait now m = elim (time_heap_time_wait now m.heap) [ none ↦ plus 1 | some w ↦ w ]

-- `epoll_event`: whether one of EPOLLERR, EPOLLHUP and EPOLLRDHUP, one of EPOLLIN and EPOLLPRI,
-- and EPOLLOUT are set, and the descriptor of the socket that `data.ptr` points to.
pub record EpollEvent : Type 0 where
  pub fd : ℕ
  pub broken : Bool
  pub readable : Bool
  pub writable : Bool

-- A thread that an event reports: to the head of the ready list, unless it is ready.
pub make_ready : ℕ → Master → Master
unfolding set_type list_del list_add
make_ready t m =
    if (m.thread t).type == thread_ready
    then m
    else list_add t thread_ready (list_del t (set_type t thread_ready m))

-- What epoll is told once the events `ctl_read` and `ctl_write` have been given away.
pub rearm : ℕ → Bool → Bool → Master → Master
unfolding set_socket epoll_ctl add_or_mod
rearm fd ctl_read ctl_write m =
    let s = m.socket fd in
    let i = s.read && not ctl_read in
    let o = s.write && not ctl_write in
    if i || o
    then epoll_ctl (add_or_mod s.added s.fd i o) (set_socket fd (record s { added = true }) m)
    else epoll_ctl (ctl_del s.fd) (set_socket fd (record s { added = false }) m)

pub do_event : EpollEvent → Master → Option Master
unfolding make_ready rearm
do_event ev m =
    let s = m.socket ev.fd in
    let reads = (ev.broken || ev.readable) && s.read in
    let writes = (ev.broken || ev.writable) && s.write in
    let ctl_read = reads && not s.read_persist in
    let ctl_write = writes && not s.write_persist in
    let m1 = if reads then make_ready s.t_read m else m in
    let m2 = if writes then make_ready s.t_write m1 else m1 in
    if reads && s.t_read == 0
    then none
    else if writes && s.t_write == 0
    then none
    else if ctl_read || ctl_write
    then some (rearm ev.fd ctl_read ctl_write m2)
    else some m2

-- A thread that was ready and has been handed out: back to its list where it persists.
pub socket_put : ℕ → Master → Master
unfolding socket_lookup retire set_socket set_type list_add
socket_put t m =
    let fd = (m.thread t).u in
    elim (socket_lookup fd m) [
      | none ↦ retire t m
      | some s ↦
          if s.t_read == t
          then (if s.read_persist
              then list_add t thread_read (set_type t thread_read m)
              else retire t (set_socket fd (record s { read = false; t_read = 0 }) m))
          else if s.t_write == t
          then (if s.write_persist
              then list_add t thread_write (set_type t thread_write m)
              else retire t (set_socket fd (record s { write = false; t_write = 0 }) m))
          else m
    ]

-- The result is the copy of the thread that the caller gets.
pub run : ℕ → Master → Thread × Master
unfolding socket_put retire
run t m = (m.thread t, if (m.thread t).type == thread_ready then socket_put t m else retire t m)

pub do_events : List EpollEvent → Master → Option Master
do_events [] m = some m
do_events (ev ∷ evs) m = elim (do_event ev m) [ none ↦ none | some m1 ↦ do_events evs m1 ]

abbrev pub handed : Thread × Master → Option Thread × Master
handed r = (some r.0, r.1)

-- One round of the loop of cl_thread_fetch up to epoll_wait: a thread that needs no waiting.
-- `now` is what `gettime` returns.
pub pending : ℕ → Master → Option (Option Thread × Master)
unfolding trim_head heap_tick run list_del
pending now m =
    let e = trim_head thread_event m in
    if e.0 == 0
    then (elim (heap_tick now m.heap) [
      | none ↦ none
      | some r ↦
          let m1 : Master = record m { heap = r.1 } in
          let q = trim_head thread_ready m1 in
          if r.0 == 0
          then (if q.0 == 0 then some (none, m1) else some (handed (run q.0 q.1)))
          else some (handed (run r.0 (list_del r.0 m1)))
    ])
    else some (handed (run e.0 e.1))

-- cl_thread_fetch. What the world does in a round is the time of its tick and the answer of its
-- epoll_wait; an empty answer is also a timeout or an error. `none` is a store through NULL, and
-- `some (none, m)` that the answers given ran out while it was waiting.
pub fetch : List (ℕ × List EpollEvent) → Master → Option (Option Thread × Master)
unfolding pending do_events trim_head run
fetch [] m = some (none, m)
fetch ((now, evs) ∷ rounds) m = elim (pending now m) [
  | none ↦ none
  | some (some th, m1) ↦ some (some th, m1)
  | some (none, m1) ↦ elim (do_events evs m1) [
    | none ↦ none
    | some m2 ↦
        let q = trim_head thread_ready m2 in
        let rest = fetch rounds m2 in if q.0 == 0 then rest else some (handed (run q.0 q.1))
  ]
]
