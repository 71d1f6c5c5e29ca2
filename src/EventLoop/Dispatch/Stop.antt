-- ===== src/EventLoop/Dispatch/Stop.antt =====
-- cl_thread_stop of framework/zebra_epoll/cl_thread.c: which threads it frees, and how often.
pub mod Freed
use algorithm.Common.{
  ℕ, ◌+◌, ◌<◌, ◌≡◌, ◌≢◌, ◌⊎◌, inl, inr, Bool, true, false, List, [], ◌∷◌, arith, ltb, if◌then◌else◌,
  ◌==◌, ◌||◌, ◌&&◌, bit, count, refl, Bool-cases, ◌∙◌, ap, sym,
}
use algorithm.MinHeap.{Memory, time_head_free}
use algorithm.EventLoop.{
  Socket, Master, ctl_del, remove, list_del, set_socket, epoll_ctl, thread_unused, thread_read,
  thread_write, thread_timer, thread_event, thread_ready,
}
use algorithm.EventLoop.Dispatch.Filed.{filed, IsFiled, count-remove}
use algorithm.EventLoop.Dispatch.Invariant.{IsConsistent}
use algorithm.EventLoop.Dispatch.DoEvent.{HasSides}

-- A master that is being stopped: the threads and the sockets that have been freed, the last one
-- first, and the memory of the timers. A thread that is freed again is in the list again.
pub record Stopping : Type 0 where
  pub master : Master
  pub freed : List ℕ
  pub freed_sockets : List ℕ
  pub mem : Memory

pub free_thread : ℕ → Stopping → Stopping
unfolding list_del
free_thread t s = record s { master = list_del t s.master; freed = t ∷ s.freed }

-- `stlc_list_for_each_entry_safe` over the threads of a list
pub free_threads : List ℕ → Stopping → Stopping
unfolding free_thread
free_threads [] s = s
free_threads (t ∷ ts) s = free_threads ts (free_thread t s)

pub free_all_thread : ℕ → Stopping → Stopping
unfolding free_threads
free_all_thread q s = free_threads (s.master.lists q) s

abbrev pub free_side : ℕ → Stopping → Stopping
free_side t s = if t == 0 then s else free_thread t s

abbrev pub close_socket : ℕ → Stopping → Stopping
close_socket fd s =
    let v = s.master.socket fd in
    if v.added
    then record s {
      master = epoll_ctl (ctl_del v.fd) (set_socket fd (record v { added = false }) s.master);
    }
    else s

pub socket_free : ℕ → Stopping → Stopping
unfolding free_thread set_socket epoll_ctl
socket_free fd s =
    let v = s.master.socket fd in
    let s1 = close_socket fd (free_side v.t_write (free_side v.t_read s)) in
    record s1 { freed_sockets = fd ∷ s1.freed_sockets }

-- The descriptors are those of the tree, in the order in which rb_first gives them.
pub rb_free : List ℕ → Stopping → Stopping
unfolding socket_free
rb_free [] s = s
rb_free (fd ∷ fds) s = rb_free fds (
    socket_free fd (record s {
      master = record s.master { in_tree = λ x. if x == fd then false else s.master.in_tree x };
    }))

pub stop : List ℕ → Master → Stopping
unfolding free_all_thread rb_free
stop fds m =
    let s : Stopping = record { master = m; freed = []; freed_sockets = []; mem = m.heap.mem } in
    let s1 = free_all_thread thread_event s in
    let s2 = free_all_thread thread_timer s1 in
    let s3 = free_all_thread thread_ready s2 in
    let s4 = free_all_thread thread_unused s3 in
    rb_free fds (record s4 { mem = time_head_free s4.master.heap })
