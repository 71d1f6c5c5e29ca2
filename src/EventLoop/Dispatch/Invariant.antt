-- ===== src/EventLoop/Dispatch/Invariant.antt =====
-- The invariant of the master of framework/zebra_epoll/cl_thread.c: its threads, its sockets, what
-- epoll has been told, and its timers agree.
use algorithm.Common.{ℕ, ◌<◌, ◌≡◌, ◌≢◌, ◌⊎◌, true, false, ltb}
use algorithm.MinHeap.Invariant.{IsValid, holds}
use algorithm.EventLoop.Dispatch.Log.{registered, watches_in, watches_out, IsOrderly}
use algorithm.EventLoop.{Master, thread_read, thread_write, thread_timer, thread_ready}
use algorithm.EventLoop.Dispatch.Filed.{IsFiled}

-- A descriptor and its threads name each other.
pub record IsLinked (m : Master) : Type 0 where
  pub descriptor : (fd : ℕ) → m.in_tree fd ≡ true → (m.socket fd).fd ≡ fd
  pub read_bit : (fd : ℕ) → m.in_tree fd ≡ true → (m.socket fd).read ≡ ltb 0 (m.socket fd).t_read
  pub write_bit : (fd : ℕ) → m.in_tree fd ≡ true → (m.socket fd).write ≡ ltb 0 (m.socket fd).t_write
  pub reader :
      (fd : ℕ)
      → m.in_tree fd ≡ true
      → 0 < (m.socket fd).t_read
      → let t = (m.socket fd).t_read in
        (t < m.next)
        × ((m.thread t).u ≡ fd)
        × (((m.thread t).type ≡ thread_read) ⊎ ((m.thread t).type ≡ thread_ready))
  pub writer :
      (fd : ℕ)
      → m.in_tree fd ≡ true
      → 0 < (m.socket fd).t_write
      → let t = (m.socket fd).t_write in
        (t < m.next)
        × ((m.thread t).u ≡ fd)
        × (((m.thread t).type ≡ thread_write) ⊎ ((m.thread t).type ≡ thread_ready))
  pub apart :
      (fd : ℕ)
      → m.in_tree fd ≡ true
      → 0 < (m.socket fd).t_read
      → (m.socket fd).t_read ≢ (m.socket fd).t_write
  pub reads :
      (t : ℕ)
      → 0 < t
      → t < m.next
      → (m.thread t).type ≡ thread_read
      → (m.in_tree (m.thread t).u ≡ true) × ((m.socket (m.thread t).u).t_read ≡ t)
  pub writes :
      (t : ℕ)
      → 0 < t
      → t < m.next
      → (m.thread t).type ≡ thread_write
      → (m.in_tree (m.thread t).u ≡ true) × ((m.socket (m.thread t).u).t_write ≡ t)
  pub readies :
      (t : ℕ)
      → 0 < t
      → t < m.next
      → (m.thread t).type ≡ thread_ready
      → (m.in_tree (m.thread t).u ≡ true)
        × (((m.socket (m.thread t).u).t_read ≡ t) ⊎ ((m.socket (m.thread t).u).t_write ≡ t))

-- What epoll has been told: a thread that waits, or persists, is watched for.
pub record IsWatched (m : Master) : Type 0 where
  pub orderly : IsOrderly m.ctls
  pub added : (fd : ℕ) → m.in_tree fd ≡ true → (m.socket fd).added ≡ registered m.ctls fd
  pub unknown : (fd : ℕ) → m.in_tree fd ≡ false → registered m.ctls fd ≡ false
  pub input :
      (fd : ℕ)
      → m.in_tree fd ≡ true
      → 0 < (m.socket fd).t_read
      → ((m.thread (m.socket fd).t_read).type ≡ thread_read) ⊎ ((m.socket fd).read_persist ≡ true)
      → watches_in m.ctls fd ≡ true
  pub output :
      (fd : ℕ)
      → m.in_tree fd ≡ true
      → 0 < (m.socket fd).t_write
      → ((m.thread (m.socket fd).t_write).type ≡ thread_write)
        ⊎ ((m.socket fd).write_persist ≡ true)
      → watches_out m.ctls fd ≡ true

-- A timer thread has its node in the heap, and a node with a thread is that thread's.
pub record IsTimed (m : Master) : Type 0 where
  pub valid : IsValid m.heap
  pub armed :
      (t : ℕ)
      → 0 < t
      → t < m.next
      → (m.thread t).type ≡ thread_timer
      → (0 < holds m.heap (m.thread t).u) × ((m.heap.mem.node (m.thread t).u).args ≡ t)
  pub owner :
      (p : ℕ)
      → 0 < holds m.heap p
      → 0 < (m.heap.mem.node p).args
      → let t = (m.heap.mem.node p).args in
        (t < m.next) × ((m.thread t).type ≡ thread_timer) × ((m.thread t).u ≡ p)

pub record IsConsistent (m : Master) : Type 0 where
  pub started : 0 < m.next
  pub filed : IsFiled m
  pub linked : IsLinked m
  pub watched : IsWatched m
  pub timed : IsTimed m
