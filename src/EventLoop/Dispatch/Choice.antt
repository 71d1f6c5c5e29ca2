-- ===== src/EventLoop/Dispatch/Choice.antt =====
-- The order in which cl_thread_fetch of framework/zebra_epoll/cl_thread.c hands threads out.
use algorithm.Common.{ℕ, ◌<◌, ◌≤◌, ◌≡◌, Option, none, some}
use algorithm.MinHeap.{key}
use algorithm.EventLoop.{Thread, Master, head, thread_timer, thread_event, thread_ready}

-- When the timer of the thread `t` expires.
abbrev pub expires : Master → ℕ → ℕ
expires m t = key m.heap.mem (m.thread t).u

-- The threads of the timers that are running.
abbrev pub IsTimer : Master → ℕ → Type 0
IsTimer m t = (0 < t) × (t < m.next) × ((m.thread t).type ≡ thread_timer)

-- The thread that goes first: the first event, else an expired timer that no other one expires
-- before, else the head of the ready list.
pub data Choice (now : ℕ) (m : Master) (o : Option Thread) : Type 0 where
  event :
      0 < head (m.lists thread_event)
      → o ≡ some (m.thread (head (m.lists thread_event)))
      → Choice now m o
  timer :
      (t : ℕ)
      → head (m.lists thread_event) ≡ 0
      → IsTimer m t
      → expires m t ≤ now
      → ((x : ℕ) → IsTimer m x → expires m t ≤ expires m x)
      → o ≡ some (m.thread t)
      → Choice now m o
  ready :
      head (m.lists thread_event) ≡ 0
      → ((x : ℕ) → IsTimer m x → now < expires m x)
      → 0 < head (m.lists thread_ready)
      → o ≡ some (m.thread (head (m.lists thread_ready)))
      → Choice now m o
  wait :
      head (m.lists thread_event) ≡ 0
      → ((x : ℕ) → IsTimer m x → now < expires m x)
      → head (m.lists thread_ready) ≡ 0
      → o ≡ none
      → Choice now m o
