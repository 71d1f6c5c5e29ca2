-- ===== src/SelectLoop/Consistent.antt =====
-- The invariant of the master of framework/zebra/cl_thread.c: its threads, its lists and the two
-- sets of descriptors agree.
pub mod Filed
pub mod ProcessRead
pub mod ProcessWrite
pub mod Pending
pub mod Fetch
pub mod Timely
pub mod Reach
mod Tests
pub mod Due
pub mod Locked
pub mod Stop
pub mod AddRead
pub mod AddWrite
pub mod AddOther
pub mod Cancel
use algorithm.Common.{
  ℕ, ◌<◌, ◌≤◌, ◌≡◌, Bool, true, false, ◌&&◌, not, if◌then◌else◌, ◌==◌, ltb, List, count,
}
use algorithm.EventLoop.{thread_read, thread_write, thread_timer}
use algorithm.SelectLoop.{Master}

abbrev pub known : Master → ℕ → Bool
known m t = ltb 0 t && ltb t m.next

-- Each thread is in the list of its type, or in that of its interval where it is a timer.
pub record IsFiled (m : Master) : Type 0 where
  pub interval : ℕ → ℕ
  pub listed :
      (t q : ℕ)
      → count t (m.lists q)
        ≡ (if known m t && ((m.thread t).type == q) && not (q == thread_timer) then 1 else 0)
  pub timed :
      (t i : ℕ)
      → count t (m.timers i)
        ≡ (if known m t && ((m.thread t).type == thread_timer) && (interval t == i) then 1 else 0)
  pub node :
      (t : ℕ)
      → known m t ≡ true
      → (m.thread t).type ≡ thread_timer
      → 0 < count (interval t) m.intervals

-- The descriptors that select is asked about are those of the threads that wait, one for each.
pub record IsWatched (m : Master) : Type 0 where
  pub reader : ℕ → ℕ
  pub writer : ℕ → ℕ
  pub reads :
      (t : ℕ)
      → known m t ≡ true
      → (m.thread t).type ≡ thread_read
      → (m.readfd (m.thread t).u ≡ true) × (reader (m.thread t).u ≡ t)
  pub read_bit :
      (fd : ℕ)
      → m.readfd fd ≡ true
      → (known m (reader fd) ≡ true)
        × ((m.thread (reader fd)).type ≡ thread_read)
        × ((m.thread (reader fd)).u ≡ fd)
        × (fd ≤ m.max_fd)
  pub writes :
      (t : ℕ)
      → known m t ≡ true
      → (m.thread t).type ≡ thread_write
      → (m.writefd (m.thread t).u ≡ true) × (writer (m.thread t).u ≡ t)
  pub write_bit :
      (fd : ℕ)
      → m.writefd fd ≡ true
      → (known m (writer fd) ≡ true)
        × ((m.thread (writer fd)).type ≡ thread_write)
        × ((m.thread (writer fd)).u ≡ fd)
        × (fd ≤ m.max_fd)

pub record IsConsistent (m : Master) : Type 0 where
  pub started : 0 < m.next
  pub filed : IsFiled m
  pub watched : IsWatched m
