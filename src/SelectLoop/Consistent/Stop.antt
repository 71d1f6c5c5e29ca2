-- ===== src/SelectLoop/Consistent/Stop.antt =====
-- cl_thread_stop of framework/zebra/cl_thread.c: which threads it frees, and how often.
pub mod Freed
use algorithm.Common.{
  ℕ, ◌+◌, ◌<◌, ◌≤◌, ◌≡◌, ◌≢◌, inl, inr, Bool, true, false, List, [], ◌∷◌, arith, ltb, if◌then◌else◌,
  ◌==◌, ◌&&◌, not, bit, count, refl, Bool-cases,
}
use algorithm.EventLoop.{
  remove, thread_unused, thread_read, thread_write, thread_timer, thread_event, thread_ready,
}
use algorithm.EventLoop.Dispatch.Filed.{count-remove}
use algorithm.SelectLoop.{Master, list_del}
use algorithm.SelectLoop.Consistent.{known, IsFiled, IsConsistent}

-- A master that is being stopped, with the threads that have been freed, the last one first.
pub record Stopping : Type 0 where
  pub master : Master
  pub freed : List ℕ

-- `stlc_list_for_each_entry_safe` over the threads of a list
pub free_threads : List ℕ → Stopping → Stopping
unfolding list_del
free_threads [] s = s
free_threads (t ∷ ts) s =
    free_threads ts (record { master = list_del t s.master; freed = t ∷ s.freed })

pub free_all_thread : ℕ → Stopping → Stopping
unfolding free_threads
free_all_thread q s = free_threads (s.master.lists q) s

-- The nodes of the list of timers, each with its threads.
pub free_all_timer : List ℕ → Stopping → Stopping
unfolding free_threads
free_all_timer [] s = s
free_all_timer (i ∷ is) s = free_all_timer is (free_threads (s.master.timers i) s)

pub stop : Master → Stopping
unfolding free_all_thread free_all_timer
stop m =
    let s =
      free_all_thread thread_write
        (free_all_thread thread_read (record { master = m; freed = [] })) in
    let s1 = free_all_timer s.master.intervals s in
    free_all_thread thread_unused (free_all_thread thread_ready (free_all_thread thread_event s1))

-- What freeing the threads of a list does.
pub record ListFreed (ts : List ℕ) (s r : Stopping) : Type 0 where
  pub freed : (t : ℕ) → count t r.freed ≡ count t ts + count t s.freed
  pub lists :
      (t q : ℕ)
      → count t (r.master.lists q) ≡ (if ltb 0 (count t ts) then 0 else count t (s.master.lists q))
  pub timers :
      (t i : ℕ)
      → count t (r.master.timers i)
        ≡ (if ltb 0 (count t ts) then 0 else count t (s.master.timers i))
  pub intervals : r.master.intervals ≡ s.master.intervals

free_threads-ListFreed : (ts : List ℕ) (s : Stopping) → ListFreed ts s (free_threads ts s)
unfolding free_threads list_del
free_threads-ListFreed [] s = record {
  freed = λ t. omega arith;
  lists = λ t q. ground arith;
  timers = λ t q. ground arith;
  intervals = refl;
}
free_threads-ListFreed (x ∷ ts) s =
    let s1 : Stopping = record { master = list_del x s.master; freed = x ∷ s.freed } in
    let f : ListFreed ts s1 (free_threads ts s1) = free_threads-ListFreed ts s1 in
    record {
      freed = λ t. omega (arith, f.freed t);
      lists = λ t q. ground (arith, f.lists t q, count-remove t x (s.master.lists q));
      timers = λ t i. ground (arith, f.timers t i, count-remove t x (s.master.timers i));
      intervals = f.intervals;
    }

pub all-ListFreed : (q : ℕ) (s : Stopping) → ListFreed (s.master.lists q) s (free_all_thread q s)
unfolding free_all_thread
all-ListFreed q s = free_threads-ListFreed (s.master.lists q) s

-- The thread `t` is in the list of its interval `i`, where `b` says so, and in no other.
abbrev pub InTimers : ℕ → ℕ → Bool → Stopping → Type 0
InTimers t i b s = (j : ℕ) → count t (s.master.timers j) ≡ (if b && (i == j) then 1 else 0)

-- What freeing the timers does to the thread `t`.
pub record TimersFreed (t i : ℕ) (b : Bool) (is : List ℕ) (s r : Stopping) : Type 0 where
  pub freed : count t r.freed ≡ (if b && ltb 0 (count i is) then 1 else 0) + count t s.freed
  pub lists : (q : ℕ) → b ≡ false → count t (r.master.lists q) ≡ count t (s.master.lists q)
  pub empty : (q : ℕ) → count t (s.master.lists q) ≡ 0 → count t (r.master.lists q) ≡ 0

pub all_timer-TimersFreed :
    (t i : ℕ) (b : Bool) (is : List ℕ) (s : Stopping)
    → InTimers t i b s
    → TimersFreed t i b is s (free_all_timer is s)
unfolding free_all_timer
all_timer-TimersFreed t i b [] s h = record {
  freed = ground arith;
  lists = λ q e. refl;
  empty = λ q e. e;
}
all_timer-TimersFreed t i b (j ∷ is) s h =
    let s1 = free_threads (s.master.timers j) s in
    let f : ListFreed (s.master.timers j) s s1 = free_threads-ListFreed (s.master.timers j) s in
    let left : Bool = b && not (i == j) in
    let rest : TimersFreed t i left is s1 (free_all_timer is s1) =
      all_timer-TimersFreed t i left is s1 (λ k. ground (arith, f.timers t k, h k, h j)) in
    record {
      freed = ground (arith, rest.freed, f.freed t, h j);
      lists = λ q e. ground (arith, rest.lists q, f.lists t q, h j);
      empty = λ q e. ground (arith, rest.empty q, f.lists t q, h j);
    }
