-- ===== src/SelectLoop/Consistent/Stop/Freed.antt =====
-- How often cl_thread_stop of framework/zebra/cl_thread.c frees a thread.
use algorithm.Common.{
  ℕ, ◌+◌, ◌<◌, ◌≡◌, Bool, true, [], arith, if◌then◌else◌, ◌==◌, ◌⊎◌, bit, count, refl, inl, inr,
}
use algorithm.EventLoop.{
  thread_unused, thread_read, thread_write, thread_timer, thread_event, thread_ready,
}
use algorithm.SelectLoop.{Master}
use algorithm.SelectLoop.Consistent.{known, IsFiled}
use algorithm.SelectLoop.Consistent.Stop.{
  Stopping, ListFreed, InTimers, TimersFreed, free_all_thread, free_all_timer, stop, all-ListFreed,
  all_timer-TimersFreed,
}

module _ (m : Master) (f : IsFiled m) (t : ℕ) (k : known m t ≡ true) where
  abbrev s0 : Stopping
  s0 = record { master = m; freed = [] }

  abbrev s1 : Stopping
  s1 = free_all_thread thread_read s0

  abbrev s2 : Stopping
  s2 = free_all_thread thread_write s1

  abbrev s3 : Stopping
  s3 = free_all_timer s2.master.intervals s2

  abbrev s4 : Stopping
  s4 = free_all_thread thread_event s3

  abbrev s5 : Stopping
  s5 = free_all_thread thread_ready s4

  abbrev type : ℕ
  type = (m.thread t).type

  abbrev timed : Bool
  timed = type == thread_timer

  a1 : ListFreed (m.lists thread_read) s0 s1
  a1 = all-ListFreed thread_read s0

  a2 : ListFreed (s1.master.lists thread_write) s1 s2
  a2 = all-ListFreed thread_write s1

  in_timers : InTimers t (f.interval t) timed s2
  in_timers j = ground (
    arith,
    a2.timers t j,
    a1.timers t j,
    a1.lists t thread_write,
    f.listed t thread_read,
    f.listed t thread_write,
    f.timed t j,
  )

  a3 : TimersFreed t (f.interval t) timed s2.master.intervals s2 s3
  a3 = all_timer-TimersFreed t (f.interval t) timed s2.master.intervals s2 in_timers

  noted : timed ≡ true → 0 < count (f.interval t) s2.master.intervals
  noted e = rw a2.intervals (rw a1.intervals (f.node t k (ground arith)))

  a4 : ListFreed (s3.master.lists thread_event) s3 s4
  a4 = all-ListFreed thread_event s3

  a5 : ListFreed (s4.master.lists thread_ready) s4 s5
  a5 = all-ListFreed thread_ready s4

  -- The lists that are freed after the timers, when the timers have been freed.
  left :
      (q : ℕ)
      → 3 < q ⊎ (q ≡ thread_unused)
      → count t (s3.master.lists q) ≡ (if type == q then 1 else 0)
  left q late = ground (
    arith,
    a3.lists q,
    a3.empty q,
    a2.lists t q,
    a1.lists t q,
    a1.lists t thread_write,
    f.listed t q,
    f.listed t thread_read,
    f.listed t thread_write,
  )

  after_timers :
      count t s3.freed ≡ bit type thread_read + bit type thread_write + bit type thread_timer
  after_timers = ground (
    arith,
    a3.freed,
    noted,
    a2.freed t,
    a1.freed t,
    a1.lists t thread_write,
    f.listed t thread_read,
    f.listed t thread_write,
  )

  -- Stopping a consistent master frees each of its threads, and frees it once.
  pub stop-freed_once : type < 6 → count t (stop m).freed ≡ 1
  unfolding stop
  stop-freed_once lt = ground (
    arith,
    after_timers,
    (all-ListFreed thread_unused s5).freed t,
    a5.freed t,
    a4.freed t,
    a5.lists t thread_unused,
    a4.lists t thread_unused,
    a4.lists t thread_ready,
    left thread_unused (inr refl),
    left thread_event (inl (omega arith)),
    left thread_ready (inl (omega arith)),
  )
