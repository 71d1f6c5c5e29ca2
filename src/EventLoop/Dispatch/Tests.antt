-- ===== src/EventLoop/Dispatch/Tests.antt =====
-- Runs of framework/zebra_epoll/cl_thread.c on small masters, and the theorems applied to them.
use algorithm.Common.{
  ℕ, ◌≡◌, true, false, none, some, [], ◌∷◌, arith, if◌then◌else◌, ◌==◌, count, refl, subst, sym,
  some-injective, ◌∙◌,
}
use algorithm.MinHeap.{Memory}
use algorithm.EventLoop.{Thread, Master, init, add_read, add_timer, thread_read, thread_write}
use algorithm.EventLoop.Unregister.{cancel}
use algorithm.EventLoop.Dispatch.{EpollEvent, do_event, fetch}
use algorithm.EventLoop.Dispatch.Log.{registered, watches_in, watches_out, IsOrderly}
use algorithm.EventLoop.Dispatch.Invariant.{IsConsistent}
use algorithm.EventLoop.Dispatch.AddRead.{ReaderAdded, add_read-ReaderAdded}
use algorithm.EventLoop.Dispatch.Cancel.{Cancelled, cancel-Cancelled}
use algorithm.EventLoop.Dispatch.DoEvent.{Reported, do_event-Reported}
use algorithm.EventLoop.Dispatch.Handout.{HandedOut, run-HandedOut}
use algorithm.EventLoop.Dispatch.Pending.{Pended, pending-Pended}
use algorithm.EventLoop.Dispatch.Fetch.{Fetched, fetch-Fetched, fetch_returns}
use algorithm.EventLoop.Dispatch.Locked.{fetch_lock, released, fetch_lock-fetch}
use algorithm.EventLoop.Dispatch.Reach.{
  step_read, step_timer, Reach, start, later, Reach-IsConsistent, Reach-IsWatched,
}
use algorithm.EventLoop.Dispatch.Stop.{stop}
use algorithm.EventLoop.Dispatch.Stop.Freed.{stop-freed}

abbrev mem : Memory
mem = record { node = λ p. record { expire = 0; cb = none; args = 0 }; live = λ p. false; next = 1 }

abbrev empty : Master
empty = init mem

-- A reader of descriptor 3, then a timer for 100.
abbrev one : Master
one = elim (add_read 7 8 3 false empty) [ none ↦ empty | some r ↦ r.1 ]

abbrev two : Master
two = (add_timer 9 0 50 50 one).1

abbrev input : EpollEvent
input = record { fd = 3; broken = false; readable = true; writable = false }

abbrev reported : Master
reported = elim (do_event input two) [ none ↦ two | some r ↦ r ]

added : add_read 7 8 3 false empty ≡ some (1, one)
unfolding add_read init
added = refl

one-Reach : Reach mem one
one-Reach = later start (step_read 7 8 3 false added)

two-Reach : Reach mem two
two-Reach = later one-Reach (step_timer 9 0 50 50)

two-IsConsistent : IsConsistent two
two-IsConsistent = Reach-IsConsistent (refl, omega arith, λ p h. refl) two-Reach

two_next : two.next ≡ 3
unfolding init add_read add_timer
two_next = refl

two_knows : two.in_tree 3 ≡ true
unfolding init add_read add_timer
two_knows = refl

Reach-IsWatched_example :
    ((q : ℕ) → count 1 (two.lists q) ≡ (if (two.thread 1).type == q then 1 else 0))
    × ((two.thread 1).type ≡ thread_read
        → ((two.socket (two.thread 1).u).t_read ≡ 1)
          × (registered two.ctls (two.thread 1).u ≡ true)
          × (watches_in two.ctls (two.thread 1).u ≡ true))
    × ((two.thread 1).type ≡ thread_write
        → ((two.socket (two.thread 1).u).t_write ≡ 1)
          × (registered two.ctls (two.thread 1).u ≡ true)
          × (watches_out two.ctls (two.thread 1).u ≡ true))
    × IsOrderly two.ctls
Reach-IsWatched_example =
    Reach-IsWatched (refl, omega arith, λ p h. refl) two-Reach 1 (omega arith)
      (omega (arith, two_next))

add_read-ReaderAdded_example : ReaderAdded 7 8 4 true two
add_read-ReaderAdded_example = add_read-ReaderAdded 7 8 4 true two two-IsConsistent

cancel-Cancelled_example : Cancelled 2 two
cancel-Cancelled_example =
    cancel-Cancelled 2 two two-IsConsistent (omega arith) (omega (arith, two_next))

do_event-Reported_example : Reported input two
do_event-Reported_example = do_event-Reported input two two-IsConsistent two_knows

pending-Pended_example : Pended 99 two
pending-Pended_example = pending-Pended 99 two two-IsConsistent

fetch-Fetched_example : Fetched ((60, []) ∷ (70, input ∷ []) ∷ []) two
fetch-Fetched_example =
    fetch-Fetched ((60, []) ∷ (70, input ∷ []) ∷ []) two two-IsConsistent
      (tt, ((two_knows, tt), tt))

fetch_returns_example :
    (th : Thread) × (r : Master) × (fetch ((60, input ∷ []) ∷ []) two ≡ some (some th, r))
unfolding init add_read add_timer
fetch_returns_example = fetch_returns 60 (input ∷ []) [] two two-IsConsistent (two_knows, tt) refl

fetch_lock-fetch_example :
    fetch_lock ((60, input ∷ []) ∷ []) two false ≡ released (fetch ((60, input ∷ []) ∷ []) two)
fetch_lock-fetch_example = fetch_lock-fetch ((60, input ∷ []) ∷ []) two

-- The reader is ready once epoll has reported it.
reported_lem : do_event input two ≡ some reported
unfolding init add_read add_timer do_event
reported_lem = refl

reported-IsConsistent : IsConsistent reported
reported-IsConsistent =
    let a = do_event-Reported input two two-IsConsistent two_knows in
    subst IsConsistent (some-injective _ _ (sym a.result ∙ reported_lem)) a.consistent

run-HandedOut_example : HandedOut 1 reported
unfolding init add_read add_timer do_event
run-HandedOut_example =
    run-HandedOut 1 reported reported-IsConsistent (omega arith) (omega arith) refl

-- A ready thread cannot be cancelled, and is freed twice when the master is stopped.
cancel_ready_fault : cancel 1 reported ≡ none
unfolding init add_read add_timer do_event cancel
cancel_ready_fault = refl

only_three : (fd : ℕ) → count fd (3 ∷ []) ≡ (if reported.in_tree fd then 1 else 0)
unfolding init add_read add_timer do_event
only_three fd = ground arith

stop-freed_example : count 1 (stop (3 ∷ []) reported).freed ≡ 2
unfolding init add_read add_timer do_event
stop-freed_example =
    stop-freed (3 ∷ []) reported reported-IsConsistent only_three 1 (omega arith) (omega arith)
      (omega arith)
