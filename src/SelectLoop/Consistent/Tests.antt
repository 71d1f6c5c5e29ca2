-- ===== src/SelectLoop/Consistent/Tests.antt =====
-- Runs of framework/zebra/cl_thread.c on small masters, and the theorems applied to them.
use algorithm.Common.{ℕ, ◌<◌, ◌≤◌, ◌≡◌, true, false, some, [], ◌∷◌, arith, ◌==◌, count, refl}
use algorithm.EventLoop.{Thread, thread_read, thread_write, thread_timer}
use algorithm.SelectLoop.{Master, Round, init, add_read, add_write, add_timer, fetch, pending}
use algorithm.SelectLoop.Consistent.{known, IsFiled, IsConsistent}
use algorithm.SelectLoop.Consistent.Stop.{stop}
use algorithm.SelectLoop.Consistent.Stop.Freed.{stop-freed_once}
use algorithm.SelectLoop.Consistent.Fetch.{FetchDone, fetch-FetchDone, fetch_wakes}
use algorithm.SelectLoop.Consistent.Reach.{
  Reach, start, next, step_read, step_write, step_timer, Reach-IsGood, Reach-asked,
  expired_timer-pending,
}

-- A reader of descriptor 3, and a timer of interval 50 set at 40.
abbrev one : Master
one = (add_read 7 8 3 init).1

abbrev two : Master
two = (add_timer 9 0 50 40 one).1

-- A writer of descriptor 4 as well.
abbrev three : Master
three = (add_write 7 8 4 two).1

two-Reach : Reach 40 two
two-Reach = next (next start (step_read 7 8 3)) (step_timer 9 0 50 40 (omega arith) (omega arith))

three-Reach : Reach 40 three
three-Reach = next two-Reach (step_write 7 8 4)

two-IsConsistent : IsConsistent two
two-IsConsistent = (Reach-IsGood two-Reach).0

two-IsFiled : IsFiled two
two-IsFiled = two-IsConsistent.filed

abbrev answer : Round
answer = record { now = 60; readfd = λ fd. fd == 3; writefd = λ fd. false }

Reach-asked_example :
    (three.readfd 4 ≡ true → 4 ≤ three.max_fd)
    × (three.readfd 4 ≡ true
        → (t : ℕ) × (known three t ≡ true)
          × ((three.thread t).type ≡ thread_read)
          × ((three.thread t).u ≡ 4)
          × (count t (three.lists thread_read) ≡ 1))
    × ((t : ℕ)
        → known three t ≡ true
        → (three.thread t).type ≡ thread_read
        → three.readfd (three.thread t).u ≡ true)
    × (three.writefd 4 ≡ true → 4 ≤ three.max_fd)
    × (three.writefd 4 ≡ true
        → (t : ℕ) × (known three t ≡ true)
          × ((three.thread t).type ≡ thread_write)
          × ((three.thread t).u ≡ 4)
          × (count t (three.lists thread_write) ≡ 1))
    × ((t : ℕ)
        → known three t ≡ true
        → (three.thread t).type ≡ thread_write
        → three.writefd (three.thread t).u ≡ true)
Reach-asked_example = Reach-asked three-Reach 4

fetch-FetchDone_example : FetchDone (answer ∷ []) two
fetch-FetchDone_example = fetch-FetchDone (answer ∷ []) two two-IsConsistent

fetch_wakes_example : (th : Thread) × (r : Master) × (fetch (answer ∷ []) two ≡ some (some th, r))
unfolding init add_read add_timer
fetch_wakes_example = fetch_wakes answer [] two 1 two-IsConsistent refl refl

two_knows : known two 1 ≡ true
unfolding init add_read add_timer
two_knows = refl

expired_timer-pending_example :
    (th : Thread) × (r : Master) × (pending 91 two ≡ (some th, r))
    × (th.type ≡ thread_timer)
    × (th.u < 91)
unfolding init add_read add_timer
expired_timer-pending_example =
    expired_timer-pending 91 2 two-Reach (omega arith) refl refl refl (omega arith)

stop-freed_once_example : count 1 (stop two).freed ≡ 1
unfolding init add_read add_timer
stop-freed_once_example = stop-freed_once two two-IsFiled 1 refl (omega arith)
