-- ===== src/DeadLock/Graph/Tests.antt =====
-- Runs of the monitor on two threads and two locks.
use algorithm.Common.{ℕ, ◌≡◌, ◌≤◌, refl, true, false, Bool, some, List, [], ◌∷◌, length, arith}
use algorithm.DeadLock.{
  ReqLock, HoldLock, Monitor, Site, check_before, check_after, check_unlock_after, start_check,
  req_lookup_or_alloc, req_alloc, hold_alloc,
}
use algorithm.DeadLock.Tables.{
  IsMonitor, Held, Freed, start_check-IsMonitor, check_before-Waiting, check_after-Held,
  check_unlock_after-Freed,
}
use algorithm.DeadLock.Graph.{Vertex, check_dead_lock, build, search_graph}
use algorithm.DeadLock.Graph.Check.{Circle, IsBuilt, search_graph_lem}
use algorithm.DeadLock.Graph.Build.{Built, build_lem, requests}
use algorithm.DeadLock.Graph.Report.{DeadLock, check_dead_lock_lem}

abbrev here : Site
here = record { file = []; line = 7; funcname = []; lock_name = []; stacktrace = [] }

-- Thread 1 has the lock 10.
one_lock : Monitor
unfolding check_before check_after
one_lock = check_after 1 10 here (check_before 0 1 10 here start_check)

-- Then thread 2 gets the lock 20.
two_locks : Monitor
unfolding check_before check_after one_lock
two_locks = check_after 2 20 here (check_before 0 2 20 here one_lock)

-- Thread 1 waits for the lock 20.
one_waits : Monitor
unfolding check_before two_locks
one_waits = check_before 5 1 20 here two_locks

-- Thread 2 waits for the lock 10 too.
both_wait : Monitor
unfolding check_before one_waits
both_wait = check_before 6 2 10 here one_waits

one_lock-IsMonitor : IsMonitor one_lock
unfolding one_lock
one_lock-IsMonitor =
    (check_after-Held 1 10 here (check_before 0 1 10 here start_check)
      (check_before-Waiting 0 1 10 here start_check start_check-IsMonitor).monitor).monitor

two_locks-IsMonitor : IsMonitor two_locks
unfolding two_locks
two_locks-IsMonitor =
    (check_after-Held 2 20 here (check_before 0 2 20 here one_lock)
      (check_before-Waiting 0 2 20 here one_lock one_lock-IsMonitor).monitor).monitor

one_waits-IsMonitor : IsMonitor one_waits
unfolding one_waits
one_waits-IsMonitor = (check_before-Waiting 5 1 20 here two_locks two_locks-IsMonitor).monitor

both_wait-IsMonitor : IsMonitor both_wait
unfolding both_wait
both_wait-IsMonitor = (check_before-Waiting 6 2 10 here one_waits one_waits-IsMonitor).monitor

check_after-Held_example : Held 2 10 one_lock (check_after 2 10 here one_lock)
check_after-Held_example = check_after-Held 2 10 here one_lock one_lock-IsMonitor

one_lock-Freed : Freed 10 one_lock (check_unlock_after 10 one_lock)
one_lock-Freed = check_unlock_after-Freed 10 one_lock one_lock-IsMonitor

few_requests : length both_wait.apply ≤ 50
unfolding both_wait start_check req_lookup_or_alloc
few_requests = omega arith

check_dead_lock_lem_example :
    (b : Bool) × (check_dead_lock both_wait ≡ some b)
    × (b ≡ true → DeadLock both_wait)
    × (DeadLock both_wait → b ≡ true)
check_dead_lock_lem_example = check_dead_lock_lem both_wait both_wait-IsMonitor few_requests

one_waits_test : check_dead_lock one_waits ≡ some false
unfolding check_dead_lock one_waits start_check
one_waits_test = refl

both_wait_test : check_dead_lock both_wait ≡ some true
unfolding check_dead_lock both_wait start_check
both_wait_test = refl

-- Two threads that wait for each other.
abbrev ring : List Vertex
ring =
    record { indegress = 1; thread_id = 1; threads = 2 ∷ [] }
    ∷ record { indegress = 1; thread_id = 2; threads = 1 ∷ [] }
    ∷ []

ring-IsBuilt : IsBuilt ring
ring-IsBuilt = record { single = λ x. ground arith; balance = λ y. ground arith }

search_graph_lem_example :
    (b : Bool) × (left : List Vertex) × (search_graph ring ≡ some (b, left))
    × (b ≡ true → Circle ring)
    × (Circle ring → b ≡ true)
search_graph_lem_example = search_graph_lem ring-IsBuilt (omega arith)

-- Thread 3 waits for the lock 30 of thread 4.
abbrev waiting : List ReqLock
waiting = record (req_alloc 3) { valid = true; lock_addr = 30 } ∷ []

abbrev holding : List HoldLock
holding = record (hold_alloc 30) { count = 1; thread_id = 4 } ∷ []

one_request : (x : ℕ) → requests x waiting ≤ 1
unfolding req_alloc
one_request x = ground arith

build_lem_example : Built holding waiting [] (build holding waiting [])
build_lem_example = build_lem holding waiting one_request
