-- ===== src/TimeWheel/Manager/Tests.antt =====
-- A manager that has just been started, with a tick in each 10 milliseconds.
use algorithm.Common.{
  ◌^◌, ◌<◌, ◌≤◌, ◌*◌, to_u32, ℕ, ◌+◌, ◌-◌, ◌*◌, ◌/◌, ◌≡◌, refl, false, arith, List, [], ◌∷◌, ◌++◌,
  some, inl,
}
use algorithm.TimeWheel.{Node, Core, state_ok, sub_u32}
use algorithm.TimeWheel.Invariant.{IsWheel, core_init-IsWheel}
use algorithm.TimeWheel.Manager.{Manager, itimer_mgr_init, itimer_mgr_run}
use algorithm.TimeWheel.Manager.Event.{
  Event, CaughtUp, evt_count, evt_count-CaughtUp, evt_expires, evt_expires_least,
}
use algorithm.TimeWheel.Manager.Drive.{ManagerRan, mgr_run-ManagerRan, mgr_run_far}

abbrev node : ℕ → Node
node p = record {
  linked = false;
  expires = 0;
  state = state_ok;
  arg = p;
  callback = some 7;
  core = false;
}

abbrev log : ℕ → ℕ → List ℕ → List ℕ
log fn arg e = e ++ arg ∷ []

abbrev call : ℕ → ℕ → ℕ → ℕ → List ℕ × Core → List ℕ × Core
call now j fn arg (e, c) = (log fn arg e, c)

abbrev due : ℕ → ℕ
due p = 0

abbrev start : Manager
start = itimer_mgr_init 5 10 node

start-IsWheel : IsWheel 0 1 due [] start.core
unfolding itimer_mgr_init
start-IsWheel = (core_init-IsWheel 0 due node (λ p. refl)).0

start_jiffies : start.jiffies ≡ to_u32 0
unfolding itimer_mgr_init
start_jiffies = refl

start_millisec : start.millisec ≡ to_u32 0
unfolding itimer_mgr_init
start_millisec = refl

start_interval : start.interval ≡ 10
unfolding itimer_mgr_init
start_interval = refl

mgr_run-ManagerRan_example :
    ManagerRan log call
      (λ now j fn arg e c. refl)
      (0 + (35 - 0) / start.interval)
      (0 + (35 - 0) / start.interval * start.interval + start.interval)
      due
      []
      start
      (itimer_mgr_run call (to_u32 35) ([], start))
mgr_run-ManagerRan_example =
    mgr_run-ManagerRan log call (λ now j fn arg e c. refl) 0 0 35 due [] start start-IsWheel
      start_jiffies start_millisec (omega (arith, start_interval)) (omega (arith, start_interval))
      (omega arith) (omega (arith, start_interval))

mgr_run_far_example :
    ManagerRan log call
      (λ now j fn arg e c. refl)
      (0 + 0)
      (1700000000 + 0 * start.interval + start.interval)
      due
      []
      start
      (itimer_mgr_run call (to_u32 1700000000) ([], start))
mgr_run_far_example =
    mgr_run_far log call (λ now j fn arg e c. refl) 0 0 1700000000 due [] start start-IsWheel
      start_jiffies start_millisec (omega (arith, start_interval)) (omega (arith, start_interval))
      (inl (omega (arith, start_interval), omega arith))

-- Three periods have passed.
abbrev late : Event
late = record { period = 10; slap = 20; repeat = 5 }

evt_count-CaughtUp_example : CaughtUp 45 late (evt_count 45 late)
evt_count-CaughtUp_example = evt_count-CaughtUp 45 late (omega arith) (omega arith) (omega arith)

-- The clock is 5 milliseconds before its wrap, and the time 15 behind it.
few_ticks : evt_expires 10 (2 ^ 32 - 5) 15 < 0x70000000
unfolding evt_expires
few_ticks = omega arith

evt_expires_least_example :
    (sub_u32 15 (2 ^ 32 - 5) ≤ evt_expires 10 (2 ^ 32 - 5) 15 * 10)
    × (evt_expires 10 (2 ^ 32 - 5) 15 * 10 < sub_u32 15 (2 ^ 32 - 5) + 10)
evt_expires_least_example =
    evt_expires_least 10 (2 ^ 32 - 5) 15 (omega arith) (omega arith) few_ticks
