-- ===== src/TimeWheel/Manager.antt =====
-- itimer_mgr of itimer_internal.c: the timer manager, which drives the wheel by a clock in
-- milliseconds, one tick in each interval.
pub mod Drive
pub mod Event
pub mod Tests
use algorithm.Common.{
  to_u32, ℕ, zero, suc, ◌+◌, ◌-◌, ◌*◌, ◌/◌, ◌^◌, Bool, true, false, Option, none, some, ltb,
  if◌then◌else◌, ◌&&◌, ◌||◌, not,
}
use algorithm.TimeWheel.{Node, Core, sub_u32, is_negative, itimer_core_init, itimer_core_run}

pub record Manager : Type 0 where
  pub interval : ℕ
  pub current : ℕ
  pub millisec : ℕ
  pub jiffies : ℕ
  pub core : Core

pub itimer_mgr_init : ℕ → ℕ → (ℕ → Node) → Manager
unfolding itimer_core_init
itimer_mgr_init millisec interval node = record {
  current = millisec;
  interval = if ltb interval 1 then 1 else interval;
  jiffies = 0;
  millisec = 0;
  core = itimer_core_init node 0;
}

-- ITIMER_MGR_LIMIT
abbrev pub mgr_limit : ℕ
mgr_limit = 300000

-- The clock is more than the limit and 64 intervals ahead or behind; `interval * 64` stays below
-- 2^31.
pub is_far : ℕ → Manager → Bool
is_far millisec m =
    let diff = sub_u32 millisec m.millisec in
    let limit = m.interval * 64 in
    (not (is_negative diff) && ltb (mgr_limit + limit) diff)
    || (is_negative diff && ltb (mgr_limit + limit) (2 ^ 32 - diff))

-- What follows a tick.
pub step_clock : Core → Manager → Manager
step_clock c m = record {
  interval = m.interval;
  current = to_u32 (m.current + m.interval);
  millisec = to_u32 (m.millisec + m.interval);
  jiffies = to_u32 (m.jiffies + 1);
  core = c;
}

-- A callback sees the manager's `current` and `jiffies`.
module _ {E : Type 0} (call : ℕ → ℕ → ℕ → ℕ → E × Core → E × Core) where
  pub mgr_loop : ℕ → ℕ → E × Manager → Option (E × Manager)
  unfolding itimer_core_run step_clock
  mgr_loop zero millisec s = none
  mgr_loop (suc n) millisec (e, m) =
      if is_negative (sub_u32 millisec m.millisec)
      then some (e, m)
      else elim (itimer_core_run (call m.current m.jiffies) m.jiffies (e, m.core)) [
        | none ↦ none
        | some (e', c) ↦ mgr_loop n millisec (e', step_clock c m)
      ]

  -- A clock that is far away is taken over at once. The loop makes a round for each interval, and
  -- one more to see that it is over.
  pub itimer_mgr_run : ℕ → E × Manager → Option (E × Manager)
  unfolding mgr_loop is_far
  itimer_mgr_run millisec (e, m) =
      let m' : Manager = if is_far millisec m then record m { millisec = millisec } else m in
      mgr_loop (sub_u32 millisec m'.millisec / m'.interval + 2) millisec (e, m')
