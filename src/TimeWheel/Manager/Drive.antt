-- ===== src/TimeWheel/Manager/Drive.antt =====
-- itimer_mgr_run: the ticks that have come due by the clock.
use algorithm.Common.{
  ◌⊎◌, inl, inr, to_u32, ℕ, zero, suc, ◌+◌, ◌-◌, ◌*◌, ◌/◌, ◌^◌, ◌<◌, ◌≤◌, ◌≡◌, refl, sym, ap, ◌∙◌,
  true, false, Option, none, some, arith, subst, if_true, if_false, [],
}
use native.Mathlib.Nat.{div-add-mod', mod-lt}
use algorithm.TimeWheel.{Core, sub_u32, is_negative, itimer_core_run}
use algorithm.TimeWheel.Invariant.{IsWheel}
use algorithm.TimeWheel.Tick.{run_all}
use algorithm.TimeWheel.Run.{Ran, Ran-then, core_run-Ran}
use algorithm.TimeWheel.Manager.{Manager, mgr_loop, itimer_mgr_run, step_clock, is_far, mgr_limit}

-- The core that a run of the manager leaves.
abbrev pub core_of : {E : Type 0} → Option (E × Manager) → Option (E × Core)
core_of none = none
core_of (some (e, m)) = some (e, m.core)

module _ {E : Type 0} (act : ℕ → ℕ → E → E) (call : ℕ → ℕ → ℕ → ℕ → E × Core → E × Core)
    (quiet : (now j fn arg : ℕ) (e : E) (c : Core)
      → call now j fn arg (e, c) ≡ (act fn arg e, c)) where
  -- The manager after the ticks up to `u`, at the clock `x`.
  pub record ManagerRan (u x : ℕ) (due : ℕ → ℕ) (e : E) (m : Manager) (r : Option (E × Manager))
      : Type 0 where
    pub ran : Ran act u due e m.core (core_of r)
    pub env : E
    pub rest : Manager
    pub result : r ≡ some (env, rest)
    pub jiffies : rest.jiffies ≡ to_u32 (u + 1)
    pub millisec : rest.millisec ≡ to_u32 x
    pub interval : rest.interval ≡ m.interval

  -- One tick, and what is done of the loop then.
  one_tick :
      (n t y : ℕ) (due : ℕ → ℕ) (e : E) (m : Manager)
      → IsWheel t 1 due [] m.core
      → m.jiffies ≡ to_u32 t
      → is_negative (sub_u32 y m.millisec) ≡ false
      → (r : Ran act t due e m.core
          (itimer_core_run (call m.current m.jiffies) (to_u32 t) (e, m.core)))
        × (mgr_loop call (suc n) y (e, m)
            ≡ mgr_loop call n y (run_all act m.core.node r.ran e, step_clock r.rest m))
  unfolding mgr_loop
  one_tick n t y due e m w j h =
      let one =
        core_run-Ran act (call m.current m.jiffies) (quiet m.current m.jiffies) t t due e w
          (omega arith) (omega arith) in
      (
        one,
        if_false (some (e, m)) _ h
            ∙ ap
                (λ o. elim o as (λ x. Option (E × Manager)) [
                  | none ↦ none
                  | some (e', c) ↦ mgr_loop call n y (e', step_clock c m)
                ])
                (ap (λ a. itimer_core_run (call m.current m.jiffies) a (e, m.core)) j ∙ one.result),
      )

  loop_over :
      (n y : ℕ) (e : E) (m : Manager)
      → is_negative (sub_u32 y m.millisec) ≡ true
      → mgr_loop call (suc n) y (e, m) ≡ some (e, m)
  unfolding mgr_loop
  loop_over n y e m h = if_true (some (e, m)) _ h

  mgr_loop-Ran :
      (k n t x y : ℕ) (due : ℕ → ℕ) (e : E) (m : Manager)
      → IsWheel t 1 due [] m.core
      → m.jiffies ≡ to_u32 t
      → m.millisec ≡ to_u32 x
      → x + k * m.interval ≤ y
      → y < x + k * m.interval + m.interval
      → y < x + 2 ^ 30
      → m.interval < 2 ^ 30
      → k + 1 < n
      → ManagerRan
          (t + k)
          (x + k * m.interval + m.interval)
          due
          e
          m
          (mgr_loop call n (to_u32 y) (e, m))
  unfolding step_clock
  mgr_loop-Ran zero (suc (suc n)) t x y due e m w j ms lo hi far small fuel =
      let one = one_tick (suc n) t (to_u32 y) due e m w j (ground (arith, ms)) in
      let next = step_clock one.0.rest m in
      let env = run_all act m.core.node one.0.ran e in
      let stop = one.1 ∙ loop_over n (to_u32 y) env next (ground (arith, ms)) in
      let same : t ≡ t + 0 = omega arith in
      record {
        ran =
            subst
              (λ u.
                Ran act u due e m.core (core_of (mgr_loop call (suc (suc n)) (to_u32 y) (e, m))))
              same (subst (Ran act t due e m.core) (one.0.result ∙ ap core_of (sym stop)) one.0);
        env = env;
        rest = next;
        result = stop;
        jiffies = omega (arith, j);
        millisec = omega (arith, ms);
        interval = refl;
      }
  mgr_loop-Ran (suc k) (suc n) t x y due e m w j ms lo hi far small fuel =
      let one = one_tick n t (to_u32 y) due e m w j (ground (arith, ms)) in
      let next = step_clock one.0.rest m in
      let env = run_all act m.core.node one.0.ran e in
      let more =
        mgr_loop-Ran k n (t + 1) (x + m.interval) y due env next one.0.wheel (omega (arith, j))
          (omega (arith, ms)) (omega arith) (omega arith) (omega arith) small (omega arith) in
      let later : t + 1 + k ≡ t + suc k = omega arith in
      let clock : x + m.interval + k * m.interval + m.interval
          ≡ x + suc k * m.interval + m.interval =
        omega arith in
      record {
        ran =
            subst (λ u. Ran act u due e m.core (core_of (mgr_loop call (suc n) (to_u32 y) (e, m))))
              later
              (subst (Ran act (t + 1 + k) due e m.core) (ap core_of (sym one.1)) (
                Ran-then act (call m.current m.jiffies) (quiet m.current m.jiffies) t (t + 1 + k)
                  due e (omega arith) one.0 more.ran));
        env = more.env;
        rest = more.rest;
        result = one.1 ∙ more.result;
        jiffies = more.jiffies ∙ ap (λ u. to_u32 (u + 1)) later;
        millisec = more.millisec ∙ ap to_u32 clock;
        interval = more.interval;
      }
  mgr_loop-Ran k n t x y due e m w j ms lo hi far small fuel = absurd (omega arith)

  away_is_far :
      (x y : ℕ) (m : Manager)
      → m.millisec ≡ to_u32 x
      → m.interval < 2 ^ 20
      → ((x + (300000 + m.interval * 64) < y) × (y < x + 2 ^ 31))
        ⊎ ((y + (300000 + m.interval * 64) < x) × (x < y + 2 ^ 31))
      → is_far (to_u32 y) m ≡ true
  unfolding is_far
  away_is_far x y m ms small (inl (far, near)) =
      let gap : sub_u32 (to_u32 y) m.millisec ≡ y - x = omega (arith, ms) in ground (arith, gap)
  away_is_far x y m ms small (inr (far, near)) =
      let gap : sub_u32 (to_u32 y) m.millisec ≡ 2 ^ 32 - (x - y) = omega (arith, ms) in
      ground (arith, gap)

  -- Where the callbacks leave the wheel as it is, itimer_mgr_run ends. If the clock `y` lies at or
  -- after the manager's own, by no more than the limit, it makes a tick for each interval that has
  -- begun since, so that the nodes that are due by the last of them have run, in order, and moves
  -- the manager's clock on by as many intervals. An interval is less than 2^20 milliseconds.
  pub mgr_run-ManagerRan :
      (t x y : ℕ) (due : ℕ → ℕ) (e : E) (m : Manager)
      → IsWheel t 1 due [] m.core
      → m.jiffies ≡ to_u32 t
      → m.millisec ≡ to_u32 x
      → 1 ≤ m.interval
      → m.interval < 2 ^ 20
      → x ≤ y
      → y ≤ x + mgr_limit + m.interval * 64
      → ManagerRan
          (t + (y - x) / m.interval)
          (x + (y - x) / m.interval * m.interval + m.interval)
          due
          e
          m
          (itimer_mgr_run call (to_u32 y) (e, m))
  unfolding itimer_mgr_run is_far
  mgr_run-ManagerRan t x y due e m w j ms one small le near =
      let k = (y - x) / m.interval in
      let gap : sub_u32 (to_u32 y) m.millisec ≡ y - x = omega (arith, ms) in
      let split = div-add-mod' (y - x) m.interval in
      let bound = mod-lt (y - x) {m = m.interval} (omega arith) in
      let calm : is_far (to_u32 y) m ≡ false = ground (arith, gap) in
      let fuel : sub_u32 (to_u32 y) m.millisec / m.interval + 2 ≡ k + 2 =
        ap (λ a. a / m.interval + 2) gap in
      subst (ManagerRan (t + k) (x + k * m.interval + m.interval) due e m)
        (ap (λ n. mgr_loop call n (to_u32 y) (e, m)) (sym fuel)
          ∙ sym (
              ap
                (λ (m' : Manager).
                  mgr_loop call (sub_u32 (to_u32 y) m'.millisec / m'.interval + 2) (to_u32 y)
                    (e, m'))
                (if_false (record m { millisec = to_u32 y }) m calm)))
        (mgr_loop-Ran k (k + 2) t x y due e m w j ms (omega (arith, split))
          (omega (arith, split, bound)) (omega arith) (omega arith) (omega arith))

  -- Where the callbacks leave the wheel as it is and the clock `y` lies ahead of the manager's own
  -- `x`, or behind it, by more than 300000 milliseconds and 64 intervals, but by less than 2^31
  -- milliseconds, itimer_mgr_run takes it over and makes one tick. An interval is 1 millisecond at
  -- least and less than 2^20.
  pub mgr_run_far :
      (t x y : ℕ) (due : ℕ → ℕ) (e : E) (m : Manager)
      → IsWheel t 1 due [] m.core
      → m.jiffies ≡ to_u32 t
      → m.millisec ≡ to_u32 x
      → 1 ≤ m.interval
      → m.interval < 2 ^ 20
      → ((x + (300000 + m.interval * 64) < y) × (y < x + 2 ^ 31))
        ⊎ ((y + (300000 + m.interval * 64) < x) × (x < y + 2 ^ 31))
      → ManagerRan
          (t + 0)
          (y + 0 * m.interval + m.interval)
          due
          e
          m
          (itimer_mgr_run call (to_u32 y) (e, m))
  unfolding itimer_mgr_run
  mgr_run_far t x y due e m w j ms one small away =
      let there : Manager = record m { millisec = to_u32 y } in
      let far = away_is_far x y m ms small away in
      let all =
        mgr_loop-Ran 0 (sub_u32 (to_u32 y) (to_u32 y) / m.interval + 2) t y y due e there w j refl
          (omega arith) (omega arith) (omega arith) (omega arith) (omega arith) in
      subst (ManagerRan (t + 0) (y + 0 * m.interval + m.interval) due e m)
        (sym (
          ap
            (λ (m' : Manager).
              mgr_loop call (sub_u32 (to_u32 y) m'.millisec / m'.interval + 2) (to_u32 y) (e, m'))
            (if_true there m far)))
        (record {
          ran = all.ran;
          env = all.env;
          rest = all.rest;
          result = all.result;
          jiffies = all.jiffies;
          millisec = all.millisec;
          interval = all.interval;
        })
