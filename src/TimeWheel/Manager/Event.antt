-- ===== src/TimeWheel/Manager/Event.antt =====
-- itimer_evt_cb of itimer_internal.c: how many periods of an event have passed when its node runs.
use algorithm.Common.{
  to_u32, ℕ, zero, suc, ◌+◌, ◌-◌, ◌*◌, ◌^◌, ◌<◌, ◌≤◌, ◌≡◌, refl, sym, ap, ◌∙◌, Bool, true, false,
  Option, none, some, ltb, leb, ◌/◌, subst, ◌==◌, if◌then◌else◌, arith, Bool-cases, inl, inr,
  if_true, if_false,
}
use native.Mathlib.Nat.{div-add-mod', mod-lt}
use algorithm.TimeWheel.{sub_u32}

-- The counters of `itimer_evt`; a `repeat` of 0 stands for all that are not positive.
pub record Event : Type 0 where
  pub period : ℕ
  pub slap : ℕ
  pub repeat : ℕ

-- The loop: the number of calls that are due, whether the event is over, and the event.
pub catch_up : ℕ → ℕ → Event → Option (ℕ × Bool × Event)
catch_up zero current v = none
catch_up (suc n) current v =
    if ltb current v.slap
    then some (0, false, v)
    else if v.repeat == 1
    then some (1, true, record v { slap = to_u32 (v.slap + v.period) })
    else elim (catch_up n current (record v {
      slap = to_u32 (v.slap + v.period);
      repeat = if ltb 1 v.repeat then v.repeat - 1 else v.repeat;
    })) [ none ↦ none | some (count, stop, v') ↦ some (suc count, stop, v') ]

-- Each round moves `slap` on, if there is a period, so the clock bounds the rounds.
pub evt_count : ℕ → Event → Option (ℕ × Bool × Event)
unfolding catch_up
evt_count current v = catch_up (current + 2) current v

-- The ticks from now to `slap`, rounded up; also in itimer_evt_start.
unfoldable pub evt_expires : ℕ → ℕ → ℕ → ℕ
evt_expires interval current slap =
    let expires = sub_u32 (to_u32 (sub_u32 slap current + interval)) 1 / interval in
    if leb 0x70000000 expires then 0x70000000 else expires

-- What the loop makes of an event.
pub record CaughtUp (current : ℕ) (v : Event) (r : Option (ℕ × Bool × Event)) : Type 0 where
  pub count : ℕ
  pub stop : Bool
  pub event : Event
  pub result : r ≡ some (count, stop, event)
  pub passed : event.slap ≡ v.slap + count * v.period
  pub next : stop ≡ false → current < event.slap
  pub first : 0 < count → event.slap ≤ current + v.period
  pub last : stop ≡ true → count ≡ v.repeat
  pub left : 0 < v.repeat → stop ≡ false → event.repeat + count ≡ v.repeat
  pub kept : v.repeat ≡ 0 → (event.repeat ≡ 0) × (stop ≡ false)

-- On enough fuel for the rounds.
catch_up-CaughtUp :
    (n current : ℕ) (v : Event)
    → 1 ≤ v.period
    → current + v.period < 2 ^ 32
    → v.slap < 2 ^ 32
    → 1 ≤ n
    → current + 1 < n + v.slap
    → CaughtUp current v (catch_up n current v)
unfolding catch_up
catch_up-CaughtUp zero current v h k l m f = absurd (omega arith)
catch_up-CaughtUp (suc n) current v h k l m f = elim (Bool-cases (ltb current v.slap)) [
  | inl e ↦ record {
    count = 0;
    stop = false;
    event = v;
    result = if_true (some (0, false, v)) _ e;
    passed = omega arith;
    next = λ q. ground arith;
    first = λ q. absurd (omega arith);
    last = λ q. absurd (ground arith);
    left = λ q r. omega arith;
    kept = λ q. (q, refl);
  }
  | inr e ↦
      let on : Event = record v { slap = to_u32 (v.slap + v.period) } in
      let more : Event = record v {
        slap = to_u32 (v.slap + v.period);
        repeat = if ltb 1 v.repeat then v.repeat - 1 else v.repeat;
      } in
      let not_ahead : v.slap ≤ current = ground arith in
      let added : to_u32 (v.slap + v.period) ≡ v.slap + v.period = ground arith in
      elim (Bool-cases (v.repeat == 1)) [
        | inl one ↦ record {
          count = 1;
          stop = true;
          event = on;
          result = if_false (some (0, false, v)) _ e ∙ if_true (some (1, true, on)) _ one;
          passed = omega (arith, added);
          next = λ q. absurd (ground arith);
          first = λ q. ground (arith, added);
          last = λ q. ground arith;
          left = λ q r. absurd (ground arith);
          kept = λ q. absurd (ground arith);
        }
        | inr many ↦
            let rest =
              catch_up-CaughtUp n current more h k (ground (arith, added)) (ground arith)
                (ground (arith, added)) in
            record {
              count = suc rest.count;
              stop = rest.stop;
              event = rest.event;
              result =
                  if_false (some (0, false, v)) _ e
                  ∙ if_false (some (1, true, on)) _ many
                  ∙ ap
                      (λ o. elim o as (λ x. Option (ℕ × Bool × Event)) [
                        | none ↦ none
                        | some (count, stop, v') ↦ some (suc count, stop, v')
                      ])
                      rest.result;
              passed = omega (arith, rest.passed, added);
              next = rest.next;
              first = λ q. elim (Bool-cases (rest.count == 0)) [
                | inl none_left ↦
                    let zero_left : rest.count ≡ 0 = ground arith in
                    omega (
                      arith,
                      rest.passed ∙ ap (λ c. to_u32 (v.slap + v.period) + c * v.period) zero_left,
                      added,
                      not_ahead,
                    )
                | inr some_left ↦ rest.first (ground arith)
              ];
              last = λ q. elim (Bool-cases (v.repeat == 0)) [
                | inl z ↦ absurd (ground (arith, (rest.kept (ground arith)).1))
                | inr z ↦ ground (arith, rest.last q)
              ];
              left = λ q r. ground (arith, rest.left, r);
              kept = λ q. (rest.kept (ground arith));
            }
      ]
]

-- With a period of 1 at least, where the clock and a period together are below 2^32, the loop ends: it counts the times that have
-- come, up to `repeat` of them where that is positive. Unless the last repetition has come, the next
-- time lies ahead; and where a time was counted, it lies ahead by no more than a period.
pub evt_count-CaughtUp :
    (current : ℕ) (v : Event)
    → 1 ≤ v.period
    → current + v.period < 2 ^ 32
    → v.slap < 2 ^ 32
    → CaughtUp current v (evt_count current v)
unfolding evt_count
evt_count-CaughtUp current v h k l =
    catch_up-CaughtUp (current + 2) current v h k l (omega arith) (omega arith)

-- The tick that an event is put at is the first that does not lie before its time, where that is
-- fewer than 0x70000000 ticks away and an interval is 1 at least. The time lies ahead by the
-- difference of the two clocks of 32 bits, also across their wrap, and that and an interval together
-- are 2^32 at most.
pub evt_expires_least :
    (interval current slap : ℕ)
    → 1 ≤ interval
    → sub_u32 slap current + interval ≤ 2 ^ 32
    → evt_expires interval current slap < 0x70000000
    → (sub_u32 slap current ≤ evt_expires interval current slap * interval)
      × (evt_expires interval current slap * interval < sub_u32 slap current + interval)
unfolding evt_expires
evt_expires_least interval current slap h l m =
    let x = sub_u32 (to_u32 (sub_u32 slap current + interval)) 1 in
    let value : x ≡ sub_u32 slap current + interval - 1 = omega (arith, h, l) in
    let uncapped : evt_expires interval current slap ≡ x / interval = ground arith in
    subst
      (λ e.
        (sub_u32 slap current ≤ e * interval) × (e * interval < sub_u32 slap current + interval))
      (sym uncapped)
      (
        omega (arith, value, div-add-mod' x interval, mod-lt x {m = interval} (omega arith)),
        omega (arith, value, div-add-mod' x interval),
      )
