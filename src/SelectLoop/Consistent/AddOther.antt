-- ===== src/SelectLoop/Consistent/AddOther.antt =====
-- cl_thread_add_event and cl_thread_add_timer of framework/zebra/cl_thread.c.
use algorithm.Common.{
  ℕ, ◌+◌, ◌<◌, ◌≤◌, ◌≡◌, inl, inr, arith, ltb, if◌then◌else◌, ◌==◌, count, count-append, Bool-cases,
  subst, sym, List, [], ◌∷◌, ◌++◌, to_u32, IsAscending, IsAscending-append, if_true, if_false, ◌^◌,
}
use algorithm.EventLoop.{thread_timer, thread_event}
use algorithm.SelectLoop.{
  Master, add_event, add_timer, set_u, set_thread, list_add_tail, has_interval,
}
use algorithm.SelectLoop.Consistent.{IsConsistent}
use algorithm.SelectLoop.Consistent.Timely.{IsTimely, less-IsTimely}
use algorithm.SelectLoop.Consistent.Filed.{Got, get-Got, got}

-- A new event keeps the data consistent.
pub add_event-IsConsistent :
    (func arg val : ℕ) (m : Master) → IsConsistent m → IsConsistent (add_event func arg val m).1
unfolding add_event set_u set_thread list_add_tail
add_event-IsConsistent func arg val m c =
    subst (λ (r : ℕ × Master). IsConsistent (list_add_tail r.0 thread_event (set_u r.0 val r.1)))
      (sym g.result)
      (record {
        started = omega (arith, c.started, g.grows);
        filed = record {
          interval = c.filed.interval;
          listed = λ x q. ground (
            arith,
            g.listed x q,
            c.filed.listed x q,
            g.only x,
            g.pos,
            g.lt,
            g.grows,
            count-append x (g.lists q) (g.t ∷ []),
          );
          timed = λ x i. ground (arith, g.timed x i, c.filed.timed x i, g.only x, g.grows);
          node = λ x l e. ground (arith, c.filed.node x, g.only x);
        };
        watched = record {
          reader = c.watched.reader;
          writer = c.watched.writer;
          reads = λ x l e. ground (arith, c.watched.reads x, g.only x);
          read_bit = λ fd b. ground (arith, c.watched.read_bit fd, g.unused, g.grows);
          writes = λ x l e. ground (arith, c.watched.writes x, g.only x);
          write_bit = λ fd b. ground (arith, c.watched.write_bit fd, g.unused, g.grows);
        };
      })
  where
    g : Got thread_event func arg m c.filed
    g = get-Got thread_event func arg m c.filed c.started

count-has_interval : (i : ℕ) (xs : List ℕ) → has_interval i xs ≡ ltb 0 (count i xs)
count-has_interval i [] = ground arith
count-has_interval i (x ∷ xs) = ground (arith, count-has_interval i xs)

abbrev pub with_interval : ℕ → List ℕ → List ℕ
with_interval i xs = if has_interval i xs then xs else xs ++ i ∷ []

pub count-with_interval :
    (i j : ℕ) (xs : List ℕ)
    → (0 < count i (with_interval i xs)) × (count j xs ≤ count j (with_interval i xs))
count-with_interval i j xs =
    ground (arith, count-has_interval i xs, count-append i xs (i ∷ []), count-append j xs (i ∷ []))

-- A new timer keeps the data consistent: it is in the list of its interval, which has a node.
pub add_timer-IsConsistent :
    (func arg timer now : ℕ) (m : Master)
    → IsConsistent m
    → IsConsistent (add_timer func arg timer now m).1
unfolding add_timer set_u set_thread
add_timer-IsConsistent func arg timer now m c =
    subst (λ (r : ℕ × Master). IsConsistent (finish r)) (sym g.result)
      (record {
        started = omega (arith, c.started, g.grows);
        filed = record {
          interval = λ x. if x == g.t then timer else c.filed.interval x;
          listed = λ x q. ground (arith, g.listed x q, c.filed.listed x q, g.only x, g.grows);
          timed = λ x i. ground (
            arith,
            g.timed x i,
            c.filed.timed x i,
            g.only x,
            g.pos,
            g.lt,
            g.grows,
            count-append x (g.timers i) (g.t ∷ []),
          );
          node = λ x l e. ground (
            arith,
            c.filed.node x,
            g.only x,
            count-with_interval timer (c.filed.interval x) m.intervals,
          );
        };
        watched = record {
          reader = c.watched.reader;
          writer = c.watched.writer;
          reads = λ x l e. ground (arith, c.watched.reads x, g.only x);
          read_bit = λ fd b. ground (arith, c.watched.read_bit fd, g.unused, g.grows);
          writes = λ x l e. ground (arith, c.watched.writes x, g.only x);
          write_bit = λ fd b. ground (arith, c.watched.write_bit fd, g.unused, g.grows);
        };
      })
  where
    g : Got thread_timer func arg m c.filed
    g = get-Got thread_timer func arg m c.filed c.started

    finish : ℕ × Master → Master
    finish r =
        let m1 = set_u r.0 (to_u32 (now + timer)) r.1 in
        record m1 {
          intervals = with_interval timer m1.intervals;
          timers = λ i. if i == timer then m1.timers i ++ r.0 ∷ [] else m1.timers i;
        }

pub add_event-IsTimely :
    (func arg val clock : ℕ) (m : Master)
    → IsConsistent m
    → IsTimely clock m
    → IsTimely clock (add_event func arg val m).1
unfolding add_event set_u set_thread list_add_tail
add_event-IsTimely func arg val clock m c h =
    subst (λ (r : ℕ × Master). IsTimely clock (finish r)) (sym g.result)
      (less-IsTimely clock g.t m
        (finish (g.t, got g.t thread_event func arg g.u g.next g.lists g.timers m)) g.kept
        (λ x i l. ground (arith, g.timed x i)) h)
  where
    g : Got thread_event func arg m c.filed
    g = get-Got thread_event func arg m c.filed c.started

    finish : ℕ × Master → Master
    finish r = list_add_tail r.0 thread_event (set_u r.0 val r.1)

-- A timer that is set later than those before it goes to the end of its list.
pub add_timer-IsTimely :
    (func arg timer now clock : ℕ) (m : Master)
    → IsConsistent m
    → clock ≤ now
    → now + timer < 2 ^ 31
    → IsTimely clock m
    → IsTimely now (add_timer func arg timer now m).1
unfolding add_timer set_u set_thread
add_timer-IsTimely func arg timer now clock m c order small h =
    subst (λ (r : ℕ × Master). IsTimely now (finish r)) (sym g.result)
      (record {
        ascending = λ i. elim (Bool-cases (i == timer)) [
          | inl e ↦ subst (IsAscending k) (sym (if_true (g.timers i ++ g.t ∷ []) (g.timers i) e)) (
              IsAscending-append k (g.timers i) (g.t ∷ []) (now + timer) (old.ascending i)
                ((λ q l. absurd (omega arith)), tt) (λ q l. ground (arith, old.bounded q i l))
                (λ q l. ground (arith, at_end)))
          | inr e ↦
              subst (IsAscending k) (sym (if_false (g.timers i ++ g.t ∷ []) (g.timers i) e))
                (old.ascending i)
        ];
        small =
            λ x i l. ground (arith, old.small x i, count-append x (g.timers i) (g.t ∷ []), at_end);
        bounded = λ x i l.
            ground (arith, old.bounded x i, count-append x (g.timers i) (g.t ∷ []), at_end);
      })
  where
    g : Got thread_timer func arg m c.filed
    g = get-Got thread_timer func arg m c.filed c.started

    finish : ℕ × Master → Master
    finish r =
        let m1 = set_u r.0 (to_u32 (now + timer)) r.1 in
        record m1 {
          intervals = with_interval timer m1.intervals;
          timers = λ i. if i == timer then m1.timers i ++ r.0 ∷ [] else m1.timers i;
        }

    middle : Master
    middle =
        set_u g.t (to_u32 (now + timer))
          (got g.t thread_timer func arg g.u g.next g.lists g.timers m)

    k : ℕ → ℕ
    k x = (middle.thread x).u

    at_end : k g.t ≡ now + timer
    at_end = ground arith

    old : IsTimely clock middle
    old = less-IsTimely clock g.t m middle g.kept (λ x i l. ground (arith, g.timed x i)) h
