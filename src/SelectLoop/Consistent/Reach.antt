-- ===== src/SelectLoop/Consistent/Reach.antt =====
-- The masters that the operations of framework/zebra/cl_thread.c lead to, with the time of the last
-- timer that was set.
use algorithm.Common.{
  to_u32, ℕ, ◌+◌, ◌^◌, ◌<◌, ◌≤◌, ◌≡◌, inl, inr, true, false, Option, none, some, List, arith, count,
  sym, ◌∙◌, subst, ap, Bool-cases, some-injective, none-ne-some, if_true, if_false,
}
use algorithm.EventLoop.{Thread, head, thread_read, thread_write, thread_timer, thread_event}
use algorithm.SelectLoop.{
  Master, Round, init, add_read, add_write, add_timer, add_event, cancel, fetch, pending,
  u32_is_bigger,
}
use algorithm.SelectLoop.Consistent.{known, IsConsistent}
use algorithm.SelectLoop.Consistent.Timely.{IsTimely, head_first}
use algorithm.SelectLoop.Consistent.AddRead.{add_read-IsConsistent}
use algorithm.SelectLoop.Consistent.AddWrite.{add_write-IsConsistent}
use algorithm.SelectLoop.Consistent.AddOther.{
  add_event-IsConsistent, add_event-IsTimely, add_timer-IsConsistent, add_timer-IsTimely,
}
use algorithm.SelectLoop.Consistent.Cancel.{in_use, Cancelled, cancel-Cancelled}
use algorithm.SelectLoop.Consistent.Pending.{event, timer, later, Pended, pending-Pended}
use algorithm.SelectLoop.Consistent.Fetch.{fetch-FetchDone, head_nonnull}

-- A call by the program that has the master. A thread that it cancels is one of the master, and
-- the times of the timers do not go back and stay below 2^31 milliseconds.
pub data Step (clock : ℕ) (m : Master) : ℕ → Master → Type 0 where
  step_read : (func arg sock : ℕ) → Step clock m clock (add_read func arg sock m).1
  step_write : (func arg sock : ℕ) → Step clock m clock (add_write func arg sock m).1
  step_timer :
      (func arg time now : ℕ)
      → clock ≤ now
      → now + time < 2 ^ 31
      → Step clock m now (add_timer func arg time now m).1
  step_event : (func arg val : ℕ) → Step clock m clock (add_event func arg val m).1
  step_cancel : (t : ℕ) {r : Master} → known m t ≡ true → cancel t m ≡ some r → Step clock m clock r
  step_fetch :
      (rounds : List Round) {r : Option Thread × Master}
      → fetch rounds m ≡ some r
      → Step clock m clock r.1

pub data Reach : ℕ → Master → Type 0 where
  start : Reach 0 init
  next : {clock now : ℕ} {m r : Master} → Reach clock m → Step clock m now r → Reach now r

abbrev pub IsGood : ℕ → Master → Type 0
IsGood clock m = IsConsistent m × IsTimely clock m

init-IsGood : IsGood 0 init
unfolding init
init-IsGood = (
  record {
    started = omega arith;
    filed = record {
      interval = λ t. 0;
      listed = λ t q. ground arith;
      timed = λ t i. ground arith;
      node = λ t k e. absurd (ground arith);
    };
    watched = record {
      reader = λ fd. 0;
      writer = λ fd. 0;
      reads = λ t k e. absurd (ground arith);
      read_bit = λ fd b. absurd (ground arith);
      writes = λ t k e. absurd (ground arith);
      write_bit = λ fd b. absurd (ground arith);
    };
  },
  record {
    ascending = λ i. tt;
    bounded = λ t i h. absurd (omega arith);
    small = λ t i h. absurd (omega arith);
  },
)

Cancelled-IsGood :
    (clock t : ℕ) (m r : Master) (c : IsConsistent m) (k : known m t ≡ true)
    → Cancelled t m c k
    → cancel t m ≡ some r
    → IsTimely clock m
    → IsGood clock r
Cancelled-IsGood clock t m r c k a e h = elim (Bool-cases (in_use (m.thread t).type)) [
  | inl w ↦
      subst (IsGood clock) (some-injective _ _ (sym (a.result ∙ if_true (some a.r) none w) ∙ e))
        (a.consistent w, a.timely clock h)
  | inr w ↦ absurd (none-ne-some _ (sym (a.result ∙ if_false (some a.r) none w) ∙ e))
]

Step-IsGood : {clock now : ℕ} {m r : Master} → Step clock m now r → IsGood clock m → IsGood now r
Step-IsGood {clock} {m} (step_read func arg sock) (c, h) =
    let a = add_read-IsConsistent func arg sock m c in (a.0, a.3 clock h)
Step-IsGood {clock} {m} (step_write func arg sock) (c, h) =
    let a = add_write-IsConsistent func arg sock m c in (a.0, a.3 clock h)
Step-IsGood {clock} {now} {m} (step_timer func arg time now' order small) (c, h) = (
  add_timer-IsConsistent func arg time now' m c,
  add_timer-IsTimely func arg time now' clock m c order small h,
)
Step-IsGood {clock} {m} (step_event func arg val) (c, h) =
    (add_event-IsConsistent func arg val m c, add_event-IsTimely func arg val clock m c h)
Step-IsGood {clock} {m} {r} (step_cancel t k e) (c, h) =
    Cancelled-IsGood clock t m r c k (cancel-Cancelled t m c k) e h
Step-IsGood {clock} {m} (step_fetch rounds e) (c, h) =
    let a = fetch-FetchDone rounds m c in
    subst (λ (r : Option Thread × Master). IsGood clock r.1) (some-injective _ _ (sym a.result ∙ e))
      (a.consistent, a.timely clock h)

pub Reach-IsGood : {clock : ℕ} {m : Master} → Reach clock m → IsGood clock m
Reach-IsGood start = init-IsGood
Reach-IsGood (next r s) = Step-IsGood s (Reach-IsGood r)

-- In every reachable master select is asked about the input of a descriptor exactly where a thread
-- of the master waits to read it, and about its output exactly where one waits to write it; each
-- such thread is in its list once, and the number of descriptors that select is given covers them.
-- The times of the timers that are set do not go back and stay below 2^31 milliseconds, and a thread
-- that is cancelled is one of the master.
pub Reach-asked :
    {clock : ℕ} {m : Master}
    → Reach clock m
    → (fd : ℕ)
    → (m.readfd fd ≡ true → fd ≤ m.max_fd)
      × (m.readfd fd ≡ true
          → (t : ℕ) × (known m t ≡ true)
            × ((m.thread t).type ≡ thread_read)
            × ((m.thread t).u ≡ fd)
            × (count t (m.lists thread_read) ≡ 1))
      × ((t : ℕ)
          → known m t ≡ true
          → (m.thread t).type ≡ thread_read
          → m.readfd (m.thread t).u ≡ true)
      × (m.writefd fd ≡ true → fd ≤ m.max_fd)
      × (m.writefd fd ≡ true
          → (t : ℕ) × (known m t ≡ true)
            × ((m.thread t).type ≡ thread_write)
            × ((m.thread t).u ≡ fd)
            × (count t (m.lists thread_write) ≡ 1))
      × ((t : ℕ)
          → known m t ≡ true
          → (m.thread t).type ≡ thread_write
          → m.writefd (m.thread t).u ≡ true)
Reach-asked {m} reach fd = (
  (λ b. (c.watched.read_bit fd b).3),
  (λ b.
      let w = c.watched.read_bit fd b in
      (
        c.watched.reader fd,
        w.0,
        w.1,
        w.2,
        ground (arith, w, c.filed.listed (c.watched.reader fd) thread_read),
      )),
  (λ t k e. (c.watched.reads t k e).0),
  (λ b. (c.watched.write_bit fd b).3),
  (λ b.
      let w = c.watched.write_bit fd b in
      (
        c.watched.writer fd,
        w.0,
        w.1,
        w.2,
        ground (arith, w, c.filed.listed (c.watched.writer fd) thread_write),
      )),
  (λ t k e. (c.watched.writes t k e).0),
)
  where
    c : IsConsistent m
    c = (Reach-IsGood reach).0

bigger_lt : (a b : ℕ) → a < 2 ^ 31 → b < 2 ^ 31 → u32_is_bigger a b ≡ true → b < a
bigger_lt a b la lb e = ground arith

lt_bigger : (a b : ℕ) → a + 1 < 2 ^ 31 → b < a → u32_is_bigger a b ≡ true
lt_bigger a b la lt = ground arith

-- The loop looks at the first timer of each interval only, and that misses none: in a reachable
-- master without an event, where a timer has expired, a timer that has expired is handed out. The
-- clock starts at 0, does not go back from one timer that is set to the next, and stays below
-- 2^31 - 1 milliseconds with the times of the timers, so that it does not wrap; and a thread that is
-- cancelled is one of the master.
pub expired_timer-pending :
    {clock : ℕ} {m : Master} (now x : ℕ)
    → Reach clock m
    → now + 1 < 2 ^ 31
    → head (m.lists thread_event) ≡ 0
    → known m x ≡ true
    → (m.thread x).type ≡ thread_timer
    → (m.thread x).u < now
    → (th : Thread) × (r : Master) × (pending now m ≡ (some th, r))
      × (th.type ≡ thread_timer)
      × (th.u < now)
expired_timer-pending {clock} {m} now x reach small none_first k e expired = elim p.choice [
  | event some_event o ↦ absurd (omega arith)
  | timer t no_event known_t type bigger o ↦
      let held : 0 < count t (m.timers (c.filed.interval t)) =
        ground (arith, c.filed.timed t (c.filed.interval t)) in
      (
        m.thread t,
        p.r,
        p.result ∙ ap (λ (y : Option Thread). (y, p.r)) o,
        type,
        bigger_lt now (m.thread t).u (omega arith) (h.small t (c.filed.interval t) held)
            (subst (λ y. u32_is_bigger y (m.thread t).u ≡ true) same bigger),
      )
  | later no_event none_due o ↦ absurd (missed none_due)
]
  where
    c : IsConsistent m
    c = (Reach-IsGood reach).0

    h : IsTimely clock m
    h = (Reach-IsGood reach).1

    p : Pended now m
    p = pending-Pended now m c

    same : to_u32 now ≡ now
    same = ground arith

    i : ℕ
    i = c.filed.interval x

    held_x : 0 < count x (m.timers i)
    held_x = ground (arith, c.filed.timed x i)

    pos : 0 < head (m.timers i)
    pos = head_nonnull x (m.timers i) held_x (ground (arith, c.filed.timed 0 i))

    missed :
        ((i : ℕ)
          → 0 < count i m.intervals
          → 0 < head (m.timers i)
          → u32_is_bigger (to_u32 now) (m.thread (head (m.timers i))).u ≡ false)
        → ⊥
    missed none_due =
        let first = head_first (λ y. (m.thread y).u) (m.timers i) x (h.ascending i) held_x in
        let over = lt_bigger now (m.thread (head (m.timers i))).u small (omega arith) in
        let not_over =
          subst (λ y. u32_is_bigger y (m.thread (head (m.timers i))).u ≡ false) same
            (none_due i (c.filed.node x k e) pos) in
        ground (arith, not_over, over)
