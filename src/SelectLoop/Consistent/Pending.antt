-- ===== src/SelectLoop/Consistent/Pending.antt =====
-- The part of cl_thread_fetch of framework/zebra/cl_thread.c before select: which thread it hands
-- out.
use algorithm.Common.{
  to_u32, ℕ, ◌<◌, ◌≡◌, ◌≢◌, inl, inr, true, false, Option, none, some, arith, ltb, if◌then◌else◌,
  ◌==◌, count, Bool-cases, refl, sym, ◌∙◌, ap, if_true, if_false, none-ne-some, subst,
}
use algorithm.EventLoop.{
  Thread, head, thread_read, thread_write, thread_timer, thread_event, thread_ready,
}
use algorithm.SelectLoop.{
  Master, trim_head, list_del, retire, run, u32_is_bigger, due, pending, handed,
}
use algorithm.SelectLoop.Consistent.{known, IsConsistent}
use algorithm.SelectLoop.Consistent.Filed.{head-type, timer_head-type}
use algorithm.SelectLoop.Consistent.Due.{Found, due-Found}
use algorithm.SelectLoop.Consistent.Timely.{IsTimely}
use algorithm.SelectLoop.Consistent.Cancel.{retire-IsConsistent, retire-IsTimely}

trim_head-found :
    (q : ℕ) (m : Master)
    → 0 < head (m.lists q)
    → trim_head q m ≡ (head (m.lists q), list_del (head (m.lists q)) m)
unfolding trim_head
trim_head-found q m pos =
    let some_head : (head (m.lists q) == 0) ≡ false = ground arith in
    if_false (0, m) (head (m.lists q), list_del (head (m.lists q)) m) some_head

pub trim_head-empty : (q : ℕ) (m : Master) → head (m.lists q) ≡ 0 → trim_head q m ≡ (0, m)
unfolding trim_head
trim_head-empty q m none_left =
    let no_head : (head (m.lists q) == 0) ≡ true = ground arith in
    if_true (0, m) (head (m.lists q), list_del (head (m.lists q)) m) no_head

-- The thread that goes first: the first event, else a timer that has expired at the head of its
-- list, else the head of the ready list.
pub data Choice (now : ℕ) (m : Master) (o : Option Thread) : Type 0 where
  event :
      0 < head (m.lists thread_event)
      → o ≡ some (m.thread (head (m.lists thread_event)))
      → Choice now m o
  timer :
      (t : ℕ)
      → head (m.lists thread_event) ≡ 0
      → known m t ≡ true
      → (m.thread t).type ≡ thread_timer
      → u32_is_bigger now (m.thread t).u ≡ true
      → o ≡ some (m.thread t)
      → Choice now m o
  later :
      head (m.lists thread_event) ≡ 0
      → ((i : ℕ)
          → 0 < count i m.intervals
          → 0 < head (m.timers i)
          → u32_is_bigger now (m.thread (head (m.timers i))).u ≡ false)
      → o ≡ (
          if head (m.lists thread_ready) == 0
          then none
          else some (m.thread (head (m.lists thread_ready))))
      → Choice now m o

pub record Pended (now : ℕ) (m : Master) : Type 0 where
  pub o : Option Thread
  pub r : Master
  pub result : pending now m ≡ (o, r)
  pub consistent : IsConsistent r
  pub choice : Choice (to_u32 now) m o
  pub quiet : o ≡ none → r ≡ m
  pub timely : (clock : ℕ) → IsTimely clock m → IsTimely clock r

-- Handing out the head of a list: the caller gets the thread, which is unused from then on.
pub record Run (q : ℕ) (m : Master) (t : ℕ) : Type 0 where
  pub trimmed : trim_head q m ≡ (t, list_del t m)
  pub result : run t (list_del t m) ≡ (m.thread t, retire t (list_del t m))
  pub consistent : IsConsistent (retire t (list_del t m))

pub head-Run :
    (q : ℕ) (m : Master)
    → IsConsistent m
    → q ≢ thread_read
    → q ≢ thread_write
    → 0 < head (m.lists q)
    → Run q m (head (m.lists q))
unfolding run list_del
head-Run q m c not_read not_write pos =
    let (k, e) = head-type q m c.filed pos in
    record {
      trimmed = trim_head-found q m pos;
      result = refl;
      consistent =
          retire-IsConsistent (head (m.lists q)) m c k (λ x. not_read (sym e ∙ x))
            (λ x. not_write (sym e ∙ x));
    }

module _ (now : ℕ) (m : Master) (c : IsConsistent m) where
  f : Found (to_u32 now) m.intervals m (due (to_u32 now) m.intervals m)
  f = due-Found (to_u32 now) m.intervals m

  abbrev t : ℕ
  t = due (to_u32 now) m.intervals m

  abbrev after : ℕ × Master → ℕ × Master → Option Thread × Master
  after e q =
      if e.0 == 0
      then (if t == 0
          then (if q.0 == 0 then (none, m) else handed (run q.0 q.1))
          else handed (run t (list_del t m)))
      else handed (run e.0 e.1)

  pending_lem : pending now m ≡ after (trim_head thread_event m) (trim_head thread_ready m)
  unfolding pending
  pending_lem = refl

  pending_event : 0 < head (m.lists thread_event) → Pended now m
  pending_event pos =
      let h = head-Run thread_event m c (λ x. omega arith) (λ x. omega arith) pos in
      let some_head : (head (m.lists thread_event) == 0) ≡ false = ground arith in
      record {
        o = some (m.thread (head (m.lists thread_event)));
        r = retire (head (m.lists thread_event)) (list_del (head (m.lists thread_event)) m);
        result =
            pending_lem
            ∙ ap (λ e. after e (trim_head thread_ready m)) h.trimmed
            ∙ if_false _ _ some_head
            ∙ ap handed h.result;
        consistent = h.consistent;
        choice = event pos refl;
        timely = λ clock h. retire-IsTimely (head (m.lists thread_event)) clock m h;
        quiet = λ e. absurd (none-ne-some _ (sym e));
      }

  module _ (no_event : head (m.lists thread_event) ≡ 0) where
    emptied : pending now m ≡ (
        if t == 0
        then (if (trim_head thread_ready m).0 == 0
            then (none, m)
            else handed (run (trim_head thread_ready m).0 (trim_head thread_ready m).1))
        else handed (run t (list_del t m)))
    emptied =
        pending_lem
        ∙ ap (λ e. after e (trim_head thread_ready m)) (trim_head-empty thread_event m no_event)

    pending_timer : 0 < t → Pended now m
    unfolding run list_del
    pending_timer pos =
        let (i, at_head, bigger) = f.node pos in
        let h = timer_head-type i m c.filed (ground (arith, at_head)) in
        let k : (known m t ≡ true) × ((m.thread t).type ≡ thread_timer) =
          subst (λ x. (known m x ≡ true) × ((m.thread x).type ≡ thread_timer)) at_head h in
        let some_timer : (t == 0) ≡ false = ground arith in
        record {
          o = some (m.thread t);
          r = retire t (list_del t m);
          result = emptied ∙ if_false _ _ some_timer;
          consistent =
              retire-IsConsistent t m c k.0 (λ x. omega (arith, k.1)) (λ x. omega (arith, k.1));
          choice = timer t no_event k.0 k.1 bigger refl;
          timely = λ clock h. retire-IsTimely (t) clock m h;
          quiet = λ e. absurd (none-ne-some _ (sym e));
        }

    module _ (none_due : t ≡ 0) where
      no_timer : (t == 0) ≡ true
      no_timer = ground arith

      to_ready : pending now m ≡ (
          if (trim_head thread_ready m).0 == 0
          then (none, m)
          else handed (run (trim_head thread_ready m).0 (trim_head thread_ready m).1))
      to_ready = emptied ∙ if_true _ _ no_timer

      abbrev step : ℕ × Master → Option Thread × Master
      step q = if q.0 == 0 then (none, m) else handed (run q.0 q.1)

      pending_ready : 0 < head (m.lists thread_ready) → Pended now m
      pending_ready pos =
          let h = head-Run thread_ready m c (λ x. omega arith) (λ x. omega arith) pos in
          let some_head : (head (m.lists thread_ready) == 0) ≡ false = ground arith in
          record {
            o = some (m.thread (head (m.lists thread_ready)));
            r = retire (head (m.lists thread_ready)) (list_del (head (m.lists thread_ready)) m);
            result = to_ready ∙ ap step h.trimmed ∙ if_false _ _ some_head ∙ ap handed h.result;
            consistent = h.consistent;
            choice = later no_event (f.none_due none_due) (sym (if_false none _ some_head));
            timely = λ clock h. retire-IsTimely (head (m.lists thread_ready)) clock m h;
            quiet = λ e. absurd (none-ne-some _ (sym e));
          }

      pending_none : head (m.lists thread_ready) ≡ 0 → Pended now m
      pending_none none_left =
          let no_head : (head (m.lists thread_ready) == 0) ≡ true = ground arith in
          record {
            o = none;
            r = m;
            result = to_ready ∙ ap step (trim_head-empty thread_ready m none_left);
            consistent = c;
            choice = later no_event (f.none_due none_due) (sym (if_true none _ no_head));
            quiet = λ e. refl;
            timely = λ clock h. h;
          }

  -- What is handed out before any waiting is the first event; without one, a timer that has expired
  -- and stands at the head of its list; and where no head has expired, the head of the ready list
  -- or nothing. The data stay consistent.
  pub pending-Pended : Pended now m
  pending-Pended = elim (Bool-cases (ltb 0 (head (m.lists thread_event)))) [
    | inl e ↦ pending_event (ground arith)
    | inr e ↦ elim (Bool-cases (ltb 0 t)) [
      | inl d ↦ pending_timer (ground arith) (ground arith)
      | inr d ↦ elim (Bool-cases (ltb 0 (head (m.lists thread_ready)))) [
        | inl q ↦ pending_ready (ground arith) (ground arith) (ground arith)
        | inr q ↦ pending_none (ground arith) (ground arith) (ground arith)
      ]
    ]
  ]
