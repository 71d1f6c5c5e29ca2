-- ===== src/SelectLoop/Consistent/Filed.antt =====
-- The lists of framework/zebra/cl_thread.c: a thread that moves from one to another.
use algorithm.Common.{
  ℕ, suc, ◌<◌, ◌≤◌, ◌≡◌, ◌≢◌, ◌⊎◌, inl, inr, true, false, List, [], ◌∷◌, arith, if◌then◌else◌, ◌==◌,
  count, refl, fun_ext, ap, Bool-cases,
}
use algorithm.EventLoop.{Thread, remove, head, thread_unused, thread_timer}
use algorithm.EventLoop.Dispatch.Filed.{count-remove}
use algorithm.SelectLoop.{Master, list_del, list_add, set_thread, set_type, trim_head, get, retire}
use algorithm.SelectLoop.Consistent.{known, IsFiled}

-- A thread that leaves its list and becomes unused.
pub retire-IsFiled :
    (t : ℕ) (m : Master) → IsFiled m → known m t ≡ true → IsFiled (retire t (list_del t m))
unfolding retire set_type set_thread list_add list_del
retire-IsFiled t m f k = record {
  interval = f.interval;
  listed = λ x q. ground (arith, f.listed x q, count-remove x t (m.lists q));
  timed = λ x i. ground (arith, f.timed x i, count-remove x t (m.timers i));
  node = λ x l e. ground (arith, f.node x l);
}

-- A thread that goes to the list of another type.
pub move-IsFiled :
    (t q : ℕ) (m : Master)
    → IsFiled m
    → known m t ≡ true
    → q ≢ thread_timer
    → IsFiled (set_type t q (list_add t q (list_del t m)))
unfolding set_type set_thread list_add list_del
move-IsFiled t q m f k other = record {
  interval = f.interval;
  listed = λ x p. ground (arith, f.listed x p, count-remove x t (m.lists p));
  timed = λ x i. ground (arith, f.timed x i, count-remove x t (m.timers i));
  node = λ x l e. ground (arith, f.node x l);
}

count_head : (xs : List ℕ) → 0 < head xs → 0 < count (head xs) xs
count_head [] pos = absurd (omega arith)
count_head (x ∷ xs) pos = ground arith

pub head-type :
    (q : ℕ) (m : Master)
    → IsFiled m
    → 0 < head (m.lists q)
    → (known m (head (m.lists q)) ≡ true) × ((m.thread (head (m.lists q))).type ≡ q)
head-type q m f pos = ground (arith, f.listed (head (m.lists q)) q, count_head (m.lists q) pos)

pub timer_head-type :
    (i : ℕ) (m : Master)
    → IsFiled m
    → 0 < head (m.timers i)
    → (known m (head (m.timers i)) ≡ true) × ((m.thread (head (m.timers i))).type ≡ thread_timer)
timer_head-type i m f pos =
    ground (arith, f.timed (head (m.timers i)) i, count_head (m.timers i) pos)

-- `m` with the thread `t` set up anew.
abbrev pub got :
    (t type func arg u next : ℕ) (lists : ℕ → List ℕ) (timers : ℕ → List ℕ) → Master → Master
got t type func arg u next lists timers m = record m {
  thread =
      λ x. if x == t then record { type = type; func = func; arg = arg; u = u } else m.thread x;
  next = next;
  lists = lists;
  timers = timers;
}

-- What `get` gives: an unused thread or a new one, which is in no list.
pub record Got (type func arg : ℕ) (m : Master) (f : IsFiled m) : Type 0 where
  pub t : ℕ
  pub u : ℕ
  pub next : ℕ
  pub lists : ℕ → List ℕ
  pub timers : ℕ → List ℕ
  pub result : get type func arg m ≡ (t, got t type func arg u next lists timers m)
  pub pos : 0 < t
  pub lt : t < next
  pub unused : t < m.next → (m.thread t).type ≡ thread_unused
  pub grows : m.next ≤ next
  pub only : (x : ℕ) → x < next → (x < m.next) ⊎ (x ≡ t)
  pub listed : (x q : ℕ) → count x (lists q) ≡ (if x == t then 0 else count x (m.lists q))
  pub timed : (x i : ℕ) → count x (timers i) ≡ (if x == t then 0 else count x (m.timers i))
  pub kept : (timers ≡ m.timers) ⊎ (timers ≡ (λ i. remove t (m.timers i)))

module _ (type func arg : ℕ) (m : Master) (f : IsFiled m) where
  get-reused : 0 < head (m.lists thread_unused) → Got type func arg m f
  unfolding get trim_head list_del set_thread
  get-reused pos = record {
    t = t;
    u = (m.thread t).u;
    next = m.next;
    lists = λ q. remove t (m.lists q);
    timers = λ i. remove t (m.timers i);
    result = rw e (rw e refl);
    pos = pos;
    lt = ground (arith, h);
    unused = λ lt. h.1;
    grows = omega arith;
    only = λ x lt. inl lt;
    listed = λ x q. count-remove x t (m.lists q);
    timed = λ x i. count-remove x t (m.timers i);
    kept = inr refl;
  }
    where
      t : ℕ
      t = head (m.lists thread_unused)

      e : (t == 0) ≡ false
      e = ground arith

      h : (known m t ≡ true) × ((m.thread t).type ≡ thread_unused)
      h = head-type thread_unused m f pos

  get-new : 0 < m.next → head (m.lists thread_unused) ≡ 0 → Got type func arg m f
  unfolding get trim_head set_thread
  get-new started none_left = record {
    t = m.next;
    u = 0;
    next = suc m.next;
    lists = m.lists;
    timers = m.timers;
    result = rw e (ap made (fun_ext same));
    pos = started;
    lt = omega arith;
    unused = λ lt. absurd (omega arith);
    grows = omega arith;
    only = λ x lt. ground arith;
    listed = λ x q. ground (arith, f.listed x q);
    timed = λ x i. ground (arith, f.timed x i);
    kept = inl refl;
  }
    where
      e : (head (m.lists thread_unused) == 0) ≡ true
      e = ground arith

      zeroed : Thread
      zeroed = record { type = 0; func = 0; arg = 0; u = 0 }

      made : (ℕ → Thread) → ℕ × Master
      made g = (m.next, record m { thread = g; next = suc m.next })

      twice : ℕ → Thread
      twice x =
          if x == m.next
          then record {
            type = type;
            func = func;
            arg = arg;
            u = (if m.next == m.next then zeroed else m.thread m.next).u;
          }
          else if x == m.next
          then zeroed
          else m.thread x

      same :
          (x : ℕ) → twice x ≡ (got m.next type func arg 0 (suc m.next) m.lists m.timers m).thread x
      same x = ground arith

  pub get-Got : 0 < m.next → Got type func arg m f
  get-Got started = elim (Bool-cases (head (m.lists thread_unused) == 0)) [
    | inl e ↦ get-new started (ground arith)
    | inr e ↦ get-reused (ground arith)
  ]
