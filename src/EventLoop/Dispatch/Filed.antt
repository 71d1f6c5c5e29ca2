-- ===== src/EventLoop/Dispatch/Filed.antt =====
-- The lists of framework/zebra_epoll/cl_thread.c: which thread is in which list.
use algorithm.Common.{
  ℕ, suc, ◌<◌, ◌≡◌, ◌≢◌, List, [], ◌∷◌, arith, ltb, if◌then◌else◌, ◌==◌, ◌&&◌, true, count,
  count-append, refl, fun_ext, ap, ◌⊎◌, inl, inr, false, ◌≤◌, Bool-cases,
}
use algorithm.EventLoop.{
  Thread, Master, remove, head, list_del, list_add, list_add_tail, set_thread, set_type, trim_head,
  calloc_thread, get, retire, thread_unused,
}

-- How often the list `q` ought to hold the thread `t`.
abbrev pub filed : Master → ℕ → ℕ → ℕ
filed m t q = if ltb 0 t && ltb t m.next && ((m.thread t).type == q) then 1 else 0

abbrev pub IsFiled : Master → Type 0
IsFiled m = (t q : ℕ) → count t (m.lists q) ≡ filed m t q

-- The same for all threads but `t`.
abbrev pub IsFiledBut : ℕ → Master → Type 0
IsFiledBut t m = (x q : ℕ) → x ≢ t → count x (m.lists q) ≡ filed m x q

-- And `t`, a thread of the master, is in no list.
abbrev pub IsLoose : ℕ → Master → Type 0
IsLoose t m =
    (0 < t) × (t < m.next) × ((x q : ℕ) → count x (m.lists q) ≡ (if x == t then 0 else filed m x q))

pub count-remove :
    (x t : ℕ) (xs : List ℕ) → count x (remove t xs) ≡ (if x == t then 0 else count x xs)
count-remove x t [] = ground arith
count-remove x t (y ∷ ys) = ground (arith, count-remove x t ys)

pub but : (t : ℕ) (m : Master) → IsFiled m → IsFiledBut t m
but t m h x q ne = h x q

pub list_del-IsLoose :
    (t : ℕ) (m : Master) → 0 < t → t < m.next → IsFiledBut t m → IsLoose t (list_del t m)
unfolding list_del
list_del-IsLoose t m pos lt h =
    (pos, lt, λ x q. ground (arith, count-remove x t (m.lists q), h x q))

pub list_add-IsFiled :
    (t q : ℕ) (m : Master) → IsLoose t m → (m.thread t).type ≡ q → IsFiled (list_add t q m)
unfolding list_add
list_add-IsFiled t q m (pos, lt, h) e = λ x p. ground (arith, h x p)

pub list_add_tail-IsFiled :
    (t q : ℕ) (m : Master) → IsLoose t m → (m.thread t).type ≡ q → IsFiled (list_add_tail t q m)
unfolding list_add_tail
list_add_tail-IsFiled t q m (pos, lt, h) e =
    λ x p. ground (arith, h x p, count-append x (m.lists p) (t ∷ []))

pub set_thread-IsFiledBut :
    (t : ℕ) (v : Thread) (m : Master) → IsFiledBut t m → IsFiledBut t (set_thread t v m)
unfolding set_thread
set_thread-IsFiledBut t v m h = λ x q ne. ground (arith, h x q)

pub set_thread-IsLoose :
    (t : ℕ) (v : Thread) (m : Master) → IsLoose t m → IsLoose t (set_thread t v m)
unfolding set_thread
set_thread-IsLoose t v m (pos, lt, h) = (pos, lt, λ x q. ground (arith, h x q))

pub retire-IsFiled : (t : ℕ) (m : Master) → IsLoose t m → IsFiled (retire t m)
unfolding retire set_type set_thread
retire-IsFiled t m h =
    list_add-IsFiled t thread_unused (set_type t thread_unused m)
      (set_thread-IsLoose t (record (m.thread t) { type = thread_unused }) m h) (ground arith)

count_head : (xs : List ℕ) → 0 < head xs → 0 < count (head xs) xs
count_head [] pos = absurd (omega arith)
count_head (x ∷ xs) pos = ground arith

-- The head of a list is a thread of the list's type.
pub record Trimmed (q : ℕ) (m : Master) (t : ℕ) : Type 0 where
  pub lt : t < m.next
  pub type : (m.thread t).type ≡ q
  pub loose : IsLoose t (list_del t m)

pub trim_head-Trimmed :
    (q : ℕ) (m : Master) → IsFiled m → 0 < head (m.lists q) → Trimmed q m (head (m.lists q))
trim_head-Trimmed q m h pos = record { lt = known.0; type = known.1; loose = gone }
  where
    t : ℕ
    t = head (m.lists q)

    known : (t < m.next) × ((m.thread t).type ≡ q)
    known = ground (arith, h t q, count_head (m.lists q) pos)

    gone : IsLoose t (list_del t m)
    gone = list_del-IsLoose t m pos known.0 (but t m h)

head_nonnull : (t : ℕ) (xs : List ℕ) → 0 < count t xs → count 0 xs ≡ 0 → 0 < head xs
head_nonnull t [] some_t no_null = absurd (omega arith)
head_nonnull t (x ∷ xs) some_t no_null = ground arith

-- The list of a thread's type has a thread at its head.
pub head_of_type :
    (t q : ℕ) (m : Master)
    → IsFiled m
    → 0 < t
    → t < m.next
    → (m.thread t).type ≡ q
    → 0 < head (m.lists q)
head_of_type t q m h pos lt e =
    head_nonnull t (m.lists q) (ground (arith, h t q)) (ground (arith, h 0 q))

-- `m` with the thread `t` set up anew.
abbrev pub got : (t type func arg u next : ℕ) (lists : ℕ → List ℕ) → Master → Master
got t type func arg u next lists m = record m {
  thread =
      λ x. if x == t then record { type = type; func = func; arg = arg; u = u } else m.thread x;
  next = next;
  lists = lists;
}

-- What `get` gives: an unused thread or a new one, which is in no list.
pub record Got (type func arg : ℕ) (m : Master) : Type 0 where
  pub t : ℕ
  pub u : ℕ
  pub next : ℕ
  pub lists : ℕ → List ℕ
  pub result : get type func arg m ≡ (t, got t type func arg u next lists m)
  pub loose : IsLoose t (got t type func arg u next lists m)
  pub unused : t < m.next → (m.thread t).type ≡ thread_unused
  pub grows : m.next ≤ next
  pub only : (x : ℕ) → x < next → (x < m.next) ⊎ (x ≡ t)

module _ (type func arg : ℕ) (m : Master) (h : IsFiled m) where
  get-reused : 0 < head (m.lists thread_unused) → Got type func arg m
  unfolding get trim_head list_del set_thread
  get-reused pos = record {
    t = t;
    u = (m.thread t).u;
    next = m.next;
    lists = λ q. remove t (m.lists q);
    result = rw e (rw e refl);
    loose = (pos, trimmed.lt, λ x q. ground (arith, loose x q));
    unused = λ lt. trimmed.type;
    grows = omega arith;
    only = λ x lt. inl lt;
  }
    where
      t : ℕ
      t = head (m.lists thread_unused)

      e : (t == 0) ≡ false
      e = ground arith

      trimmed : Trimmed thread_unused m t
      trimmed = trim_head-Trimmed thread_unused m h pos

      loose : (x q : ℕ) → count x (remove t (m.lists q)) ≡ (if x == t then 0 else filed m x q)
      loose x q = trimmed.loose.2 x q

  get-new : 0 < m.next → head (m.lists thread_unused) ≡ 0 → Got type func arg m
  unfolding get trim_head calloc_thread set_thread
  get-new started none_left = record {
    t = m.next;
    u = 0;
    next = suc m.next;
    lists = m.lists;
    result = rw e (ap made (fun_ext same));
    loose = (started, omega arith, λ x q. ground (arith, h x q));
    unused = λ lt. absurd (omega arith);
    grows = omega arith;
    only = λ x lt. ground arith;
  }
    where
      e : (head (m.lists thread_unused) == 0) ≡ true
      e = ground arith

      zeroed : Thread
      zeroed = record { type = 0; func = 0; arg = 0; u = 0 }

      made : (ℕ → Thread) → ℕ × Master
      made f = (m.next, record m { thread = f; next = suc m.next })

      twice : ℕ → Thread
      twice x =
          if x == m.next
          then record {
            type = type;
            func = func;
            arg = arg;
            u = (if m.next == m.next then zeroed else m.thread m.next).u;
          }
          else if x == m.next
          then zeroed
          else m.thread x

      same : (x : ℕ) → twice x ≡ (got m.next type func arg 0 (suc m.next) m.lists m).thread x
      same x = ground arith

  pub get-Got : 0 < m.next → Got type func arg m
  get-Got started = elim (Bool-cases (head (m.lists thread_unused) == 0)) [
    | inl e ↦ get-new started (ground arith)
    | inr e ↦ get-reused (ground arith)
  ]
