-- ===== src/SelectLoop/Consistent/Locked.antt =====
-- cl_thread_fetch_lock of framework/zebra/cl_thread.c. The Boolean is whether the mutex of the
-- master is held.
use algorithm.Common.{
  to_u32, ℕ, ◌≡◌, Bool, true, false, Option, none, some, List, [], ◌∷◌, if◌then◌else◌, ◌==◌, ◌∙◌,
  ap, refl,
}
use algorithm.EventLoop.{Thread, thread_read, thread_write, thread_event, thread_ready}
use algorithm.EventLoop.Dispatch.Locked.{mutex_lock, mutex_unlock}
use algorithm.SelectLoop.{
  Master, Round, trim_head, list_del, run, due, handed, pending, process_read, process_write, fetch,
}

abbrev pub with_mutex : Bool → Option Thread × Master → Option Thread × Master × Bool
with_mutex held r = (r.0, r.1, held)

-- The part before select: the loops over the timers, and what they hand out, are under the mutex.
pub pending_lock : ℕ → Master → Bool → Option (Option Thread × Master × Bool)
unfolding trim_head due run list_del
pending_lock now m held =
    let e = trim_head thread_event m in
    let t = due (to_u32 now) m.intervals m in
    let q = trim_head thread_ready m in
    if e.0 == 0
    then (elim (mutex_lock held) [
      | none ↦ none
      | some locked ↦
          let free = mutex_unlock locked in
          if t == 0
          then (if q.0 == 0
              then some (none, m, free)
              else some (with_mutex free (handed (run q.0 q.1))))
          else some (with_mutex free (handed (run t (list_del t m))))
    ])
    else some (with_mutex held (handed (run e.0 e.1)))

pub fetch_lock : List Round → Master → Bool → Option (Option Thread × Master × Bool)
unfolding pending_lock process_read process_write trim_head run
fetch_lock [] m held = some (none, m, held)
fetch_lock (r ∷ rounds) m held = elim (pending_lock r.now m held) [
  | none ↦ none
  | some (some th, m0, h) ↦ some (some th, m0, h)
  | some (none, m0, h) ↦ elim (process_read (m0.lists thread_read) r.readfd m0) [
    | none ↦ none
    | some m1 ↦ elim (process_write (m1.lists thread_write) r.writefd m1) [
      | none ↦ none
      | some m2 ↦
          let q = trim_head thread_ready m2 in
          let rest = fetch_lock rounds m2 h in
          if q.0 == 0 then rest else some (with_mutex h (handed (run q.0 q.1)))
    ]
  ]
]

abbrev pub released : Option (Option Thread × Master) → Option (Option Thread × Master × Bool)
released o = elim o [ none ↦ none | some r ↦ some (with_mutex false r) ]

-- `released` goes inside a test.
released_if :
    (b : Bool) (x y : Option (Option Thread × Master))
    {u v : Option (Option Thread × Master × Bool)}
    → u ≡ released x
    → v ≡ released y
    → (if b then u else v) ≡ released (if b then x else y)
released_if true x y p q = p
released_if false x y p q = q

some_if :
    (b : Bool) (x y : Option Thread × Master) {u v : Option (Option Thread × Master × Bool)}
    → u ≡ some (with_mutex false x)
    → v ≡ some (with_mutex false y)
    → (if b then u else v) ≡ some (with_mutex false (if b then x else y))
some_if true x y p q = p
some_if false x y p q = q

pending_lock-released :
    (now : ℕ) (m : Master) → pending_lock now m false ≡ some (with_mutex false (pending now m))
unfolding pending_lock pending
pending_lock-released now m =
    some_if ((trim_head thread_event m).0 == 0) _ _
      (some_if (due (to_u32 now) m.intervals m == 0) _ _
        (some_if ((trim_head thread_ready m).0 == 0) _ _ refl refl) refl)
      refl

module _ (r : Round) (rounds : List Round)
    (rest : (m : Master) → fetch_lock rounds m false ≡ released (fetch rounds m)) where
  abbrev after_write : Option Master → Option (Option Thread × Master)
  after_write o = elim o [
    | none ↦ none
    | some m2 ↦
        let q = trim_head thread_ready m2 in
        if q.0 == 0 then fetch rounds m2 else some (handed (run q.0 q.1))
  ]

  abbrev after_write_lock : Bool → Option Master → Option (Option Thread × Master × Bool)
  after_write_lock h o = elim o [
    | none ↦ none
    | some m2 ↦
        let q = trim_head thread_ready m2 in
        if q.0 == 0 then fetch_lock rounds m2 h else some (with_mutex h (handed (run q.0 q.1)))
  ]

  after_write-released : (o : Option Master) → after_write_lock false o ≡ released (after_write o)
  after_write-released none = refl
  after_write-released (some m2) =
      released_if ((trim_head thread_ready m2).0 == 0) _ _ (rest m2) refl

  abbrev after_read : Option Master → Option (Option Thread × Master)
  after_read o = elim o [
    | none ↦ none
    | some m1 ↦ after_write (process_write (m1.lists thread_write) r.writefd m1)
  ]

  abbrev after_read_lock : Bool → Option Master → Option (Option Thread × Master × Bool)
  after_read_lock h o = elim o [
    | none ↦ none
    | some m1 ↦ after_write_lock h (process_write (m1.lists thread_write) r.writefd m1)
  ]

  after_read-released : (o : Option Master) → after_read_lock false o ≡ released (after_read o)
  after_read-released none = refl
  after_read-released (some m1) =
      after_write-released (process_write (m1.lists thread_write) r.writefd m1)

  abbrev after_pending : Option Thread × Master → Option (Option Thread × Master)
  after_pending p = elim p.0 [
    | some th ↦ some (some th, p.1)
    | none ↦ after_read (process_read (p.1.lists thread_read) r.readfd p.1)
  ]

  abbrev after_pending_lock :
      Option (Option Thread × Master × Bool) → Option (Option Thread × Master × Bool)
  after_pending_lock o = elim o [
    | none ↦ none
    | some (some th, m0, h) ↦ some (some th, m0, h)
    | some (none, m0, h) ↦ after_read_lock h (process_read (m0.lists thread_read) r.readfd m0)
  ]

  after_pending-released :
      (p : Option Thread × Master)
      → after_pending_lock (some (with_mutex false p)) ≡ released (after_pending p)
  after_pending-released (some th, m0) = refl
  after_pending-released (none, m0) =
      after_read-released (process_read (m0.lists thread_read) r.readfd m0)

  fetch_lock_step : (m : Master) → fetch_lock (r ∷ rounds) m false ≡ released (fetch (r ∷ rounds) m)
  unfolding fetch_lock fetch
  fetch_lock_step m =
      ap after_pending_lock (pending_lock-released r.now m)
      ∙ after_pending-released (pending r.now m)

-- With a free mutex the fetch that locks never blocks, hands out the same thread as the one without
-- a mutex, leaves the same master, and returns with the mutex free.
pub fetch_lock_lem :
    (rounds : List Round) (m : Master) → fetch_lock rounds m false ≡ released (fetch rounds m)
unfolding fetch_lock fetch
fetch_lock_lem [] m = refl
fetch_lock_lem (r ∷ rounds) m = fetch_lock_step r rounds (fetch_lock_lem rounds) m
