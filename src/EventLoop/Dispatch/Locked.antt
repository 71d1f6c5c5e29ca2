-- ===== src/EventLoop/Dispatch/Locked.antt =====
-- cl_thread_fetch_lock of framework/zebra_epoll/cl_thread.c: the loop of a master that other
-- threads add timers to. The Boolean is whether the mutex of the master is held.
use algorithm.Common.{
  ℕ, ◌≡◌, Bool, true, false, Option, none, some, List, [], ◌∷◌, if◌then◌else◌, ◌==◌, ◌∙◌, ap, refl,
}
use algorithm.MinHeap.{TimeHeap}
use algorithm.EventLoop.{Thread, Master, trim_head, list_del, thread_event, thread_ready}
use algorithm.EventLoop.Dispatch.{EpollEvent, run, heap_tick, pending, handed, do_events, fetch}
use algorithm.EventLoop.Dispatch.Fetch.{Rounds}

-- `pthread_mutex_lock`: where the mutex is held the caller blocks, `none`.
abbrev pub mutex_lock : Bool → Option Bool
mutex_lock held = if held then none else some true

abbrev pub mutex_unlock : Bool → Bool
mutex_unlock held = false

abbrev pub with_mutex : Bool → Option Thread × Master → Option Thread × Master × Bool
with_mutex held r = (r.0, r.1, held)

-- The part before epoll_wait: the tick and what it hands out are under the mutex.
pub pending_lock : ℕ → Master → Bool → Option (Option Thread × Master × Bool)
unfolding trim_head heap_tick run list_del
pending_lock now m held =
    let e = trim_head thread_event m in
    if e.0 == 0
    then (elim (mutex_lock held) [
      | none ↦ none
      | some locked ↦ elim (heap_tick now m.heap) [
        | none ↦ none
        | some r ↦
            let m1 : Master = record m { heap = r.1 } in
            let q = trim_head thread_ready m1 in
            let free = mutex_unlock locked in
            if r.0 == 0
            then (if q.0 == 0
                then some (none, m1, free)
                else some (with_mutex free (handed (run q.0 q.1))))
            else some (with_mutex free (handed (run r.0 (list_del r.0 m1))))
      ]
    ])
    else some (with_mutex held (handed (run e.0 e.1)))

pub fetch_lock : Rounds → Master → Bool → Option (Option Thread × Master × Bool)
unfolding pending_lock do_events trim_head run
fetch_lock [] m held = some (none, m, held)
fetch_lock ((now, evs) ∷ rounds) m held = elim (pending_lock now m held) [
  | none ↦ none
  | some (some th, m1, h) ↦ some (some th, m1, h)
  | some (none, m1, h) ↦ elim (do_events evs m1) [
    | none ↦ none
    | some m2 ↦
        let q = trim_head thread_ready m2 in
        let rest = fetch_lock rounds m2 h in
        if q.0 == 0 then rest else some (with_mutex h (handed (run q.0 q.1)))
  ]
]

abbrev pub released : Option (Option Thread × Master) → Option (Option Thread × Master × Bool)
released o = elim o [ none ↦ none | some r ↦ some (with_mutex false r) ]

-- `released` goes inside a test.
released-if :
    (b : Bool) (x y : Option (Option Thread × Master))
    {u v : Option (Option Thread × Master × Bool)}
    → u ≡ released x
    → v ≡ released y
    → (if b then u else v) ≡ released (if b then x else y)
released-if true x y p q = p
released-if false x y p q = q

module _ (m : Master) where
  abbrev after_tick : Option (ℕ × TimeHeap) → Option (Option Thread × Master)
  after_tick o = elim o [
    | none ↦ none
    | some r ↦
        let m1 : Master = record m { heap = r.1 } in
        let q = trim_head thread_ready m1 in
        if r.0 == 0
        then (if q.0 == 0 then some (none, m1) else some (handed (run q.0 q.1)))
        else some (handed (run r.0 (list_del r.0 m1)))
  ]

  abbrev after_tick_lock : Option (ℕ × TimeHeap) → Option (Option Thread × Master × Bool)
  after_tick_lock o = elim o [
    | none ↦ none
    | some r ↦
        let m1 : Master = record m { heap = r.1 } in
        let q = trim_head thread_ready m1 in
        if r.0 == 0
        then (if q.0 == 0
            then some (none, m1, false)
            else some (with_mutex false (handed (run q.0 q.1))))
        else some (with_mutex false (handed (run r.0 (list_del r.0 m1))))
  ]

  after_tick-released : (o : Option (ℕ × TimeHeap)) → after_tick_lock o ≡ released (after_tick o)
  after_tick-released none = refl
  after_tick-released (some r) =
      released-if (r.0 == 0) _ _
        (released-if ((trim_head thread_ready (record m { heap = r.1 })).0 == 0) _ _ refl refl) refl

  pending_lock-released : (now : ℕ) → pending_lock now m false ≡ released (pending now m)
  unfolding pending_lock pending
  pending_lock-released now =
      released-if ((trim_head thread_event m).0 == 0) _ _
        (after_tick-released (heap_tick now m.heap)) refl

module _ (evs : List EpollEvent) (rounds : Rounds)
    (rest : (m : Master) → fetch_lock rounds m false ≡ released (fetch rounds m)) where
  abbrev after_events : Option Master → Option (Option Thread × Master)
  after_events o = elim o [
    | none ↦ none
    | some m2 ↦
        let q = trim_head thread_ready m2 in
        if q.0 == 0 then fetch rounds m2 else some (handed (run q.0 q.1))
  ]

  abbrev after_events_lock : Option Master → Option (Option Thread × Master × Bool)
  after_events_lock o = elim o [
    | none ↦ none
    | some m2 ↦
        let q = trim_head thread_ready m2 in
        if q.0 == 0
        then fetch_lock rounds m2 false
        else some (with_mutex false (handed (run q.0 q.1)))
  ]

  after_events-released : (o : Option Master) → after_events_lock o ≡ released (after_events o)
  after_events-released none = refl
  after_events-released (some m2) =
      released-if ((trim_head thread_ready m2).0 == 0) _ _ (rest m2) refl

  abbrev after_pending : Option (Option Thread × Master) → Option (Option Thread × Master)
  after_pending o = elim o [
    | none ↦ none
    | some (some th, m1) ↦ some (some th, m1)
    | some (none, m1) ↦ after_events (do_events evs m1)
  ]

  abbrev after_pending_lock :
      Option (Option Thread × Master × Bool) → Option (Option Thread × Master × Bool)
  after_pending_lock o = elim o [
    | none ↦ none
    | some (some th, m1, h) ↦ some (some th, m1, h)
    | some (none, m1, h) ↦ elim (do_events evs m1) [
      | none ↦ none
      | some m2 ↦
          let q = trim_head thread_ready m2 in
          if q.0 == 0 then fetch_lock rounds m2 h else some (with_mutex h (handed (run q.0 q.1)))
    ]
  ]

  after_pending-released :
      (o : Option (Option Thread × Master))
      → after_pending_lock (released o) ≡ released (after_pending o)
  after_pending-released none = refl
  after_pending-released (some (some th, m1)) = refl
  after_pending-released (some (none, m1)) = after_events-released (do_events evs m1)

  fetch_lock_step :
      (now : ℕ) (m : Master)
      → fetch_lock ((now, evs) ∷ rounds) m false ≡ released (fetch ((now, evs) ∷ rounds) m)
  unfolding fetch_lock fetch
  fetch_lock_step now m =
      ap after_pending_lock (pending_lock-released m now) ∙ after_pending-released (pending now m)

-- With a free mutex the fetch that locks does what the one without a mutex does: it never blocks,
-- it hands out the same thread and leaves the same master, and the mutex is free again, whichever
-- way it returns.
pub fetch_lock-fetch :
    (rounds : Rounds) (m : Master) → fetch_lock rounds m false ≡ released (fetch rounds m)
unfolding fetch_lock fetch
fetch_lock-fetch [] m = refl
fetch_lock-fetch ((now, evs) ∷ rounds) m =
    fetch_lock_step evs rounds (fetch_lock-fetch rounds) now m
