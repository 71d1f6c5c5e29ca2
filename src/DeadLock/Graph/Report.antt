-- ===== src/DeadLock/Graph/Report.antt =====
-- _check_dead_lock_stub on the two tables.
use algorithm.Common.{
  ℕ, ◌≤◌, ◌≡◌, refl, ap, Bool, true, Option, none, some, List, [], length, arith, number_by, ◌∷◌,
}
use algorithm.DeadLock.{ReqLock, Monitor, req_key}
use algorithm.DeadLock.Graph.{check_dead_lock}
use algorithm.DeadLock.Graph.Check.{search_graph_lem}
use algorithm.DeadLock.Graph.Build.{waits, requests, build_lem}
use algorithm.DeadLock.Tables.{IsMonitor}

-- Threads, one at least, of whom each holds a lock that one of them waits for.
pub record DeadLock (m : Monitor) : Type 0 where
  pub within : ℕ → Bool
  pub thread : ℕ
  pub inside : within thread ≡ true
  pub circle :
      (y : ℕ) → within y ≡ true → (x : ℕ) × (within x ≡ true) × (1 ≤ waits m.belong m.apply x y)

requests_lem : (x : ℕ) (rs : List ReqLock) → requests x rs ≡ number_by req_key x rs
requests_lem x [] = refl
requests_lem x (r ∷ rs) = ground (arith, requests_lem x rs)

-- On the tables as the hooks keep them, with at most 50 requests, _check_dead_lock_stub ends, and
-- it reports a deadlock just where there are threads, one at least, of whom each holds a lock that
-- one of them waits for.
pub check_dead_lock_lem :
    (m : Monitor)
    → IsMonitor m
    → length m.apply ≤ 50
    → (b : Bool) × (check_dead_lock m ≡ some b) × (b ≡ true → DeadLock m) × (DeadLock m → b ≡ true)
unfolding check_dead_lock
check_dead_lock_lem m w h =
    let g = build_lem m.belong m.apply (λ x. omega (arith, requests_lem x m.apply, w.threads x)) in
    let found = search_graph_lem g.built (omega (arith, g.size, h)) in
    (
      found.0,
      ap (λ o. elim o as (λ x. Option Bool) [ none ↦ none | some r ↦ some r.0 ]) found.2,
      λ r.
          let c = found.3 r in
          record {
            within = c.within;
            thread = c.thread;
            inside = c.inside;
            circle = λ y s. let x = c.circle y s in (x.0, x.1, omega (arith, x.2, g.edges x.0 y));
          },
      λ d. found.4 (record {
        within = d.within;
        thread = d.thread;
        inside = d.inside;
        circle = λ y s. let x = d.circle y s in (x.0, x.1, omega (arith, x.2, g.edges x.0 y));
      }),
    )
