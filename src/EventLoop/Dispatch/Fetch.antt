-- ===== src/EventLoop/Dispatch/Fetch.antt =====
-- cl_thread_fetch of framework/zebra_epoll/cl_thread.c: its loop, over the answers of the world.
use algorithm.Common.{
  ℕ, ◌<◌, ◌≡◌, inl, inr, true, false, Option, none, some, List, [], ◌∷◌, arith, ltb, if◌then◌else◌,
  ◌==◌, Bool-cases, Option-cases, ◌∙◌, ap, refl, if_false,
}
use algorithm.EventLoop.{Thread, Socket, Master, head, trim_head, thread_ready}
use algorithm.EventLoop.Dispatch.{EpollEvent, run, pending, handed, do_events, fetch}
use algorithm.EventLoop.Dispatch.Filed.{trim_head-Trimmed, head_of_type}
use algorithm.EventLoop.Dispatch.Trim.{trim_head-found, trim_head-empty}
use algorithm.EventLoop.Dispatch.Invariant.{IsConsistent}
use algorithm.EventLoop.Dispatch.DoEvent.{HasSides}
use algorithm.EventLoop.Dispatch.DoEvents.{
  AreKnown, AreKnown-same, AllReported, do_events-AllReported, reports, reports-same,
}
use algorithm.EventLoop.Dispatch.Handout.{HandedOut, run-HandedOut}
use algorithm.EventLoop.Dispatch.Pending.{Pended, pending-Pended}

abbrev pub Rounds : Type 0
Rounds = List (ℕ × List EpollEvent)

-- Every event is of a descriptor that the master knows.
abbrev pub AllKnown : Master → Rounds → Type 0
AllKnown m [] = Unit
AllKnown m (round ∷ rounds) = AreKnown m round.1 × AllKnown m rounds

AllKnown-same :
    (m r : Master) (rounds : Rounds) → r.in_tree ≡ m.in_tree → AllKnown m rounds → AllKnown r rounds
AllKnown-same m r [] e k = tt
AllKnown-same m r (round ∷ rounds) e k =
    (AreKnown-same m r round.1 e k.0, AllKnown-same m r rounds e k.1)

-- What a fetch gives.
pub record Fetched (rounds : Rounds) (m : Master) : Type 0 where
  pub o : Option Thread
  pub r : Master
  pub result : fetch rounds m ≡ some (o, r)
  pub consistent : IsConsistent r
  pub in_tree : r.in_tree ≡ m.in_tree

module _ (now : ℕ) (evs : List EpollEvent) (rounds : Rounds) (m : Master) where
  abbrev after_trim : Master → ℕ × Master → Option (Option Thread × Master)
  after_trim m2 q = if q.0 == 0 then fetch rounds m2 else some (handed (run q.0 q.1))

  abbrev after_events : Option Master → Option (Option Thread × Master)
  after_events o = elim o [ none ↦ none | some m2 ↦ after_trim m2 (trim_head thread_ready m2) ]

  abbrev after_pending : Option (Option Thread × Master) → Option (Option Thread × Master)
  after_pending o = elim o [
    | none ↦ none
    | some (some th, m1) ↦ some (some th, m1)
    | some (none, m1) ↦ after_events (do_events evs m1)
  ]

  fetch_step : fetch ((now, evs) ∷ rounds) m ≡ after_pending (pending now m)
  unfolding fetch
  fetch_step = refl

  module _ (p : Pended now m) where
    -- A thread that needs no waiting.
    at_once : (th : Thread) → p.o ≡ some th → fetch ((now, evs) ∷ rounds) m ≡ some (some th, p.r)
    at_once th e =
        fetch_step ∙ ap after_pending (p.result ∙ ap (λ (o : Option Thread). some (o, p.r)) e)

    -- Otherwise epoll_wait answers.
    waited :
        p.o ≡ none
        → (a : AllReported evs p.r)
        → fetch ((now, evs) ∷ rounds) m ≡ after_trim a.r (trim_head thread_ready a.r)
    waited e a =
        fetch_step
        ∙ ap after_pending (p.result ∙ ap (λ (o : Option Thread). some (o, p.r)) e)
        ∙ ap after_events a.result

    module _ (e : p.o ≡ none) (a : AllReported evs p.r)
        (pos : 0 < head (a.r.lists thread_ready)) where
      abbrev t : ℕ
      t = head (a.r.lists thread_ready)

      out : HandedOut t a.r
      out =
          let trimmed = trim_head-Trimmed thread_ready a.r a.consistent.filed pos in
          run-HandedOut t a.r a.consistent pos trimmed.lt trimmed.type

      some_head : (t == 0) ≡ false
      some_head = ground arith

      found : fetch ((now, evs) ∷ rounds) m ≡ some (some (a.r.thread t), out.r)
      found =
          waited e a
          ∙ ap (after_trim a.r) (trim_head-found thread_ready a.r pos)
          ∙ if_false _ _ some_head
          ∙ ap (λ (x : Thread × Master). some (handed x)) out.result

  -- The rest of the loop, where the round has no thread to hand out.
  go_on :
      (p : Pended now m)
      → p.o ≡ none
      → (a : AllReported evs p.r) → head (a.r.lists thread_ready) ≡ 0
      → Fetched rounds a.r
      → Fetched ((now, evs) ∷ rounds) m
  go_on p e a no_ready f = record {
    o = f.o;
    r = f.r;
    result =
        waited p e a ∙ ap (after_trim a.r) (trim_head-empty thread_ready a.r no_ready) ∙ f.result;
    consistent = f.consistent;
    in_tree = f.in_tree ∙ a.in_tree ∙ p.in_tree;
  }

  hand_out :
      (p : Pended now m)
      → p.o ≡ none
      → (a : AllReported evs p.r) → 0 < head (a.r.lists thread_ready)
      → Fetched ((now, evs) ∷ rounds) m
  hand_out p e a pos =
      let h = out p e a pos in
      record {
        o = some (a.r.thread (head (a.r.lists thread_ready)));
        r = h.r;
        result = found p e a pos;
        consistent = h.consistent;
        in_tree = h.in_tree ∙ a.in_tree ∙ p.in_tree;
      }

  hand_at_once : (p : Pended now m) (th : Thread) → p.o ≡ some th → Fetched ((now, evs) ∷ rounds) m
  hand_at_once p th e = record {
    o = some th;
    r = p.r;
    result = at_once p th e;
    consistent = p.consistent;
    in_tree = p.in_tree;
  }

-- With consistent data and answers of epoll_wait about descriptors that the master knows, fetching
-- fails no assertion, whatever the times and the answers are, and keeps the data consistent.
pub fetch-Fetched :
    (rounds : Rounds) (m : Master) → IsConsistent m → AllKnown m rounds → Fetched rounds m
unfolding fetch
fetch-Fetched [] m c k = record { o = none; r = m; result = refl; consistent = c; in_tree = refl }
fetch-Fetched ((now, evs) ∷ rounds) m c k =
    let p : Pended now m = pending-Pended now m c in
    let a : AllReported evs p.r =
      do_events-AllReported evs p.r p.consistent (AreKnown-same m p.r evs p.in_tree k.0) in
    let rest : Fetched rounds a.r =
      fetch-Fetched rounds a.r a.consistent
        (AllKnown-same m a.r rounds (a.in_tree ∙ p.in_tree) k.1) in
    elim (Option-cases p.o) [
      | inr (th, e) ↦ hand_at_once now evs rounds m p th e
      | inl e ↦ elim (Bool-cases (ltb 0 (head (a.r.lists thread_ready)))) [
        | inl y ↦ hand_out now evs rounds m p e a (ground arith)
        | inr n ↦ go_on now evs rounds m p e a (ground arith) rest
      ]
    ]

-- A fetch whose next answer of epoll_wait reports a thread that waits returns a thread: it does
-- not go on waiting.
pub fetch_returns :
    (now : ℕ) (evs : List EpollEvent) (rounds : Rounds) (m : Master)
    → IsConsistent m
    → AreKnown m evs
    → reports evs m ≡ true
    → (th : Thread) × (r : Master) × (fetch ((now, evs) ∷ rounds) m ≡ some (some th, r))
fetch_returns now evs rounds m c k y =
    let p : Pended now m = pending-Pended now m c in
    let a : AllReported evs p.r =
      do_events-AllReported evs p.r p.consistent (AreKnown-same m p.r evs p.in_tree k) in
    elim (Option-cases p.o) [
      | inr (th, e) ↦ (th, p.r, at_once now evs rounds m p th e)
      | inl e ↦
          let sides : HasSides m p.r = λ f. (
            ap (λ (g : ℕ → Socket). (g f).t_read) (p.quiet e).0,
            ap (λ (g : ℕ → Socket). (g f).t_write) (p.quiet e).0,
          ) in
          let (t, w) = a.woken (reports-same evs m p.r sides ∙ y) in
          let pos = head_of_type t thread_ready a.r a.consistent.filed w.0 w.1 w.2 in
          (
            a.r.thread (head (a.r.lists thread_ready)),
            (out now evs rounds m p e a pos).r,
            found now evs rounds m p e a pos,
          )
    ]
