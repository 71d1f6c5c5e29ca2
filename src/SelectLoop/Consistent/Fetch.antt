-- ===== src/SelectLoop/Consistent/Fetch.antt =====
-- cl_thread_fetch of framework/zebra/cl_thread.c: its loop, over what select answers.
use algorithm.Common.{
  ℕ, ◌<◌, ◌≡◌, inl, inr, true, false, Option, none, some, List, [], ◌∷◌, arith, ltb, if◌then◌else◌,
  ◌==◌, ◌&&◌, ◌||◌, count, Bool-cases, Option-cases, refl, ◌∙◌, ap, if_false,
}
use algorithm.EventLoop.{Thread, head, thread_read, thread_write, thread_ready}
use algorithm.SelectLoop.{
  Master, Round, trim_head, list_del, retire, run, pending, handed, process_read, process_write,
  fetch,
}
use algorithm.SelectLoop.Consistent.{known, IsFiled, IsConsistent}
use algorithm.SelectLoop.Consistent.ProcessRead.{
  AreReaders, ReadProcessed, process_read-ReadProcessed,
}
use algorithm.SelectLoop.Consistent.ProcessWrite.{
  AreWriters, WriteProcessed, process_write-WriteProcessed,
}
use algorithm.SelectLoop.Consistent.Timely.{IsTimely}
use algorithm.SelectLoop.Consistent.Cancel.{retire-IsTimely}
use algorithm.SelectLoop.Consistent.Pending.{Pended, pending-Pended, head-Run, trim_head-empty}

readers : (m : Master) → IsFiled m → AreReaders (m.lists thread_read) m
readers m f x = ground (arith, f.listed x thread_read)

writers : (m : Master) → IsFiled m → AreWriters (m.lists thread_write) m
writers m f x = ground (arith, f.listed x thread_write)

-- What the answer of select makes of a master: the threads that it wakes are ready.
pub record Answered (a : Round) (m : Master) : Type 0 where
  pub m1 : Master
  pub r : Master
  pub read : process_read (m.lists thread_read) a.readfd m ≡ some m1
  pub write : process_write (m1.lists thread_write) a.writefd m1 ≡ some r
  pub consistent : IsConsistent r
  pub timely : (clock : ℕ) → IsTimely clock m → IsTimely clock r
  pub next : r.next ≡ m.next
  pub type :
      (x : ℕ)
      → known m x ≡ true
      → (r.thread x).type ≡ (
          if (((m.thread x).type == thread_read) && a.readfd (m.thread x).u)
            || (((m.thread x).type == thread_write) && a.writefd (m.thread x).u)
          then thread_ready
          else (m.thread x).type)

answered : (a : Round) (m : Master) → IsConsistent m → Answered a m
answered a m c =
    let p : ReadProcessed (m.lists thread_read) a.readfd m =
      process_read-ReadProcessed (m.lists thread_read) a.readfd m c (readers m c.filed) in
    let q : WriteProcessed (p.r.lists thread_write) a.writefd p.r =
      process_write-WriteProcessed (p.r.lists thread_write) a.writefd p.r p.consistent
        (writers p.r p.consistent.filed) in
    record {
      m1 = p.r;
      r = q.r;
      read = p.result;
      write = q.result;
      consistent = q.consistent;
      next = q.next ∙ p.next;
      timely = λ clock h. q.timely clock (p.timely clock h);
      type = λ x k. ground (
        arith,
        p.type x,
        q.type x,
        p.u x,
        p.next,
        c.filed.listed x thread_read,
        p.consistent.filed.listed x thread_write,
      );
    }

module _ (a : Round) (rounds : List Round) (m : Master) where
  abbrev after_trim : Master → ℕ × Master → Option (Option Thread × Master)
  after_trim m2 q = if q.0 == 0 then fetch rounds m2 else some (handed (run q.0 q.1))

  abbrev after_write : Option Master → Option (Option Thread × Master)
  after_write o = elim o [ none ↦ none | some m2 ↦ after_trim m2 (trim_head thread_ready m2) ]

  abbrev after_read : Option Master → Option (Option Thread × Master)
  after_read o = elim o [
    | none ↦ none
    | some m1 ↦ after_write (process_write (m1.lists thread_write) a.writefd m1)
  ]

  abbrev after_pending : Option Thread × Master → Option (Option Thread × Master)
  after_pending p = elim p.0 [
    | some th ↦ some (some th, p.1)
    | none ↦ after_read (process_read (p.1.lists thread_read) a.readfd p.1)
  ]

  fetch_step : fetch (a ∷ rounds) m ≡ after_pending (pending a.now m)
  unfolding fetch
  fetch_step = refl

  module _ (p : Pended a.now m) where
    at_once : (th : Thread) → p.o ≡ some th → fetch (a ∷ rounds) m ≡ some (some th, p.r)
    at_once th e = fetch_step ∙ ap after_pending (p.result ∙ ap (λ (o : Option Thread). (o, p.r)) e)

    waited :
        p.o ≡ none
        → (w : Answered a m) → fetch (a ∷ rounds) m ≡ after_trim w.r (trim_head thread_ready w.r)
    waited e w =
        fetch_step
        ∙ ap after_pending (
            p.result
            ∙ ap (λ (o : Option Thread). (o, p.r)) e
            ∙ ap (λ (r : Master). (none, r)) (p.quiet e))
        ∙ ap after_read w.read
        ∙ ap after_write w.write

  found :
      (p : Pended a.now m)
      → p.o ≡ none
      → (w : Answered a m) → 0 < head (w.r.lists thread_ready)
      → let t = head (w.r.lists thread_ready) in
        fetch (a ∷ rounds) m ≡ some (some (w.r.thread t), retire t (list_del t w.r))
  found p e w pos =
      let h = head-Run thread_ready w.r w.consistent (λ x. omega arith) (λ x. omega arith) pos in
      let some_head : (head (w.r.lists thread_ready) == 0) ≡ false = ground arith in
      waited p e w
      ∙ ap (after_trim w.r) h.trimmed
      ∙ if_false _ _ some_head
      ∙ ap (λ (x : Thread × Master). some (handed x)) h.result

-- What a fetch gives.
pub record FetchDone (rounds : List Round) (m : Master) : Type 0 where
  pub o : Option Thread
  pub r : Master
  pub result : fetch rounds m ≡ some (o, r)
  pub consistent : IsConsistent r
  pub timely : (clock : ℕ) → IsTimely clock m → IsTimely clock r

-- Fetching fails no assertion, whatever the times and the answers of select are, and keeps the data
-- consistent.
pub fetch-FetchDone : (rounds : List Round) (m : Master) → IsConsistent m → FetchDone rounds m
unfolding fetch
fetch-FetchDone [] m c = record {
  o = none;
  r = m;
  result = refl;
  consistent = c;
  timely = λ clock h. h;
}
fetch-FetchDone (a ∷ rounds) m c =
    let p : Pended a.now m = pending-Pended a.now m c in
    let w : Answered a m = answered a m c in
    let rest : FetchDone rounds w.r = fetch-FetchDone rounds w.r w.consistent in
    elim (Option-cases p.o) [
      | inr (th, e) ↦ record {
        o = some th;
        r = p.r;
        result = at_once a rounds m p th e;
        consistent = p.consistent;
        timely = p.timely;
      }
      | inl e ↦ elim (Bool-cases (ltb 0 (head (w.r.lists thread_ready)))) [
        | inl y ↦ record {
          o = some (w.r.thread (head (w.r.lists thread_ready)));
          r = retire (head (w.r.lists thread_ready)) (list_del (head (w.r.lists thread_ready)) w.r);
          result = found a rounds m p e w (ground arith);
          timely = λ clock h.
              retire-IsTimely (head (w.r.lists thread_ready)) clock w.r (w.timely clock h);
          consistent =
              (head-Run thread_ready w.r w.consistent (λ x. omega arith) (λ x. omega arith)
                (ground arith)).consistent;
        }
        | inr n ↦ record {
          o = rest.o;
          r = rest.r;
          result =
              waited a rounds m p e w
              ∙ ap (after_trim a rounds m w.r) (trim_head-empty thread_ready w.r (ground arith))
              ∙ rest.result;
          consistent = rest.consistent;
          timely = λ clock h. rest.timely clock (w.timely clock h);
        }
      ]
    ]

pub head_nonnull : (t : ℕ) (xs : List ℕ) → 0 < count t xs → count 0 xs ≡ 0 → 0 < head xs
head_nonnull t [] some_t no_null = absurd (omega arith)
head_nonnull t (x ∷ xs) some_t no_null = ground arith

-- A fetch returns a thread in its next round if select wakes one: a thread that waits for input on
-- a descriptor that select has left in the first set, or for output on one of the second.
pub fetch_wakes :
    (a : Round) (rounds : List Round) (m : Master) (x : ℕ)
    → IsConsistent m
    → known m x ≡ true
    → (((m.thread x).type == thread_read) && a.readfd (m.thread x).u)
        || (((m.thread x).type == thread_write) && a.writefd (m.thread x).u)
      ≡ true
    → (th : Thread) × (r : Master) × (fetch (a ∷ rounds) m ≡ some (some th, r))
fetch_wakes a rounds m x c k y =
    let p : Pended a.now m = pending-Pended a.now m c in
    let w : Answered a m = answered a m c in
    let pos : 0 < head (w.r.lists thread_ready) =
      head_nonnull x (w.r.lists thread_ready)
        (ground (arith, w.type x k, w.next, w.consistent.filed.listed x thread_ready))
        (ground (arith, w.consistent.filed.listed 0 thread_ready)) in
    elim (Option-cases p.o) [
      | inr (th, e) ↦ (th, p.r, at_once a rounds m p th e)
      | inl e ↦ (
        w.r.thread (head (w.r.lists thread_ready)),
        retire (head (w.r.lists thread_ready)) (list_del (head (w.r.lists thread_ready)) w.r),
        found a rounds m p e w pos,
      )
    ]
