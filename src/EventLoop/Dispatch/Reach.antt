-- ===== src/EventLoop/Dispatch/Reach.antt =====
-- The masters that the operations of framework/zebra_epoll/cl_thread.c lead to, in any order.
use algorithm.Common.{
  ℕ, ◌<◌, ◌≤◌, ◌≡◌, inl, inr, Bool, true, false, Option, none, some, arith, if◌then◌else◌, ◌==◌,
  Bool-cases, ◌∙◌, refl, sym, subst, some-injective, count, none-ne-some, if_true, if_false,
}
use algorithm.MinHeap.{Memory}
use algorithm.MinHeap.Invariant.{init-IsValid}
use algorithm.EventLoop.{
  Thread, Master, init, add_read, add_write, add_timer, add_event, thread_read, thread_write,
}
use algorithm.EventLoop.Unregister.{cancel}
use algorithm.EventLoop.Dispatch.{fetch}
use algorithm.EventLoop.Dispatch.Log.{
  registered, watches_in, watches_out, IsOrderly, watched_in-registered, watched_out-registered,
}
use algorithm.EventLoop.Dispatch.Invariant.{IsConsistent}
use algorithm.EventLoop.Dispatch.AddRead.{add_read-ReaderAdded}
use algorithm.EventLoop.Dispatch.AddWrite.{add_write-WriterAdded}
use algorithm.EventLoop.Dispatch.AddOther.{add_event-IsConsistent, add_timer-IsConsistent}
use algorithm.EventLoop.Dispatch.Cancel.{waits, Cancelled, cancel-Cancelled}
use algorithm.EventLoop.Dispatch.Fetch.{Rounds, AllKnown, fetch-Fetched}

-- A call by the program that has the master. A thread that it cancels is one of the master, and
-- epoll_wait answers about descriptors that the master knows.
pub data Step (m : Master) : Master → Type 0 where
  step_read :
      (func arg sock : ℕ) (persist : Bool) {r : ℕ × Master}
      → add_read func arg sock persist m ≡ some r
      → Step m r.1
  step_write :
      (func arg sock : ℕ) (persist : Bool) {r : ℕ × Master}
      → add_write func arg sock persist m ≡ some r
      → Step m r.1
  step_timer : (func arg timer now : ℕ) → Step m (add_timer func arg timer now m).1
  step_event : (func arg val : ℕ) → Step m (add_event func arg val m).1
  step_cancel : (t : ℕ) {r : Master} → 0 < t → t < m.next → cancel t m ≡ some r → Step m r
  step_fetch :
      (rounds : Rounds) {r : Option Thread × Master}
      → AllKnown m rounds
      → fetch rounds m ≡ some r
      → Step m r.1

-- What init needs of the memory: NULL is no live cell, and the cells from `next` on are fresh.
abbrev pub IsFresh : Memory → Type 0
IsFresh mem = (mem.live 0 ≡ false) × (0 < mem.next) × ((p : ℕ) → mem.next ≤ p → mem.live p ≡ false)

pub data Reach (mem : Memory) : Master → Type 0 where
  start : Reach mem (init mem)
  later : {m r : Master} → Reach mem m → Step m r → Reach mem r

init-IsConsistent : (mem : Memory) → IsFresh mem → IsConsistent (init mem)
unfolding init
init-IsConsistent mem (null, started, fresh) =
    let (valid, empty) = init-IsValid mem null started fresh in
    record {
      started = omega arith;
      filed = λ t q. ground arith;
      linked = record {
        descriptor = λ f j. absurd (ground arith);
        read_bit = λ f j. refl;
        write_bit = λ f j. refl;
        reader = λ f j p. absurd (omega arith);
        writer = λ f j p. absurd (omega arith);
        apart = λ f j p. absurd (omega arith);
        reads = λ t p l y. absurd (omega arith);
        writes = λ t p l y. absurd (omega arith);
        readies = λ t p l y. absurd (omega arith);
      };
      watched = record {
        orderly = tt;
        added = λ f j. refl;
        unknown = λ f j. refl;
        input = λ f j p. absurd (omega arith);
        output = λ f j p. absurd (omega arith);
      };
      timed = record {
        valid = valid;
        armed = λ t p l y. absurd (omega arith);
        owner = λ p q. absurd (omega (arith, empty p));
      };
    }

Cancelled-IsConsistent :
    (t : ℕ) (m r : Master) → Cancelled t m → cancel t m ≡ some r → IsConsistent r
Cancelled-IsConsistent t m r k e = elim (Bool-cases (waits (m.thread t).type)) [
  | inl w ↦
      subst IsConsistent (some-injective _ _ (sym (k.result ∙ if_true (some k.r) none w) ∙ e))
        (k.consistent w)
  | inr w ↦ absurd (none-ne-some _ (sym (k.result ∙ if_false (some k.r) none w) ∙ e))
]

Step-IsConsistent : {m r : Master} → Step m r → IsConsistent m → IsConsistent r
Step-IsConsistent {m} (step_read func arg sock persist e) c =
    let a = add_read-ReaderAdded func arg sock persist m c in
    subst (λ (r : ℕ × Master). IsConsistent r.1) (some-injective _ _ (sym a.result ∙ e))
      a.consistent
Step-IsConsistent {m} (step_write func arg sock persist e) c =
    let a = add_write-WriterAdded func arg sock persist m c in
    subst (λ (r : ℕ × Master). IsConsistent r.1) (some-injective _ _ (sym a.result ∙ e))
      a.consistent
Step-IsConsistent {m} (step_timer func arg timer now) c =
    add_timer-IsConsistent func arg timer now m c
Step-IsConsistent {m} (step_event func arg val) c = add_event-IsConsistent func arg val m c
Step-IsConsistent {m} {r} (step_cancel t pos lt e) c =
    Cancelled-IsConsistent t m r (cancel-Cancelled t m c pos lt) e
Step-IsConsistent {m} (step_fetch rounds k e) c =
    let a = fetch-Fetched rounds m c k in
    subst (λ (r : Option Thread × Master). IsConsistent r.1) (some-injective _ _ (sym a.result ∙ e))
      a.consistent

-- Whatever calls are made, in whatever order, the master stays consistent.
pub Reach-IsConsistent : {mem : Memory} {m : Master} → IsFresh mem → Reach mem m → IsConsistent m
Reach-IsConsistent {mem} fresh start = init-IsConsistent mem fresh
Reach-IsConsistent fresh (later r s) = Step-IsConsistent s (Reach-IsConsistent fresh r)

-- In every reachable master each thread is in the list of its type, once, and in no other list; and
-- a thread that waits to read or to write is the one that its descriptor names, and epoll, by the
-- calls made so far, has the descriptor and watches it for input or for output. A call that epoll
-- refuses counts for nothing, and none that adds or modifies a descriptor is refused. The memory is
-- fresh, a thread that is cancelled is one of the master, and epoll_wait answers about descriptors
-- that the master knows.
pub Reach-IsWatched :
    {mem : Memory} {m : Master}
    → IsFresh mem
    → Reach mem m
    → (t : ℕ) → 0 < t
    → t < m.next
    → ((q : ℕ) → count t (m.lists q) ≡ (if (m.thread t).type == q then 1 else 0))
      × ((m.thread t).type ≡ thread_read
          → ((m.socket (m.thread t).u).t_read ≡ t)
            × (registered m.ctls (m.thread t).u ≡ true)
            × (watches_in m.ctls (m.thread t).u ≡ true))
      × ((m.thread t).type ≡ thread_write
          → ((m.socket (m.thread t).u).t_write ≡ t)
            × (registered m.ctls (m.thread t).u ≡ true)
            × (watches_out m.ctls (m.thread t).u ≡ true))
      × IsOrderly m.ctls
Reach-IsWatched {m} fresh reach t pos lt = (
  (λ q. ground (arith, c.filed t q)),
  (λ e.
      let l = c.linked.reads t pos lt e in
      let w : watches_in m.ctls (m.thread t).u ≡ true =
        ground (arith, l, c.watched.input (m.thread t).u l.0) in
      (l.1, watched_in-registered m.ctls (m.thread t).u c.watched.orderly w, w)),
  (λ e.
      let l = c.linked.writes t pos lt e in
      let w : watches_out m.ctls (m.thread t).u ≡ true =
        ground (arith, l, c.watched.output (m.thread t).u l.0) in
      (l.1, watched_out-registered m.ctls (m.thread t).u c.watched.orderly w, w)),
  c.watched.orderly,
)
  where
    c : IsConsistent m
    c = Reach-IsConsistent fresh reach
