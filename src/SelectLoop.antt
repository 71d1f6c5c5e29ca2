-- ===== src/SelectLoop.antt =====
-- framework/zebra/cl_thread.h and cl_thread.c: the event loop over select. Its threads and their
-- lists are those of the loop over epoll. Descriptors are watched by two sets, and the timers
-- wait in one list for each interval. A store through NULL is `none`.
pub mod Consistent
use algorithm.Common.{
  to_u32, ℕ, zero, suc, ◌+◌, ◌-◌, ◌^◌, Bool, true, false, ◌&&◌, not, Option, none, some, List, [],
  ◌∷◌, ◌++◌, ltb, ◌==◌, if◌then◌else◌, ◌||◌,
}
use algorithm.EventLoop.{
  Thread, remove, head, thread_unused, thread_read, thread_write, thread_timer, thread_event,
  thread_ready,
}

-- `cl_thread_master_t`, with the memory of the threads. `intervals` are the intervals of the nodes
-- of the list `timer`, of which each has its own, and `timers` gives the list of threads of the
-- node of an interval. A set of descriptors is its test.
pub record Master : Type 0 where
  pub thread : ℕ → Thread
  pub next : ℕ
  pub lists : ℕ → List ℕ
  pub intervals : List ℕ
  pub timers : ℕ → List ℕ
  pub readfd : ℕ → Bool
  pub writefd : ℕ → Bool
  pub max_fd : ℕ

-- FD_SET and FD_CLR
abbrev pub fd_put : Bool → ℕ → (ℕ → Bool) → ℕ → Bool
fd_put b fd s = λ x. if x == fd then b else s x

-- `stlc_list_del`: a link is in one list at most, and leaves that list.
pub list_del : ℕ → Master → Master
list_del t m = record m { lists = λ q. remove t (m.lists q); timers = λ i. remove t (m.timers i) }

pub list_add : ℕ → ℕ → Master → Master
list_add t q m = record m { lists = λ p. if p == q then t ∷ m.lists p else m.lists p }

pub list_add_tail : ℕ → ℕ → Master → Master
list_add_tail t q m = record m { lists = λ p. if p == q then m.lists p ++ t ∷ [] else m.lists p }

pub set_thread : ℕ → Thread → Master → Master
set_thread t v m = record m { thread = λ x. if x == t then v else m.thread x }

pub set_type : ℕ → ℕ → Master → Master
unfolding set_thread
set_type t q m = set_thread t (record (m.thread t) { type = q }) m

pub trim_head : ℕ → Master → ℕ × Master
unfolding list_del
trim_head q m = let t = head (m.lists q) in if t == 0 then (0, m) else (t, list_del t m)

-- `calloc` gives the next address.
pub get : ℕ → ℕ → ℕ → Master → ℕ × Master
unfolding trim_head set_thread
get type func arg m =
    let r = trim_head thread_unused m in
    let new : Thread = record { type = 0; func = 0; arg = 0; u = 0 } in
    let r1 =
      if r.0 == 0
      then (r.1.next, set_thread r.1.next new (record r.1 { next = suc r.1.next }))
      else r in
    (
      r1.0,
      set_thread r1.0 (record { type = type; func = func; arg = arg; u = (r1.1.thread r1.0).u })
          r1.1,
    )

pub set_u : ℕ → ℕ → Master → Master
unfolding set_thread
set_u t u m = set_thread t (record (m.thread t) { u = u }) m

-- The result is the new thread, 0 where the descriptor is watched for input.
pub add_read : ℕ → ℕ → ℕ → Master → ℕ × Master
unfolding get set_u list_add
add_read func arg sock m =
    let r = get thread_read func arg m in
    let m1 = set_u r.0 sock r.1 in
    if m.readfd sock then (0, m) else (
      r.0,
      list_add r.0 thread_read (record m1 {
        readfd = fd_put true sock m1.readfd;
        max_fd = if ltb m1.max_fd sock then sock else m1.max_fd;
      }),
    )

pub add_write : ℕ → ℕ → ℕ → Master → ℕ × Master
unfolding get set_u list_add
add_write func arg sock m =
    let r = get thread_write func arg m in
    let m1 = set_u r.0 sock r.1 in
    if m.writefd sock then (0, m) else (
      r.0,
      list_add r.0 thread_write (record m1 {
        writefd = fd_put true sock m1.writefd;
        max_fd = if ltb m1.max_fd sock then sock else m1.max_fd;
      }),
    )

abbrev pub has_interval : ℕ → List ℕ → Bool
has_interval i [] = false
has_interval i (x ∷ xs) = if x == i then true else has_interval i xs

-- `now` is what getmsec returns. A node is made where none has the interval.
pub add_timer : ℕ → ℕ → ℕ → ℕ → Master → ℕ × Master
unfolding get set_u
add_timer func arg timer now m =
    let r = get thread_timer func arg m in
    let m1 = set_u r.0 (to_u32 (now + timer)) r.1 in
    (
      r.0,
      record m1 {
        intervals =
            if has_interval timer m1.intervals then m1.intervals else m1.intervals ++ timer ∷ [];
        timers = λ i. if i == timer then m1.timers i ++ r.0 ∷ [] else m1.timers i;
      },
    )

pub add_event : ℕ → ℕ → ℕ → Master → ℕ × Master
unfolding get set_u list_add_tail
add_event func arg val m =
    let r = get thread_event func arg m in (r.0, list_add_tail r.0 thread_event (set_u r.0 val r.1))

-- The end of cl_thread_cancel, and of cl_thread_run.
pub retire : ℕ → Master → Master
unfolding set_type list_add
retire t m = list_add t thread_unused (set_type t thread_unused m)

pub cancel : ℕ → Master → Option Master
unfolding list_del retire
cancel t m =
    let v = m.thread t in
    if v.type == thread_read
    then (if m.readfd v.u
        then some (retire t (list_del t (record m { readfd = fd_put false v.u m.readfd })))
        else none)
    else if v.type == thread_write
    then (if m.writefd v.u
        then some (retire t (list_del t (record m { writefd = fd_put false v.u m.writefd })))
        else none)
    else if (v.type == thread_timer) || (v.type == thread_event) || (v.type == thread_ready)
    then some (retire t (list_del t m))
    else none

-- The loop of cl_thread_process_fd over the threads of the read list, with the set that select
-- leaves.
pub process_read : List ℕ → (ℕ → Bool) → Master → Option Master
unfolding list_del list_add set_type
process_read [] fdset m = some m
process_read (t ∷ ts) fdset m =
    let fd = (m.thread t).u in
    let m1 : Master = record m { readfd = fd_put false fd m.readfd } in
    let rest =
      process_read ts fdset (set_type t thread_ready (list_add t thread_ready (list_del t m1))) in
    let skip = process_read ts fdset m in
    if fdset fd then (if m.readfd fd then rest else none) else skip

-- The same over the write list.
pub process_write : List ℕ → (ℕ → Bool) → Master → Option Master
unfolding list_del list_add set_type
process_write [] fdset m = some m
process_write (t ∷ ts) fdset m =
    let fd = (m.thread t).u in
    let m1 : Master = record m { writefd = fd_put false fd m.writefd } in
    let rest =
      process_write ts fdset (set_type t thread_ready (list_add t thread_ready (list_del t m1))) in
    let skip = process_write ts fdset m in
    if fdset fd then (if m.writefd fd then rest else none) else skip

pub run : ℕ → Master → Thread × Master
unfolding retire
run t m = (m.thread t, retire t m)

-- `a` and `b` are below 2^32, and `(u_int32_t)a - (u_int32_t)b` wraps.
abbrev pub u32_is_bigger : ℕ → ℕ → Bool
u32_is_bigger a b = not (a == b) && ltb (to_u32 (a + 2 ^ 32 - b)) 0x7FFFFFFF

-- The loops over the nodes and over the threads of a node, of which it looks at the first: the
-- first head that has expired, or 0.
pub due : ℕ → List ℕ → Master → ℕ
due now [] m = 0
due now (i ∷ is) m =
    let t = head (m.timers i) in
    if t == 0 then due now is m else if u32_is_bigger now (m.thread t).u then t else due now is m

abbrev pub handed : Thread × Master → Option Thread × Master
handed r = (some r.0, r.1)

-- A round of the loop of cl_thread_fetch up to select: a thread that needs no waiting.
pub pending : ℕ → Master → Option Thread × Master
unfolding trim_head due run list_del
pending now m =
    let e = trim_head thread_event m in
    let t = due (to_u32 now) m.intervals m in
    let q = trim_head thread_ready m in
    if e.0 == 0
    then (if t == 0
        then (if q.0 == 0 then (none, m) else handed (run q.0 q.1))
        else handed (run t (list_del t m)))
    else handed (run e.0 e.1)

-- What select does in a round: the time of the tick, and the sets that it leaves.
pub record Round : Type 0 where
  pub now : ℕ
  pub readfd : ℕ → Bool
  pub writefd : ℕ → Bool

-- cl_thread_fetch. `some (none, m)` is that the rounds given ran out while it was waiting.
pub fetch : List Round → Master → Option (Option Thread × Master)
unfolding pending process_read process_write trim_head run
fetch [] m = some (none, m)
fetch (r ∷ rounds) m =
    let p = pending r.now m in
    elim p.0 [
      | some th ↦ some (some th, p.1)
      | none ↦ elim (process_read (p.1.lists thread_read) r.readfd p.1) [
        | none ↦ none
        | some m1 ↦ elim (process_write (m1.lists thread_write) r.writefd m1) [
          | none ↦ none
          | some m2 ↦
              let q = trim_head thread_ready m2 in
              let rest = fetch rounds m2 in if q.0 == 0 then rest else some (handed (run q.0 q.1))
        ]
      ]
    ]

pub init : Master
init = record {
  thread = λ t. record { type = 0; func = 0; arg = 0; u = 0 };
  next = 1;
  lists = λ q. [];
  intervals = [];
  timers = λ i. [];
  readfd = λ fd. false;
  writefd = λ fd. false;
  max_fd = 0;
}
