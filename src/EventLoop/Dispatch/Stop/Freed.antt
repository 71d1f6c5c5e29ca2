-- ===== src/EventLoop/Dispatch/Stop/Freed.antt =====
-- How often cl_thread_stop of framework/zebra_epoll/cl_thread.c frees a thread.
use algorithm.Common.{
  ℕ, ◌+◌, ◌<◌, ◌≡◌, ◌≢◌, ◌⊎◌, inl, inr, Bool, true, false, List, [], ◌∷◌, arith, ltb, if◌then◌else◌,
  ◌==◌, ◌||◌, bit, count, refl, Bool-cases, ◌∙◌, ap,
}
use algorithm.MinHeap.{time_head_free}
use algorithm.EventLoop.{
  Socket, Master, list_del, set_socket, epoll_ctl, thread_unused, thread_read, thread_write,
  thread_timer, thread_event, thread_ready,
}
use algorithm.EventLoop.Dispatch.Filed.{count-remove}
use algorithm.EventLoop.Dispatch.Invariant.{IsConsistent}
use algorithm.EventLoop.Dispatch.DoEvent.{HasSides}
use algorithm.EventLoop.Dispatch.Stop.{
  Stopping, free_thread, free_threads, free_all_thread, socket_free, rb_free, stop,
}

-- What freeing the threads of a list does.
pub record ListFreed (ts : List ℕ) (s r : Stopping) : Type 0 where
  pub freed : (t : ℕ) → count t r.freed ≡ count t ts + count t s.freed
  pub lists :
      (t q : ℕ)
      → count t (r.master.lists q) ≡ (if ltb 0 (count t ts) then 0 else count t (s.master.lists q))
  pub socket : r.master.socket ≡ s.master.socket

free_threads-ListFreed : (ts : List ℕ) (s : Stopping) → ListFreed ts s (free_threads ts s)
unfolding free_threads free_thread list_del
free_threads-ListFreed [] s = record {
  freed = λ t. omega arith;
  lists = λ t q. ground arith;
  socket = refl;
}
free_threads-ListFreed (x ∷ ts) s =
    let f : ListFreed ts (free_thread x s) (free_threads ts (free_thread x s)) =
      free_threads-ListFreed ts (free_thread x s) in
    record {
      freed = λ t. omega (arith, f.freed t);
      lists = λ t q. ground (arith, f.lists t q, count-remove t x (s.master.lists q));
      socket = f.socket;
    }

-- How often the sockets of the descriptors name a thread.
abbrev named : ℕ → Master → List ℕ → ℕ
named t m [] = 0
named t m (fd ∷ fds) =
    let v = m.socket fd in
    (if v.t_read == 0 then 0 else bit t v.t_read)
    + (if v.t_write == 0 then 0 else bit t v.t_write)
    + named t m fds

abbrev of_socket : ℕ → Bool
of_socket type = (type == thread_read) || (type == thread_write) || (type == thread_ready)

module _ (t fd : ℕ) (m : Master) (c : IsConsistent m) (k : m.in_tree fd ≡ true) (pos : 0 < t)
    (lt : t < m.next) where
  abbrev v : Socket
  v = m.socket fd

  read_side :
      v.t_read ≡ t → (of_socket (m.thread t).type ≡ true) × ((m.thread t).u ≡ fd) × (v.t_write ≢ t)
  read_side e = ground (arith, c.linked.reader fd k, c.linked.apart fd k)

  write_side : v.t_write ≡ t → (of_socket (m.thread t).type ≡ true) × ((m.thread t).u ≡ fd)
  write_side e = ground (arith, c.linked.writer fd k)

  some_side :
      of_socket (m.thread t).type ≡ true → (m.thread t).u ≡ fd → (v.t_read ≡ t) ⊎ (v.t_write ≡ t)
  some_side o e =
      ground (arith, c.linked.reads t pos lt, c.linked.writes t pos lt, c.linked.readies t pos lt)

  one_side :
      (if v.t_read == 0 then 0 else bit t v.t_read)
        + (if v.t_write == 0 then 0 else bit t v.t_write)
      ≡ (if of_socket (m.thread t).type then bit (m.thread t).u fd else 0)
  one_side = elim (Bool-cases (v.t_read == t)) [
    | inl a ↦ let r = read_side (ground arith) in ground arith
    | inr a ↦ elim (Bool-cases (v.t_write == t)) [
      | inl b ↦ let w = write_side (ground arith) in ground arith
      | inr b ↦ elim (Bool-cases (of_socket (m.thread t).type)) [
        | inr o ↦ ground arith
        | inl o ↦ elim (Bool-cases ((m.thread t).u == fd)) [
          | inr e ↦ ground arith
          | inl e ↦ absurd (ground (arith, some_side o (ground arith)))
        ]
      ]
    ]
  ]

add_if :
    (b : Bool) (a n x y : ℕ)
    → a ≡ (if b then x else 0)
    → n ≡ (if b then y else 0)
    → a + n ≡ (if b then x + y else 0)
add_if true a n x y p q = omega (arith, p, q)
add_if false a n x y p q = omega (arith, p, q)

named_lem :
    (t : ℕ) (m : Master) (fds : List ℕ)
    → IsConsistent m
    → ((fd : ℕ) → 0 < count fd fds → m.in_tree fd ≡ true)
    → 0 < t
    → t < m.next
    → named t m fds ≡ (if of_socket (m.thread t).type then count (m.thread t).u fds else 0)
named_lem t m [] c k pos lt = ground arith
named_lem t m (fd ∷ fds) c k pos lt =
    let rest = named_lem t m fds c (λ f h. k f (omega arith)) pos lt in
    let one = one_side t fd m c (k fd (ground arith)) pos lt in
    add_if (of_socket (m.thread t).type) _ _ _ _ one rest

abbrev hits : ℕ → Socket → ℕ
hits t v =
    (if v.t_read == 0 then 0 else bit t v.t_read) + (if v.t_write == 0 then 0 else bit t v.t_write)

socket_free_lem :
    (t fd : ℕ) (s : Stopping)
    → (count t (socket_free fd s).freed ≡ hits t (s.master.socket fd) + count t s.freed)
      × HasSides s.master (socket_free fd s).master
unfolding socket_free free_thread list_del set_socket epoll_ctl
socket_free_lem t fd s = (ground arith, λ f. ground arith)

-- The sockets are freed with the threads that they name, the freed ones, too.
rb_free_lem :
    (t : ℕ) (m : Master) (fds : List ℕ) (s : Stopping)
    → HasSides m s.master
    → count t (rb_free fds s).freed ≡ named t m fds + count t s.freed
unfolding rb_free
rb_free_lem t m [] s h = omega arith
rb_free_lem t m (fd ∷ fds) s h =
    let s0 : Stopping = record s {
      master = record s.master { in_tree = λ x. if x == fd then false else s.master.in_tree x };
    } in
    let (f, k) = socket_free_lem t fd s0 in
    let rest =
      rb_free_lem t m fds (socket_free fd s0) (λ x. ((k x).0 ∙ (h x).0, (k x).1 ∙ (h x).1)) in
    ground (arith, f, rest, h fd)

module _ (fds : List ℕ) (m : Master) (c : IsConsistent m)
    (tree : (fd : ℕ) → count fd fds ≡ (if m.in_tree fd then 1 else 0)) (t : ℕ) (pos : 0 < t)
    (lt : t < m.next) where
  abbrev s0 : Stopping
  s0 = record { master = m; freed = []; freed_sockets = []; mem = m.heap.mem }

  abbrev s1 : Stopping
  s1 = free_all_thread thread_event s0

  abbrev s2 : Stopping
  s2 = free_all_thread thread_timer s1

  abbrev s3 : Stopping
  s3 = free_all_thread thread_ready s2

  abbrev s4 : Stopping
  s4 = free_all_thread thread_unused s3

  all-ListFreed : (q : ℕ) (s : Stopping) → ListFreed (s.master.lists q) s (free_all_thread q s)
  unfolding free_all_thread
  all-ListFreed q s = free_threads-ListFreed (s.master.lists q) s

  abbrev type : ℕ
  type = (m.thread t).type

  -- The lists free a thread of theirs once.
  count_lists :
      count t s4.freed
      ≡ bit type thread_event
        + bit type thread_timer
        + bit type thread_ready
        + bit type thread_unused
  count_lists =
      let f1 = all-ListFreed thread_event s0 in
      let f2 = all-ListFreed thread_timer s1 in
      let f3 = all-ListFreed thread_ready s2 in
      let f4 = all-ListFreed thread_unused s3 in
      ground (
        arith,
        f1.freed t,
        f2.freed t,
        f3.freed t,
        f4.freed t,
        f1.lists t thread_timer,
        f1.lists t thread_ready,
        f1.lists t thread_unused,
        f2.lists t thread_ready,
        f2.lists t thread_unused,
        f3.lists t thread_unused,
        c.filed t thread_event,
        c.filed t thread_timer,
        c.filed t thread_ready,
        c.filed t thread_unused,
      )

  sides : HasSides m s4.master
  sides f =
      let e : s4.master.socket ≡ m.socket =
        (all-ListFreed thread_unused s3).socket
        ∙ (all-ListFreed thread_ready s2).socket
        ∙ (all-ListFreed thread_timer s1).socket
        ∙ (all-ListFreed thread_event s0).socket in
      (ap (λ (g : ℕ → Socket). (g f).t_read) e, ap (λ (g : ℕ → Socket). (g f).t_write) e)

  -- Stopping a consistent master frees each of its threads: once, but twice where the thread is
  -- ready, since the ready list and its descriptor both name it.
  pub stop-freed : type < 6 → count t (stop fds m).freed ≡ (if type == thread_ready then 2 else 1)
  unfolding stop
  stop-freed known = ground (
    arith,
    count_lists,
    rb_free_lem t m fds (record s4 { mem = time_head_free s4.master.heap }) sides,
    named_lem t m fds c (λ fd h. ground (arith, tree fd)) pos lt,
    tree (m.thread t).u,
    c.linked.reads t pos lt,
    c.linked.writes t pos lt,
    c.linked.readies t pos lt,
  )
