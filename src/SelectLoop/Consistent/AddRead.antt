-- ===== src/SelectLoop/Consistent/AddRead.antt =====
-- cl_thread_add_read of framework/zebra/cl_thread.c.
use algorithm.Common.{
  ℕ, ◌≡◌, inl, inr, true, false, arith, ltb, if◌then◌else◌, ◌==◌, Bool-cases, subst, sym, if_true,
  if_false, ap, ◌∙◌,
}
use algorithm.EventLoop.{thread_read}
use algorithm.SelectLoop.{Master, add_read, get, set_u, set_thread, list_add, fd_put}
use algorithm.SelectLoop.Consistent.{IsFiled, IsWatched, IsConsistent}
use algorithm.SelectLoop.Consistent.Timely.{IsTimely, less-IsTimely}
use algorithm.SelectLoop.Consistent.Filed.{Got, get-Got, got}

module _ (func arg sock : ℕ) (m : Master) (c : IsConsistent m) (free : m.readfd sock ≡ false)
    (g : Got thread_read func arg m c.filed) where
  abbrev with_u : Master
  with_u = set_u g.t sock (got g.t thread_read func arg g.u g.next g.lists g.timers m)

  abbrev after : Master
  after = list_add g.t thread_read (record with_u {
    readfd = fd_put true sock with_u.readfd;
    max_fd = if ltb with_u.max_fd sock then sock else with_u.max_fd;
  })

  after-IsFiled : IsFiled after
  unfolding set_u set_thread list_add
  after-IsFiled = record {
    interval = c.filed.interval;
    listed =
        λ x q. ground (arith, g.listed x q, c.filed.listed x q, g.only x, g.pos, g.lt, g.grows);
    timed = λ x i. ground (arith, g.timed x i, c.filed.timed x i, g.only x, g.grows);
    node = λ x l e. ground (arith, c.filed.node x, g.only x);
  }

  after-IsWatched : IsWatched after
  unfolding set_u set_thread list_add
  after-IsWatched = record {
    reader = λ fd. if fd == sock then g.t else c.watched.reader fd;
    writer = c.watched.writer;
    reads = λ x l e. ground (arith, c.watched.reads x, g.only x, free);
    read_bit = λ fd b. ground (arith, c.watched.read_bit fd, g.unused, g.pos, g.lt, g.grows);
    writes = λ x l e. ground (arith, c.watched.writes x, g.only x);
    write_bit = λ fd b. ground (arith, c.watched.write_bit fd, g.unused, g.grows);
  }

  after-IsConsistent : IsConsistent after
  unfolding set_u set_thread list_add
  after-IsConsistent = record {
    started = omega (arith, c.started, g.grows);
    filed = after-IsFiled;
    watched = after-IsWatched;
  }

  after-IsTimely : (clock : ℕ) → IsTimely clock m → IsTimely clock after
  unfolding set_u set_thread list_add
  after-IsTimely clock h =
      less-IsTimely clock g.t m after g.kept (λ x i l. ground (arith, g.timed x i)) h

-- What adding a reader keeps and gives.
abbrev pub Kept : ℕ → Master → ℕ × Master → Type 0
Kept sock m r =
    IsConsistent r.1
    × ((r.0 == 0) ≡ m.readfd sock)
    × (r.1.readfd sock ≡ true)
    × ((clock : ℕ) → IsTimely clock m → IsTimely clock r.1)

-- Adding a reader keeps the data consistent. It is refused, and nothing changes, exactly where the
-- descriptor is watched for input already; else the descriptor is watched from then on.
pub add_read-IsConsistent :
    (func arg sock : ℕ) (m : Master) → IsConsistent m → Kept sock m (add_read func arg sock m)
unfolding add_read
add_read-IsConsistent func arg sock m c = elim (Bool-cases (m.readfd sock)) [
  | inl e ↦
      subst (Kept sock m) (sym (if_true (0, m) (finish (get thread_read func arg m)) e))
        (c, sym e, e, λ clock h. h)
  | inr e ↦
      subst (Kept sock m)
        (sym (if_false (0, m) (finish (get thread_read func arg m)) e ∙ ap finish g.result))
        (
          after-IsConsistent func arg sock m c e g,
          ground (arith, g.pos),
          ground arith,
          after-IsTimely func arg sock m c e g,
        )
]
  where
    g : Got thread_read func arg m c.filed
    g = get-Got thread_read func arg m c.filed c.started

    finish : ℕ × Master → ℕ × Master
    finish r =
        let m1 = set_u r.0 sock r.1 in
        (
          r.0,
          list_add r.0 thread_read (record m1 {
            readfd = fd_put true sock m1.readfd;
            max_fd = if ltb m1.max_fd sock then sock else m1.max_fd;
          }),
        )
