-- ===== src/SelectLoop/Consistent/AddWrite.antt =====
-- cl_thread_add_write of framework/zebra/cl_thread.c.
use algorithm.Common.{
  ℕ, ◌≡◌, inl, inr, true, false, arith, ltb, if◌then◌else◌, ◌==◌, Bool-cases, subst, sym, if_true,
  if_false, ap, ◌∙◌,
}
use algorithm.EventLoop.{thread_write}
use algorithm.SelectLoop.{Master, add_write, get, set_u, set_thread, list_add, fd_put}
use algorithm.SelectLoop.Consistent.{IsFiled, IsWatched, IsConsistent}
use algorithm.SelectLoop.Consistent.Timely.{IsTimely, less-IsTimely}
use algorithm.SelectLoop.Consistent.Filed.{Got, get-Got, got}

module _ (func arg sock : ℕ) (m : Master) (c : IsConsistent m) (free : m.writefd sock ≡ false)
    (g : Got thread_write func arg m c.filed) where
  abbrev with_u : Master
  with_u = set_u g.t sock (got g.t thread_write func arg g.u g.next g.lists g.timers m)

  abbrev after : Master
  after = list_add g.t thread_write (record with_u {
    writefd = fd_put true sock with_u.writefd;
    max_fd = if ltb with_u.max_fd sock then sock else with_u.max_fd;
  })

  after-IsFiled : IsFiled after
  unfolding set_u set_thread list_add
  after-IsFiled = record {
    interval = c.filed.interval;
    listed =
        λ x q. ground (arith, g.listed x q, c.filed.listed x q, g.only x, g.pos, g.lt, g.grows);
    timed = λ x i. ground (arith, g.timed x i, c.filed.timed x i, g.only x, g.grows);
    node = λ x l e. ground (arith, c.filed.node x, g.only x);
  }

  after-IsWatched : IsWatched after
  unfolding set_u set_thread list_add
  after-IsWatched = record {
    writer = λ fd. if fd == sock then g.t else c.watched.writer fd;
    reader = c.watched.reader;
    writes = λ x l e. ground (arith, c.watched.writes x, g.only x, free);
    write_bit = λ fd b. ground (arith, c.watched.write_bit fd, g.unused, g.pos, g.lt, g.grows);
    reads = λ x l e. ground (arith, c.watched.reads x, g.only x);
    read_bit = λ fd b. ground (arith, c.watched.read_bit fd, g.unused, g.grows);
  }

  after-IsConsistent : IsConsistent after
  unfolding set_u set_thread list_add
  after-IsConsistent = record {
    started = omega (arith, c.started, g.grows);
    filed = after-IsFiled;
    watched = after-IsWatched;
  }

  after-IsTimely : (clock : ℕ) → IsTimely clock m → IsTimely clock after
  unfolding set_u set_thread list_add
  after-IsTimely clock h =
      less-IsTimely clock g.t m after g.kept (λ x i l. ground (arith, g.timed x i)) h

-- What adding a writer keeps and gives.
abbrev pub Kept : ℕ → Master → ℕ × Master → Type 0
Kept sock m r =
    IsConsistent r.1
    × ((r.0 == 0) ≡ m.writefd sock)
    × (r.1.writefd sock ≡ true)
    × ((clock : ℕ) → IsTimely clock m → IsTimely clock r.1)

-- Adding a writer keeps the data consistent. It is refused, and nothing changes, exactly where the
-- descriptor is watched for output already; else the descriptor is watched from then on.
pub add_write-IsConsistent :
    (func arg sock : ℕ) (m : Master) → IsConsistent m → Kept sock m (add_write func arg sock m)
unfolding add_write
add_write-IsConsistent func arg sock m c = elim (Bool-cases (m.writefd sock)) [
  | inl e ↦
      subst (Kept sock m) (sym (if_true (0, m) (finish (get thread_write func arg m)) e))
        (c, sym e, e, λ clock h. h)
  | inr e ↦
      subst (Kept sock m)
        (sym (if_false (0, m) (finish (get thread_write func arg m)) e ∙ ap finish g.result))
        (
          after-IsConsistent func arg sock m c e g,
          ground (arith, g.pos),
          ground arith,
          after-IsTimely func arg sock m c e g,
        )
]
  where
    g : Got thread_write func arg m c.filed
    g = get-Got thread_write func arg m c.filed c.started

    finish : ℕ × Master → ℕ × Master
    finish r =
        let m1 = set_u r.0 sock r.1 in
        (
          r.0,
          list_add r.0 thread_write (record m1 {
            writefd = fd_put true sock m1.writefd;
            max_fd = if ltb m1.max_fd sock then sock else m1.max_fd;
          }),
        )
