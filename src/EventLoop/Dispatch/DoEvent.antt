-- ===== src/EventLoop/Dispatch/DoEvent.antt =====
-- cl_thread_do_event of framework/zebra_epoll/cl_thread.c.
use algorithm.Common.{
  ℕ, ◌≡◌, inl, inr, Bool, true, false, Option, none, some, arith, ltb, if◌then◌else◌, ◌==◌, ◌&&◌,
  ◌||◌, not, Bool-cases, ◌∙◌, ap, refl, sym, subst, if_true, if_false,
}
use algorithm.EventLoop.{Thread, Socket, Master, thread_ready}
use algorithm.EventLoop.Dispatch.{make_ready, rearm, EpollEvent, do_event}
use algorithm.EventLoop.Dispatch.Invariant.{IsConsistent}
use algorithm.EventLoop.Dispatch.Event.{
  Readied, make_ready-Readied, rearm-IsSilent, IsSilent, rearm-IsConsistent,
}

-- Whether the event reports a thread that waits on the descriptor.
abbrev pub reports_read : EpollEvent → Master → Bool
reports_read ev m = (ev.broken || ev.readable) && ltb 0 (m.socket ev.fd).t_read

abbrev pub reports_write : EpollEvent → Master → Bool
reports_write ev m = (ev.broken || ev.writable) && ltb 0 (m.socket ev.fd).t_write

-- Every descriptor has the threads that it had.
abbrev pub HasSides : Master → Master → Type 0
HasSides m r =
    (f : ℕ)
    → ((r.socket f).t_read ≡ (m.socket f).t_read) × ((r.socket f).t_write ≡ (m.socket f).t_write)

-- What an event leaves.
pub record Reported (ev : EpollEvent) (m : Master) : Type 0 where
  pub r : Master
  pub result : do_event ev m ≡ some r
  pub consistent : IsConsistent r
  pub in_tree : r.in_tree ≡ m.in_tree
  pub next : r.next ≡ m.next
  pub sides : HasSides m r
  pub type :
      (x : ℕ)
      → (r.thread x).type ≡ (
          if (reports_read ev m && (x == (m.socket ev.fd).t_read))
            || (reports_write ev m && (x == (m.socket ev.fd).t_write))
          then thread_ready
          else (m.thread x).type)

module _ (ev : EpollEvent) (m : Master) (c : IsConsistent m) (i : m.in_tree ev.fd ≡ true) where
  abbrev s : Socket
  s = m.socket ev.fd

  abbrev reads : Bool
  reads = (ev.broken || ev.readable) && s.read

  abbrev writes : Bool
  writes = (ev.broken || ev.writable) && s.write

  abbrev ctl_read : Bool
  ctl_read = reads && not s.read_persist

  abbrev ctl_write : Bool
  ctl_write = writes && not s.write_persist

  abbrev m1 : Master
  m1 = if reads then make_ready s.t_read m else m

  abbrev m2 : Master
  m2 = if writes then make_ready s.t_write m1 else m1

  first : Readied reads s.t_read m m1
  first =
      make_ready-Readied reads ev.fd s.t_read m c i (λ e. ground (arith, c.linked.read_bit ev.fd i))
        (inl refl)

  second : Readied writes s.t_write m1 m2
  second =
      make_ready-Readied writes ev.fd s.t_write m1 first.consistent
        (ap (λ (f : ℕ → Bool). f ev.fd) first.in_tree ∙ i)
        (λ e. ground (arith, c.linked.write_bit ev.fd i))
        (inr (ap (λ (f : ℕ → Socket). (f ev.fd).t_write) first.socket))

  in_tree2 : m2.in_tree ≡ m.in_tree
  in_tree2 = second.in_tree ∙ first.in_tree

  same : m2.socket ev.fd ≡ s
  same = ap (λ (f : ℕ → Socket). f ev.fd) (second.socket ∙ first.socket)

  abbrev after : Master
  after = if ctl_read || ctl_write then rearm ev.fd ctl_read ctl_write m2 else m2

  type2 :
      (x : ℕ)
      → (m2.thread x).type ≡ (
          if (reads && (x == s.t_read)) || (writes && (x == s.t_write))
          then thread_ready
          else (m.thread x).type)
  type2 x = ground (arith, second.type x, first.type x)

  rearmed : IsConsistent (rearm ev.fd ctl_read ctl_write m2)
  rearmed =
      rearm-IsConsistent ev.fd ctl_read ctl_write m2 second.consistent
        (ap (λ (f : ℕ → Bool). f ev.fd) in_tree2 ∙ i)
        (subst
          (λ (v : Socket).
            ctl_read ≡ true → ((m2.thread v.t_read).type ≡ thread_ready) × (v.read_persist ≡ false))
          (sym same) (λ e. ground (arith, type2 s.t_read)))
        (subst
          (λ (v : Socket).
            ctl_write ≡ true
            → ((m2.thread v.t_write).type ≡ thread_ready) × (v.write_persist ≡ false))
          (sym same) (λ e. ground (arith, type2 s.t_write)))

  abbrev told : Option Master
  told = if ctl_read || ctl_write then some (rearm ev.fd ctl_read ctl_write m2) else some m2

  told_lem : told ≡ some after
  told_lem = elim (Bool-cases (ctl_read || ctl_write)) [ inl e ↦ rw e refl | inr e ↦ rw e refl ]

  kept : IsSilent m2 after
  kept = elim (Bool-cases (ctl_read || ctl_write)) [
    | inl e ↦
        subst (IsSilent m2) (sym (if_true (rearm ev.fd ctl_read ctl_write m2) m2 e))
          (rearm-IsSilent ev.fd ctl_read ctl_write m2)
    | inr e ↦
        subst (IsSilent m2) (sym (if_false (rearm ev.fd ctl_read ctl_write m2) m2 e))
          (refl, refl, refl, λ f. (refl, refl))
  ]

  -- An event of a descriptor of the tree fails no assertion and keeps the data consistent. The
  -- threads that it reports, the reader on input, the writer on output, and both on an error, are
  -- ready afterwards, and no other thread changes its type.
  pub do_event-Reported : Reported ev m
  unfolding do_event
  do_event-Reported = record {
    r = after;
    result =
        if_false none (if writes && (s.t_write == 0) then none else told) read_named
        ∙ if_false none told write_named
        ∙ told_lem;
    consistent = elim (Bool-cases (ctl_read || ctl_write)) [
      | inl e ↦ subst IsConsistent (sym (if_true (rearm ev.fd ctl_read ctl_write m2) m2 e)) rearmed
      | inr e ↦
          subst IsConsistent (sym (if_false (rearm ev.fd ctl_read ctl_write m2) m2 e))
            second.consistent
    ];
    in_tree = kept.0 ∙ in_tree2;
    next = kept.1 ∙ second.next ∙ first.next;
    sides = λ f. (
      (kept.3 f).0 ∙ ap (λ (g : ℕ → Socket). (g f).t_read) (second.socket ∙ first.socket),
      (kept.3 f).1 ∙ ap (λ (g : ℕ → Socket). (g f).t_write) (second.socket ∙ first.socket),
    );
    type = λ x.
        ap (λ (f : ℕ → Thread). (f x).type) kept.2
        ∙ ground (arith, type2 x, c.linked.read_bit ev.fd i, c.linked.write_bit ev.fd i);
  }
    where
      read_named : (reads && (s.t_read == 0)) ≡ false
      read_named = ground (arith, c.linked.read_bit ev.fd i)

      write_named : (writes && (s.t_write == 0)) ≡ false
      write_named = ground (arith, c.linked.write_bit ev.fd i)
