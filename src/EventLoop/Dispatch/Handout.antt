-- ===== src/EventLoop/Dispatch/Handout.antt =====
-- cl_thread_run of framework/zebra_epoll/cl_thread.c: what becomes of a thread that is handed out.
use algorithm.Common.{
  ℕ, ◌<◌, ◌≡◌, ◌≢◌, ◌⊎◌, inl, inr, Bool, true, false, Option, none, some, arith, if◌then◌else◌,
  ◌==◌, ◌&&◌, not, Bool-cases, ◌∙◌, ap, refl, if_true, if_false,
}
use algorithm.EventLoop.{
  Thread, Socket, Master, set_thread, set_type, set_socket, list_del, list_add, retire,
  socket_lookup, get_read, thread_unused, thread_read, thread_write, thread_ready,
}
use algorithm.EventLoop.Dispatch.{run, socket_put}
use algorithm.EventLoop.Dispatch.Invariant.{IsConsistent}
use algorithm.EventLoop.Dispatch.Run.{back-IsConsistent, away-IsConsistent}

-- Whether the descriptor keeps the ready thread `t`.
abbrev pub persists : ℕ → Master → Bool
persists t m =
    let s = m.socket (m.thread t).u in if s.t_read == t then s.read_persist else s.write_persist

-- What the caller gets and what is left when a ready thread is handed out.
pub record HandedOut (t : ℕ) (m : Master) : Type 0 where
  pub r : Master
  pub result : run t (list_del t m) ≡ (m.thread t, r)
  pub consistent : IsConsistent r
  pub type : (r.thread t).type ≡ (
      if persists t m
      then (if (m.socket (m.thread t).u).t_read == t then thread_read else thread_write)
      else thread_unused)
  pub reader : get_read (m.thread t).u r ≡ (
      if ((m.socket (m.thread t).u).t_read == t) && not (persists t m)
      then 0
      else (m.socket (m.thread t).u).t_read)
  pub in_tree : r.in_tree ≡ m.in_tree

module _ (t : ℕ) (m : Master) (c : IsConsistent m) (pos : 0 < t) (lt : t < m.next)
    (ready : (m.thread t).type ≡ thread_ready) where
  abbrev fd : ℕ
  fd = (m.thread t).u

  abbrev s : Socket
  s = m.socket fd

  known : (m.in_tree fd ≡ true) × ((s.t_read ≡ t) ⊎ (s.t_write ≡ t))
  known = c.linked.readies t pos lt ready

  abbrev free : Master
  free = list_del t m

  abbrev back_to : ℕ → Master
  back_to q = list_add t q (set_type t q free)

  abbrev without : Socket → Master
  without v = retire t (set_socket fd v free)

  abbrev no_reader : Socket
  no_reader = record s { read = false; t_read = 0 }

  abbrev no_writer : Socket
  no_writer = record s { write = false; t_write = 0 }

  abbrev read_case : Master
  read_case = if s.read_persist then back_to thread_read else without no_reader

  abbrev write_case : Master
  write_case =
      if s.t_write == t
      then (if s.write_persist then back_to thread_write else without no_writer)
      else free

  run_lem : run t free ≡ (m.thread t, if s.t_read == t then read_case else write_case)
  unfolding run socket_put list_del socket_lookup
  run_lem =
      ap (λ x. (m.thread t, x))
        (if_true _ (retire t free) is_ready ∙ ap found (if_true (some s) none known.0))
    where
      is_ready : ((m.thread t).type == thread_ready) ≡ true
      is_ready = ground arith

      found : Option Socket → Master
      found o = elim o [
        | none ↦ retire t free
        | some v ↦
            if v.t_read == t
            then (if v.read_persist
                then back_to thread_read
                else retire t (set_socket fd (record v { read = false; t_read = 0 }) free))
            else if v.t_write == t
            then (if v.write_persist
                then back_to thread_write
                else retire t (set_socket fd (record v { write = false; t_write = 0 }) free))
            else free
      ]

  -- What the two cases of a thread that persists, and of one that does not, come to.
  run-back :
      (q : ℕ)
      → ((q ≡ thread_read) × (s.t_read ≡ t) × (s.read_persist ≡ true))
        ⊎ ((q ≡ thread_write) × (s.t_write ≡ t) × (s.write_persist ≡ true) × (s.t_read ≢ t))
      → run t free ≡ (m.thread t, back_to q)
      → HandedOut t m
  unfolding set_type set_thread list_add list_del get_read socket_lookup
  run-back q why e = record {
    r = back_to q;
    result = e;
    consistent = back-IsConsistent t m c pos lt ready q why;
    type = ground arith;
    reader = ground (arith, known.0);
    in_tree = refl;
  }

  run-away :
      (v : Socket)
      → ((s.t_read ≡ t) × (s.read_persist ≡ false) × (v ≡ no_reader))
        ⊎ ((s.t_write ≡ t) × (s.write_persist ≡ false) × (s.t_read ≢ t) × (v ≡ no_writer))
      → run t free ≡ (m.thread t, without v)
      → HandedOut t m
  unfolding retire set_type set_socket set_thread list_add list_del get_read socket_lookup
  run-away v why e = record {
    r = without v;
    result = e;
    consistent = away-IsConsistent t m c pos lt ready v (ground arith);
    type = ground arith;
    reader = ground (arith, known.0);
    in_tree = refl;
  }

  -- A ready thread that is handed out goes back to waiting on its descriptor where it persists.
  -- Else it becomes unused, and its descriptor has no such thread any more. The caller gets the
  -- thread as it was, and the data stay consistent.
  pub run-HandedOut : HandedOut t m
  run-HandedOut = elim (Bool-cases (s.t_read == t)) [
    | inl e ↦ elim (Bool-cases s.read_persist) [
      | inl p ↦
          run-back thread_read (inl (refl, ground arith, p))
            (run_lem ∙ ap give (if_true read_case write_case e ∙ if_true _ _ p))
      | inr p ↦
          run-away no_reader (inl (ground arith, p, refl))
            (run_lem ∙ ap give (if_true read_case write_case e ∙ if_false _ _ p))
    ]
    | inr e ↦
        let w : s.t_write ≡ t = ground (arith, known.1) in
        let is_t : (s.t_write == t) ≡ true = ground arith in
        elim (Bool-cases s.write_persist) [
          | inl p ↦ run-back thread_write (inr (refl, w, p, λ q. ground arith)) (
              run_lem
              ∙ ap give (if_false read_case write_case e ∙ if_true _ _ is_t ∙ if_true _ _ p))
          | inr p ↦ run-away no_writer (inr (w, p, (λ q. ground arith), refl)) (
              run_lem
              ∙ ap give (if_false read_case write_case e ∙ if_true _ _ is_t ∙ if_false _ _ p))
        ]
  ]
    where
      give : Master → Thread × Master
      give x = (m.thread t, x)
