-- ===== src/SelectLoop/Consistent/ProcessRead.antt =====
-- cl_thread_process_fd of framework/zebra/cl_thread.c on the threads that wait for input.
use algorithm.Common.{
  ℕ, ◌<◌, ◌≤◌, ◌≡◌, inl, inr, Bool, true, false, none, some, List, [], ◌∷◌, arith, ltb,
  if◌then◌else◌, ◌==◌, ◌&&◌, count, Bool-cases, refl, ◌∙◌, if_true, if_false,
}
use algorithm.EventLoop.{thread_read, thread_ready}
use algorithm.SelectLoop.{Master, process_read, list_del, list_add, set_type, set_thread, fd_put}
use algorithm.SelectLoop.Consistent.{known, IsConsistent}
use algorithm.SelectLoop.Consistent.Timely.{IsTimely, less-IsTimely}
use algorithm.SelectLoop.Consistent.Filed.{move-IsFiled}

module _ (t : ℕ) (m : Master) (c : IsConsistent m) (k : known m t ≡ true)
    (e : (m.thread t).type ≡ thread_read) where
  abbrev cleared : Master
  cleared = record m { readfd = fd_put false (m.thread t).u m.readfd }

  abbrev pub read_ready : Master
  read_ready = set_type t thread_ready (list_add t thread_ready (list_del t cleared))

  read_ready-IsConsistent : IsConsistent read_ready
  unfolding set_type set_thread list_add list_del
  read_ready-IsConsistent = record {
    started = c.started;
    filed =
        move-IsFiled t thread_ready cleared
          (record {
            interval = c.filed.interval;
            listed = c.filed.listed;
            timed = c.filed.timed;
            node = c.filed.node;
          })
          k (λ x. omega arith);
    watched = record {
      reader = c.watched.reader;
      writer = c.watched.writer;
      reads = λ x l y. ground (arith, c.watched.reads x l, c.watched.reads t k e);
      read_bit = λ fd b. ground (arith, c.watched.read_bit fd);
      writes = λ x l y. ground (arith, c.watched.writes x l);
      write_bit = λ fd b. ground (arith, c.watched.write_bit fd b);
    };
  }

  read_ready-thread :
      (x : ℕ)
      → ((read_ready.thread x).u ≡ (m.thread x).u)
        × ((read_ready.thread x).type ≡ (if x == t then thread_ready else (m.thread x).type))
  unfolding set_type set_thread list_add list_del
  read_ready-thread x = ground arith

  read_ready-IsTimely : (clock : ℕ) → IsTimely clock m → IsTimely clock read_ready
  unfolding set_type set_thread list_add list_del
  read_ready-IsTimely clock h =
      less-IsTimely clock t m read_ready (inr refl) (λ x i l. ground arith) h

  read_ready-next : read_ready.next ≡ m.next
  unfolding set_type set_thread list_add list_del
  read_ready-next = refl

-- The threads of `ts` wait for input, and there is none of them twice.
abbrev pub AreReaders : List ℕ → Master → Type 0
AreReaders ts m =
    (x : ℕ)
    → (count x ts ≤ 1) × (0 < count x ts → (known m x ≡ true) × ((m.thread x).type ≡ thread_read))

-- The descriptors of `fdset` hand their threads over.
pub record ReadProcessed (ts : List ℕ) (fdset : ℕ → Bool) (m : Master) : Type 0 where
  pub r : Master
  pub result : process_read ts fdset m ≡ some r
  pub consistent : IsConsistent r
  pub next : r.next ≡ m.next
  pub timely : (clock : ℕ) → IsTimely clock m → IsTimely clock r
  pub u : (x : ℕ) → (r.thread x).u ≡ (m.thread x).u
  pub type :
      (x : ℕ)
      → (r.thread x).type
        ≡ (if ltb 0 (count x ts) && fdset (m.thread x).u then thread_ready else (m.thread x).type)

module _ (t : ℕ) (ts : List ℕ) (fdset : ℕ → Bool) (m : Master) (c : IsConsistent m)
    (a : AreReaders (t ∷ ts) m) where
  t_known : (known m t ≡ true) × ((m.thread t).type ≡ thread_read)
  t_known = (a t).1 (ground arith)

  abbrev moved : Master
  moved = read_ready t m c t_known.0 t_known.1

  moved-AreReaders : AreReaders ts moved
  moved-AreReaders x = ground (
    arith,
    a x,
    read_ready-thread t m c t_known.0 t_known.1 x,
    read_ready-next t m c t_known.0 t_known.1,
  )

  rest-AreReaders : AreReaders ts m
  rest-AreReaders x = ground (arith, a x)

  process_step : process_read (t ∷ ts) fdset m ≡ (
      if fdset (m.thread t).u
      then (if m.readfd (m.thread t).u then process_read ts fdset moved else none)
      else process_read ts fdset m)
  unfolding process_read
  process_step = refl

  taken :
      fdset (m.thread t).u ≡ true → ReadProcessed ts fdset moved → ReadProcessed (t ∷ ts) fdset m
  taken e p = record {
    r = p.r;
    result =
        process_step
        ∙ if_true _ _ e
        ∙ if_true _ none (c.watched.reads t t_known.0 t_known.1).0
        ∙ p.result;
    consistent = p.consistent;
    next = p.next ∙ read_ready-next t m c t_known.0 t_known.1;
    timely = λ clock h. p.timely clock (read_ready-IsTimely t m c t_known.0 t_known.1 clock h);
    u = λ x. p.u x ∙ (read_ready-thread t m c t_known.0 t_known.1 x).0;
    type = λ x. ground (arith, p.type x, e, a x, read_ready-thread t m c t_known.0 t_known.1 x);
  }

  skipped : fdset (m.thread t).u ≡ false → ReadProcessed ts fdset m → ReadProcessed (t ∷ ts) fdset m
  skipped e p = record {
    r = p.r;
    result = process_step ∙ if_false _ _ e ∙ p.result;
    consistent = p.consistent;
    next = p.next;
    timely = p.timely;
    u = p.u;
    type = λ x. ground (arith, p.type x, e);
  }

-- Processing the threads that wait for input fails no assertion and keeps the data consistent.
-- Exactly those whose descriptor select has left in the set are ready then.
pub process_read-ReadProcessed :
    (ts : List ℕ) (fdset : ℕ → Bool) (m : Master)
    → IsConsistent m
    → AreReaders ts m
    → ReadProcessed ts fdset m
unfolding process_read
process_read-ReadProcessed [] fdset m c a = record {
  r = m;
  result = refl;
  consistent = c;
  next = refl;
  timely = λ clock h. h;
  u = λ x. refl;
  type = λ x. ground arith;
}
process_read-ReadProcessed (t ∷ ts) fdset m c a =
    let event_too =
      process_read-ReadProcessed ts fdset (moved t ts fdset m c a)
        (read_ready-IsConsistent t m c (t_known t ts fdset m c a).0 (t_known t ts fdset m c a).1)
        (moved-AreReaders t ts fdset m c a) in
    let no_event = process_read-ReadProcessed ts fdset m c (rest-AreReaders t ts fdset m c a) in
    elim (Bool-cases (fdset (m.thread t).u)) [
      | inl e ↦ taken t ts fdset m c a e event_too
      | inr e ↦ skipped t ts fdset m c a e no_event
    ]
