-- ===== src/SelectLoop/Consistent/ProcessWrite.antt =====
-- cl_thread_process_fd of framework/zebra/cl_thread.c on the threads that wait for output.
use algorithm.Common.{
  ℕ, ◌<◌, ◌≤◌, ◌≡◌, inl, inr, Bool, true, false, none, some, List, [], ◌∷◌, arith, ltb,
  if◌then◌else◌, ◌==◌, ◌&&◌, count, Bool-cases, refl, ◌∙◌, if_true, if_false,
}
use algorithm.EventLoop.{thread_write, thread_ready}
use algorithm.SelectLoop.{Master, process_write, list_del, list_add, set_type, set_thread, fd_put}
use algorithm.SelectLoop.Consistent.{known, IsConsistent}
use algorithm.SelectLoop.Consistent.Timely.{IsTimely, less-IsTimely}
use algorithm.SelectLoop.Consistent.Filed.{move-IsFiled}

module _ (t : ℕ) (m : Master) (c : IsConsistent m) (k : known m t ≡ true)
    (e : (m.thread t).type ≡ thread_write) where
  abbrev cleared : Master
  cleared = record m { writefd = fd_put false (m.thread t).u m.writefd }

  abbrev pub write_ready : Master
  write_ready = set_type t thread_ready (list_add t thread_ready (list_del t cleared))

  write_ready-IsConsistent : IsConsistent write_ready
  unfolding set_type set_thread list_add list_del
  write_ready-IsConsistent = record {
    started = c.started;
    filed =
        move-IsFiled t thread_ready cleared
          (record {
            interval = c.filed.interval;
            listed = c.filed.listed;
            timed = c.filed.timed;
            node = c.filed.node;
          })
          k (λ x. omega arith);
    watched = record {
      writer = c.watched.writer;
      reader = c.watched.reader;
      writes = λ x l y. ground (arith, c.watched.writes x l, c.watched.writes t k e);
      write_bit = λ fd b. ground (arith, c.watched.write_bit fd);
      reads = λ x l y. ground (arith, c.watched.reads x l);
      read_bit = λ fd b. ground (arith, c.watched.read_bit fd b);
    };
  }

  write_ready-thread :
      (x : ℕ)
      → ((write_ready.thread x).u ≡ (m.thread x).u)
        × ((write_ready.thread x).type ≡ (if x == t then thread_ready else (m.thread x).type))
  unfolding set_type set_thread list_add list_del
  write_ready-thread x = ground arith

  write_ready-IsTimely : (clock : ℕ) → IsTimely clock m → IsTimely clock write_ready
  unfolding set_type set_thread list_add list_del
  write_ready-IsTimely clock h =
      less-IsTimely clock t m write_ready (inr refl) (λ x i l. ground arith) h

  write_ready-next : write_ready.next ≡ m.next
  unfolding set_type set_thread list_add list_del
  write_ready-next = refl

-- The threads of `ts` wait for output, and there is none of them twice.
abbrev pub AreWriters : List ℕ → Master → Type 0
AreWriters ts m =
    (x : ℕ)
    → (count x ts ≤ 1) × (0 < count x ts → (known m x ≡ true) × ((m.thread x).type ≡ thread_write))

-- The descriptors of `fdset` hand their threads over.
pub record WriteProcessed (ts : List ℕ) (fdset : ℕ → Bool) (m : Master) : Type 0 where
  pub r : Master
  pub result : process_write ts fdset m ≡ some r
  pub consistent : IsConsistent r
  pub next : r.next ≡ m.next
  pub timely : (clock : ℕ) → IsTimely clock m → IsTimely clock r
  pub u : (x : ℕ) → (r.thread x).u ≡ (m.thread x).u
  pub type :
      (x : ℕ)
      → (r.thread x).type
        ≡ (if ltb 0 (count x ts) && fdset (m.thread x).u then thread_ready else (m.thread x).type)

module _ (t : ℕ) (ts : List ℕ) (fdset : ℕ → Bool) (m : Master) (c : IsConsistent m)
    (a : AreWriters (t ∷ ts) m) where
  t_known : (known m t ≡ true) × ((m.thread t).type ≡ thread_write)
  t_known = (a t).1 (ground arith)

  abbrev moved : Master
  moved = write_ready t m c t_known.0 t_known.1

  moved-AreWriters : AreWriters ts moved
  moved-AreWriters x = ground (
    arith,
    a x,
    write_ready-thread t m c t_known.0 t_known.1 x,
    write_ready-next t m c t_known.0 t_known.1,
  )

  rest-AreWriters : AreWriters ts m
  rest-AreWriters x = ground (arith, a x)

  process_step : process_write (t ∷ ts) fdset m ≡ (
      if fdset (m.thread t).u
      then (if m.writefd (m.thread t).u then process_write ts fdset moved else none)
      else process_write ts fdset m)
  unfolding process_write
  process_step = refl

  taken :
      fdset (m.thread t).u ≡ true → WriteProcessed ts fdset moved → WriteProcessed (t ∷ ts) fdset m
  taken e p = record {
    r = p.r;
    result =
        process_step
        ∙ if_true _ _ e
        ∙ if_true _ none (c.watched.writes t t_known.0 t_known.1).0
        ∙ p.result;
    consistent = p.consistent;
    next = p.next ∙ write_ready-next t m c t_known.0 t_known.1;
    timely = λ clock h. p.timely clock (write_ready-IsTimely t m c t_known.0 t_known.1 clock h);
    u = λ x. p.u x ∙ (write_ready-thread t m c t_known.0 t_known.1 x).0;
    type = λ x. ground (arith, p.type x, e, a x, write_ready-thread t m c t_known.0 t_known.1 x);
  }

  skipped :
      fdset (m.thread t).u ≡ false → WriteProcessed ts fdset m → WriteProcessed (t ∷ ts) fdset m
  skipped e p = record {
    r = p.r;
    result = process_step ∙ if_false _ _ e ∙ p.result;
    consistent = p.consistent;
    next = p.next;
    timely = p.timely;
    u = p.u;
    type = λ x. ground (arith, p.type x, e);
  }

-- Processing the threads that wait for output fails no assertion and keeps the data consistent.
-- Exactly those whose descriptor select has left in the set are ready then.
pub process_write-WriteProcessed :
    (ts : List ℕ) (fdset : ℕ → Bool) (m : Master)
    → IsConsistent m
    → AreWriters ts m
    → WriteProcessed ts fdset m
unfolding process_write
process_write-WriteProcessed [] fdset m c a = record {
  r = m;
  result = refl;
  consistent = c;
  next = refl;
  timely = λ clock h. h;
  u = λ x. refl;
  type = λ x. ground arith;
}
process_write-WriteProcessed (t ∷ ts) fdset m c a =
    let event_too =
      process_write-WriteProcessed ts fdset (moved t ts fdset m c a)
        (write_ready-IsConsistent t m c (t_known t ts fdset m c a).0 (t_known t ts fdset m c a).1)
        (moved-AreWriters t ts fdset m c a) in
    let no_event = process_write-WriteProcessed ts fdset m c (rest-AreWriters t ts fdset m c a) in
    elim (Bool-cases (fdset (m.thread t).u)) [
      | inl e ↦ taken t ts fdset m c a e event_too
      | inr e ↦ skipped t ts fdset m c a e no_event
    ]
