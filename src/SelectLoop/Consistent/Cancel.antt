-- ===== src/SelectLoop/Consistent/Cancel.antt =====
-- cl_thread_cancel and cl_thread_run of framework/zebra/cl_thread.c.
use algorithm.Common.{
  ℕ, ◌≡◌, ◌≢◌, inl, inr, Bool, true, false, none, some, arith, ltb, if◌then◌else◌, ◌==◌, ◌&&◌,
  Bool-cases, refl,
}
use algorithm.EventLoop.{thread_unused, thread_read, thread_write}
use algorithm.SelectLoop.{Master, cancel, retire, list_del, list_add, set_type, set_thread, fd_put}
use algorithm.SelectLoop.Consistent.{known, IsConsistent}
use algorithm.SelectLoop.Consistent.Timely.{IsTimely, less-IsTimely}
use algorithm.SelectLoop.Consistent.Filed.{retire-IsFiled}

-- The types that cl_thread_cancel knows.
abbrev pub in_use : ℕ → Bool
in_use type = ltb thread_unused type && ltb type 6

pub retire-IsTimely :
    (t clock : ℕ) (m : Master) → IsTimely clock m → IsTimely clock (retire t (list_del t m))
unfolding retire set_type set_thread list_add list_del
retire-IsTimely t clock m h =
    less-IsTimely clock t m (retire t (list_del t m)) (inr refl) (λ x i l. ground arith) h

module _ (t : ℕ) (m : Master) (c : IsConsistent m) (k : known m t ≡ true) where
  -- A thread that waits on no descriptor.
  pub retire-IsConsistent :
      (m.thread t).type ≢ thread_read
      → (m.thread t).type ≢ thread_write
      → IsConsistent (retire t (list_del t m))
  unfolding retire set_type set_thread list_add list_del
  retire-IsConsistent not_read not_write = record {
    started = c.started;
    filed = retire-IsFiled t m c.filed k;
    watched = record {
      reader = c.watched.reader;
      writer = c.watched.writer;
      reads = λ x l e. ground (arith, c.watched.reads x l);
      read_bit = λ fd b. ground (arith, c.watched.read_bit fd b);
      writes = λ x l e. ground (arith, c.watched.writes x l);
      write_bit = λ fd b. ground (arith, c.watched.write_bit fd b);
    };
  }

  reader_gone :
      (m.thread t).type ≡ thread_read
      → IsConsistent
          (retire t (list_del t (record m { readfd = fd_put false (m.thread t).u m.readfd })))
  unfolding retire set_type set_thread list_add list_del
  reader_gone e = record {
    started = c.started;
    filed =
        retire-IsFiled t (record m { readfd = fd_put false (m.thread t).u m.readfd })
          (record {
            interval = c.filed.interval;
            listed = c.filed.listed;
            timed = c.filed.timed;
            node = c.filed.node;
          })
          k;
    watched = record {
      reader = c.watched.reader;
      writer = c.watched.writer;
      reads = λ x l y. ground (arith, c.watched.reads x l, c.watched.reads t k e);
      read_bit = λ fd b. ground (arith, c.watched.read_bit fd);
      writes = λ x l y. ground (arith, c.watched.writes x l);
      write_bit = λ fd b. ground (arith, c.watched.write_bit fd b);
    };
  }

  writer_gone :
      (m.thread t).type ≡ thread_write
      → IsConsistent
          (retire t (list_del t (record m { writefd = fd_put false (m.thread t).u m.writefd })))
  unfolding retire set_type set_thread list_add list_del
  writer_gone e = record {
    started = c.started;
    filed =
        retire-IsFiled t (record m { writefd = fd_put false (m.thread t).u m.writefd })
          (record {
            interval = c.filed.interval;
            listed = c.filed.listed;
            timed = c.filed.timed;
            node = c.filed.node;
          })
          k;
    watched = record {
      reader = c.watched.reader;
      writer = c.watched.writer;
      reads = λ x l y. ground (arith, c.watched.reads x l);
      read_bit = λ fd b. ground (arith, c.watched.read_bit fd b);
      writes = λ x l y. ground (arith, c.watched.writes x l, c.watched.writes t k e);
      write_bit = λ fd b. ground (arith, c.watched.write_bit fd);
    };
  }

  -- What cancelling gives; `result` is the whole behaviour.
  pub record Cancelled : Type 0 where
    pub r : Master
    pub result : cancel t m ≡ (if in_use (m.thread t).type then some r else none)
    pub consistent : in_use (m.thread t).type ≡ true → IsConsistent r
    pub unused : in_use (m.thread t).type ≡ true → (r.thread t).type ≡ thread_unused
    pub others : (x : ℕ) → x ≢ t → r.thread x ≡ m.thread x
    pub timely : (clock : ℕ) → IsTimely clock m → IsTimely clock r

  -- Cancelling a thread of the master stores through NULL exactly where its type is not one of the
  -- five types in use. Any other thread becomes unused without a failed assertion, no other thread changes, and the data stay
  -- consistent: a descriptor that the thread waited on is watched no more.
  pub cancel-Cancelled : Cancelled
  unfolding cancel retire set_type set_thread list_add list_del
  cancel-Cancelled = elim (Bool-cases ((m.thread t).type == thread_read)) [
    | inl e ↦ record {
      r = retire t (list_del t (record m { readfd = fd_put false (m.thread t).u m.readfd }));
      result = ground (arith, c.watched.reads t k);
      consistent = λ w. reader_gone (ground arith);
      unused = λ w. ground arith;
      others = λ x ne. ground arith;
      timely = λ clock h.
          retire-IsTimely t clock (record m { readfd = fd_put false (m.thread t).u m.readfd })
            (record { ascending = h.ascending; bounded = h.bounded; small = h.small });
    }
    | inr e ↦ elim (Bool-cases ((m.thread t).type == thread_write)) [
      | inl d ↦ record {
        r = retire t (list_del t (record m { writefd = fd_put false (m.thread t).u m.writefd }));
        result = ground (arith, c.watched.writes t k);
        consistent = λ w. writer_gone (ground arith);
        unused = λ w. ground arith;
        others = λ x ne. ground arith;
        timely = λ clock h.
            retire-IsTimely t clock (record m { writefd = fd_put false (m.thread t).u m.writefd })
              (record { ascending = h.ascending; bounded = h.bounded; small = h.small });
      }
      | inr d ↦ record {
        r = retire t (list_del t m);
        result = ground arith;
        consistent = λ w. retire-IsConsistent (λ x. ground arith) (λ x. ground arith);
        unused = λ w. ground arith;
        others = λ x ne. ground arith;
        timely = λ clock h. retire-IsTimely t clock m h;
      }
    ]
  ]
