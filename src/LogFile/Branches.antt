-- ===== src/LogFile/Branches.antt =====
-- The ways through logfile_append_unlocked of demo/C/asynclog/logfile.c after the line is written.
use algorithm.Common.{
  ℕ, suc, ◌-◌, ◌*◌, ◌/◌, ◌<◌, ◌≡◌, inl, inr, Bool, true, false, ◌&&◌, ◌||◌, not, none, some,
  if◌then◌else◌, ◌==◌, ltb, leb, arith, refl, Bool-cases,
}
use algorithm.LogFile.{
  LogFile, Ending, done, blocked, logfile_flush, logfile_roll, logfile_reopen, check_period,
  after_line,
}

-- The time is in the period of the file, and the last flush is too long ago.
abbrev pub flush_due : ℕ → LogFile → Bool
flush_due now t =
    (now / t.roll_per_seconds * t.roll_per_seconds == t.start_of_period)
    && ltb t.flush_interval (now - t.last_flush)

abbrev pub over_size : LogFile → Bool
over_size t = ltb t.roll_size t.written_bytes

abbrev pub checks : LogFile → Bool
checks t = not (over_size t) && leb t.check_every_n (suc t.count)

-- The file that is open after a call that may roll it.
abbrev pub rolls : ℕ → LogFile → Bool
rolls now t =
    over_size t
    || (checks t && not (now / t.roll_per_seconds * t.roll_per_seconds == t.start_of_period))

pub record Kept (opens b : Bool) (then_ : ℕ) (t r : LogFile) : Type 0 where
  pub bytes : (f : ℕ) → r.bytes f ≡ t.bytes f
  pub written : r.written_bytes ≡ t.written_bytes
  pub last_roll : r.last_roll ≡ (if b && ltb t.last_roll then_ then then_ else t.last_roll)
  pub file :
      r.fp ≡ (if b && ltb t.last_roll then_ then (if opens then some then_ else none) else t.fp)
  pub counted : 0 < t.check_every_n → t.count < t.check_every_n → r.count < t.check_every_n
  pub locked : r.locked ≡ t.locked

logfile_roll-Kept :
    (opens : Bool) (then_ : ℕ) (t : LogFile) → Kept opens true then_ t (logfile_roll opens then_ t)
unfolding logfile_roll logfile_reopen
logfile_roll-Kept opens then_ t = elim (Bool-cases (ltb t.last_roll then_)) [
  | inl e ↦
      rw (e, logfile_roll)
        (record {
          bytes = λ f. refl;
          written = refl;
          last_roll = rw e refl;
          file = rw e refl;
          counted = λ a b. b;
          locked = refl;
        })
  | inr e ↦
      rw (e, logfile_roll)
        (record {
          bytes = λ f. refl;
          written = refl;
          last_roll = rw e refl;
          file = rw e refl;
          counted = λ a b. b;
          locked = refl;
        })
]

-- The caller holds the mutex that the flush takes.
abbrev pub flush_blocks : ℕ → LogFile → Bool
flush_blocks now t = checks t && flush_due now t && t.thread_safe && t.locked

pub record Ends (opens b : Bool) (then_ : ℕ) (t : LogFile) (stuck : Bool) (o : Ending)
    : Type 0 where
  pub stops : stuck ≡ true → o ≡ blocked
  pub ends : stuck ≡ false → (r : LogFile) × (o ≡ done r) × Kept opens b then_ t r

module _ (opens : Bool) (then_ : ℕ) (t : LogFile) where
  done-Ends :
      (b : Bool) (r : LogFile) → Kept opens b then_ t r → Ends opens b then_ t false (done r)
  done-Ends b r k = record { stops = λ e. absurd (ground arith); ends = λ e. (r, refl, k) }

  -- The tests of a call, with the file that each way leaves.
  tests-Ends :
      (over hit same due safe held : Bool) {rolled late flushed zero counted : LogFile}
      → Kept opens true then_ t rolled
      → Kept opens true then_ t late
      → Kept opens false then_ t flushed
      → Kept opens false then_ t zero
      → (hit ≡ false → Kept opens false then_ t counted)
      → Ends opens
          (over || ((not over && hit) && not same))
          then_
          t
          ((not over && hit) && (same && due) && safe && held)
          (if over
            then done rolled
            else (if hit
                then (if same
                    then (if due
                        then (if safe
                            then (if held then blocked else done flushed)
                            else done flushed)
                        else done zero)
                    else done late)
                else done counted))
  tests-Ends true hit same due safe held k l f z c = done-Ends true _ k
  tests-Ends false false same due safe held k l f z c = done-Ends false _ (c refl)
  tests-Ends false true false due safe held k l f z c = done-Ends true _ l
  tests-Ends false true true false safe held k l f z c = done-Ends false _ z
  tests-Ends false true true true false held k l f z c = done-Ends false _ f
  tests-Ends false true true true true false k l f z c = done-Ends false _ f
  tests-Ends false true true true true true k l f z c = record {
    stops = λ e. refl;
    ends = λ e. absurd (ground arith);
  }

  pub after_line-Ends :
      (now : ℕ)
      → Ends opens (rolls now t) then_ t (flush_blocks now t) (after_line opens now then_ t)
  unfolding after_line check_period logfile_flush
  after_line-Ends now =
      tests-Ends (over_size t) (leb t.check_every_n (suc t.count))
        (now / t.roll_per_seconds * t.roll_per_seconds == t.start_of_period)
        (ltb t.flush_interval (now - t.last_flush)) t.thread_safe t.locked
        (logfile_roll-Kept opens then_ t)
        (late_roll (logfile_roll-Kept opens then_ (record t { count = 0 }))) unchanged unchanged
        (λ e. record {
          bytes = λ f. refl;
          written = refl;
          last_roll = refl;
          file = refl;
          counted = λ pos small. ground arith;
          locked = refl;
        })
    where
      unchanged :
          {last : ℕ} {q : ℕ → ℕ}
          → Kept opens false then_ t (record t { count = 0; last_flush = last; flushed = q })
      unchanged = record {
        bytes = λ f. refl;
        written = refl;
        last_roll = refl;
        file = refl;
        counted = λ pos small. pos;
        locked = refl;
      }

      late_roll :
          {r : LogFile}
          → Kept opens true then_ (record t { count = 0 }) r
          → Kept opens true then_ t r
      late_roll k = record {
        bytes = k.bytes;
        written = k.written;
        last_roll = k.last_roll;
        file = k.file;
        counted = λ pos small. k.counted pos pos;
        locked = k.locked;
      }
