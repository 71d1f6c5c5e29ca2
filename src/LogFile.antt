-- ===== src/LogFile.antt =====
-- demo/C/asynclog/logfile.c and logfile.h: the log file that rolls. What the system answers is an
-- argument: the time, whether fopen gives a file, and what each call of fwrite_unlocked accepts. A
-- file is named by the time in its name.
pub mod Accept
pub mod Append
pub mod Branches
mod Tests
use algorithm.Common.{
  ℕ, suc, ◌+◌, ◌-◌, ◌*◌, ◌/◌, ◌%◌, ◌^◌, min, Bool, true, false, ◌&&◌, not, Option, none, some, List,
  [], ◌∷◌, ◌++◌, length, take, if◌then◌else◌, ◌==◌, ltb, leb,
}

-- `bytes` is what the files have, `flushed` how much of it fflush has passed on, and `locked` whether
-- the mutex is held. The name, the mutex and the buffer are left out.
pub record LogFile : Type 0 where
  pub roll_size : ℕ
  pub flush_interval : ℕ
  pub check_every_n : ℕ
  pub count : ℕ
  pub thread_safe : Bool
  pub locked : Bool
  pub start_of_period : ℕ
  pub last_roll : ℕ
  pub last_flush : ℕ
  pub fp : Option ℕ
  pub written_bytes : ℕ
  pub roll_per_seconds : ℕ
  pub bytes : ℕ → List ℕ
  pub flushed : ℕ → ℕ

-- A caller that locks a mutex which it holds is blocked for ever; a call on a null file crashes.
pub data Ending : Type 0 where
  done : LogFile → Ending
  blocked : Ending
  crashed : Ending

abbrev pub bind : Ending → (LogFile → Ending) → Ending
bind o f = elim o [ done t ↦ f t | blocked ↦ blocked | crashed ↦ crashed ]

-- What is in the buffer of the open file is passed on.
abbrev pub fflushed : LogFile → ℕ → ℕ
fflushed t g = elim t.fp [
  | none ↦ t.flushed g
  | some f ↦ if g == f then length (t.bytes f) else t.flushed g
]

abbrev pub fflush : LogFile → LogFile
fflush t = record t { flushed = fflushed t }

-- fclose passes on the buffer, too.
pub logfile_reopen : Bool → ℕ → LogFile → LogFile
logfile_reopen opens now t = record (fflush t) { fp = if opens then some now else none }

pub logfile_roll : Bool → ℕ → LogFile → LogFile
unfolding logfile_reopen
logfile_roll opens now t =
    let start = now / t.roll_per_seconds * t.roll_per_seconds in
    if ltb t.last_roll now
    then logfile_reopen opens now
        (record t { last_roll = now; last_flush = now; start_of_period = start })
    else t

-- The loop on what remains: the number of bytes that its calls of fwrite_unlocked accept.
pub accept_loop : List ℕ → ℕ → ℕ
accept_loop [] remain = 0
accept_loop (x ∷ answers) remain =
    let n = min x remain in
    let rest = accept_loop answers (remain - n) in
    if remain == 0 then 0 else (if n == 0 then 0 else n + rest)

pub accepted : ℕ → List ℕ → ℕ → ℕ
unfolding accept_loop
accepted first answers len = let n = min first len in n + accept_loop answers (len - n)

pub write_line : ℕ → List ℕ → List ℕ → LogFile → Ending
unfolding accepted
write_line first answers line t = elim t.fp [
  | none ↦ crashed
  | some f ↦ done (record t {
    bytes = λ g.
        if g == f then t.bytes f ++ take (accepted first answers (length line)) line else t.bytes g;
    written_bytes = (t.written_bytes + length line) % 2 ^ 64;
  })
]

pub logfile_flush : LogFile → Ending
logfile_flush t =
    if t.thread_safe then (if t.locked then blocked else done (fflush t)) else done (fflush t)

-- `now` is the time of the check, `then_` the one that logfile_roll takes.
pub check_period : Bool → (now then_ : ℕ) → LogFile → Ending
unfolding logfile_roll logfile_flush
check_period opens now then_ t =
    let this_period = now / t.roll_per_seconds * t.roll_per_seconds in
    if this_period == t.start_of_period
    then (if ltb t.flush_interval (now - t.last_flush)
        then logfile_flush (record t { last_flush = now })
        else done t)
    else done (logfile_roll opens then_ t)

pub after_line : Bool → (now then_ : ℕ) → LogFile → Ending
unfolding logfile_roll check_period
after_line opens now then_ t =
    let n = suc t.count in
    if ltb t.roll_size t.written_bytes
    then done (logfile_roll opens then_ t)
    else (if leb t.check_every_n n
        then check_period opens now then_ (record t { count = 0 })
        else done (record t { count = n }))

pub logfile_append_unlocked : ℕ → List ℕ → Bool → (now then_ : ℕ) → List ℕ → LogFile → Ending
unfolding write_line after_line
logfile_append_unlocked first answers opens now then_ line t =
    bind (write_line first answers line t) (after_line opens now then_)

pub logfile_append : ℕ → List ℕ → Bool → (now then_ : ℕ) → List ℕ → LogFile → Ending
unfolding logfile_append_unlocked
logfile_append first answers opens now then_ line t =
    if t.thread_safe
    then (if t.locked
        then blocked
        else bind
            (logfile_append_unlocked first answers opens now then_ line
              (record t { locked = true }))
            (λ r. done (record r { locked = false })))
    else logfile_append_unlocked first answers opens now then_ line t

pub logfile_init : ℕ → Bool → ℕ → Bool → ℕ → LogFile
unfolding logfile_roll
logfile_init roll_size thread_safe flush_interval opens now = logfile_roll opens now (record {
  roll_size = roll_size;
  flush_interval = flush_interval;
  check_every_n = 1024;
  count = 0;
  thread_safe = thread_safe;
  locked = false;
  start_of_period = 0;
  last_roll = 0;
  last_flush = 0;
  fp = none;
  written_bytes = 0;
  roll_per_seconds = 86400;
  bytes = λ f. [];
  flushed = λ f. 0;
})
