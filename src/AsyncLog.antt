-- ===== src/AsyncLog.antt =====
-- demo/C/asynclog/asynclog.c: threads append lines to a buffer in memory, and a thread writes the
-- full buffers to the log file. `_log_append` and the collection of buffers run under the mutex,
-- so a run is a sequence of the two. ASYNCLOG_BUFMAX is the argument `bufmax`.
pub mod Append
pub mod Turn
pub mod Refill
pub mod Tests
use algorithm.Common.{
  ℕ, ◌+◌, ◌-◌, Bool, true, false, Option, none, some, List, [], ◌∷◌, ◌++◌, ltb, ◌==◌, if◌then◌else◌,
  length, take, set, get_or, not,
}
use algorithm.BufferArray.{BufferArray, live}
use algorithm.ArBuffer.{
  ArBuffer, arbuffer_usable, arbuffer_avail, arbuffer_append, arbuffer_move, arbuffer_reset,
  arbuffer_init, arbuffer_clear, arraybufferalign_add_tail, arraybufferalign_erase,
  arraybufferalign_move, arraybufferalign_clear, arraybufferalign_init, text,
}

-- MAXBUFFER
abbrev pub max_buffer : ℕ
max_buffer = 23

-- The buffers of `asynclog_t`.
pub record AsyncLog : Type 0 where
  pub current_buffer : ArBuffer
  pub next_buffer : ArBuffer
  pub buffers : BufferArray ArBuffer

-- The buffers of the writer thread.
pub record Writer : Type 0 where
  pub new_buffer1 : ArBuffer
  pub new_buffer2 : ArBuffer
  pub buffers_to_write : BufferArray ArBuffer

-- The current buffer goes to the array, and the next one or a new one takes its place.
pub swap_current : ℕ → AsyncLog → AsyncLog
unfolding arraybufferalign_add_tail arbuffer_usable arbuffer_move arbuffer_init arbuffer_clear
swap_current bufmax a =
    let t = (arraybufferalign_add_tail a.buffers a.current_buffer).0 in
    if arbuffer_usable a.next_buffer
    then record {
      current_buffer = (arbuffer_move a.next_buffer).0;
      next_buffer = (arbuffer_move a.next_buffer).1;
      buffers = t;
    }
    else record { current_buffer = arbuffer_init bufmax; next_buffer = a.next_buffer; buffers = t }

pub log_append : ℕ → List ℕ → AsyncLog → AsyncLog
unfolding swap_current arbuffer_avail arbuffer_append
log_append bufmax line a =
    if ltb (length line) (arbuffer_avail a.current_buffer)
    then record a { current_buffer = arbuffer_append line a.current_buffer }
    else let b = swap_current bufmax a in
      record b { current_buffer = arbuffer_append line b.current_buffer }

-- What the writer does under the mutex.
pub collect : AsyncLog → Writer → AsyncLog × Writer
unfolding arraybufferalign_add_tail arraybufferalign_move arbuffer_move arbuffer_usable
collect a w =
    let t = (arraybufferalign_add_tail a.buffers a.current_buffer).0 in
    let moved = arraybufferalign_move w.buffers_to_write t in
    let first = arbuffer_move w.new_buffer1 in
    let second = arbuffer_move w.new_buffer2 in
    if arbuffer_usable a.next_buffer
    then (
      record { current_buffer = first.0; next_buffer = a.next_buffer; buffers = moved.1 },
      record { new_buffer1 = first.1; new_buffer2 = w.new_buffer2; buffers_to_write = moved.0 },
    )
    else (
      record { current_buffer = first.0; next_buffer = second.0; buffers = moved.1 },
      record { new_buffer1 = first.1; new_buffer2 = second.1; buffers_to_write = moved.0 },
    )

-- The bytes of the buffers, one after another.
pub texts : List ArBuffer → List ℕ
texts [] = []
texts (b ∷ bs) = text b ++ texts bs

-- What the file gets, and the buffers: of more than MAXBUFFER all but two are dropped, and `note`
-- says so.
pub write_out : List ℕ → BufferArray ArBuffer → List ℕ × BufferArray ArBuffer
unfolding arraybufferalign_erase texts
write_out note t =
    if ltb max_buffer t.cout
    then (
      note ++ texts (live (arraybufferalign_erase 2 (max_buffer + 1) t)),
      arraybufferalign_erase 2 (max_buffer + 1) t,
    )
    else (texts (live t), t)

pub keep_two : BufferArray ArBuffer → BufferArray ArBuffer
unfolding arraybufferalign_erase
keep_two t = if ltb 2 t.cout then arraybufferalign_erase 2 (max_buffer + 1) t else t

-- The last buffer of the array, emptied; `none` is an access before its first cell.
pub take_back : BufferArray ArBuffer → Option (ArBuffer × BufferArray ArBuffer)
unfolding arbuffer_move arbuffer_reset arbuffer_clear
take_back t =
    if t.cout == 0
    then none
    else let b = arbuffer_move (get_or t.buffers (t.cout - 1) arbuffer_clear) in
      some (
        arbuffer_reset b.0,
        record t { buffers = set t.buffers (t.cout - 1) b.1; cout = t.cout - 1 },
      )

-- A buffer of the writer that has gone is replaced from the array.
pub refill : ArBuffer → BufferArray ArBuffer → Option (ArBuffer × BufferArray ArBuffer)
unfolding take_back arbuffer_usable
refill b t = if arbuffer_usable b then some (b, t) else take_back t

-- The end of the turn, with the second buffer taken back or not, and what is left of it after the
-- first.
pub finish :
    List ℕ
    → AsyncLog
    → ArBuffer
    → Option (ArBuffer × BufferArray ArBuffer)
    → Option (List ℕ × AsyncLog × Writer)
unfolding arraybufferalign_clear
finish out a b none = none
finish out a b (some (b', t')) = some (
  out,
  a,
  record { new_buffer1 = b; new_buffer2 = b'; buffers_to_write = arraybufferalign_clear t' },
)

pub proceed :
    List ℕ
    → AsyncLog × Writer
    → Option (ArBuffer × BufferArray ArBuffer)
    → Option (List ℕ × AsyncLog × Writer)
unfolding refill finish
proceed out c none = none
proceed out c (some (b, t)) = finish out c.0 b (refill c.1.new_buffer2 t)

-- One turn of the loop of asynclog_threadFunc, with what it writes.
pub turn : List ℕ → AsyncLog → Writer → Option (List ℕ × AsyncLog × Writer)
unfolding collect write_out keep_two refill proceed
turn note a w =
    let c = collect a w in
    let out = write_out note c.1.buffers_to_write in
    proceed out.0 c (refill c.1.new_buffer1 (keep_two out.1))

-- The buffers of asynclog_def_init, and those that the writer thread starts with.
pub log_init : ℕ → AsyncLog
unfolding arbuffer_init arraybufferalign_init arbuffer_clear
log_init bufmax = record {
  current_buffer = arbuffer_init bufmax;
  next_buffer = arbuffer_init bufmax;
  buffers = arraybufferalign_init (max_buffer + 1) (record { buffers = []; max = 0; cout = 0 });
}

pub writer_init : ℕ → Writer
unfolding arbuffer_init arraybufferalign_init arbuffer_clear
writer_init bufmax = record {
  new_buffer1 = arbuffer_init bufmax;
  new_buffer2 = arbuffer_init bufmax;
  buffers_to_write =
      arraybufferalign_init (max_buffer + 1) (record { buffers = []; max = 0; cout = 0 });
}
