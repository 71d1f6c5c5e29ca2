-- ===== src/FlexBuffer.antt =====
-- demo/C/flex_buffer/flex_buffer.h: a growing byte buffer with a reader and a writer index, and an
-- array of such buffers. An `int` is a number here: the invariant keeps the differences from going
-- below 0. A size that is cut to an `int` keeps its 32 bits, and is negative from 2^31 on.
pub mod Holds
pub mod Space
pub mod Queue
pub mod Tests
use algorithm.Common.{
  to_u32, ◌^◌, ℕ, zero, suc, ◌+◌, ◌-◌, Bool, true, false, Option, none, some, List, [], ◌∷◌, ◌++◌,
  ltb, leb, ◌==◌, if◌then◌else◌, length, take, drop, replicate, slice, write_at, get_or, set, not,
}

-- `flex_buffer_t`; `none` is a NULL `_buffer`.
pub record FlexBuffer : Type 0 where
  pub buffer : Option (List ℕ)
  pub reader_index : ℕ
  pub writer_index : ℕ
  pub size : ℕ

-- The bytes behind the pointer; NULL has none.
abbrev pub bytes_of : Option (List ℕ) → List ℕ
bytes_of none = []
bytes_of (some bs) = bs

abbrev pub bytes : FlexBuffer → List ℕ
bytes b = bytes_of b.buffer

pub readable_bytes : FlexBuffer → ℕ
readable_bytes b = b.writer_index - b.reader_index

pub writable_bytes : FlexBuffer → ℕ
writable_bytes b = b.size - b.writer_index

-- A write through the pointer leaves it where it is.
abbrev pub store : (List ℕ → List ℕ) → Option (List ℕ) → Option (List ℕ)
store f none = none
store f (some bs) = some (f bs)

pub retrieve_all : FlexBuffer → FlexBuffer
retrieve_all b = record b {
  buffer = store (λ bs. write_at 0 (replicate b.size 0) bs) b.buffer;
  reader_index = 0;
  writer_index = 0;
}

-- `none` is an assertion that fails, here and below.
pub retrieve : ℕ → FlexBuffer → Option FlexBuffer
unfolding readable_bytes retrieve_all
retrieve len b =
    if ltb (readable_bytes b) len
    then none
    else if ltb len (readable_bytes b)
    then some (record b {
      buffer = store (λ bs. write_at b.reader_index (replicate len 0) bs) b.buffer;
      reader_index = b.reader_index + len;
    })
    else some (retrieve_all b)

-- `end` is given as an offset from `_buffer`.
pub retrieve_until : ℕ → FlexBuffer → Option FlexBuffer
unfolding retrieve
retrieve_until end b =
    if ltb end b.reader_index
    then none
    else if ltb b.writer_index end
    then none
    else retrieve (end - b.reader_index) b

-- The bytes that go to `data`, with the buffer; the length of the list is the result.
pub retrieve_read_data : ℕ → FlexBuffer → Option (List ℕ × FlexBuffer)
unfolding readable_bytes retrieve
retrieve_read_data len b =
    let n = if ltb (readable_bytes b) len then readable_bytes b else len in
    elim (retrieve n b) [ none ↦ none | some b' ↦ some (slice b.reader_index n (bytes b), b') ]

-- memmove of the readable bytes to the front.
pub compact : FlexBuffer → FlexBuffer
unfolding readable_bytes
compact b = if b.reader_index == 0 then b else record b {
  buffer = store (λ bs. write_at 0 (slice b.reader_index (readable_bytes b) bs) bs) b.buffer;
  reader_index = 0;
  writer_index = readable_bytes b;
}

-- realloc keeps the bytes that fit, and memset clears those past the old size.
pub grow : ℕ → FlexBuffer → FlexBuffer
grow len b = record b {
  buffer = some (take b.size (bytes b) ++ replicate (b.writer_index + len - b.size) 0);
  size = to_u32 (b.writer_index + len);
}

pub make_space : ℕ → FlexBuffer → FlexBuffer
unfolding compact grow writable_bytes
make_space len b = let c = compact b in if ltb (writable_bytes c) len then grow len c else c

-- With a negative size there are fewer than 0 writable bytes.
pub ensure_writable_bytes : ℕ → FlexBuffer → Option FlexBuffer
unfolding make_space writable_bytes
ensure_writable_bytes len b =
    let c : FlexBuffer = if ltb (writable_bytes b) len then make_space len b else b in
    if leb (2 ^ 31) c.size then none else if ltb (writable_bytes c) len then none else some c

pub has_written : ℕ → FlexBuffer → Option FlexBuffer
unfolding writable_bytes
has_written len b =
    if ltb (writable_bytes b) len
    then none
    else some (record b { writer_index = b.writer_index + len })

pub append : List ℕ → FlexBuffer → Option FlexBuffer
unfolding ensure_writable_bytes has_written
append d b = elim (ensure_writable_bytes (length d) b) [
  | none ↦ none
  | some c ↦
      has_written (length d)
        (record c { buffer = store (λ bs. write_at c.writer_index d bs) c.buffer })
]

-- With `isfree` the memory is freed first; what is left of the buffer is the same.
pub clean : FlexBuffer
clean = record { buffer = none; reader_index = 0; writer_index = 0; size = 0 }

-- The destination, whose own memory is freed if `clean` is set, and the source.
pub move_buffer : FlexBuffer → FlexBuffer × FlexBuffer
unfolding clean
move_buffer src = (src, clean)

pub usable : FlexBuffer → Bool
usable b = elim b.buffer [ none ↦ false | some bs ↦ true ]

-- `ok` and `ok'` say whether the two allocations succeed.
pub init : Bool → Bool → ℕ → Option FlexBuffer
init ok ok' size =
    if ok
    then (if ok'
        then some (record {
          buffer = some (replicate size 0);
          reader_index = 0;
          writer_index = 0;
          size = size;
        })
        else none)
    else none

-- `none` is the result -1, after which the buffer itself has been freed.
pub recalloc : Bool → ℕ → FlexBuffer → Option FlexBuffer
recalloc ok size b =
    if ok
    then some (record {
      buffer = some (replicate size 0);
      reader_index = 0;
      writer_index = 0;
      size = size;
    })
    else none
