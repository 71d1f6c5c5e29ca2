-- ===== src/ArBuffer.antt =====
-- demo/C/asynclog/arbuffer.h: the log buffer of the asynchronous loggers, and the array of such
-- buffers that a logger hands to its writer thread. A pointer into the buffer is an offset.
use algorithm.Common.{
  ℕ, ◌+◌, ◌-◌, Bool, true, false, Option, none, some, List, [], ◌++◌, length, take, replicate,
  write_at, ◌≡◌, ◌≤◌, ap, sym, ◌∙◌, drop, length-append, length-take, length-drop, take-append,
  append_assoc, arith,
}
use algorithm.BufferArray.{BufferArray}
use algorithm.BufferArray

-- `arraybuffers_t`
pub record ArBuffer : Type 0 where
  pub buffer : Option (List ℕ)
  pub cur : ℕ
  pub len : ℕ

unfoldable pub arbuffer_usable : ArBuffer → Bool
arbuffer_usable b = elim b.buffer [ none ↦ false | some bs ↦ true ]

unfoldable pub arbuffer_avail : ArBuffer → ℕ
arbuffer_avail b = b.len - b.cur

pub arbuffer_used : ArBuffer → ℕ
arbuffer_used b = b.cur

unfoldable pub arbuffer_append : List ℕ → ArBuffer → ArBuffer
arbuffer_append line b = record b {
  buffer = elim b.buffer [ none ↦ none | some bs ↦ some (write_at b.cur line bs) ];
  cur = b.cur + length line;
}

unfoldable pub arbuffer_clear : ArBuffer
arbuffer_clear = record { buffer = none; cur = 0; len = 0 }

-- The destination and the source: the memory changes hands, and what was written is passed over.
unfoldable pub arbuffer_move : ArBuffer → ArBuffer × ArBuffer
unfolding arbuffer_clear
arbuffer_move src = (record { buffer = src.buffer; cur = 0; len = src.len }, arbuffer_clear)

unfoldable pub arbuffer_reset : ArBuffer → ArBuffer
arbuffer_reset b = record b { cur = 0 }

pub arbuffer_space : ArBuffer → ℕ
arbuffer_space b = b.len

-- calloc succeeds.
unfoldable pub arbuffer_init : ℕ → ArBuffer
arbuffer_init len = record { buffer = some (replicate len 0); cur = 0; len = len }

unfoldable pub arraybufferalign_add_tail :
    BufferArray ArBuffer → ArBuffer → BufferArray ArBuffer × ArBuffer
unfolding arbuffer_clear
arraybufferalign_add_tail = BufferArray.add_tail arbuffer_clear

unfoldable pub arraybufferalign_erase : ℕ → ℕ → BufferArray ArBuffer → BufferArray ArBuffer
unfolding arbuffer_clear
arraybufferalign_erase = BufferArray.erase arbuffer_clear

unfoldable pub arraybufferalign_move :
    BufferArray ArBuffer → BufferArray ArBuffer → BufferArray ArBuffer × BufferArray ArBuffer
unfolding arbuffer_clear
arraybufferalign_move = BufferArray.move arbuffer_clear

unfoldable pub arraybufferalign_clear : BufferArray ArBuffer → BufferArray ArBuffer
unfolding arbuffer_clear
arraybufferalign_clear = BufferArray.clear arbuffer_clear

unfoldable pub arraybufferalign_init : ℕ → BufferArray ArBuffer → BufferArray ArBuffer
unfolding arbuffer_clear
arraybufferalign_init = BufferArray.init arbuffer_clear

-- The bytes that have been written to the buffer.
abbrev pub text : ArBuffer → List ℕ
text b = elim b.buffer [ none ↦ [] | some bs ↦ take b.cur bs ]

-- A buffer that has memory, of the length that it says.
pub record IsBuffer (n : ℕ) (b : ArBuffer) : Type 0 where
  pub block : List ℕ
  pub memory : b.buffer ≡ some block
  pub size : length block ≡ b.len
  pub full : b.len ≡ n
  pub used : b.cur ≤ b.len

-- arbuffer_append writes the line behind what has been written, where it fits.
pub append-text :
    (n : ℕ) (line : List ℕ) {b : ArBuffer}
    → IsBuffer n b
    → b.cur + length line ≤ b.len
    → (text (arbuffer_append line b) ≡ text b ++ line) × IsBuffer n (arbuffer_append line b)
unfolding arbuffer_append
append-text n line {b} w h = (
  ap (λ o. elim o as (λ x. List ℕ) [ none ↦ [] | some bs ↦ take (b.cur + length line) bs ]) stored
      ∙ taken
      ∙ ap (λ xs. xs ++ line)
          (sym
            (ap (λ o. elim o as (λ x. List ℕ) [ none ↦ [] | some bs ↦ take b.cur bs ]) w.memory)),
  record {
    block = write_at b.cur line w.block;
    memory = stored;
    size = omega (
      arith,
      length-append (take b.cur w.block) (line ++ drop (b.cur + length line) w.block),
      length-append line (drop (b.cur + length line) w.block),
      length-take b.cur w.block,
      length-drop (b.cur + length line) w.block,
      w.size,
      w.used,
    );
    full = w.full;
    used = h;
  },
)
  where
    stored :
        (elim b.buffer as (λ x. Option (List ℕ)) [
          | none ↦ none
          | some bs ↦ some (write_at b.cur line bs)
        ])
        ≡ some (write_at b.cur line w.block)
    stored =
        ap
          (λ o. elim o as (λ x. Option (List ℕ)) [
            | none ↦ none
            | some bs ↦ some (write_at b.cur line bs)
          ])
          w.memory

    taken : take (b.cur + length line) (write_at b.cur line w.block) ≡ take b.cur w.block ++ line
    taken =
        ap (take (b.cur + length line))
          (sym (append_assoc (take b.cur w.block) line (drop (b.cur + length line) w.block)))
        ∙ take-append (b.cur + length line) (take b.cur w.block ++ line)
            (drop (b.cur + length line) w.block)
            (omega (
              arith,
              length-append (take b.cur w.block) line,
              length-take b.cur w.block,
              w.size,
              w.used,
            ))
