-- ===== src/AsyncLog/Refill.antt =====
-- One whole turn of asynclog_threadFunc.
use algorithm.Common.{
  ℕ, zero, suc, ◌<◌, ◌≤◌, ◌≡◌, refl, ap, ◌∙◌, none, some, List, [], ltb, arith, inl, inr, if_true,
  if_false, min, ◌⊎◌,
}
use algorithm.BufferArray.{BufferArray, live, IsArray, clear-IsArray, clear, erase, init}
use algorithm.ArBuffer.{
  ArBuffer, arraybufferalign_init, arbuffer_clear, arraybufferalign_clear, IsBuffer,
}
use algorithm.AsyncLog.{
  AsyncLog, Writer, collect, texts, write_out, keep_two, take_back, refill, turn, finish, proceed,
  log_init, writer_init, max_buffer,
}
use algorithm.AsyncLog.Append.{IsLog, init-IsBuffer, pending, usable_lem, unusable_lem}
use algorithm.AsyncLog.Turn.{Stocked, take_back_lem, keep_two-Stocked, IsWriter, collect-Collected}

-- A buffer that is there stays; one that has gone is taken from the array.
refill_lem :
    (n k : ℕ) (b : ArBuffer) (t : BufferArray ArBuffer)
    → Stocked n k t
    → (IsBuffer n b ⊎ ((b.buffer ≡ none) × (1 ≤ k)))
    → (b' : ArBuffer) × (j : ℕ) × (t' : BufferArray ArBuffer) × (refill b t ≡ some (b', t'))
      × IsBuffer n b'
      × Stocked n j t'
      × (k ≤ suc j)
unfolding refill
refill_lem n k b t w (inl u) =
    (b, k, t, if_true (some (b, t)) (take_back t) (usable_lem u), u, w, omega arith)
refill_lem n zero b t w (inr u) = absurd (omega (arith, u.1))
refill_lem n (suc k) b t w (inr u) =
    let got = take_back_lem n k t w in
    (
      got.0,
      k,
      got.1,
      if_false (some (b, t)) (take_back t) (unusable_lem b u.0) ∙ got.2,
      got.3,
      got.4,
      omega arith,
    )

clear_lem : (t : BufferArray ArBuffer) → IsArray t → IsArray (arraybufferalign_clear t)
unfolding arraybufferalign_clear
clear_lem t w = clear-IsArray arbuffer_clear t w

clear_max : (t : BufferArray ArBuffer) → (arraybufferalign_clear t).max ≡ t.max
unfolding arraybufferalign_clear clear erase
clear_max t = refl

-- Where the log and the writer have their buffers and the array has fewer than MAXBUFFER, one turn
-- of the writer writes exactly the bytes that have been logged, in their order, and leaves none
-- pending; it finds the buffers that it takes back, so that the log and the writer have their
-- buffers again.
pub turn-IsWriter :
    (n : ℕ) (note : List ℕ) (a : AsyncLog) (w : Writer)
    → IsLog n a
    → IsWriter n w
    → a.buffers.cout < max_buffer
    → (b : AsyncLog) × (v : Writer) × (turn note a w ≡ some (pending a, b, v))
      × IsLog n b
      × (pending b ≡ [])
      × IsWriter n v
unfolding turn write_out proceed finish
turn-IsWriter n note a w l v h =
    let c = collect a w in
    let k = collect-Collected n a w l v (omega (arith, l.max)) in
    let t = c.1.buffers_to_write in
    let out : write_out note t ≡ (texts (live t), t) =
      if_false {b = ltb max_buffer t.cout} _ (texts (live t), t)
        (ground (arith, k.stocked.amount)) in
    let one =
      refill_lem n (min 2 (suc a.buffers.cout)) c.1.new_buffer1 (keep_two t)
        (keep_two-Stocked n (suc a.buffers.cout) t k.stocked) (inr (k.first, omega arith)) in
    let two =
      refill_lem n one.1 c.1.new_buffer2 one.2 one.5
        (elim k.second [ inl u ↦ inl u | inr u ↦ inr (u.0, omega (arith, one.6, u.1)) ]) in
    (
      c.0,
      record {
        new_buffer1 = one.0;
        new_buffer2 = two.0;
        buffers_to_write = arraybufferalign_clear two.2;
      },
      ap
            (λ (o : List ℕ × BufferArray ArBuffer).
              proceed o.0 c (refill c.1.new_buffer1 (keep_two o.1)))
            out
          ∙ ap (proceed (texts (live t)) c) one.3
          ∙ ap (finish (texts (live t)) c.0 one.0) two.3
          ∙ ap (λ xs. finish xs c.0 one.0 (some (two.0, two.2))) k.all,
      k.log,
      k.drained,
      record {
        first = one.4;
        second = two.4;
        array = clear_lem two.2 two.5.array;
        max = clear_max two.2 ∙ two.5.max;
      },
    )

-- The logger and its writer start with empty buffers and nothing to write.
pub log_init-IsLog :
    (n : ℕ) → IsLog n (log_init n) × (pending (log_init n) ≡ []) × IsWriter n (writer_init n)
unfolding log_init writer_init pending texts arraybufferalign_init init
log_init-IsLog n =
    let b = init-IsBuffer n in
    (
      record {
        current = b.0;
        next = inl b.0;
        array = record { cells = refl; used = omega arith };
        max = refl;
        stored = tt;
      },
      b.1,
      record {
        first = b.0;
        second = b.0;
        array = record { cells = refl; used = omega arith };
        max = refl;
      },
    )
