-- ===== src/AsyncLog/Turn.antt =====
-- The loop of the writer thread: what it writes, and the buffers that it takes back.
use algorithm.Common.{
  ℕ, zero, suc, ◌+◌, ◌-◌, ◌<◌, ◌≤◌, ◌≡◌, refl, sym, ap, ◌∙◌, none, some, List, [], ◌∷◌, ◌++◌, ltb,
  ◌==◌, length, take, set, get_or, arith, Bool-cases, inl, inr, subst, if_true, if_false,
  length-set, min, take_over, ◌⊎◌,
}
use algorithm.BufferArray.{
  BufferArray, live, IsArray, move-live, length-live, erase-live, take-set_out, erase, move_max,
}
use algorithm.ArBuffer.{
  ArBuffer, arbuffer_move, arbuffer_reset, arbuffer_clear, arraybufferalign_erase,
  arraybufferalign_move, text, IsBuffer,
}
use algorithm.AsyncLog.{AsyncLog, Writer, collect, texts, keep_two, take_back, max_buffer}
use algorithm.AsyncLog.Append.{
  AreBuffers, IsLog, pending, usable_lem, unusable_lem, move-IsBuffer, added, added-live,
  added-texts, added-AreBuffers,
}

take-AreBuffers :
    (n k c : ℕ) (bs : List ArBuffer) → k ≤ c → AreBuffers n (take c bs) → AreBuffers n (take k bs)
take-AreBuffers n zero c bs h w = tt
take-AreBuffers n (suc k) (suc c) [] h w = tt
take-AreBuffers n (suc k) (suc c) (b ∷ bs) h w = (w.0, take-AreBuffers n k c bs (omega arith) w.1)
take-AreBuffers n (suc k) zero bs h w = absurd (omega arith)

get-IsBuffer :
    (n k : ℕ) (bs : List ArBuffer) (d : ArBuffer)
    → k < length bs
    → AreBuffers n (take (suc k) bs)
    → IsBuffer n (get_or bs k d)
get-IsBuffer n k [] d h w = absurd (omega arith)
get-IsBuffer n zero (b ∷ bs) d h w = w.0
get-IsBuffer n (suc k) (b ∷ bs) d h w = get-IsBuffer n k bs d (omega arith) w.1

-- An array whose `k` buffers all have memory.
pub record Stocked (n k : ℕ) (t : BufferArray ArBuffer) : Type 0 where
  pub array : IsArray t
  pub stored : AreBuffers n (live t)
  pub amount : t.cout ≡ k
  pub max : t.max ≡ max_buffer + 1

-- Where the array has a buffer, it is taken from its end.
pub take_back_lem :
    (n k : ℕ) (t : BufferArray ArBuffer)
    → Stocked n (suc k) t
    → (b : ArBuffer) × (t' : BufferArray ArBuffer) × (take_back t ≡ some (b, t'))
      × IsBuffer n b
      × Stocked n k t'
unfolding take_back arbuffer_move arbuffer_reset arbuffer_clear
take_back_lem n k t w =
    let i : t.cout - 1 ≡ k = omega (arith, w.amount) in
    let b = get_or t.buffers (t.cout - 1) arbuffer_clear in
    (
      arbuffer_reset (arbuffer_move b).0,
      record t { buffers = set t.buffers (t.cout - 1) arbuffer_clear; cout = t.cout - 1 },
      if_false {b = t.cout == 0} none _ (ground (arith, w.amount)),
      (move-IsBuffer (
          get-IsBuffer n (t.cout - 1) t.buffers arbuffer_clear
            (omega (arith, w.amount, w.array.cells, w.array.used))
            (take-AreBuffers n (suc (t.cout - 1)) t.cout t.buffers (omega (arith, w.amount))
              w.stored))).0,
      record {
        array = record {
          cells = length-set t.buffers (t.cout - 1) arbuffer_clear ∙ w.array.cells;
          used = omega (arith, w.array.used);
        };
        stored =
            subst (AreBuffers n)
              (sym (take-set_out (t.cout - 1) (t.cout - 1) t.buffers arbuffer_clear (omega arith)))
              (take-AreBuffers n (t.cout - 1) t.cout t.buffers (omega arith) w.stored);
        amount = i;
        max = w.max;
      },
    )

pub keep_two-Stocked :
    (n k : ℕ) (t : BufferArray ArBuffer) → Stocked n k t → Stocked n (min 2 k) (keep_two t)
unfolding keep_two arraybufferalign_erase erase
keep_two-Stocked n k t w = elim (Bool-cases (ltb 2 t.cout)) [
  | inl e ↦
      let kept = erase-live arbuffer_clear 2 24 t w.array (omega (arith, w.max)) in
      subst (Stocked n (min 2 k)) (sym (if_true (arraybufferalign_erase 2 24 t) t e)) (record {
        array = kept.1;
        stored =
            subst (AreBuffers n) (sym kept.0)
              (take-AreBuffers n 2 t.cout t.buffers (ground arith) w.stored);
        amount = ground (arith, w.amount);
        max = w.max;
      })
  | inr e ↦
      subst (Stocked n (min 2 k)) (sym (if_false (arraybufferalign_erase 2 24 t) t e)) (record {
        array = w.array;
        stored = w.stored;
        amount = ground (arith, w.amount);
        max = w.max;
      })
]

-- The writer has its two buffers.
pub record IsWriter (n : ℕ) (w : Writer) : Type 0 where
  pub first : IsBuffer n w.new_buffer1
  pub second : IsBuffer n w.new_buffer2
  pub array : IsArray w.buffers_to_write
  pub max : w.buffers_to_write.max ≡ max_buffer + 1

-- What is left in the log and what the writer has, after the buffers have changed hands.
pub record Collected (n : ℕ) (a : AsyncLog) (c : AsyncLog × Writer) : Type 0 where
  pub log : IsLog n c.0
  pub drained : pending c.0 ≡ []
  pub all : texts (live c.1.buffers_to_write) ≡ pending a
  pub stocked : Stocked n (suc a.buffers.cout) c.1.buffers_to_write
  pub first : c.1.new_buffer1.buffer ≡ none
  pub second : IsBuffer n c.1.new_buffer2 ⊎ ((c.1.new_buffer2.buffer ≡ none) × (1 ≤ a.buffers.cout))

module _ (n : ℕ) (a : AsyncLog) (w : Writer) (l : IsLog n a) (v : IsWriter n w)
    (room : a.buffers.cout < a.buffers.max) where
  abbrev moved : BufferArray ArBuffer × BufferArray ArBuffer
  moved = arraybufferalign_move w.buffers_to_write (added n a l room)

  -- The writer's array has what the log's array had, with the current buffer.
  moved-Stocked :
      Stocked n (suc a.buffers.cout) moved.0
      × (texts (live moved.0) ≡ pending a)
      × (live moved.1 ≡ [])
      × IsArray moved.1
      × (moved.1.max ≡ max_buffer + 1)
  unfolding arraybufferalign_move
  moved-Stocked =
      let t = added-live n a l room in
      let m = move-live arbuffer_clear w.buffers_to_write (added n a l room) v.array t.1 in
      let top = move_max arbuffer_clear w.buffers_to_write (added n a l room) in
      let same =
        m.0
        ∙ take_over w.buffers_to_write.max (live (added n a l room))
            (omega (arith, length-live (added n a l room) t.1, t.2, t.1.used, v.max)) in
      (
        record {
          array = m.2;
          stored = subst (AreBuffers n) (sym same) (added-AreBuffers n a l room);
          amount =
              sym (length-live moved.0 m.2)
              ∙ ap length same
              ∙ length-live (added n a l room) t.1
              ∙ t.3;
          max = top.0 ∙ v.max;
        },
        ap texts same ∙ added-texts n a l room,
        m.1,
        m.3,
        top.1 ∙ t.2,
      )

  log_of :
      (b next : ArBuffer)
      → IsBuffer n b
      → IsBuffer n next
      → text b ≡ []
      → IsLog n (record { current_buffer = b; next_buffer = next; buffers = moved.1 })
        × (pending (record { current_buffer = b; next_buffer = next; buffers = moved.1 }) ≡ [])
  unfolding pending texts
  log_of b next h k e = (
    record {
      current = h;
      next = inl k;
      array = moved-Stocked.3;
      max = moved-Stocked.4;
      stored = subst (AreBuffers n) (sym moved-Stocked.2) tt;
    },
    ap (λ bs. texts bs ++ text b) moved-Stocked.2 ∙ e,
  )

  pub collect-Collected : Collected n a (collect a w)
  unfolding collect arbuffer_move arbuffer_clear
  collect-Collected =
      let one = move-IsBuffer v.first in
      let two = move-IsBuffer v.second in
      let kept : AsyncLog × Writer = (
        record {
          current_buffer = (arbuffer_move w.new_buffer1).0;
          next_buffer = a.next_buffer;
          buffers = moved.1;
        },
        record {
          new_buffer1 = (arbuffer_move w.new_buffer1).1;
          new_buffer2 = w.new_buffer2;
          buffers_to_write = moved.0;
        },
      ) in
      let given : AsyncLog × Writer = (
        record {
          current_buffer = (arbuffer_move w.new_buffer1).0;
          next_buffer = (arbuffer_move w.new_buffer2).0;
          buffers = moved.1;
        },
        record {
          new_buffer1 = (arbuffer_move w.new_buffer1).1;
          new_buffer2 = (arbuffer_move w.new_buffer2).1;
          buffers_to_write = moved.0;
        },
      ) in
      elim l.next [
        | inl u ↦
            let made = log_of (arbuffer_move w.new_buffer1).0 a.next_buffer one.0 u one.1 in
            subst (Collected n a) (sym (if_true kept given (usable_lem u))) (record {
              log = made.0;
              drained = made.1;
              all = moved-Stocked.1;
              stocked = moved-Stocked.0;
              first = refl;
              second = inl v.second;
            })
        | inr u ↦
            let made =
              log_of (arbuffer_move w.new_buffer1).0 (arbuffer_move w.new_buffer2).0 one.0 two.0
                one.1 in
            subst (Collected n a) (sym (if_false kept given (unusable_lem a.next_buffer u.0)))
              (record {
                log = made.0;
                drained = made.1;
                all = moved-Stocked.1;
                stocked = moved-Stocked.0;
                first = refl;
                second = inr (refl, u.1);
              })
      ]
