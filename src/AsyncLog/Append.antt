-- ===== src/AsyncLog/Append.antt =====
-- `_log_append` keeps every byte, in the order of the calls.
use algorithm.Common.{
  ℕ, suc, ◌+◌, ◌<◌, ◌≤◌, ◌≡◌, refl, sym, ap, ◌∙◌, Bool, true, false, none, some, List, [], ◌∷◌,
  ◌++◌, ltb, length, take, arith, Bool-cases, inl, inr, ◌⊎◌, subst, if_true, if_false, append-nil,
  append_assoc, length-replicate, length-append, replicate,
}
use algorithm.BufferArray.{BufferArray, add_tail_max, length-live, live, IsArray, add_tail-live}
use algorithm.ArBuffer.{
  ArBuffer, arbuffer_usable, arbuffer_avail, arbuffer_append, arbuffer_move, arbuffer_init,
  arbuffer_clear, arraybufferalign_add_tail, text, IsBuffer, append-text,
}
use algorithm.AsyncLog.{AsyncLog, swap_current, log_append, texts, max_buffer}

-- Each buffer has memory for `n` bytes.
abbrev pub AreBuffers : ℕ → List ArBuffer → Type 0
AreBuffers n [] = Unit {0}
AreBuffers n (b ∷ bs) = IsBuffer n b × AreBuffers n bs

pub AreBuffers-append :
    (n : ℕ) (bs cs : List ArBuffer) → AreBuffers n bs → AreBuffers n cs → AreBuffers n (bs ++ cs)
AreBuffers-append n [] cs h k = k
AreBuffers-append n (b ∷ bs) cs h k = (h.0, AreBuffers-append n bs cs h.1 k)

pub texts-append : (bs cs : List ArBuffer) → texts (bs ++ cs) ≡ texts bs ++ texts cs
unfolding texts
texts-append [] cs = refl
texts-append (b ∷ bs) cs =
    ap (λ xs. text b ++ xs) (texts-append bs cs) ∙ sym (append_assoc (text b) (texts bs) (texts cs))

-- A buffer is there to be the next, or the array has the one that was.
abbrev pub HasNext : ℕ → AsyncLog → Type 0
HasNext n a = IsBuffer n a.next_buffer ⊎ ((a.next_buffer.buffer ≡ none) × (1 ≤ a.buffers.cout))

pub record IsLog (n : ℕ) (a : AsyncLog) : Type 0 where
  pub current : IsBuffer n a.current_buffer
  pub next : HasNext n a
  pub array : IsArray a.buffers
  pub max : a.buffers.max ≡ max_buffer + 1
  pub stored : AreBuffers n (live a.buffers)

-- The bytes that have been logged and not been written yet.
unfoldable pub pending : AsyncLog → List ℕ
unfolding texts
pending a = texts (live a.buffers) ++ text a.current_buffer

pub usable_lem : {n : ℕ} {b : ArBuffer} → IsBuffer n b → arbuffer_usable b ≡ true
unfolding arbuffer_usable
usable_lem w = ap (λ o. elim o as (λ x. Bool) [ none ↦ false | some bs ↦ true ]) w.memory

pub unusable_lem : (b : ArBuffer) → b.buffer ≡ none → arbuffer_usable b ≡ false
unfolding arbuffer_usable
unusable_lem b e = ap (λ o. elim o as (λ x. Bool) [ none ↦ false | some bs ↦ true ]) e

-- What has changed hands is empty.
pub move-IsBuffer :
    {n : ℕ} {b : ArBuffer}
    → IsBuffer n b
    → IsBuffer n (arbuffer_move b).0 × (text (arbuffer_move b).0 ≡ [])
unfolding arbuffer_move
move-IsBuffer w = (
  record { block = w.block; memory = w.memory; size = w.size; full = w.full; used = omega arith },
  ap (λ o. elim o as (λ x. List ℕ) [ none ↦ [] | some bs ↦ take 0 bs ]) w.memory,
)

pub init-IsBuffer : (n : ℕ) → IsBuffer n (arbuffer_init n) × (text (arbuffer_init n) ≡ [])
unfolding arbuffer_init
init-IsBuffer n = (
  record {
    block = replicate n 0;
    memory = refl;
    size = length-replicate n 0;
    full = refl;
    used = omega arith;
  },
  refl,
)

module _ (n : ℕ) (a : AsyncLog) (w : IsLog n a) (room : a.buffers.cout < a.buffers.max) where
  abbrev pub added : BufferArray ArBuffer
  added = (arraybufferalign_add_tail a.buffers a.current_buffer).0

  pub added-live :
      (live added ≡ live a.buffers ++ a.current_buffer ∷ [])
      × IsArray added
      × (added.max ≡ max_buffer + 1)
      × (added.cout ≡ suc a.buffers.cout)
  unfolding arraybufferalign_add_tail
  added-live =
      let all = (add_tail-live arbuffer_clear a.buffers a.current_buffer w.array).0 room in
      (
        all.0,
        all.2,
        add_tail_max arbuffer_clear a.buffers a.current_buffer ∙ w.max,
        omega (
          arith,
          ap length all.0,
          length-append (live a.buffers) (a.current_buffer ∷ []),
          length-live a.buffers w.array,
          length-live added all.2,
        ),
      )

  pub added-texts : texts (live added) ≡ pending a
  unfolding pending texts
  added-texts =
      ap texts added-live.0
      ∙ texts-append (live a.buffers) (a.current_buffer ∷ [])
      ∙ ap (λ xs. texts (live a.buffers) ++ xs) (append-nil (text a.current_buffer))

  pub added-AreBuffers : AreBuffers n (live added)
  added-AreBuffers =
      subst (AreBuffers n) (sym added-live.0)
        (AreBuffers-append n (live a.buffers) (a.current_buffer ∷ []) w.stored (w.current, tt))

  -- With the array as it is now, any empty buffer can be the current one.
  fresh-IsLog :
      (b next : ArBuffer)
      → IsBuffer n b
      → (IsBuffer n next ⊎ (next.buffer ≡ none))
      → IsLog n (record { current_buffer = b; next_buffer = next; buffers = added })
  fresh-IsLog b next h k = record {
    current = h;
    next = elim k [ inl u ↦ inl u | inr u ↦ inr (u, omega (arith, added-live.3)) ];
    array = added-live.1;
    max = added-live.2;
    stored = added-AreBuffers;
  }

  swap_lem :
      IsLog n (swap_current n a)
      × ((swap_current n a).buffers ≡ added)
      × (text (swap_current n a).current_buffer ≡ [])
      × ((swap_current n a).current_buffer.cur ≡ 0)
  unfolding swap_current arbuffer_move arbuffer_init arbuffer_clear
  swap_lem = elim w.next [
    | inl u ↦
        subst
          (λ (s : AsyncLog).
            IsLog n s
            × (s.buffers ≡ added)
            × (text s.current_buffer ≡ [])
            × (s.current_buffer.cur ≡ 0))
          (sym (
            if_true
              (record {
                current_buffer = (arbuffer_move a.next_buffer).0;
                next_buffer = (arbuffer_move a.next_buffer).1;
                buffers = added;
              })
              (record {
                current_buffer = arbuffer_init n;
                next_buffer = a.next_buffer;
                buffers = added;
              })
              (usable_lem u)))
          (
            fresh-IsLog (arbuffer_move a.next_buffer).0 (arbuffer_move a.next_buffer).1
                (move-IsBuffer u).0 (inr refl),
            refl,
            (move-IsBuffer u).1,
            refl,
          )
    | inr u ↦
        subst
          (λ (s : AsyncLog).
            IsLog n s
            × (s.buffers ≡ added)
            × (text s.current_buffer ≡ [])
            × (s.current_buffer.cur ≡ 0))
          (sym (
            if_false
              (record {
                current_buffer = (arbuffer_move a.next_buffer).0;
                next_buffer = (arbuffer_move a.next_buffer).1;
                buffers = added;
              })
              (record {
                current_buffer = arbuffer_init n;
                next_buffer = a.next_buffer;
                buffers = added;
              })
              (unusable_lem a.next_buffer u.0)))
          (
            fresh-IsLog (arbuffer_init n) a.next_buffer (init-IsBuffer n).0 (inr u.0),
            refl,
            (init-IsBuffer n).1,
            refl,
          )
  ]

swap_pending :
    (n : ℕ) (a : AsyncLog) (w : IsLog n a) (room : a.buffers.cout < a.buffers.max)
    → pending (swap_current n a) ≡ pending a
unfolding pending
swap_pending n a w room =
    let s = swap_lem n a w room in
    ap (λ t. texts (live t) ++ text (swap_current n a).current_buffer) s.1
    ∙ ap (λ xs. texts (live (added n a w room)) ++ xs) s.2
    ∙ append-nil (texts (live (added n a w room)))
    ∙ added-texts n a w room

-- A line that is written to the current buffer is the last of what is pending.
write_lem :
    (n : ℕ) (line : List ℕ) (a : AsyncLog)
    → IsLog n a
    → a.current_buffer.cur + length line ≤ n
    → (pending (record a { current_buffer = arbuffer_append line a.current_buffer })
        ≡ pending a ++ line)
      × IsLog n (record a { current_buffer = arbuffer_append line a.current_buffer })
unfolding pending
write_lem n line a w h =
    let made = append-text n line w.current (omega (arith, w.current.full)) in
    (
      ap (λ xs. texts (live a.buffers) ++ xs) made.0
          ∙ sym (append_assoc (texts (live a.buffers)) (text a.current_buffer) line),
      record { current = made.1; next = w.next; array = w.array; max = w.max; stored = w.stored },
    )

-- A line that is no longer than a buffer is added behind what is pending, whether the current
-- buffer takes it or another takes its place, and the log has its buffers as before, as long as
-- the array is not full.
pub log_append-IsLog :
    (n : ℕ) (line : List ℕ) (a : AsyncLog)
    → IsLog n a
    → a.buffers.cout < a.buffers.max
    → length line ≤ n
    → (pending (log_append n line a) ≡ pending a ++ line) × IsLog n (log_append n line a)
unfolding log_append arbuffer_avail
log_append-IsLog n line a w room h =
    let b = swap_current n a in
    let write : AsyncLog → AsyncLog =
      λ c. record c { current_buffer = arbuffer_append line c.current_buffer } in
    elim (Bool-cases (ltb (length line) (arbuffer_avail a.current_buffer))) [
      | inl e ↦
          subst (λ c. (pending c ≡ pending a ++ line) × IsLog n c)
            (sym (if_true (write a) (write b) e))
            (write_lem n line a w (ground (arith, w.current.full, w.current.used)))
      | inr e ↦
          let s = swap_lem n a w room in
          let made = write_lem n line b s.0 (omega (arith, s.3)) in
          subst (λ c. (pending c ≡ pending a ++ line) × IsLog n c)
            (sym (if_false (write a) (write b) e))
            (made.0 ∙ ap (λ xs. xs ++ line) (swap_pending n a w room), made.1)
    ]
