-- ===== src/FlexBuffer/Queue.antt =====
-- A run of appends and reads on one buffer, and the queue of bytes that it is.
use algorithm.Common.{
  ◌+◌, ◌<◌, ◌^◌, ◌&&◌, Bool, ℕ, ◌≤◌, ◌≡◌, refl, sym, ap, ◌∙◌, true, Option, none, some, List, [],
  ◌∷◌, ◌++◌, ltb, length, take, drop, replicate, slice, arith, Bool-cases, inl, inr, subst, if_true,
  if_false, drop-append, take-append_le, take_over, drop_over, take_self, length-replicate,
}
use algorithm.FlexBuffer.{
  FlexBuffer, bytes, readable_bytes, retrieve, retrieve_read_data, append, init,
}
use algorithm.FlexBuffer.Holds.{Holds, readable-Holds, retrieve-Holds}
use algorithm.FlexBuffer.Space.{append-Holds}

-- One call on the buffer.
pub data Call : Type 0 where
  write : List ℕ → Call
  read : ℕ → Call

-- What the calls return, in their order: nothing for a write, and the bytes that a read copies.
pub run : List Call → FlexBuffer → Option (List (List ℕ))
unfolding append retrieve_read_data
run [] b = some []
run (write d ∷ cs) b = elim (append d b) [ none ↦ none | some c ↦ run cs c ]
run (read n ∷ cs) b = elim (retrieve_read_data n b) [
  | none ↦ none
  | some (xs, c) ↦ elim (run cs c) [ none ↦ none | some rest ↦ some (xs ∷ rest) ]
]

-- The same calls on a queue.
unfoldable pub run_queue : List Call → List ℕ → List (List ℕ)
run_queue [] q = []
run_queue (write d ∷ cs) q = run_queue cs (q ++ d)
run_queue (read n ∷ cs) q = take n q ∷ run_queue cs (drop n q)

-- What is copied out before flex_retrieve.
slice-take :
    (n : ℕ) {b : FlexBuffer} {q : List ℕ}
    → Holds b q
    → n ≤ length q
    → slice b.reader_index n (bytes b) ≡ take n q
slice-take n {b} {q} h k =
    ap (λ bs. take n (drop b.reader_index bs)) h.block
    ∙ ap (take n) (drop-append b.reader_index h.pre (q ++ h.post) h.reader)
    ∙ take-append_le n q h.post k

-- The copy, and the retrieve behind it.
read_out : ℕ → FlexBuffer → Option (List ℕ × FlexBuffer)
unfolding retrieve
read_out n b = elim (retrieve n b) [
  | none ↦ none
  | some b' ↦ some (slice b.reader_index n (bytes b), b')
]

read_out_lem :
    (n : ℕ) {b : FlexBuffer} {q : List ℕ}
    → Holds b q
    → n ≤ length q
    → (c : FlexBuffer) × (read_out n b ≡ some (take n q, c)) × Holds c (drop n q)
unfolding read_out
read_out_lem n {b} {q} h k =
    let made = (retrieve-Holds n h).0 k in
    (
      made.0,
      ap
            (λ o. elim o as (λ x. Option (List ℕ × FlexBuffer)) [
              | none ↦ none
              | some b' ↦ some (slice b.reader_index n (bytes b), b')
            ])
            made.1
          ∙ ap (λ xs. some (xs, made.0)) (slice-take n h k),
      made.2,
    )

-- retrieveReadData copies the first `n` bytes, or all of them where there are fewer, and drops them
-- from the buffer.
pub read-Holds :
    (n : ℕ) {b : FlexBuffer} {q : List ℕ}
    → Holds b q
    → (c : FlexBuffer) × (retrieve_read_data n b ≡ some (take n q, c)) × Holds c (drop n q)
unfolding retrieve_read_data read_out
read-Holds n {b} {q} h = elim (Bool-cases (ltb (readable_bytes b) n)) [
  | inl e ↦
      let made = read_out_lem (length q) h (omega arith) in
      (
        made.0,
        ap (λ m. read_out m b) (if_true (readable_bytes b) n e ∙ readable-Holds h)
            ∙ made.1
            ∙ ap (λ xs. some (xs, made.0))
                (take_self q ∙ sym (take_over n q (ground (arith, readable-Holds h)))),
        subst (Holds made.0)
            (drop_over (length q) q (omega arith)
              ∙ sym (drop_over n q (ground (arith, readable-Holds h))))
            made.2,
      )
  | inr e ↦
      let made = read_out_lem n h (ground (arith, readable-Holds h)) in
      (made.0, ap (λ m. read_out m b) (if_false (readable_bytes b) n e) ∙ made.1, made.2)
]

-- No append makes the queue as long as 2^31 bytes.
abbrev pub fits : List Call → List ℕ → Bool
fits [] q = true
fits (write d ∷ cs) q = ltb (length q + length d) (2 ^ 31) && fits cs (q ++ d)
fits (read n ∷ cs) q = fits cs (drop n q)

-- A run of appends and reads on a buffer never fails, where no append makes the bytes that wait as
-- many as 2^31, and the reads return what a queue would.
pub run_lem :
    (cs : List Call) {b : FlexBuffer} {q : List ℕ}
    → Holds b q
    → fits cs q ≡ true
    → run cs b ≡ some (run_queue cs q)
unfolding run run_queue
run_lem [] h f = refl
run_lem (write d ∷ cs) {b} {q} h f =
    let made = append-Holds d h (ground arith) in
    ap (λ o. elim o as (λ x. Option (List (List ℕ))) [ none ↦ none | some c ↦ run cs c ]) made.1
    ∙ run_lem cs made.2 (ground arith)
run_lem (read n ∷ cs) {b} {q} h f =
    let made = read-Holds n h in
    ap
      (λ o. elim o as (λ x. Option (List (List ℕ))) [
        | none ↦ none
        | some (xs, c) ↦ elim (run cs c) [ none ↦ none | some rest ↦ some (xs ∷ rest) ]
      ])
      made.1
    ∙ ap
        (λ o. elim o as (λ x. Option (List (List ℕ))) [
          | none ↦ none
          | some rest ↦ some (take n q ∷ rest)
        ])
        (run_lem cs made.2 f)

-- A new buffer is an empty queue.
pub init-Holds :
    (size : ℕ) → size < 2 ^ 31 → (c : FlexBuffer) × (init true true size ≡ some c) × Holds c []
unfolding init
init-Holds size small = (
  record { buffer = some (replicate size 0); reader_index = 0; writer_index = 0; size = size },
  refl,
  record {
    pre = [];
    post = replicate size 0;
    block = refl;
    reader = refl;
    writer = refl;
    room = omega (arith, length-replicate {A = ℕ} size 0);
    small = small;
  },
)
