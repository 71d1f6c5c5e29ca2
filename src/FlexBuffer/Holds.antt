-- ===== src/FlexBuffer/Holds.antt =====
-- The queue of bytes that a flex buffer holds, and the operations that take bytes from it.
use algorithm.Common.{
  ◌^◌, ℕ, ◌+◌, ◌-◌, ◌<◌, ◌≤◌, ◌≡◌, refl, sym, ap, ◌∙◌, Option, none, some, List, [], ◌∷◌, ◌++◌, ltb,
  length, length-append, length-replicate, take, drop, replicate, slice, write_at, write_at_lem,
  take-append, drop-append, take-append-drop, length-take, length-drop, arith, Bool-cases, inl, inr,
  append_assoc, drop_over, append-nil, subst, if_true, if_false,
}
use algorithm.FlexBuffer.{
  FlexBuffer, bytes_of, bytes, store, readable_bytes, retrieve_all, retrieve,
}

-- The bytes between the two indices are `q`, and the block is as long as `size` says, which is an
-- `int` that is not negative.
pub record Holds (b : FlexBuffer) (q : List ℕ) : Type 0 where
  pub pre : List ℕ
  pub post : List ℕ
  pub block : bytes b ≡ pre ++ (q ++ post)
  pub reader : length pre ≡ b.reader_index
  pub writer : b.reader_index + length q ≡ b.writer_index
  pub room : b.writer_index + length post ≡ b.size
  pub small : b.size < 2 ^ 31

-- The readable bytes are what the buffer holds.
pub slice-Holds :
    {b : FlexBuffer} {q : List ℕ}
    → Holds b q
    → slice b.reader_index (readable_bytes b) (bytes b) ≡ q
unfolding readable_bytes
slice-Holds {b} {q} h =
    ap (λ bs. take (b.writer_index - b.reader_index) (drop b.reader_index bs)) h.block
    ∙ ap (take (b.writer_index - b.reader_index))
        (drop-append b.reader_index h.pre (q ++ h.post) h.reader)
    ∙ take-append (b.writer_index - b.reader_index) q h.post (omega (arith, h.writer))

length_zero : (xs : List ℕ) → length xs ≡ 0 → xs ≡ []
length_zero [] h = refl
length_zero (x ∷ xs) h = absurd (omega arith)

-- A write of as many bytes as `old` has, also where the block is NULL and all is empty.
pub store_write :
    (o : Option (List ℕ)) (i : ℕ) (pre old post d : List ℕ)
    → bytes_of o ≡ pre ++ (old ++ post)
    → length pre ≡ i
    → length old ≡ length d
    → bytes_of (store (write_at i d) o) ≡ pre ++ (d ++ post)
store_write (some bs) i pre old post d e h k =
    ap (write_at i d) e ∙ write_at_lem i pre old post d h k
store_write none i pre old post d e h k =
    let total = ap length e ∙ length-append pre (old ++ post) in
    let rest = length-append old post in
    sym (
      ap (λ xs. xs ++ (d ++ post)) (length_zero pre (omega arith))
      ∙ ap (λ xs. xs ++ post) (length_zero d (omega arith))
      ∙ length_zero post (omega arith))

-- The length of the block.
pub length-Holds : {b : FlexBuffer} {q : List ℕ} → Holds b q → length (bytes b) ≡ b.size
length-Holds {b} {q} h =
    let total = ap length h.block ∙ length-append h.pre (q ++ h.post) in
    omega (arith, total, length-append q h.post, h.reader, h.writer, h.room)

-- retrieve_all leaves an empty buffer.
pub retrieve_all-Holds : {b : FlexBuffer} {q : List ℕ} → Holds b q → Holds (retrieve_all b) []
unfolding retrieve_all
retrieve_all-Holds {b} {q} h = record {
  pre = [];
  post = replicate b.size 0;
  block =
      store_write b.buffer 0 [] (bytes b) [] (replicate b.size 0) (sym (append-nil (bytes b))) refl
        (length-Holds h ∙ sym (length-replicate b.size 0))
      ∙ append-nil (replicate b.size 0);
  reader = refl;
  writer = refl;
  room = omega (arith, length-replicate {A = ℕ} b.size 0);
  small = h.small;
}

-- The first `len` of the bytes, cleared and skipped.
skip : ℕ → FlexBuffer → FlexBuffer
skip len b = record b {
  buffer = store (λ bs. write_at b.reader_index (replicate len 0) bs) b.buffer;
  reader_index = b.reader_index + len;
}

skip-Holds :
    (len : ℕ) {b : FlexBuffer} {q : List ℕ}
    → Holds b q
    → len < length q
    → Holds (skip len b) (drop len q)
unfolding skip
skip-Holds len {b} {q} h k = record {
  pre = h.pre ++ replicate len 0;
  post = h.post;
  block =
      store_write b.buffer b.reader_index h.pre (take len q) (drop len q ++ h.post)
        (replicate len 0)
        (h.block
          ∙ ap (λ xs. h.pre ++ (xs ++ h.post)) (sym (take-append-drop len q))
          ∙ ap (λ xs. h.pre ++ xs) (append_assoc (take len q) (drop len q) h.post))
        h.reader (omega (arith, length-take len q, length-replicate {A = ℕ} len 0))
      ∙ sym (append_assoc h.pre (replicate len 0) (drop len q ++ h.post));
  reader =
      omega
        (arith, length-append h.pre (replicate len 0), length-replicate {A = ℕ} len 0, h.reader);
  writer = omega (arith, length-drop len q, h.writer);
  room = h.room;
  small = h.small;
}

pub readable-Holds : {b : FlexBuffer} {q : List ℕ} → Holds b q → readable_bytes b ≡ length q
unfolding readable_bytes
readable-Holds h = omega (arith, h.writer)

-- flex_retrieve drops the bytes that it is told, and fails its assertion where there are fewer.
pub retrieve-Holds :
    (len : ℕ) {b : FlexBuffer} {q : List ℕ}
    → Holds b q
    → (len ≤ length q → (c : FlexBuffer) × (retrieve len b ≡ some c) × Holds c (drop len q))
      × (length q < len → retrieve len b ≡ none)
unfolding retrieve skip
retrieve-Holds len {b} {q} h = (
  λ k. elim (Bool-cases (ltb len (readable_bytes b))) [
    | inl e ↦ (
      skip len b,
      if_false {b = ltb (readable_bytes b) len} none _ (ground (arith, readable-Holds h))
          ∙ if_true (some (skip len b)) (some (retrieve_all b)) e,
      skip-Holds len h (ground (arith, readable-Holds h)),
    )
    | inr e ↦ (
      retrieve_all b,
      if_false {b = ltb (readable_bytes b) len} none _ (ground (arith, readable-Holds h))
          ∙ if_false (some (skip len b)) (some (retrieve_all b)) e,
      subst (λ xs. Holds (retrieve_all b) xs)
          (sym (drop_over len q (ground (arith, readable-Holds h)))) (retrieve_all-Holds h),
    )
  ],
  λ k. if_true {b = ltb (readable_bytes b) len} none _ (ground (arith, readable-Holds h)),
)
