-- ===== src/FlexBuffer/Space.antt =====
-- flex_make_space, flex_ensure_writable_bytes and flex_append: room for more bytes, and the bytes
-- themselves.
use algorithm.Common.{
  ◌^◌, leb, ℕ, ◌+◌, ◌-◌, ◌<◌, ◌≤◌, ◌≡◌, refl, sym, ap, ◌∙◌, Option, none, some, List, [], ◌++◌, ltb,
  ◌==◌, if◌then◌else◌, length, length-append, length-replicate, take, drop, replicate, slice,
  write_at, take-append-drop, take_self, length-take, length-drop, arith, Bool-cases, inl, inr,
  append_assoc, subst, if_true, if_false,
}
use algorithm.FlexBuffer.{
  FlexBuffer, bytes_of, bytes, store, readable_bytes, writable_bytes, compact, grow, make_space,
  ensure_writable_bytes, has_written, append,
}
use algorithm.FlexBuffer.Holds.{Holds, slice-Holds, store_write, length-Holds, readable-Holds}

-- The readable bytes, moved to the front.
front : FlexBuffer → FlexBuffer
front b = record b {
  buffer = store (λ bs. write_at 0 (slice b.reader_index (readable_bytes b) bs) bs) b.buffer;
  reader_index = 0;
  writer_index = readable_bytes b;
}

-- A write of what is read from the block at hand is a write of those bytes.
store_read :
    (o : Option (List ℕ)) (i n : ℕ) (d : List ℕ)
    → slice i n (bytes_of o) ≡ d
    → bytes_of (store (λ bs. write_at 0 (slice i n bs) bs) o) ≡ bytes_of (store (write_at 0 d) o)
store_read none i n d e = refl
store_read (some bs) i n d e = ap (λ xs. write_at 0 xs bs) e

front-Holds : {b : FlexBuffer} {q : List ℕ} → Holds b q → Holds (front b) q
unfolding front
front-Holds {b} {q} h = record {
  pre = [];
  post = drop (length q) (bytes b);
  block =
      store_read b.buffer b.reader_index (readable_bytes b) q (slice-Holds h)
      ∙ store_write b.buffer 0 [] (take (length q) (bytes b)) (drop (length q) (bytes b)) q
          (sym (take-append-drop (length q) (bytes b))) refl
          (omega (arith, length-take (length q) (bytes b), length-Holds h, h.writer, h.room));
  reader = refl;
  writer = omega (arith, readable-Holds h);
  room =
      omega (
        arith,
        readable-Holds h,
        length-drop (length q) (bytes b),
        length-Holds h,
        h.writer,
        h.room,
      );
  small = h.small;
}

compact-Holds : {b : FlexBuffer} {q : List ℕ} → Holds b q → Holds (compact b) q
unfolding compact front
compact-Holds {b} {q} h = elim (Bool-cases (b.reader_index == 0)) [
  | inl e ↦ subst (λ c. Holds c q) (sym (if_true b (front b) e)) h
  | inr e ↦ subst (λ c. Holds c q) (sym (if_false b (front b) e)) (front-Holds h)
]

compact-fits :
    (len : ℕ) {b : FlexBuffer} {q : List ℕ}
    → Holds b q
    → length q + len < 2 ^ 31
    → (compact b).writer_index + len < 2 ^ 31
unfolding compact
compact-fits len {b} {q} h fits = ground (arith, readable-Holds h, h.writer, fits)

grow-Holds :
    (len : ℕ) {b : FlexBuffer} {q : List ℕ}
    → Holds b q
    → writable_bytes b < len
    → b.writer_index + len < 2 ^ 31
    → Holds (grow len b) q
unfolding grow writable_bytes
grow-Holds len {b} {q} h k fits = record {
  pre = h.pre;
  post = h.post ++ replicate (b.writer_index + len - b.size) 0;
  block =
      ap (λ n. take n (bytes b) ++ more) (sym (length-Holds h))
      ∙ ap (λ xs. xs ++ more) (take_self (bytes b) ∙ h.block)
      ∙ append_assoc h.pre (q ++ h.post) more
      ∙ ap (λ xs. h.pre ++ xs) (append_assoc q h.post more);
  reader = h.reader;
  writer = h.writer;
  room = omega (
    arith,
    length-append h.post more,
    length-replicate {A = ℕ} (b.writer_index + len - b.size) 0,
    h.room,
    fits,
  );
  small = omega (arith, fits);
}
  where
    more : List ℕ
    more = replicate (b.writer_index + len - b.size) 0

grow-room :
    (len : ℕ) (c : FlexBuffer) → c.writer_index + len < 2 ^ 31 → len ≤ writable_bytes (grow len c)
unfolding grow writable_bytes
grow-room len c fits = omega (arith, fits)

-- flex_make_space keeps the bytes, whether it moves them, reallocates or both, and makes room for
-- `len` more, where they are fewer than 2^31 together.
pub make_space-Holds :
    (len : ℕ) {b : FlexBuffer} {q : List ℕ}
    → Holds b q
    → length q + len < 2 ^ 31
    → Holds (make_space len b) q × (len ≤ writable_bytes (make_space len b))
unfolding make_space
make_space-Holds len {b} {q} h fits = elim (Bool-cases (ltb (writable_bytes (compact b)) len)) [
  | inl e ↦
      subst (λ c. Holds c q × (len ≤ writable_bytes c))
        (sym (if_true (grow len (compact b)) (compact b) e))
        (
          grow-Holds len (compact-Holds h) (ground arith) (compact-fits len h fits),
          grow-room len (compact b) (compact-fits len h fits),
        )
  | inr e ↦
      subst (λ c. Holds c q × (len ≤ writable_bytes c))
        (sym (if_false (grow len (compact b)) (compact b) e)) (compact-Holds h, ground arith)
]

room_checked :
    (len : ℕ) {c : FlexBuffer} {q : List ℕ}
    → Holds c q
    → len ≤ writable_bytes c
    → (if leb (2 ^ 31) c.size then none else if ltb (writable_bytes c) len then none else some c)
      ≡ some c
room_checked len {c} h room =
    if_false {b = leb (2 ^ 31) c.size} none _ (ground (arith, h.small))
    ∙ if_false none (some c) (ground arith)

-- ensureWritableBytes keeps the bytes and makes room; its assertion holds.
ensure-Holds :
    (len : ℕ) {b : FlexBuffer} {q : List ℕ}
    → Holds b q
    → length q + len < 2 ^ 31
    → (c : FlexBuffer) × (ensure_writable_bytes len b ≡ some c)
      × Holds c q
      × (len ≤ writable_bytes c)
unfolding ensure_writable_bytes
ensure-Holds len {b} {q} h fits = elim (Bool-cases (ltb (writable_bytes b) len)) [
  | inl e ↦
      let made = make_space-Holds len h fits in
      (
        make_space len b,
        subst
            (λ c.
              (if leb (2 ^ 31) c.size
                then none
                else if ltb (writable_bytes c) len
                then none
                else some c)
              ≡ some (make_space len b))
            (sym (if_true (make_space len b) b e)) (room_checked len made.0 made.1),
        made.0,
        made.1,
      )
  | inr e ↦ (
    b,
    subst
        (λ c.
          (if leb (2 ^ 31) c.size
            then none
            else if ltb (writable_bytes c) len
            then none
            else some c)
          ≡ some b)
        (sym (if_false (make_space len b) b e)) (room_checked len h (ground arith)),
    h,
    ground arith,
  )
]

-- The bytes `d`, copied to the writer index.
fill : List ℕ → FlexBuffer → FlexBuffer
fill d c = record c { buffer = store (λ bs. write_at c.writer_index d bs) c.buffer }

-- Bytes that fit are written behind those that are there.
fill-Holds :
    (d : List ℕ) {c : FlexBuffer} {q : List ℕ}
    → Holds c q
    → length d ≤ writable_bytes c
    → Holds (record (fill d c) { writer_index = c.writer_index + length d }) (q ++ d)
unfolding fill writable_bytes
fill-Holds d {c} {q} h k = record {
  pre = h.pre;
  post = drop (length d) h.post;
  block =
      store_write c.buffer c.writer_index (h.pre ++ q) (take (length d) h.post)
        (drop (length d) h.post) d
        (h.block
          ∙ sym (append_assoc h.pre q h.post)
          ∙ ap (λ xs. (h.pre ++ q) ++ xs) (sym (take-append-drop (length d) h.post)))
        (omega (arith, length-append h.pre q, h.reader, h.writer))
        (omega (arith, length-take (length d) h.post, h.room))
      ∙ append_assoc h.pre q (d ++ drop (length d) h.post)
      ∙ ap (λ xs. h.pre ++ xs) (sym (append_assoc q d (drop (length d) h.post)));
  reader = h.reader;
  writer = omega (arith, length-append q d, h.writer);
  room = omega (arith, length-drop (length d) h.post, h.room);
  small = h.small;
}

-- flex_append of bytes that are fewer than 2^31 with those of the buffer never fails: it keeps the
-- bytes that the buffer holds, and adds its own behind them.
pub append-Holds :
    (d : List ℕ) {b : FlexBuffer} {q : List ℕ}
    → Holds b q
    → length q + length d < 2 ^ 31
    → (c : FlexBuffer) × (append d b ≡ some c) × Holds c (q ++ d)
unfolding append has_written fill writable_bytes
append-Holds d {b} {q} h fits =
    let made = ensure-Holds (length d) h fits in
    let c = made.0 in
    (
      record (fill d c) { writer_index = c.writer_index + length d },
      ap
            (λ o. elim o as (λ x. Option FlexBuffer) [
              | none ↦ none
              | some c ↦ has_written (length d) (fill d c)
            ])
            made.1
          ∙ if_false {b = ltb (writable_bytes c) (length d)} none _ (ground (arith, made.3)),
      fill-Holds d made.2 made.3,
    )
