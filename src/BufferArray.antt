-- ===== src/BufferArray.antt =====
-- demo/C/flex_buffer/flex_buffer.h, alignflexbuffer_*: an array of buffers, of which the first
-- `cout` are in use. The buffers may be of any type; `clean` is one that has no memory.
use algorithm.Common.{
  ℕ, zero, suc, ◌+◌, ◌-◌, ◌<◌, ◌≤◌, ◌≡◌, refl, sym, ap, ◌∙◌, List, [], ◌∷◌, ◌++◌, ltb, leb,
  if◌then◌else◌, length, take, drop, replicate, set, write_at, arith, Bool-cases, inl, inr, subst,
  if_true, if_false, min, length-set, length-take, take-append, length-append, length-drop,
  length-replicate,
}

pub record BufferArray (A : Type 0) : Type 0 where
  pub buffers : List A
  pub max : ℕ
  pub cout : ℕ

-- The buffers in use.
abbrev pub live : {A : Type 0} → BufferArray A → List A
live t = take t.cout t.buffers

pub record IsArray {A : Type 0} (t : BufferArray A) : Type 0 where
  pub cells : length t.buffers ≡ t.max
  pub used : t.cout ≤ t.max

pub length-live : {A : Type 0} (t : BufferArray A) → IsArray t → length (live t) ≡ t.cout
length-live t w = omega (arith, length-take t.cout t.buffers, w.cells, w.used)

take-set {ℓ} :
    {A : Type ℓ} (n : ℕ) (xs : List A) (v : A)
    → n < length xs
    → take (suc n) (set xs n v) ≡ take n xs ++ v ∷ []
take-set n [] v h = absurd (omega arith)
take-set zero (x ∷ xs) v h = refl
take-set (suc n) (x ∷ xs) v h = ap (◌∷◌ x) (take-set n xs v (omega arith))

take-take {ℓ} :
    {A : Type ℓ} (m n k : ℕ) (xs : List A) → min m n ≡ k → take m (take n xs) ≡ take k xs
take-take zero n zero xs h = refl
take-take (suc m) zero zero xs h = refl
take-take (suc m) (suc n) (suc k) [] h = refl
take-take (suc m) (suc n) (suc k) (x ∷ xs) h = ap (◌∷◌ x) (take-take m n k xs (omega arith))
take-take m n k xs h = absurd (omega arith)

pub take-set_out {ℓ} :
    {A : Type ℓ} (k i : ℕ) (xs : List A) (v : A) → k ≤ i → take k (set xs i v) ≡ take k xs
take-set_out k i [] v h = refl
take-set_out zero i (x ∷ xs) v h = refl
take-set_out (suc k) (suc i) (x ∷ xs) v h = ap (◌∷◌ x) (take-set_out k i xs v (omega arith))
take-set_out (suc k) zero (x ∷ xs) v h = absurd (omega arith)

module _ {A : Type 0} (clean : A) where
  -- A full array takes no more, and the buffer stays with the caller.
  unfoldable pub add_tail : BufferArray A → A → BufferArray A × A
  add_tail t b =
      if leb t.max t.cout
      then (t, b)
      else (record t { buffers = set t.buffers t.cout b; cout = suc t.cout }, clean)

  -- The cleaned cells of `erase`, `n` of them from `i`.
  unfoldable pub clean_from : ℕ → ℕ → List A → List A
  clean_from i zero bs = bs
  clean_from i (suc n) bs = clean_from (suc i) n (set bs i clean)

  -- `begin` is not negative.
  unfoldable pub erase : ℕ → ℕ → BufferArray A → BufferArray A
  unfolding clean_from
  erase begin end t = record t { buffers = clean_from begin (end - begin) t.buffers; cout = begin }

  -- The destination and the source.
  unfoldable pub move : BufferArray A → BufferArray A → BufferArray A × BufferArray A
  unfolding erase
  move dst src =
      let n : ℕ = if ltb src.cout dst.max then src.cout else dst.max in
      let d = erase 0 dst.cout dst in
      (
        record d { buffers = write_at 0 (take n src.buffers) d.buffers; cout = n },
        record src { buffers = write_at 0 (replicate n clean) src.buffers; cout = 0 },
      )

  unfoldable pub clear : BufferArray A → BufferArray A
  unfolding erase
  clear t = erase 0 t.cout t

  -- `cout` stays as it is.
  unfoldable pub init : ℕ → BufferArray A → BufferArray A
  init max t = record t { buffers = replicate max clean; max = max }

  -- alignflexbuffer_add_tail puts the buffer behind those in use and clears the caller's, or changes
  -- nothing where the array is full.
  pub add_tail-live :
      (t : BufferArray A) (b : A)
      → IsArray t
      → (t.cout < t.max
          → (live (add_tail t b).0 ≡ live t ++ b ∷ [])
            × ((add_tail t b).1 ≡ clean)
            × IsArray (add_tail t b).0)
        × (t.cout ≡ t.max → add_tail t b ≡ (t, b))
  unfolding add_tail
  add_tail-live t b w = (
    λ k.
        subst
          (λ (r : BufferArray A × A). (live r.0 ≡ live t ++ b ∷ []) × (r.1 ≡ clean) × IsArray r.0)
          (sym (
            if_false (t, b)
              (record t { buffers = set t.buffers t.cout b; cout = suc t.cout }, clean)
              (ground arith)))
          (
            take-set t.cout t.buffers b (omega (arith, w.cells)),
            refl,
            record { cells = length-set t.buffers t.cout b ∙ w.cells; used = omega arith },
          ),
    λ k. if_true {b = leb t.max t.cout} (t, b) _ (ground arith),
  )

  length-write_at : (d xs : List A) → length d ≤ length xs → length (write_at 0 d xs) ≡ length xs
  length-write_at d xs h =
      omega (arith, length-append d (drop (0 + length d) xs), length-drop (0 + length d) xs)

  pub add_tail_max : (t : BufferArray A) (b : A) → (add_tail t b).0.max ≡ t.max
  unfolding add_tail
  add_tail_max t b = elim (Bool-cases (leb t.max t.cout)) [
    | inl e ↦
        ap (λ (r : BufferArray A × A). r.0.max)
          (if_true (t, b) (record t { buffers = set t.buffers t.cout b; cout = suc t.cout }, clean)
            e)
    | inr e ↦
        ap (λ (r : BufferArray A × A). r.0.max)
          (if_false (t, b) (record t { buffers = set t.buffers t.cout b; cout = suc t.cout }, clean)
            e)
  ]

  length-clean_from : (i n : ℕ) (bs : List A) → length (clean_from i n bs) ≡ length bs
  unfolding clean_from
  length-clean_from i zero bs = refl
  length-clean_from i (suc n) bs =
      length-clean_from (suc i) n (set bs i clean) ∙ length-set bs i clean

  -- alignflexbuffer_move gives the destination the source's buffers in their order, as many as its
  -- own maximum takes, and leaves none in use at the source.
  pub move-live :
      (dst src : BufferArray A)
      → IsArray dst
      → IsArray src
      → (live (move dst src).0 ≡ take dst.max (live src))
        × (live (move dst src).1 ≡ [])
        × IsArray (move dst src).0
        × IsArray (move dst src).1
  unfolding move erase
  move-live dst src v w = (
    take-append moved (take moved src.buffers) _ size
        ∙ sym (take-take dst.max src.cout moved src.buffers (ground arith)),
    refl,
    record {
      cells =
          length-write_at (take moved src.buffers) cleared.buffers
            (ground (arith, size, length-clean_from 0 (dst.cout - 0) dst.buffers, v.cells))
          ∙ length-clean_from 0 (dst.cout - 0) dst.buffers
          ∙ v.cells;
      used = ground arith;
    },
    record {
      cells =
          length-write_at (replicate moved clean) src.buffers
            (ground (arith, length-replicate moved clean, w.cells, w.used))
          ∙ w.cells;
      used = omega arith;
    },
  )
    where
      moved : ℕ
      moved = if ltb src.cout dst.max then src.cout else dst.max

      cleared : BufferArray A
      cleared = erase 0 dst.cout dst

      size : length (take moved src.buffers) ≡ moved
      size = ground (arith, length-take moved src.buffers, w.cells, w.used)

  pub move_max :
      (dst src : BufferArray A)
      → ((move dst src).0.max ≡ dst.max) × ((move dst src).1.max ≡ src.max)
  unfolding move erase
  move_max dst src = (refl, refl)

  take-clean_from : (k i n : ℕ) (bs : List A) → k ≤ i → take k (clean_from i n bs) ≡ take k bs
  unfolding clean_from
  take-clean_from k i zero bs h = refl
  take-clean_from k i (suc n) bs h =
      take-clean_from k (suc i) n (set bs i clean) (omega arith) ∙ take-set_out k i bs clean h

  -- An erase from `begin` on leaves the buffers before it.
  pub erase-live :
      (begin end : ℕ) (t : BufferArray A)
      → IsArray t
      → begin ≤ t.max
      → (live (erase begin end t) ≡ take begin t.buffers) × IsArray (erase begin end t)
  unfolding erase
  erase-live begin end t w h = (
    take-clean_from begin begin (end - begin) t.buffers (omega arith),
    record { cells = length-clean_from begin (end - begin) t.buffers ∙ w.cells; used = h },
  )

  pub clear-IsArray : (t : BufferArray A) → IsArray t → IsArray (clear t)
  unfolding clear
  clear-IsArray t w = (erase-live 0 t.cout t w (omega arith)).1
