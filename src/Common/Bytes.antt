-- ===== src/Common/Bytes.antt =====
-- Blocks of memory as lists of bytes: memcpy, memmove and memset write a run of bytes at an offset.
use Prim.Native.Nat.{ℕ, zero, suc, ◌+◌, ◌≤◌}
use mathlib.Core.Path.{◌≡◌, refl, ap, ◌∙◌, sym}
use mathlib.Core.List.{List, [], ◌∷◌, ◌++◌, append_assoc}
use native.Mathlib.Omega.{arith}
use algorithm.Common.Lists.{length, take, drop, length-append}

module _ {ℓ} {A : Type ℓ} where
  -- `n` bytes at offset `i`.
  abbrev pub slice : ℕ → ℕ → List A → List A
  slice i n xs = take n (drop i xs)

  -- The bytes `d`, written at offset `i`.
  abbrev pub write_at : ℕ → List A → List A → List A
  write_at i d xs = take i xs ++ (d ++ drop (i + length d) xs)

  pub take-append : (n : ℕ) (xs ys : List A) → length xs ≡ n → take n (xs ++ ys) ≡ xs
  take-append zero [] ys h = refl
  take-append zero (x ∷ xs) ys h = absurd (omega arith)
  take-append (suc n) [] ys h = absurd (omega arith)
  take-append (suc n) (x ∷ xs) ys h = ap (◌∷◌ x) (take-append n xs ys (omega arith))

  pub take-append_le : (n : ℕ) (xs ys : List A) → n ≤ length xs → take n (xs ++ ys) ≡ take n xs
  take-append_le zero xs ys h = refl
  take-append_le (suc n) [] ys h = absurd (omega arith)
  take-append_le (suc n) (x ∷ xs) ys h = ap (◌∷◌ x) (take-append_le n xs ys (omega arith))

  -- Past the end there is no more to take, and nothing is left.
  pub take_over : (n : ℕ) (xs : List A) → length xs ≤ n → take n xs ≡ xs
  take_over zero [] h = refl
  take_over zero (x ∷ xs) h = absurd (omega arith)
  take_over (suc n) [] h = refl
  take_over (suc n) (x ∷ xs) h = ap (◌∷◌ x) (take_over n xs (omega arith))

  pub drop_over : (n : ℕ) (xs : List A) → length xs ≤ n → drop n xs ≡ []
  drop_over zero [] h = refl
  drop_over zero (x ∷ xs) h = absurd (omega arith)
  drop_over (suc n) [] h = refl
  drop_over (suc n) (x ∷ xs) h = drop_over n xs (omega arith)

  pub drop-append : (n : ℕ) (xs ys : List A) → length xs ≡ n → drop n (xs ++ ys) ≡ ys
  drop-append zero [] ys h = refl
  drop-append zero (x ∷ xs) ys h = absurd (omega arith)
  drop-append (suc n) [] ys h = absurd (omega arith)
  drop-append (suc n) (x ∷ xs) ys h = drop-append n xs ys (omega arith)

  pub take-append-drop : (n : ℕ) (xs : List A) → take n xs ++ drop n xs ≡ xs
  take-append-drop zero xs = refl
  take-append-drop (suc n) [] = refl
  take-append-drop (suc n) (x ∷ xs) = ap (◌∷◌ x) (take-append-drop n xs)

  pub take_self : (xs : List A) → take (length xs) xs ≡ xs
  take_self [] = refl
  take_self (x ∷ xs) = ap (◌∷◌ x) (take_self xs)

  -- A write in the middle of a block replaces as many bytes as it brings.
  pub write_at_lem :
      (i : ℕ) (pre old post d : List A)
      → length pre ≡ i
      → length old ≡ length d
      → write_at i d (pre ++ (old ++ post)) ≡ pre ++ (d ++ post)
  write_at_lem i pre old post d h k =
      ap (λ xs. xs ++ (d ++ drop (i + length d) (pre ++ (old ++ post))))
        (take-append i pre (old ++ post) h)
      ∙ ap (λ ys. pre ++ (d ++ ys)) (past ∙ drop-append (i + length d) (pre ++ old) post size)
    where
      past : drop (i + length d) (pre ++ (old ++ post)) ≡ drop (i + length d) ((pre ++ old) ++ post)
      past = ap (drop (i + length d)) (sym (append_assoc pre old post))

      size : length (pre ++ old) ≡ i + length d
      size = omega (arith, length-append pre old)
