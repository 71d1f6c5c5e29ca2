-- ===== src/MinHeap/Down.antt =====
-- percolate_down: the hole sinks until the last pointer fits.
use algorithm.Common.{
  ℕ, zero, suc, ◌+◌, ◌*◌, ◌<◌, ◌≤◌, ◌≡◌, ◌≢◌, List, arith, ltb, length, set, length-set, get_or-set,
  at, Bool-cases, inl, inr, ◌⊎◌,
}
use algorithm.MinHeap.{smaller_child, down_loop, percolate_down}
use algorithm.MinHeap.Order.{parent, filled, Sifted, Sifted-set, Sifted-step}

module _ (k : ℕ → ℕ) where
  record DownInv (n : ℕ) (a : List ℕ) (hole x : ℕ) : Type 0 where
    edges :
        (c : ℕ)
        → 0 < c
        → c < n
        → parent c ≢ hole
        → k (filled a hole x (parent c)) ≤ k (filled a hole x c)
    bridged :
        (c : ℕ)
        → 0 < c
        → c < n
        → parent c ≡ hole
        → 0 < hole
        → k (filled a hole x (parent hole)) ≤ k (filled a hole x c)

  -- The child that percolate_down compares with exists, and no child of the hole expires earlier.
  record IsLeast (n : ℕ) (a : List ℕ) (hole j : ℕ) : Type 0 where
    below : j < n
    child : parent j ≡ hole
    past : hole < j
    least : (c : ℕ) → 0 < c → c < n → parent c ≡ hole → k (at a j) ≤ k (at a c)

  left_or_right :
      (c hole : ℕ) → 0 < c → parent c ≡ hole → (c ≡ hole * 2 + 1) ⊎ (c ≡ hole * 2 + 1 + 1)
  left_or_right c hole p q = omega arith

  smaller_child-IsLeast :
      (n : ℕ) (a : List ℕ) (hole : ℕ)
      → hole * 2 + 1 < n
      → IsLeast n a hole (smaller_child k n a hole)
  smaller_child-IsLeast n a hole h = record {
    below = ground arith;
    child = ground arith;
    past = ground arith;
    least = λ c p q r. elim (left_or_right c hole p r) [
      | inl e ↦ rw e (ground arith)
      | inr e ↦ rw e (ground (arith, e, q))
    ];
  }

  down_step :
      (n : ℕ) (a : List ℕ) (hole x j : ℕ)
      → hole < length a
      → IsLeast n a hole j
      → k (at a j) < k x
      → DownInv n a hole x
      → DownInv n (set a hole (at a j)) j x
  down_step n a hole x j len s lt v = record {
    edges = λ c p q r. ground (
      arith,
      v.edges c,
      v.bridged c,
      v.bridged j,
      s.least c,
      get_or-set a hole c (at a j) 0,
      get_or-set a hole (parent c) (at a j) 0,
      s.child,
      s.past,
    );
    bridged = λ c p q r t. ground (
      arith,
      v.edges c,
      get_or-set a hole c (at a j) 0,
      get_or-set a hole (parent j) (at a j) 0,
      s.child,
      s.past,
    );
  }

  down_loop_sifts :
      (f n : ℕ) (a : List ℕ) (x hole : ℕ)
      → n ≤ f + hole
      → n ≤ length a
      → hole < n
      → DownInv n a hole x
      → Sifted k n a hole x (down_loop k f n a x hole)
  unfolding down_loop
  down_loop_sifts zero n a x hole f len inside v = absurd (omega arith)
  down_loop_sifts (suc f) n a x hole h len inside v = elim (Bool-cases (ltb (hole * 2 + 1) n)) [
    | inr e ↦
        rw e (Sifted-set k n a hole x (omega arith) inside (λ c p q. ground (arith, v.edges c)))
    | inl e ↦
        let j = smaller_child k n a hole in
        let s = smaller_child-IsLeast n a hole (ground arith) in
        rw e (elim (Bool-cases (ltb (k (at a j)) (k x))) [
          | inr d ↦ rw d (
              Sifted-set k n a hole x (omega arith) inside
                (λ c p q. ground (arith, v.edges c, v.bridged c, s.least c)))
          | inl d ↦ rw d (
              Sifted-step k n a hole j x (omega arith) inside (omega (arith, s.past)) (
                down_loop_sifts f n (set a hole (at a j)) x j (omega (arith, s.past))
                  (omega (arith, length-set a hole (at a j))) s.below
                  (down_step n a hole x j (omega arith) s (ground arith) v)))
        ])
  ]

  -- percolate_down from the root orders an array whose other edges are in order.
  pub percolate_sifts :
      (n : ℕ) (a : List ℕ)
      → 0 < n
      → n ≤ length a
      → ((c : ℕ) → 0 < c → c < n → 0 < parent c → k (at a (parent c)) ≤ k (at a c))
      → Sifted k n a 0 (at a 0) (percolate_down k n a 0)
  unfolding percolate_down
  percolate_sifts n a pos len h = down_loop_sifts n n a (at a 0) 0 (omega arith) len pos (record {
    edges = λ c p q r. ground (arith, h c);
    bridged = λ c p q r s. absurd (omega arith);
  })

  length-down_loop :
      (f n : ℕ) (a : List ℕ) (x hole : ℕ) → length (down_loop k f n a x hole) ≡ length a
  unfolding down_loop
  length-down_loop zero n a x hole = length-set a hole x
  length-down_loop (suc f) n a x hole =
      let j = smaller_child k n a hole in
      ground (
        arith,
        length-set a hole x,
        length-set a hole (at a j),
        length-down_loop f n (set a hole (at a j)) x j,
      )

  pub length-percolate_down :
      (n : ℕ) (a : List ℕ) (hole : ℕ) → length (percolate_down k n a hole) ≡ length a
  unfolding percolate_down
  length-percolate_down n a hole = length-down_loop n n a (at a hole) hole
