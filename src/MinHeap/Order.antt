-- ===== src/MinHeap/Order.antt =====
-- The heap order, and the two sift loops of min_heap.c: each fills its hole so that the array is
-- ordered again, and keeps the pointers.
use algorithm.Common.{
  Bool-cases, inl, inr, ℕ, zero, suc, ◌+◌, ◌-◌, ◌/◌, ◌<◌, ◌≤◌, ◌≡◌, ◌≢◌, List, arith, ◌==◌, ltb,
  leb, if◌then◌else◌, length, set, length-set, get_or-set, at, bit, occurs, occurs-set,
}
use algorithm.MinHeap.{up_loop, insert_time_heap}

abbrev pub parent : ℕ → ℕ
parent c = (c - 1) / 2

-- The array with `x` in its hole.
abbrev pub filled : List ℕ → ℕ → ℕ → ℕ → ℕ
filled a hole x c = if hole == c then x else at a c

module _ (k : ℕ → ℕ) where
  -- No node expires before its parent.
  abbrev pub IsOrdered : ℕ → List ℕ → Type 0
  IsOrdered n a = (c : ℕ) → 0 < c → c < n → k (at a (parent c)) ≤ k (at a c)

  record UpInv (n : ℕ) (a : List ℕ) (hole x : ℕ) : Type 0 where
    inside : hole < n
    edges :
        (c : ℕ) → 0 < c → c < n → c ≢ hole → k (filled a hole x (parent c)) ≤ k (filled a hole x c)
    bridged :
        (c : ℕ)
        → 0 < c
        → c < n
        → parent c ≡ hole
        → 0 < hole
        → k (filled a hole x (parent hole)) ≤ k (filled a hole x c)

  up_step :
      (n : ℕ) (a : List ℕ) (hole x : ℕ)
      → hole < length a
      → 0 < hole
      → k x < k (at a (parent hole))
      → UpInv n a hole x
      → UpInv n (set a hole (at a (parent hole))) (parent hole) x
  up_step n a hole x len pos lt v = record {
    inside = omega (arith, v.inside);
    edges = λ c p q r. ground (
      arith,
      v.edges c,
      v.bridged c,
      get_or-set a hole c (at a (parent hole)) 0,
      get_or-set a hole (parent c) (at a (parent hole)) 0,
    );
    bridged = λ c p q r s. ground (
      arith,
      v.edges c,
      v.edges (parent hole),
      get_or-set a hole c (at a (parent hole)) 0,
      get_or-set a hole (parent (parent hole)) (at a (parent hole)) 0,
    );
  }

  -- What either loop makes of a hole: an ordered array with the same pointers.
  pub record Sifted (n : ℕ) (a : List ℕ) (hole x : ℕ) (b : List ℕ) : Type 0 where
    pub ordered : IsOrdered n b
    pub same : (p : ℕ) → occurs p n b + bit p (at a hole) ≡ occurs p n a + bit p x
    pub size : length b ≡ length a

  -- The loop stops: the value goes into the hole.
  pub Sifted-set :
      (n : ℕ) (a : List ℕ) (hole x : ℕ)
      → hole < length a
      → hole < n
      → ((c : ℕ) → 0 < c → c < n → k (filled a hole x (parent c)) ≤ k (filled a hole x c))
      → Sifted n a hole x (set a hole x)
  Sifted-set n a hole x len inside h = record {
    ordered =
        λ c p q. ground (arith, h c, get_or-set a hole c x 0, get_or-set a hole (parent c) x 0);
    same = λ p. occurs-set p n hole x a len inside;
    size = length-set a hole x;
  }

  -- The loop goes on from `j`, whose pointer fills the hole.
  pub Sifted-step :
      (n : ℕ) (a : List ℕ) (hole j x : ℕ) {b : List ℕ}
      → hole < length a
      → hole < n
      → hole ≢ j
      → Sifted n (set a hole (at a j)) j x b
      → Sifted n a hole x b
  Sifted-step n a hole j x len inside ne s = record {
    ordered = s.ordered;
    same = λ p. ground (
      arith,
      s.same p,
      occurs-set p n hole (at a j) a len inside,
      get_or-set a hole j (at a j) 0,
    );
    size = omega (arith, s.size, length-set a hole (at a j));
  }

  up_loop_sifts :
      (f n : ℕ) (a : List ℕ) (x hole : ℕ)
      → hole ≤ f
      → hole < length a
      → UpInv n a hole x
      → Sifted n a hole x (up_loop k f a x hole)
  unfolding up_loop
  up_loop_sifts zero n a x hole f len v =
      Sifted-set n a hole x len v.inside (λ c p q. v.edges c p q (omega arith))
  up_loop_sifts (suc f) n a x hole h len v = elim (Bool-cases (ltb 0 hole)) [
    | inr e ↦ rw e (Sifted-set n a hole x len v.inside (λ c p q. v.edges c p q (ground arith)))
    | inl e ↦ rw e (elim (Bool-cases (leb (k (at a (parent hole))) (k x))) [
      | inl d ↦ rw d (Sifted-set n a hole x len v.inside (λ c p q. ground (arith, v.edges c)))
      | inr d ↦ rw d (
          Sifted-step n a hole (parent hole) x len v.inside (ground arith) (
            up_loop_sifts f n (set a hole (at a (parent hole))) x (parent hole) (ground arith)
              (ground (arith, length-set a hole (at a (parent hole))))
              (up_step n a hole x len (ground arith) (ground arith) v)))
    ])
  ]

  -- insert_time_heap puts a pointer at the end of an ordered array and restores the order.
  pub insert_sifts :
      (n : ℕ) (a : List ℕ) (x : ℕ)
      → n < length a
      → IsOrdered n a
      → Sifted (suc n) a n x (insert_time_heap k a x n)
  unfolding insert_time_heap
  insert_sifts n a x len h = up_loop_sifts n (suc n) a x n (omega arith) len (record {
    inside = omega arith;
    edges = λ c p q r. ground (arith, h c);
    bridged = λ c p q r s. absurd (omega arith);
  })
