-- ===== src/MinHeap/Pop.antt =====
-- time_heap_top and pop_timer: the earliest node, and what is left without it.
use algorithm.Common.{
  ℕ, zero, suc, ◌+◌, ◌-◌, ◌<◌, ◌≤◌, ◌≡◌, List, arith, length, set, length-set, get_or-set, at, true,
  false, bit, occurs, occurs-suc, occurs-zero, ◌∙◌, occurs-set, at_of_occurs, refl, Bool-cases, inl,
  inr, ◌==◌, ap,
}
use algorithm.MinHeap.{TimeHeap, key, percolate_down, pop_timer, time_heap_top, time_heap_empty}
use algorithm.MinHeap.Order.{parent, IsOrdered, Sifted}
use algorithm.MinHeap.Down.{percolate_sifts, length-percolate_down}
use algorithm.MinHeap.Invariant.{IsValid, holds, cell_live, cell_nonnull}

module _ (k : ℕ → ℕ) where
  root_least_below :
      (f n : ℕ) (a : List ℕ) (i : ℕ) → IsOrdered k n a → i < f → i < n → k (at a 0) ≤ k (at a i)
  root_least_below zero n a i h q r = absurd (omega arith)
  root_least_below (suc f) n a zero h q r = omega arith
  root_least_below (suc f) n a (suc i) h q r = omega (
    arith,
    h (suc i) (omega arith) r,
    root_least_below f n a (parent (suc i)) h (omega arith) (omega arith),
  )

-- time_heap_top is held, is live, and no node of the heap expires before it.
pub top_least :
    {h : TimeHeap} (p : ℕ)
    → IsValid h
    → 0 < holds h p
    → (key h.mem (time_heap_top h) ≤ key h.mem p) × (h.mem.live (time_heap_top h) ≡ true)
unfolding time_heap_top
top_least {h} p v q =
    let (i, r, e) = at_of_occurs p h.cursize h.nodes q in
    let least =
      root_least_below (key h.mem) (suc i) h.cursize h.nodes i v.ordered (omega arith) r in
    let some_node : (h.cursize == 0) ≡ false = ground arith in
    rw some_node ((rw e at least), cell_live 0 v (omega arith))

pub time_heap_empty_lem : (h : TimeHeap) → time_heap_empty h ≡ (h.cursize == 0)
unfolding time_heap_empty
time_heap_empty_lem h = refl

pub top-at : (h : TimeHeap) → 0 < h.cursize → time_heap_top h ≡ at h.nodes 0
unfolding time_heap_top
top-at h pos = ground arith

-- What pop_timer leaves: every node but the top, which is freed.
pub record Popped (h h' : TimeHeap) : Type 0 where
  pub valid : IsValid h'
  pub removed : (p : ℕ) → holds h' p + bit p (time_heap_top h) ≡ holds h p
  pub freed : h'.mem.live (time_heap_top h) ≡ false
  pub nodes : (p : ℕ) → h'.mem.node p ≡ h.mem.node p
  pub count : h'.cursize + 1 ≡ h.cursize

removed_zero : (p n : ℕ) (a b : List ℕ) → n ≡ 0 → occurs p n b + bit p (at a 0) ≡ occurs p (suc n) a
removed_zero p zero a b e = omega (arith, occurs-zero p b, occurs-suc p 0 a, occurs-zero p a)
removed_zero p (suc n) a b e = absurd (omega arith)

module _ (n : ℕ) (a : List ℕ) (len : n < length a) where
  -- The array that pop_timer hands to percolate_down.
  abbrev moved : List ℕ
  moved = set (set a 0 0) 0 (at (set a 0 0) n)

  moved-at : (c : ℕ) → 0 < c → at moved c ≡ at a c
  moved-at c p = ground (
    arith,
    get_or-set (set a 0 0) 0 c (at (set a 0 0) n) 0,
    get_or-set a 0 c 0 0,
    length-set a 0 0,
  )

  moved-root : 0 < n → at moved 0 ≡ at a n
  moved-root p = ground (
    arith,
    get_or-set (set a 0 0) 0 0 (at (set a 0 0) n) 0,
    get_or-set a 0 n 0 0,
    length-set a 0 0,
  )

  length-moved : length moved ≡ length a
  length-moved = omega (arith, length-set (set a 0 0) 0 (at (set a 0 0) n), length-set a 0 0)

  occurs-moved : (p : ℕ) → 0 < n → occurs p n moved + bit p (at a 0) ≡ occurs p n a + bit p (at a n)
  occurs-moved p pos = ground (
    arith,
    occurs-set p n 0 0 a (omega arith) pos,
    occurs-set p n 0 (at (set a 0 0) n) (set a 0 0) (omega (arith, length-set a 0 0)) pos,
    get_or-set a 0 0 0 0,
    get_or-set a 0 n 0 0,
  )

  module _ (k : ℕ → ℕ) (h : IsOrdered k (suc n) a) where
    sifted : 0 < n → Sifted k n moved 0 (at moved 0) (percolate_down k n moved 0)
    sifted pos =
        percolate_sifts k n moved pos (omega (arith, length-moved))
          (λ c p q r. ground (arith, moved-at c p, moved-at (parent c) r, h c p (omega arith)))

    -- The array that percolate_down leaves is ordered and lacks the first pointer alone.
    record IsCut (b : List ℕ) : Type 0 where
      ordered : IsOrdered k n b
      removed : (p : ℕ) → occurs p n b + bit p (at a 0) ≡ occurs p (suc n) a
      size : length b ≡ length a

    cut : IsCut (percolate_down k n moved 0)
    cut = record {
      ordered = λ c p q. (sifted (omega arith)).ordered c p q;
      removed = λ p. elim (Bool-cases (n == 0)) [
        | inl e ↦ removed_zero p n a (percolate_down k n moved 0) (ground arith)
        | inr e ↦
            let pos : 0 < n = ground arith in
            omega (arith, (sifted pos).same p, occurs-moved p pos, occurs-suc p n a)
      ];
      size = omega (arith, length-percolate_down k n moved 0, length-moved);
    }

-- pop_timer keeps a non-empty heap valid and takes out exactly its top, whose memory it frees.
pub pop_timer-Popped : {h : TimeHeap} → IsValid h → 0 < h.cursize → Popped h (pop_timer h)
unfolding pop_timer
pop_timer-Popped {h} v pos =
    rw (some_node, nonnull)
      (record {
        valid = record {
          size = omega (arith, cells.size, v.size);
          room = omega (arith, v.room);
          positive = v.positive;
          ordered = cells.ordered;
          unique = λ p. omega (arith, removed p, v.unique p);
          alive = λ p q. ground (arith, removed p, v.unique p, v.alive p);
          null = ground (arith, v.null);
          started = v.started;
          fresh = λ p q. ground (arith, v.fresh p);
        };
        removed = λ p. omega (arith, removed p, ap (bit p) (top-at h pos));
        freed = ground (arith, top-at h pos);
        nodes = λ p. refl;
        count = omega arith;
      })
  where
    some_node : (h.cursize == 0) ≡ false
    some_node = ground arith

    nonnull : (at h.nodes 0 == 0) ≡ false
    nonnull = ground (arith, cell_nonnull 0 v pos)

    last : ℕ
    last = h.cursize - 1

    inside : last < length h.nodes
    inside = omega (arith, v.size, v.room)

    ordered : IsOrdered (key h.mem) (suc last) h.nodes
    ordered c p q = v.ordered c p (omega arith)

    cells :
        IsCut last h.nodes inside
          (key h.mem)
          ordered
          (percolate_down (key h.mem) last (moved last h.nodes inside) 0)
    cells = cut last h.nodes inside (key h.mem) ordered

    removed :
        (p : ℕ)
        → occurs p last (percolate_down (key h.mem) last (moved last h.nodes inside) 0)
            + bit p (at h.nodes 0)
          ≡ occurs p h.cursize h.nodes
    removed p =
        let e : suc last ≡ h.cursize = omega arith in
        cells.removed p ∙ ap (λ m. occurs p m h.nodes) e
