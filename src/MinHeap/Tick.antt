-- ===== src/MinHeap/Tick.antt =====
-- time_heap_tick and time_heap_time_wait, over callbacks that leave the heap alone.
use algorithm.Common.{
  Int32, plus, minus, to_i32, if_true, if_false, ◌∙◌, ◌^◌, to_u32, ℕ, zero, suc, ◌+◌, ◌-◌, ◌<◌, ◌≤◌,
  ◌≡◌, List, [], ◌∷◌, arith, ltb, leb, if◌then◌else◌, at, bit, count, IsAscending, refl, Option,
  none, some, Bool-cases, inl, inr, ◌==◌, ap, occurs, ◌⊎◌, occurs-zero, occurs-at, subst, fun_ext,
  true, false,
}
use algorithm.MinHeap.{
  Node, TimeHeap, key, time_heap_top, fire, tick_loop, time_heap_tick, time_heap_empty,
  time_heap_time_wait, time_heap_top_expire,
}
use algorithm.MinHeap.Invariant.{IsValid, holds, cell_nonnull}
use algorithm.MinHeap.Pop.{Popped, pop_timer-Popped, top_least, top-at}

module _ {E : Type 0} (act : ℕ → ℕ → E → E) where
  -- The callback of a node, if it has one.
  abbrev pub run_cb : Node → E → E
  run_cb v e = elim v.cb [ none ↦ e | some c ↦ act c v.args e ]

  abbrev pub run_all : (ℕ → Node) → List ℕ → E → E
  run_all node [] e = e
  run_all node (p ∷ ps) e = run_all node ps (run_cb (node p) e)

  run_all-ext :
      (f g : ℕ → Node) (ps : List ℕ) (e : E)
      → ((p : ℕ) → f p ≡ g p)
      → run_all f ps e ≡ run_all g ps e
  run_all-ext f g [] e h = refl
  run_all-ext f g (p ∷ ps) e h = rw (h p) (run_all-ext f g ps (run_cb (g p) e) h)

  -- What one tick at `cur` makes of a heap: the list of the nodes that it ran.
  pub record Ticked (cur : ℕ) (e : E) (h : TimeHeap) (r : Option (E × TimeHeap)) : Type 0 where
    pub ran : List ℕ
    pub rest : TimeHeap
    pub result : r ≡ some (run_all h.mem.node ran e, rest)
    pub valid : IsValid rest
    pub ascending : IsAscending (key h.mem) ran
    pub expired : (p : ℕ) → count p ran ≡ (if leb (key h.mem p) cur then holds h p else 0)
    pub pending : (p : ℕ) → holds rest p ≡ (if leb (key h.mem p) cur then 0 else holds h p)

  module _ (call : ℕ → ℕ → E × TimeHeap → E × TimeHeap)
      (quiet : (c a : ℕ) (e : E) (h : TimeHeap) → call c a (e, h) ≡ (act c a e, h)) where
    fire_quiet : (p : ℕ) (e : E) (h : TimeHeap) → fire call p (e, h) ≡ (run_cb (h.mem.node p) e, h)
    unfolding fire
    fire_quiet p e h = go (h.mem.node p).cb (h.mem.node p).args
      where
        go :
            (o : Option ℕ) (a : ℕ)
            → ◌≡◌ {A = E × TimeHeap}
                (elim o [ none ↦ (e, h) | some c ↦ call c a (e, h) ])
                (elim o [ none ↦ e | some c ↦ act c a e ], h)
        go none a = refl
        go (some c) a = quiet c a e h

    -- The loop stops at once: no node of the heap has expired.
    none_ran :
        (cur : ℕ) (e : E) {h : TimeHeap}
        → IsValid h
        → ((p : ℕ) → 0 < holds h p → cur < key h.mem p)
        → Ticked cur e h (some (e, h))
    none_ran cur e {h} v later = record {
      ran = [];
      rest = h;
      result = refl;
      valid = v;
      ascending = tt;
      expired = λ p. ground (arith, later p);
      pending = λ p. ground (arith, later p);
    }

    -- One round of the loop, then the rest of the loop.
    one_ran :
        (cur : ℕ) (e : E) {h h' : TimeHeap} {r : Option (E × TimeHeap)}
        → IsValid h
        → 0 < h.cursize
        → key h.mem (at h.nodes 0) ≤ cur
        → Popped h h'
        → Ticked cur (run_cb (h.mem.node (at h.nodes 0)) e) h' r
        → Ticked cur e h r
    one_ran cur e {h} {h'} v pos due pop t = record {
      ran = top ∷ t.ran;
      rest = t.rest;
      result = rw nodes at t.result;
      valid = t.valid;
      ascending = (
        λ q held. ground (arith, t.expired q, removed q, least q),
        subst (λ node. IsAscending (λ p. (node p).expire) t.ran) nodes t.ascending,
      );
      expired = λ p.
          ground (
            arith,
            t.expired p,
            removed p,
            pop.nodes p,
            due,
            pop.valid.unique p,
            v.unique p,
            same p,
          );
      pending = λ p. ground (arith, t.pending p, removed p, pop.nodes p, due);
    }
      where
        top : ℕ
        top = at h.nodes 0

        nodes : h'.mem.node ≡ h.mem.node
        nodes = fun_ext pop.nodes

        removed : (p : ℕ) → holds h' p + bit p top ≡ holds h p
        removed p = omega (arith, pop.removed p, ap (bit p) (top-at h pos))

        least : (q : ℕ) → 0 < holds h q → key h.mem top ≤ key h.mem q
        least q held = omega (arith, (top_least q v held).0, ap (key h.mem) (top-at h pos))

        same : (p : ℕ) → key h'.mem p ≡ key h.mem p
        same p = ap (λ (m : Node). m.expire) (pop.nodes p)

    tick_loop-Ticked :
        (f cur : ℕ) (e : E) {h : TimeHeap}
        → IsValid h
        → h.cursize < f
        → Ticked cur e h (tick_loop call f (at h.nodes 0) cur (e, h))
    unfolding tick_loop time_heap_empty
    tick_loop-Ticked zero cur e {h} v q = absurd (omega arith)
    tick_loop-Ticked (suc f) cur e {h} v q = elim (Bool-cases (h.cursize == 0)) [
      | inl z ↦ rw z (none_ran cur e v (λ p held. absurd (empty z p held)))
      | inr pos ↦ elim (Bool-cases (ltb cur (key h.mem (at h.nodes 0)))) [
        | inl late ↦
            rw (pos, nonnull pos, late)
              (none_ran cur e v (λ p held.
                ground (arith, (top_least p v held).0, ap (key h.mem) (top-at h (ground arith)))))
        | inr due ↦
            rw (pos, nonnull pos, due, fire_quiet (at h.nodes 0) e h)
              (one_ran cur e v (ground arith) (ground arith) (pop_timer-Popped v (ground arith)) (
                tick_loop-Ticked f cur (run_cb (h.mem.node (at h.nodes 0)) e)
                  (pop_timer-Popped v (ground arith)).valid
                  (omega (arith, (pop_timer-Popped v (ground arith)).count))))
      ]
    ]
      where
        empty : (h.cursize == 0) ≡ true → (p : ℕ) → 0 < holds h p → ⊥
        empty z p held =
            let e : h.cursize ≡ 0 = ground arith in
            omega (arith, occurs-zero p h.nodes, ap (λ n. occurs p n h.nodes) e)

        nonnull : (h.cursize == 0) ≡ false → (at h.nodes 0 == 0) ≡ false
        nonnull pos = ground (arith, cell_nonnull 0 v (ground arith))

    -- Where the callbacks leave the heap as it is, neither adding nor cancelling a timer, and with
    -- more fuel than nodes, time_heap_tick ends. It runs the callbacks of exactly the nodes that
    -- have expired, in ascending order of expiry, and leaves exactly the others in a valid heap.
    pub time_heap_tick-Ticked :
        (fuel now : ℕ) (e : E) {h : TimeHeap}
        → IsValid h
        → h.cursize < fuel
        → Ticked (to_u32 now) e h (time_heap_tick call fuel now (e, h))
    unfolding time_heap_tick
    time_heap_tick-Ticked fuel now e v q = tick_loop-Ticked fuel (to_u32 now) e v q

-- What time_heap_time_wait promises of the time `w`: it is positive, no timer that is still to
-- expire does so before it is over, and some timer of the heap is due when it is.
pub record IsDelay (now : ℕ) (h : TimeHeap) (w : ℕ) : Type 0 where
  pub positive : 0 < w
  pub early : (p : ℕ) → 0 < holds h p → to_u32 now < key h.mem p → to_u32 now + w ≤ key h.mem p
  pub held : 0 < holds h (time_heap_top h)
  pub due : key h.mem (time_heap_top h) ≤ to_u32 now + w

-- The earliest timer is 2^31 milliseconds away or more, and `d` is what is missing to 2^32.
pub record IsFarOff (now : ℕ) (h : TimeHeap) (d : ℕ) : Type 0 where
  pub far : (p : ℕ) → 0 < holds h p → to_u32 now + 2 ^ 31 ≤ key h.mem p
  pub held : 0 < holds h (time_heap_top h)
  pub missing : d ≡ 2 ^ 32 - (key h.mem (time_heap_top h) - to_u32 now)

-- time_heap_time_wait fails on an empty heap alone. Otherwise it gives the wait until the earliest
-- timer is due, and at least 1, where that is less than 2^31 milliseconds away; a longer wait does not
-- fit the `int`, and a negative number is given, the wait less 2^32.
pub time_wait-IsDelay :
    (now : ℕ) {h : TimeHeap}
    → IsValid h
    → ((h.cursize ≡ 0) × (time_heap_time_wait now h ≡ none))
      ⊎ ((w : ℕ) × (time_heap_time_wait now h ≡ some (plus w)) × IsDelay now h w)
      ⊎ ((d : ℕ) × (time_heap_time_wait now h ≡ some (minus d)) × IsFarOff now h d)
unfolding time_heap_time_wait time_heap_top_expire time_heap_empty
time_wait-IsDelay now {h} v = elim (Bool-cases (h.cursize == 0)) [
  | inl z ↦ inl (ground arith, ground arith)
  | inr filled ↦
      let some_node : 0 < h.cursize = ground arith in
      let top = top-at h some_node in
      let topkey = ap (key h.mem) top in
      let w : ℕ =
        if ltb (to_u32 now) (key h.mem (at h.nodes 0))
        then key h.mem (at h.nodes 0) - to_u32 now
        else 1 in
      let in_heap : 0 < holds h (time_heap_top h) =
        rw top (occurs-at h.cursize 0 h.nodes some_node) in
      let given : time_heap_time_wait now h ≡ some (to_i32 w) =
        ap
          (λ (o : Option ℕ). elim o as (λ x. Option Int32) [
            | none ↦ none
            | some expire ↦
                some (to_i32 (if ltb (to_u32 now) expire then expire - to_u32 now else 1))
          ])
          (if_false none (some (key h.mem (at h.nodes 0))) filled) in
      elim (Bool-cases (ltb w (2 ^ 31))) [
        | inl near ↦ inr (
            inl (
              w,
              given ∙ ap (λ x. some x) (if_true (plus w) (minus (2 ^ 32 - w)) near),
              record {
                positive = ground arith;
                early = λ p held late. ground (arith, (top_least p v held).0, topkey);
                held = in_heap;
                due = ground (arith, topkey);
              },
            ))
        | inr far ↦ inr (
            inr (
              2 ^ 32 - w,
              given ∙ ap (λ x. some x) (if_false (plus w) (minus (2 ^ 32 - w)) far),
              record {
                far = λ p held. ground (arith, (top_least p v held).0, topkey, far);
                held = in_heap;
                missing = ground (arith, topkey, far);
              },
            ))
      ]
]
