-- ===== src/TimeWheel/Cascade.antt =====
-- The cascades of itimer_internal_update: nodes move to lower vectors and none is lost.
use algorithm.Common.{
  to_u32, ℕ, suc, ◌+◌, ◌-◌, ◌*◌, ◌/◌, ◌%◌, ◌^◌, ◌<◌, ◌≤◌, ◌≡◌, ◌≢◌, refl, true, false, arith, ltb,
  List, [], ◌∷◌, bit, count, ◌==◌, ◌&&◌, Bool-cases, inl, inr, subst, ap, ◌∙◌, sym,
}
use algorithm.TimeWheel.{
  Node, Core, write_node, write_vec, slot_of, itimer_internal_add, cascade_loop,
  itimer_internal_cascade, itimer_index, cascades,
}
use algorithm.TimeWheel.Place.{
  IsPlace, InSlot-bounds, slot_of-IsPlace, index_at, other_slot-IsPast, unaligned-IsPast, Aligned,
}
use algorithm.TimeWheel.Total.{total, total-write}
use algorithm.TimeWheel.Invariant.{Held, IsWheel, Kept, Kept-refl, Kept-trans, internal_add-IsWheel}

-- A list of nodes that wait to be put back, with their times.
abbrev IsTimed : ℕ → (ℕ → ℕ) → (ℕ → Node) → List ℕ → Type 0
IsTimed t due node ps =
    (p : ℕ)
    → 0 < count p ps
    → (t ≤ due p) × (due p < t + 2 ^ 31) × ((node p).expires ≡ to_u32 (due p))

-- `c'` holds the nodes of `c` and of `ps`, under the invariant.
pub record Moved (t m : ℕ) (due : ℕ → ℕ) (ps : List ℕ) (c c' : Core) : Type 0 where
  pub wheel : IsWheel t m due [] c'
  pub same : (q : ℕ) → total q c'.vec ≡ total q c.vec + count q ps
  pub kept : Kept c c'

-- `ilist_del_init` of the first node of the local list.
abbrev unlink_first : ℕ → Core → Core
unlink_first p c = record c { node = write_node c.node p (record (c.node p) { linked = false }) }

unlink_first-IsWheel :
    (t m : ℕ) (due : ℕ → ℕ) (p : ℕ) (ps : List ℕ) {c : Core}
    → IsWheel t m due (p ∷ ps) c
    → IsWheel t m due ps (unlink_first p c)
unlink_first-IsWheel t m due p ps {c} w = record {
  clock = w.clock;
  held = λ l i q h.
      let old = w.held l i q h in
      record { slot = old.slot; past = old.past; timed = λ r. ground (arith, old.timed r) };
  linked = λ q. ground (arith, w.linked q, w.linked p);
  cored = λ q e. ground (arith, w.cored q);
}

-- One round of the loop: the first node of the list goes back into the wheel.
module _ (t m : ℕ) (due : ℕ → ℕ) (p : ℕ) (ps : List ℕ) {c : Core} (w : IsWheel t m due (p ∷ ps) c)
    (timed : IsTimed t due c.node (p ∷ ps)) where
  times : (q : ℕ) → ((unlink_first p c).node q).expires ≡ (c.node q).expires
  times q = ground arith

  first : (t ≤ due p) × (due p < t + 2 ^ 31) × ((c.node p).expires ≡ to_u32 (due p))
  first = timed p (ground arith)

  place : IsPlace t (due p) (slot_of c.timer_jiffies ((unlink_first p c).node p).expires)
  place =
      subst (λ j. IsPlace t (due p) (slot_of j ((unlink_first p c).node p).expires)) (sym w.clock)
        (subst (λ e. IsPlace t (due p) (slot_of (to_u32 t) e)) (sym (times p ∙ first.2))
          (slot_of-IsPlace t (due p) first.0 first.1))

  put_back :
      let c' = itimer_internal_add p (unlink_first p c) in
      IsWheel t m due ps c' × ((q : ℕ) → total q c'.vec ≡ total q c.vec + bit q p) × Kept c c'
  put_back =
      let added =
        internal_add-IsWheel t m due ps p (unlink_first-IsWheel t m due p ps w) (ground arith) place
          (λ _. times p ∙ first.2) in
      let kept : Kept c (unlink_first p c) = record {
        queued = refl;
        clock = refl;
        expires = times;
        callback = λ q. ground arith;
        arg = λ q. ground arith;
      } in
      (added.0, added.1, Kept-trans kept added.2)

cascade_loop-Moved :
    (t m : ℕ) (due : ℕ → ℕ) (ps : List ℕ) {c : Core}
    → IsWheel t m due ps c
    → IsTimed t due c.node ps
    → Moved t m due ps c (cascade_loop ps c)
unfolding cascade_loop
cascade_loop-Moved t m due [] {c} w timed = record {
  wheel = w;
  same = λ q. omega arith;
  kept = Kept-refl c;
}
cascade_loop-Moved t m due (p ∷ ps) {c} w timed =
    let step = put_back t m due p ps w timed in
    let rest =
      cascade_loop-Moved t m due ps step.0
        (λ q h. let old = timed q (ground arith) in (old.0, old.1, step.2.expires q ∙ old.2)) in
    record {
      wheel = rest.wheel;
      same = λ q. rest.same q ∙ omega (arith, step.1 q);
      kept = Kept-trans step.2 rest.kept;
    }

-- One cascade, of the slot of vector `l` that comes up at tick `t`.
cascade-Moved :
    (t l : ℕ) (due : ℕ → ℕ) {c : Core}
    → IsWheel t l due [] c
    → 0 < l
    → l < 5
    → Moved t (suc l) due [] c (itimer_internal_cascade l (index_at t l) c)
unfolding itimer_internal_cascade
cascade-Moved t l due {c} w pos top = record {
  wheel = moved.wheel;
  same = λ q. omega (arith, moved.same q, taken q);
  kept =
      Kept-trans
        (record {
          queued = refl;
          clock = refl;
          expires = λ p. refl;
          callback = λ p. refl;
          arg = λ p. refl;
        })
        moved.kept;
}
  where
    i : ℕ
    i = index_at t l

    ps : List ℕ
    ps = c.vec l i

    cut : Core
    cut = record c { vec = write_vec c.vec l i [] }

    taken : (q : ℕ) → total q cut.vec + count q ps ≡ total q c.vec
    taken q = omega (arith, total-write q c.vec l i [] top (omega arith))

    -- What is left in the vector comes up later.
    stays : (k j p : ℕ) → 0 < count p (cut.vec k j) → Held t (suc l) due c.node k j p
    stays k j p h = elim (Bool-cases (l == k && i == j)) [
      | inl e ↦ absurd (omega (arith, ap (count p) (hidden e), h))
      | inr e ↦
          let old = w.held k j p (rw e at h) in
          record {
            slot = old.slot;
            past = λ r q. elim (Bool-cases (k == l)) [
              | inl same ↦
                  let kl : l ≡ k = ground arith in
                  let other : j ≢ index_at t l = λ eq. ground arith in
                  other_slot-IsPast k t j (due p) old.slot r
                    (subst (λ a. j ≢ index_at t a) kl other)
              | inr ne ↦ old.past r (ground arith)
            ];
            timed = old.timed;
          }
    ]
      where
        hidden : (l == k && i == j) ≡ true → cut.vec k j ≡ []
        hidden e = rw e

    moved : Moved t (suc l) due ps cut (cascade_loop ps cut)
    moved =
        cascade_loop-Moved t (suc l) due ps
          (record {
            clock = w.clock;
            held = stays;
            linked = λ p. omega (arith, w.linked p, taken p);
            cored = w.cored;
          })
          (λ p h.
            let old = w.held l i p h in
            let bounds = InSlot-bounds l t i (due p) old.slot in
            (bounds.2, bounds.3, old.timed pos))

-- The vectors from `m` up need no cascade at a tick that their slots do not start at.
skip-Moved :
    (t m : ℕ) (due : ℕ → ℕ) {c c' : Core}
    → Moved t m due [] c c'
    → 0 < m
    → ¬ Aligned t m
    → Moved t 5 due [] c c'
skip-Moved t m due {c} {c'} w pos no_start = record {
  wheel = record {
    clock = w.wheel.clock;
    held = λ l i p h.
        let old = w.wheel.held l i p h in
        record {
          slot = old.slot;
          past = λ r q. elim (Bool-cases (ltb l m)) [
            | inl e ↦ old.past r (ground arith)
            | inr e ↦ unaligned-IsPast l m t i (due p) old.slot pos (ground arith) no_start
          ];
          timed = old.timed;
        };
    linked = w.wheel.linked;
    cored = w.wheel.cored;
  };
  same = w.same;
  kept = w.kept;
}

-- A cascade after others.
then-Moved :
    (t m n : ℕ) (due : ℕ → ℕ) {a b c : Core}
    → Moved t m due [] a b
    → Moved t n due [] b c
    → Moved t n due [] a c
then-Moved t m n due s r = record {
  wheel = r.wheel;
  same = λ q. omega (arith, s.same q, r.same q);
  kept = Kept-trans s.kept r.kept;
}

next-Moved :
    (t l : ℕ) (due : ℕ → ℕ) {a c : Core} (i : ℕ)
    → Moved t l due [] a c
    → 0 < l
    → l < 5
    → i ≡ index_at t l
    → Moved t (suc l) due [] a (itimer_internal_cascade l i c)
next-Moved t l due {a} {c} i s pos top e = then-Moved t l (suc l) due s (
    subst (λ j. Moved t (suc l) due [] c (itimer_internal_cascade l j c)) (sym e)
      (cascade-Moved t l due s.wheel pos top))

-- The cascades of one tick lose no node and add none, and after them no slot of the vectors 1 to
-- 4 comes up before the next tick.
pub cascades-Moved :
    (t : ℕ) (due : ℕ → ℕ) {c : Core} → IsWheel t 1 due [] c → Moved t 5 due [] c (cascades c)
unfolding cascades
cascades-Moved t due {c} w = elim (Bool-cases (c.timer_jiffies % 2 ^ 8 == 0)) [
  | inr e ↦ rw e (skip-Moved t 1 due m0 (omega arith) (λ z. ground (arith, w.clock)))
  | inl e ↦ rw e (elim (Bool-cases (itimer_index c 0 == 0)) [
    | inr e0 ↦ rw e0 (skip-Moved t 2 due m1 (omega arith) (λ z. ground (arith, clock m0 1)))
    | inl e0 ↦ rw e0 (elim (Bool-cases (itimer_index c1 1 == 0)) [
      | inr e1 ↦ rw e1 (skip-Moved t 3 due m2 (omega arith) (λ z. ground (arith, clock m1 2)))
      | inl e1 ↦ rw e1 (elim (Bool-cases (itimer_index c2 2 == 0)) [
        | inr e2 ↦ rw e2 (skip-Moved t 4 due m3 (omega arith) (λ z. ground (arith, clock m2 3)))
        | inl e2 ↦
            rw e2
              (next-Moved t 4 due (itimer_index c3 3) m3 (omega arith) (omega arith) (clock m3 4))
      ])
    ])
  ])
]
  where
    c1 : Core
    c1 = itimer_internal_cascade 1 (itimer_index c 0) c

    c2 : Core
    c2 = itimer_internal_cascade 2 (itimer_index c1 1) c1

    c3 : Core
    c3 = itimer_internal_cascade 3 (itimer_index c2 2) c2

    clock :
        {m : ℕ} {b : Core}
        → Moved t m due [] c b
        → (l : ℕ) → b.timer_jiffies / 2 ^ (8 + (l - 1) * 6) % 2 ^ 6 ≡ index_at t l
    clock s l = ap (λ j. j / 2 ^ (8 + (l - 1) * 6) % 2 ^ 6) s.wheel.clock

    m0 : Moved t 1 due [] c c
    m0 = record { wheel = w; same = λ q. omega arith; kept = Kept-refl c }

    m1 : Moved t 2 due [] c c1
    m1 = next-Moved t 1 due (itimer_index c 0) m0 (omega arith) (omega arith) (clock m0 1)

    m2 : Moved t 3 due [] c c2
    m2 = next-Moved t 2 due (itimer_index c1 1) m1 (omega arith) (omega arith) (clock m1 2)

    m3 : Moved t 4 due [] c c3
    m3 = next-Moved t 3 due (itimer_index c2 2) m2 (omega arith) (omega arith) (clock m2 3)
