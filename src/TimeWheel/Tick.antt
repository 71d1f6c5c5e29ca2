-- ===== src/TimeWheel/Tick.antt =====
-- One tick of itimer_internal_update, over callbacks that leave the core alone.
use algorithm.Common.{
  to_u32, ℕ, zero, suc, ◌+◌, ◌%◌, ◌^◌, ◌<◌, ◌≡◌, refl, true, false, arith, List, [], ◌∷◌, count,
  ◌==◌, ◌&&◌, Bool-cases, inl, inr, subst, ap, Option, none, some, ◌∙◌, length,
}
use algorithm.TimeWheel.{
  Node, Core, write_node, write_vec, remove, clear_core, ilist_del_init, cascades, advance, fire,
  queued_loop, tick,
}
use algorithm.TimeWheel.Place.{InSlot, InSlot-bounds, IsPast-InSlot, InSlot-suc, slot_due}
use algorithm.TimeWheel.Total.{total, total-write, count-le-total}
use algorithm.TimeWheel.Invariant.{Held, IsWheel}
use algorithm.TimeWheel.Cascade.{Moved, cascades-Moved}

-- What `advance` makes of a wheel whose vectors have been cascaded at `t`.
record Advanced (t : ℕ) (due : ℕ → ℕ) (c c' : Core) : Type 0 where
  wheel : IsWheel (t + 1) 1 due c'.queued c'
  now : (p : ℕ) → 0 < count p c'.queued → due p ≡ t
  same : (p : ℕ) → total p c'.vec + count p c'.queued ≡ total p c.vec
  nodes : c'.node ≡ c.node

advance-Advanced :
    (t : ℕ) (due : ℕ → ℕ) {c : Core} → IsWheel t 5 due [] c → Advanced t due c (advance c)
unfolding advance
advance-Advanced t due {c} w = record {
  wheel = record {
    clock = omega (arith, w.clock);
    held = stays;
    linked = λ p. omega (arith, w.linked p, taken p);
    cored = w.cored;
  };
  now = λ p h.
      slot_due t (due p)
        (subst (λ i. InSlot t 0 i (due p)) index (w.held 0 (c.timer_jiffies % 2 ^ 8) p h).slot);
  same = taken;
  nodes = refl;
}
  where
    index : c.timer_jiffies % 2 ^ 8 ≡ to_u32 t % 2 ^ 8
    index = ap (λ j. j % 2 ^ 8) w.clock

    taken :
        (p : ℕ)
        → total p (write_vec c.vec 0 (c.timer_jiffies % 2 ^ 8) [])
            + count p (c.vec 0 (c.timer_jiffies % 2 ^ 8))
          ≡ total p c.vec
    taken p =
        omega
          (arith, total-write p c.vec 0 (c.timer_jiffies % 2 ^ 8) [] (omega arith) (omega arith))

    stays :
        (l j p : ℕ)
        → 0 < count p (write_vec c.vec 0 (c.timer_jiffies % 2 ^ 8) [] l j)
        → Held (t + 1) 1 due c.node l j p
    stays l j p h = elim (Bool-cases (0 == l && c.timer_jiffies % 2 ^ 8 == j)) [
      | inl e ↦ absurd (omega (arith, ap (count p) (hidden e), h))
      | inr e ↦
          let old = w.held l j p (rw e at h) in
          record {
            slot =
                InSlot-suc l t j (due p) old.slot (IsPast-InSlot l t j (due p) old.slot old.past)
                  (λ z eq. ground (arith, index));
            past = λ r q. absurd (omega arith);
            timed = old.timed;
          }
    ]
      where
        hidden :
            (0 == l && c.timer_jiffies % 2 ^ 8 == j) ≡ true
            → write_vec c.vec 0 (c.timer_jiffies % 2 ^ 8) [] l j ≡ []
        hidden e = rw e

-- A list that does not hold the node stays as it is.
remove-absent : (p : ℕ) (qs : List ℕ) → count p qs ≡ 0 → remove p qs ≡ qs
unfolding remove
remove-absent p [] h = refl
remove-absent p (q ∷ qs) h = ground (arith, remove-absent p qs)

remove_first : (p : ℕ) (ps : List ℕ) → remove p (p ∷ ps) ≡ ps
unfolding remove
remove_first p ps = ground arith

-- The core as one round of the loop over `queued` leaves it.
abbrev dequeued : ℕ → List ℕ → Core → Core
dequeued p ps c = record c {
  queued = ps;
  node = write_node c.node p (record (c.node p) { linked = false; core = false });
}

dequeued-IsWheel :
    (t m : ℕ) (due : ℕ → ℕ) (p : ℕ) (ps : List ℕ) {c : Core}
    → IsWheel t m due (p ∷ ps) c
    → IsWheel t m due ps (dequeued p ps c)
dequeued-IsWheel t m due p ps {c} w = record {
  clock = w.clock;
  held = λ l i q h.
      let old = w.held l i q h in
      record { slot = old.slot; past = old.past; timed = λ r. ground (arith, old.timed r) };
  linked = λ q. ground (arith, w.linked q, w.linked p);
  cored = λ q e. ground (arith, w.cored q);
}

-- The node of a list outside the slots stands in none of them.
absent :
    (t m : ℕ) (due : ℕ → ℕ) (p : ℕ) (ps : List ℕ) {c : Core}
    → IsWheel t m due (p ∷ ps) c
    → (l i : ℕ) → count p (c.vec l i) ≡ 0
absent t m due p ps {c} w l i = elim (Bool-cases (count p (c.vec l i) == 0)) [
  | inl e ↦ ground arith
  | inr e ↦
      let bounds = InSlot-bounds l t i (due p) (w.held l i p (ground arith)).slot in
      ground (arith, w.linked p, count-le-total p c.vec l i bounds.0 bounds.1)
]

-- What `fire` does to the core before the callback.
dequeue-eq :
    (t m : ℕ) (due : ℕ → ℕ) (p : ℕ) (ps : List ℕ) {c : Core}
    → IsWheel t m due (p ∷ ps) c
    → c.queued ≡ p ∷ ps
    → clear_core p (ilist_del_init p c) ≡ dequeued p ps c
unfolding ilist_del_init
dequeue-eq t m due p ps {c} w q = λ i. record {
  timer_jiffies = c.timer_jiffies;
  vec = λ l j. remove-absent p (c.vec l j) (absent t m due p ps w l j) i;
  queued = queue i;
  node = λ r. node r i;
}
  where
    queue : remove p c.queued ≡ ps
    queue = ap (remove p) q ∙ remove_first p ps

    d : Core
    d = ilist_del_init p c

    node :
        (r : ℕ)
        → write_node d.node p (record (d.node p) { core = false }) r
          ≡ write_node c.node p (record (c.node p) { linked = false; core = false }) r
    node r = ground arith

-- The callback of every node, and its argument, are as before.
abbrev pub SameCalls : (ℕ → Node) → (ℕ → Node) → Type 0
SameCalls f g = (p : ℕ) → ((f p).callback ≡ (g p).callback) × ((f p).arg ≡ (g p).arg)

module _ {E : Type 0} (act : ℕ → ℕ → E → E) where
  -- The callback of a node, if it has one.
  abbrev pub run_cb : Node → E → E
  run_cb v e = elim v.callback [ none ↦ e | some fn ↦ act fn v.arg e ]

  abbrev pub run_all : (ℕ → Node) → List ℕ → E → E
  run_all node [] e = e
  run_all node (p ∷ ps) e = run_all node ps (run_cb (node p) e)

  pub run_all-ext :
      (f g : ℕ → Node) (ps : List ℕ) (e : E) → SameCalls f g → run_all f ps e ≡ run_all g ps e
  run_all-ext f g [] e h = refl
  run_all-ext f g (p ∷ ps) e h =
      let same : run_cb (f p) e ≡ run_cb (g p) e =
        λ i. elim ((h p).0 i) [ none ↦ e | some fn ↦ act fn ((h p).1 i) e ] in
      ap (run_all f ps) same ∙ run_all-ext f g ps (run_cb (g p) e) h

  module _ (call : ℕ → ℕ → E × Core → E × Core)
      (quiet : (fn arg : ℕ) (e : E) (c : Core) → call fn arg (e, c) ≡ (act fn arg e, c)) where
    fire_quiet :
        (t m : ℕ) (due : ℕ → ℕ) (p : ℕ) (ps : List ℕ) (e : E) {c : Core}
        → IsWheel t m due (p ∷ ps) c
        → c.queued ≡ p ∷ ps
        → fire call p (e, c) ≡ (run_cb (c.node p) e, dequeued p ps c)
    unfolding fire
    fire_quiet t m due p ps e {c} w q =
        go (c.node p).callback (c.node p).arg (dequeue-eq t m due p ps w q)
      where
        go :
            (o : Option ℕ) (a : ℕ) {c' d : Core}
            → c' ≡ d
            → ◌≡◌ {A = E × Core}
                (elim o [ none ↦ (e, c') | some fn ↦ call fn a (e, c') ])
                (elim o [ none ↦ e | some fn ↦ act fn a e ], d)
        go none a h = λ i. (e, h i)
        go (some fn) a {c'} h = quiet fn a e c' ∙ (λ i. (act fn a e, h i))

    -- The queue has been run to its end.
    record Drained (t m : ℕ) (due : ℕ → ℕ) (ps : List ℕ) (e : E) (c : Core) (r : Option (E × Core))
        : Type 0 where
      rest : Core
      result : r ≡ some (run_all c.node ps e, rest)
      wheel : IsWheel t m due [] rest
      empty : rest.queued ≡ []
      slots : rest.vec ≡ c.vec
      calls : SameCalls rest.node c.node

    queued_loop-Drained :
        (f t m : ℕ) (due : ℕ → ℕ) (ps : List ℕ) (e : E) {c : Core}
        → IsWheel t m due ps c
        → c.queued ≡ ps
        → length ps < f
        → Drained t m due ps e c (queued_loop call f (e, c))
    unfolding queued_loop
    queued_loop-Drained zero t m due ps e w q h = absurd (omega arith)
    queued_loop-Drained (suc f) t m due [] e {c} w q h = rw q (record {
      rest = c;
      result = refl;
      wheel = w;
      empty = q;
      slots = refl;
      calls = λ p. (refl, refl);
    })
    queued_loop-Drained (suc f) t m due (p ∷ ps) e {c} w q h =
        let ih =
          queued_loop-Drained f t m due ps (run_cb (c.node p) e) (dequeued-IsWheel t m due p ps w)
            refl (omega arith) in
        let calls : SameCalls (dequeued p ps c).node c.node = λ r. (ground arith, ground arith) in
        rw (q, fire_quiet t m due p ps e w q)
          (record {
            rest = ih.rest;
            result =
                ih.result
                ∙ ap (λ x. some (x, ih.rest))
                    (run_all-ext (dequeued p ps c).node c.node ps (run_cb (c.node p) e) calls);
            wheel = ih.wheel;
            empty = ih.empty;
            slots = ih.slots;
            calls = λ r. ((ih.calls r).0 ∙ (calls r).0, (ih.calls r).1 ∙ (calls r).1);
          })

    -- What one tick at `t` makes of a wheel: the nodes that it ran were due then.
    pub record Ticked (t : ℕ) (due : ℕ → ℕ) (e : E) (c : Core) (r : Option (E × Core))
        : Type 0 where
      pub ran : List ℕ
      pub rest : Core
      pub result : r ≡ some (run_all c.node ran e, rest)
      pub wheel : IsWheel (t + 1) 1 due [] rest
      pub same : (p : ℕ) → count p ran + total p rest.vec ≡ total p c.vec
      pub now : (p : ℕ) → 0 < count p ran → due p ≡ t
      pub calls : SameCalls rest.node c.node

    pub tick-Ticked :
        (t : ℕ) (due : ℕ → ℕ) (e : E) {c : Core}
        → IsWheel t 1 due [] c
        → Ticked t due e c (tick call (e, c))
    unfolding tick
    tick-Ticked t due e {c} w = record {
      ran = (advance c1).queued;
      rest = d.rest;
      result =
          d.result
          ∙ ap (λ x. some (x, d.rest))
              (run_all-ext (advance c1).node c.node (advance c1).queued e calls);
      wheel = d.wheel;
      same = λ p. omega (arith, a.same p, m.same p, ap (total p) d.slots);
      now = a.now;
      calls = λ p. ((d.calls p).0 ∙ (calls p).0, (d.calls p).1 ∙ (calls p).1);
    }
      where
        c1 : Core
        c1 = cascades c

        m : Moved t 5 due [] c c1
        m = cascades-Moved t due w

        a : Advanced t due c1 (advance c1)
        a = advance-Advanced t due m.wheel

        calls : SameCalls (advance c1).node c.node
        calls p = (
          ap (λ (f : ℕ → Node). (f p).callback) a.nodes ∙ m.kept.callback p,
          ap (λ (f : ℕ → Node). (f p).arg) a.nodes ∙ m.kept.arg p,
        )

        d :
            Drained
              (t + 1)
              1
              due
              (advance c1).queued
              e
              (advance c1)
              (queued_loop call (suc (length (advance c1).queued)) (e, advance c1))
        d =
            queued_loop-Drained (suc (length (advance c1).queued)) (t + 1) 1 due (advance c1).queued
              e a.wheel refl (omega arith)
