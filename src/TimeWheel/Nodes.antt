-- ===== src/TimeWheel/Nodes.antt =====
-- itimer_node_add, itimer_node_del and itimer_node_mod, at any time: between runs, or in a
-- callback while nodes wait in the local list.
use algorithm.Common.{
  to_u32, if_true, if_false, ℕ, ◌+◌, ◌^◌, ◌<◌, ◌≡◌, ◌≢◌, refl, Bool, true, false, arith,
  if◌then◌else◌, count, Bool-cases, inl, inr, ap, ◌∙◌, sym, ◌==◌, bit, subst,
}
use algorithm.TimeWheel.{
  Core, write_node, remove, clear_core, set_expires, ilist_del_init, itimer_internal_add,
  itimer_node_add, itimer_node_del, itimer_node_mod, DelResult, stops, not_pending, deleted,
  state_ok, slot_of,
}
use algorithm.TimeWheel.Place.{InSlot-bounds, InSlot, IsPast, IsPlace, deadline, add-IsPlace}
use algorithm.TimeWheel.Total.{
  total, count-le-total, count-remove, total-remove_ne, total-remove_self,
}
use algorithm.TimeWheel.Invariant.{IsWheel, Kept, internal_add-IsWheel}

-- The node has been taken out of the wheel and of the local list, and no other node has.
record Unlinked (t m : ℕ) (due : ℕ → ℕ) (p : ℕ) (c d : Core) : Type 0 where
  wheel : IsWheel t m due d.queued d
  gone : total p d.vec ≡ 0
  waits : count p d.queued ≡ 0
  others : (q : ℕ) → q ≢ p → total q d.vec ≡ total q c.vec
  free : (d.node p).linked ≡ false
  nodes : (q : ℕ) → q ≢ p → d.node q ≡ c.node q

del_init-Unlinked :
    (t m : ℕ) (due : ℕ → ℕ) (p : ℕ) {c : Core}
    → IsWheel t m due c.queued c
    → Unlinked t m due p c (ilist_del_init p c)
unfolding ilist_del_init
del_init-Unlinked t m due p {c} w = record {
  wheel = record {
    clock = w.clock;
    held = λ l i q h.
        let old = w.held l i q (ground (arith, count-remove q p (c.vec l i))) in
        record { slot = old.slot; past = old.past; timed = λ r. ground (arith, old.timed r) };
    linked = λ q. elim (Bool-cases (q == p)) [
      | inl e ↦
          let eq : p ≡ q = ground arith in
          subst
            (λ (a : ℕ). total a (λ l i. remove p (c.vec l i)) + count a (remove p c.queued) ≡ (
              if (write_node c.node p (record (c.node p) { linked = false }) a).linked
              then 1
              else 0))
            eq (ground (arith, gone, waits))
      | inr e ↦ ground (arith, w.linked q, count-remove q p c.queued, total-remove_ne q p c.vec)
    ];
    cored = λ q e. ground (arith, w.cored q);
  };
  gone = gone;
  waits = waits;
  others = λ q ne. total-remove_ne q p c.vec ne;
  free = ground arith;
  nodes = λ q ne. ground arith;
}
  where
    gone : total p (λ l i. remove p (c.vec l i)) ≡ 0
    gone = total-remove_self p c.vec (ground (arith, w.linked p))

    waits : count p (remove p c.queued) ≡ 0
    waits = ground (arith, w.linked p, count-remove p p c.queued)

clear_core-Unlinked :
    (t m : ℕ) (due : ℕ → ℕ) (p : ℕ) {c d : Core}
    → Unlinked t m due p c d
    → Unlinked t m due p c (clear_core p d)
clear_core-Unlinked t m due p {c} {d} u = record {
  wheel = record {
    clock = u.wheel.clock;
    held = λ l i q h.
        let old = u.wheel.held l i q h in
        record { slot = old.slot; past = old.past; timed = λ r. ground (arith, old.timed r) };
    linked = λ q. ground (arith, u.wheel.linked q);
    cored = λ q e. ground (arith, u.wheel.cored q, u.free);
  };
  gone = u.gone;
  waits = u.waits;
  others = u.others;
  free = ground (arith, u.free);
  nodes = λ q ne. ground (arith, u.nodes q ne);
}

-- A node that stands in no list.
idle-Unlinked :
    (t m : ℕ) (due : ℕ → ℕ) (p : ℕ) {c : Core}
    → IsWheel t m due c.queued c
    → (c.node p).linked ≡ false
    → Unlinked t m due p c c
idle-Unlinked t m due p {c} w free = record {
  wheel = w;
  gone = ground (arith, w.linked p);
  waits = ground (arith, w.linked p);
  others = λ q ne. refl;
  free = free;
  nodes = λ q ne. refl;
}

taken_out :
    (t m : ℕ) (due : ℕ → ℕ) (p : ℕ) {c : Core}
    → IsWheel t m due c.queued c
    → Unlinked t m due p c (if (c.node p).linked then clear_core p (ilist_del_init p c) else c)
taken_out t m due p {c} w = elim (Bool-cases (c.node p).linked) [
  | inl e ↦ rw e (clear_core-Unlinked t m due p (del_init-Unlinked t m due p w))
  | inr e ↦ rw e (idle-Unlinked t m due p w e)
]

-- What itimer_node_del leaves: the node is in no list any more, and every other node is as before.
pub record Deleted (t m : ℕ) (due : ℕ → ℕ) (p : ℕ) (c : Core) (r : DelResult × Core) : Type 0 where
  pub wheel : IsWheel t m due r.1.queued r.1
  pub gone : total p r.1.vec + count p r.1.queued ≡ 0
  pub others : (q : ℕ) → q ≢ p → (total q r.1.vec ≡ total q c.vec) × (r.1.node q ≡ c.node q)
  pub reply : r.0 ≡ (if total p c.vec + count p c.queued == 0 then not_pending else deleted)

-- itimer_node_del of a node whose state is OK fails no assertion: it takes the node out of the wheel,
-- also out of the local list, and says whether the node was pending. It changes no other node.
pub node_del-Deleted :
    (t m : ℕ) (due : ℕ → ℕ) (p : ℕ) {c : Core}
    → IsWheel t m due c.queued c
    → (c.node p).state ≡ state_ok
    → Deleted t m due p c (itimer_node_del p c)
unfolding itimer_node_del
node_del-Deleted t m due p {c} w state = elim (Bool-cases (c.node p).linked) [
  | inl e ↦ subst (Deleted t m due p c) (sym (pending e)) (deleted_lem (taken e) e)
  | inr e ↦ subst (Deleted t m due p c) (sym (idle e)) (record {
    wheel = w;
    gone = ground (arith, w.linked p, e);
    others = λ q ne. (refl, refl);
    reply = ground (arith, w.linked p, e);
  })
]
  where
    good : ((c.node p).state == state_ok) ≡ true
    good = ground arith

    pending :
        (c.node p).linked ≡ true
        → itimer_node_del p c ≡ (deleted, clear_core p (ilist_del_init p c))
    pending e = if_true _ _ good ∙ if_true _ _ e ∙ if_true _ _ (w.cored p e)

    idle : (c.node p).linked ≡ false → itimer_node_del p c ≡ (not_pending, c)
    idle e = if_true _ _ good ∙ if_false _ _ e

    taken : (c.node p).linked ≡ true → Unlinked t m due p c (clear_core p (ilist_del_init p c))
    taken e = clear_core-Unlinked t m due p (del_init-Unlinked t m due p w)

    deleted_lem :
        {d : Core}
        → Unlinked t m due p c d
        → (c.node p).linked ≡ true
        → Deleted t m due p c (deleted, d)
    deleted_lem u e = record {
      wheel = u.wheel;
      gone = omega (arith, u.gone, u.waits);
      others = λ q ne. (u.others q ne, u.nodes q ne);
      reply = ground (arith, w.linked p, e);
    }

abbrev pub reset : (ℕ → ℕ) → ℕ → ℕ → ℕ → ℕ
reset due p x q = if p == q then x else due q

-- A node outside the wheel may be given another time.
set_expires-IsWheel :
    (t m : ℕ) (due : ℕ → ℕ) (p x expires : ℕ) {c : Core}
    → IsWheel t m due c.queued c
    → total p c.vec ≡ 0
    → IsWheel t m (reset due p x) c.queued (set_expires p expires c)
set_expires-IsWheel t m due p x expires {c} w gone = record {
  clock = w.clock;
  held = λ l i q h.
      let old = w.held l i q h in
      let bounds = InSlot-bounds l t i (due q) old.slot in
      let ne : (p == q) ≡ false =
        ground (arith, gone, count-le-total q c.vec l i bounds.0 bounds.1) in
      let same : due q ≡ reset due p x q = ground arith in
      record {
        slot = subst (λ y. InSlot t l i y) same old.slot;
        past = λ r k. subst (λ y. IsPast t l y) same (old.past r k);
        timed = λ r. ground (arith, old.timed r);
      };
  linked = λ q. ground (arith, w.linked q);
  cored = λ q e. ground (arith, w.cored q);
}

-- What itimer_node_add leaves: the node stands once in the wheel, due at its deadline, and every
-- other node is as before.
pub record Scheduled (t m : ℕ) (due : ℕ → ℕ) (p expires : ℕ) (c c' : Core) : Type 0 where
  pub wheel : IsWheel t m (reset due p (deadline t expires)) c'.queued c'
  pub once : total p c'.vec ≡ 1
  pub waits : count p c'.queued ≡ 0
  pub others : (q : ℕ) → q ≢ p → (total q c'.vec ≡ total q c.vec) × (c'.node q ≡ c.node q)

-- A slot for `expires` at a clock `j` that stands at `t`, for a node due at `x`.
abbrev Fits : ℕ → ℕ → ℕ → ℕ → Type 0
Fits t x j expires =
    IsPlace t x (slot_of j expires) × (0 < (slot_of j expires).0 → expires ≡ to_u32 x)

internal_add_node : (q p : ℕ) (c : Core) → q ≢ p → (itimer_internal_add p c).node q ≡ c.node q
unfolding itimer_internal_add
internal_add_node q p c ne = ground arith

set_expires_node : (q p e : ℕ) (c : Core) → q ≢ p → (set_expires p e c).node q ≡ c.node q
set_expires_node q p e c ne = ground arith

absent_bit : (q p : ℕ) → q ≢ p → bit q p ≡ 0
absent_bit q p ne = ground arith

-- itimer_node_add takes the node out of the list that it stands in, if it stands in one, and puts
-- it into the wheel once, due at the tick that `expires` names, or at once if that lies behind.
pub node_add-Scheduled :
    (t m : ℕ) (due : ℕ → ℕ) (p expires : ℕ) {c : Core}
    → IsWheel t m due c.queued c
    → (c.node p).state ≡ state_ok
    → expires < 2 ^ 32
    → Scheduled t m due p expires c (itimer_node_add p expires c)
unfolding itimer_node_add
node_add-Scheduled t m due p expires {c} w state small =
    subst (Scheduled t m due p expires c) (sym (if_true _ _ good)) (record {
      wheel =
          subst (λ qs. IsWheel t m due' qs (itimer_internal_add p timed)) (sym added.2.queued)
            added.0;
      once = ground (arith, added.1 p, out.gone);
      waits = ap (count p) added.2.queued ∙ out.waits;
      others =
          λ q ne. (omega (arith, added.1 q, out.others q ne, absent_bit q p ne), same_node q ne);
    })
  where
    good : ((c.node p).state == state_ok) ≡ true
    good = ground arith

    b : Core
    b = if (c.node p).linked then clear_core p (ilist_del_init p c) else c

    timed : Core
    timed = set_expires p expires b

    due' : ℕ → ℕ
    due' = reset due p (deadline t expires)

    out : Unlinked t m due p c b
    out = taken_out t m due p w

    here : due' p ≡ deadline t expires
    here = ground arith

    carries : (timed.node p).expires ≡ expires
    carries = ground arith

    place :
        IsPlace t (due' p) (slot_of timed.timer_jiffies (timed.node p).expires)
        × (0 < (slot_of timed.timer_jiffies (timed.node p).expires).0
            → (timed.node p).expires ≡ to_u32 (due' p))
    place =
        subst (λ y. Fits t y timed.timer_jiffies (timed.node p).expires) (sym here)
          (subst (λ e. Fits t (deadline t expires) timed.timer_jiffies e) (sym carries)
            (subst (λ j. Fits t (deadline t expires) j expires) (sym out.wheel.clock)
              (add-IsPlace t expires small)))

    added :
        IsWheel t m due' b.queued (itimer_internal_add p timed)
        × ((q : ℕ) → total q (itimer_internal_add p timed).vec ≡ total q timed.vec + bit q p)
        × Kept timed (itimer_internal_add p timed)
    added =
        internal_add-IsWheel t m due' b.queued p
          (set_expires-IsWheel t m due p (deadline t expires) expires out.wheel out.gone)
          (ground (arith, out.free)) place.0 place.1

    same_node : (q : ℕ) → q ≢ p → (itimer_internal_add p timed).node q ≡ c.node q
    same_node q ne =
        internal_add_node q p timed ne ∙ set_expires_node q p expires b ne ∙ out.nodes q ne

state-node_del : (p q : ℕ) (c : Core) → ((itimer_node_del p c).1.node q).state ≡ (c.node q).state
unfolding itimer_node_del
state-node_del p q c = ground arith

abbrev pub Modified : (t m : ℕ) (due : ℕ → ℕ) (p expires : ℕ) → Core → DelResult × Core → Type 0
Modified t m due p expires c r =
    Scheduled t m due p expires c r.1
    × (r.0 ≡ (if total p c.vec + count p c.queued == 0 then not_pending else deleted))

reply-goes_on :
    (b : Bool) (r : DelResult) → r ≡ (if b then not_pending else deleted) → stops r ≡ false
reply-goes_on true r e = ap stops e
reply-goes_on false r e = ap stops e

-- itimer_node_mod reports whether the node was pending, and reschedules it as itimer_node_add does.
pub node_mod-Scheduled :
    (t m : ℕ) (due : ℕ → ℕ) (p expires : ℕ) {c : Core}
    → IsWheel t m due c.queued c
    → (c.node p).state ≡ state_ok
    → expires < 2 ^ 32
    → Modified t m due p expires c (itimer_node_mod p expires c)
unfolding itimer_node_mod
node_mod-Scheduled t m due p expires {c} w state small =
    let d = node_del-Deleted t m due p w state in
    let s = node_add-Scheduled t m due p expires d.wheel (state-node_del p p c ∙ state) small in
    subst (λ (r : DelResult × Core). Modified t m due p expires c r)
      (sym (if_false (itimer_node_del p c) _ (reply-goes_on _ _ d.reply)))
      (
        record {
          wheel = s.wheel;
          once = s.once;
          waits = s.waits;
          others = λ q ne.
              ((s.others q ne).0 ∙ (d.others q ne).0, (s.others q ne).1 ∙ (d.others q ne).1);
        },
        d.reply,
      )
