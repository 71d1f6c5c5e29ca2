-- ===== src/TimeWheel/Invariant.antt =====
-- The invariant of the timing wheel, and itimer_internal_add.
use algorithm.Common.{
  true, to_u32, ℕ, ◌+◌, ◌<◌, ◌≡◌, refl, false, arith, List, [], ◌∷◌, ◌++◌, if◌then◌else◌, bit,
  count, count-append, ◌==◌, ◌&&◌, Bool-cases, inl, inr, subst, ◌∙◌,
}
use algorithm.TimeWheel.{itimer_core_init, Node, Core, write_vec, slot_of, itimer_internal_add}
use algorithm.TimeWheel.Place.{InSlot, IsPast, IsPlace}
use algorithm.TimeWheel.Total.{total, total-empty, total-write}

-- What is known at tick `t` of a node `p` in the slot `i` of vector `l`. The vectors from 1 to
-- `m - 1` have been cascaded. A node that was late stands in vector 0 under a due tick of its own.
pub record Held (t m : ℕ) (due : ℕ → ℕ) (node : ℕ → Node) (l i p : ℕ) : Type 0 where
  pub slot : InSlot t l i (due p)
  pub past : 0 < l → l < m → IsPast t l (due p)
  pub timed : 0 < l → (node p).expires ≡ to_u32 (due p)

-- The wheel at tick `t`, while the nodes of `out` stand in a list outside the slots. `due p` is
-- the tick at which `p` has to run.
pub record IsWheel (t m : ℕ) (due : ℕ → ℕ) (out : List ℕ) (c : Core) : Type 0 where
  pub clock : c.timer_jiffies ≡ to_u32 t
  pub held : (l i p : ℕ) → 0 < count p (c.vec l i) → Held t m due c.node l i p
  pub linked : (p : ℕ) → total p c.vec + count p out ≡ (if (c.node p).linked then 1 else 0)
  pub cored : (p : ℕ) → (c.node p).linked ≡ true → (c.node p).core ≡ true

-- What no part of the core but a node's own functions changes.
pub record Kept (c c' : Core) : Type 0 where
  pub queued : c'.queued ≡ c.queued
  pub clock : c'.timer_jiffies ≡ c.timer_jiffies
  pub expires : (p : ℕ) → (c'.node p).expires ≡ (c.node p).expires
  pub callback : (p : ℕ) → (c'.node p).callback ≡ (c.node p).callback
  pub arg : (p : ℕ) → (c'.node p).arg ≡ (c.node p).arg

pub Kept-refl : (c : Core) → Kept c c
Kept-refl c = record {
  queued = refl;
  clock = refl;
  expires = λ p. refl;
  callback = λ p. refl;
  arg = λ p. refl;
}

pub Kept-trans : {a b c : Core} → Kept a b → Kept b c → Kept a c
Kept-trans h k = record {
  queued = k.queued ∙ h.queued;
  clock = k.clock ∙ h.clock;
  expires = λ p. k.expires p ∙ h.expires p;
  callback = λ p. k.callback p ∙ h.callback p;
  arg = λ p. k.arg p ∙ h.arg p;
}

pub write_slots :
    {Q : ℕ → ℕ → ℕ → Type 0} (vec : ℕ → ℕ → List ℕ) (l i : ℕ) (new : List ℕ)
    → ((m j p : ℕ) → 0 < count p (vec m j) → Q m j p)
    → ((p : ℕ) → 0 < count p new → Q l i p)
    → (m j p : ℕ) → 0 < count p (write_vec vec l i new m j)
    → Q m j p
write_slots {Q} vec l i new old fresh m j p h = elim (Bool-cases (l == m && i == j)) [
  | inr e ↦ old m j p (rw e at h)
  | inl e ↦
      let em : l ≡ m = ground arith in
      let ej : i ≡ j = ground arith in
      subst (λ a. Q a j p) em (subst (λ b. Q l b p) ej (fresh p (rw e at h)))
]

-- itimer_internal_add puts a node that stands in no list into the slot of its due tick.
pub internal_add-IsWheel :
    (t m : ℕ) (due : ℕ → ℕ) (out : List ℕ) (p : ℕ) {c : Core}
    → IsWheel t m due out c
    → (c.node p).linked ≡ false
    → IsPlace t (due p) (slot_of c.timer_jiffies (c.node p).expires)
    → (0 < (slot_of c.timer_jiffies (c.node p).expires).0 → (c.node p).expires ≡ to_u32 (due p))
    → let c' = itimer_internal_add p c in
      IsWheel t m due out c' × ((q : ℕ) → total q c'.vec ≡ total q c.vec + bit q p) × Kept c c'
unfolding itimer_internal_add
internal_add-IsWheel t m due out p {c} w free place timed = (
  record {
    clock = w.clock;
    held =
        write_slots c.vec l i (c.vec l i ++ p ∷ [])
          (λ k j q h.
            let old = w.held k j q h in
            record { slot = old.slot; past = old.past; timed = λ r. ground (arith, old.timed r) })
          (λ q h. elim (Bool-cases (q == p)) [
            | inl e ↦
                let eq : p ≡ q = ground arith in
                let here : Held t m due (itimer_internal_add p c).node l i p = record {
                  slot = place.slot;
                  past = λ _ _. place.past;
                  timed = λ r. ground (arith, timed r);
                } in
                subst (λ a. Held t m due (itimer_internal_add p c).node l i a) eq here
            | inr e ↦
                let old = w.held l i q (ground (arith, count-append q (c.vec l i) (p ∷ []))) in
                record {
                  slot = old.slot;
                  past = old.past;
                  timed = λ r. ground (arith, old.timed r);
                }
          ]);
    linked = λ q. ground (arith, w.linked q, w.linked p, more q, free);
    cored = λ q e. ground (arith, w.cored q);
  },
  more,
  record {
    queued = refl;
    clock = refl;
    expires = λ q. ground arith;
    callback = λ q. ground arith;
    arg = λ q. ground arith;
  },
)
  where
    l : ℕ
    l = (slot_of c.timer_jiffies (c.node p).expires).0

    i : ℕ
    i = (slot_of c.timer_jiffies (c.node p).expires).1

    more : (q : ℕ) → total q (write_vec c.vec l i (c.vec l i ++ p ∷ [])) ≡ total q c.vec + bit q p
    more q = omega (
      arith,
      total-write q c.vec l i (c.vec l i ++ p ∷ []) place.vector place.index,
      count-append q (c.vec l i) (p ∷ []),
    )

-- itimer_core_init gives an empty wheel at the tick that it is told.
pub core_init-IsWheel :
    (t : ℕ) (due : ℕ → ℕ) (node : ℕ → Node)
    → ((p : ℕ) → (node p).linked ≡ false)
    → IsWheel t 1 due [] (itimer_core_init node (to_u32 t))
      × ((p : ℕ) → total p (itimer_core_init node (to_u32 t)).vec ≡ 0)
unfolding itimer_core_init
core_init-IsWheel t due node free = (
  record {
    clock = refl;
    held = λ l i p h. absurd (omega arith);
    linked = λ p. ground (arith, free p, total-empty p);
    cored = λ p e. absurd (ground (arith, free p));
  },
  total-empty,
)
