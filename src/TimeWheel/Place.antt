-- ===== src/TimeWheel/Place.antt =====
-- Where itimer_internal_add puts a node, on a clock that does not wrap: `t` is the tick that the
-- core stands at and `x` the tick at which the node is due, both kept modulo 2^32 by the code.
use algorithm.Common.{
  to_u32, ℕ, zero, suc, ◌+◌, ◌-◌, ◌*◌, ◌/◌, ◌%◌, ◌^◌, ◌<◌, ◌≤◌, ◌≡◌, true, false, arith, ltb, ◌≢◌,
  leb→le, refl, sym, subst, Bool-cases, inl, inr, if◌then◌else◌,
}
use algorithm.TimeWheel.{sub_u32, is_negative, slot_of}

-- The tick at which a node with `expires` runs: at once if that lies behind.
abbrev pub deadline : ℕ → ℕ → ℕ
deadline t expires = let idx = sub_u32 expires (to_u32 t) in if is_negative idx then t else t + idx

-- A node due at `x` may stand in slot `i` of vector `l` at tick `t`: a vector holds the nodes of
-- its own range, under the bits of `x` that index it, until the tick at which the slot comes up.
abbrev pub InSlot : ℕ → ℕ → ℕ → ℕ → Type 0
InSlot t zero i x = (i ≡ x % 2 ^ 8) × (t ≤ x) × (x < t + 2 ^ 8)
InSlot t (suc zero) i x = (i ≡ x / 2 ^ 8 % 2 ^ 6) × (t ≤ x / 2 ^ 8 * 2 ^ 8) × (x < t + 2 ^ 14)
InSlot t (suc (suc zero)) i x =
    (i ≡ x / 2 ^ 14 % 2 ^ 6) × (t ≤ x / 2 ^ 14 * 2 ^ 14) × (x < t + 2 ^ 20)
InSlot t (suc (suc (suc zero))) i x =
    (i ≡ x / 2 ^ 20 % 2 ^ 6) × (t ≤ x / 2 ^ 20 * 2 ^ 20) × (x < t + 2 ^ 26)
InSlot t (suc (suc (suc (suc zero)))) i x =
    (i ≡ x / 2 ^ 26 % 2 ^ 6) × (t ≤ x / 2 ^ 26 * 2 ^ 26) × (x < t + 2 ^ 31)
InSlot t _ i x = ⊥

-- The slot of the node comes up after `t`, not at `t`.
abbrev pub IsPast : ℕ → ℕ → ℕ → Type 0
IsPast t zero x = Unit {0}
IsPast t (suc zero) x = t < x / 2 ^ 8 * 2 ^ 8
IsPast t (suc (suc zero)) x = t < x / 2 ^ 14 * 2 ^ 14
IsPast t (suc (suc (suc zero))) x = t < x / 2 ^ 20 * 2 ^ 20
IsPast t (suc (suc (suc (suc zero)))) x = t < x / 2 ^ 26 * 2 ^ 26
IsPast t _ x = ⊥

-- What is known of the slot `s` that a node due at `x` goes into at `t`.
pub record IsPlace (t x : ℕ) (s : ℕ × ℕ) : Type 0 where
  pub slot : InSlot t s.0 s.1 x
  pub past : IsPast t s.0 x
  pub vector : s.0 < 5
  pub index : s.1 < 2 ^ 8

idx_lem : (t x : ℕ) → t ≤ x → x < t + 2 ^ 31 → sub_u32 (to_u32 x) (to_u32 t) ≡ x - t
idx_lem t x h k = omega arith

-- A node due within 2^31 ticks goes into the slot of its range.
pub slot_of-IsPlace :
    (t x : ℕ) → t ≤ x → x < t + 2 ^ 31 → IsPlace t x (slot_of (to_u32 t) (to_u32 x))
unfolding slot_of
slot_of-IsPlace t x h k = rw (idx_lem t x h k) (elim (Bool-cases (ltb (x - t) (2 ^ 8))) [
  | inl a ↦
      rw a (record { slot = ground arith; past = tt; vector = omega arith; index = omega arith })
  | inr a ↦ elim (Bool-cases (ltb (x - t) (2 ^ 14))) [
    | inl b ↦
        rw (a, b)
          (record {
            slot = ground arith;
            past = ground arith;
            vector = omega arith;
            index = omega arith;
          })
    | inr b ↦ elim (Bool-cases (ltb (x - t) (2 ^ 20))) [
      | inl c ↦
          rw (a, b, c)
            (record {
              slot = ground arith;
              past = ground arith;
              vector = omega arith;
              index = omega arith;
            })
      | inr c ↦ elim (Bool-cases (ltb (x - t) (2 ^ 26))) [
        | inl d ↦
            rw (a, b, c, d)
              (record {
                slot = ground arith;
                past = ground arith;
                vector = omega arith;
                index = omega arith;
              })
        | inr d ↦
            let e : is_negative (x - t) ≡ false = ground arith in
            rw (a, b, c, d, e)
              (record {
                slot = ground arith;
                past = ground arith;
                vector = omega arith;
                index = omega arith;
              })
      ]
    ]
  ]
])

-- A node whose time lies behind goes into the slot that comes up next.
pub slot_of_late :
    (t e : ℕ) → is_negative (sub_u32 e (to_u32 t)) ≡ true → IsPlace t t (slot_of (to_u32 t) e)
unfolding slot_of
slot_of_late t e h =
    let big = leb→le (2 ^ 31) (sub_u32 e (to_u32 t)) h in
    let a : ltb (sub_u32 e (to_u32 t)) (2 ^ 8) ≡ false = ground arith in
    let b : ltb (sub_u32 e (to_u32 t)) (2 ^ 14) ≡ false = ground arith in
    let c : ltb (sub_u32 e (to_u32 t)) (2 ^ 20) ≡ false = ground arith in
    let d : ltb (sub_u32 e (to_u32 t)) (2 ^ 26) ≡ false = ground arith in
    rw (a, b, c, d, h)
      (record { slot = omega arith; past = tt; vector = omega arith; index = omega arith })

late_vector : (t e : ℕ) → is_negative (sub_u32 e (to_u32 t)) ≡ true → (slot_of (to_u32 t) e).0 ≡ 0
unfolding slot_of
late_vector t e h = ground (arith, leb→le (2 ^ 31) (sub_u32 e (to_u32 t)) h)

-- Any node goes into a slot that fits its deadline, and into a higher vector only under the time
-- that it carries.
pub add-IsPlace :
    (t e : ℕ)
    → e < 2 ^ 32
    → IsPlace t (deadline t e) (slot_of (to_u32 t) e)
      × (0 < (slot_of (to_u32 t) e).0 → e ≡ to_u32 (deadline t e))
add-IsPlace t e h = elim (Bool-cases (is_negative (sub_u32 e (to_u32 t)))) [
  | inl late ↦ rw late (slot_of_late t e late, λ up. absurd (omega (arith, late_vector t e late)))
  | inr ahead ↦
      let x : ℕ = t + sub_u32 e (to_u32 t) in
      let same : to_u32 x ≡ e = omega arith in
      rw ahead (
        subst (λ y. IsPlace t x (slot_of (to_u32 t) y)) same
            (slot_of-IsPlace t x (omega arith) (ground arith)),
        λ up. sym same,
      )
]

-- `ITIMER_INDEX` of the vector `l` at tick `t`.
abbrev pub index_at : ℕ → ℕ → ℕ
index_at t l = to_u32 t / 2 ^ (8 + (l - 1) * 6) % 2 ^ 6

-- A node in another slot of a cascaded vector comes up later.
pub other_slot-IsPast : (l t i x : ℕ) → InSlot t l i x → 0 < l → i ≢ index_at t l → IsPast t l x
other_slot-IsPast zero t i x h p ne = tt
other_slot-IsPast (suc zero) t i x h p ne = omega arith
other_slot-IsPast (suc (suc zero)) t i x h p ne = omega arith
other_slot-IsPast (suc (suc (suc zero))) t i x h p ne = omega arith
other_slot-IsPast (suc (suc (suc (suc zero)))) t i x h p ne = omega arith
other_slot-IsPast (suc (suc (suc (suc (suc l))))) t i x h p ne = h

abbrev pub Aligned : ℕ → ℕ → Type 0
Aligned t l = t % 2 ^ (8 + (l - 1) * 6) ≡ 0

-- No slot of a vector comes up at a tick that its slots do not start at, nor of a higher one.
pub unaligned-IsPast :
    (l m t i x : ℕ) → InSlot t l i x → 0 < m → m ≤ l → ¬ Aligned t m → IsPast t l x
unaligned-IsPast zero m t i x h p q no_start = tt
unaligned-IsPast (suc zero) zero t i x h p q no_start = absurd (omega arith)
unaligned-IsPast (suc zero) (suc zero) t i x h p q no_start = omega arith
unaligned-IsPast (suc zero) (suc (suc m)) t i x h p q no_start = absurd (omega arith)
unaligned-IsPast (suc (suc zero)) zero t i x h p q no_start = absurd (omega arith)
unaligned-IsPast (suc (suc zero)) (suc zero) t i x h p q no_start = omega arith
unaligned-IsPast (suc (suc zero)) (suc (suc zero)) t i x h p q no_start = omega arith
unaligned-IsPast (suc (suc zero)) (suc (suc (suc m))) t i x h p q no_start = absurd (omega arith)
unaligned-IsPast (suc (suc (suc zero))) zero t i x h p q no_start = absurd (omega arith)
unaligned-IsPast (suc (suc (suc zero))) (suc zero) t i x h p q no_start = omega arith
unaligned-IsPast (suc (suc (suc zero))) (suc (suc zero)) t i x h p q no_start = omega arith
unaligned-IsPast (suc (suc (suc zero))) (suc (suc (suc zero))) t i x h p q no_start = omega arith
unaligned-IsPast (suc (suc (suc zero))) (suc (suc (suc (suc m)))) t i x h p q no_start =
    absurd (omega arith)
unaligned-IsPast (suc (suc (suc (suc zero)))) zero t i x h p q no_start = absurd (omega arith)
unaligned-IsPast (suc (suc (suc (suc zero)))) (suc zero) t i x h p q no_start = omega arith
unaligned-IsPast (suc (suc (suc (suc zero)))) (suc (suc zero)) t i x h p q no_start = omega arith
unaligned-IsPast (suc (suc (suc (suc zero)))) (suc (suc (suc zero))) t i x h p q no_start =
    omega arith
unaligned-IsPast (suc (suc (suc (suc zero)))) (suc (suc (suc (suc zero)))) t i x h p q no_start =
    omega arith
unaligned-IsPast (suc (suc (suc (suc zero)))) (suc (suc (suc (suc (suc m))))) t i x h p q no_start =
    absurd (omega arith)
unaligned-IsPast (suc (suc (suc (suc (suc l))))) m t i x h p q no_start = h

pub InSlot-bounds :
    (l t i x : ℕ) → InSlot t l i x → (l < 5) × (i < 256) × (t ≤ x) × (x < t + 2 ^ 31)
InSlot-bounds zero t i x h = omega arith
InSlot-bounds (suc zero) t i x h = omega arith
InSlot-bounds (suc (suc zero)) t i x h = omega arith
InSlot-bounds (suc (suc (suc zero))) t i x h = omega arith
InSlot-bounds (suc (suc (suc (suc zero)))) t i x h = omega arith
InSlot-bounds (suc (suc (suc (suc (suc l))))) t i x h = absurd h

-- Vector 0 is never cascaded.
pub IsPast-InSlot : (l t i x : ℕ) → InSlot t l i x → (0 < l → l < 5 → IsPast t l x) → IsPast t l x
IsPast-InSlot zero t i x h f = tt
IsPast-InSlot (suc l) t i x h f = f (omega arith) (InSlot-bounds (suc l) t i x h).0

-- The next tick: a node that stays is due then or later.
pub InSlot-suc :
    (l t i x : ℕ) → InSlot t l i x → IsPast t l x → (l ≡ 0 → i ≢ t % 2 ^ 8) → InSlot (t + 1) l i x
InSlot-suc zero t i x h p ne = let ne' = ne refl in omega arith
InSlot-suc (suc zero) t i x h p ne = omega arith
InSlot-suc (suc (suc zero)) t i x h p ne = omega arith
InSlot-suc (suc (suc (suc zero))) t i x h p ne = omega arith
InSlot-suc (suc (suc (suc (suc zero)))) t i x h p ne = omega arith
InSlot-suc (suc (suc (suc (suc (suc l))))) t i x h p ne = h

pub slot_due : (t x : ℕ) → InSlot t 0 (to_u32 t % 2 ^ 8) x → x ≡ t
slot_due t x h = omega arith
