-- ===== src/SelectLoop/Consistent/Due.antt =====
-- The loops over the timers in cl_thread_fetch of framework/zebra/cl_thread.c.
use algorithm.Common.{
  ℕ, ◌<◌, ◌≡◌, inl, inr, true, false, List, [], ◌∷◌, arith, if◌then◌else◌, ◌==◌, count, Bool-cases,
  refl, sym, ◌∙◌, if_true, if_false, subst,
}
use algorithm.EventLoop.{head}
use algorithm.SelectLoop.{Master, u32_is_bigger, due}

-- What the loops over the timers find.
pub record Found (now : ℕ) (is : List ℕ) (m : Master) (t : ℕ) : Type 0 where
  pub node : 0 < t → (i : ℕ) × (head (m.timers i) ≡ t) × (u32_is_bigger now (m.thread t).u ≡ true)
  pub none_due :
      t ≡ 0
      → (i : ℕ) → 0 < count i is
      → 0 < head (m.timers i)
      → u32_is_bigger now (m.thread (head (m.timers i))).u ≡ false

none_here :
    (now i : ℕ) (is : List ℕ) (m : Master) (t : ℕ)
    → Found now is m t
    → (0 < head (m.timers i) → u32_is_bigger now (m.thread (head (m.timers i))).u ≡ false)
    → Found now (i ∷ is) m t
none_here now i is m t f h = record {
  node = f.node;
  none_due = λ e j l p. elim (Bool-cases (j == i)) [
    | inl y ↦
        subst
          (λ x. 0 < head (m.timers x) → u32_is_bigger now (m.thread (head (m.timers x))).u ≡ false)
          (ground arith) h p
    | inr n ↦ f.none_due e j (ground arith) p
  ];
}

pub due-Found : (now : ℕ) (is : List ℕ) (m : Master) → Found now is m (due now is m)
unfolding due
due-Found now [] m = record {
  node = λ p. absurd (omega arith);
  none_due = λ e i h. absurd (omega arith);
}
due-Found now (i ∷ is) m =
    let rest : Found now is m (due now is m) = due-Found now is m in
    let step : ℕ =
      if u32_is_bigger now (m.thread (head (m.timers i))).u
      then head (m.timers i)
      else due now is m in
    elim (Bool-cases (head (m.timers i) == 0)) [
      | inl e ↦
          subst (Found now (i ∷ is) m) (sym (if_true (due now is m) step e))
            (none_here now i is m (due now is m) rest (λ p. absurd (ground arith)))
      | inr e ↦ elim (Bool-cases (u32_is_bigger now (m.thread (head (m.timers i))).u)) [
        | inl b ↦
            subst (Found now (i ∷ is) m) (sym (if_false (due now is m) step e ∙ if_true _ _ b))
              (record { node = λ p. (i, refl, b); none_due = λ z. absurd (ground arith) })
        | inr b ↦
            subst (Found now (i ∷ is) m) (sym (if_false (due now is m) step e ∙ if_false _ _ b))
              (none_here now i is m (due now is m) rest (λ p. b))
      ]
    ]
