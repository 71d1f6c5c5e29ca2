-- ===== src/SelectLoop/Consistent/Timely.antt =====
-- The timers of framework/zebra/cl_thread.c: in the list of an interval they stand in the order in
-- which they expire, so that its head expires first.
use algorithm.Common.{
  ℕ, ◌+◌, ◌<◌, ◌≤◌, ◌≡◌, ◌⊎◌, inl, inr, List, [], ◌∷◌, arith, ◌==◌, count, Bool-cases, sym, ap,
  subst, IsAscending, if_true, if_false, ◌^◌,
}
use algorithm.EventLoop.{remove, head}
use algorithm.EventLoop.Dispatch.Filed.{count-remove}
use algorithm.SelectLoop.{Master}

-- Up to the time `clock`, no timer of the interval `i` has been set for later than `clock + i`, and
-- none for a time from 2^31 on.
pub record IsTimely (clock : ℕ) (m : Master) : Type 0 where
  pub ascending : (i : ℕ) → IsAscending (λ t. (m.thread t).u) (m.timers i)
  pub bounded : (t i : ℕ) → 0 < count t (m.timers i) → (m.thread t).u ≤ clock + i
  pub small : (t i : ℕ) → 0 < count t (m.timers i) → (m.thread t).u < 2 ^ 31

IsAscending-remove :
    (k : ℕ → ℕ) (t : ℕ) (xs : List ℕ) → IsAscending k xs → IsAscending k (remove t xs)
IsAscending-remove k t [] a = tt
IsAscending-remove k t (x ∷ xs) a = elim (Bool-cases (x == t)) [
  | inl e ↦
      subst (IsAscending k) (sym (if_true (remove t xs) (x ∷ remove t xs) e))
        (IsAscending-remove k t xs a.1)
  | inr e ↦
      subst (IsAscending k) (sym (if_false (remove t xs) (x ∷ remove t xs) e))
        (λ q h. ground (arith, a.0 q, count-remove q t xs), IsAscending-remove k t xs a.1)
]

IsAscending-ext :
    (k l : ℕ → ℕ) (xs : List ℕ)
    → ((x : ℕ) → 0 < count x xs → l x ≡ k x)
    → IsAscending k xs
    → IsAscending l xs
IsAscending-ext k l [] h a = tt
IsAscending-ext k l (x ∷ xs) h a =
    (λ q c. ground (arith, h q, h x, a.0 q), IsAscending-ext k l xs (λ q c. h q (omega arith)) a.1)

-- A master whose timer lists are those of `m` less a thread, with the same times.
pub less-IsTimely :
    (clock t : ℕ) (m r : Master)
    → (r.timers ≡ m.timers) ⊎ (r.timers ≡ (λ i. remove t (m.timers i)))
    → ((x i : ℕ) → 0 < count x (r.timers i) → (r.thread x).u ≡ (m.thread x).u)
    → IsTimely clock m
    → IsTimely clock r
less-IsTimely clock t m r (inl e) same h = record {
  ascending = λ i.
      IsAscending-ext (λ x. (m.thread x).u) (λ x. (r.thread x).u) (r.timers i) (λ x c. same x i c)
        (subst (λ (g : ℕ → List ℕ). IsAscending (λ x. (m.thread x).u) (g i)) (sym e)
          (h.ascending i));
  bounded =
      λ x i c. ground (arith, same x i c, h.bounded x i, ap (λ (g : ℕ → List ℕ). count x (g i)) e);
  small =
      λ x i c. ground (arith, same x i c, h.small x i, ap (λ (g : ℕ → List ℕ). count x (g i)) e);
}
less-IsTimely clock t m r (inr e) same h = record {
  ascending = λ i.
      IsAscending-ext (λ x. (m.thread x).u) (λ x. (r.thread x).u) (r.timers i) (λ x c. same x i c)
        (subst (λ (g : ℕ → List ℕ). IsAscending (λ x. (m.thread x).u) (g i)) (sym e)
          (IsAscending-remove (λ x. (m.thread x).u) t (m.timers i) (h.ascending i)));
  bounded = λ x i c. ground (
    arith,
    same x i c,
    h.bounded x i,
    ap (λ (g : ℕ → List ℕ). count x (g i)) e,
    count-remove x t (m.timers i),
  );
  small = λ x i c. ground (
    arith,
    same x i c,
    h.small x i,
    ap (λ (g : ℕ → List ℕ). count x (g i)) e,
    count-remove x t (m.timers i),
  );
}

pub head_first :
    (k : ℕ → ℕ) (xs : List ℕ) (x : ℕ) → IsAscending k xs → 0 < count x xs → k (head xs) ≤ k x
head_first k [] x a h = absurd (omega arith)
head_first k (y ∷ ys) x a h = elim (Bool-cases (x == y)) [
  | inl e ↦ ground arith
  | inr e ↦ a.0 x (ground arith)
]
