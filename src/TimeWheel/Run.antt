-- ===== src/TimeWheel/Run.antt =====
-- itimer_core_run: every node runs at the tick that it is due at.
use algorithm.Common.{
  to_u32, ℕ, zero, suc, ◌+◌, ◌^◌, ◌<◌, ◌≤◌, ◌≡◌, refl, arith, List, [], ◌∷◌, ◌++◌, count,
  count-append, IsAscending, IsAscending-append, IsAscending-const, Bool-cases, inl, inr, ap,
  Option, some, ◌∙◌, sym, subst,
}
use algorithm.TimeWheel.{Node, Core, sub_u32, is_negative, update_loop, itimer_core_run}
use algorithm.TimeWheel.Place.{InSlot-bounds}
use algorithm.TimeWheel.Total.{total, total_slot}
use algorithm.TimeWheel.Invariant.{IsWheel}
use algorithm.TimeWheel.Tick.{SameCalls, run_cb, run_all, run_all-ext, Ticked, tick-Ticked}

-- No node of the slots is overdue.
pub pending_due :
    (t m : ℕ) (due : ℕ → ℕ) {out : List ℕ} {c : Core} (p : ℕ)
    → IsWheel t m due out c
    → 0 < total p c.vec
    → t ≤ due p
pending_due t m due {out} {c} p w h =
    let (l, i, q) = total_slot p c.vec h in (InSlot-bounds l t i (due p) (w.held l i p q).slot).2

module _ {E : Type 0} (act : ℕ → ℕ → E → E) where
  run_all-append :
      (f : ℕ → Node) (ps qs : List ℕ) (e : E)
      → run_all act f (ps ++ qs) e ≡ run_all act f qs (run_all act f ps e)
  run_all-append f [] qs e = refl
  run_all-append f (p ∷ ps) qs e = run_all-append f ps qs (run_cb act (f p) e)

  -- What a run from tick `t` to tick `u` makes of a wheel: the list of the nodes that it ran.
  pub record Ran (u : ℕ) (due : ℕ → ℕ) (e : E) (c : Core) (r : Option (E × Core)) : Type 0 where
    pub ran : List ℕ
    pub rest : Core
    pub result : r ≡ some (run_all act c.node ran e, rest)
    pub wheel : IsWheel (u + 1) 1 due [] rest
    pub same : (p : ℕ) → count p ran + total p rest.vec ≡ total p c.vec
    pub reached : (p : ℕ) → 0 < count p ran → due p ≤ u
    pub pending : (p : ℕ) → 0 < total p rest.vec → u < due p
    pub ascending : IsAscending due ran
    pub calls : SameCalls rest.node c.node

  module _ (call : ℕ → ℕ → E × Core → E × Core)
      (quiet : (fn arg : ℕ) (e : E) (c : Core) → call fn arg (e, c) ≡ (act fn arg e, c)) where
    -- The ticks after the first, put behind it.
    then-Ran :
        (t u : ℕ) (due : ℕ → ℕ) (e : E) {c : Core} {r s : Option (E × Core)}
        → t ≤ u
        → (k : Ticked act call quiet t due e c s) → Ran u due (run_all act c.node k.ran e) k.rest r
        → Ran u due e c r
    then-Ran t u due e {c} h k g = record {
      ran = k.ran ++ g.ran;
      rest = g.rest;
      result =
          g.result
          ∙ ap (λ x. some (x, g.rest))
              (run_all-ext act k.rest.node c.node g.ran (run_all act c.node k.ran e) k.calls
                ∙ sym (run_all-append c.node k.ran g.ran e));
      wheel = g.wheel;
      same = λ p. omega (arith, g.same p, k.same p, count-append p k.ran g.ran);
      reached = λ p q. ground (arith, count-append p k.ran g.ran, k.now p, g.reached p);
      pending = g.pending;
      ascending =
          IsAscending-append due k.ran g.ran t (IsAscending-const due k.ran t k.now) g.ascending
            (λ p q. omega (arith, k.now p q))
            (λ p q.
              omega (arith, pending_due (t + 1) 1 due p k.wheel (omega (arith, g.same p, q))));
      calls = λ p. ((g.calls p).0 ∙ (k.calls p).0, (g.calls p).1 ∙ (k.calls p).1);
    }

    -- A later run, put behind an earlier one.
    pub Ran-then :
        (t u : ℕ) (due : ℕ → ℕ) (e : E) {c : Core} {r s : Option (E × Core)}
        → t ≤ u
        → (k : Ran t due e c s) → Ran u due (run_all act c.node k.ran e) k.rest r
        → Ran u due e c r
    Ran-then t u due e {c} h k g = record {
      ran = k.ran ++ g.ran;
      rest = g.rest;
      result =
          g.result
          ∙ ap (λ x. some (x, g.rest))
              (run_all-ext act k.rest.node c.node g.ran (run_all act c.node k.ran e) k.calls
                ∙ sym (run_all-append c.node k.ran g.ran e));
      wheel = g.wheel;
      same = λ p. omega (arith, g.same p, k.same p, count-append p k.ran g.ran);
      reached = λ p q. ground (arith, count-append p k.ran g.ran, k.reached p, g.reached p);
      pending = g.pending;
      ascending =
          IsAscending-append due k.ran g.ran t k.ascending g.ascending (λ p q. k.reached p q)
            (λ p q. omega (arith, k.pending p (omega (arith, g.same p, q))));
      calls = λ p. ((g.calls p).0 ∙ (k.calls p).0, (g.calls p).1 ∙ (k.calls p).1);
    }

    update_loop-Ran :
        (n t u : ℕ) (due : ℕ → ℕ) (e : E) {c : Core}
        → IsWheel t 1 due [] c
        → t ≤ u + 1
        → u < t + 2 ^ 31
        → u + 1 < n + t
        → Ran u due e c (update_loop call n (to_u32 u) (e, c))
    unfolding update_loop
    update_loop-Ran zero t u due e w h k q = absurd (omega arith)
    update_loop-Ran (suc n) t u due e {c} w h k q =
        elim (Bool-cases (is_negative (sub_u32 (to_u32 u) c.timer_jiffies))) [
          | inl over ↦
              let at_end : u + 1 ≡ t = ground (arith, w.clock) in
              rw over (record {
                ran = [];
                rest = c;
                result = refl;
                wheel = subst (λ a. IsWheel a 1 due [] c) (sym at_end) w;
                same = λ p. omega arith;
                reached = λ p q. absurd (omega arith);
                pending = λ p q. omega (arith, pending_due t 1 due p w q);
                ascending = tt;
                calls = λ p. (refl, refl);
              })
          | inr more ↦
              let at_tick : t ≤ u = ground (arith, w.clock) in
              let one = tick-Ticked act call quiet t due e w in
              rw (more, one.result)
                (then-Ran t u due e at_tick one (
                  update_loop-Ran n (t + 1) u due (run_all act c.node one.ran e) one.wheel
                    (omega arith) (omega arith) (omega arith)))
        ]

    -- Where the callbacks leave the wheel as it is, itimer_core_run ends, and runs exactly the
    -- nodes that are due at or before tick `u`, each as often as it stood in the wheel, in the
    -- order of their due ticks; the others stay in the wheel. `u` lies less than 2^31 ticks ahead
    -- of `t`, or is the tick before it.
    pub core_run-Ran :
        (t u : ℕ) (due : ℕ → ℕ) (e : E) {c : Core}
        → IsWheel t 1 due [] c
        → t ≤ u + 1
        → u < t + 2 ^ 31
        → Ran u due e c (itimer_core_run call (to_u32 u) (e, c))
    unfolding itimer_core_run
    core_run-Ran t u due e {c} w h k =
        update_loop-Ran (sub_u32 (to_u32 u) c.timer_jiffies + 2) t u due e w h k
          (omega (arith, w.clock))
