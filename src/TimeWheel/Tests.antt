-- ===== src/TimeWheel/Tests.antt =====
-- Runs of the timing wheel, and the theorems at concrete inputs.
use algorithm.Common.{
  to_u32, ℕ, ◌+◌, ◌-◌, ◌*◌, ◌^◌, ◌≡◌, refl, false, arith, List, [], ◌∷◌, ◌++◌, if◌then◌else◌, count,
  Option, none, some, ◌==◌,
}
use algorithm.TimeWheel.{
  Node, Core, state_ok, itimer_core_init, itimer_node_add, itimer_node_del, itimer_node_mod,
  itimer_core_run, not_pending, deleted, slot_of, ilist_del_init, remove, cascades, fire,
}
use algorithm.TimeWheel.Place.{IsPlace, slot_of-IsPlace}
use algorithm.TimeWheel.Total.{total}
use algorithm.TimeWheel.Invariant.{IsWheel, core_init-IsWheel}
use algorithm.TimeWheel.Cascade.{Moved, cascades-Moved}
use algorithm.TimeWheel.Run.{Ran, core_run-Ran}
use algorithm.TimeWheel.Nodes.{
  Scheduled, Deleted, reset, node_add-Scheduled, node_del-Deleted, node_mod-Scheduled,
}

abbrev blank : Node
blank = record {
  linked = false;
  expires = 0;
  state = state_ok;
  arg = 0;
  callback = none;
  core = false;
}

-- Callbacks that note their argument; the core stands one tick before the clock wraps.
abbrev log : ℕ → ℕ → List ℕ → List ℕ
log fn arg e = e ++ arg ∷ []

abbrev call : ℕ → ℕ → List ℕ × Core → List ℕ × Core
call fn arg (e, c) = (log fn arg e, c)

abbrev fresh : Core
fresh = itimer_core_init (λ p. record blank { callback = some 7; arg = p * 10 }) (2 ^ 32 - 2)

-- Node 1 is due in 3 ticks, node 2 in 300, node 3 at once.
abbrev one : Core
one = itimer_node_add 1 1 fresh

abbrev two : Core
two = itimer_node_add 2 298 one

abbrev three : Core
three = itimer_node_add 3 (2 ^ 32 - 10) two

result : Option (List ℕ × Core) → List ℕ
result none = []
result (some s) = s.0

runs : result (itimer_core_run call 298 ([], three)) ≡ 30 ∷ 10 ∷ 20 ∷ []
unfolding result itimer_core_run itimer_node_add itimer_core_init fire ilist_del_init remove
runs = refl

abbrev due : ℕ → ℕ
due p = 0

fresh-IsWheel : IsWheel (2 ^ 32 - 2) 1 due [] fresh
fresh-IsWheel =
    (core_init-IsWheel (2 ^ 32 - 2) due (λ p. record blank { callback = some 7; arg = p * 10 })
      (λ p. refl)).0

fresh_lem : IsWheel (2 ^ 32 - 2) 1 due [] fresh × ((p : ℕ) → total p fresh.vec ≡ 0)
unfolding itimer_core_init
fresh_lem =
    core_init-IsWheel (2 ^ 32 - 2) due (λ p. record blank { callback = some 7; arg = p * 10 })
      (λ p. refl)

-- Node 1 enters the wheel before the clock wraps, for a tick after it.
node_add-Scheduled_example : Scheduled (2 ^ 32 - 2) 1 due 1 1 fresh one
unfolding itimer_core_init
node_add-Scheduled_example =
    node_add-Scheduled (2 ^ 32 - 2) 1 due 1 1 fresh-IsWheel refl (omega arith)

one-IsWheel : IsWheel (2 ^ 32 - 2) 1 (reset due 1 (2 ^ 32 + 1)) [] one
unfolding itimer_node_add itimer_core_init
one-IsWheel = node_add-Scheduled_example.wheel

node_del-Deleted_example :
    Deleted (2 ^ 32 - 2) 1 (reset due 1 (2 ^ 32 + 1)) 1 one (itimer_node_del 1 one)
unfolding itimer_node_add itimer_core_init
node_del-Deleted_example =
    node_del-Deleted (2 ^ 32 - 2) 1 (reset due 1 (2 ^ 32 + 1)) 1 one-IsWheel refl

one_modified :
    let (ret, c) = itimer_node_mod 1 298 one in
    Scheduled (2 ^ 32 - 2) 1 (reset due 1 (2 ^ 32 + 1)) 1 298 one c
    × (ret ≡ (if total 1 one.vec + count 1 one.queued == 0 then not_pending else deleted))
unfolding itimer_node_add itimer_core_init
one_modified =
    node_mod-Scheduled (2 ^ 32 - 2) 1 (reset due 1 (2 ^ 32 + 1)) 1 298 one-IsWheel refl
      (omega arith)

cascades-Moved_example : Moved (2 ^ 32 - 2) 5 (reset due 1 (2 ^ 32 + 1)) [] one (cascades one)
cascades-Moved_example = cascades-Moved (2 ^ 32 - 2) (reset due 1 (2 ^ 32 + 1)) one-IsWheel

-- From before the wrap to tick 298 after it.
core_run-Ran_example :
    Ran log (2 ^ 32 + 298) (reset due 1 (2 ^ 32 + 1)) [] one (itimer_core_run call 298 ([], one))
core_run-Ran_example =
    core_run-Ran log call (λ fn arg e c. refl) (2 ^ 32 - 2) (2 ^ 32 + 298)
      (reset due 1 (2 ^ 32 + 1)) [] one-IsWheel (omega arith) (omega arith)

slot_of-IsPlace_example : IsPlace 5 300 (slot_of (to_u32 5) (to_u32 300))
slot_of-IsPlace_example = slot_of-IsPlace 5 300 (omega arith) (omega arith)
