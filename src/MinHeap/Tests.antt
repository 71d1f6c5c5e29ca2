-- ===== src/MinHeap/Tests.antt =====
-- Runs of the timer heap, and the theorems at concrete inputs.
use algorithm.Common.{
  plus, minus, ℕ, ◌<◌, ◌≤◌, ◌≡◌, ◌⊎◌, refl, true, false, arith, List, [], ◌∷◌, ◌++◌, Option, none,
  some,
}
use algorithm.MinHeap.{
  Memory, TimeHeap, key, time_heap_init, time_heap_add_timer, time_heap_del_timer, pop_timer,
  time_heap_top, time_heap_tick, time_heap_time_wait, fire,
}
use algorithm.MinHeap.Invariant.{IsValid, holds, init-IsValid}
use algorithm.MinHeap.Add.{Added, add_timer-Added}
use algorithm.MinHeap.Pop.{Popped, pop_timer-Popped, top_least}
use algorithm.MinHeap.Tick.{Ticked, time_heap_tick-Ticked, IsDelay, IsFarOff, time_wait-IsDelay}

abbrev memory : Memory
memory = record {
  node = λ p. record { expire = 0; cb = none; args = 0 };
  live = λ p. false;
  next = 1;
}

abbrev log : ℕ → ℕ → List ℕ → List ℕ
log c args e = e ++ args ∷ []

abbrev call : ℕ → ℕ → List ℕ × TimeHeap → List ℕ × TimeHeap
call c args (e, h) = (log c args e, h)

abbrev empty : TimeHeap
empty = time_heap_init memory

-- Timers 1, 2 and 3, due at 90, 20 and 50; timer 2 is cancelled.
abbrev one : TimeHeap
one = (time_heap_add_timer (some 7) 10 50 40 empty).1

abbrev two : TimeHeap
two = (time_heap_add_timer (some 7) 20 0 20 one).1

abbrev three : TimeHeap
three = (time_heap_add_timer (some 7) 30 10 40 two).1

result : Option (List ℕ × TimeHeap) → List ℕ
result none = []
result (some s) = s.0

runs : result (time_heap_tick call 9 95 ([], time_heap_del_timer 2 three)) ≡ 30 ∷ 10 ∷ []
unfolding result time_heap_tick time_heap_init time_heap_add_timer time_heap_del_timer pop_timer
    fire
runs = refl

empty_lem : IsValid empty × ((p : ℕ) → holds empty p ≡ 0)
empty_lem = init-IsValid memory refl (omega arith) (λ p q. refl)

empty-IsValid : IsValid empty
empty-IsValid = empty_lem.0

add_timer-Added_example :
    Added (some 7) 10 50 40 empty (time_heap_add_timer (some 7) 10 50 40 empty)
add_timer-Added_example = add_timer-Added (some 7) 10 50 40 empty-IsValid

one-IsValid : IsValid one
one-IsValid = add_timer-Added_example.valid

two-IsValid : IsValid two
two-IsValid = (add_timer-Added (some 7) 20 0 20 one-IsValid).valid

three-IsValid : IsValid three
three-IsValid = (add_timer-Added (some 7) 30 10 40 two-IsValid).valid

pop_timer-Popped_example : Popped three (pop_timer three)
unfolding time_heap_init time_heap_add_timer
pop_timer-Popped_example = pop_timer-Popped three-IsValid (omega arith)

held : 0 < holds one 1
unfolding time_heap_add_timer time_heap_init
held = omega (arith, add_timer-Added_example.more 1)

one_top :
    (key one.mem (time_heap_top one) ≤ key one.mem 1) × (one.mem.live (time_heap_top one) ≡ true)
one_top = top_least 1 one-IsValid held

time_heap_tick-Ticked_example : Ticked log 95 [] three (time_heap_tick call 9 95 ([], three))
unfolding time_heap_init time_heap_add_timer
time_heap_tick-Ticked_example =
    time_heap_tick-Ticked log call (λ c a e h. refl) 9 95 [] three-IsValid (omega arith)

time_wait-IsDelay_example :
    ((three.cursize ≡ 0) × (time_heap_time_wait 25 three ≡ none))
    ⊎ ((w : ℕ) × (time_heap_time_wait 25 three ≡ some (plus w)) × IsDelay 25 three w)
    ⊎ ((d : ℕ) × (time_heap_time_wait 25 three ≡ some (minus d)) × IsFarOff 25 three d)
time_wait-IsDelay_example = time_wait-IsDelay 25 three-IsValid
