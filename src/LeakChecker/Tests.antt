-- ===== src/LeakChecker/Tests.antt =====
-- Runs of the leak checker of demo/C/check_mem_leaks/check_mem_leaks/mem_leaks.c.
use algorithm.Common.{
  ℕ, ◌<◌, ◌≡◌, inr, Bool, true, false, Option, none, some, [], length, if◌then◌else◌, arith, refl,
}
use algorithm.LeakChecker.{
  Checker, malloc, realloc, free, mem_leaks_init, mem_leaks_start, mem_leaks_show, put,
}
use algorithm.LeakChecker.Table.{times}
use algorithm.LeakChecker.Replace.{IsOpen}
use algorithm.LeakChecker.Report.{
  Reach, begin, step_start, step_malloc, step_free, gain, Reach-reported, Reach-returns,
}

abbrev after : Option (ℕ × Checker) → Checker
after o = elim o [ none ↦ mem_leaks_init | some r ↦ r.1 ]

abbrev started : Checker
started = mem_leaks_start mem_leaks_init

-- Two blocks of one bucket.
abbrev one : Checker
one = after (malloc 7 70000 [] 8 started)

abbrev two : Checker
two = after (malloc 7 4464 [] 16 one)

-- The first one is freed.
abbrev left : Checker
left = free 70000 two

abbrev one_live : ℕ → Bool
one_live = gain 70000 (λ p. false)

abbrev two_live : ℕ → Bool
two_live = gain 4464 one_live

abbrev left_live : ℕ → Bool
left_live = put 70000 false two_live

left-Reach : Reach left left_live left_live
unfolding malloc mem_leaks_init mem_leaks_start
left-Reach =
    step_free 70000
      (step_malloc 7 4464 16 [] 4464 two
        (step_malloc 7 70000 8 [] 70000 one (step_start begin) (omega arith) refl refl)
        (omega arith) refl refl)
      (inr refl)

Reach-reported_example :
    ((p : ℕ)
      → 0 < p
      → (times p (mem_leaks_show left) ≡ (if left_live p then 1 else 0))
        × (left_live p ≡ true → left_live p ≡ true))
    × (left.hash.total ≡ length (mem_leaks_show left))
Reach-reported_example = Reach-reported left-Reach

left_returns :
    ((d : Checker) × (malloc 7 5 [] 8 left ≡ some (5, d)) × IsOpen d)
    × ((d : Checker) × (realloc 7 4464 5 [] 8 left ≡ some (5, d)) × IsOpen d)
left_returns = Reach-returns left-Reach 7 5 4464 8 [] (omega arith)

total_left : left.hash.total ≡ 1
unfolding malloc free mem_leaks_init mem_leaks_start
total_left = refl

-- A block that libc could not allocate is noted as a block at 0.
null_noted : (after (malloc 7 0 [] 8 started)).hash.total ≡ 1
unfolding malloc mem_leaks_init mem_leaks_start
null_noted = refl
