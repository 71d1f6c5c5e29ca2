-- ===== src/LogFile/Accept.antt =====
-- The loop of _logfile_append of demo/C/asynclog/logfile.c over the calls of fwrite_unlocked.
use algorithm.Common.{ℕ, ◌-◌, ◌≤◌, ◌≡◌, min, Bool, true, ◌&&◌, List, [], ◌∷◌, length, ltb, arith}
use algorithm.LogFile.{accept_loop, accepted}

abbrev pub all_positive : List ℕ → Bool
all_positive [] = true
all_positive (x ∷ xs) = ltb 0 x && all_positive xs

accept_loop_lem :
    (answers : List ℕ) (remain : ℕ)
    → (accept_loop answers remain ≤ remain)
      × (all_positive answers ≡ true
          → remain ≤ length answers
          → accept_loop answers remain ≡ remain)
unfolding accept_loop
accept_loop_lem [] remain = (omega arith, λ p l. omega (arith, l))
accept_loop_lem (x ∷ answers) remain =
    let (a, b) = accept_loop_lem answers (remain - min x remain) in
    (ground (arith, a), λ p l. ground (arith, b, p, l))

-- The calls of fwrite_unlocked accept no more than the line, and the whole of it where none of them
-- accepts nothing: at most as many are made as the line has bytes.
pub accepted_lem :
    (first : ℕ) (answers : List ℕ) (len : ℕ)
    → (accepted first answers len ≤ len)
      × (all_positive answers ≡ true → len ≤ length answers → accepted first answers len ≡ len)
unfolding accepted
accepted_lem first answers len =
    let (a, b) = accept_loop_lem answers (len - min first len) in
    (omega (arith, a), λ p l. ground (arith, b, p, l))
