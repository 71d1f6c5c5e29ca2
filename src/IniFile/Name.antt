-- ===== src/IniFile/Name.antt =====
-- file_name on a path.
use algorithm.Common.{
  ℕ, zero, suc, ◌+◌, ◌-◌, ◌<◌, ◌≤◌, ◌≡◌, sym, ap, ◌∙◌, true, false, none, some, [], ◌∷◌, ◌++◌, ◌==◌,
  length, length-append, drop, get_or, arith, if_true, if_false, drop-append, append_assoc,
  Bool-cases, inl, inr,
}
use algorithm.IniFile.{Text, slash, last_slash, file_name}
use algorithm.IniFile.Line.{get-append}

-- The loop stops at the slash with the highest index.
last_slash_lem :
    (s : Text) (n k : ℕ)
    → k ≤ n
    → 1 ≤ k
    → (get_or s k 0 == slash) ≡ true
    → ((j : ℕ) → k < j → (get_or s j 0 == slash) ≡ false)
    → last_slash s (suc n) ≡ some k
unfolding last_slash
last_slash_lem s zero k h l e f = absurd (omega (arith, h, l))
last_slash_lem s (suc n) k h l e f = elim (Bool-cases (k == suc n)) [
  | inl q ↦
      let eq : suc n ≡ k = ground arith in
      if_true (some (suc n)) (last_slash s (suc n)) (ap (λ i. get_or s i 0 == slash) eq ∙ e)
      ∙ ap some eq
  | inr q ↦
      if_false (some (suc n)) (last_slash s (suc n)) (f (suc n) (ground arith))
      ∙ last_slash_lem s n k (ground arith) l e f
]

-- Of a path, file_name is what stands behind the last slash, if that is not the first character.
pub file_name_lem :
    (dir name : Text)
    → 1 ≤ length dir
    → ((i : ℕ) → (get_or name i 0 == slash) ≡ false)
    → file_name (dir ++ (slash ∷ name)) ≡ name
unfolding file_name
file_name_lem dir name h f =
    let s : Text = dir ++ (slash ∷ name) in
    let size : length s ≡ suc (length dir + length name) =
      omega (arith, length-append dir (slash ∷ name)) in
    let found =
      last_slash_lem s (length dir + length name) (length dir) (omega arith) h
        (ap (λ c. c == slash) (get-append dir (slash ∷ name) 0 (length dir) (omega arith)))
        (λ j k.
          ap (λ c. c == slash)
            (get-append dir (slash ∷ name) (suc (j - length dir - 1)) j (omega (arith, k)))
          ∙ f (j - length dir - 1)) in
    ap (λ o. elim o as (λ x. Text) [ none ↦ s | some i ↦ drop (i + 1) s ])
      (ap (last_slash s) size ∙ found)
    ∙ ap (drop (length dir + 1)) (sym (append_assoc dir (slash ∷ []) name))
    ∙ drop-append (length dir + 1) (dir ++ slash ∷ []) name
        (omega (arith, length-append dir (slash ∷ [])))
