-- ===== src/IniFile/Read.antt =====
-- ini_read_string on a file to which ini_append_string has added a line.
use algorithm.Common.{
  true, ℕ, suc, ◌+◌, ◌-◌, ◌<◌, ◌≤◌, ◌≡◌, refl, sym, ap, ◌∙◌, Option, none, some, List, [], ◌∷◌,
  ◌++◌, ltb, ◌==◌, if◌then◌else◌, length, length-append, drop, get_or, arith, if_true, drop-append,
  append_assoc,
}
use algorithm.IniFile.{
  Text, is_blank, equals, line_feed, ini_trim_left, skip_spaces, skip_blanks, ini_trim_right,
  starts_with, Outcome, skipped, too_long, fault, value_is, copy_value, read_value, read_line,
  read_lines, ini_read_string, ini_append_string, fgets_all, line_max,
}
use algorithm.IniFile.Fgets.{ends_line, no_feed, fgets-append, fgets-line}
use algorithm.IniFile.Line.{
  BeginsWell, EndsWell, line, end_lem, value_lem, copy_lem, starts_with_lem, trim_left_lem,
  get-append, skip_one, skip_stop,
}

-- What a line comes to whose key, and whose first character behind it, are found.
read_line_lem :
    (key s : Text) (value_len end d : ℕ)
    → (rest : Text) → s ≡ key ++ (equals ∷ rest)
    → BeginsWell key
    → ini_trim_right s 0 ≡ some end
    → ini_trim_left s (length key + 1) ≡ some d
    → read_line key value_len s ≡ copy_value s value_len d end
unfolding read_line read_value
read_line_lem key s value_len end d rest e w r l =
    ap (λ o. elim o as (λ x. Outcome) [ none ↦ skipped | some b ↦ with_begin b ])
      (trim_left_lem s [] key (equals ∷ rest) 0 e refl w)
    ∙ ap (λ o. elim o as (λ x. Outcome) [ none ↦ skipped | some n ↦ with_end n ]) r
    ∙ if_true (read_value s value_len (0 + length key) end) skipped
        (ap (starts_with key) e ∙ starts_with_lem key (equals ∷ rest))
    ∙ ap (λ o. elim o as (λ x. Outcome) [ none ↦ skipped | some b ↦ with_key b ])
        (trim_left_lem s key (equals ∷ []) rest (0 + length key) e (omega arith) (refl, refl))
    ∙ ap (λ o. elim o as (λ x. Outcome) [ none ↦ skipped | some c ↦ with_equals c ])
        (trim_left_lem s key (equals ∷ []) rest (0 + length key) e (omega arith) (refl, refl))
    ∙ if_true
        (elim (ini_trim_left s (0 + length key + 1)) as (λ x. Outcome) [
          | none ↦ skipped
          | some d ↦ copy_value s value_len d end
        ])
        skipped
        (ap (λ t. get_or t (0 + length key) 0 == equals) e
          ∙ ap (λ c. c == equals) (get-append key (equals ∷ rest) 0 (0 + length key) (omega arith)))
    ∙ ap (λ o. elim o as (λ x. Outcome) [ none ↦ skipped | some d ↦ copy_value s value_len d end ])
        (ap (ini_trim_left s) shift ∙ l)
  where
    shift : 0 + length key + 1 ≡ length key + 1
    shift = omega arith

    with_equals : ℕ → Outcome
    with_equals c =
        if get_or s c 0 == equals
        then elim (ini_trim_left s (c + 1)) as (λ x. Outcome) [
          | none ↦ skipped
          | some d ↦ copy_value s value_len d end
        ]
        else skipped

    with_key : ℕ → Outcome
    with_key b = elim (ini_trim_left s b) as (λ x. Outcome) [
      | none ↦ skipped
      | some c ↦ with_equals c
    ]

    with_end : ℕ → Outcome
    with_end n =
        if starts_with key (drop 0 s) then read_value s value_len (0 + length key) n else skipped

    with_begin : ℕ → Outcome
    with_begin b = elim (ini_trim_right s b) as (λ x. Outcome) [
      | none ↦ skipped
      | some end ↦
          if starts_with key (drop b s)
          then read_value s value_len (b + length key) end
          else skipped
    ]

-- Whether the search goes on behind the line.
abbrev pub then_read : Outcome → Outcome → Outcome
then_read skipped o = o
then_read too_long o = too_long
then_read fault o = fault
then_read (value_is v) o = value_is v

then_assoc : (a b c : Outcome) → then_read a (then_read b c) ≡ then_read (then_read a b) c
then_assoc skipped b c = refl
then_assoc too_long b c = refl
then_assoc fault b c = refl
then_assoc (value_is v) b c = refl

read_cons :
    (key s : Text) (n : ℕ) (file : List Text)
    → read_lines key n (s ∷ file) ≡ then_read (read_line key n s) (read_lines key n file)
unfolding read_lines
read_cons key s n file =
    elim (read_line key n s)
      as (λ o.
        (elim o as (λ x. Outcome) [
          | skipped ↦ read_lines key n file
          | too_long ↦ too_long
          | fault ↦ fault
          | value_is v ↦ value_is v
        ])
        ≡ then_read o (read_lines key n file)) [
          | skipped ↦ refl
          | too_long ↦ refl
          | fault ↦ refl
          | value_is v ↦ refl
        ]

read-append :
    (key : Text) (n : ℕ) (file more : List Text)
    → read_lines key n (file ++ more) ≡ then_read (read_lines key n file) (read_lines key n more)
unfolding read_lines
read-append key n [] more = refl
read-append key n (s ∷ file) more =
    read_cons key s n (file ++ more)
    ∙ ap (then_read (read_line key n s)) (read-append key n file more)
    ∙ then_assoc (read_line key n s) (read_lines key n file) (read_lines key n more)
    ∙ ap (λ o. then_read o (read_lines key n more)) (sym (read_cons key s n file))

append-read_lines :
    (key value : Text) (n : ℕ) (file : List Text)
    → BeginsWell key
    → BeginsWell value
    → EndsWell value
    → length value < n
    → read_lines key n (file ++ (key ++ (equals ∷ (value ++ line_feed ∷ []))) ∷ [])
      ≡ then_read (read_lines key n file) (value_is value)
unfolding read_lines
append-read_lines key value n file kw vw ve h =
    read-append key n file (line key value kw vw ve ∷ [])
    ∙ ap (then_read (read_lines key n file)) (
        read_cons key (line key value kw vw ve) n []
        ∙ ap (λ o. then_read o skipped)
            (read_line_lem key (line key value kw vw ve) n (length key + length value)
                (length key + 1) (value ++ line_feed ∷ []) refl kw (end_lem key value kw vw ve)
                (value_lem key value kw vw ve)
              ∙ copy_lem key value kw vw ve n h))

-- A key and a value that ini_append_string adds are read back where no line of the file is for the
-- key; otherwise the file's own line is still the one that is read. The file is empty or ends with
-- a line feed. The key and the value have no line feed, are 2044 characters together at most, are
-- not empty, and begin with neither a space, a tab nor '#'; and the value ends with no blank and
-- fits into the caller's array.
pub append-read :
    (key value : Text) (n : ℕ) (file : Text)
    → ends_line file ≡ true
    → no_feed key ≡ true
    → no_feed value ≡ true
    → length key + length value < 2045
    → BeginsWell key
    → BeginsWell value
    → EndsWell value
    → length value < n
    → ini_read_string key n (ini_append_string key value file)
      ≡ then_read (ini_read_string key n file) (value_is value)
unfolding ini_append_string ini_read_string
append-read key value n file whole kn vn short kw vw ve h =
    ap (read_lines key n) (
      fgets-append file (key ++ (equals ∷ (value ++ line_feed ∷ []))) whole
      ∙ ap (λ ls. fgets_all line_max file ++ ls) (fgets-line key value kn vn short))
    ∙ append-read_lines key value n (fgets_all line_max file) kw vw ve h

trim_spaces :
    (key : Text) (i : ℕ)
    → i ≡ length key + 1
    → ini_trim_left (key ++ (equals ∷ 32 ∷ line_feed ∷ [])) i ≡ some (suc i)
unfolding ini_trim_left skip_spaces
trim_spaces key i h =
    ap (λ t. skip_spaces i (drop i t)) (sym (append_assoc key (equals ∷ []) (32 ∷ line_feed ∷ [])))
    ∙ ap (skip_spaces i) (
        drop-append i (key ++ equals ∷ []) (32 ∷ line_feed ∷ [])
          (omega (arith, length-append key (equals ∷ []), h)))

blank_line-fault :
    (key : Text) (n : ℕ)
    → BeginsWell key
    → read_line key n (key ++ (equals ∷ 32 ∷ line_feed ∷ [])) ≡ fault
unfolding ini_trim_right copy_value
blank_line-fault key n w =
    read_line_lem key s n (length key) (suc (length key + 1)) (32 ∷ line_feed ∷ []) refl w
      (ap (λ o. elim o as (λ x. Option ℕ) [ none ↦ none | some n ↦ some (0 + n) ]) ended
        ∙ ap some zero_plus)
      begun
    ∙ if_true {b = ltb (length key + 1) (suc (length key + 1))} fault _ (ground arith)
  where
    s : Text
    s = key ++ (equals ∷ 32 ∷ line_feed ∷ [])

    zero_plus : 0 + length key ≡ length key
    zero_plus = omega arith

    long : length s - 1 ≡ length key + 2
    long = omega (arith, length-append key (equals ∷ 32 ∷ line_feed ∷ []))

    behind :
        (j i : ℕ) → j ≡ length key + i → get_or s j 0 ≡ get_or (equals ∷ 32 ∷ line_feed ∷ []) i 0
    behind j i h = get-append key (equals ∷ 32 ∷ line_feed ∷ []) i j h

    one_at_least : (k : Text) → BeginsWell k → 1 ≤ length k
    one_at_least [] w = absurd w
    one_at_least (c ∷ cs) w = omega arith

    ended : skip_blanks s (length s - 1) ≡ some (length key)
    ended =
        ap (skip_blanks s) long
        ∙ skip_one s (length key + 2) (length key + 1) (omega arith)
            (ap is_blank (behind (length key + 2) 2 refl))
        ∙ skip_one s (length key + 1) (length key) (omega arith)
            (ap is_blank (behind (length key + 1) 1 refl))
        ∙ skip_stop s (length key) (one_at_least key w)
            (ap is_blank (behind (length key) 0 (omega arith)))

    begun : ini_trim_left s (length key + 1) ≡ some (suc (length key + 1))
    begun = trim_spaces key (length key + 1) (omega arith)

-- When ini_append_string has added one space as the value of a key, ini_read_string calls memcpy with
-- a negative length, for an array of any length, unless a line before that one ends the search. The
-- file is empty or ends with a line feed. The key has no line feed and 2043 characters at most, is not
-- empty, and begins with neither a space, a tab nor '#'.
pub blank-fault :
    (key : Text) (n : ℕ) (file : Text)
    → ends_line file ≡ true
    → no_feed key ≡ true
    → length key < 2044
    → BeginsWell key
    → ini_read_string key n (ini_append_string key (32 ∷ []) file)
      ≡ then_read (ini_read_string key n file) fault
unfolding ini_append_string ini_read_string
blank-fault key n file whole kn short w =
    let s : Text = key ++ (equals ∷ 32 ∷ line_feed ∷ []) in
    ap (read_lines key n) (
      fgets-append file s whole
      ∙ ap (λ ls. fgets_all line_max file ++ ls)
          (fgets-line key (32 ∷ []) kn refl (omega (arith, short))))
    ∙ read-append key n (fgets_all line_max file) (s ∷ [])
    ∙ ap (then_read (read_lines key n (fgets_all line_max file))) (
        read_cons key s n []
        ∙ ap (λ o. then_read o (read_lines key n [])) (blank_line-fault key n w))
