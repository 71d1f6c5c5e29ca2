-- ===== src/IniFile/Line.antt =====
-- The line that ini_append_string writes, as ini_read_string reads it.
use algorithm.Common.{
  ℕ, zero, suc, ◌+◌, ◌-◌, ◌<◌, ◌≤◌, ◌≡◌, refl, sym, ap, ◌∙◌, true, false, Option, none, some, [],
  ◌∷◌, ◌++◌, ltb, leb, ◌==◌, length, length-append, drop, get_or, slice, take, arith, if_true,
  if_false, drop-append, take-append, append_assoc,
}
use algorithm.IniFile.{
  Text, is_space, is_blank, hash, equals, line_feed, skip_spaces, ini_trim_left, skip_blanks,
  ini_trim_right, starts_with, value_is, copy_value,
}

pub get-append :
    (xs ys : Text) (i j : ℕ) → j ≡ length xs + i → get_or (xs ++ ys) j 0 ≡ get_or ys i 0
get-append [] ys i j h = let e : j ≡ i = omega (arith, h) in ap (λ n. get_or ys n 0) e
get-append (x ∷ xs) ys i zero h = absurd (omega (arith, h))
get-append (x ∷ xs) ys i (suc j) h = get-append xs ys i j (omega (arith, h))

get-left : (xs ys : Text) (j : ℕ) → j < length xs → get_or (xs ++ ys) j 0 ≡ get_or xs j 0
get-left [] ys j h = absurd (omega (arith, h))
get-left (x ∷ xs) ys zero h = refl
get-left (x ∷ xs) ys (suc j) h = get-left xs ys j (omega (arith, h))

pub starts_with_lem : (ks s : Text) → starts_with ks (ks ++ s) ≡ true
unfolding starts_with
starts_with_lem [] s = refl
starts_with_lem (k ∷ ks) s = ground (arith, starts_with_lem ks s)

-- A text that begins with neither a space nor '#', and one whose last character is no blank.
abbrev pub BeginsWell : Text → Type 0
BeginsWell [] = ⊥
BeginsWell (c ∷ cs) = (is_space c ≡ false) × ((c == hash) ≡ false)

abbrev pub EndsWell : Text → Type 0
EndsWell v = is_blank (get_or v (length v - 1) 0) ≡ false

pub trim_left_lem :
    (s pre v post : Text) (i : ℕ)
    → s ≡ pre ++ (v ++ post)
    → length pre ≡ i
    → BeginsWell v
    → ini_trim_left s i ≡ some i
unfolding ini_trim_left skip_spaces
trim_left_lem s pre [] post i e h w = absurd w
trim_left_lem s pre (c ∷ cs) post i e h w =
    ap (λ r. skip_spaces i (drop i r)) e
    ∙ ap (skip_spaces i) (drop-append i pre ((c ∷ cs) ++ post) h)
    ∙ if_false _ _ w.0
    ∙ if_false none (some i) w.1

-- One turn of the loop of ini_trim_right, and its end.
pub skip_one :
    (s : Text) (n m : ℕ)
    → n ≡ suc m
    → is_blank (get_or s n 0) ≡ true
    → skip_blanks s n ≡ skip_blanks s m
unfolding skip_blanks
skip_one s (suc n) m h b =
    let e : n ≡ m = omega (arith, h) in
    if_true (skip_blanks s n) (some (suc n)) b ∙ ap (skip_blanks s) e
skip_one s zero m h b = absurd (omega (arith, h))

pub skip_stop :
    (s : Text) (n : ℕ) → 1 ≤ n → is_blank (get_or s n 0) ≡ false → skip_blanks s n ≡ some n
unfolding skip_blanks
skip_stop s (suc n) h b = if_false (skip_blanks s n) (some (suc n)) b
skip_stop s zero h b = absurd (omega (arith, h))

module _ (key value : Text) (kw : BeginsWell key) (vw : BeginsWell value)
    (ve : EndsWell value) where
  abbrev pub line : Text
  line = key ++ (equals ∷ (value ++ line_feed ∷ []))

  full : length line ≡ length key + length value + 2
  full = omega (
    arith,
    length-append key (equals ∷ (value ++ line_feed ∷ [])),
    length-append value (line_feed ∷ []),
  )

  some_value : (v : Text) → BeginsWell v → 1 ≤ length v
  some_value [] w = absurd w
  some_value (c ∷ cs) w = omega arith

  -- The last character is the line feed, and the one before it is the value's last.
  last : is_blank (get_or line (length key + length value + 1) 0) ≡ true
  last = ap is_blank (
      get-append key (equals ∷ (value ++ line_feed ∷ [])) (suc (length value))
        (length key + length value + 1) (omega arith)
      ∙ get-append value (line_feed ∷ []) 0 (length value) (omega arith))

  before : is_blank (get_or line (length key + length value) 0) ≡ false
  before =
      let n : length value ≡ suc (length value - 1) = omega (arith, some_value value vw) in
      ap is_blank (
        get-append key (equals ∷ (value ++ line_feed ∷ [])) (suc (length value - 1))
          (length key + length value) (omega (arith, some_value value vw))
        ∙ get-left value (line_feed ∷ []) (length value - 1) (omega (arith, some_value value vw)))
      ∙ ve

  pub end_lem : ini_trim_right line 0 ≡ some (length key + length value)
  unfolding ini_trim_right
  end_lem =
      let e : length line - 1 ≡ length key + length value + 1 = omega (arith, full) in
      let f : 0 + (length key + length value) ≡ length key + length value = omega arith in
      ap (λ o. elim o as (λ x. Option ℕ) [ none ↦ none | some n ↦ some (0 + n) ])
        (ap (skip_blanks line) e
          ∙ skip_one line (length key + length value + 1) (length key + length value) (omega arith)
              last
          ∙ skip_stop line (length key + length value) (omega (arith, some_value value vw)) before)
      ∙ ap some f

  pub equals_lem : (i : ℕ) → i ≡ length key → ini_trim_left line i ≡ some i
  equals_lem i e =
      trim_left_lem line key (equals ∷ []) (value ++ line_feed ∷ []) i refl (sym e) (refl, refl)

  pub value_lem : ini_trim_left line (length key + 1) ≡ some (length key + 1)
  value_lem =
      trim_left_lem line (key ++ equals ∷ []) value (line_feed ∷ []) (length key + 1)
        (sym (append_assoc key (equals ∷ []) (value ++ line_feed ∷ [])))
        (omega (arith, length-append key (equals ∷ []))) vw

  slice_lem : (n : ℕ) → n ≡ length value → slice (length key + 1) n line ≡ value
  slice_lem n e =
      ap (take n) (
        ap (drop (length key + 1)) (sym (append_assoc key (equals ∷ []) (value ++ line_feed ∷ [])))
        ∙ drop-append (length key + 1) (key ++ equals ∷ []) (value ++ line_feed ∷ [])
            (omega (arith, length-append key (equals ∷ []))))
      ∙ take-append n value (line_feed ∷ []) (sym e)

  pub copy_lem :
      (value_len : ℕ)
      → length value < value_len
      → copy_value line value_len (length key + 1) (length key + length value) ≡ value_is value
  unfolding copy_value
  copy_lem value_len h =
      if_false {b = ltb (length key + length value + 1) (length key + 1)} _ _ (ground arith)
      ∙ if_true {b = leb (length key + length value + 1 - (length key + 1) + 1) value_len} _ _
          (ground arith)
      ∙ ap value_is (slice_lem (length key + length value + 1 - (length key + 1)) (omega arith))
