-- ===== src/IniFile.antt =====
-- framework/libco_pool/ini_file.c: reading and appending `key=value` lines of a configuration file.
-- The file is its bytes. A line is what one call of fgets returns, without the final NUL, and a
-- pointer into it is an offset.
pub mod Line
pub mod Fgets
pub mod Read
pub mod Name
pub mod Tests
use algorithm.Common.{
  ℕ, zero, suc, ◌+◌, ◌-◌, Bool, true, false, ◌&&◌, ◌||◌, Option, none, some, List, [], ◌∷◌, ◌++◌,
  ltb, leb, ◌==◌, if◌then◌else◌, length, drop, get_or, slice,
}

abbrev pub Text : Type 0
Text = List ℕ

-- Space and tab; '#'; '='; line feed and carriage return; '/'.
abbrev pub is_space : ℕ → Bool
is_space c = (c == 32) || (c == 9)

abbrev pub hash : ℕ
hash = 35

abbrev pub equals : ℕ
equals = 61

abbrev pub line_feed : ℕ
line_feed = 10

abbrev pub is_blank : ℕ → Bool
is_blank c = is_space c || ((c == 13) || (c == line_feed))

abbrev pub slash : ℕ
slash = 47

-- The offset `i` is that of the first of the characters.
pub skip_spaces : ℕ → Text → Option ℕ
skip_spaces i [] = none
skip_spaces i (c ∷ cs) =
    let rest = skip_spaces (suc i) cs in
    if is_space c then rest else if c == hash then none else some i

pub ini_trim_left : Text → ℕ → Option ℕ
unfolding skip_spaces
ini_trim_left s i = skip_spaces i (drop i s)

-- The loop over `len`, on the text that begins at the pointer.
pub skip_blanks : Text → ℕ → Option ℕ
skip_blanks str zero = none
skip_blanks str (suc n) =
    let rest = skip_blanks str n in if is_blank (get_or str (suc n) 0) then rest else some (suc n)

pub ini_trim_right : Text → ℕ → Option ℕ
unfolding skip_blanks
ini_trim_right s i = elim (skip_blanks (drop i s) (length (drop i s) - 1)) [
  | none ↦ none
  | some n ↦ some (i + n)
]

-- memcmp of a key, which has no NUL, with the text at a pointer.
pub starts_with : Text → Text → Bool
starts_with [] s = true
starts_with (k ∷ ks) [] = false
starts_with (k ∷ ks) (c ∷ cs) = (k == c) && starts_with ks cs

-- What one line comes to: it is passed over, its value is too long for the caller's array, it has
-- the value, or memcpy is called with a negative length.
pub data Outcome : Type 0 where
  skipped too_long fault : Outcome
  value_is : Text → Outcome

-- The value from `begin` to `end`.
pub copy_value : Text → ℕ → ℕ → ℕ → Outcome
copy_value s value_len begin end =
    if ltb (end + 1) begin
    then fault
    else if leb (end + 1 - begin + 1) value_len
    then value_is (slice begin (end + 1 - begin) s)
    else too_long

-- What comes behind the key, from `i`.
pub read_value : Text → ℕ → ℕ → ℕ → Outcome
unfolding ini_trim_left copy_value
read_value s value_len i end = elim (ini_trim_left s i) [
  | none ↦ skipped
  | some b ↦ elim (ini_trim_left s b) [
    | none ↦ skipped
    | some c ↦
        if get_or s c 0 == equals
        then elim (ini_trim_left s (c + 1)) [
          | none ↦ skipped
          | some d ↦ copy_value s value_len d end
        ]
        else skipped
  ]
]

-- The body of the loop.
pub read_line : Text → ℕ → Text → Outcome
unfolding ini_trim_left ini_trim_right starts_with read_value
read_line key value_len s = elim (ini_trim_left s 0) [
  | none ↦ skipped
  | some begin ↦ elim (ini_trim_right s begin) [
    | none ↦ skipped
    | some end ↦
        if starts_with key (drop begin s)
        then read_value s value_len (begin + length key) end
        else skipped
  ]
]

-- The loop, on the lines: `skipped` at the end of the file, where the result is -1, as it is for
-- `too_long`.
pub read_lines : Text → ℕ → List Text → Outcome
unfolding read_line
read_lines key value_len [] = skipped
read_lines key value_len (s ∷ ss) =
    let rest = read_lines key value_len ss in
    elim (read_line key value_len s) [
      | skipped ↦ rest
      | too_long ↦ too_long
      | fault ↦ fault
      | value_is v ↦ value_is v
    ]

-- `fgets(buf, sizeof(buf)-1, fp)` takes 2046 characters at most.
abbrev pub line_max : ℕ
line_max = 2046

-- A character in front of the first line.
abbrev pub push : ℕ → List Text → List Text
push c [] = (c ∷ []) ∷ []
push c (s ∷ ss) = (c ∷ s) ∷ ss

-- The lines of the calls of fgets on the rest of a file, where the first of them may take `room`
-- more characters: a line ends behind a line feed, or when it is full.
pub fgets_all : ℕ → Text → List Text
fgets_all room [] = []
fgets_all room (c ∷ cs) =
    let ended = (c == line_feed) || leb room 1 in
    let rest = fgets_all (if ended then line_max else room - 1) cs in
    if ended then (c ∷ []) ∷ rest else push c rest

-- On a file that can be opened.
pub ini_read_string : Text → ℕ → Text → Outcome
unfolding read_lines fgets_all
ini_read_string key value_len file = read_lines key value_len (fgets_all line_max file)

pub ini_append_string : Text → Text → Text → Text
ini_append_string key value file = file ++ (key ++ (equals ∷ (value ++ line_feed ∷ [])))

-- The part after the last slash, but for one at index 0, which is not looked at.
pub last_slash : Text → ℕ → Option ℕ
last_slash s zero = none
last_slash s (suc zero) = none
last_slash s (suc (suc n)) =
    let rest = last_slash s (suc n) in if get_or s (suc n) 0 == slash then some (suc n) else rest

pub file_name : Text → Text
unfolding last_slash
file_name s = elim (last_slash s (length s)) [ none ↦ s | some i ↦ drop (i + 1) s ]
