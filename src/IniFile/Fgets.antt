-- ===== src/IniFile/Fgets.antt =====
-- The lines that the calls of fgets in ini_read_string of framework/libco_pool/ini_file.c return.
use algorithm.Common.{
  ℕ, ◌+◌, ◌-◌, ◌<◌, ◌≡◌, refl, sym, ap, ◌∙◌, Bool, true, false, ◌&&◌, ◌||◌, not, List, [], ◌∷◌,
  ◌++◌, leb, ◌==◌, if◌then◌else◌, length, length-append, append_assoc, arith, subst,
}
use algorithm.IniFile.{Text, line_feed, equals, line_max, push, fgets_all}

-- The text is empty or ends with a line feed.
abbrev pub ends_line : Text → Bool
ends_line [] = true
ends_line (c ∷ cs) = elim cs [ [] ↦ c == line_feed | d ∷ ds ↦ ends_line cs ]

abbrev pub no_feed : Text → Bool
no_feed [] = true
no_feed (c ∷ cs) = not (c == line_feed) && no_feed cs

-- One character of the file, and whether its line ends with it.
abbrev step : Bool → ℕ → List Text → List Text
step ended c rest = if ended then (c ∷ []) ∷ rest else push c rest

IsCons : List Text → Type 0
IsCons ls = (s : Text) × (ss : List Text) × (ls ≡ s ∷ ss)

step-IsCons : (ended : Bool) (c : ℕ) (ls : List Text) → IsCons (step ended c ls)
unfolding IsCons
step-IsCons true c ls = (c ∷ [], ls, refl)
step-IsCons false c [] = (c ∷ [], [], refl)
step-IsCons false c (s ∷ ss) = (c ∷ s, ss, refl)

fgets-IsCons : (room c : ℕ) (cs : Text) → IsCons (fgets_all room (c ∷ cs))
unfolding fgets_all
fgets-IsCons room c cs = step-IsCons ((c == line_feed) || leb room 1) c _

step-append :
    (ended : Bool) (c : ℕ) (ls more : List Text)
    → IsCons ls
    → step ended c (ls ++ more) ≡ step ended c ls ++ more
unfolding IsCons
step-append true c ls more h = refl
step-append false c ls more (s, ss, e) =
    subst (λ xs. push c (xs ++ more) ≡ push c xs ++ more) (sym e) refl

-- What is added to a file of whole lines makes lines of its own.
append_from :
    (room c : ℕ) (cs more : Text)
    → ends_line (c ∷ cs) ≡ true
    → fgets_all room ((c ∷ cs) ++ more) ≡ fgets_all room (c ∷ cs) ++ fgets_all line_max more
unfolding fgets_all
append_from room c [] more h =
    let ended : ((c == line_feed) || leb room 1) ≡ true = ground arith in rw ended refl
append_from room c (d ∷ ds) more h =
    let ended : Bool = (c == line_feed) || leb room 1 in
    let next : ℕ = if ended then line_max else room - 1 in
    ap (step ended c) (append_from next d ds more h)
    ∙ step-append ended c (fgets_all next (d ∷ ds)) (fgets_all line_max more)
        (fgets-IsCons next d ds)

pub fgets-append :
    (file more : Text)
    → ends_line file ≡ true
    → fgets_all line_max (file ++ more) ≡ fgets_all line_max file ++ fgets_all line_max more
unfolding fgets_all
fgets-append [] more h = refl
fgets-append (c ∷ cs) more h = append_from line_max c cs more h

-- A line that fits is returned at once.
whole_line :
    (room : ℕ) (body : Text)
    → no_feed body ≡ true
    → length body < room
    → fgets_all room (body ++ line_feed ∷ []) ≡ (body ++ line_feed ∷ []) ∷ []
unfolding fgets_all
whole_line room [] h short = refl
whole_line room (c ∷ cs) h short =
    let going : ((c == line_feed) || leb room 1) ≡ false = ground arith in
    rw going (ap (push c) (whole_line (room - 1) cs (ground arith) (omega (arith, short))))

no_feed-append : (xs ys : Text) → no_feed xs ≡ true → no_feed ys ≡ true → no_feed (xs ++ ys) ≡ true
no_feed-append [] ys h k = k
no_feed-append (x ∷ xs) ys h k = ground (arith, no_feed-append xs ys)

pub fgets-line :
    (key value : Text)
    → no_feed key ≡ true
    → no_feed value ≡ true
    → length key + length value < 2045
    → fgets_all line_max (key ++ (equals ∷ (value ++ line_feed ∷ [])))
      ≡ (key ++ (equals ∷ (value ++ line_feed ∷ []))) ∷ []
fgets-line key value kn vn short =
    let body : Text = key ++ (equals ∷ value) in
    subst (λ s. fgets_all line_max s ≡ s ∷ []) (append_assoc key (equals ∷ value) (line_feed ∷ []))
      (whole_line line_max body (no_feed-append key (equals ∷ value) kn vn)
        (omega (arith, length-append key (equals ∷ value), short)))
