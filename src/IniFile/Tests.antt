-- ===== src/IniFile/Tests.antt =====
-- A small configuration file.
use algorithm.Common.{ℕ, ◌≡◌, refl, false, [], ◌∷◌, arith, get_or, ◌==◌, suc, zero}
use algorithm.IniFile.{Text, value_is, fault, ini_read_string, ini_append_string, slash}
use algorithm.IniFile.Read.{then_read, append-read, blank-fault}

abbrev db : Text
db = 100 ∷ 98 ∷ []

abbrev port : Text
port = 51 ∷ 51 ∷ []

-- A comment.
abbrev file : Text
file = 35 ∷ 100 ∷ 10 ∷ []

append-read_example :
    ini_read_string db 8 (ini_append_string db port file)
    ≡ then_read (ini_read_string db 8 file) (value_is port)
append-read_example =
    append-read db port 8 file refl refl refl (omega arith) (refl, refl) (refl, refl) refl
      (omega arith)

blank-fault_example :
    ini_read_string db 8 (ini_append_string db (32 ∷ []) file)
    ≡ then_read (ini_read_string db 8 file) fault
blank-fault_example = blank-fault db 8 file refl refl (omega arith) (refl, refl)

no_slash : (i : ℕ) → (get_or port i 0 == slash) ≡ false
no_slash zero = refl
no_slash (suc zero) = refl
no_slash (suc (suc i)) = refl
