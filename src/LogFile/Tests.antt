-- ===== src/LogFile/Tests.antt =====
-- Runs of the log file of demo/C/asynclog/logfile.c.
use algorithm.Common.{◌≡◌, true, false, some, [], ◌∷◌, refl}
use algorithm.LogFile.{LogFile, done, blocked, logfile_init, logfile_append}
use algorithm.LogFile.Append.{AppendEnds, logfile_append-Ends}

-- A log that is checked at each line, opened at the time 100, with a flush after 3.
abbrev log : LogFile
log = record (logfile_init 1000 true 3 true 100) { check_every_n = 1 }

logfile_append-Ends_example : AppendEnds 2 [] true 102 102 (65 ∷ 66 ∷ []) 100 log
unfolding logfile_init
logfile_append-Ends_example = logfile_append-Ends 2 [] true 102 102 (65 ∷ 66 ∷ []) 100 log refl refl

flushes_and_blocks : logfile_append 2 [] true 104 104 (65 ∷ 66 ∷ []) log ≡ blocked
unfolding logfile_init logfile_append
flushes_and_blocks = refl

-- A log that is over its size rolls at each later line.
abbrev over : LogFile
over = record log { written_bytes = 2000; thread_safe = false }

rolls_again :
    (r : LogFile) × (logfile_append 1 [] true 102 102 (65 ∷ []) over ≡ done r)
    × (r.fp ≡ some 102)
    × (r.written_bytes ≡ 2001)
unfolding logfile_init logfile_append
rolls_again = (_, refl, refl, refl)
