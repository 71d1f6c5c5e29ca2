-- ===== src/AsyncLog/Tests.antt =====
-- A logger with buffers of four bytes.
use algorithm.Common.{ℕ, ◌≡◌, ◌<◌, some, List, [], ◌∷◌, ◌++◌, arith}
use algorithm.AsyncLog.{AsyncLog, Writer, log_append, turn, log_init, writer_init}
use algorithm.BufferArray.{init}
use algorithm.AsyncLog.Append.{IsLog, pending, log_append-IsLog}
use algorithm.AsyncLog.Refill.{turn-IsWriter, log_init-IsLog}
use algorithm.AsyncLog.Turn.{IsWriter}

abbrev line : List ℕ
line = 1 ∷ 2 ∷ 3 ∷ []

empty : (log_init 4).buffers.cout < 23
unfolding log_init init
empty = omega arith

full : (log_init 4).buffers.cout < (log_init 4).buffers.max
unfolding log_init init
full = omega arith

log_append-IsLog_example :
    (pending (log_append 4 line (log_init 4)) ≡ pending (log_init 4) ++ line)
    × IsLog 4 (log_append 4 line (log_init 4))
log_append-IsLog_example =
    log_append-IsLog 4 line (log_init 4) (log_init-IsLog 4).0 full (omega arith)

-- One line has been logged.
logged : AsyncLog
unfolding log_append log_init
logged = log_append 4 line (log_init 4)

logged-IsLog : IsLog 4 logged
unfolding logged
logged-IsLog = (log_append-IsLog 4 line (log_init 4) (log_init-IsLog 4).0 full (omega arith)).1

few : logged.buffers.cout < 23
unfolding logged init
few = omega arith

turn-IsWriter_example :
    (b : AsyncLog) × (v : Writer) × (turn [] logged (writer_init 4) ≡ some (pending logged, b, v))
    × IsLog 4 b
    × (pending b ≡ [])
    × IsWriter 4 v
turn-IsWriter_example =
    turn-IsWriter 4 [] logged (writer_init 4) logged-IsLog (log_init-IsLog 4).2 few
