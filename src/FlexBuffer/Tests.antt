-- ===== src/FlexBuffer/Tests.antt =====
-- Runs on concrete buffers.
use algorithm.Common.{◌≡◌, refl, some, List, [], ◌∷◌, arith, take}
use algorithm.FlexBuffer.{FlexBuffer, clean}
use algorithm.FlexBuffer.Holds.{Holds}
use algorithm.FlexBuffer.Queue.{run, run_queue, write, read, Call, run_lem}
use algorithm.BufferArray.{BufferArray, IsArray, live, move, move-live}

-- Four bytes, of which the second and the third are in use.
abbrev small : FlexBuffer
small = record { buffer = some (0 ∷ 7 ∷ 8 ∷ 0 ∷ []); reader_index = 1; writer_index = 3; size = 4 }

small-Holds : Holds small (7 ∷ 8 ∷ [])
small-Holds = record {
  pre = 0 ∷ [];
  post = 0 ∷ [];
  block = refl;
  reader = refl;
  writer = refl;
  room = refl;
  small = omega arith;
}

abbrev calls : List Call
calls = write (1 ∷ 2 ∷ 3 ∷ []) ∷ read 3 ∷ write (4 ∷ []) ∷ read 9 ∷ []

run_lem_example : run calls small ≡ some (run_queue calls (7 ∷ 8 ∷ []))
run_lem_example = run_lem calls small-Holds refl

-- What the run returns.
run_test : run_queue calls (7 ∷ 8 ∷ []) ≡ (7 ∷ 8 ∷ 1 ∷ []) ∷ (2 ∷ 3 ∷ 4 ∷ []) ∷ []
unfolding run_queue
run_test = refl

abbrev one : BufferArray FlexBuffer
one = record { buffers = small ∷ []; max = 1; cout = 1 }

abbrev two : BufferArray FlexBuffer
two = record { buffers = small ∷ clean ∷ []; max = 2; cout = 1 }

one-IsArray : IsArray one
one-IsArray = record { cells = refl; used = omega arith }

two-IsArray : IsArray two
two-IsArray = record { cells = refl; used = omega arith }

move-live_example :
    (live (move clean one two).0 ≡ take 1 (live two))
    × (live (move clean one two).1 ≡ [])
    × IsArray (move clean one two).0
    × IsArray (move clean one two).1
move-live_example = move-live clean one two one-IsArray two-IsArray
