-- ===== src/LogFile/Append.antt =====
-- What logfile_append of demo/C/asynclog/logfile.c does.
use algorithm.Common.{
  ℕ, ◌+◌, ◌%◌, ◌^◌, ◌≡◌, Bool, true, false, ◌&&◌, some, List, ◌++◌, length, take, if◌then◌else◌,
  ◌==◌, refl, ap, ◌∙◌, sym, subst,
}
use algorithm.LogFile.{
  LogFile, Ending, done, bind, after_line, accepted, write_line, logfile_append_unlocked,
  logfile_append,
}
use algorithm.LogFile.Branches.{Ends, checks, rolls, flush_due, after_line-Ends}

-- The file `f` with the first `n` bytes of the line.
abbrev pub written : ℕ → ℕ → List ℕ → LogFile → LogFile
written f n line t = record t {
  bytes = λ g. if g == f then t.bytes f ++ take n line else t.bytes g;
  written_bytes = (t.written_bytes + length line) % 2 ^ 64;
}

-- What logfile_append does to the log `t` whose file is `f`: it blocks, or leaves the file with what
-- was accepted of the line, and rolled where the size or the period says so.
abbrev pub AppendEnds :
    ℕ → List ℕ → (opens : Bool) → (now then_ : ℕ) → List ℕ → ℕ → LogFile → Type 0
AppendEnds first answers opens now then_ line f t =
    let w = written f (accepted first answers (length line)) line t in
    Ends opens (rolls now w) then_ w (t.thread_safe && checks w && flush_due now w)
      (logfile_append first answers opens now then_ line t)

and_false : (x : Bool) → (x && false && false) ≡ false
and_false true = refl
and_false false = refl

and_true : (x : Bool) → (x && true && true) ≡ x
and_true true = refl
and_true false = refl

module _ (first : ℕ) (answers : List ℕ) (opens : Bool) (now then_ : ℕ) (line : List ℕ) (f : ℕ) where
  unlocked :
      {b stuck : Bool} {w : LogFile} {o : Ending}
      → Ends opens b then_ (record w { locked = true }) stuck o
      → w.locked ≡ false
      → Ends opens b then_ w stuck (bind o (λ r. done (record r { locked = false })))
  unlocked e free = record {
    stops = λ s. rw (e.stops s) refl;
    ends = λ s.
        let (r, same, k) = e.ends s in
        (
          record r { locked = false },
          rw same refl,
          record {
            bytes = k.bytes;
            written = k.written;
            last_roll = k.last_roll;
            file = k.file;
            counted = k.counted;
            locked = sym free;
          },
        );
  }

  abbrev with_line : (safe held : Bool) → LogFile → LogFile
  with_line safe held t =
      written f (accepted first answers (length line)) line
        (record t { fp = some f; locked = held; thread_safe = safe })

  of_fields :
      (safe : Bool) (t : LogFile)
      → AppendEnds first answers opens now then_ line f
          (record t { fp = some f; locked = false; thread_safe = safe })
  unfolding logfile_append logfile_append_unlocked write_line
  of_fields false t =
      let w = with_line false false t in
      subst (λ stuck. Ends opens (rolls now w) then_ w stuck (after_line opens now then_ w))
        (and_false (checks w && flush_due now w)) (after_line-Ends opens then_ w now)
  of_fields true t =
      let w = with_line true true t in
      unlocked {w = with_line true false t}
        (subst (λ stuck. Ends opens (rolls now w) then_ w stuck (after_line opens now then_ w))
          (and_true (checks w && flush_due now w)) (after_line-Ends opens then_ w now))
        refl

  -- With a free mutex and an open file, logfile_append blocks where the log is thread safe and a flush is
  -- due, since the caller holds the mutex that the flush takes. Otherwise it ends: the file has what was
  -- accepted of the line after what it had, the others are as they were, the count stays below its
  -- bound, the mutex is free, and a new file is open where the size or the period asks for it and the
  -- time is past the last roll.
  pub logfile_append-Ends :
      (t : LogFile)
      → t.fp ≡ some f
      → t.locked ≡ false
      → AppendEnds first answers opens now then_ line f t
  logfile_append-Ends t file free =
      subst (AppendEnds first answers opens now then_ line f)
        (ap (λ x. record t { fp = x; locked = false }) (sym file)
          ∙ ap (λ x. record t { locked = x }) (sym free))
        (of_fields t.thread_safe t)
