-- ===== src/LeakChecker/Replace.antt =====
-- The calls of demo/C/check_mem_leaks/check_mem_leaks/mem_leaks.c that replace those of libc: what
-- each does to the table when no call of the thread is under way.
use algorithm.Common.{
  ℕ, ◌*◌, ◌%◌, ◌^◌, ◌<◌, ◌≡◌, Bool, true, false, Option, some, List, arith, if◌then◌else◌, ◌==◌,
  ltb, refl, Bool-cases, inl, inr,
}
use algorithm.DeadLock.{Text}
use algorithm.LeakChecker.{
  Hash, Checker, max_threads, put, set_pid, add, del, info_add, info_del, malloc, calloc, realloc,
}

abbrev pub IsOpen : Checker → Type 0
IsOpen c = (tid : ℕ) → c.pids tid ≡ true

-- The call returns the block, with the table as given and the rest as it was.
pub record Returns (p : ℕ) (h : Hash) (c : Checker) (o : Option (ℕ × Checker)) : Type 0 where
  pub after : Checker
  pub result : o ≡ some (p, after)
  pub hash : after.hash ≡ h
  pub check : after.mem_check ≡ c.mem_check
  pub opened : IsOpen after

module _ (tid p : ℕ) (st : List Text) (h : Hash) (pids : ℕ → Bool)
    (opened : (x : ℕ) → pids x ≡ true) (lt : tid < max_threads) where
  in_range : ltb tid max_threads ≡ true
  in_range = ground (arith, lt)

  abbrev checker : Bool → Checker
  checker b = record { hash = h; mem_check = b; pids = pids }

  reopened : (x : ℕ) → put tid true (put tid false pids) x ≡ true
  reopened x = ground (arith, opened x)

  malloc_lem :
      (b : Bool) (size : ℕ)
      → Returns p
          (if b then info_add p st size h else h)
          (checker b)
          (malloc tid p st size (checker b))
  unfolding malloc
  malloc_lem false size = record {
    after = checker false;
    result = refl;
    hash = refl;
    check = refl;
    opened = opened;
  }
  malloc_lem true size = record {
    after = set_pid tid true (add p st size (set_pid tid false (checker true)));
    result = rw (in_range, opened tid) refl;
    hash = refl;
    check = refl;
    opened = reopened;
  }

  calloc_lem :
      (b : Bool) (elements size : ℕ)
      → Returns p
          (if b then info_add p st (elements * size % 2 ^ 64) h else h)
          (checker b)
          (calloc tid p st elements size (checker b))
  unfolding calloc
  calloc_lem false elements size = record {
    after = checker false;
    result = refl;
    hash = refl;
    check = refl;
    opened = opened;
  }
  calloc_lem true elements size = record {
    after =
        set_pid tid true (add p st (elements * size % 2 ^ 64) (set_pid tid false (checker true)));
    result = rw (in_range, opened tid) refl;
    hash = refl;
    check = refl;
    opened = reopened;
  }

  realloc_null :
      (b : Bool) (old size : ℕ)
      → (p == 0) ≡ true
      → Returns p h (checker b) (realloc tid old p st size (checker b))
  unfolding realloc
  realloc_null false old size z = record {
    after = checker false;
    result = rw z refl;
    hash = refl;
    check = refl;
    opened = opened;
  }
  realloc_null true old size z = record {
    after = set_pid tid true (set_pid tid false (checker true));
    result = rw (in_range, opened tid, z) refl;
    hash = refl;
    check = refl;
    opened = reopened;
  }

  realloc_moved :
      (b : Bool) (old size : ℕ)
      → (p == 0) ≡ false
      → Returns p
          (if b then info_add p st size (info_del old h) else info_del old h)
          (checker b)
          (realloc tid old p st size (checker b))
  unfolding realloc
  realloc_moved false old size z = record {
    after = del old (checker false);
    result = rw z refl;
    hash = refl;
    check = refl;
    opened = opened;
  }
  realloc_moved true old size z = record {
    after = set_pid tid true (add p st size (del old (set_pid tid false (checker true))));
    result = rw (in_range, opened tid, z) refl;
    hash = refl;
    check = refl;
    opened = reopened;
  }

module _ (tid p : ℕ) (st : List Text) (c : Checker) (opened : IsOpen c)
    (lt : tid < max_threads) where
  pub malloc-Returns :
      (size : ℕ)
      → Returns p
          (if c.mem_check then info_add p st size c.hash else c.hash)
          c
          (malloc tid p st size c)
  malloc-Returns size = malloc_lem tid p st c.hash c.pids opened lt c.mem_check size

  pub calloc-Returns :
      (elements size : ℕ)
      → Returns p
          (if c.mem_check then info_add p st (elements * size % 2 ^ 64) c.hash else c.hash)
          c
          (calloc tid p st elements size c)
  calloc-Returns elements size =
      calloc_lem tid p st c.hash c.pids opened lt c.mem_check elements size

  -- The table after realloc has moved the block `old` to `p`.
  abbrev pub moved : ℕ → ℕ → Hash
  moved old size =
      if p == 0
      then c.hash
      else (if c.mem_check then info_add p st size (info_del old c.hash) else info_del old c.hash)

  pub realloc-Returns : (old size : ℕ) → Returns p (moved old size) c (realloc tid old p st size c)
  realloc-Returns old size = elim (Bool-cases (p == 0)) [
    | inl z ↦ rw z (realloc_null tid p st c.hash c.pids opened lt c.mem_check old size z)
    | inr z ↦ rw z (realloc_moved tid p st c.hash c.pids opened lt c.mem_check old size z)
  ]
