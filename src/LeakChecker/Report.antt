-- ===== src/LeakChecker/Report.antt =====
-- What mem_leaks_show of demo/C/check_mem_leaks/check_mem_leaks/mem_leaks.c reports after any calls.
-- A call is one step: the steps of two threads within their calls are not told apart.
use algorithm.Common.{
  ℕ, ◌*◌, ◌%◌, ◌^◌, ◌<◌, ◌≡◌, ◌⊎◌, inl, inr, Bool, true, false, Option, some, some-injective, List,
  length, arith, if◌then◌else◌, ◌==◌, refl, sym, ◌∙◌, subst, Bool-cases,
}
use algorithm.DeadLock.{Text}
use algorithm.LeakChecker.{
  Hash, Checker, max_threads, put, info_add, info_del, malloc, calloc, realloc, free,
  mem_leaks_init, mem_leaks_start, mem_leaks_stop, mem_leaks_show,
}
use algorithm.LeakChecker.Table.{
  IsHash, times, noted, all_buckets-noted, noted-add, info_add-IsHash, info_del_lem,
  hash_init-IsHash,
}
use algorithm.LeakChecker.Replace.{IsOpen, Returns, malloc-Returns, calloc-Returns, realloc-Returns}

-- The block that libc returns, 0 for none, is in use.
abbrev pub gain : ℕ → (ℕ → Bool) → ℕ → Bool
gain p f = if p == 0 then f else put p true f

-- The calls of a program that frees only what is in use, each with what libc answers: a block that
-- is not in use, or 0; the size for realloc is not 0. `live` is what is in use, and `seen` what is in
-- use and was last allocated with the check on.
pub data Reach : Checker → (live seen : ℕ → Bool) → Type 0 where
  begin : Reach mem_leaks_init (λ p. false) (λ p. false)
  step_start :
      {c : Checker} {live seen : ℕ → Bool} → Reach c live seen → Reach (mem_leaks_start c) live seen
  step_stop :
      {c : Checker} {live seen : ℕ → Bool} → Reach c live seen → Reach (mem_leaks_stop c) live seen
  step_malloc :
      {c : Checker} {live seen : ℕ → Bool} (tid p size : ℕ) (st : List Text) (r : ℕ) (d : Checker)
      → Reach c live seen
      → tid < max_threads
      → live p ≡ false
      → malloc tid p st size c ≡ some (r, d)
      → Reach d (gain p live) (if c.mem_check then gain p seen else seen)
  step_calloc :
      {c : Checker} {live seen : ℕ → Bool} (tid p elements size : ℕ) (st : List Text) (r : ℕ)
      (d : Checker)
      → Reach c live seen
      → tid < max_threads
      → live p ≡ false
      → calloc tid p st elements size c ≡ some (r, d)
      → Reach d (gain p live) (if c.mem_check then gain p seen else seen)
  step_realloc :
      {c : Checker} {live seen : ℕ → Bool} (tid old p size : ℕ) (st : List Text) (r : ℕ)
      (d : Checker)
      → Reach c live seen
      → tid < max_threads
      → 0 < size
      → (old ≡ 0) ⊎ (live old ≡ true)
      → (p ≡ old) ⊎ (live p ≡ false)
      → realloc tid old p st size c ≡ some (r, d)
      → Reach d
          (if p == 0 then live else put p true (put old false live))
          (if p == 0 then seen else put p c.mem_check (put old false seen))
  step_free :
      {c : Checker} {live seen : ℕ → Bool} (p : ℕ)
      → Reach c live seen
      → (p ≡ 0) ⊎ (live p ≡ true)
      → Reach (free p c) (put p false live) (put p false seen)

-- The table has each block that is seen once, and no other one.
record IsGood (h : Hash) (live seen : ℕ → Bool) : Type 0 where
  hash : IsHash h
  table : (q : ℕ) → 0 < q → noted q h ≡ (if seen q then 1 else 0)
  alive : (q : ℕ) → seen q ≡ true → live q ≡ true
  null : live 0 ≡ false

module _ (h : Hash) (live seen : ℕ → Bool) (g : IsGood h live seen) where
  info_add-IsGood :
      (p size : ℕ) (st : List Text)
      → live p ≡ false
      → IsGood (info_add p st size h) (gain p live) (gain p seen)
  info_add-IsGood p size st fresh = record {
    hash = info_add-IsHash p size st h g.hash;
    table = λ q pos. ground (arith, g.table q pos, noted-add q p size st h, g.alive p);
    alive = λ q. ground (arith, g.alive q);
    null = ground (arith, g.null);
  }

  gain-IsGood : (p : ℕ) → live p ≡ false → IsGood h (gain p live) seen
  gain-IsGood p fresh = record {
    hash = g.hash;
    table = g.table;
    alive = λ q. ground (arith, g.alive q);
    null = ground (arith, g.null);
  }

  info_del-IsGood : (p : ℕ) → IsGood (info_del p h) (put p false live) (put p false seen)
  info_del-IsGood p = record {
    hash = (info_del_lem p h g.hash).0;
    table = λ q pos. ground (arith, g.table q pos, (info_del_lem p h g.hash).1 q);
    alive = λ q. ground (arith, g.alive q);
    null = ground (arith, g.null);
  }

  malloc-IsGood :
      (b : Bool) (p size : ℕ) (st : List Text)
      → live p ≡ false
      → IsGood
          (if b then info_add p st size h else h)
          (gain p live)
          (if b then gain p seen else seen)
  malloc-IsGood true p size st fresh = info_add-IsGood p size st fresh
  malloc-IsGood false p size st fresh = gain-IsGood p fresh

  -- A block that is in use from now on, and seen where the check is on.
  put-IsGood :
      (b : Bool) (p size : ℕ) (st : List Text)
      → (p == 0) ≡ false
      → live p ≡ false
      → IsGood (if b then info_add p st size h else h) (put p true live) (put p b seen)
  put-IsGood true p size st z fresh = record {
    hash = info_add-IsHash p size st h g.hash;
    table = λ q pos. ground (arith, g.table q pos, noted-add q p size st h, g.alive p);
    alive = λ q. ground (arith, g.alive q);
    null = ground (arith, g.null, z);
  }
  put-IsGood false p size st z fresh = record {
    hash = g.hash;
    table = λ q pos. ground (arith, g.table q pos, g.alive p);
    alive = λ q. ground (arith, g.alive q);
    null = ground (arith, g.null, z);
  }

  null-IsGood : (p : ℕ) → (p == 0) ≡ true → IsGood h (put p false live) (put p false seen)
  null-IsGood p z = record {
    hash = g.hash;
    table = λ q pos. ground (arith, g.table q pos, z);
    alive = λ q. ground (arith, g.alive q);
    null = ground (arith, g.null, z);
  }

realloc-IsGood :
    (h : Hash) (live seen : ℕ → Bool)
    → IsGood h live seen
    → (b : Bool) (old p size : ℕ) (st : List Text) → (p ≡ old) ⊎ (live p ≡ false)
    → IsGood
        (if p == 0 then h else (if b then info_add p st size (info_del old h) else info_del old h))
        (if p == 0 then live else put p true (put old false live))
        (if p == 0 then seen else put p b (put old false seen))
realloc-IsGood h live seen g b old p size st fresh = elim (Bool-cases (p == 0)) [
  | inl z ↦ rw z g
  | inr z ↦ rw z (
      put-IsGood (info_del old h) (put old false live) (put old false seen)
        (info_del-IsGood h live seen g old) b p size st z (ground (arith, fresh)))
]

record Opened (h : Hash) (d : Checker) : Type 0 where
  hash : d.hash ≡ h
  opened : IsOpen d

returned :
    {p : ℕ} {h : Hash} {c : Checker} {o : Option (ℕ × Checker)} {r : ℕ} {d : Checker}
    → Returns p h c o
    → o ≡ some (r, d)
    → Opened h d
returned {h = h} v e =
    let same = some-injective _ _ (sym v.result ∙ e) in
    subst (λ x. Opened h x.1) same (record { hash = v.hash; opened = v.opened })

record Good (c : Checker) (live seen : ℕ → Bool) : Type 0 where
  good : IsGood c.hash live seen
  opened : IsOpen c

followed :
    {h : Hash} {d : Checker} {live seen : ℕ → Bool}
    → Opened h d
    → IsGood h live seen
    → Good d live seen
followed {live = live} {seen = seen} o g = record {
  good = subst (λ x. IsGood x live seen) (sym o.hash) g;
  opened = o.opened;
}

free-Good :
    (p : ℕ) (c : Checker) (live seen : ℕ → Bool)
    → Good c live seen
    → Good (free p c) (put p false live) (put p false seen)
unfolding free
free-Good p c live seen g = elim (Bool-cases (p == 0)) [
  | inl z ↦
      rw (z, free) (record { good = null-IsGood c.hash live seen g.good p z; opened = g.opened })
  | inr z ↦
      rw (z, free) (record { good = info_del-IsGood c.hash live seen g.good p; opened = g.opened })
]

Reach-Good : {c : Checker} {live seen : ℕ → Bool} → Reach c live seen → Good c live seen
unfolding mem_leaks_init mem_leaks_start mem_leaks_stop free
Reach-Good begin = record {
  good = record {
    hash = hash_init-IsHash;
    table = λ q pos. refl;
    alive = λ q e. absurd (ground arith);
    null = refl;
  };
  opened = λ tid. refl;
}
Reach-Good (step_start s) = let g = Reach-Good s in record { good = g.good; opened = g.opened }
Reach-Good (step_stop s) = let g = Reach-Good s in record { good = g.good; opened = g.opened }
Reach-Good (step_malloc {c = c} {live = live} {seen = seen} tid p size st r d s lt fresh e) =
    let g = Reach-Good s in
    followed (returned (malloc-Returns tid p st c g.opened lt size) e)
      (malloc-IsGood c.hash live seen g.good c.mem_check p size st fresh)
Reach-Good (step_calloc {c = c} {live = live} {seen = seen} tid p n size st r d s lt fresh e) =
    let g = Reach-Good s in
    followed (returned (calloc-Returns tid p st c g.opened lt n size) e)
      (malloc-IsGood c.hash live seen g.good c.mem_check p (n * size % 2 ^ 64) st fresh)
Reach-Good
      (step_realloc {c = c} {live = live} {seen = seen} tid old p size st r d s lt pos used fresh
        e) =
    let g = Reach-Good s in
    followed (returned (realloc-Returns tid p st c g.opened lt old size) e)
      (realloc-IsGood c.hash live seen g.good c.mem_check old p size st fresh)
Reach-Good (step_free {c = c} {live = live} {seen = seen} p s used) =
    free-Good p c live seen (Reach-Good s)

-- After calls of the program in any order, the report of mem_leaks_show has each block that is in
-- use and was last allocated with the check on, once, and no other block; such a block is in use; and
-- the total of the table is the length of the report. The calls that allocate or move come from
-- threads with an id below 102400, no realloc is of size 0, only what is in use is moved or freed,
-- and libc answers with 0, with a block that is not in use or, for realloc, with the same block. The
-- blocks are those that libc did allocate, so not 0.
pub Reach-reported :
    {c : Checker} {live seen : ℕ → Bool}
    → Reach c live seen
    → ((p : ℕ)
        → 0 < p
        → (times p (mem_leaks_show c) ≡ (if seen p then 1 else 0))
          × (seen p ≡ true → live p ≡ true))
      × (c.hash.total ≡ length (mem_leaks_show c))
unfolding mem_leaks_show
Reach-reported {c = c} s =
    let g = (Reach-Good s).good in
    (λ p pos. (all_buckets-noted p c.hash g.hash ∙ g.table p pos, g.alive p), g.hash.total)

-- After any calls, a call that allocates, moves or frees a block returns what libc returned, where
-- the id of the thread is below the length of `pids`: no call is left marked as under way.
pub Reach-returns :
    {c : Checker} {live seen : ℕ → Bool}
    → Reach c live seen
    → (tid p old size : ℕ) (st : List Text) → tid < max_threads
    → ((d : Checker) × (malloc tid p st size c ≡ some (p, d)) × IsOpen d)
      × ((d : Checker) × (realloc tid old p st size c ≡ some (p, d)) × IsOpen d)
Reach-returns {c = c} s tid p old size st lt =
    let o = (Reach-Good s).opened in
    let m = malloc-Returns tid p st c o lt size in
    let r = realloc-Returns tid p st c o lt old size in
    ((m.after, m.result, m.opened), (r.after, r.result, r.opened))
