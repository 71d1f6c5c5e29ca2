-- ===== src/LeakChecker/Table.antt =====
-- The hash table of demo/C/check_mem_leaks/check_mem_leaks/mem_leaks.c.
use algorithm.Common.{
  ℕ, zero, suc, ◌+◌, ◌-◌, ◌<◌, ◌≡◌, ◌≢◌, ◌⊎◌, inl, inr, true, none, some, List, [], ◌∷◌, ◌++◌,
  length, arith, if◌then◌else◌, ◌==◌, ltb, bit, refl, sym, ap, subst, if_true, ◌∙◌, Bool-cases,
}
use algorithm.DeadLock.{Text}
use algorithm.LeakChecker.{
  Info, Hash, mem_hash_size, mem_hash_key, put, mem_hash_add, unlink, mem_hash_del, find_info,
  info_alloc, info_add, info_del, all_buckets, hash_init,
}

-- How often a list of notes has the block.
abbrev pub times : ℕ → List Info → ℕ
times p [] = 0
times p (info ∷ infos) = bit p info.p + times p infos

times-append : (p : ℕ) (xs ys : List Info) → times p (xs ++ ys) ≡ times p xs + times p ys
times-append p [] ys = omega arith
times-append p (x ∷ xs) ys = omega (arith, times-append p xs ys)

length-append : (xs ys : List Info) → length (xs ++ ys) ≡ length xs + length ys
length-append [] ys = omega arith
length-append (x ∷ xs) ys = omega (arith, length-append xs ys)

times-unlink : (p q : ℕ) (xs : List Info) → times p (unlink q xs) ≡ times p xs - bit p q
times-unlink p q [] = ground arith
times-unlink p q (x ∷ xs) = ground (arith, times-unlink p q xs)

length-unlink : (p : ℕ) (xs : List Info) → 0 < times p xs → suc (length (unlink p xs)) ≡ length xs
length-unlink p [] pos = absurd (omega arith)
length-unlink p (x ∷ xs) pos = ground (arith, length-unlink p xs)

-- The lookup gives a note of the block, where there is one.
find_info_lem :
    (p : ℕ) (xs : List Info)
    → ((find_info p xs ≡ none) × (times p xs ≡ 0))
      ⊎ ((info : Info) × (find_info p xs ≡ some info) × (info.p ≡ p) × (0 < times p xs))
find_info_lem p [] = inl (refl, refl)
find_info_lem p (x ∷ xs) = elim (Bool-cases (x.p == p)) [
  | inl e ↦ inr (x, rw e refl, ground arith, ground arith)
  | inr e ↦ elim (find_info_lem p xs) [
    | inl (a, b) ↦ inl (rw e a, ground arith)
    | inr (info, a, b, pos) ↦ inr (info, rw e a, b, ground arith)
  ]
]

-- The blocks of a bucket are those of its key, and the counters tell how many they are.
pub record IsHash (h : Hash) : Type 0 where
  pub keyed : (p k : ℕ) → k ≢ mem_hash_key p → times p (h.bucket k) ≡ 0
  pub counted : (k : ℕ) → h.count k ≡ length (h.bucket k)
  pub total : h.total ≡ length (all_buckets mem_hash_size h.bucket)

-- A bucket that is replaced in the first `n` buckets.
length-all_buckets :
    (n k d e : ℕ) (xs : List Info) (f : ℕ → List Info)
    → length xs + d ≡ length (f k) + e
    → length (all_buckets n (put k xs f)) + (if ltb k n then d else 0)
      ≡ length (all_buckets n f) + (if ltb k n then e else 0)
unfolding all_buckets
length-all_buckets zero k d e xs f h = ground arith
length-all_buckets (suc n) k d e xs f h = ground (
  arith,
  length-all_buckets n k d e xs f h,
  length-append (all_buckets n (put k xs f)) (put k xs f n),
  length-append (all_buckets n f) (f n),
)

times-all_buckets :
    (p n : ℕ) (f : ℕ → List Info)
    → ((k : ℕ) → k ≢ mem_hash_key p → times p (f k) ≡ 0)
    → times p (all_buckets n f)
      ≡ (if ltb (mem_hash_key p) n then times p (f (mem_hash_key p)) else 0)
unfolding all_buckets
times-all_buckets p zero f h = ground arith
times-all_buckets p (suc n) f h =
    ground (arith, times-all_buckets p n f h, times-append p (all_buckets n f) (f n), h n)

all_buckets_empty : (n : ℕ) → [] ≡ all_buckets n (λ k. [])
unfolding all_buckets
all_buckets_empty zero = refl
all_buckets_empty (suc n) = rw (sym (all_buckets_empty n)) refl

pub hash_init-IsHash : IsHash hash_init
hash_init-IsHash = record {
  keyed = λ p k e. refl;
  counted = λ k. refl;
  total = ap length (all_buckets_empty mem_hash_size);
}

-- What adding a note does to the table.
pub info_add-IsHash :
    (p size : ℕ) (st : List Text) (h : Hash) → IsHash h → IsHash (info_add p st size h)
unfolding info_add mem_hash_add
info_add-IsHash p size st h i =
    let k = mem_hash_key p in
    let xs = info_alloc p st size ∷ h.bucket k in
    record {
      keyed = λ q j e. ground (arith, i.keyed q j e);
      counted = λ j. ground (arith, i.counted j);
      total =
          ground (arith, i.total, length-all_buckets mem_hash_size k 0 1 xs h.bucket (omega arith));
    }

-- How often the table has a block.
abbrev pub noted : ℕ → Hash → ℕ
noted p h = times p (h.bucket (mem_hash_key p))

pub noted-add :
    (q p size : ℕ) (st : List Text) (h : Hash)
    → noted q (info_add p st size h) ≡ noted q h + bit q p
unfolding info_add mem_hash_add
noted-add q p size st h = ground arith

-- Taking away the first note of the block that a note has.
del-IsHash : (info : Info) (h : Hash) → IsHash h → 0 < noted info.p h → IsHash (mem_hash_del info h)
unfolding mem_hash_del
del-IsHash info h i pos =
    let k = mem_hash_key info.p in
    let xs = unlink info.p (h.bucket k) in
    let l = length-unlink info.p (h.bucket k) pos in
    record {
      keyed = λ q j e. ground (arith, i.keyed q j e, times-unlink q info.p (h.bucket j));
      counted = λ j. ground (arith, i.counted j, l);
      total =
          ground
            (arith, i.total, length-all_buckets mem_hash_size k 1 0 xs h.bucket (omega (arith, l)));
    }

noted-mem_hash_del :
    (q : ℕ) (info : Info) (h : Hash) → noted q (mem_hash_del info h) ≡ noted q h - bit q info.p
unfolding mem_hash_del
noted-mem_hash_del q info h = ground (arith, times-unlink q info.p (h.bucket (mem_hash_key q)))

-- Deleting a block takes one note of it away, where there is one.
pub info_del_lem :
    (p : ℕ) (h : Hash)
    → IsHash h
    → IsHash (info_del p h) × ((q : ℕ) → noted q (info_del p h) ≡ noted q h - bit q p)
unfolding info_del
info_del_lem p h i = elim (find_info_lem p (h.bucket (mem_hash_key p))) [
  | inl (none_found, zero_times) ↦ rw (none_found, info_del) ((i, λ q. ground (arith, zero_times)))
  | inr (info, found, same, pos) ↦
      rw (found, info_del)
        ((
          del-IsHash info h i (subst (λ x. 0 < noted x h) (sym same) pos),
          λ q. ground (arith, noted-mem_hash_del q info h, same),
        ))
]

-- All the buckets have a block as often as the bucket of its key.
pub all_buckets-noted :
    (p : ℕ) (h : Hash) → IsHash h → times p (all_buckets mem_hash_size h.bucket) ≡ noted p h
all_buckets-noted p h i =
    times-all_buckets p mem_hash_size h.bucket (i.keyed p) ∙ if_true (noted p h) 0 (in_range p)
  where
    in_range : (q : ℕ) → ltb (mem_hash_key q) mem_hash_size ≡ true
    in_range q = ground arith
