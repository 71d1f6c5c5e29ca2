-- ===== src/LeakChecker.antt =====
-- demo/C/check_mem_leaks/check_mem_leaks/mem_leaks.c and mem_leaks.h: the table of the blocks that
-- were allocated while the check was on, and the four calls that replace those of libc. What
-- libc's call returns, a block or 0 for NULL, is an argument of the call that replaces it, and so
-- are the stack and the id of the thread.
pub mod Table
pub mod Replace
pub mod Report
mod Tests
use algorithm.Common.{
  ℕ, zero, suc, ◌+◌, ◌-◌, ◌*◌, ◌%◌, ◌^◌, Bool, true, false, ◌&&◌, not, Option, none, some, List, [],
  ◌∷◌, ◌++◌, length, if◌then◌else◌, ◌==◌, ltb, to_u32,
}
use algorithm.DeadLock.{Text}

pub record Info : Type 0 where
  pub p : ℕ
  pub stacktrace : List Text
  pub stacktrace_num : ℕ
  pub size : ℕ

-- A bucket is the list of its nodes.
pub record Hash : Type 0 where
  pub bucket : ℕ → List Info
  pub count : ℕ → ℕ
  pub total : ℕ

abbrev pub mem_hash_size : ℕ
mem_hash_size = 65536

abbrev pub mem_hash_key : ℕ → ℕ
mem_hash_key p = p % mem_hash_size

abbrev pub hash_init : Hash
hash_init = record { bucket = λ k. []; count = λ k. 0; total = 0 }

-- A new value at one index of an array.
abbrev pub put {ℓ} : {A : Type ℓ} → ℕ → A → (ℕ → A) → ℕ → A
put k x f j = if j == k then x else f j

pub mem_hash_add : Info → Hash → Hash
mem_hash_add info h =
    let k = mem_hash_key info.p in
    record {
      bucket = put k (info ∷ h.bucket k) h.bucket;
      count = put k (suc (h.count k)) h.count;
      total = suc h.total;
    }

-- `stlc_hlist_del` of the node that the lookup gave: the first one of the block.
abbrev pub unlink : ℕ → List Info → List Info
unlink p [] = []
unlink p (info ∷ infos) = if info.p == p then infos else info ∷ unlink p infos

pub mem_hash_del : Info → Hash → Hash
mem_hash_del info h =
    let k = mem_hash_key info.p in
    record {
      bucket = put k (unlink info.p (h.bucket k)) h.bucket;
      count = put k (h.count k - 1) h.count;
      total = h.total - 1;
    }

abbrev pub find_info : ℕ → List Info → Option Info
find_info p [] = none
find_info p (info ∷ infos) = if info.p == p then some info else find_info p infos

abbrev pub mem_hash_lookup : Hash → ℕ → Option Info
mem_hash_lookup h p = find_info p (h.bucket (mem_hash_key p))

-- The number of frames is kept in eight bits and the size in 32.
abbrev pub info_alloc : ℕ → List Text → ℕ → Info
info_alloc p stacktrace size = record {
  p = p;
  stacktrace = stacktrace;
  stacktrace_num = length stacktrace % 2 ^ 8;
  size = to_u32 size;
}

pub info_add : ℕ → List Text → ℕ → Hash → Hash
unfolding mem_hash_add
info_add p stacktrace size h = mem_hash_add (info_alloc p stacktrace size) h

pub info_del : ℕ → Hash → Hash
unfolding mem_hash_del
info_del p h = elim (mem_hash_lookup h p) [ none ↦ h | some info ↦ mem_hash_del info h ]

-- `pids` says whether a thread is outside of the calls that note a block.
pub record Checker : Type 0 where
  pub hash : Hash
  pub mem_check : Bool
  pub pids : ℕ → Bool

abbrev pub max_threads : ℕ
max_threads = 102400

pub mem_leaks_init : Checker
mem_leaks_init = record { hash = hash_init; mem_check = false; pids = λ tid. true }

pub mem_leaks_start : Checker → Checker
mem_leaks_start c = record c { mem_check = true }

pub mem_leaks_stop : Checker → Checker
mem_leaks_stop c = record c { mem_check = false }

-- `pids[GetPid()]`; past the end of the array it is `none`.
abbrev pub outside : ℕ → Checker → Option Bool
outside tid c = if ltb tid max_threads then some (c.pids tid) else none

abbrev pub set_pid : ℕ → Bool → Checker → Checker
set_pid tid b c = record c { pids = put tid b c.pids }

abbrev pub add : ℕ → List Text → ℕ → Checker → Checker
add p stacktrace size c = record c { hash = info_add p stacktrace size c.hash }

abbrev pub del : ℕ → Checker → Checker
del p c = record c { hash = info_del p c.hash }

pub realloc : ℕ → ℕ → ℕ → List Text → ℕ → Checker → Option (ℕ × Checker)
unfolding info_add info_del
realloc tid old p stacktrace size c =
    let deleted = if p == 0 then c else del old c in
    if c.mem_check
    then (elim (outside tid c) [
      | none ↦ none
      | some false ↦ some (p, deleted)
      | some true ↦
          let c1 = set_pid tid false c in
          let c2 = if p == 0 then c1 else add p stacktrace size (del old c1) in
          some (p, set_pid tid true c2)
    ])
    else some (p, deleted)

pub malloc : ℕ → ℕ → List Text → ℕ → Checker → Option (ℕ × Checker)
unfolding info_add
malloc tid p stacktrace size c =
    if c.mem_check
    then (elim (outside tid c) [
      | none ↦ none
      | some false ↦ some (p, c)
      | some true ↦ some (p, set_pid tid true (add p stacktrace size (set_pid tid false c)))
    ])
    else some (p, c)

-- The product of the two sizes is one of 64 bits.
pub calloc : ℕ → ℕ → List Text → (elements size : ℕ) → Checker → Option (ℕ × Checker)
unfolding info_add
calloc tid p stacktrace elements size c =
    if c.mem_check
    then (elim (outside tid c) [
      | none ↦ none
      | some false ↦ some (p, c)
      | some true ↦
          some (
            p,
            set_pid tid true (add p stacktrace (elements * size % 2 ^ 64) (set_pid tid false c)),
          )
    ])
    else some (p, c)

pub free : ℕ → Checker → Checker
unfolding info_del
free p c = if p == 0 then c else del p c

-- The first `n` buckets, one after the other.
pub all_buckets : ℕ → (ℕ → List Info) → List Info
all_buckets zero f = []
all_buckets (suc n) f = all_buckets n f ++ f n

-- The blocks that mem_leaks_show prints, in its order.
pub mem_leaks_show : Checker → List Info
unfolding all_buckets
mem_leaks_show c = all_buckets mem_hash_size c.hash.bucket
