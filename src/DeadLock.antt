-- ===== src/DeadLock.antt =====
-- tools/dead_lock_stub/dead_lock_stub.h and dead_lock_stub.c: a monitor of the threads that wait
-- for a mutex and of the mutexes that are held, and the search for a circle among them. A list
-- of records that are found by their key stands for each linked list. A char array is the text
-- that it holds, and a call of calloc succeeds.
pub mod Graph
pub mod Tables
use algorithm.Common.{
  ℕ, zero, suc, ◌+◌, ◌-◌, Bool, true, false, Option, none, some, List, [], ◌∷◌, ◌++◌, ltb, ◌==◌,
  if◌then◌else◌, length, take, not, find_by, modify_by, ensure_by,
}

abbrev pub Text : Type 0
Text = List ℕ

-- `thread_req_lock_t`
pub record ReqLock : Type 0 where
  pub valid : Bool
  pub t : ℕ
  pub thread_id : ℕ
  pub lock_addr : ℕ
  pub lock_name : Text
  pub file : Text
  pub line : ℕ
  pub funcname : Text
  pub stacktrace : List Text

-- `hold_lock_point_t`
pub record HoldPoint : Type 0 where
  pub file : Text
  pub line : ℕ
  pub funcname : Text
  pub stacktrace : List Text

-- `thread_hold_lock_t`
pub record HoldLock : Type 0 where
  pub point_list : List HoldPoint
  pub count : ℕ
  pub thread_id : ℕ
  pub lock_addr : ℕ
  pub lock_name : Text

-- `m_thread_apply_lock` and `m_lock_belong_thread`
pub record Monitor : Type 0 where
  pub apply : List ReqLock
  pub belong : List HoldLock

-- What a macro hands on about the place of a call.
pub record Site : Type 0 where
  pub file : Text
  pub line : ℕ
  pub funcname : Text
  pub lock_name : Text
  pub stacktrace : List Text

abbrev pub req_key : ReqLock → ℕ
req_key r = r.thread_id

pub req_lookup : ℕ → List ReqLock → Option ReqLock
req_lookup id rs = find_by req_key id rs

-- The record that calloc and the assignment of the key make.
pub req_alloc : ℕ → ReqLock
req_alloc id = record {
  valid = false;
  t = 0;
  thread_id = id;
  lock_addr = 0;
  lock_name = [];
  file = [];
  line = 0;
  funcname = [];
  stacktrace = [];
}

pub req_lookup_or_alloc : ℕ → List ReqLock → List ReqLock
unfolding req_alloc
req_lookup_or_alloc id rs = ensure_by req_key id (req_alloc id) rs

pub req_init : ℕ → ℕ → ℕ → Site → ReqLock → ReqLock
req_init now id lock site r = record r {
  thread_id = id;
  lock_addr = lock;
  t = now;
  line = site.line;
  stacktrace = site.stacktrace;
  file = take 31 site.file;
  funcname = take 31 site.funcname;
  lock_name = take 31 site.lock_name;
}

abbrev pub hold_key : HoldLock → ℕ
hold_key h = h.lock_addr

pub hold_lookup : ℕ → List HoldLock → Option HoldLock
hold_lookup lock hs = find_by hold_key lock hs

pub hold_alloc : ℕ → HoldLock
hold_alloc lock = record {
  point_list = [];
  count = 0;
  thread_id = 0;
  lock_addr = lock;
  lock_name = [];
}

pub hold_lookup_or_alloc : ℕ → List HoldLock → List HoldLock
unfolding hold_alloc
hold_lookup_or_alloc lock hs = ensure_by hold_key lock (hold_alloc lock) hs

pub point_init : Site → HoldPoint
point_init site = record {
  file = take 19 site.file;
  line = site.line;
  funcname = take 31 site.funcname;
  stacktrace = site.stacktrace;
}

pub hold_pushstack : Site → HoldLock → HoldLock
unfolding point_init
hold_pushstack site h = record h {
  point_list = point_init site ∷ h.point_list;
  count = suc h.count;
}

pub hold_popstack : HoldLock → HoldLock
hold_popstack h = elim h.point_list [
  | [] ↦ h
  | p ∷ ps ↦ record h { point_list = ps; count = h.count - 1 }
]

-- Before the mutex is taken.
pub check_before : ℕ → ℕ → ℕ → Site → Monitor → Monitor
unfolding req_lookup_or_alloc req_init
check_before now id lock site m = record m {
  apply =
      modify_by req_key id (λ r. record (req_init now id lock site r) { valid = true })
        (req_lookup_or_alloc id m.apply);
}

-- Once the mutex is taken.
pub check_after : ℕ → ℕ → Site → Monitor → Monitor
unfolding hold_lookup_or_alloc hold_pushstack
check_after id lock site m = record {
  apply = modify_by req_key id (λ r. record r { valid = false; stacktrace = [] }) m.apply;
  belong =
      modify_by hold_key lock
        (λ h. hold_pushstack site (record h { thread_id = id; lock_name = take 31 site.lock_name }))
        (hold_lookup_or_alloc lock m.belong);
}

pub check_unlock_after : ℕ → Monitor → Monitor
unfolding hold_lookup_or_alloc hold_popstack
check_unlock_after lock m = record m {
  belong = modify_by hold_key lock hold_popstack (hold_lookup_or_alloc lock m.belong);
}

-- dead_lock_stub_start_check, less the thread that it starts.
pub start_check : Monitor
start_check = record { apply = []; belong = [] }
