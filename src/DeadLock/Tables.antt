-- ===== src/DeadLock/Tables.antt =====
-- The two tables as the macros around pthread_mutex_lock and pthread_mutex_unlock keep them.
use algorithm.Common.{
  ℕ, suc, ◌-◌, ◌≤◌, ◌≡◌, ◌≢◌, refl, sym, ap, ◌∙◌, true, false, Option, none, some, List, [], ◌∷◌,
  ◌==◌, length, arith, Bool-cases, inl, inr, subst, take, find_by, modify_by, ensure_by, number_by,
  number-modify_by, find-modify_self, find-modify_other, ensure_lem, find-modify_none, none-ne-some,
  some-injective, Option-cases,
}
use algorithm.DeadLock.{
  ReqLock, HoldLock, HoldPoint, Monitor, Site, req_key, req_lookup, req_alloc, req_lookup_or_alloc,
  req_init, hold_key, hold_lookup, hold_alloc, hold_lookup_or_alloc, hold_pushstack, hold_popstack,
  check_before, check_after, check_unlock_after, start_check,
}

-- A thread has one request at most, a lock one record, and the count of a record that is found is
-- the number of its points.
pub record IsMonitor (m : Monitor) : Type 0 where
  pub threads : (x : ℕ) → number_by req_key x m.apply ≤ 1
  pub locks : (l : ℕ) → number_by hold_key l m.belong ≤ 1
  pub points :
      (l : ℕ) (h : HoldLock) → hold_lookup l m.belong ≡ some h → h.count ≡ length h.point_list

-- How often a lock is held.
pub held_count : ℕ → List HoldLock → ℕ
unfolding hold_lookup
held_count l hs = elim (hold_lookup l hs) [ none ↦ 0 | some h ↦ h.count ]

-- No record but those of the thread and of the lock changes.
pub record Apart (id lock : ℕ) (m n : Monitor) : Type 0 where
  pub threads : (x : ℕ) → x ≢ id → req_lookup x n.apply ≡ req_lookup x m.apply
  pub locks : (l : ℕ) → l ≢ lock → hold_lookup l n.belong ≡ hold_lookup l m.belong

pub start_check-IsMonitor : IsMonitor start_check
unfolding start_check hold_lookup
start_check-IsMonitor = record {
  threads = λ x. omega arith;
  locks = λ x. omega arith;
  points = λ l h e. absurd (none-ne-some h e);
}

-- What deadlockcheck_before makes of the tables.
pub record Waiting (now id lock : ℕ) (m n : Monitor) : Type 0 where
  pub monitor : IsMonitor n
  pub request :
      (r : ReqLock) × (req_lookup id n.apply ≡ some r)
      × (r.valid ≡ true)
      × (r.lock_addr ≡ lock)
      × (r.t ≡ now)
  pub apart : (x : ℕ) → x ≢ id → req_lookup x n.apply ≡ req_lookup x m.apply
  pub holds : n.belong ≡ m.belong

-- deadlockcheck_before records that the thread waits for the lock since now, and changes no other
-- thread's request and no lock.
pub check_before-Waiting :
    (now id lock : ℕ) (site : Site) (m : Monitor)
    → IsMonitor m
    → Waiting now id lock m (check_before now id lock site m)
unfolding check_before req_lookup req_lookup_or_alloc req_alloc req_init
check_before-Waiting now id lock site m w =
    let made = ensure_lem req_key id (req_alloc id) m.apply refl in
    let write : ReqLock → ReqLock = λ r. record (req_init now id lock site r) { valid = true } in
    let start =
      elim (find_by req_key id m.apply)
        as (λ o.
          (r : ReqLock) × (elim o as (λ x. Option ReqLock) [
            | none ↦ some (req_alloc id)
            | some a ↦ some a
          ]
            ≡ some r)) [ none ↦ (req_alloc id, refl) | some a ↦ (a, refl) ] in
    record {
      monitor = record {
        threads = λ x. omega (
          arith,
          number-modify_by req_key x id write (ensure_by req_key id (req_alloc id) m.apply)
              (λ r e. refl),
          made.single w.threads x,
        );
        locks = w.locks;
        points = w.points;
      };
      request = (
        write start.0,
        find-modify_self req_key id write (ensure_by req_key id (req_alloc id) m.apply)
            (made.found ∙ start.1) (λ r e. refl),
        refl,
        refl,
        refl,
      );
      apart = λ x ne.
          find-modify_other req_key x id write (ensure_by req_key id (req_alloc id) m.apply) ne
            (λ r e. refl)
          ∙ made.other x ne;
      holds = refl;
    }

-- The list of locks after a change of one record, which is new where there was none.
record Changed (lock : ℕ) (f : HoldLock → HoldLock) (hs ks : List HoldLock) : Type 0 where
  single : ((l : ℕ) → number_by hold_key l hs ≤ 1) → (l : ℕ) → number_by hold_key l ks ≤ 1
  old : HoldLock
  found : hold_lookup lock ks ≡ some (f old)
  count : old.count ≡ held_count lock hs
  points :
      ((h : HoldLock) → hold_lookup lock hs ≡ some h → h.count ≡ length h.point_list)
      → old.count ≡ length old.point_list
  other : (l : ℕ) → l ≢ lock → hold_lookup l ks ≡ hold_lookup l hs

start_lem :
    (lock : ℕ) (hs : List HoldLock)
    → (h : HoldLock) × ((elim (hold_lookup lock hs) as (λ x. Option HoldLock) [
      | none ↦ some (hold_alloc lock)
      | some a ↦ some a
    ])
        ≡ some h)
      × (h.count ≡ held_count lock hs)
      × (((a : HoldLock) → hold_lookup lock hs ≡ some a → a.count ≡ length a.point_list)
          → h.count ≡ length h.point_list)
unfolding held_count hold_alloc
start_lem lock hs = elim (Option-cases (hold_lookup lock hs)) [
  | inl e ↦ (
    hold_alloc lock,
    ap (λ o. elim o as (λ x. Option HoldLock) [ none ↦ some (hold_alloc lock) | some a ↦ some a ])
        e,
    sym (ap (λ (o : Option HoldLock). elim o as (λ x. ℕ) [ none ↦ 0 | some h ↦ h.count ]) e),
    λ h. refl,
  )
  | inr (a, e) ↦ (
    a,
    ap (λ o. elim o as (λ x. Option HoldLock) [ none ↦ some (hold_alloc lock) | some a ↦ some a ])
        e,
    sym (ap (λ (o : Option HoldLock). elim o as (λ x. ℕ) [ none ↦ 0 | some h ↦ h.count ]) e),
    λ h. h a e,
  )
]

change_lem :
    (lock : ℕ) (f : HoldLock → HoldLock) (hs : List HoldLock)
    → ((h : HoldLock) → (f h).lock_addr ≡ h.lock_addr)
    → Changed lock f hs (modify_by hold_key lock f (hold_lookup_or_alloc lock hs))
unfolding hold_lookup_or_alloc hold_lookup hold_alloc
change_lem lock f hs g =
    let made = ensure_lem hold_key lock (hold_alloc lock) hs refl in
    let keeps : (h : HoldLock) → h.lock_addr ≡ lock → (f h).lock_addr ≡ lock = λ h e. g h ∙ e in
    let all = ensure_by hold_key lock (hold_alloc lock) hs in
    let start = start_lem lock hs in
    record {
      single = λ s l. omega (arith, number-modify_by hold_key l lock f all keeps, made.single s l);
      old = start.0;
      found = find-modify_self hold_key lock f all (made.found ∙ start.1) keeps;
      count = start.2;
      points = start.3;
      other = λ l ne. find-modify_other hold_key l lock f all ne keeps ∙ made.other l ne;
    }

-- A change that keeps each count right keeps the counts right.
points_lem :
    {lock : ℕ} {f : HoldLock → HoldLock} {hs ks : List HoldLock}
    → Changed lock f hs ks
    → ((h : HoldLock) → h.count ≡ length h.point_list → (f h).count ≡ length (f h).point_list)
    → ((l : ℕ) (h : HoldLock) → hold_lookup l hs ≡ some h → h.count ≡ length h.point_list)
    → (l : ℕ) (h : HoldLock) → hold_lookup l ks ≡ some h
    → h.count ≡ length h.point_list
points_lem {lock} {f} {hs} {ks} c g w l h e = elim (Bool-cases (l == lock)) [
  | inl r ↦
      let eq : l ≡ lock = ground arith in
      let same : f c.old ≡ h =
        some-injective (f c.old) h (sym c.found ∙ ap (λ k. hold_lookup k ks) (sym eq) ∙ e) in
      subst (λ (k : HoldLock). k.count ≡ length k.point_list) same (g c.old (c.points (w lock)))
  | inr r ↦ w l h (sym (c.other l (ground arith)) ∙ e)
]

-- What deadlockcheck_after makes of the tables.
pub record Held (id lock : ℕ) (m n : Monitor) : Type 0 where
  pub monitor : IsMonitor n
  pub owner : (h : HoldLock) × (hold_lookup lock n.belong ≡ some h) × (h.thread_id ≡ id)
  pub count : held_count lock n.belong ≡ suc (held_count lock m.belong)
  pub request : (r : ReqLock) → req_lookup id n.apply ≡ some r → r.valid ≡ false
  pub apart : Apart id lock m n

-- deadlockcheck_after makes the thread the owner of the lock, which is held once more than before,
-- and ends its wait; no other thread's request and no other lock changes.
pub check_after-Held :
    (id lock : ℕ) (site : Site) (m : Monitor)
    → IsMonitor m
    → Held id lock m (check_after id lock site m)
unfolding check_after req_lookup hold_pushstack held_count
check_after-Held id lock site m w =
    let f : HoldLock → HoldLock =
      λ h. hold_pushstack site (record h { thread_id = id; lock_name = take 31 site.lock_name }) in
    let c = change_lem lock f m.belong (λ h. refl) in
    let quit : ReqLock → ReqLock = λ r. record r { valid = false; stacktrace = [] } in
    record {
      monitor = record {
        threads =
            λ x. omega (arith, number-modify_by req_key x id quit m.apply (λ r e. e), w.threads x);
        locks = c.single w.locks;
        points = points_lem c (λ h e. ap suc e) w.points;
      };
      owner = (f c.old, c.found, refl);
      count =
          ap (λ (o : Option HoldLock). elim o as (λ x. ℕ) [ none ↦ 0 | some h ↦ h.count ]) c.found
          ∙ ap suc c.count;
      request = λ r e. elim (Option-cases (find_by req_key id m.apply)) [
        | inl n ↦ absurd (none-ne-some r (sym (find-modify_none req_key id quit m.apply n) ∙ e))
        | inr (a, n) ↦
            let same : quit a ≡ r =
              some-injective (quit a) r
                (sym (find-modify_self req_key id quit m.apply n (λ r e. e)) ∙ e) in
            ap (λ (k : ReqLock). k.valid) (sym same)
      ];
      apart = record {
        threads = λ x ne. find-modify_other req_key x id quit m.apply ne (λ r e. e);
        locks = c.other;
      };
    }

-- What deadlockcheck_unlock_after makes of the tables.
pub record Freed (lock : ℕ) (m n : Monitor) : Type 0 where
  pub monitor : IsMonitor n
  pub count : held_count lock n.belong ≡ held_count lock m.belong - 1
  pub requests : n.apply ≡ m.apply
  pub locks : (l : ℕ) → l ≢ lock → hold_lookup l n.belong ≡ hold_lookup l m.belong

popstack_lem :
    (ps : List HoldPoint) (h : HoldLock)
    → h.count ≡ length ps
    → (hold_popstack (record h { point_list = ps })).count
      ≡ length (hold_popstack (record h { point_list = ps })).point_list
unfolding hold_popstack
popstack_lem [] h e = e
popstack_lem (p ∷ ps) h e = omega (arith, e)

popstack_count :
    (ps : List HoldPoint) (h : HoldLock)
    → h.count ≡ length ps
    → (hold_popstack (record h { point_list = ps })).count ≡ h.count - 1
unfolding hold_popstack
popstack_count [] h e = omega (arith, e)
popstack_count (p ∷ ps) h e = refl

popstack_key :
    (ps : List HoldPoint) (h : HoldLock)
    → (hold_popstack (record h { point_list = ps })).lock_addr ≡ h.lock_addr
unfolding hold_popstack
popstack_key [] h = refl
popstack_key (p ∷ ps) h = refl

-- deadlockcheck_unlock_after takes away the last of the lock's points, where it has one, and
-- changes no other lock and no request.
pub check_unlock_after-Freed :
    (lock : ℕ) (m : Monitor) → IsMonitor m → Freed lock m (check_unlock_after lock m)
unfolding check_unlock_after held_count
check_unlock_after-Freed lock m w =
    let c = change_lem lock hold_popstack m.belong (λ h. popstack_key h.point_list h) in
    record {
      monitor = record {
        threads = w.threads;
        locks = c.single w.locks;
        points = points_lem c (λ h e. popstack_lem h.point_list h e) w.points;
      };
      count =
          ap (λ (o : Option HoldLock). elim o as (λ x. ℕ) [ none ↦ 0 | some h ↦ h.count ]) c.found
          ∙ popstack_count c.old.point_list c.old (c.points (w.points lock))
          ∙ ap (λ k. k - 1) c.count;
      requests = refl;
      locks = c.other;
    }
