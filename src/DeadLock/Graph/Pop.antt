-- ===== src/DeadLock/Graph/Pop.antt =====
-- One turn of the outer loop of _check_dead_lock_stub, and the loop.
use algorithm.Common.{
  ℕ, zero, suc, ◌+◌, ◌<◌, ◌≤◌, ◌≡◌, refl, ap, ◌∙◌, Bool, true, false, Option, none, some, List, [],
  ◌∷◌, ◌==◌, if◌then◌else◌, length, arith, Bool-cases, inl, inr, if_false, count,
}
use algorithm.DeadLock.Graph.{Vertex, vertex_lookup, Search, release, drain}
use algorithm.DeadLock.Graph.Sum.{sum, only, number, links, sum-only, find, sum-add, sum_mono}
use algorithm.DeadLock.Graph.Kahn.{
  rest, is_ready, IsCircle, IsSearch, busy, links-rest, ready-length, release_lem,
}

module _ {g gr : List Vertex} {p : ℕ → Bool} {n : ℕ} (a : ℕ) (q : List ℕ) (c : ℕ)
    (w : IsSearch g p n [] (record { graphics = gr; queue = a ∷ q; counter = c })) where
  -- The thread that is popped is ready, so it has a vertex and has not been taken away.
  few : sum (only a is_ready) gr ≤ number a gr
  few = sum_mono _ _ gr (λ v. ground arith)

  there : (v : Vertex) × (vertex_lookup a gr ≡ some v)
  there = find a gr (ground (arith, few, w.queued a))

  fresh : p a ≡ false
  fresh = ground (arith, few, w.queued a, w.single a)

  -- It is in no circle: somebody of the circle that is not taken away would wait for it.
  outside : (s : ℕ → Bool) → IsCircle g s → s a ≡ false
  outside s h = elim (Bool-cases (s a)) [
    | inl e ↦
        let waits = h a e in
        absurd (
          ground (
            arith,
            w.same waits.0 a,
            waits.2,
            links-rest p waits.0 a gr (w.safe s h waits.0 waits.1),
            w.balance a,
            busy a gr (w.single a),
            w.queued a,
          ))
    | inr e ↦ e
  ]

  abbrev taken : ℕ → Bool
  taken x = if x == a then true else p x

  rest-taken : (y : ℕ) → rest p y gr ≡ rest taken y gr + links a y gr
  rest-taken y = sum-add _ _ _ gr (λ v. elim (Bool-cases (v.thread_id == a)) [
    | inl e ↦ let eq : v.thread_id ≡ a = ground arith in ground (arith, ap p eq, fresh)
    | inr e ↦ ground arith
  ])

  pop-IsSearch :
      IsSearch g taken (suc n) there.0.threads (record { graphics = gr; queue = q; counter = c })
  pop-IsSearch = record {
    single = w.single;
    balance = λ y. omega (
      arith,
      rest-taken y,
      w.balance y,
      sum-only (λ v. count y v.threads) a gr (w.single a) there.1,
    );
    queued = λ y. elim (Bool-cases (y == a)) [
      | inl e ↦ let eq : y ≡ a = ground arith in ground (arith, w.queued y, ap p eq, fresh)
      | inr e ↦ ground (arith, w.queued y)
    ];
    counted = w.counted;
    sized = omega (arith, w.sized);
    same = w.same;
    size = w.size;
    safe = λ s h y r. elim (Bool-cases (y == a)) [
      | inl e ↦ let eq : y ≡ a = ground arith in absurd (ground (arith, outside s h, ap s eq))
      | inr e ↦ if_false true (p y) e ∙ w.safe s h y r
    ];
  }

-- The loop ends, with nothing in the queue, on fuel for the vertices that are not taken away.
pub drain_lem :
    (fuel : ℕ) {g : List Vertex} {p : ℕ → Bool} {n : ℕ} (gr : List Vertex) (q : List ℕ) (c : ℕ)
    → length g ≤ 100
    → length g < fuel + n
    → IsSearch g p n [] (record { graphics = gr; queue = q; counter = c })
    → (p' : ℕ → Bool) × (n' : ℕ) × (t : Search) × (drain fuel
          (record { graphics = gr; queue = q; counter = c })
        ≡ some t)
      × IsSearch g p' n' [] t
      × (t.queue ≡ [])
unfolding drain
drain_lem zero gr q c h f w = absurd (omega (arith, w.sized, w.counted, w.size, ready-length gr))
drain_lem (suc fuel) {g} {p} {n} gr [] c h f w =
    (p, n, record { graphics = gr; queue = []; counter = c }, refl, w, refl)
drain_lem (suc fuel) {g} {p} {n} gr (a ∷ q) c h f w =
    let found = there a q c w in
    let freed = release_lem found.0.threads h (pop-IsSearch a q c w) in
    let t = freed.0 in
    let more = drain_lem fuel t.graphics t.queue t.counter h (omega arith) freed.2 in
    (
      more.0,
      more.1,
      more.2,
      ap
            (λ o. elim o as (λ x. Option Search) [
              | none ↦ none
              | some v ↦
                  elim (release v.threads (record { graphics = gr; queue = q; counter = c }))
                    as (λ x. Option Search) [ none ↦ none | some s' ↦ drain fuel s' ]
            ])
            found.1
          ∙ ap (λ o. elim o as (λ x. Option Search) [ none ↦ none | some s' ↦ drain fuel s' ])
              freed.1
          ∙ more.3,
      more.4,
      more.5,
    )
