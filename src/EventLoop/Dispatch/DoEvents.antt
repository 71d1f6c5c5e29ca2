-- ===== src/EventLoop/Dispatch/DoEvents.antt =====
-- cl_thread_do_event of framework/zebra_epoll/cl_thread.c on all the answers of one epoll_wait.
use algorithm.Common.{
  ℕ, ◌<◌, ◌≡◌, inl, inr, Bool, true, false, Option, none, some, List, [], ◌∷◌, arith, ◌||◌,
  Bool-cases, ◌∙◌, ap, refl,
}
use algorithm.EventLoop.{Master, thread_ready}
use algorithm.EventLoop.Dispatch.{EpollEvent, do_events}
use algorithm.EventLoop.Dispatch.Invariant.{IsConsistent}
use algorithm.EventLoop.Dispatch.DoEvent.{
  Reported, do_event-Reported, HasSides, reports_read, reports_write,
}

abbrev pub AreKnown : Master → List EpollEvent → Type 0
AreKnown m [] = Unit
AreKnown m (ev ∷ evs) = (m.in_tree ev.fd ≡ true) × AreKnown m evs

pub AreKnown-same :
    (m r : Master) (evs : List EpollEvent) → r.in_tree ≡ m.in_tree → AreKnown m evs → AreKnown r evs
AreKnown-same m r [] e k = tt
AreKnown-same m r (ev ∷ evs) e k =
    (ap (λ (f : ℕ → Bool). f ev.fd) e ∙ k.0, AreKnown-same m r evs e k.1)

-- Whether one of the events reports a thread.
abbrev pub reports : List EpollEvent → Master → Bool
reports [] m = false
reports (ev ∷ evs) m = reports_read ev m || reports_write ev m || reports evs m

pub reports-same :
    (evs : List EpollEvent) (m r : Master) → HasSides m r → reports evs r ≡ reports evs m
reports-same [] m r h = refl
reports-same (ev ∷ evs) m r h = ground (arith, h ev.fd, reports-same evs m r h)

-- A ready thread of the master.
abbrev pub IsReady : Master → ℕ → Type 0
IsReady r t = (0 < t) × (t < r.next) × ((r.thread t).type ≡ thread_ready)

-- An event that reports a thread makes one ready.
do_event-IsReady :
    (ev : EpollEvent) (m : Master) (c : IsConsistent m) (k : m.in_tree ev.fd ≡ true)
    (e : Reported ev m)
    → (reports_read ev m || reports_write ev m) ≡ true
    → (t : ℕ) × IsReady e.r t
do_event-IsReady ev m c k e y = elim (Bool-cases (reports_read ev m)) [
  | inl a ↦ (
    (m.socket ev.fd).t_read,
    ground (arith, e.type (m.socket ev.fd).t_read, e.next, c.linked.reader ev.fd k),
  )
  | inr a ↦ (
    (m.socket ev.fd).t_write,
    ground (arith, e.type (m.socket ev.fd).t_write, e.next, c.linked.writer ev.fd k),
  )
]

-- What the answers of one epoll_wait leave.
pub record AllReported (evs : List EpollEvent) (m : Master) : Type 0 where
  pub r : Master
  pub result : do_events evs m ≡ some r
  pub consistent : IsConsistent r
  pub in_tree : r.in_tree ≡ m.in_tree
  pub next : r.next ≡ m.next
  pub woken : reports evs m ≡ true → (t : ℕ) × IsReady r t
  pub stays : (x : ℕ) → (m.thread x).type ≡ thread_ready → (r.thread x).type ≡ thread_ready

one_more :
    (ev : EpollEvent) (evs : List EpollEvent) (m : Master) (c : IsConsistent m)
    (k : m.in_tree ev.fd ≡ true) (e : Reported ev m)
    → AllReported evs e.r
    → AllReported (ev ∷ evs) m
unfolding do_events
one_more ev evs m c k e d = record {
  r = d.r;
  result =
      ap (λ (o : Option Master). elim o [ none ↦ none | some m1 ↦ do_events evs m1 ]) e.result
      ∙ d.result;
  consistent = d.consistent;
  in_tree = d.in_tree ∙ e.in_tree;
  next = d.next ∙ e.next;
  woken = λ y. elim (Bool-cases (reports_read ev m || reports_write ev m)) [
    | inl a ↦
        let (t, w) = do_event-IsReady ev m c k e a in
        (t, (w.0, omega (arith, w.1, d.next), d.stays t w.2))
    | inr a ↦ d.woken (ground (arith, reports-same evs m e.r e.sides))
  ];
  stays = λ x y. d.stays x (ground (arith, e.type x));
}

pub do_events-AllReported :
    (evs : List EpollEvent) (m : Master) → IsConsistent m → AreKnown m evs → AllReported evs m
unfolding do_events
do_events-AllReported [] m c k = record {
  r = m;
  result = refl;
  consistent = c;
  in_tree = refl;
  next = refl;
  woken = λ e. absurd (ground arith);
  stays = λ x e. e;
}
do_events-AllReported (ev ∷ evs) m c k =
    let e : Reported ev m = do_event-Reported ev m c k.0 in
    one_more ev evs m c k.0 e
      (do_events-AllReported evs e.r e.consistent (AreKnown-same m e.r evs e.in_tree k.1))
