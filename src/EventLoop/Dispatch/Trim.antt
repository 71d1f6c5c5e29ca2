-- ===== src/EventLoop/Dispatch/Trim.antt =====
-- cl_thread_trim_head of framework/zebra_epoll/cl_thread.c, on a list with a thread and without.
use algorithm.Common.{ℕ, ◌<◌, ◌≡◌, true, false, arith, ◌==◌, if_true, if_false}
use algorithm.EventLoop.{Master, head, trim_head, list_del}

pub trim_head-found :
    (q : ℕ) (m : Master)
    → 0 < head (m.lists q)
    → trim_head q m ≡ (head (m.lists q), list_del (head (m.lists q)) m)
unfolding trim_head
trim_head-found q m pos =
    let some_head : (head (m.lists q) == 0) ≡ false = ground arith in
    if_false (0, m) (head (m.lists q), list_del (head (m.lists q)) m) some_head

pub trim_head-empty : (q : ℕ) (m : Master) → head (m.lists q) ≡ 0 → trim_head q m ≡ (0, m)
unfolding trim_head
trim_head-empty q m none_left =
    let no_head : (head (m.lists q) == 0) ≡ true = ground arith in
    if_true (0, m) (head (m.lists q), list_del (head (m.lists q)) m) no_head
