-- ===== src/TimeWheel.antt =====
-- timer/timewheel/itimer_pool/itimer_internal.c: the core of the hierarchical timing wheel, five
-- vectors of slots in which nodes are queued by their expiry.
pub mod Place
pub mod Total
pub mod Invariant
pub mod Cascade
pub mod Tick
pub mod Run
pub mod Nodes
pub mod Manager
mod Tests
use algorithm.Common.{
  to_u32, ℕ, zero, suc, ◌+◌, ◌-◌, ◌*◌, ◌/◌, ◌%◌, ◌^◌, Bool, true, false, Option, none, some, List,
  [], ◌∷◌, ◌++◌, ltb, leb, ◌==◌, if◌then◌else◌, ◌&&◌, not, length,
}

-- `itimer_node`. A slot's list is the list of the addresses of its nodes, and `linked` says that
-- the node's own `head` stands in some list. `core` says that the pointer is not NULL.
pub record Node : Type 0 where
  pub linked : Bool
  pub expires : ℕ
  pub state : ℕ
  pub arg : ℕ
  pub callback : Option ℕ
  pub core : Bool

abbrev pub state_ok : ℕ
state_ok = 0x1981

abbrev pub state_bad : ℕ
state_bad = 0x2014

-- `itimer_core`, with the memory of its nodes. `vec l i` is `core->tvecs[l]->vec[i]`, and `queued`
-- is the list of that name in itimer_internal_update, which nodes leave through their own links.
pub record Core : Type 0 where
  pub timer_jiffies : ℕ
  pub vec : ℕ → ℕ → List ℕ
  pub queued : List ℕ
  pub node : ℕ → Node

-- `a - b` of two `IUINT32`.
abbrev pub sub_u32 : ℕ → ℕ → ℕ
sub_u32 a b = (a + 2 ^ 32 - b) % 2 ^ 32

-- `(IINT32)a < 0`.
abbrev pub is_negative : ℕ → Bool
is_negative a = leb (2 ^ 31) a

abbrev pub write_node : (ℕ → Node) → ℕ → Node → ℕ → Node
write_node f p v q = if p == q then v else f q

abbrev pub write_vec : (ℕ → ℕ → List ℕ) → ℕ → ℕ → List ℕ → ℕ → ℕ → List ℕ
write_vec f l i q m j = if l == m && i == j then q else f m j

-- A node stands in a list once at most, so the first occurrence is the only one.
pub remove : ℕ → List ℕ → List ℕ
remove p [] = []
remove p (q ∷ qs) = if p == q then qs else q ∷ remove p qs

-- `ilist_del_init(&node->head)`: the node leaves whichever list it stands in.
pub ilist_del_init : ℕ → Core → Core
ilist_del_init p c = record c {
  vec = λ l i. remove p (c.vec l i);
  queued = remove p c.queued;
  node = write_node c.node p (record (c.node p) { linked = false });
}

-- `node->core = NULL`.
abbrev pub clear_core : ℕ → Core → Core
clear_core p c = record c { node = write_node c.node p (record (c.node p) { core = false }) }

-- `node->expires = expires`.
abbrev pub set_expires : ℕ → ℕ → Core → Core
set_expires p expires c = record c {
  node = write_node c.node p (record (c.node p) { expires = expires });
}

pub itimer_core_init : (ℕ → Node) → ℕ → Core
itimer_core_init node jiffies = record {
  timer_jiffies = jiffies;
  vec = λ l i. [];
  queued = [];
  node = node;
}

pub itimer_node_init : ℕ → Option ℕ → ℕ → Core → Core
itimer_node_init p fn arg c = record c {
  node = write_node c.node p (record {
    linked = false;
    expires = 0;
    state = state_ok;
    arg = arg;
    callback = fn;
    core = false;
  });
}

-- The slot of itimer_internal_add: the vector and the index in it.
pub slot_of : ℕ → ℕ → ℕ × ℕ
slot_of jiffies expires =
    let idx = sub_u32 expires jiffies in
    if ltb idx (2 ^ 8)
    then (0, expires % 2 ^ 8)
    else if ltb idx (2 ^ 14)
    then (1, expires / 2 ^ 8 % 2 ^ 6)
    else if ltb idx (2 ^ 20)
    then (2, expires / 2 ^ 14 % 2 ^ 6)
    else if ltb idx (2 ^ 26)
    then (3, expires / 2 ^ 20 % 2 ^ 6)
    else if is_negative idx
    then (0, jiffies % 2 ^ 8)
    else (4, expires / 2 ^ 26 % 2 ^ 6)

pub itimer_internal_add : ℕ → Core → Core
unfolding slot_of
itimer_internal_add p c =
    let (l, i) = slot_of c.timer_jiffies (c.node p).expires in
    record c {
      vec = write_vec c.vec l i (c.vec l i ++ p ∷ []);
      node = write_node c.node p (record (c.node p) { linked = true; core = true });
    }

-- The loop of itimer_internal_cascade over the nodes of its local list.
pub cascade_loop : List ℕ → Core → Core
cascade_loop [] c = c
cascade_loop (p ∷ ps) c = cascade_loop ps (
    itimer_internal_add p
      (record c { node = write_node c.node p (record (c.node p) { linked = false }) }))

pub itimer_internal_cascade : ℕ → ℕ → Core → Core
unfolding cascade_loop itimer_internal_add
itimer_internal_cascade l index c =
    cascade_loop (c.vec l index) (record c { vec = write_vec c.vec l index [] })

-- `ITIMER_INDEX(C, N)`.
abbrev pub itimer_index : Core → ℕ → ℕ
itimer_index c n = c.timer_jiffies / 2 ^ (8 + n * 6) % 2 ^ 6

-- The nested tests of itimer_internal_update: each vector is cascaded only when the one below it
-- comes round.
pub cascades : Core → Core
unfolding itimer_internal_cascade
cascades c =
    let c1 = itimer_internal_cascade 1 (itimer_index c 0) c in
    let c2 = itimer_internal_cascade 2 (itimer_index c1 1) c1 in
    let c3 = itimer_internal_cascade 3 (itimer_index c2 2) c2 in
    let c4 = itimer_internal_cascade 4 (itimer_index c3 3) c3 in
    if not (c.timer_jiffies % 2 ^ 8 == 0)
    then c
    else if not (itimer_index c 0 == 0)
    then c1
    else if not (itimer_index c1 1 == 0)
    then c2
    else if not (itimer_index c2 2 == 0)
    then c3
    else c4

-- `timer_jiffies++`, and the slot that has come up is spliced into `queued`.
pub advance : Core → Core
advance c =
    let index = c.timer_jiffies % 2 ^ 8 in
    record c {
      timer_jiffies = to_u32 (c.timer_jiffies + 1);
      vec = write_vec c.vec 0 index [];
      queued = c.vec 0 index;
    }

-- A callback may change the rest of the program, `E`, and the core through its functions.
module _ {E : Type 0} (call : ℕ → ℕ → E × Core → E × Core) where
  -- One round of the loop over `queued`, at its first node.
  pub fire : ℕ → E × Core → E × Core
  unfolding ilist_del_init
  fire p (e, c) =
      let c' = clear_core p (ilist_del_init p c) in
      elim (c.node p).callback [ none ↦ (e, c') | some fn ↦ call fn (c.node p).arg (e, c') ]

  -- `while (!ilist_is_empty(&queued))`; `none` is the fuel running out, here and below.
  pub queued_loop : ℕ → E × Core → Option (E × Core)
  queued_loop zero s = none
  queued_loop (suc f) s = elim s.1.queued [ [] ↦ some s | p ∷ ps ↦ queued_loop f (fire p s) ]

  -- The body of the outer loop of itimer_internal_update: one tick. Nodes join the local list
  -- only before its loop, so a round for each of them is fuel enough.
  pub tick : E × Core → Option (E × Core)
  unfolding queued_loop cascades advance
  tick (e, c) = let c' = advance (cascades c) in queued_loop (suc (length c'.queued)) (e, c')

  -- The outer loop, with the ticks left.
  pub update_loop : ℕ → ℕ → E × Core → Option (E × Core)
  update_loop zero jiffies s = none
  update_loop (suc n) jiffies s =
      if is_negative (sub_u32 jiffies s.1.timer_jiffies)
      then some s
      else elim (tick s) [ none ↦ none | some s' ↦ update_loop n jiffies s' ]

  -- The loop makes a round for each tick up to `jiffies`, and one more to see that it is over.
  pub itimer_core_run : ℕ → E × Core → Option (E × Core)
  unfolding update_loop tick
  itimer_core_run jiffies s = update_loop (sub_u32 jiffies s.1.timer_jiffies + 2) jiffies s

-- What itimer_node_del returns, -1, 0 and 1, or that its assertion `node->core != NULL` fails.
pub data DelResult : Type 0 where
  bad_state not_pending deleted no_core : DelResult

-- The functions return early at a bad state; a build with assertions stops there instead.
pub itimer_node_add : ℕ → ℕ → Core → Core
unfolding ilist_del_init itimer_internal_add
itimer_node_add p expires c =
    let c' : Core = if (c.node p).linked then clear_core p (ilist_del_init p c) else c in
    if (c.node p).state == state_ok then itimer_internal_add p (set_expires p expires c') else c

pub itimer_node_del : ℕ → Core → DelResult × Core
unfolding ilist_del_init
itimer_node_del p c =
    if (c.node p).state == state_ok
    then (if (c.node p).linked
        then (if (c.node p).core
            then (deleted, clear_core p (ilist_del_init p c))
            else (no_core, c))
        else (not_pending, c))
    else (bad_state, c)

abbrev pub stops : DelResult → Bool
stops no_core = true
stops bad_state = false
stops not_pending = false
stops deleted = false

pub itimer_node_mod : ℕ → ℕ → Core → DelResult × Core
unfolding itimer_node_del itimer_node_add
itimer_node_mod p expires c =
    let r = itimer_node_del p c in if stops r.0 then r else (r.0, itimer_node_add p expires r.1)

pub itimer_node_destroy : ℕ → Core → Core
unfolding ilist_del_init
itimer_node_destroy p c =
    let c' : Core = if (c.node p).linked then clear_core p (ilist_del_init p c) else c in
    if (c.node p).state == state_ok
    then record c' {
      node = write_node c'.node p (record {
        linked = (c'.node p).linked;
        expires = 0;
        state = state_bad;
        arg = 0;
        callback = none;
        core = false;
      });
    }
    else c
