-- ===== src/EventLoop/Dispatch/Log.antt =====
-- The calls of epoll_ctl that framework/zebra_epoll/cl_thread.c makes, as a log: what epoll has
-- been told about a descriptor, the last call first.
use algorithm.Common.{
  ℕ, Bool, true, false, ◌&&◌, not, List, [], ◌∷◌, if◌then◌else◌, ◌==◌, ◌≡◌, refl, sym, ap, arith,
}
use algorithm.EventLoop.{Ctl, ctl_add, ctl_mod, ctl_del, add_or_mod}

-- Whether epoll has the descriptor, after the calls of a log. A call that epoll refuses changes
-- nothing: to add a descriptor that it has (EEXIST), or to modify or remove one that it has not
-- (ENOENT).
abbrev pub registered : List Ctl → ℕ → Bool
registered [] fd = false
registered (ctl_add f i o ∷ cs) fd = if f == fd then true else registered cs fd
registered (ctl_mod f i o ∷ cs) fd = registered cs fd
registered (ctl_del f ∷ cs) fd = if f == fd then false else registered cs fd

-- Whether epoll watches it for input.
abbrev pub watches_in : List Ctl → ℕ → Bool
watches_in [] fd = false
watches_in (ctl_add f i o ∷ cs) fd =
    if f == fd && not (registered cs fd) then i else watches_in cs fd
watches_in (ctl_mod f i o ∷ cs) fd = if f == fd && registered cs fd then i else watches_in cs fd
watches_in (ctl_del f ∷ cs) fd = if f == fd then false else watches_in cs fd

-- Whether epoll watches it for output.
abbrev pub watches_out : List Ctl → ℕ → Bool
watches_out [] fd = false
watches_out (ctl_add f i o ∷ cs) fd =
    if f == fd && not (registered cs fd) then o else watches_out cs fd
watches_out (ctl_mod f i o ∷ cs) fd = if f == fd && registered cs fd then o else watches_out cs fd
watches_out (ctl_del f ∷ cs) fd = if f == fd then false else watches_out cs fd

-- No descriptor is added while it is registered, or modified while it is not: epoll refuses
-- both calls.
abbrev pub IsOrderly : List Ctl → Type 0
IsOrderly [] = Unit
IsOrderly (ctl_add f i o ∷ cs) = (registered cs f ≡ false) × IsOrderly cs
IsOrderly (ctl_mod f i o ∷ cs) = (registered cs f ≡ true) × IsOrderly cs
IsOrderly (ctl_del f ∷ cs) = IsOrderly cs

-- What a call that arms a descriptor does to the log.
pub add_or_mod-IsOrderly :
    (added : Bool) (fd : ℕ) (i o : Bool) (cs : List Ctl)
    → added ≡ registered cs fd
    → IsOrderly cs
    → IsOrderly (add_or_mod added fd i o ∷ cs)
unfolding add_or_mod
add_or_mod-IsOrderly true fd i o cs e h = (sym e, h)
add_or_mod-IsOrderly false fd i o cs e h = (sym e, h)

pub registered-add_or_mod :
    (added : Bool) (fd f : ℕ) (i o : Bool) (cs : List Ctl)
    → added ≡ registered cs fd
    → registered (add_or_mod added fd i o ∷ cs) f ≡ (if fd == f then true else registered cs f)
unfolding add_or_mod
registered-add_or_mod true fd f i o cs e = ground arith
registered-add_or_mod false fd f i o cs e = refl

registered-same : (fd f : ℕ) (cs : List Ctl) → (fd == f) ≡ true → registered cs fd ≡ registered cs f
registered-same fd f cs e = let same : fd ≡ f = ground arith in ap (registered cs) same

pub watches_in-add_or_mod :
    (added : Bool) (fd f : ℕ) (i o : Bool) (cs : List Ctl)
    → added ≡ registered cs fd
    → watches_in (add_or_mod added fd i o ∷ cs) f ≡ (if fd == f then i else watches_in cs f)
unfolding add_or_mod
watches_in-add_or_mod true fd f i o cs e = ground (arith, registered-same fd f cs)
watches_in-add_or_mod false fd f i o cs e = ground (arith, registered-same fd f cs)

pub watches_out-add_or_mod :
    (added : Bool) (fd f : ℕ) (i o : Bool) (cs : List Ctl)
    → added ≡ registered cs fd
    → watches_out (add_or_mod added fd i o ∷ cs) f ≡ (if fd == f then o else watches_out cs f)
unfolding add_or_mod
watches_out-add_or_mod true fd f i o cs e = ground (arith, registered-same fd f cs)
watches_out-add_or_mod false fd f i o cs e = ground (arith, registered-same fd f cs)

-- The call that arms a descriptor where something of it is left, and else removes it.
abbrev pub told : (any added : Bool) (fd : ℕ) (i o : Bool) → Ctl
told any added fd i o = if any then add_or_mod added fd i o else ctl_del fd

module _ (any added : Bool) (fd : ℕ) (i o : Bool) (cs : List Ctl) where
  pub told-IsOrderly :
      added ≡ registered cs fd → IsOrderly cs → IsOrderly (told any added fd i o ∷ cs)
  told-IsOrderly e h = elim any as (λ any. IsOrderly (told any added fd i o ∷ cs)) [
    | true ↦ add_or_mod-IsOrderly added fd i o cs e h
    | false ↦ h
  ]

  pub registered-told :
      (f : ℕ)
      → added ≡ registered cs fd
      → registered (told any added fd i o ∷ cs) f ≡ (if fd == f then any else registered cs f)
  registered-told f e =
      elim any
        as (λ any.
          registered (told any added fd i o ∷ cs) f ≡ (if fd == f then any else registered cs f)) [
            | true ↦ registered-add_or_mod added fd f i o cs e
            | false ↦ refl
          ]

  pub watches_in-told :
      (f : ℕ)
      → added ≡ registered cs fd
      → watches_in (told any added fd i o ∷ cs) f ≡ (if fd == f then any && i else watches_in cs f)
  watches_in-told f e =
      elim any
        as (λ any.
          watches_in (told any added fd i o ∷ cs) f
          ≡ (if fd == f then any && i else watches_in cs f)) [
            | true ↦ watches_in-add_or_mod added fd f i o cs e
            | false ↦ refl
          ]

  pub watches_out-told :
      (f : ℕ)
      → added ≡ registered cs fd
      → watches_out (told any added fd i o ∷ cs) f
        ≡ (if fd == f then any && o else watches_out cs f)
  watches_out-told f e =
      elim any
        as (λ any.
          watches_out (told any added fd i o ∷ cs) f
          ≡ (if fd == f then any && o else watches_out cs f)) [
            | true ↦ watches_out-add_or_mod added fd f i o cs e
            | false ↦ refl
          ]

-- What is watched is registered, if no call has been refused.
pub watched_in-registered :
    (cs : List Ctl) (fd : ℕ) → IsOrderly cs → watches_in cs fd ≡ true → registered cs fd ≡ true
watched_in-registered [] fd h e = e
watched_in-registered (ctl_add f i o ∷ cs) fd h e = ground (arith, watched_in-registered cs fd h.1)
watched_in-registered (ctl_mod f i o ∷ cs) fd h e = ground (arith, watched_in-registered cs fd h.1)
watched_in-registered (ctl_del f ∷ cs) fd h e = ground (arith, watched_in-registered cs fd h)

pub watched_out-registered :
    (cs : List Ctl) (fd : ℕ) → IsOrderly cs → watches_out cs fd ≡ true → registered cs fd ≡ true
watched_out-registered [] fd h e = e
watched_out-registered (ctl_add f i o ∷ cs) fd h e =
    ground (arith, watched_out-registered cs fd h.1)
watched_out-registered (ctl_mod f i o ∷ cs) fd h e =
    ground (arith, watched_out-registered cs fd h.1)
watched_out-registered (ctl_del f ∷ cs) fd h e = ground (arith, watched_out-registered cs fd h)
