-- ===== src/Epoll.antt =====
-- epoll, as Helens/iomanager.cc uses it: the events of a descriptor, and what epoll_ctl does to the
-- descriptors that are watched. The first argument of ctl tells whether the call succeeds, if the
-- descriptor may be added, changed or removed at all.
use helens.Prelude.{ℕ, Bool, true, false, ◌||◌, Option, none, some}
use helens.Prelude.Family.{put}

pub data Event : Type 0 where
  read : Event
  write : Event

-- The bits EPOLLIN and EPOLLOUT of a mask.
pub record Events : Type 0 where
  pub readable : Bool
  pub writable : Bool

abbrev pub no_events : Events
no_events = record { readable = false; writable = false }

abbrev pub has : Event → Events → Bool
has read e = e.readable
has write e = e.writable

abbrev pub with_event : Event → Events → Events
with_event read e = record e { readable = true }
with_event write e = record e { writable = true }

abbrev pub without : Event → Events → Events
without read e = record e { readable = false }
without write e = record e { writable = false }

abbrev pub any : Events → Bool
any e = e.readable || e.writable

pub data CtlOp : Type 0 where
  add : CtlOp
  mod_ : CtlOp
  del : CtlOp

abbrev pub Kernel : Type 0
Kernel = ℕ → Option Events

-- EEXIST for a descriptor that is watched, ENOENT for one that is not.
unfoldable pub ctl : Bool → CtlOp → ℕ → Events → Kernel → Option Kernel
ctl false op fd e k = none
ctl true add fd e k = elim (k fd) [ none ↦ some (put k fd (some e)) | some _ ↦ none ]
ctl true mod_ fd e k = elim (k fd) [ none ↦ none | some _ ↦ some (put k fd (some e)) ]
ctl true del fd e k = elim (k fd) [ none ↦ none | some _ ↦ some (put k fd none) ]
