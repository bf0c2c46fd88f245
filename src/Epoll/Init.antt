-- ===== src/Epoll/Init.antt =====
-- `event_init` of event.c. The calls of the system are arguments.
use crawler.Base.{ℕ, Bool, false, Option, none, some}

-- `ep`, where `none` is -1, and whether `event_list` points to memory for 512 events.
pub record EventState : Type 0 where
  pub ep : Option ℕ
  pub event_list : Bool

abbrev pub with_ep : Bool → EventState → Option ℕ → Bool × EventState
with_ep calloc_ok s none = (false, s)
with_ep calloc_ok s (some fd) = (calloc_ok, record { ep = some fd; event_list = calloc_ok })

-- The memory of an earlier call is freed first.
unfoldable pub event_init : Option ℕ → Bool → EventState → Bool × EventState
event_init epoll_create calloc_ok s =
    with_ep calloc_ok s (elim s.ep [ none ↦ epoll_create | some fd ↦ some fd ])
