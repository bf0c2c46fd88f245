-- ===== src/Net.antt =====
-- The state that connection.c, event.c, event_timer.c and event_timer.h share: the arrays of
-- connections and of their read and write events, the free list, the timers and the epoll set.
-- A pointer to a connection is its index in `connections`; the events of connection i are
-- `read_of i` and `write_of i`, and the event in the q-th query that was made is `query_of q`.
-- The red-black tree and epoll are parameters.
use crawler.Base.{ℕ, Bool, false, Option, none, ◌==◌, if◌then◌else◌}

pub data Handler : Type 0 where
  unset http_read_event_process http_write_event_process ssl_handshake_handler : Handler
  ssl_write_handler ssl_read_handler dns_process_event dns_timeout_handler : Handler

pub data EvId : Type 0 where
  read_of write_of query_of : ℕ → EvId

-- `event_s`; `key` is `timer.key`. The field `wirte` is used nowhere, and `data` is the owner.
pub record Event : Type 0 where
  pub active : Bool
  pub ready : Bool
  pub key : ℕ
  pub timedout : Bool
  pub timer_set : Bool
  pub pending_eof : Bool
  pub eof : Bool
  pub error : Bool
  pub handler : Handler

-- What `data` points to: the next free connection, or the client that uses the connection.
pub data Ptr : Type 0 where
  null : Ptr
  to_conn to_client : ℕ → Ptr

-- `connection_s`; `none` for the descriptor -1. `ssl` says whether the pointer is set.
pub record Conn : Type 0 where
  pub data_ptr : Ptr
  pub fd : Option ℕ
  pub sent : ℕ
  pub ssl : Bool

pub record World (Tree EpollSet : Type 0) : Type 0 where
  pub conns : ℕ → Conn
  pub evs : EvId → Event
  pub free_connections : Ptr
  pub free_connection_n : ℕ
  pub timers : Tree
  pub epoll : EpollSet

abbrev pub same_ev : EvId → EvId → Bool
same_ev (read_of i) (read_of j) = i == j
same_ev (write_of i) (write_of j) = i == j
same_ev (query_of i) (query_of j) = i == j
same_ev _ _ = false

-- What `calloc` and `memset` leave.
abbrev pub zero_event : Event
zero_event = record {
  active = false;
  ready = false;
  key = 0;
  timedout = false;
  timer_set = false;
  pending_eof = false;
  eof = false;
  error = false;
  handler = unset;
}

abbrev pub zero_conn : Conn
zero_conn = record { data_ptr = null; fd = none; sent = 0; ssl = false }

module _ {Tree EpollSet : Type 0} where
  abbrev pub put_conn : World Tree EpollSet → ℕ → Conn → World Tree EpollSet
  put_conn w i c = record w { conns = λ j. if i == j then c else w.conns j }

  abbrev pub put_ev : World Tree EpollSet → EvId → Event → World Tree EpollSet
  put_ev w e v = record w { evs = λ d. if same_ev e d then v else w.evs d }
