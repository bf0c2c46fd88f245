-- ===== src/Client/Read.antt =====
-- `http_read_event_process` of http_client.c: receive what has come, then process the response.
-- `handled` says whether the handler of the client, if it has one, is called; `timer` whether the
-- receive timeout is set again.
use crawler.Base.{ℕ, Bool, true, false, ◌||◌, Option, none, some, List, if◌then◌else◌}
use crawler.Net.{Event}
use crawler.Buffer.{HttpBuf, base_range, create_temp_buf}
use crawler.Gzip.{Zlib}
use crawler.Socket.{Waiting, Receipt, received, broken, overran, exhausted, receive_loop}
use crawler.Client.{
  ClientStatus, http_html_done, HttpClient, Site, at_recv, Outcome, ok, err, undefined,
  http_process_response,
}

pub record ReadEnd : Type 0 where
  pub client : HttpClient
  pub rev : Event
  pub timer : Bool
  pub handled : Bool

abbrev pub is_html_done : ClientStatus → Bool
is_html_done http_html_done = true
is_html_done _ = false

module _ (calloc_ok : Site → ℕ → Bool) (z : Zlib) (realloc : List ℕ → ℕ → Option (List ℕ))
    (fuel : ℕ) where
  -- `client->recv`, made if NULL.
  abbrev pub open_recv : Option HttpBuf → Option HttpBuf
  open_recv none = create_temp_buf (calloc_ok at_recv 0) (calloc_ok at_recv 1) base_range
  open_recv (some b) = some b

  -- From the label `failed`.
  abbrev pub on_failed : HttpClient → Event → Bool → Outcome ReadEnd
  on_failed c rev timer = ok (record { client = c; rev = rev; timer = timer; handled = true })

  abbrev pub after_process : Event → Bool → Outcome HttpClient → Outcome ReadEnd
  after_process rev timer (ok c) = ok (record {
    client = c;
    rev = rev;
    timer = timer;
    handled = is_html_done c.status || rev.pending_eof;
  })
  after_process rev timer (err c) = on_failed c rev timer
  after_process rev timer undefined = undefined

  -- `none` where the fuel of the receive loop has run out.
  abbrev pub after_receive : HttpClient → Receipt → Option (Outcome ReadEnd)
  after_receive c (received b rev s reset_time) = some (
      after_process rev reset_time
        (http_process_response calloc_ok z realloc fuel (record c { recv = some b }) b))
  after_receive c (broken b rev) = some (on_failed (record c { recv = some b }) rev false)
  after_receive c overran = some undefined
  after_receive c exhausted = none

  abbrev pub with_recv :
      ℕ → HttpClient → Event → List Waiting → Option HttpBuf → Option (Outcome ReadEnd)
  with_recv rounds c rev s none = some (on_failed c rev false)
  with_recv rounds c rev s (some b) = after_receive c (receive_loop realloc rounds b rev s false)

  unfoldable pub http_read_event_process :
      ℕ → HttpClient → Event → List Waiting → Option (Outcome ReadEnd)
  http_read_event_process rounds c rev s =
      if rev.timedout
      then some (on_failed c rev false)
      else with_recv rounds c rev s (open_recv c.recv)
