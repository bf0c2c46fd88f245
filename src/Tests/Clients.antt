-- ===== src/Tests/Clients.antt =====
-- Connections of http_client.c, on a pool of two.
use crawler.Buffer.{HttpBuf}
use crawler.Base.{◌≡◌, ◌⊎◌, true, false, some, [], ◌∷◌}
use crawler.Head.Fields.{codes}
use crawler.Net.{World}
use crawler.Dns.Resolver.{HttpUrl}
use crawler.Socket.Send.{room_for}
use crawler.Connect.{
  SocketCalls, in_progress, connect_failed, new_client, http_conn, http_write_event_process,
  open_req,
}
use crawler.Connect.Pooled.{Conned, http_conn-Conned}
use crawler.Connect.Written.{Written, http_write_event_process-Written}
use crawler.Samples.TimerList.{timer_list, timer_list-IsTimerTree}
use crawler.Samples.EpollTable.{epoll_table}
use crawler.Tests.Connections.{forget, fresh, fresh-IsPool, fresh-InSync}

abbrev connecting : SocketCalls
connecting = record { socket = some 9; nonblocking = true; connect = in_progress; now = 100 }

abbrev refused_calls : SocketCalls
refused_calls = record { socket = some 9; nonblocking = true; connect = connect_failed; now = 100 }

http_conn-Conned_example :
    Conned timer_list timer_list-IsTimerTree epoll_table 2
      (0 ∷ 1 ∷ [])
      (http_conn timer_list epoll_table forget refused_calls false 5 fresh)
http_conn-Conned_example =
    http_conn-Conned timer_list timer_list-IsTimerTree epoll_table forget refused_calls false 5 2
      (0 ∷ 1 ∷ []) fresh fresh-IsPool fresh-InSync

abbrev linked : World timer_list.Tree epoll_table.Set
linked = (http_conn timer_list epoll_table forget connecting false 5 fresh).1

abbrev home : HttpUrl
home = record { port = 80; schema = codes "http"; host = codes "ab"; path = codes "/" }

http_write_event_process-Written_example :
    let r =
      http_write_event_process timer_list epoll_table forget 200 0 true true home
        (new_client false)
        (room_for 2000 ∷ [])
        linked in
    (r.handled ≡ true)
    ⊎ ((b0 : HttpBuf) × (open_req timer_list epoll_table forget 200 0 true true home
            (new_client false).req
          ≡ some b0)
        × Written timer_list epoll_table forget 200 0 b0 (linked.conns 0).sent r)
http_write_event_process-Written_example =
    http_write_event_process-Written timer_list epoll_table forget 200 0 true true home
      (new_client false) (room_for 2000 ∷ []) linked
