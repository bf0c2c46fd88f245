-- ===== src/Tests/Secure.antt =====
-- TLS, on the connection of Tests/Events, and the datagrams of the name server.
use crawler.Base.{◌≡◌, ◌⊎◌, true, false, [], ◌∷◌, arith}
use crawler.Net.{write_of}
use crawler.Socket.Send.{datagram, udp_interrupt}
use crawler.Dns.Datagrams.{dns_process_event}
use crawler.Dns.Datagrams.Drained.{Drained, dns_process_event-Drained}
use crawler.Tls.{want_read, Tls, ssl_recv}
use crawler.Tls.Late.{by_close, read_of_end, plains, ToldLater, ssl_recv-ToldLater}
use crawler.Tls.Handshake.{wants_more, SslSetup, Shake, zero_ssl, ssl_handshake_handler}
use crawler.Tls.Handshake.Secured.{Outcome, GivenUp, ssl_handshake_handler-Ends}
use crawler.Samples.TimerList.{timer_list}
use crawler.Samples.EpollTable.{epoll_table}
use crawler.Tests.Events.{opened}
use crawler.Tests.Queries.{run_handler, asking}

abbrev unsecured : Tls timer_list.Tree epoll_table.Set
unsecured = record { world = opened; ssl = zero_ssl }

ssl_recv-ToldLater_example : ToldLater epoll_table 0 (1 ∷ 2 ∷ 3 ∷ []) by_close (want_read ∷ []) (
    ssl_recv epoll_table 0 100
      (plains ((1, 2 ∷ []) ∷ (3, []) ∷ []) (read_of_end by_close ∷ want_read ∷ []))
      unsecured)
ssl_recv-ToldLater_example =
    ssl_recv-ToldLater epoll_table 0 1 (2 ∷ []) ((3, []) ∷ []) 100 by_close (want_read ∷ [])
      unsecured tt (omega arith)

abbrev all_given : SslSetup
all_given = record { memory = true; context = true; connection = true; descriptor = true }

abbrev plain_io : Shake timer_list.Tree epoll_table.Set
plain_io = record { tls = unsecured; secure_io = false }

ssl_handshake_handler-Ends_example :
    let r =
      ssl_handshake_handler timer_list epoll_table 200 0
        (write_of 0)
        all_given
        wants_more
        plain_io in
    ((r.0 ≡ true) × GivenUp timer_list epoll_table 200 0 (write_of 0) all_given plain_io)
    ⊎ Outcome timer_list epoll_table 200 0 wants_more r
ssl_handshake_handler-Ends_example =
    ssl_handshake_handler-Ends timer_list epoll_table 200 0 (write_of 0) all_given wants_more
      plain_io (λ there. absurd (cc there))

dns_process_event-Drained_example :
    Drained timer_list 0 run_handler
      (λ n. 100)
      (λ n. true)
      true
      (dns_process_event timer_list 0 run_handler
        (λ n. 100)
        (λ n. true)
        3
        0
        (datagram (1 ∷ []) ∷ udp_interrupt ∷ [])
        asking)
dns_process_event-Drained_example =
    dns_process_event-Drained timer_list 0 run_handler (λ n. 100) (λ n. true) 3 0
      (datagram (1 ∷ []) ∷ udp_interrupt ∷ []) asking (omega arith)
