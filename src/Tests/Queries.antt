-- ===== src/Tests/Queries.antt =====
-- The queries of async_dns.c, with a timer list and one connection to the name server.
use crawler.Base.{ℕ, ◌+◌, ◌*◌, ◌≡◌, refl, true, false, none, some, List, [], ◌∷◌, arith}
use crawler.Head.Fields.{codes}
use crawler.Net.{query_of, World}
use crawler.Timer.{event_add_timer, set_timer}
use crawler.Socket.Send.{room_for, send_fault}
use crawler.Dns.Response.Answer.{Middle, Cname, cname_bytes, address_bytes, response}
use crawler.Dns.Resolver.{HttpUrl, Query, Resolver, find_query, parse_udp, dns_query}
use crawler.Dns.Resolver.Tries.{find_number, time_out, Waits, time_outs_leave}
use crawler.Dns.Resolver.Hosts.{response_header, Answered, dns_query-parse_udp}
use crawler.Samples.TimerList.{timer_list}
use crawler.Samples.EpollTable.{epoll_table}
use crawler.Tests.Events.{opened}

abbrev pub State : Type 0
State = Resolver timer_list.Tree epoll_table.Set

abbrev pub home : HttpUrl
home = record { port = 80; schema = codes "http"; host = codes "ab"; path = codes "/" }

abbrev pub waiting_query : Query
waiting_query = record { number = 0; url = home; id = 5; pkt = 1 ∷ 2 ∷ []; len = 2; trytimes = 0 }

-- One query waits; one more packet can be sent, and then the socket fails.
abbrev pub asking : State
asking = record {
  world = opened;
  id = 5;
  query_queue = waiting_query ∷ [];
  cache = record { cache_queue = []; cache_count = 0 };
  kernel = room_for 1 ∷ send_fault ∷ [];
  made = 1;
}

-- The query that waits has its timer set, and the socket has room.
abbrev patient : State
patient = record asking {
  world = event_add_timer timer_list (query_of 0) 5000 0 opened;
  kernel = room_for 1 ∷ room_for 9 ∷ [];
}

patient-Waits : Waits timer_list 0 0 5000 waiting_query patient
unfolding find_number event_add_timer set_timer
patient-Waits = record { found = refl; set = refl; due = refl }

time_outs_leave_example :
    let s1 = time_out timer_list 0 5000 0 patient in
    let s2 = time_out timer_list 0 10000 0 s1 in
    let s3 = time_out timer_list 0 15000 0 s2 in
    (Waits timer_list 0 0 10000 (record waiting_query { trytimes = 1 }) s1
      × (s1.kernel ≡ room_for 9 ∷ []))
    × (Waits timer_list 0 0 15000 (record waiting_query { trytimes = 2 }) s2 × (s2.kernel ≡ []))
    × (find_number 0 s3.query_queue ≡ none)
    × ((s3.world.evs (query_of 0)).timer_set ≡ false)
time_outs_leave_example =
    time_outs_leave timer_list 0 5000 10000 15000 0 5000 1 9 [] waiting_query patient patient-Waits
      refl

abbrev middle : Middle
middle = record { class_high = 0; class_low = 1; ttl0 = 0; ttl1 = 0; ttl2 = 0; ttl3 = 60 }

abbrev alias : List Cname
alias = record { pointer = 12; middle = middle; target = 1 ∷ 99 ∷ 0 ∷ [] } ∷ []

abbrev qname : List ℕ
qname = 2 ∷ 97 ∷ 98 ∷ []

abbrev pub run_handler :
    HttpUrl → ℕ → World timer_list.Tree epoll_table.Set → World timer_list.Tree epoll_table.Set
run_handler url addr w = record w { free_connection_n = addr }

asking_query : find_query asking.query_queue (5 + 256 * 0) ≡ some waiting_query
unfolding find_query
asking_query = refl

dns_query-parse_udp_example :
    (s' : State) × (parse_udp timer_list 0 run_handler 100 true
        (response
          (response_header 5 0 0 2 (0 ∷ 0 ∷ 0 ∷ 0 ∷ []))
          qname
          0
          1
          (cname_bytes alias (address_bytes 12 middle 1 2 3 4 [])))
        asking
      ≡ some s')
    × Answered timer_list 0 run_handler waiting_query
        (1 + 256 * 2 + 65536 * 3 + 16777216 * 4)
        asking
        s'
    × (dns_query timer_list 0 run_handler 200 true home s' ≡ (
      true,
      record s' { world = run_handler home (1 + 256 * 2 + 65536 * 3 + 16777216 * 4) s'.world },
    ))
dns_query-parse_udp_example =
    dns_query-parse_udp timer_list 0 run_handler 100 200 5 0 0 2 true (0 ∷ 0 ∷ 0 ∷ 0 ∷ []) qname 0 1
      12 middle 1 2 3 4 [] alias waiting_query home asking asking_query refl refl
      (refl, (refl, (refl, tt))) (refl, omega arith) refl refl
