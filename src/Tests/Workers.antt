-- ===== src/Tests/Workers.antt =====
-- What a worker of process_cycle.c takes from its queue.
use crawler.Base.{
  if◌then◌else◌, ℕ, ◌+◌, ◌≡◌, ◌≢◌, refl, true, false, Option, none, some, List, [], ◌∷◌, arith,
}
use crawler.Head.Fields.{codes, cstr, equal, field}
use crawler.Redis.Lists.Fifo.{put_queue}
use crawler.Parser.Links.{decimal_before, list_key}
use crawler.Parser.Page.{print_url}
use crawler.Dns.Response.{read_answers, endless}
use crawler.Dns.Response.Ends.{read_answers_ends}
use crawler.Dns.Url.{ParsedUrl, new_url, create_http_url}
use crawler.Dns.Url.Print.{parts, create_http_url-print_url}
use crawler.Worker.{take_url}
use crawler.Worker.Master.{
  sigint, sigchld, exited, no_child, MasterState, stopped, start_work_processes,
}
use crawler.Worker.Master.Stops.{workers, start_work_processes-stopped}
use crawler.Epoll.Init.{EventState}
use crawler.Dns.Init.{name_server, first_server, read_resolv_conf}
use crawler.Worker.Start.{work_process_start}
use crawler.Worker.Start.Ready.{Ready, given, work_process_start-Ready}
use crawler.Samples.TimerList.{timer_list-IsTimerTree}
use crawler.Samples.EpollTable.{epoll_table, epoll_table-IsEpoll}
use crawler.Samples.BitServer.{bit_server, bit_server-IsRedis, bit_server-Answers}
use crawler.Tests.Strings.{weigh, no_bit}
use crawler.Tests.Connections.{blank, forget}
use crawler.Worker.Takes.{Takes, take_url-Takes}
use crawler.Socket.Send.{send_fault}
use crawler.Samples.TimerList.{timer_list}
use crawler.Samples.Store.{Store, lists_answer, lists_answer-IsListServer, queues_of, empty_store}
use crawler.Tests.Queries.{State, asking, home, run_handler}

abbrev home_text : List ℕ
home_text = codes "http://ab/"

-- A parser that knows one text.
abbrev finds_home : List ℕ → Option ParsedUrl
finds_home str = some (parts home)

home_found : finds_home (print_url home) ≡ some (parts home)
home_found = refl

home_port : home.port ≡ (if equal home.schema (codes "https") then 443 else 80)
unfolding equal
home_port = refl

create_http_url-print_url_example :
    create_http_url finds_home true true (print_url home) ≡ new_url home
create_http_url-print_url_example =
    create_http_url-print_url finds_home home (refl, (refl, (refl, (refl, tt)))) (refl, (refl, tt))
      (omega arith) home_port home_found

read_answers_ends_example : read_answers (192 ∷ 12 ∷ []) ≢ endless
read_answers_ends_example = read_answers_ends (192 ∷ 12 ∷ [])

abbrev one_url : Store
one_url = (empty_store.0, put_queue (list_key 0) (home_text ∷ []) empty_store.1)

one_url_queue : queues_of one_url (list_key 0) ≡ home_text ∷ []
unfolding list_key decimal_before equal
one_url_queue = refl

home_made : create_http_url finds_home true true (cstr home_text) ≡ new_url home
unfolding create_http_url cstr field equal
home_made = refl

abbrev idle : State
idle = record asking { world = record asking.world { free_connection_n = 5 } }

one_other : ◌≢◌ {A = ℕ} 1 0
one_other e = omega arith

take_url-Takes_example :
    Takes lists_answer queues_of lists_answer-IsListServer timer_list 0 run_handler finds_home 1 0
      [] home
      (send_fault ∷ [])
      one_url
      idle
      true
      (take_url lists_answer timer_list 0 run_handler finds_home 3 100 (λ n. true) 0 one_url idle)
take_url-Takes_example =
    take_url-Takes lists_answer queues_of lists_answer-IsListServer timer_list 0 run_handler
      finds_home 3 100 1 (λ n. true) 1 0 one_url idle home_text [] home (send_fault ∷ [])
      one_url_queue (omega arith) refl refl home_made refl refl one_other (omega arith)
      (omega arith)

-- The numbers of the processes that `fork` gives.
abbrev number_of : ℕ → ℕ
number_of j = 100 + j

start_work_processes-stopped_example :
    (m : MasterState) × (start_work_processes
        (true, true, true, true)
        (λ j. some (number_of j))
        2
        (sigchld ∷ sigint ∷ [])
        (exited 101 ∷ no_child ∷ [])
      ≡ stopped (workers number_of 2 0) m)
start_work_processes-stopped_example =
    start_work_processes-stopped (λ j. some (number_of j)) number_of 2 (sigchld ∷ sigint ∷ [])
      (exited 101 ∷ no_child ∷ []) (λ j below. refl) refl

abbrev not_yet : EventState
not_yet = record { ep = none; event_list = false }

abbrev unstarted : State
unstarted = record asking { world = blank }

conf_read : read_resolv_conf (none ∷ some 8 ∷ []) ≡ name_server 8
unfolding read_resolv_conf first_server
conf_read = refl

work_process_start-Ready_example :
    Ready timer_list timer_list-IsTimerTree epoll_table epoll_table-IsEpoll forget bit_server
      bit_server-IsRedis bit_server-Answers weigh 1023 4
      (work_process_start timer_list epoll_table forget bit_server
        (given timer_list timer_list-IsTimerTree epoll_table epoll_table-IsEpoll forget bit_server
          bit_server-IsRedis bit_server-Answers weigh 3
          (λ n. true)
          (none ∷ some 8 ∷ [])
          4)
        not_yet
        unstarted
        no_bit)
work_process_start-Ready_example =
    work_process_start-Ready timer_list timer_list-IsTimerTree epoll_table epoll_table-IsEpoll
      forget bit_server bit_server-IsRedis bit_server-Answers weigh 3 4 8 (λ n. true)
      (none ∷ some 8 ∷ []) not_yet unstarted _ no_bit (λ q. refl) refl conf_read refl
