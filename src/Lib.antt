-- ===== src/Lib.antt =====
-- The crawler: a C program that fetches pages over HTTP with one event loop per process.
--
-- Parts and how they interact. The event loop (event.c) waits with epoll and runs the handlers of
-- the events of connections (connection.c), and the timers (event_timer.c, event_timer.h) bound its
-- wait and run the handlers of events that are due. The handlers of http_client.c receive into a
-- growing buffer and take the response apart: the head, then the body, then gzip. Hosts are looked
-- up over DNS (async_dns.c). A page that is done is searched for links (html_parser.c): a bloom
-- filter in redis keeps the URLs that were seen (bloom_filter.c), and a new one goes to the queue in
-- redis of one of the work processes (redis_func.c). A work process takes URLs from its queue while
-- it has free connections (process_cycle.c).
--
-- Files. Base has the shared names, Boolean tests, list operations and 32-bit words.
--   Buffer    http_client.c: create_temp_buf, resize_temp_buf
--   Head      http_client.c: http_parse_head, the byte loop; Head/Fields its header table after
--             the label `parsed`; Head/Print and Head/StatusLine a printer of heads, Head/Steps,
--             Head/Values and Head/Lines the loop on what it prints
--   Html      http_client.c: http_parse_html, the loop over chunks; Html/Chunks a printer
--   Gzip      http_client.c: inflate_gzip
--   Client    http_client.c: http_parse_head, http_parse_html and http_process_response on a client
--   Socket    connection.c: unix_recv; http_client.c: the receive loop; Socket/Send unix_send and
--             unix_udp_recv
--   Client/Read  http_client.c: http_read_event_process
--   Request   http_client.c: pack_req_buf
--   Net       connection.h, event.h: connections, events and the arrays of connection.c
--   Tree      rbtree.h as its callers use it
--   Timer     event_timer.h, event_timer.c
--   Epoll     event.c: event_add, event_del; Epoll/Dispatch event_process, Epoll/Init event_init
--   Pool      connection.c: connection_init, get_connection, free_connection, close_connection
--   Connect   http_client.c: http_conn, http_client_create, http_client_retrieve and
--             http_write_event_process; Connect/Runs the operations one after the other
--   Tls       connection.c: ssl_recv, ssl_send; Tls/Handshake http_client.c: ssl_create,
--             http_ssl_handshake, ssl_handshake_handler
--   Redis     redis_func.c: the calls on bits; Redis/Lists the connection and the calls on lists
--   Bloom     bloom_filter.c
--   Dns       async_dns.c: find_cache, set_cache, pack_udp; Dns/Response parse_udp on the bytes;
--             Dns/Resolver parse_udp, dns_timeout_handler and dns_query on the queue of queries;
--             Dns/Datagrams dns_process_event; Dns/Init dns_init; Dns/Url create_http_url
--   Parser    html_parser.c: the tree; Parser/Links search_for_links, Parser/Author
--             search_for_author, Parser/Page parse_html
--   Worker    process_cycle.c: the settings, get_url_seed and the loop of work_process_cycle;
--             Worker/Start its start, Worker/Master start_work_processes and the signals
--   Samples   concrete instances of the parameters; Tests the theorems at concrete inputs
--
-- State. A pointer into the receive buffer is an offset from its start; the memory is a list of
-- bytes. A connection is its index in the array and its two events are named by it. Queues of
-- queue.h are lists, oldest first. Fields that are uint32_t wrap at 2^32. What C leaves open is a
-- result of its own (`undefined`, `overrun`, `overran`), or said where it is left out: bytes that go
-- past the end of a buffer, or are read from there, are not stored or read. `abs` of the least int,
-- in event_timer.h, is open in C, and taken for less than every delay.
--
-- Parameters. zlib, realloc, epoll, redis and the tree of timers are arguments with the laws that
-- their documentation states (IsZlib, IsRealloc, IsEpoll, IsRedis, IsListServer, IsTimerTree);
-- Samples shows that each can hold. gumbo gives a tree, http_parser the offsets of the parts of a
-- URL, and murmur3 a number for a string and a seed. A socket is the list of what the calls of
-- recv, send or OpenSSL find. `calloc_ok` says of each allocation whether there is memory. The
-- time is an argument. Handlers of events are an argument of the loops that run them.
--
-- Fuel. Enough is: for the chunk loop a round per byte, since each size line takes one; for the
-- receive loop one more than the bytes that come, since each call but the last gives one; for
-- inflate_gzip one more than the bytes of its output; for event_expire_timers and
-- event_cancel_timers one more than the timers that are set, where the handlers set none; for the
-- records of a DNS response as many rounds as bytes, since each takes at least eleven; for
-- dns_process_event one round more than the datagrams on the socket.
--
-- Not modelled: rbtree.c and murmur3.c (copies of other projects' code), queue.h, logging, the manual
-- tests; memory that is freed; ssl_error, which prints; the calls of Lua and of the affinity of a
-- process. The handlers that write a request and read a response are modelled for connections
-- without TLS, where `c->send` and `c->recv` are unix_send and unix_recv.
pub mod Base
pub mod Buffer
pub mod Head
pub mod Html
pub mod Gzip
pub mod Client
pub mod Net
pub mod Tree
pub mod Timer
pub mod Epoll
pub mod Pool
pub mod Samples
pub mod Tests
pub mod Bloom
pub mod Redis
pub mod Dns
pub mod Socket
pub mod Request
pub mod Parser
pub mod Connect
pub mod Worker
pub mod Tls
