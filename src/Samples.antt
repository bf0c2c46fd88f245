-- ===== src/Samples.antt =====
-- Concrete instances of what the other modules take as parameters: the tree of timers of rbtree.c
-- as a list, epoll as a table, and zlib and `realloc` as functions.
pub mod TimerList
pub mod EpollTable
pub mod Memory
pub mod BitServer
pub mod Store
