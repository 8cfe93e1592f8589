-- ===== src/Lib.antt =====
-- InstructionParser is a command server for a camera. Worker threads read a client's bytes, a list of
-- registered protocols decides which of them the bytes belong to, and its parser puts a decoded frame
-- into one static queue. A command thread takes the frames out, runs the registered command of that
-- name, and writes a reply to the client.
--
-- Which file models what (paths from the repository's root):
--   Prelude       names of the libraries, and shared functions on numbers, lists and options: `int` as
--                 `ℤ` (Int), the sequencing of partial results (Partial), bit operations (Bits)
--   Strings       memory as a list of bytes; `memcpy` (`store`, `fetch`), `strcpy`, `strtok` on a
--                 string (`tokens`), and the string that begins somewhere (`c_string`)
--   Crc           common/common.c `uhf_crc16_ccitt_tab`, include/common.h `crc16_tab`; Reference is a
--                 bit-serial register, Table, Frames and Detect relate the two
--   Queue         handle/queue.c, include/queue.h: one function for each operation; Static is the
--                 queue of decoded frames, Fifo a list as the specification, Refine the relation,
--                 Abstract the lists as one type with the queues that answer alike, Halves a push
--                 whose two assignments another thread may come between
--   Frame         include/handle.h `st_cmd_frame`
--   Registry      protocol/protocol.c `registerProtocol` and functions/function_manager.c
--                 `registerCmd`, which hold the same text; Chains is the list that the links form,
--                 Lookup the walk that stops at the first node that fits
--   Protocol      protocol/ht_protocol.c, sl_vins100.c and text_protocol.c: Check for `ht_check_data`
--                 and `sl_check_data`, Names for `get_cmd_name` and its tables, Ht and Sl for
--                 `ht_parse` and `sl_parse` (`ht_frame_of` and `sl_frame_of` are the frames they
--                 queue), Text for `StringToInteger` (`string_to_integer`), `text_check_data` and
--                 `text_parse` (`text_frame_of`); Seal is a frame as a sender builds it
--   Commands      functions/function_manager.c `do_cmd_list`, `do_text_cmd`, `text_do_help`
--   Handle        handle/handle.c: `do_response` (`response` is its buffer), `do_text_response`,
--                 `do_text_response_error`, one round of `get_cmd` (`get_cmd_step`); Receive is
--                 `handle` after `op_read`, `do_protocol_handle`, and the registrations of main.c;
--                 Progress is several rounds of `get_cmd`, Arrivals and Pipeline are `handle` and
--                 `get_cmd` in any order, Answered, SlAnswered, TextAnswered and Stale what a client gets
--   Clients       tcp_server/op_epoll.c `add_clilist`, `del_clilist`, `op_read`, `op_write`;
--                 Shift has the loops of a departure, Live which clients the list holds
--   Functions     functions/system.c, media.c, reboot.c, network.c (its requests are in
--                 Network/Requests, the text answers in Network/TextAnswers) and `cmd_register_enter`; Table has the `T_CmdList` structures
--   Config        common/common.c `config_file` and `shell_cmd`; Lines reads a file of lines
--   Logger        common/logger.c without its `logger_init`
--   Server        tcp_server/op_epoll.c `start_server`: the event loop and the tasks that it gives to
--                 the thread pool; Members, Bounds and Room are about the arrays, Race about the events,
--                 Watch about the epoll set, Work is a whole task
--   TcpServer     tcp_server/tcp_server.c, a server that nothing calls; Echo is what a client gets
--   Start         main.c, with handle/handle.c `start_cmd_thread` and common/logger.c `logger_init`;
--                 Ready is the state that it leaves, Requests and TextRequests a request to the
--                 whole program; Early has the registrations as steps between those of the threads
--                 that run already (Early/Dropped: what becomes of a request meanwhile), and Boots
--                 their end; Served goes from an event of a socket
--                 to the reply; Running has the acts of the threads that `main` has created, and
--                 Whole goes from `main` to the reply; Gone has `op_write` on the client list
--                 under the replies
--   Tests         test data and runs
--
-- Conventions. An operation on state takes the state and returns the new one. A result `none` of a
-- partial function is undefined behaviour of C: an access outside the object, a string without end,
-- or an overflow of `int`, except that `byte << 24` wraps as gcc defines it; the error codes of the
-- source are values (`negsuc 0` is -1). Bytes and `u16_t` are natural numbers, with the wrap-around
-- written out; a theorem that needs bytes below 256 says so with `IsBytes`. The step relations leave
-- undefined steps out; that an arrival has room in the client list, which the source does not test,
-- is a premise of them (`Fits`). Memory that the source does not initialise (a parser's frame `cmd`,
-- `tmp_str`, the block of `malloc`) is an argument, so that a result may depend on it. The three
-- arrays of `st_cmd_frame` are one piece of memory of 16 + 1024 + 320 bytes, since the code runs from
-- one into the next; the parsers' copies stay defined inside it.
--
-- Parameters are `op_write` as the replies see it, in whose place Start/Gone puts the model, and the
-- code that is not in the repository: `system`, `atoi`, the clock, `sync` and `reboot`, `socket`,
-- `ioctl`, `epoll_ctl`, `inet_ntoa` and `inet_addr`, the success of `malloc`, `fopen`, `fseek`,
-- `pthread_create` and of the logging library, the events of `epoll_wait`, the clients of `accept`,
-- and the results of `read` and `write`. Of `regexec` only its one pattern is written out.
--
-- Fuel. The walks over the `ptNext` links take one round for each node, and one more where they must
-- see the final NULL; a static registry is a finite chain, so the number of nodes is enough, and the
-- registrations are given that number. `decimal` prints a number with itself as fuel, since each
-- round divides it by ten. All other loops go down a list or a count. `get_cmd` and `start_server`
-- loop for ever: one round is the function.
--
-- Not modelled: the options of the listening socket, and the thread pool, which is a copy of another
-- project's: a task runs as one step, at any later time, and the pool's queue has no limit, where the
-- real one refuses a task when 256 wait. Of threads that share the queue, Handle/Pipeline and Server
-- take each call as one step, and Queue/Halves a push as two. Sockets and memory that are never given
-- back are not counted. Also left out are the calls of the logger and what `printf` and `perror`
-- write; with them the strings that the `printf` calls read, that of `cmd_data[0]` before each text
-- command and that of `cmd_name` in `sl_parse`, are not read.
pub mod Prelude
pub mod Crc
pub mod Queue
pub mod Strings
pub mod Frame
pub mod Registry
pub mod Protocol
pub mod Commands
pub mod Handle
pub mod Clients
pub mod Functions
pub mod Config
pub mod Logger
pub mod Server
pub mod TcpServer
pub mod Start
mod Tests
