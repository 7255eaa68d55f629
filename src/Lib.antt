-- ===== src/Lib.antt =====
-- CCNetUtilities: HTTP messages and the request parser, the scheduler of coroutines with its monitor
-- of epoll events, the sockets, and the coroutines that read a request from a socket and write a
-- response to it.
--
-- Parts, from the bottom up:
--   Common    strings as lists of bytes (`Bytes`), Boolean tests, `find` and `substr`, and lemmas.
--   Cpp       what the sources use of the C++ library beyond strings: words of a stream, `stoull`,
--             `to_string` and `{:x}`, as the standard describes them in the "C" locale.
--   Utils     library/utils: `trim_copy`, `to_lower_copy`, `content_type_contains`, byte literals.
--   Http      library/http. Method, Version, Status, Headers, ServerConfig and Exceptions are the
--             files of those names. QueryMap is `query_map_t`. Request is the struct of http_request.h;
--             below it Line (`consume_line`), UrlDecode (`url_decode`), Query (`filled_params_query`),
--             Multipart (`parse_multipart_formdata`), Parse (the constructor of `Request`) and Form
--             (`consume_form_body`) are the functions of http_request.cpp. Print is the text of
--             a request as a client sends it, which no code of the sources writes. Response is
--             http_response.cpp. JsonForm is json_helper/json_to_http.cpp, and below it Paths is how
--             the keys of a form name the values in JSON, which is no code of the sources.
--   Platform  platform/coro_platform. Exceptions is IOEvent_Exception.hpp, Events is
--             IOEventMonitor.cpp (`IOEventManager`), Scheduler is scheduler.cpp (`Scheduler::__run`),
--             and Frames the handles of Task.hpp with their frames.
--   Sockets   library/sys_socket, library/coro_sockets and library/socket_exception.hpp. Errors are the
--             exceptions, Address is socket_address.cpp, Sys and Server are the sockets of
--             sys_socket.cpp, Owner the address that a client socket owns; Coro is
--             coro_sys_socket.cpp, Helper is coro_helper.cpp, and Await the `WaitForEvent` of both.
--             Below Coro, Stream and Listener are what a connected and a listening socket promise,
--             Interface makes of a stream the socket that CoroHttp takes, TwoWay is on its two
--             directions, and Requests on the reader over it.
--   CoroHttp  library/coro_http over platform/coro_platform/Task.hpp. Task says how a coroutine ends
--             and what `co_await` makes of that. Socket is what is asked of
--             library/coro_sockets/coro_sys_socket.h. Reader is coro_http_reader.cpp and Writer is
--             coro_http_writer.cpp; the modules below them hold the theorems. RoundTrip joins the two.
--             RequestTrip goes from a printed request on the wire to the request that is read.
--   Example   example/coro_example. Echo is `handle_client` of coro_echo.cpp and HttpServer is
--             `handle_connection` of coro_http_example.cpp.
--   Tests     a concrete connection, and the theorems at concrete inputs.
--
-- The reader calls the parser on the header block and looks up `content-length` and
-- `transfer-encoding` in what it has parsed; the writer fills the headers of a copy of the response
-- and prints them by `format_header`. Reader and writer share no state but the socket. Their
-- `async_read` and `async_write` are those of Sockets/Coro/Interface, whose contract is proved from that
-- of the system calls. The scheduler resumes what is ready, wakes sleepers, and polls the manager for
-- the coroutines whose descriptors are ready; a coroutine that runs calls `internal_spawn`,
-- `sleep_until` and `add_waiter`, which `Run` lists in their order.
--
-- State. A coroutine's result is an `Outcome`: it returns, throws, writes behind an array, or the
-- fuel of the model runs out. The state in it is the socket and what the coroutine was given by
-- reference. Exceptions of the parser are values of `Result`. `co_await` resumes its caller with the
-- initial value of the promise when the awaited coroutine throws, as `unhandled_exception` is empty.
-- An `unordered_map` is a list of pairs in which each key stands once. The priority queue of sleepers
-- is a list in the order in which they come to the top, where of those with one time the earlier stands
-- first. A coroutine handle is the address of its frame, 0 for none. A socket is its descriptor, and a
-- client socket also the address that it owns on a heap.
-- An awaited coroutine that gives a pointer gives a null one (`none`) where it throws.
--
-- Fuel and bounds. `size_t` wraps around at 2 ^ 64 where a sum can reach it (`chunk_size + 2`, the
-- hash); other sums are of sizes of strings in memory. Loops over a string have its length + 1 as
-- fuel, and the header loop `max_line` + 1, the bound of the code. Loops that read take fuel from
-- their caller: the theorems say how much is enough. `read_block` is at most 4096 in the theorems on
-- the reader, since its arrays have that size.
--
-- The fuel of `run` bounds its rounds and the coroutines resumed in each, that of `json_to_multimap` how
-- deep objects stand, and that of the socket loops how often calls are made again. The example
-- servers take fuel for their rounds.
--
-- Parameters. `after_move` is what the C++ library leaves in a string that was moved from; `iterate`
-- is the order in which it walks an `unordered_map`; `uninitialised` is the `bool` of a promise that
-- was never given a value; `from_json_string` is the JSON part of `consume_form_body`. The records of
-- Socket (`Reads`, `Delivers`, `Writes`, `Accepts`, `Duplex`) are the promises of `async_read` and
-- `async_write`; a connection that keeps them all is in Tests/Wire. `Epoll` and `Keeps` are the calls of
-- epoll and what they promise, `Platform` adds the clock and the code of the coroutines, `Os`, `Stream`
-- and `Listener` are the calls on sockets and what they promise, `Async` adds the wait for an event,
-- `system_message` is the text of an error code, and `JsonLib` is what nlohmann/json gives.
--
-- Not modelled: nlohmann/json, which is third-party code, the instances of `SingleInstance`, and of
-- the examples the console, `main`, and `handle_client` of coro_http_example.cpp, which passes a
-- temporary configuration by reference.
pub mod Common
pub mod Utils
pub mod Cpp
pub mod Http
pub mod Platform
pub mod Sockets
pub mod CoroHttp
pub mod Example
pub mod Tests
