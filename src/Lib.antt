-- ===== src/Lib.antt =====
-- gusher: a web application server in C that embeds Guile Scheme.
--
-- The server (src/main.c) accepts connections, reads a request line by line, parses its query
-- string, finds the responder registered for the URL's path and sends what it returns. Responders
-- are Scheme procedures; other files give them services: documents that are made again when what
-- they depend on changes (src/cache.c), templates, JSON, an HTTP client, a database client, times.
--
-- Base holds the shared names: tests on numbers, lists, C's character classes, integers, and the
-- outcome of code that may fault. CString has the C library's functions on strings that are only
-- read; Buffer has text that is changed in place, as a list of bytes with indices for pointers,
-- where an access outside the list is a fault.
--
-- Query models decode_hex, decode_query and parse_query of src/main.c over such a buffer. Their
-- fuel is the length of the buffer; each round of a loop moves on by at least one byte.
-- Handlers models the responder table: struct handler_entry, sorter, set_handler, and the search of
-- find_handler. The C library's qsort is a parameter with its documented contract (a permutation,
-- in the order of the comparison; nothing on elements that compare equal); Handlers/Insertion has
-- an instance.
-- Cache models src/cache.c. A node's address is its index in the list of nodes, and a smob is that
-- index; the garbage collector's part (free_node, mark_node) is not modelled. A mutex is a flag:
-- the model runs one thread, and a lock of a held mutex gives nothing. What the cache takes from
-- outside (files and their times, the conversion of values, the run of a recipe) is a parameter.
-- invalidate has the number of nodes as fuel, which is enough since make_doc puts a new document
-- above those that it is made from.
-- Frames models the threaded server's request frames: the pool, the queue and the counts. A frame's
-- address is its index in the list of frames. Frames.Idle has the dispatchers that wait; each operation
-- is what a thread does while it holds the mutex.
-- Request models the reading of a request in src/main.c: mygetline over the bytes that a connection
-- sends, start_request, and the loop of process_request with its line buffer. Its fuel is one more
-- than the bytes to come, since each round takes at least one.
-- Form models the fields that come with a request: get_in, request_length and form_urlencoded, and
-- the searches strcasestr and memscan. How many bytes a read finds is a parameter, at least one, since
-- read blocks; each read that finds bytes takes one of the announced length, which is the fuel.
-- Response models the answer in src/main.c: send_all over a connection that takes as many bytes as
-- it likes, the headers, the replies that the server makes, and run_responder with its sessions. The
-- match of the cookie's pattern, the UUID, the text of a number and the run of a responder are
-- parameters. A string stands as its bytes in every conversion.
-- Http models post_data of src/http.c over the buffer that it allocates; curl_easy_escape is a
-- parameter.
-- Gtime models src/gtime.c: points in time, their constructors and fields, and time_decode over the
-- text that it cuts in place. Doubles, mktime, localtime, strftime, the pattern's groups and
-- curl_getdate are parameters.
-- Scheme has the objects that the C code takes apart.
-- Postgres models src/postgres.c: a result with its cursor, the rows that are built from it, and the
-- values in them. libpq is a parameter; a cleared result is passed on as a null pointer.
-- Json models src/json.c between Scheme objects and the values of jansson, whose text form is a
-- parameter. Butter models src/butter.c, and query_value with its two relatives of src/main.c.
-- Frames.Trace runs the operations of Frames as the steps of a state machine, and Frames.Fifo says
-- that they go through.
-- Template models src/template.c; the loop's fuel is the text's length and one, as each slot takes
-- more than one byte.
-- Multipart models form_multipart, process_chunk and post_in of src/main.c. What mmap gives behind the
-- file, up to the page's end, is zeros whose number is a parameter; the fuel of the header loop is the
-- part's length and one, that of the loop over the parts the body's length and one, and the rounds of
-- the reading loop are a parameter, as it may never end.
-- Serve puts the parts together: process_request of src/main.c from its frame to the answer, under
-- catch_req, with Request for the lines, Multipart and Form for the query, Response for the responder
-- and what is sent, and Frames for the release.
-- Xml models process_body, parse_xml and walk_tree of src/http.c on the tree that libxml makes; the
-- parser and json_decode are parameters.
-- Http.Answer models http_get_master of src/http.c: a transfer is the list of the calls that curl makes
-- back, each on its memory, with the code that it ends with. The buffer of the body is written out;
-- the decoder of UTF-8, which may raise an exception, is a parameter.
-- Messaging models src/messaging.c, which the build leaves out: a step is a function on its statics
-- that may raise an exception. Sockets are numbers; what is sent is kept in order, and whether the next
-- sends succeed is part of the state. Another thread that holds the mutex is not modelled.
-- Log models src/log.c, and Smtp src/smtp.c; the streams of C and curl are parameters. Effect has the
-- steps on statics that Log and Messaging are written in.
-- Start models main of src/main.c: the options, and the loop over rounds, each with what the clock, poll
-- and read give; what a round calls is kept as a list of actions. Frames.Clear models clear_queues, with
-- as much fuel as there are frames.
-- Frames.Dispatch has the dispatchers with what each is at, Frames.Crew what stays true of them, and
-- Frames.Drain that the connections can all be served. process_http takes the mutex twice, in get_frame
-- and in enqueue_frame, and reads busy_threads without it; it is one step here: in between no other
-- thread has the frame.
-- Numbers that atoi reads are taken to fit into an int, replies to have no NUL, and curl_easy_escape
-- and the fopen of the debugging copy in form_urlencoded not to fail.
-- Not modelled: main's sockets, its signals and the evaluation of the lines that it reads; the threads
-- themselves, each of whose steps is a function here.
pub mod Base
pub mod CString
pub mod Buffer
pub mod Query
pub mod Cache
pub mod Handlers
pub mod Frames
pub mod Request
pub mod Form
pub mod Response
pub mod Http
pub mod Gtime
pub mod Scheme
pub mod Postgres
pub mod Json
pub mod Butter
pub mod Effect
pub mod Log
pub mod Smtp
pub mod Start
pub mod Messaging
pub mod Xml
pub mod Serve
pub mod Multipart
pub mod Template
mod Tests
