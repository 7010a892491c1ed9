-- ===== src/Lib.antt =====
-- Verification library of beng-proxy and beng-lb: the parts of the program that decide what the
-- bytes of a stream mean and where a request goes.
--
-- A response or request body passes through a chain of istreams. DechunkIstream finds the chunks
-- of "Transfer-Encoding: chunked" with HttpChunkParser; EscapeIstream rewrites what a template
-- includes with an escape class. Before that, the cluster code picks the member that gets the
-- request, by the sticky mode, a hash and the health checks. LimitedConcurrencyQueue limits how many
-- jobs of a kind run at a time, and Cache keeps responses and translations in memory. The
-- URI functions bring a request's path into the form that the other parts compare. StringMap holds the
-- headers, and the HTTP cache decides by them what it may keep and for which request it may use it.
--
-- Files:
--   Chunk     src/http/ChunkParser.{cxx,hxx}: `parse` is HttpChunkParser::Parse, one round of its
--             loop is `round_in`, by the state; `consume`, `has_ended` and `get_available` are the
--             methods of that name. Chunk/Span, Size, Split and Frame are about one call.
--   Dechunk   src/istream/DechunkIstream.cxx: `add_header`, `add_data` and `parse_input` are
--             AddHeader, AddData and ParseInput; the record is the part of the object that they
--             use, and OnDechunkEndSeen() counts in `end_seen`. Dechunk/Vector is about the vector
--             of chunks, Account about its counts, Steps and Body about a whole body.
--   Escape    src/escape/: the class (Class.hxx), Escape/Css (CSS.cxx), Escape/Html (HTML.cxx),
--             Escape/Users (Pool.cxx and Static.cxx), Escape/Filter (Istream.cxx). The contract that
--             the users need of a class is the record `IsEscapeClass`, which CSS and HTML fill and
--             which Users and Filter take as an argument; `IsSized` and `IsMeasured` are what they
--             need of its escape_size, which HTML fills and CSS does not.
--   Cluster   src/cluster/: `pick_failover`, `pick_modulo`, `get` and `pick_generic` are
--             PickFailover, PickModulo, RoundRobinBalancer::Get and PickGeneric.
--   Queue     src/util/LimitedConcurrencyQueue.{cxx,hxx}: `add`, `remove` and `on_deferred_start` are
--             Add, Remove and OnDeferredStart, and `Step` is what can happen to a queue. Queue/Moves
--             and Valid are about its invariant, Settle about its event.
--   Cache     src/cache/Cache.cxx and the items' life of src/cache/Item.{cxx,hxx}: `add`, `put`, `get`,
--             `remove`, `remove_all_match`, `expire_callback` and `need_room` are the methods of that
--             name; `Change` in Cache/Reach is what can happen to a cache. Cache/Valid is about the
--             invariant, Room about NeedRoom, Steps and Put about each operation. Cache/Match has the
--             operations that follow the hash set: `get_match`, `put_match`, `remove_key`, `remove_key_if` and
--             `flush`, and Matched is about them.
--   Uri       src/uri/PNormalize.cxx: `normalize_uri_path` is NormalizeUriPath; `cut_slash` and `cut_dot`
--             are one round of its two loops. Uri/Normal is about the loops, Segments about what they
--             keep, and Path about the whole.
--             Uri/Compare is UriFindUnescapedSuffix of src/uri/Compare.cxx, Suffix is about it.
--   Session   src/bp/session/: the data of Session.hxx, Session/Magic (File.hxx), Session/Codec (the
--             classes FileReader and FileWriter), Session/Write (Write.cxx), Session/Read (Read.cxx) and
--             Session/Save (`load` is SessionManager::Load, `session_manager_save` the function of that
--             name). Session/RoundTrip is about files that have been written, Total and Loaded about
--             any file, Truncated about the start of a file. Session/Attach is src/bp/session/Session.cxx
--             and src/http/CookieJar.cxx: `attach_session`, `attach_realm`, `attach_set` and
--             `attach_widget` are the methods called Attach, `move_from` is MoveFrom. Session/Id is
--             src/bp/session/Id.cxx, and Session/Id/Node joins it with Cluster. Session/Manager is
--             about Purge and Cleanup of src/bp/session/Manager.cxx.
--   StringMap src/strmap.{cxx,hxx}: the methods by their names. StringMap/Laws is about finding a key,
--             Set about replacing a value.
--   HttpCache src/http/cache/: the data of Info.hxx and Document.hxx, HttpCache/Request and Response
--             (RFC.cxx: `request_evaluate` and `response_evaluate`), HttpCache/Vary (`copy_vary` and `vary_fits`
--             of RFC.cxx, and src/http/PList.cxx), HttpCache/Age (Age.cxx), HttpCache/Found (`found_document`
--             and `check_cache_request` are HttpCache::Found and CheckCacheRequest of Public.cxx).
--             Response/Steps is about early returns, Response/Loops and Ages about the loops, Request/Lookup,
--             Response/Stored, Vary/Fits and Found/Conditions are about the decisions.
--   Growing   src/memory/GrowingBuffer.{cxx,hxx}: the operations of GrowingBuffer, and in Growing/Reader
--             those of GrowingBufferReader. Growing/Contents is about what a buffer holds, Writes and
--             Written about what comes to it, Reads about what is taken, Headers about Reserve and
--             Prepend, Refine about sequences of calls.
--   Common    names, tests on numbers and functions on lists that all share.
--   Tests     runs on concrete inputs, and the theorems at such inputs.
--
-- Numbers are natural numbers; where the code computes in a size_t, an uint_least32_t or an
-- unsigned, the wrap-around is written out. Bytes are numbers, and a text is a list of them, so
-- an input span is the list of its bytes and an output buffer is the list of what has been
-- written. A loop has fuel where it is not structural: the loop of ParseInput has as much as the
-- input has bytes, since a round takes one at least; html_unescape has one more than that, since
-- a round takes an ampersand; PickModulo and Get have the size of the list; NeedRoom one more
-- than the cache has items; the loops of NormalizeUriPath one more than the path has bytes;
-- OnData of the escaping istream one more than the data; the loops over the lists of a session
-- file and the loop of Load one more than the file has bytes, since a round reads a magic number;
-- the loop of GrowingBuffer::Write as much as there are bytes, since a round writes one; Purge one
-- more than the manager has sessions, since a round takes one.
--
-- The functions of libcommon that HTML.cxx calls (Split, IsDigitASCII, ParseHexDigit and
-- UnicodeToUTF8) are the record `Libcommon`, and what is relied on is the record `IsLibcommon`.
-- The check of a cluster member, which asks the failure manager and the clock, is a function
-- argument. The sink of the escaping istream is the list of its answers. The event of the queue
-- is a flag, and the event loop runs it in a step of its own. The hash set of the cache is the
-- list of what it holds, and its `find` is an argument, which relies on the record `IsFinder`; what it
-- finds under a condition and what it disposes is the record `HashSet`, with `IsHashSet`.
-- StringIsEqual and StringEndsWith of libcommon are the record `StringCompare`, with
-- `IsStringCompare`. How the machine stores numbers in a session file is the record `Machine`,
-- with `IsMachine`; the clock of Load is a test of an expiry, and its random secrets a sequence of
-- numbers. ParseHexDigit is a function argument where it is used alone. StringIsEqual of two texts
-- is a function argument with `IsStringEqual`. The cache's handler is told of each item, and does
-- not call the cache back.
--
-- The hash array trie of libcommon that a StringMap stands on is the interface `Trie`, with `IsTrie`,
-- and what libcommon does with header texts and dates is the record `Util`. Times are integers of
-- nanoseconds, with the code's special values -1 s and duration::min(); the loop of http_list_split has
-- as much fuel as it takes items, 64.
--
-- Not modelled: sockets, processes and events, the pools, the HTTP, FastCGI and WAS protocols,
-- the bucket lists of DechunkIstream, the storing of responses in the HTTP cache, the filter cache,
-- the session manager but for its file and its purge, widgets and the translation protocol.
pub mod Cache
pub mod Chunk
pub mod Cluster
pub mod Common
pub mod Dechunk
pub mod Escape
pub mod Growing
pub mod HttpCache
pub mod Queue
pub mod Session
pub mod StringMap
pub mod Tests
pub mod Uri
