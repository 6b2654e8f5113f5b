-- ===== src/Lib.antt =====
-- juce_simpleweb: a JUCE module around Simple-Web-Server and Simple-WebSocket-Server, with HTTP
-- and WebSocket servers and a WebSocket client over asio. This library models the parts that
-- carry the protocol and its state, translated from the headers by hand, and proves what they
-- promise.
--
-- The parts, and the files that model them:
--   * Percent, CaseInsensitive, HttpHeader, RequestMessage, ResponseMessage, QueryString:
--     common/utility.hpp. Percent::encode and decode; case_insensitive_equal and the hash of the
--     multimap; HttpHeader::parse and the loops that write header fields (write_handshake in
--     websocket/server_ws.hpp, upgrade in websocket/client_ws.hpp); RequestMessage::parse and
--     ResponseMessage::parse, with the theorems in their RoundTrip, in RequestMessage/Scan and in
--     HttpHeader/Lines; QueryString::create and parse. Attributes is the parser of
--     SemicolonSeparatedAttributes of the same file. Bytes holds the operations of std::string
--     and std::istream that these use.
--   * StatusCode: common/status_code.hpp (webserver/status_code.hpp is the same file).
--   * Base64: base64_encode and base64_decode of common/WSCrypto.cpp.
--   * Handshake: write_handshake of websocket/server_ws.hpp up to the text that it writes, and
--     the check of the answer in upgrade of websocket/client_ws.hpp.
--   * Frame: the bytes of the frames that the `send` of either side builds, and the loops that
--     read a length and undo the mask.
--   * SendQueue: send_queue, send_from_queue and the handler of its writes, which the server's
--     connection, the client's connection and the response of webserver/server_http.hpp share in
--     form.
--   * WsServer: Connection of websocket/server_ws.hpp with its timers, send and send_close, and
--     connection_open, connection_close and connection_error; WsServer/Reader: read_message,
--     read_message_content and the handlers of their reads; WsServer/Opening: read_handshake and
--     the handlers of write_handshake, and upgrade. WsServer/Transport, Messages, Fragments,
--     Control, Limits, Events and ReadEvents hold the theorems on them.
--   * WsClient: Connection of websocket/client_ws.hpp and the callbacks of the client;
--     WsClient/Upgrade: parse_host_port, the constructor, and the request that upgrade writes;
--     WsClient/Reader: the handlers of upgrade's response and of read_message and
--     read_message_content; WsClient/Connect: connect with its proxy, and the handlers of the
--     resolver and of the socket. WsClient/Transport, Steps, Frames, Messages, Request, Opening
--     and Handshakes hold the theorems on them. Buffers is a lemma on bytes that are read ahead.
--   * HttpServer: the settings and a session of webserver/server_http.hpp; HttpServer/Response:
--     write_header and the calls of write; HttpServer/Routes: find_resource; HttpServer/Reader:
--     read and read_chunked_transfer_encoded; HttpServer/KeepAlive: the handler in write that
--     runs when a response was sent; HttpServer/Writing: the exceptions in write;
--     HttpServer/Accepting: accept, which websocket/server_ws.hpp has as well;
--     HttpServer/Stopping: stop. HttpServer/Arrival says how the bytes of a client arrive, and
--     Head, HeadRead, Until, Lines, Chunks, ChunkedBody, ChunkedRequest, Bodies, NextRequest,
--     Answers, Framing and Routing hold the theorems.
--   * Numerals: std::stoul and std::stoull, and the decimal text of a number, as
--     webserver/server_http.hpp and websocket/client_ws.hpp use them.
--   * ScopeRunner: the class of that name of common/utility.hpp, which every handler asks for a
--     lock before it touches a connection.
--   * JuceServer: SimpleWebSocketServer of SimpleWebSocketServer.cpp, with its map of
--     connections, send, sendTo, sendExclude, closeConnection, its callbacks and the calls of its
--     listeners; JuceServer/Upgrade: onHTTPUpgrade; JuceServer/Startup: the endpoint and the
--     settings of initServer; JuceServer/Stopping: get_connections and stop of
--     websocket/server_ws.hpp; JuceServer/StopInternal: stopInternal with these and with the stop
--     of the web server. Sending, Broadcasts, Directed, Agreement, Lifecycle, Runs, Hearing,
--     FramesHeard and UpgradeOpens hold the theorems.
--   * FileService: httpDefaultCallback and serveFile of SimpleWebSocketServer.cpp, of the plain
--     server and of the secure one; FileService/Responses: what is sent when the callback throws.
--     Confined, Delivered and Secure hold the theorems. MimeTypes: MIMETypes.h.
--   * JuceClient: SimpleWebSocketClientBase and SimpleWebSocketClient of
--     SimpleWebSocketClient.cpp; Flags and Stopping hold the theorems.
--   * HashMap: what juce::HashMap documents, as an interface; HashMap/Listed meets it with a
--     list.
--   * Prelude: names of the libraries, Boolean tests, lists over native numbers, bits. Tests:
--     each theorem of the list below applied to concrete data.
--
-- How they fit: a client's frame (Frame) arrives as the reads of a connection (WsServer/Reader);
-- a handler that has the lock of the scope (ScopeRunner) passes messages to the callbacks of the
-- endpoint, and answers through the connection's queue (SendQueue). Before that, the request
-- (RequestMessage) is answered by the handshake (Handshake), whose accept key is Base64 text; the
-- client (WsClient) writes that request, checks the answer and reads the server's frames. A
-- session of the HTTP server (HttpServer) reads a request, gives it to the function of a
-- resource, and starts a new session on the same connection when the response was sent. A request
-- with an Upgrade field goes to onHTTPUpgrade (JuceServer/Upgrade) instead, which makes a
-- connection of the socket server of it; the endpoint's callbacks keep the map of the connections
-- (JuceServer over HashMap) and call the listeners, and the program sends over that map. Other
-- requests get files (FileService), whose type is looked up (MimeTypes).
--
-- Interfaces and parameters: juce::HashMap is a record of operations and laws; juce::File and
-- String::contains a record of functions (FileSystem); the text of a connection's address and the
-- String that JUCE makes of bytes are functions; a handler of HTTP requests is a function of the
-- request and of the response's text. A connection of the server is named by a number in place of
-- its shared pointer.
--
-- Reads: a read up to a delimiter completes when the buffer holds the delimiter, with any number
-- of bytes behind it; the theorems on the HTTP server and on the client's handshake hold for
-- every such number. A read of a number of bytes completes with that number.
--
-- State is passed explicitly: an operation takes the connection or the queue and returns it, and
-- `none` stands for undefined behaviour of the source (the front of an empty list), or for an
-- exception out of a handler. What runs later, the completion of a read or a write or a timer, is
-- an operation of its own, so that the order of the completions is that of the operations. The
-- callbacks of the endpoint are opaque, and their calls are recorded in `log`; those of a send
-- are numbers, recorded in `called`.
--
-- Numbers: a std::size_t has 64 bits, and the sums that can wrap are written modulo 2 ^ 64; bytes
-- are numbers, below 256 where a theorem needs it. An unsigned long has 64 bits, as on Linux and
-- macOS; on Windows it has 32, and there std::stoul throws on a longer chunk size. The header
-- parser runs on fuel, one more than the length of its stream, of which each round takes at least
-- one byte. The decimal text of a number runs on the number as fuel, which its length is below.
-- All else is structural.
--
-- Containers: a CaseInsensitiveMultimap is the list of its fields. Where several fields have one
-- name, unordered_multimap::find may give any of them, and the model gives the first.
--
-- Not modelled: bytes that a client sends behind its handshake request before it has the answer,
-- which the server's connection keeps in its buffer (WsServer/Opening); the wait of a web
-- server's destructor for the locks of its scope; asio and its sockets; TLS; JUCE's threads, its
-- locks and the list of the listeners, which are told in one call; the copies of the callbacks
-- that SecureWebSocketServer and SecureWebSocketClient have over TLS; SHA-1 (a copy of smallsha1,
-- a parameter of the handshake); std::regex (a parameter of the routes); what a resource's
-- function does, but for the default one; start of the servers and of their io_service; dates;
-- the choice of a mask or a nonce at random; running out of memory.
pub mod Prelude
pub mod Percent
pub mod Bytes
pub mod CaseInsensitive
pub mod HttpHeader
pub mod RequestMessage
pub mod ResponseMessage
pub mod Frame
pub mod SendQueue
pub mod WsServer
pub mod ScopeRunner
pub mod QueryString
pub mod Attributes
pub mod Base64
pub mod StatusCode
pub mod Handshake
pub mod HashMap
pub mod HttpServer
pub mod JuceServer
pub mod JuceClient
pub mod MimeTypes
pub mod FileService
pub mod Numerals
pub mod Tests
pub mod WsClient
pub mod Buffers
