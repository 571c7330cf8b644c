-- ===== src/Lib.antt =====
-- A model of rpcpp, a C++ library for JSON-RPC 2.0 servers with typed methods (the files of the
-- repository's src/).
--
-- How the program is put together. A transport (src/transports) reads frames off a stream with a framer
-- (src/Framer.h) and hands each to RpcServer::processMessage (src/RpcServer.h). The server decodes the
-- envelope (src/RpcEnvelope.h) with its codec (src/Codec.h), finds a handler by the method's name, and
-- answers at once, or hands the handler an AsyncContext (src/Resolver.h) through which any thread of the
-- host program answers later; that answer goes through the transport's send. TypedRpcServer
-- (src/TypedRpcServer.h) makes such handlers of C++ methods and records their signatures.
--
-- Which file models what:
--   Base: shared names, Boolean tests, lists, texts (lists of character codes), association lists for
--     std::map and std::unordered_map, the bitwise `or` of disjoint numbers.
--   Framer: LineFramer and Length32Framer; Framer/Line and Framer/Length32 on each of them, and
--     Framer/Stream on a stream of frames under any framing.
--   Envelope, Codec: the JSON-RPC envelopes, and a codec as a record. reflect-cpp's types are names `Ty`.
--   Async: the two one-shot states of src/Resolver.h; Async/Race splits the operations of one request's
--     context for any number of threads, and Async/Race/Once is about all their interleavings.
--   Net: what asynchronous work shares: payloads sent, the counter `_inflight`, and each context with its
--     owners. Net/Invariant says what holds between two steps; Net/Steps and Net/Calls that each
--     operation keeps it; Net/Lengths and Net/Newest follow one context.
--   Server: the handler tables, processMessage, route, dispatchAsync, waitForInflight. A history is any
--     list of events: messages, registrations, and calls of other threads. Server/Inflight is about any
--     history, Server/Host about what a message leaves as it was, Server/Waiting about the wait,
--     Server/Routing about which handler serves, Server/Settled
--     about a handler that ends without an answer.
--   Transport/Stdio: the loop of StdioTransport::run, the queue and the responder thread; its modules
--     Output, Answers and Delivery follow a payload to the peer, Input a frame to the server, Rounds has
--     the loop without fuel, Stranded and Order are about the exit sentinel in the queue's order.
--   Server/Wakeup: the mutex and the condition variable between waitForInflight and onComplete, as a step
--     relation; Server/Wakeup/Progress is about the threads in it.
--   QuickJs: the engine's C API as a record, and the references that are begun and ended. QuickJs/Reader and
--     QuickJs/Writer are src/qjs/Reader.hpp and Writer.hpp with qjs::read and qjs::write; the Ownership module
--     below each is about the references, and QuickJs/Integers about the integer conversions. QuickJs/Laws has
--     the documented behaviour of arrays, plain objects and simple values; QuickJs/Shapes the trees of simple
--     values, null, arrays and objects that a client of the writer can make. Below it, Write has the client's
--     calls, Represents says when a value stands for a tree, Read what the reader's methods give at each
--     node, and RoundTrip is about both.
--   Transport/Concurrent: the moodycamel queue as a record. Transport/Queue is QueueTransport, and
--     Transport/QuickJs the deferred values of src/codecs/QuickJSCodec.h and QuickJSTransport; Drain is about
--     drain on its own, and Answers about a server whose output goes through it.
--   Typed: TypedRpcServer::addMethod and what it records; Typed/Async addAsyncMethod with its resolver
--     (Typed/Async/Kept where a method keeps it), Typed/Names methodName, Typed/Schema generateSchema.
--     Typed/Decoding and Typed/Registry are the theorems on the first two, and the modules below
--     Typed/Schema those on the document and on replaceAll. Typed/Dispatch follows a request for an
--     asynchronous method through the server, Typed/Overloads has the forms that derive the name or use
--     the server's own object, and Typed/Discovery has addDiscoveryMethod, where the two maps of the typed
--     server are part of the state that the handlers see. Typed/Signature is the part that runs at compile
--     time, on a data type of C++ types, and its modules Binding and AsyncBinding are about the calls it makes.
--   Tests: a codec over lists of numbers, and the theorems below that have hypotheses at a concrete input.
--
-- Concurrency: in a history, every operation of a context is one atomic step, and the steps of the threads
-- come in any order, as a list of calls. Two step relations split these steps: Async/Race the exchange of
-- `done` from the callback, for the threads that answer one request; Server/Wakeup the counting down in
-- onComplete from its lock and its notification, and the load of the counter in waitForInflight from the
-- sleep, for a waiting thread and any number of completing ones.
-- The operations of a concurrent queue come one after another.
--
-- Fuel: the loop over the frames has one round more than the stream has bytes. A frame that is read takes
-- at least one byte off the stream, so the loop has ended by then (Transport/Stdio/Rounds). The loop of replaceAll
-- has one round more than the text is long (Typed/Schema/Replace); the digits of a number n are written
-- with n + 1 rounds, and each round divides by ten.
-- The drain of the QuickJS transport has one round more than the queue has items; it is called while nothing is sent.
--
-- Parameters: the codec and the parser of reflect-cpp (a parser over the QuickJS reader or writer is any
-- program made of their methods), the schemas and decoders of Typed (`Reflection`), generic values
-- (`Generics`, `Documents`), the QuickJS engine (`Engine`, and `View` with `Laws` for what it does
-- with the values it made), the handlers, methods and callbacks of the host program with
-- its state and which of its types have default constructors, and the queues, which are moodycamel's: any order that keeps the order of each
-- producer's items for Delivery and Stranded, and a record of laws (`ConcurrentQueue`) for the queue and QuickJS transports.
--
-- Not modelled: the JSON and MessagePack codecs (they forward to reflect-cpp), set_binary_stdio, streams that fail otherwise than by
-- their end, a handler that calls processMessage or registers handlers itself, and the TypeScript client and
-- code generator. A codec's reading has no effect in the model of the server, so the QuickJS reader stands
-- beside it and not below it; the writer's end_array and end_object do nothing and are left out. The engine
-- is a parameter, so what JavaScript code in a getter does is not said; QuickJs/Shapes leaves
-- out objects whose keys the engine would put in another order, and does not say which calls the parser of
-- reflect-cpp makes for a C++ type. C++ function types, and
-- whether a class can be copied or moved, are left out of Typed/Signature. `_inflight` is an int in the
-- source, which wraps, and here a number without bound: they differ from 2^31 contexts alive at once. The
-- reader's conversion to a floating type is that to double; float would round once more. The items of a
-- run of the stdio transport are the history of what was enqueued, with no thread numbers of their own.
-- What the peer of the stdio transport reads is taken to be the same loop over the same framing.
pub mod Base
pub mod Framer
pub mod Envelope
pub mod Codec
pub mod Async
pub mod Net
pub mod Server
pub mod Transport
pub mod Tests
pub mod Typed
pub mod QuickJs
