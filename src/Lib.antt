-- ===== src/Lib.antt =====
-- The client side of the Wayland protocol: the transport of the package client and the
-- generated bindings.
--
-- A `Context` owns one connection. The application calls requests of the generated types; a request
-- registers the objects that it creates, builds a frame and gives it to `WriteMsg`. `Dispatch` reads
-- one frame with `ReadMsg`, finds the sender in the table of objects and calls its decoder, which
-- calls the application's handler. Descriptors arrive beside the bytes and wait in a queue until an
-- event that carries one takes it. The first failure becomes sticky: it closes the descriptors that
-- wait, and every later call returns it.
--
-- - World, World/Errors: the state. `Context` and `BaseProxy` (client/context.go,
--   client/common.go), the Go heap as a function from pointers to objects, the descriptors that were
--   closed or handed over, what the coming reads and writes of the socket will do, and what the
--   socket has accepted. A call returns or panics, with the state at that point.
-- - Ids: `Register`, `RegisterWithID`, `Unregister`, `DeleteID` and `GetProxy` (client/context.go).
--   Its children are about the well-formedness of the table, allocation, reuse and whole histories.
-- - Wire: `Uint32`, `String`, `PutUint32`, `PutString`, `PutArray` and `PaddedLen` (client/event.go,
--   client/request.go, client/util.go), the decoder of a string or array argument, and the body of
--   a request, as the scanner generates them into client/client.go.
-- - Fatal: `setFatal`, `Close`, `putBackFD`, `recordDisplayError`, `closeReceivedFD`
--   (client/context.go) and `closeFDs` (client/event.go).
-- - Socket: `ReadMsg`, `readExactWith`, `getFdsFromOob` and `takeFD` (client/event.go).
-- - Send: `WriteMsg` and `writeFrame` (client/request.go).
-- - Dispatch: `Dispatch` (client/context.go), with the deferred recovery of panics; the optional
--   interfaces of an object (client/common.go) are the record of Dispatch/Interfaces.
-- - Bindings: the generated code of client/client.go, idle/ext_idle_notify.go,
--   cursorshape/cursor_shape.go, cursorshape/tablet_v2.go, sessionlock/ext_session_lock_v1.go and
--   textinput/text_input.go. Events has a data type for the events of each type, Decoders a file for
--   each type with `Dispatch`, `HasFD` and `AbsorbNewIDs`, Requests a file for each type, Table what
--   the type assertions of `Dispatch` find, and Enums the enumerations with `Name`, `Value` and
--   `String`. Objects has what the decoders share. Keeps is about relations between the state before
--   a decoder and the state after it, one for each way to build a decoder, and for a whole `Dispatch`.
--   Release, Protocol, Arrivals and Departures follow events and a request of wl_display and
--   wl_registry.
-- - Roundtrip: `Roundtrip` (client/display.go), over the requests, the decoders and the dispatcher;
--   Roundtrip/Turns has its loop as a relation.
-- - Connect: `Connect` and `unixConnFromFD` (client/context.go). Connect/Runtime has what they ask of
--   the system, Connect/Start the display on the new connection.
-- - Scanner: the helpers of the code generator (cmd/sysc-wayland-scanner/main.go) that decide about
--   names, destructors, absorbers and imports.
-- - Base: shared names, tests and lemmas. Runs: a small connection on which the theorems are applied.
--
-- Bytes, IDs and words are natural numbers. A uint32 that is written is reduced modulo 2 ^ 32, and
-- one that is read is made of four bytes. A descriptor -1 and a nil pointer are `none`. The end of
-- the slice `freeIDs` is the head of `free_ids`.
--
-- Loops recurse on the data that they consume: `readExactWith` on the list of coming reads, behind
-- which the peer has closed the connection, `writeFrame` on the list of coming writes, behind which
-- a write fails with EPIPE, and the loops of `Register` on the released IDs and on the distance of
-- the counter to the first server ID, which is the bound that the code tests. The loop of
-- `Roundtrip` has fuel, for each `Dispatch` one; the number of coming reads plus one is enough, since
-- behind them every read fails. A peer that stays silent and does not close, for which the code
-- blocks, is not represented. The variable `done` of `Roundtrip` is a field of the state, indexed
-- by the callback that it waits for.
--
-- Parameters: the control message parser of golang.org/x/sys/unix (Socket/Kernel), `UnixRights`,
-- the answers of the system to `Connect`, the camel case of the package strcase, the handlers of
-- the application, and the methods of the types that are not modelled.
--
-- Not modelled: `ControlFD` and `SetReadDeadline`, which only call the runtime; reads that block, as
-- against reads that bring something, fail or find the peer gone; the conversion of fixed numbers to
-- float64 (a fixed number is its 32 bits); the text of errors; the writers of the scanner, which
-- produce text, and the socket pair of the tests (internal/waylandtest/pair.go).
pub mod Base
pub mod World
pub mod Ids
pub mod Wire
pub mod Fatal
pub mod Socket
pub mod Send
pub mod Dispatch
pub mod Bindings
pub mod Roundtrip
pub mod Connect
pub mod Scanner
pub mod Runs
