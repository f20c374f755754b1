-- ===== src/Lib.antt =====
-- A model of jetblack_fixengine, a FIX engine over asyncio, and proofs about it.
--
-- A FIX engine, an initiator or an acceptor, exchanges numbered messages with a peer. Bytes come in
-- through a reader, which cuts them into messages. The main loop of the engine takes these, or a
-- timeout, one at a time, after sending a heartbeat where one is due, and gives them to the state
-- machine of the transport. That saves and decodes a message, calls the application or the admin state
-- machine, and records the message's number. The admin state machine runs the protocol: logon,
-- heartbeats, test requests, resets of the numbers and logout; its handlers send messages.
--
-- ReadBuffer is jetblack_fixengine/transports/fix_read_buffer.py and fix_events.py: the parser's object
-- as the record `FixReadBuffer`, each method as a function of it. The loop of `next_event` has fuel 4,
-- which is enough for every sound state. ReadAsync is transports/fix_reader_async.py: the generator over
-- the list of what the stream reader returns, with a number of rounds.
-- Exceptions is the monad of the methods, which change an object and may raise; what is changed before
-- an exception stays changed. Its exceptions are those of types.py and Python's.
-- Machine is admin/state_transitions.py and admin/state_processor.py, which
-- transports/state_processor.py repeats: a table of transitions, a table of handlers, and the loop
-- `process`, with fuel 2 wherever it is used, since a handled event is followed by at most one event,
-- which has no handler that answers.
-- Admin is admin/types.py; Transport is transports/types.py and transports/state_transitions.py.
-- Engine is what initiator/initiator.py and acceptor/acceptor.py share. The record `Engine` holds the
-- fields of the engine and of its two state machines, and what they were given to send. The record
-- `SessionOps` is the interface `Session` of types.py with its laws, `FixApplication` is that of
-- types.py, and `Environment` is the clock, the UUIDs, the message factory of jetblack_fixparser and
-- the configuration. The number of a session is set without an exception there, as a file or, below
-- 2^63, the tables do. `send_encoded` is send_message with a factory that may raise; `Environment` has one
-- that encodes every message it is given, and `send_message` is the first with that.
-- TransportMachine is transports/state_machine.py, over any admin state machine.
-- Initiator is initiator/state_transitions.py and initiator/state_machine.py; Initiator.Call is
-- initiator/initiator.py. Acceptor is acceptor/state_transitions.py and acceptor/state_machine.py;
-- Acceptor.Call is acceptor/acceptor.py. The main loops go over the list of what `receive` gives, and a
-- message that does not come in time is `none`.
-- DateUtils is utils/date_utils.py, with times in microseconds and days counted from a Monday; the loop
-- over the days has fuel, and a week is enough.
-- Sql is persistence/sql_store.py: the session with the tables that it reads and writes, the
-- statements of SQL as functions of a table, whose integers have 64 bits. Sql.Store is the class
-- SqlStore, over tables that its sessions share.
-- FixTransport is transports/fix_transport.py: the record `Processor` holds the locals of
-- `fix_stream_processor`, what the handler was given and gave, and what was written. The schedule is a
-- list of events: what the handler does, the cancellation, and the sets of tasks that complete together,
-- in the order in which the loop serves them; `AtShutdown` is what the read task and the handler come to
-- after the loop. FixTransport.Order has the steps that raise no exception as a relation.
-- FixTransport.Ends.connect is `initiate` of initiator/helpers.py after `open_connection`, and `accept` of
-- acceptor/helpers.py: the reader and its buffer under the processor. A message's buffer that is None is
-- the empty one, and `drain` does not fail.
-- FileStore is persistence/file_store.py: the session with the folder of its two files, as a list of
-- entries by name. FileStore.Store is the class FileStore, whose sessions are known by their keys.
-- Manager is managers/initiator_manager.py: the wait for the session and the loop of `start`, over a list
-- of rounds, which say how each `initiate` ends, when the cancellation event is set, and whether
-- `asyncio.wait` takes coroutines, as it does before Python 3.11. A wait takes exactly its time.
-- Helpers is acceptor/helpers.py and types.py, initiator/helpers.py and types.py, and
-- start_initiator_manager: Helpers.Config has the configurations, the interface `Store` of types.py as the
-- record `StoreOps`, and what each engine takes of its configuration; Helpers.Connections has `accept`,
-- `start_acceptor`, `initiate`, `start_initiator` and the manager's loop over engines and a store. Each
-- connection is the list of what its engine receives and, for an initiator, how `initiate` ends; the
-- store's sessions are what its engines have left.
-- Helpers.Continues is what one connection keeps for the next.
-- Cancellation is utils/cancellation.py: the loop's table of signal handlers, the event and the log.
-- Peers has an initiator and an acceptor that are each other's peer. What the parser promises is that a
-- message which one encodes is decoded by the other with its type, number and texts; Peers.Receiving is
-- the round of an engine that receives such a message, and Peers.Dialling and Peers.Answering are the two
-- sides of the logon. Peers.Wire puts two connections together, with the bytes between them.
-- Prelude and Bytes hold the shared notation and the operations of Python's bytes; Bytes.Decimal is the
-- decimal print of an integer, Bytes.Text is UTF-8, `quote_from_bytes`, `hex` and `split`. Tests holds the
-- theorems at concrete data.
--
-- Times are natural numbers of one zone, so a clock that goes back, leap seconds and daylight saving
-- are not modelled. A decoded message has integer, text and Boolean fields. Handlers run one after
-- another, as they are awaited, and the connections of a server come one after another. Not modelled:
-- asyncio's loop, server and tasks, the sockets and SSL, jetblack_fixparser, the loggers, and `wait_stopped`
-- and `_handle_error`, which change nothing.
pub mod Prelude
pub mod Bytes
pub mod ReadBuffer
pub mod ReadAsync
pub mod Exceptions
pub mod Machine
pub mod Admin
pub mod Transport
pub mod Engine
pub mod TransportMachine
pub mod Initiator
pub mod DateUtils
pub mod Acceptor
pub mod FixTransport
pub mod FileStore
pub mod Manager
pub mod Sql
pub mod Peers
pub mod Helpers
pub mod Cancellation
pub mod Tests
