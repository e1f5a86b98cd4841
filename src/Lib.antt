-- ===== src/Lib.antt =====
-- sp-rtk-base-relay: RTCM corrections from one input to many destinations.
-- The program reads bytes from an input, delimits RTCM 3 frames in them, filters the frames for
-- each destination and queues them for the destination's thread, which sends them on.
--
-- The parts, and the code each is about:
-- - Rtcm: `src/sp_rtk_base_relay/rtcm_decoder.py`, RTCMMessageDecoder and CRC24Q_TABLE.
--   Rtcm.Table is the table, Rtcm.Division the remainder by the generator polynomial that the CRC
--   stands for, Rtcm.Residue and Rtcm.Detection what the CRC detects, Rtcm.Fields the fields of a
--   frame, and Rtcm.Encoding an encoder of frames by the standard, which the program has not.
-- - Framing: _parse_frames and _extract_complete_rtcm_frames of
--   `src/sp_rtk_base_relay/core/broadcast_hub.py`. Framing.Steps is one round of the loop,
--   Framing.Chunks and Framing.Streams runs of calls, Framing.Results one call on any bytes, and
--   Framing.Pipeline the loop for the same in `src/sp_rtk_base_relay/core/data_pipeline.py`.
-- - Filter: `src/sp_rtk_base_relay/core/message_filter.py`, FilterConfig and MessageFilter.
-- - Queue: Python's queue.Queue as the program uses it, a list with a maximum size.
-- - Destination: `src/sp_rtk_base_relay/core/destinations/base_destination.py`, BaseDestination with
--   its statistics and its thread. Its subclasses are the interface Destination.Remote.
--   Destination.Loop is what each part does on every branch; Destination.History is a destination
--   over time, as steps of its thread and of the threads that call it, in any order.
-- - Subscription: `src/sp_rtk_base_relay/core/frame_subscription.py`, FrameSubscription.
--   Subscription.Order is a subscription over time, Subscription.Order.Drain its drain().
-- - Hub: the rest of BroadcastHub: the destinations (Hub), the frame subscribers (Hub.Subscribers),
--   and the broadcast thread with both ways of handing out chunks (Hub.Broadcast). A destination is
--   a Destination of the list, a subscriber a Subscription. Hub.Consistency is the hub through any
--   calls, and Hub.Broadcast.Paths what each destination ends up with. Subscribers close through
--   remove_frame_subscriber, as `src/sp_rtk_base_relay/engine.py` sets it up.
--   Hub.Input is how the input source is connected again, with its waits, Hub.Lifecycle start() and
--   stop(). The input source is the interface Hub.Input.InputSource.
-- - Client: `src/sp_rtk_base_relay/core/rtcm_client.py`, RTCMClient, with the states of
--   `src/sp_rtk_base_relay/core/connection_states.py` in Client.States. Client.Heartbeat is
--   HeartbeatMonitor and the rounds of its thread: Client.Heartbeat.Scan how it finds heartbeats in
--   the bytes that come, Client.Heartbeat.Timeouts when it gives up. Client.Calls is the client
--   through any calls. What the socket's calls meet is an argument of each step. The search for
--   heartbeats has the length of the buffer as fuel: each heartbeat that is found takes four bytes.
-- - Events: `src/sp_rtk_base_relay/core/events.py`, EventBus with its replay buffer and
--   EventSubscription. Events.Replay is get_recent(), Events.Delivery what subscribers get over any
--   events and reads, Events.Ending the poison pill. drain() has the queue's size as fuel.
-- - Config: `src/sp_rtk_base_relay/config.py`, the dataclasses of the settings with their checks:
--   Config.Servers the RTCM server and the destinations, Config.Sources the inputs, Config.Settings
--   the rest, Config.Destinations the list of destinations, Config.Overrides the environment
--   variables. Config.Checks relates the checks to each other, to the filter and to the client.
-- - Ntrip: `src/sp_rtk_base_relay/core/ntrip`. Ntrip.Chunked is ChunkedDecoder of `chunked.py`, and
--   how `src/sp_rtk_base_relay/core/destinations/ntrip_destination.py` sends a chunk. Its children:
--   Digits the sizes of chunks, Rounds the loop, RoundTrip what is sent against what is decoded,
--   Pieces, Splits and Whole a body in pieces. The loop has the buffer's length as fuel: each round
--   that goes on takes a byte at least.
--   Ntrip.Reply is how a caster's reply is read and parsed, in `protocol.py`: Ntrip.Headers its header
--   lines, Ntrip.Texts the texts, Ntrip.Reply.Arrival a reply that arrives in pieces. The split of
--   the header lines has the buffer's length as fuel: each line takes a byte at least.
-- - TcpServer: `src/sp_rtk_base_relay/core/destinations/tcp_server_destination.py`, the clients of
--   TcpServerDestination and what it counts. TcpServer.Clients is the set of clients,
--   TcpServer.Receipts the server through any events, and what its clients receive.
-- - Factory: `src/sp_rtk_base_relay/core/destinations/destination_factory.py`, DestinationFactory.
--   A builder is an argument; Factory.Creation is which destinations are created.
-- - Pipeline: `src/sp_rtk_base_relay/core/data_pipeline.py`, the older pipeline, which joins one input to
--   one Client. Pipeline.Relay is a run of it: the parts of its two threads and of the calls of other
--   threads, in any order, several of them at once in stop_relay(); its children Halts, Steps,
--   Reader, Coordinator, Sends and Starts are what each part keeps, Runs what all of them do.
-- - SurePath: `src/sp_rtk_base_relay/core/destinations/surepath_destination.py`, SurePathDestination, a
--   Destination whose remote is a Client. SurePath.History is such a destination over time,
--   SurePath.Prepares and SurePath.Sends what its attempts and its sends keep.
-- - InputFactory: `src/sp_rtk_base_relay/core/input_sources/input_factory.py`, InputSourceFactory, the
--   registry of input sources.
-- - Engine: `src/sp_rtk_base_relay/engine.py`, RelayEngine, which creates the input source and the
--   destinations by the two factories and runs a BroadcastHub on them. Engine.Running is the order of
--   its events and what holds while it runs or not, Engine.Starts and Engine.Requests what each call
--   keeps of it, Engine.Runs any sequence of its calls with the rounds of the hub between them, and
--   Engine.Naming the destinations that it names.
-- - Hub.Feed: the hub's two threads with the queue between them. Hub.Feed.Rounds is what a round of
--   each does to the queue, Hub.Feed.Announced what the input thread announces, and Hub.Feed.Runs the
--   rounds of both in any order.
-- - Prelude: numbers, lists, bits and integers that the parts share.
--
-- How the code is read: a byte is a number below 256, and bytes are a list. A loop that moves an
-- offset through a buffer runs on the rest of the buffer, on fuel: one round for each byte, and
-- each round that goes on takes a byte or more, so the fuel does not run out
-- (Framing.Steps). A loop that empties a queue has the queue's length as its fuel
-- (Destination.Loop). An exception is a value with its text; a clock reading is an argument of the
-- step that reads it. Log lines are left out.
--
-- Not modelled: sockets, serial ports and Bluetooth, which are I/O; the export of metrics, the
-- snapshots of the status, logging and the command line; the NTRIP destination and the requests of
-- the NTRIP client; the building of the configuration from dictionaries, with the overrides for one
-- destination; and, of a destination, two of its threads alive at once.
pub mod Client
pub mod Config
pub mod Destination
pub mod Engine
pub mod Events
pub mod Factory
pub mod Filter
pub mod Framing
pub mod Hub
pub mod InputFactory
pub mod Ntrip
pub mod Pipeline
pub mod Prelude
pub mod Queue
pub mod Rtcm
pub mod Subscription
pub mod SurePath
pub mod TcpServer
