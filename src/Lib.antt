-- ===== src/Lib.antt =====
-- The CANopen receiver of the OpenTelemetry collector: a model of its Go code under
-- receiver/canopenreceiver and the theorems about it.
--
-- The program reads CAN frames from one interface. `dispatchLoop` (receiver.go) takes each frame
-- to the SDO poller, to the poller of raw transactions, and, unless that one claims it, to the
-- sniffer (internal/sniffer), which classifies it, decodes its fields (internal/codec), follows
-- SDO transfers (internal/sdoobserver) and adds points and log records to two builders
-- (internal/emit). These are flushed to the collector after every frame. The configuration
-- (config.go) is checked once, before. The factory (factory.go) makes one receiver for the
-- pipelines of a component; the frames come from a connection (internal/cantransport).
--
-- Which file models what:
-- - Prelude and its children: the shared names; Tests (comparisons, `if`, keys of maps), Lists,
--   Int (signed integers), Maps (Go maps), Bits (laws of `&` and `|`), Text (forms of
--   `fmt.Sprintf`).
-- - Codec/Types, Codec/Decode: receiver/canopenreceiver/internal/codec/codec.go. Codec/Field is an
--   independent description of a field as bits of one number; Extract, Range, Roundtrip and Calm
--   are proofs. An `int` has 64 bits and its sums wrap; a panic is a value, `panicked`. Floats are
--   IEEE 754 bit patterns, and their arithmetic is the parameter FloatOps.
-- - SdoObserver/Types, SdoObserver/Observe:
--   receiver/canopenreceiver/internal/sdoobserver/observer.go, as steps of an explicit map of
--   transfers by channel. Sender is an independent description of the frames of a standard
--   transfer; Channels, FrameFields, Segments, Reports, Transfers and Expedited are proofs.
-- - Transport, Transport/Conn: the frame and the results of a connection, of
--   receiver/canopenreceiver/internal/cantransport/cantransport.go. Transport/Bus: fake.go there,
--   the in-memory bus; a pointer to a connection is its number, and what a Go `select` chooses is
--   an argument. Delivery, Conns, Order and Closing are proofs; Members has the states that the
--   bus reaches. Transport/Socket: socketcan_linux.go there; what the socket does in a call is an
--   argument.
-- - Emit/Types: the points and records of receiver/canopenreceiver/internal/emit (metrics.go,
--   logs.go). Emit/Metrics and Emit/Logs: its builders, over the collector's data as lists of
--   resources with their metrics and records; what the collector's library does when a point is
--   appended to the wrong kind of points is a parameter. Series, Records, Keys and Kinds are proofs.
-- - Sniffer/Types, Fields, Handlers, Sdo, Dispatch:
--   receiver/canopenreceiver/internal/sniffer/sniffer.go, the state, `emitFields`, the handler of
--   each kind of frame, and `HandleFrame`. A handler gives what it emits and the state that it
--   leaves, or `crashed`. Allowed, Outputs, Heartbeats, Channel, Calm and
--   Total are proofs.
-- - Config/Checked, Types, Fields, Sdo, Raw, Validate: receiver/canopenreceiver/config.go, one
--   function for each check, in the order of the code. An error is reduced to its cause. Enabled
--   and Accepted are proofs.
-- - RawPoller/Attempts, Requests, Retries, Schedule: receiver/canopenreceiver/raw_poller.go,
--   `handleFrame` with the record it emits, `pollOnce`, the retry loop `poll`, and `run`.
--   Backoff, Validated, Claims, Outputs, Rounds and Calm are proofs.
-- - SdoPoller/Poll, Results, Schedule: receiver/canopenreceiver/sdo_poller.go, an attempt as a
--   state machine over the frames that arrive, its end, its retry loop, and `run`. Upload,
--   Sniffed, Accepted and Rounds are proofs.
-- - Receiver/Build, Dispatch: receiver/canopenreceiver/receiver.go, `buildSnifferConfig`, one pass
--   of `dispatchLoop` and the flushes; what waits in a builder is kept as the calls of `Add`, from
--   which Emit/Metrics makes the batch, a call that makes it panic is a panic of the receiver, and a
--   history of the calls is kept beside the state, for the proofs. Lifecycle: `Start`,
--   `Shutdown` and the goroutines between them, as a relation of steps; each step is what one
--   goroutine does in one critical section, so that all interleavings of these are covered. A
--   poller's goroutine returns when its mode lets it, or once the context is cancelled.
--   Adds, Outputs, Pending, Sound, Delivered, Passes, Errors, Pdos, Decodables, Mixed,
--   Safe and Unbroken are proofs.
-- - Factory: receiver/canopenreceiver/factory.go, the table of shared receivers; a pointer to a
--   receiver is its number. Sharing and Pipelines are proofs.
-- - Publisher: cmd/canopen-publisher/main.go, the development tool that simulates a node; the ticks
--   of its timers and the speeds are arguments. Heard is proofs.
-- - Examples: concrete runs.
--
-- Numbers and bounds: bytes, COB-IDs, indices and lengths are natural numbers; a conversion to a
-- narrower width is written out as a remainder. Durations are signed numbers of nanoseconds, and
-- doubling one wraps at 64 bits. The loops over lists are structural. The retry loop takes fuel,
-- one for each attempt, and n retries make n + 1 attempts; a run of transactions takes fuel for
-- each round, and may go on for ever. Prelude/Text prints at most 20 digits, which covers every
-- number of 64 bits.
--
-- The world is a parameter: `Turn` says of each attempt whether it succeeds and whether the
-- context is cancelled; `Library` is what the receiver takes from other packages, the arithmetic of
-- floats and the collector's answer to points of the wrong kind. Locks are left out: a step of the
-- receiver is what happens under one of them. The collector is taken to call `Start` at most once
-- before `Shutdown`, as it documents.
-- The order of a Go map is not modelled: maps are lists with one entry for each key.
--
-- Not modelled: the socket itself and the packages of go.einride.tech/can, timers, timestamps, the
-- program's own logging except whether a receive error is logged, the registration with the
-- collector, and the generated constants.
pub mod Prelude
pub mod Codec
pub mod SdoObserver
pub mod Transport
pub mod Emit
pub mod Sniffer
pub mod Config
pub mod RawPoller
pub mod SdoPoller
pub mod Receiver
pub mod Factory
pub mod Publisher
pub mod Examples
