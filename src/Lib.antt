-- ===== src/Lib.antt =====
-- xde, a download engine that fetches one artifact over many connections and mirrors.
--
-- A download is one artifact of a known or unknown length. Workers are given ranges of its bytes,
-- fetch them over HTTP, write them to a destination and report what is durable. The parts that
-- decide who fetches which byte are modelled here; they are pure data structures that the
-- controller (crates/xde/src/core/controller.rs) drives.
--
--   Core/Ranges     crates/xde/src/core/ranges.rs: half-open byte ranges, and sets of bytes as
--                   sorted lists of ranges with a counter. Insert and Remove compare the spliced
--                   vectors of the code with a walk over the list.
--   Core/Segment    crates/xde/src/core/segment.rs: the plan of a transfer. Plan has the state,
--                   Claim how a worker gets a range, Progress what reports do to it, Stragglers the
--                   statistics, the rebalance and the ETA. A plan is passed and returned where the
--                   code takes `&mut self`; the field `range` of an assignment is `span` here.
--                   Ownership states the invariant of a plan byte by byte; its children show that
--                   the operations keep it, and Runs puts them together as a step relation.
--   Core/Policy     crates/xde/src/core/policy.rs: policies, their defaults and their clamping.
--   Core/Disposition   crates/xde/src/core/disposition.rs and error.rs: what to do about a status or
--                   an error.
--   Core/Provenance    crates/xde/src/core/provenance.rs: which source wrote a byte first.
--   Core/Representation   crates/xde/src/core/representation.rs: whether two responses are about the
--                   same bytes. Matches compares fingerprints, Lock is the evidence a job holds on to.
--   Core/Timers     crates/xde/src/core/timers.rs: timed events and the order in which they leave.
--   Core/Units, Core/Ewma   crates/xde/src/core/units.rs and ewma.rs: rates and moving averages.
--   Core/SlotMap    the `slotmap` crate as an interface with the behaviour it documents;
--                   Core/Slots is a small implementation for the examples.
--   Storage/Reorder crates/xde/src/storage/reorder.rs: chunks that come in any order, and a sink
--                   that gets them in order; the sink is a parameter, and a push that fails may
--                   leave it in any state.
--   Storage/Budget  crates/xde/src/storage/transfer.rs: the memory that payloads may hold together.
--   Storage/Capacity   crates/xde/src/storage/capacity.rs: the credits of a destination.
--   Storage/Journal crates/xde/src/storage/journal.rs: the record that a transfer resumes from, its
--                   framing on disk and the operations that change it. The codec and the checksum are
--                   parameters.
--   Http/Text, Http/Range   crates/xde/src/http/range.rs: the Content-Range header as text, and its
--                   check against the request.
--   Http/Fetch      crates/xde/src/http/fetch.rs: the frames of a range response, cut into chunks for a
--                   sink whose boundary moves.
--   Http/FullBody   the same file: the frames of a response without a range.
--   Http/Response   the same file: the checks of a range response, which put the status
--                   (Core/Disposition), the Content-Range (Http/Range) and the lock of the job
--                   (Core/Representation) together.
--   Integrity/Overlap   crates/xde/src/integrity/overlap.rs: the comparison of bytes that were fetched
--                   twice.
--   Shard/Sink      crates/xde/src/shard.rs: the sink of one source, which uses Core/Provenance to
--                   compare a chunk with what other sources wrote. A call of `accept` is a
--                   sequence of accesses to the file and the provenance that all sinks share;
--                   Interleaved puts those of other sinks between them, and Race lets two sinks
--                   write the same byte. Each read and write of the lane is one access.
--   Prelude         Boolean tests, lists and options over the native numbers, 64-bit words.
--
-- Integers. A u64 is a number; `wadd` and `wsub` wrap around at 2^64 where the code writes `+` and
-- `-` (release builds wrap), `sat_add` and `sat_mul` saturate, and a truncating subtraction is
-- `saturating_sub`. Times are nanoseconds. `clamp` has no value where Rust's panics, and the
-- functions that reach it return an Option.
--
-- Floating point. `f64` is the record Float of Core/Units with the operations the code calls, and
-- no laws: every theorem holds whatever the estimates are.
--
-- Fuel. The search for a claimable gap is a `while` loop in the code. Its model takes the length of
-- the artifact plus one as fuel, since every round moves on by a byte at least; running out of fuel
-- is told apart from finding no gap. The loop over a
-- frame takes the length of the frame plus one, and draining timers the number of timers, for the
-- same reason.
--
-- Concurrency. Where tasks share a budget, credits or a journal, the model is a step relation over
-- the shared state, with a step for every atomic action of the code, and runs are sequences of steps
-- of any tasks in any order. The sinks of one artifact are
-- such tasks: other calls have accesses between those of a call, in any state, for chunks that share
-- no byte with its own, as the plan sees to. The boundary that another worker may lower while a response is read is
-- a function of the round in which it is read.
--
-- Limits of the step relation of Core/Segment/Ownership/Runs. It is about sources that serve ranges
-- and artifacts of a known length below 2^64 - 1. Deferring asks that the range is idle, and
-- finishing that what was committed lies in the artifact and is not deferred; the controller
-- defers only what it has just abandoned. `invalidate` is modelled and is not a step.
--
-- Not modelled: asynchronous I/O (crates/xde/src/net, runtime), requests and probes
-- (http/fetch.rs, http/probe.rs), files and lanes (storage/file.rs, storage/lane.rs), the controller
-- and the world (core/controller.rs, core/world.rs), the control loop, and of the shards all but the
-- sink. Dates, URLs and header maps belong to third-party crates.

pub mod Prelude
pub mod Core
pub mod Storage
pub mod Http
pub mod Shard
pub mod Integrity
