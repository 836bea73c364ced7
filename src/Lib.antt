-- ===== src/Lib.antt =====
-- Verification library for the ingest runtime, runtime/opendata-ingest-runtime/src, and for its plugins:
-- the decoder of OpenTelemetry logs, plugins/opendata-ingest-otel/src, and the ClickHouse sink,
-- plugins/opendata-ingest-clickhouse/src.
--
-- The runtime moves batches of a buffer to a sink. One actor for a source admits batch descriptors
-- under two gates, a semaphore of batches and a byte budget; fetch and decode workers turn them into
-- commits; writer workers hand the commits to the sink with retries. Completions return to the actor,
-- which tells its ack coordinator, advances the frontier past the committed prefix, and acks the source
-- up to there. A batch may complete out of order, so the coordinator keeps what is committed behind a
-- hole. An ack must not pass a range that is not in the sink. The logs decoder flattens the entries of a
-- batch into records; the sink's adapter plans the records of a commit into chunks, each with a token
-- by which the table drops a repeated insert; the writer sends the chunks over HTTP with retries.
--
-- Files, by the source file they model:
--   Error            error.rs: the error type, a constructor for each message
--   Ack, Ack/        ack_coordinator.rs: AckCoordinator and AckCoordinators. Ack/Chain, Invariant,
--                    Register and Advance: well-formedness. Ack/Spec: a log of registered ranges whose
--                    frontier is the end of the longest committed prefix. Ack/Prefix, Admission, Refine,
--                    Simulation and Frontier: the coordinator refines the log. Ack/Registry: by source
--   Budget, Budget/  source_budget.rs and the stage counters of runtime.rs: SourceByteBudget,
--                    ByteReservation. Ledger, Pool and Conservation: the counters against the live
--                    reservations. Parking: the waiters of `reserve` as a step relation
--   Options          runtime.rs: the options, their defaults and shadowing, the checks of `build`
--   Sink             sink.rs, identity.rs, decoded_batch.rs: what crosses the sink boundary
--   Retry            runtime.rs, `write_with_retry`
--   Source           source.rs: split_into_raw_entries, BufferSource and its fetch handle
--   Decode           runtime.rs, `decode_one`
--   Actor            runtime.rs, `per_source_actor`: the completion arm (Actor), the admission arm
--                    (Actor/Admission), their laws (Actor/Acks, Flush, Gates) and histories (Actor/Run)
--   Envelope         plugins/opendata-ingest-otel/src/envelope.rs: the header of an entry's metadata
--   RowBinary        plugins/opendata-ingest-clickhouse/src/adapter/mod.rs: write_varuint
--   Builder          runtime.rs, `RuntimeBuilder::build`: the state that a runtime starts from
--   Supervisor       runtime.rs, the end of `Runtime::run`: how the workers' results are merged
--   Pipeline         runtime.rs: a turn of `fetch_worker`, `decode_worker` and `writer_worker`. Steps: the
--                    tasks of a source and their channels as a step relation, Sends the send pass. Units,
--                    Sound, Histories and Moves: what a unit carries, and the invariant. The
--                    relation has more steps than the code: guards on the receives are left out
--   Logs             plugins/opendata-ingest-otel/src/logs.rs: records and sizes; Logs/Decoder the decoder.
--                    Logs/Order and Coordinates: the records against a flat list of the logs
--   Adapter          plugins/opendata-ingest-clickhouse/src/adapter/mod.rs and adapter/logs.rs: the types,
--                    Token the insert tokens, Sort and Plan the chunks of a commit
--   Writer           writer.rs of that plugin: the retry loop; Writer/Request the request that it sends
--   Serializer       serializer/rowbinary.rs of that plugin; Serializer/Plans: it takes every plan
--   ClickhouseSink   sink.rs of that plugin: `write`, its guards and its report
--   Common           shared names: Boolean tests, lists, results, machine words, ordered maps
-- Examples in each folder has the tests and the instances of the theorems.
--
-- A function of the source keeps its name; a method takes the state it reads and returns the state it
-- leaves. A `u64` is a native number with wrapping, saturating and checked operations written out. A
-- `Result` is `Common.Result`. A `BTreeMap` is a list in key order, a `HashMap` an association list.
--
-- The environment is explicit. A load of an atomic that another task may change is an argument beside
-- the counter. The sink and the abort token of the retry loop are a function from the attempt to the
-- answers. The buffer's consumer (a crate outside the repository) is a record of operations; where a
-- theorem relies on it, the record ConsumerLaws says on what. The decoder is a record of functions.
-- The protobuf decoder and the texts of its values (Logs.Externals), the digest of the fingerprint
-- (Adapter.Token.Digests), the size of a record's struct, the serializer and the HTTP answers
-- (Writer.WriterEnv) are parameters as well, and the downcast of a batch's records is an argument.
--
-- Fuel: the retry loop has one turn more than the retries allowed, since each turn that does not
-- return counts an attempt. The varint loop has ten turns, each of which takes 7 of 64 bits. The theorems
-- on them prove that this is enough. The writer's loop has one turn more than max_attempts, each of which
-- but the last counts an attempt. A decimal number is printed with 20 digits of fuel, which hold every
-- `u64`. Other loops are by recursion on the list they consume.
--
-- Not modelled: the polls of the actor with their sleeps, and its flag `admission_open`; the
-- spawning of the tasks; in the ClickHouse plugin the JSONEachRow serializer, the conversion of
-- dates, the text of the tables' definitions, `execute_statement` and the construction of HTTP
-- clients; the connector, which loads a configuration and wires the parts. Metrics, logging and the
-- texts of the runtime's errors are left out.
pub mod Common
pub mod Error
pub mod Ack
pub mod Budget
pub mod Options
pub mod Sink
pub mod Retry
pub mod Source
pub mod Decode
pub mod Actor
pub mod Envelope
pub mod RowBinary
pub mod Supervisor
pub mod Builder
pub mod Pipeline
pub mod Logs
pub mod Adapter
pub mod Writer
pub mod Serializer
pub mod ClickhouseSink
