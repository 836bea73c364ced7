-- ===== src/Source.antt =====
-- runtime/opendata-ingest-runtime/src/source.rs: the raw entries of a fetched batch, and the source's
-- ack state. The buffer crate is not in the repository: its consumer is a parameter, the operations of
-- which return their error as a text. `Bytes` are lists of numbers.
pub mod Ranges
pub mod Acks
mod Examples
use opendata_contrib.Common.{
  ℕ, zero, suc, ◌+◌, ◌%◌, String, Option, none, some, List, [], ◌∷◌, map, Result, ok, err, leb,
  if◌then◌else◌,
}
use opendata_contrib.Common.Int.{ℤ, pos}
use opendata_contrib.Error.{RuntimeResult, source_error}

-- `buffer::Metadata` and `buffer::ConsumedBatch`, the fields that the source takes.
pub record Metadata : Type 0 where
  pub start_index : ℕ
  pub ingestion_time_ms : ℤ
  pub payload : List ℕ

pub record ConsumedBatch : Type 0 where
  pub entries : List (List ℕ)
  pub sequence : ℕ
  pub location : String
  pub metadata : List Metadata

pub record SourceEntry : Type 0 where
  pub entry_index : ℕ
  pub raw_bytes : List ℕ
  pub raw_metadata : List ℕ
  pub ingestion_time_ms : ℤ

pub record SourceBatch : Type 0 where
  pub source : String
  pub sequence : ℕ
  pub manifest_path : String
  pub data_object_path : String
  pub entries : List SourceEntry

-- The inner `while`: `range_idx` is kept as the ranges from it on.
unfoldable pub bump_range : List Metadata → ℕ → List Metadata
bump_range [] entry_index = []
bump_range (m ∷ []) entry_index = m ∷ []
bump_range (m ∷ n ∷ ms) entry_index =
    let further = bump_range (n ∷ ms) entry_index in
    if leb n.start_index entry_index then further else m ∷ n ∷ ms

-- `match metadata.get(range_idx)`
abbrev pub raw_entry : List Metadata → ℕ → List ℕ → SourceEntry
raw_entry [] entry_index payload = record {
  entry_index = entry_index;
  raw_bytes = payload;
  raw_metadata = [];
  ingestion_time_ms = pos 0;
}
raw_entry (m ∷ ms) entry_index payload = record {
  entry_index = entry_index;
  raw_bytes = payload;
  raw_metadata = m.payload;
  ingestion_time_ms = m.ingestion_time_ms;
}

-- The `for` loop from the index `i` on; `i as u32` drops the high bits.
unfoldable pub raw_entries : List Metadata → ℕ → List (List ℕ) → List SourceEntry
unfolding bump_range
raw_entries ranges i [] = []
raw_entries ranges i (payload ∷ entries) =
    raw_entry (bump_range ranges (i % 4294967296)) (i % 4294967296) payload
    ∷ raw_entries (bump_range ranges (i % 4294967296)) (i + 1) entries

unfoldable pub split_into_raw_entries : ConsumedBatch → String → String → SourceBatch
unfolding raw_entries
split_into_raw_entries batch source manifest_path = record {
  source = source;
  sequence = batch.sequence;
  manifest_path = manifest_path;
  data_object_path = batch.location;
  entries = raw_entries batch.metadata 0 batch.entries;
}

pub record SourceRangeMetadata : Type 0 where
  pub raw_metadata : List ℕ
  pub ingestion_time_ms : ℤ

-- `buffer::BatchDescriptor`
pub record BatchDescriptor : Type 0 where
  pub sequence : ℕ
  pub location : String
  pub metadata : List Metadata

pub record SourceBatchDescriptor : Type 0 where
  pub source : String
  pub sequence : ℕ
  pub location : String
  pub per_range_metadata : List SourceRangeMetadata
  pub buffer_metadata : List Metadata

-- `buffer::Consumer`: each call returns its result and the consumer after it.
pub record ConsumerOps (C : Type 0) : Type 0 where
  pub ack_durably : C → ℕ → Result String (Unit {0}) × C
  pub poll : C → ℕ → Result String (List BatchDescriptor) × C

pub record BufferSource (C : Type 0) : Type 0 where
  pub id : String
  pub consumer : C
  pub manifest_path : String
  pub last_acked : Option ℕ
  pub pending_durable_ack : Option ℕ

abbrev pub range_metadata : Metadata → SourceRangeMetadata
range_metadata m = record { raw_metadata = m.payload; ingestion_time_ms = m.ingestion_time_ms }

-- The descriptor of the runtime, and the one that the fetch handle rebuilds from it.
abbrev pub from_buffer : String → BatchDescriptor → SourceBatchDescriptor
from_buffer id d = record {
  source = id;
  sequence = d.sequence;
  location = d.location;
  per_range_metadata = map range_metadata d.metadata;
  buffer_metadata = d.metadata;
}

abbrev pub to_buffer : SourceBatchDescriptor → BatchDescriptor
to_buffer d = record { sequence = d.sequence; location = d.location; metadata = d.buffer_metadata }

module _ {C : Type 0} where
  unfoldable pub new : C → String → String → Option ℕ → BufferSource C
  new consumer id manifest_path last_acked_sequence = record {
    id = id;
    consumer = consumer;
    manifest_path = manifest_path;
    last_acked = last_acked_sequence;
    pending_durable_ack = none;
  }

  unfoldable pub ack_through : BufferSource C → ℕ → BufferSource C
  ack_through s sequence = record s {
    pending_durable_ack = some sequence;
    last_acked = some sequence;
  }

module _ {C : Type 0} (ops : ConsumerOps C) where
  -- `flush_acks` once `pending_durable_ack.take()` has its value.
  abbrev pub flushed :
      BufferSource C → ℕ → Result String (Unit {0}) → C → RuntimeResult (Unit {0}) × BufferSource C
  flushed s seq (ok u) c = (ok tt, record s { consumer = c; pending_durable_ack = none })
  flushed s seq (err e) c =
      (err (source_error e), record s { consumer = c; pending_durable_ack = some seq })

  abbrev pub flush_pending : BufferSource C → Option ℕ → RuntimeResult (Unit {0}) × BufferSource C
  flush_pending s none = (ok tt, s)
  flush_pending s (some seq) =
      flushed s seq (ops.ack_durably s.consumer seq).0 (ops.ack_durably s.consumer seq).1

  unfoldable pub flush_acks : BufferSource C → RuntimeResult (Unit {0}) × BufferSource C
  flush_acks s = flush_pending s s.pending_durable_ack

  abbrev pub polled :
      String → Result String (List BatchDescriptor) → RuntimeResult (List SourceBatchDescriptor)
  polled id (ok raw) = ok (map (from_buffer id) raw)
  polled id (err e) = err (source_error e)

  unfoldable pub next_descriptors :
      BufferSource C → ℕ → RuntimeResult (List SourceBatchDescriptor) × BufferSource C
  next_descriptors s max =
      (polled s.id (ops.poll s.consumer max).0, record s { consumer = (ops.poll s.consumer max).1 })

  -- `BufferSourceFetchHandle::fetch`, over the result of the inner handle's fetch.
  abbrev pub fetched : String → String → Result String ConsumedBatch → RuntimeResult SourceBatch
  unfolding split_into_raw_entries
  fetched source manifest_path (ok consumed) =
      ok (split_into_raw_entries consumed source manifest_path)
  fetched source manifest_path (err e) = err (source_error e)

  unfoldable pub fetch_batch :
      BufferSource C
      → (BatchDescriptor → Result String ConsumedBatch)
      → SourceBatchDescriptor
      → RuntimeResult SourceBatch
  fetch_batch s inner descriptor = fetched s.id s.manifest_path (inner (to_buffer descriptor))
