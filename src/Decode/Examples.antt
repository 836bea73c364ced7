-- ===== src/Decode/Examples.antt =====
-- Runs of the decode stage (runtime.rs), and instances of its theorems.
use opendata_contrib.Common.Int.{pos}
use opendata_contrib.Common.{ℕ, ◌≤◌, ◌≡◌, refl, arith, [], ◌∷◌, some, true, false, ok, err}
use opendata_contrib.Error.{pipeline_error, oversize_batch}
use opendata_contrib.Options.{
  RuntimeOptions, SourceBackpressureOptions, default_options, default_backpressure, fault_limit,
}
use opendata_contrib.Sink.{DecodedBatch, SinkCommit, build_commit}
use opendata_contrib.Source.{SourceBatch}
use opendata_contrib.Budget.{SourceByteBudget, ByteReservation, decode}
use opendata_contrib.Decode.{Decoder, live, actual_bytes, source_coords_bytes, decode_one}
use opendata_contrib.Decode.Laws.{IsDecoded, decode_one-IsDecoded, decode_one-live}

abbrev batch : ℕ → DecodedBatch
batch bytes = record {
  source = "s";
  low_sequence = 7;
  high_sequence = 7;
  source_entry_count = 1;
  records = record { estimated_bytes = bytes; record_count = 1 };
  source_columns = record {
    manifest_path = 4;
    data_path = 4;
    sequences = 7 ∷ [];
    entry_indices = 0 ∷ [];
    record_indices = 0 ∷ [];
    ingestion_time_ms = pos 5 ∷ [];
  };
  schema_version = 1;
}

-- A decoder that returns one batch of so many bytes.
abbrev constant : ℕ → Decoder
constant bytes = record { accepts = λ m. true; decode = λ b. ok (batch bytes ∷ []) }

abbrev fetched : SourceBatch
fetched = record {
  source = "s";
  sequence = 7;
  manifest_path = "m";
  data_object_path = "d";
  entries =
      record { entry_index = 0; raw_bytes = 1 ∷ []; raw_metadata = []; ingestion_time_ms = pos 5 }
      ∷ [];
}

abbrev live_options : RuntimeOptions
live_options = record default_options { dry_run = false }

abbrev knobs : SourceBackpressureOptions
knobs = record default_backpressure { estimated_max_batch_bytes = 100 }

abbrev budget : SourceByteBudget
budget = record {
  source_id = "s";
  capacity = 1000;
  in_flight = 100;
  notifies = 0;
  stages = record {
    source_bytes = 0;
    fetch_bytes = 0;
    decode_bytes = 100;
    sink_dispatch_bytes = 0;
  };
}

abbrev held : ByteReservation
held = record { held = 100; stage = some decode }

abbrev commit : SinkCommit
commit = record {
  identity = record {
    source = "s";
    sink = "c";
    range = record { low = 7; high = 7 };
    schema_version = 1;
  };
  batch = batch 300;
}

grows :
    (decode_one (constant 300) live_options "c" fetched 7 knobs budget held).0
    ≡ ok (live commit 7 7)
unfolding decode_one build_commit
grows = refl

-- 369 records and 32 coordinate bytes are one more than four times the estimate.
oversize :
    decode_one (constant 369) live_options "c" fetched 7 knobs budget held
    ≡ (err (pipeline_error (oversize_batch 7 7 401 400)), (budget, held))
unfolding decode_one fault_limit actual_bytes source_coords_bytes
oversize = refl

decode_one-IsDecoded_example :
    IsDecoded
      (constant 300)
      live_options
      "c"
      fetched
      7
      knobs
      budget
      held
      (decode_one (constant 300) live_options "c" fetched 7 knobs budget held)
decode_one-IsDecoded_example =
    decode_one-IsDecoded (constant 300) live_options "c" fetched 7 knobs budget held

small : held.held ≤ fault_limit knobs
unfolding fault_limit
small = omega arith

decode_one-live_example :
    (◌≡◌ {A = ℕ} 7 7)
    × (◌≡◌ {A = ℕ} 7 7)
    × (commit.identity.range.low ≡ 7)
    × (commit.identity.range.high ≡ 7)
    × (commit.identity.source ≡ commit.batch.source)
    × (commit.identity.schema_version ≡ commit.batch.schema_version)
    × (commit.identity.sink ≡ "c")
decode_one-live_example =
    decode_one-live (constant 300) live_options "c" fetched 7 knobs budget held commit 7 7 grows
