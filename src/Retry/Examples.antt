-- ===== src/Retry/Examples.antt =====
-- Runs of the retry loop (runtime.rs), and instances of its theorems.
use opendata_contrib.Common.Int.{pos}
use opendata_contrib.Common.{ℕ, zero, suc, ◌≡◌, refl, arith, [], ◌∷◌, some, true, false, ok, err}
use opendata_contrib.Sink.{
  SinkCommit, DecodedBatch, not_committed, maybe_committed, is_committed, is_unknown,
}
use opendata_contrib.Retry.{Round, write_with_retry, verified_already_committed, verified}
use opendata_contrib.Retry.Laws.{IsDone, write_with_retry-IsDone}

abbrev batch : DecodedBatch
batch = record {
  source = "s";
  low_sequence = 7;
  high_sequence = 7;
  source_entry_count = 1;
  records = record { estimated_bytes = 100; record_count = 2 };
  source_columns = record {
    manifest_path = 4;
    data_path = 4;
    sequences = 7 ∷ 7 ∷ [];
    entry_indices = 0 ∷ 0 ∷ [];
    record_indices = 0 ∷ 1 ∷ [];
    ingestion_time_ms = pos 5 ∷ pos 5 ∷ [];
  };
  schema_version = 1;
}

abbrev commit : SinkCommit
commit = record {
  identity = record {
    source = "s";
    sink = "c";
    range = record { low = 7; high = 7 };
    schema_version = 1;
  };
  batch = batch;
}

abbrev refused : Round
refused = record {
  write_cancelled = false;
  write = err (not_committed "refused");
  check_cancelled = false;
  check = ok is_unknown;
  slept = true;
}

-- Refused, then lost with an unknown status, then lost and found committed.
abbrev flaky : ℕ → Round
flaky zero = refused
flaky (suc zero) = record refused { write = err (maybe_committed "timeout") }
flaky (suc (suc n)) = record refused {
  write = err (maybe_committed "timeout");
  check = ok is_committed;
}

found :
    (write_with_retry 3 commit flaky).0
    ≡ some (record { inner = ok verified; outcome = verified_already_committed })
unfolding write_with_retry
found = refl

write_with_retry-IsDone_example : IsDone commit 3 (write_with_retry 3 commit flaky)
write_with_retry-IsDone_example = write_with_retry-IsDone 3 commit flaky (omega arith)
