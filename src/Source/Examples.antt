-- ===== src/Source/Examples.antt =====
-- Runs of the source (source.rs), and instances of its theorems.
use opendata_contrib.Common.Int.{pos}
use opendata_contrib.Common.{
  ℕ, ◌≡◌, ◌==◌, if◌then◌else◌, refl, arith, [], ◌∷◌, Option, some, ok, err, inl, List, none, is_ok,
  true, false,
}
use opendata_contrib.Error.{source_error}
use opendata_contrib.Source.{
  ConsumedBatch, BufferSource, ConsumerOps, split_into_raw_entries, ack_through, flush_acks,
}
use opendata_contrib.Source.Ranges.{owned, split_into_raw_entries-owned}
use opendata_contrib.Source.Acks.{
  ConsumerLaws, IsHeld, flush_acks-IsHeld, flush_acks-durable, run_acks,
}

-- Two ranges over three entries.
abbrev batch : ConsumedBatch
batch = record {
  entries = (1 ∷ []) ∷ (2 ∷ []) ∷ (3 ∷ []) ∷ [];
  sequence = 7;
  location = "data/7";
  metadata =
      record { start_index = 0; ingestion_time_ms = pos 100; payload = 8 ∷ [] }
      ∷ record { start_index = 2; ingestion_time_ms = pos 200; payload = 9 ∷ [] }
      ∷ [];
}

split_into_raw_entries-owned_example :
    (split_into_raw_entries batch "s" "manifest").entries ≡ owned batch.metadata 0 batch.entries
split_into_raw_entries-owned_example =
    split_into_raw_entries-owned batch "s" "manifest" ((omega arith, tt), (tt, tt)) (omega arith)

-- A range that starts after the entry still gives it its metadata when it is the first.
late_range :
    (split_into_raw_entries
      (record batch {
        metadata = record { start_index = 5; ingestion_time_ms = pos 100; payload = 8 ∷ [] } ∷ [];
      })
      "s"
      "m").entries
    ≡ record {
      entry_index = 0;
      raw_bytes = 1 ∷ [];
      raw_metadata = 8 ∷ [];
      ingestion_time_ms = pos 100;
    }
      ∷ record {
        entry_index = 1;
        raw_bytes = 2 ∷ [];
        raw_metadata = 8 ∷ [];
        ingestion_time_ms = pos 100;
      }
      ∷ record {
        entry_index = 2;
        raw_bytes = 3 ∷ [];
        raw_metadata = 8 ∷ [];
        ingestion_time_ms = pos 100;
      }
      ∷ []
unfolding split_into_raw_entries
late_range = refl

-- A consumer that is fenced at sequence 13.
abbrev fenced : ConsumerOps (Option ℕ)
fenced = record {
  ack_durably =
      λ c seq. ((if seq == 13 then err "fenced" else ok tt), (if seq == 13 then c else some seq));
  poll = λ c max. (ok [], c);
}

fenced_acked :
    (c : Option ℕ) (seq : ℕ)
    → is_ok (fenced.ack_durably c seq).0 ≡ true
    → (fenced.ack_durably c seq).1 ≡ some seq
fenced_acked c seq h = ground arith

fenced_failed :
    (c : Option ℕ) (seq : ℕ)
    → is_ok (fenced.ack_durably c seq).0 ≡ false
    → (fenced.ack_durably c seq).1 ≡ c
fenced_failed c seq h = ground arith

abbrev fenced-laws : ConsumerLaws fenced
fenced-laws = record { durable = λ c. c; acked = fenced_acked; failed = fenced_failed }

abbrev source : BufferSource (Option ℕ)
source = record {
  id = "s";
  consumer = some 12;
  manifest_path = "manifest";
  last_acked = some 13;
  pending_durable_ack = some 13;
}

source-IsHeld : IsHeld fenced fenced-laws source
unfolding IsHeld
source-IsHeld = inl refl

rearmed : flush_acks fenced source ≡ (err (source_error "fenced"), source)
unfolding flush_acks
rearmed = refl

flush_acks-IsHeld_example :
    IsHeld fenced fenced-laws (ack_through source 14)
    × IsHeld fenced fenced-laws (flush_acks fenced source).1
flush_acks-IsHeld_example = flush_acks-IsHeld fenced fenced-laws source 14 source-IsHeld

-- The flush of 13 fails, that of 14 does not.
abbrev idle : BufferSource (Option ℕ)
idle = record source { last_acked = some 12; pending_durable_ack = none }

abbrev calls : List (Option ℕ)
calls = some 13 ∷ none ∷ some 14 ∷ []

flushes : (flush_acks fenced (run_acks fenced fenced-laws idle calls)).0 ≡ ok tt
unfolding flush_acks ack_through
flushes = refl

flush_acks-durable_example :
    (flush_acks fenced (run_acks fenced fenced-laws idle calls)).1.consumer ≡ some 14
flush_acks-durable_example = flush_acks-durable fenced fenced-laws idle calls refl refl flushes
