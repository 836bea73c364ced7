-- ===== src/Logs.antt =====
-- plugins/opendata-ingest-otel/src/logs.rs: one decoded log record with its source coordinates, its
-- approximate size, and the OTLP request that the protobuf crate decodes. The request's types are the
-- crate's, with the fields that the source reads; nothing is read of an array or a nested map. An `f64`
-- is its bits. `Vec<u8>` are lists of numbers, a `BTreeMap` an association list in key order.
pub mod Decoder
pub mod Order
pub mod Coordinates
pub mod Samples
mod Examples
use opendata_contrib.Common.{
  ℕ, ◌+◌, String, Bool, Option, none, some, List, [], ◌∷◌, length, Result,
}
use opendata_contrib.Common.Text.{as_bytes}
use opendata_contrib.Common.Int.{ℤ}

pub record RowSourceCoordinates : Type 0 where
  pub buffer_sequence : ℕ
  pub entry_index : ℕ
  pub record_index : ℕ
  pub manifest_path : String
  pub data_path : String
  pub ingestion_time_ms : ℤ

pub record DecodedLogRecord : Type 0 where
  pub source : RowSourceCoordinates
  pub timestamp_unix_nano : ℕ
  pub observed_timestamp_unix_nano : ℕ
  pub severity_number : ℤ
  pub severity_text : String
  pub body : String
  pub service_name : Option String
  pub resource_attributes : List (String × String)
  pub scope_name : Option String
  pub log_attributes : List (String × String)
  pub trace_id_hex : String
  pub span_id_hex : String

-- `s.len()` is the number of bytes.
unfoldable pub text_len : String → ℕ
unfolding as_bytes
text_len s = length (as_bytes s)

abbrev pub len_or_zero : Option String → ℕ
len_or_zero none = 0
len_or_zero (some s) = text_len s

-- The size after the loop over the entries of a map.
unfoldable pub add_entries : ℕ → List (String × String) → ℕ
add_entries sz [] = sz
add_entries sz ((k, v) ∷ m) = add_entries (sz + (text_len k + text_len v)) m

-- `struct_size` is `std::mem::size_of::<DecodedLogRecord>()`, which the compiler chooses. The texts are
-- held in memory, so that the sum is far from the end of a word.
unfoldable pub approx_size_bytes : ℕ → DecodedLogRecord → ℕ
unfolding add_entries
approx_size_bytes struct_size r =
    add_entries
      (add_entries
        (struct_size
          + text_len r.severity_text
          + text_len r.body
          + len_or_zero r.service_name
          + len_or_zero r.scope_name
          + (text_len r.trace_id_hex + text_len r.span_id_hex))
        r.resource_attributes)
      r.log_attributes

unfoldable pub total_size : ℕ → List DecodedLogRecord → ℕ
total_size struct_size [] = 0
total_size struct_size (r ∷ rs) = approx_size_bytes struct_size r + total_size struct_size rs

pub data AnyValue : Type 0 where
  string_value : String → AnyValue
  bool_value : Bool → AnyValue
  int_value : ℤ → AnyValue
  double_value : ℕ → AnyValue
  bytes_value : List ℕ → AnyValue
  array_value kvlist_value : AnyValue

-- `value` is the attribute's `AnyValue` with its own optional `value` in it.
pub record KeyValue : Type 0 where
  pub key : String
  pub value : Option AnyValue

pub record LogRecord : Type 0 where
  pub time_unix_nano : ℕ
  pub observed_time_unix_nano : ℕ
  pub severity_number : ℤ
  pub severity_text : String
  pub body : Option AnyValue
  pub attributes : List KeyValue
  pub trace_id : List ℕ
  pub span_id : List ℕ

pub record InstrumentationScope : Type 0 where
  pub name : String
  pub attributes : List KeyValue

pub record ScopeLogs : Type 0 where
  pub scope : Option InstrumentationScope
  pub log_records : List LogRecord

-- `resource` is the attributes of the resource, if there is one.
pub record ResourceLogs : Type 0 where
  pub resource : Option (List KeyValue)
  pub scope_logs : List ScopeLogs

-- What other crates and the compiler give: the protobuf decoder, `hex::encode`, the `Display` of an
-- `f64`, and the size of the record's struct.
pub record Externals : Type 0 where
  pub decode_request : List ℕ → Result String (List ResourceLogs)
  pub hex : List ℕ → String
  pub show_double : ℕ → String
  pub struct_size : ℕ
