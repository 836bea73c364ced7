-- ===== src/Builder.antt =====
-- `RuntimeBuilder::build` of runtime/opendata-ingest-runtime/src/runtime.rs: the missing parts, the checks
-- of the options, and the state that a runtime starts from. Decoder and sink are trait objects.
mod Laws
mod Examples
use opendata_contrib.Common.{Option, Result, ok, err, ◌>>=◌, ◌>>◌, ok_or}
use opendata_contrib.Error.{RuntimeResult, config_error, no_source, no_decoder, no_sink}
use opendata_contrib.Options.{RuntimeOptions, backpressure_for, validate_options}
use opendata_contrib.Ack.Registry.{AckCoordinators, empty, register_source}
use opendata_contrib.Budget
use opendata_contrib.Budget.{SourceByteBudget}
use opendata_contrib.Source.{BufferSource}

module _ (C Decoder Sink : Type 0) where
  pub record RuntimeBuilder : Type 0 where
    pub source : Option (BufferSource C)
    pub decoder : Option Decoder
    pub sink : Option Sink
    pub options : RuntimeOptions

  pub record Runtime : Type 0 where
    pub source : BufferSource C
    pub decoder : Decoder
    pub sink : Sink
    pub coordinators : AckCoordinators
    pub options : RuntimeOptions
    pub source_byte_budget : SourceByteBudget

  unfoldable pub build : RuntimeBuilder → RuntimeResult Runtime
  unfolding validate_options register_source Budget.new
  build b = do
    source ← ok_or b.source (config_error no_source)
    decoder ← ok_or b.decoder (config_error no_decoder)
    sink ← ok_or b.sink (config_error no_sink)
    validate_options b.options source.id
    coordinators ← register_source empty source.id source.last_acked
    ok (record {
      source = source;
      decoder = decoder;
      sink = sink;
      coordinators = coordinators;
      options = b.options;
      source_byte_budget =
          Budget.new source.id (backpressure_for b.options source.id).max_inflight_bytes;
    })
