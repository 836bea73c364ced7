-- ===== src/Builder/Examples.antt =====
-- A build of a runtime (runtime.rs), and an instance of its theorem.
use opendata_contrib.Common.{ℕ, ◌≡◌, refl, some, none, [], ◌∷◌, err}
use opendata_contrib.Error.{config_error, no_sink}
use opendata_contrib.Options.{default_options}
use opendata_contrib.Ack
use opendata_contrib.Budget
use opendata_contrib.Source.{BufferSource}
use opendata_contrib.Builder.{RuntimeBuilder, Runtime, build}

abbrev source : BufferSource ℕ
source = record {
  id = "s";
  consumer = 4;
  manifest_path = "m";
  last_acked = some 4;
  pending_durable_ack = none;
}

abbrev builder : RuntimeBuilder ℕ ℕ ℕ
builder = record {
  source = some source;
  decoder = some 0;
  sink = some 0;
  options = default_options;
}

abbrev runtime : Runtime ℕ ℕ ℕ
runtime = record {
  source = source;
  decoder = 0;
  sink = 0;
  coordinators = record { coordinators = ("s", Ack.new "s" (some 4)) ∷ [] };
  options = default_options;
  source_byte_budget = Budget.new "s" 268435456;
}

sinkless : build ℕ ℕ ℕ (record builder { sink = none }) ≡ err (config_error no_sink)
unfolding build
sinkless = refl
