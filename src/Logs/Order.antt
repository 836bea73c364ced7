-- ===== src/Logs/Order.antt =====
-- The three nested loops of `decode_entry` (plugins/opendata-ingest-otel/src/logs.rs) against one list of
-- the log records of a request in their order.
use opendata_contrib.Common.{
  ℕ, ◌+◌, ◌%◌, ◌≡◌, refl, sym, ap, ◌∙◌, Option, List, [], ◌∷◌, ◌++◌, Result, ok, err, ◌>>=◌,
  u32_max, String,
}
use mathlib.Core.List.{append_assoc, append-nil}
use opendata_contrib.Logs.{
  DecodedLogRecord, KeyValue, LogRecord, InstrumentationScope, ScopeLogs, ResourceLogs, Externals,
}
use opendata_contrib.Logs.Decoder.{
  LogsDecodeError, undecodable, log_record, push_logs, push_scopes, push_resources, entry_records,
  decode_entry, decode_from, decode_logs,
}
use opendata_contrib.Source.{SourceBatch, SourceEntry}

-- A log record with the resource and the scope that it stands in.
pub record PlacedLog : Type 0 where
  pub resource : Option (List KeyValue)
  pub scope : Option InstrumentationScope
  pub log : LogRecord

abbrev pub placed_logs :
    Option (List KeyValue) → Option InstrumentationScope → List LogRecord → List PlacedLog
placed_logs resource scope [] = []
placed_logs resource scope (log ∷ rest) =
    record { resource = resource; scope = scope; log = log } ∷ placed_logs resource scope rest

abbrev pub placed_scopes : Option (List KeyValue) → List ScopeLogs → List PlacedLog
placed_scopes resource [] = []
placed_scopes resource (s ∷ scopes) =
    placed_logs resource s.scope s.log_records ++ placed_scopes resource scopes

-- All log records of a request, in their order.
abbrev pub flat : List ResourceLogs → List PlacedLog
flat [] = []
flat (r ∷ resources) = placed_scopes r.resource r.scope_logs ++ flat resources

abbrev pub next_index : ℕ → ℕ
next_index i = (i + 1) % (u32_max + 1)

module _ (x : Externals) (batch : SourceBatch) where
  -- The decoded records of a list, numbered from an index on.
  abbrev pub numbered : SourceEntry → ℕ → List PlacedLog → List DecodedLogRecord
  numbered entry i [] = []
  numbered entry i (p ∷ ps) =
      log_record x batch entry p.resource p.scope p.log i ∷ numbered entry (next_index i) ps

  -- The index after the list.
  abbrev pub index_after : ℕ → List PlacedLog → ℕ
  index_after i [] = i
  index_after i (p ∷ ps) = index_after (next_index i) ps

  -- What the loops have to do with a list.
  abbrev pushed :
      SourceEntry → List PlacedLog → List DecodedLogRecord × ℕ → List DecodedLogRecord × ℕ
  pushed entry ps (records, i) = (records ++ numbered entry i ps, index_after i ps)

  numbered-append :
      (entry : SourceEntry) (i : ℕ) (ps qs : List PlacedLog)
      → numbered entry i (ps ++ qs) ≡ numbered entry i ps ++ numbered entry (index_after i ps) qs
  numbered-append entry i [] qs = refl
  numbered-append entry i (p ∷ ps) qs =
      ap (λ l. log_record x batch entry p.resource p.scope p.log i ∷ l)
        (numbered-append entry (next_index i) ps qs)

  index_after-append :
      (i : ℕ) (ps qs : List PlacedLog)
      → index_after i (ps ++ qs) ≡ index_after (index_after i ps) qs
  index_after-append i [] qs = refl
  index_after-append i (p ∷ ps) qs = index_after-append (next_index i) ps qs

  pushed-append :
      (entry : SourceEntry) (ps qs : List PlacedLog) (records : List DecodedLogRecord) (i : ℕ)
      → pushed entry qs (pushed entry ps (records, i)) ≡ pushed entry (ps ++ qs) (records, i)
  pushed-append entry ps qs records i = cc (
    append_assoc records (numbered entry i ps) (numbered entry (index_after i ps) qs),
    numbered-append entry i ps qs,
    index_after-append i ps qs,
  )

  push_logs-pushed :
      (entry : SourceEntry) (resource : Option (List KeyValue))
      (scope : Option InstrumentationScope) (logs : List LogRecord)
      (records : List DecodedLogRecord) (i : ℕ)
      → push_logs x batch entry resource scope logs (records, i)
        ≡ pushed entry (placed_logs resource scope logs) (records, i)
  unfolding push_logs
  push_logs-pushed entry resource scope [] records i = ap (λ l. (l, i)) (sym (append-nil records))
  push_logs-pushed entry resource scope (log ∷ logs) records i =
      push_logs-pushed entry resource scope logs
        (records ++ log_record x batch entry resource scope log i ∷ []) (next_index i)
      ∙ ap (λ l. (l, index_after (next_index i) (placed_logs resource scope logs)))
          (append_assoc records (log_record x batch entry resource scope log i ∷ [])
            (numbered entry (next_index i) (placed_logs resource scope logs)))

  push_scopes-pushed :
      (entry : SourceEntry) (resource : Option (List KeyValue)) (scopes : List ScopeLogs)
      (records : List DecodedLogRecord) (i : ℕ)
      → push_scopes x batch entry resource scopes (records, i)
        ≡ pushed entry (placed_scopes resource scopes) (records, i)
  unfolding push_scopes
  push_scopes-pushed entry resource [] records i = ap (λ l. (l, i)) (sym (append-nil records))
  push_scopes-pushed entry resource (s ∷ scopes) records i =
      ap (push_scopes x batch entry resource scopes)
        (push_logs-pushed entry resource s.scope s.log_records records i)
      ∙ push_scopes-pushed entry resource scopes _ _
      ∙ pushed-append entry (placed_logs resource s.scope s.log_records)
          (placed_scopes resource scopes) records i

  push_resources-pushed :
      (entry : SourceEntry) (resources : List ResourceLogs) (records : List DecodedLogRecord)
      (i : ℕ)
      → push_resources x batch entry resources (records, i)
        ≡ pushed entry (flat resources) (records, i)
  unfolding push_resources
  push_resources-pushed entry [] records i = ap (λ l. (l, i)) (sym (append-nil records))
  push_resources-pushed entry (r ∷ resources) records i =
      ap (push_resources x batch entry resources)
        (push_scopes-pushed entry r.resource r.scope_logs records i)
      ∙ push_resources-pushed entry resources _ _
      ∙ pushed-append entry (placed_scopes r.resource r.scope_logs) (flat resources) records i

  -- What the entries come to, each decoded by itself.
  abbrev pub entry_logs :
      SourceEntry
      → Result String (List ResourceLogs)
      → Result LogsDecodeError (List DecodedLogRecord)
  entry_logs entry (ok resources) = ok (numbered entry 0 (flat resources))
  entry_logs entry (err e) = err (undecodable batch.sequence entry.entry_index e)

  abbrev pub all_logs : List SourceEntry → Result LogsDecodeError (List DecodedLogRecord)
  all_logs [] = ok []
  all_logs (entry ∷ entries) = do
    first ← entry_logs entry (x.decode_request entry.raw_bytes)
    rest ← all_logs entries
    ok (first ++ rest)

  abbrev after_records :
      List DecodedLogRecord
      → Result LogsDecodeError (List DecodedLogRecord)
      → Result LogsDecodeError (List DecodedLogRecord)
  after_records records (ok more) = ok (records ++ more)
  after_records records (err e) = err e

  decode_entry-entry_logs :
      (entry : SourceEntry) (records : List DecodedLogRecord)
      (o : Result String (List ResourceLogs))
      → entry_records x batch entry records o ≡ after_records records (entry_logs entry o)
  decode_entry-entry_logs entry records (ok resources) =
      ap (λ st. ok (st.0)) (push_resources-pushed entry resources records 0)
  decode_entry-entry_logs entry records (err e) = refl

  after_records_assoc :
      (records more : List DecodedLogRecord) (o : Result LogsDecodeError (List DecodedLogRecord))
      → after_records (records ++ more) o ≡ after_records records (o >>= λ rest. ok (more ++ rest))
  after_records_assoc records more (ok rest) = ap ok (append_assoc records more rest)
  after_records_assoc records more (err e) = refl

  after_first :
      (entries : List SourceEntry) (records : List DecodedLogRecord)
      (first : Result LogsDecodeError (List DecodedLogRecord))
      → ((rs : List DecodedLogRecord)
          → decode_from x batch entries rs ≡ after_records rs (all_logs entries))
      → (after_records records first >>= λ rs. decode_from x batch entries rs)
        ≡ after_records records (first >>= λ more. all_logs entries >>= λ rest. ok (more ++ rest))
  after_first entries records (ok more) ih =
      ih (records ++ more) ∙ after_records_assoc records more (all_logs entries)
  after_first entries records (err e) ih = refl

  decode_from-all_logs :
      (entries : List SourceEntry) (records : List DecodedLogRecord)
      → decode_from x batch entries records ≡ after_records records (all_logs entries)
  unfolding decode_from decode_entry
  decode_from-all_logs [] records = ap ok (sym (append-nil records))
  decode_from-all_logs (entry ∷ entries) records =
      ap (λ r. r >>= λ records'. decode_from x batch entries records')
        (decode_entry-entry_logs entry records (x.decode_request entry.raw_bytes))
      ∙ after_first entries records (entry_logs entry (x.decode_request entry.raw_bytes))
          (λ rs. decode_from-all_logs entries rs)

  -- The loops of the decoder give, for each entry in its order, the log records of its request in their
  -- order, numbered from 0 as `u32`s; the first entry whose bytes do not decode is the error.
  pub decode_logs-all_logs : decode_logs x batch ≡ all_logs batch.entries
  unfolding decode_logs
  decode_logs-all_logs = decode_from-all_logs batch.entries [] ∙ same (all_logs batch.entries)
    where
      same : (o : Result LogsDecodeError (List DecodedLogRecord)) → after_records [] o ≡ o
      same (ok more) = refl
      same (err e) = refl
