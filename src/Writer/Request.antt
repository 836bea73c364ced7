-- ===== src/Writer/Request.antt =====
-- The request that `execute_once` of writer.rs sends: the SQL, the URL with the settings, the headers and
-- the body. `urlencoding::encode` is a parameter. A header is a pair of texts.
use opendata_contrib.Common.{
  ℕ, ◌/◌, String, ◌&&◌, Option, none, some, List, [], ◌∷◌, ◌++◌, ltb, str_eq, if◌then◌else◌, length,
}
use opendata_contrib.Common.Text.{join, concat, decimal, as_bytes}
use opendata_contrib.Adapter.{InsertChunk, ClickHouseSettings}
use opendata_contrib.Writer.{WriterConfig}

pub data SerializationFormat : Type 0 where
  json_each_row row_binary : SerializationFormat

abbrev pub format_keyword : SerializationFormat → String
format_keyword json_each_row = "JSONEachRow"
format_keyword row_binary = "RowBinaryWithNamesAndTypes"

abbrev pub as_label : SerializationFormat → String
as_label json_each_row = "json_each_row"
as_label row_binary = "row_binary"

unfoldable pub render_insert_sql_clean : InsertChunk → SerializationFormat → String
render_insert_sql_clean chunk format =
    concat (
      "INSERT INTO " ∷ chunk.database ∷ "." ∷ chunk.table ∷ " FORMAT " ∷ format_keyword format ∷ [])

-- `trim_end_matches('/')`
abbrev pub put_before : String → String → String
put_before c rest = if str_eq c "/" && str_eq rest "" then "" else join c rest

unfoldable pub trim_end : String → String
trim_end String.[] = ""
trim_end (String.◌∷◌ c s) = put_before (String.◌∷◌ c String.[]) (trim_end s)

abbrev pub token_param : (String → String) → ClickHouseSettings → List String
token_param urlencode s =
    if s.apply_deduplication_token
    then "&insert_deduplication_token=" ∷ urlencode s.insert_deduplication_token ∷ []
    else []

abbrev pub quorum_param : (String → String) → Option String → List String
quorum_param urlencode none = []
quorum_param urlencode (some quorum) = "&insert_quorum=" ∷ urlencode quorum ∷ []

abbrev pub timeout_param : ℕ → List String
timeout_param timeout =
    if ltb 0 timeout then "&max_execution_time=" ∷ decimal (timeout / 1000000000) ∷ [] else []

unfoldable pub build_insert_url : (String → String) → String → InsertChunk → ℕ → String
unfolding trim_end
build_insert_url urlencode endpoint chunk timeout = concat (
    trim_end endpoint
    ∷ "/?async_insert=0"
    ∷ "&date_time_input_format=best_effort"
    ∷ (token_param urlencode chunk.settings
        ++ (quorum_param urlencode chunk.settings.insert_quorum ++ timeout_param timeout)))

pub record HttpRequest : Type 0 where
  pub url : String
  pub headers : List (String × String)
  pub body : List ℕ

abbrev pub header_unless_empty : String → String → List (String × String)
header_unless_empty name value = if str_eq value "" then [] else (name, value) ∷ []

unfoldable pub insert_request :
    (String → String) → WriterConfig → SerializationFormat → InsertChunk → List ℕ → HttpRequest
unfolding render_insert_sql_clean build_insert_url
insert_request urlencode config format chunk body =
    let combined = as_bytes (render_insert_sql_clean chunk format) ++ (10 ∷ body) in
    record {
      url = build_insert_url urlencode config.endpoint chunk config.request_timeout;
      headers =
          ("content-length", decimal (length combined))
          ∷ (header_unless_empty "X-ClickHouse-User" config.user
              ++ header_unless_empty "X-ClickHouse-Key" config.password);
      body = combined;
    }
