-- ===== src/Chain/BigQuery.antt =====
-- The requests that crates/lw-chain/src/hubble.rs makes, and the client that answers them page by page:
-- another crate's, of which the fields that the sources set and read are here.
use lend_worker_stellar.Base.{
  ℤ, pos, show_ℤ, parse_ℤ, Text, lit, text_eq, if◌then◌else◌, Option, none, some, List, [], ◌∷◌,
  ◌++◌, Result, ◌≡◌, refl,
}
use lend_worker_stellar.Base.Strings.Numbers.{parse_ℤ-show_ℤ}

-- PAGE_ROWS and QUERY_TIMEOUT_MS
abbrev pub page_rows : ℤ
page_rows = pos 20_000

abbrev pub query_timeout_ms : ℤ
query_timeout_ms = pos 60_000

pub record Coverage : Type 0 where
  pub first_closed_at : ℤ
  pub last_closed_at : ℤ
  pub max_ledger : ℤ

-- `QueryParameter` with its type and its value side by side
pub record QueryParameter : Type 0 where
  pub name : Text
  pub type_name : Text
  pub array_type : Option Text
  pub value : Option Text
  pub array_values : Option (List Text)

unfoldable pub int_param : Text → ℤ → QueryParameter
int_param name value = record {
  name = name;
  type_name = lit "INT64";
  array_type = none;
  value = some (show_ℤ value);
  array_values = none;
}

unfoldable pub string_array_param : Text → List Text → QueryParameter
string_array_param name values = record {
  name = name;
  type_name = lit "ARRAY";
  array_type = some (lit "STRING");
  value = none;
  array_values = some values;
}

unfoldable pub tip_sql : Text → Text
tip_sql dataset =
    lit "SELECT MAX(sequence) AS tip FROM `"
    ++ dataset
    ++ lit ".history_ledgers` WHERE closed_at >= TIMESTAMP_SUB(CURRENT_TIMESTAMP(), "
    ++ lit "INTERVAL 40 DAY)"

unfoldable pub coverage_sql : Text → Text
coverage_sql dataset =
    lit "SELECT UNIX_SECONDS(MIN(closed_at)) AS t0, UNIX_SECONDS(MAX(closed_at)) AS t1, "
    ++ lit "MAX(sequence) AS max_ledger FROM `"
    ++ dataset
    ++ lit ".history_ledgers` WHERE sequence BETWEEN @from AND @to"

unfoldable pub events_sql : Text → Coverage → Text
events_sql dataset coverage =
    lit "SELECT transaction_hash, contract_id, ledger_sequence, "
    ++ lit "UNIX_SECONDS(closed_at) AS closed_at_s, "
    ++ lit "ARRAY_TO_STRING(JSON_VALUE_ARRAY(topics), ',') AS topics_b64, "
    ++ lit "JSON_VALUE(data) AS data_b64, ROW_NUMBER() OVER ( "
    ++ lit "PARTITION BY transaction_hash, operation_id, contract_id "
    ++ lit "ORDER BY contract_event_xdr ) - 1 AS event_index FROM `"
    ++ dataset
    ++ lit ".history_contract_events` WHERE closed_at BETWEEN TIMESTAMP_SECONDS("
    ++ show_ℤ coverage.first_closed_at
    ++ lit ") AND TIMESTAMP_SECONDS("
    ++ show_ℤ coverage.last_closed_at
    ++ lit ") AND ledger_sequence BETWEEN @from AND @to "
    ++ lit "AND contract_id IN UNNEST(@ids) AND type = 1 AND successful "
    ++ lit "ORDER BY ledger_sequence, transaction_id, operation_id, event_index"

-- The three statements with what is bound to them.
pub data Query : Type 0 where
  tip_query : Text → Query
  coverage_query : Text → ℤ → ℤ → Query
  events_query : Text → Coverage → ℤ → ℤ → List Text → Query

unfoldable pub sql_of : Query → Text
unfolding tip_sql coverage_sql events_sql
sql_of (tip_query dataset) = tip_sql dataset
sql_of (coverage_query dataset from to) = coverage_sql dataset
sql_of (events_query dataset coverage from to ids) = events_sql dataset coverage

unfoldable pub params_of : Query → List QueryParameter
unfolding int_param string_array_param
params_of (tip_query dataset) = []
params_of (coverage_query dataset from to) =
    int_param (lit "from") from ∷ int_param (lit "to") to ∷ []
params_of (events_query dataset coverage from to ids) =
    int_param (lit "from") from ∷ int_param (lit "to") to ∷ string_array_param (lit "ids") ids ∷ []

pub record QueryRequest : Type 0 where
  pub sql : Text
  pub parameter_mode : Text
  pub query_parameters : List QueryParameter
  pub max_results : ℤ
  pub timeout_ms : ℤ

unfoldable pub request_of : Query → QueryRequest
unfolding sql_of params_of
request_of q = record {
  sql = sql_of q;
  parameter_mode = lit "NAMED";
  query_parameters = params_of q;
  max_results = page_rows;
  timeout_ms = query_timeout_ms;
}

-- A row of a `ResultSet`: `get_string_by_name` and `get_i64_by_name`; null is `none`.
pub record Row : Type 0 where
  pub strings : Text → Result (Option Text)
  pub ints : Text → Result (Option ℤ)

pub record Page : Type 0 where
  pub rows : List Row
  pub page_token : Option Text

-- The client: a query's job id and first page, and the further pages of a job.
pub record BigQuery : Type 0 where
  pub query : Text → QueryRequest → Result (Option Text × Page)
  pub get_query_results : Text → Text → Text → Result Page

-- What a named parameter is bound to, as the service reads it: a number or texts.
unfoldable pub bound_int : Text → List QueryParameter → Option ℤ
bound_int name [] = none
bound_int name (p ∷ ps) =
    let rest = bound_int name ps in
    if text_eq p.name name then (elim p.value [ none ↦ none | some t ↦ parse_ℤ t ]) else rest

unfoldable pub bound_strings : Text → List QueryParameter → Option (List Text)
bound_strings name [] = none
bound_strings name (p ∷ ps) =
    let rest = bound_strings name ps in if text_eq p.name name then p.array_values else rest

-- The range that a coverage query asks about, and the range and contracts of an events query, are
-- what the service reads of the request's parameters.
pub params_of-bound :
    (dataset : Text) (coverage : Coverage) (from to : ℤ) (ids : List Text)
    → (bound_int (lit "from") (params_of (coverage_query dataset from to)) ≡ some from)
      × (bound_int (lit "to") (params_of (coverage_query dataset from to)) ≡ some to)
      × (bound_strings (lit "ids") (params_of (coverage_query dataset from to)) ≡ none)
      × (bound_int (lit "from") (params_of (events_query dataset coverage from to ids)) ≡ some from)
      × (bound_int (lit "to") (params_of (events_query dataset coverage from to ids)) ≡ some to)
      × (bound_strings (lit "ids") (params_of (events_query dataset coverage from to ids))
          ≡ some ids)
unfolding params_of bound_int bound_strings int_param string_array_param lit text_eq
params_of-bound dataset coverage from to ids =
    (parse_ℤ-show_ℤ from, parse_ℤ-show_ℤ to, refl, parse_ℤ-show_ℤ from, parse_ℤ-show_ℤ to, refl)
