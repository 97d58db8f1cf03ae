-- ===== src/Reader/Flux/Found.antt =====
-- Where the traces come from that FindTraces returns.
use jaeger_influxdb.Prelude.{All, Each, ◌≡◌, ◌≢◌, List, [], map, none, Text}
use jaeger_influxdb.Prelude.Dict.{Dict}
use jaeger_influxdb.Dbmodel.Model.{TraceId, Time, Span, Floats, Ids}
use jaeger_influxdb.Dbmodel.Flux.Traces.{Table, Trace}
use jaeger_influxdb.Dbmodel.Flux.Traces.Found.{HasId}
use jaeger_influxdb.Dbmodel.Flux.Rows.{table_rows}
use jaeger_influxdb.Dbmodel.Flux.Traces.Attach.{span_traces, last_rows, logged}
use jaeger_influxdb.Dbmodel.Queries.{TraceQueryParameters}
use jaeger_influxdb.Reader.Flux.{Answer, tables, Reader, trace_ids_query, traces_query}

module _ {F : Type 0} (floats : Floats F) (ids : Ids) (range : Dict Text Text → List (Text × Text))
    (format : Time → Text) (run : Text → Answer F) (r : Reader) (query : TraceQueryParameters) where
  -- The answer to the query for trace IDs, the IDs of its rows, which are one or more, and the answer to the query for their traces.
  pub record Source (traces : List (Trace F)) : Type 0 where
    pub id_answer : List (Table F)
    pub asked : run (trace_ids_query floats ids range format run r query) ≡ tables id_answer
    pub ids_whole : All (λ table. table.fault ≡ none) id_answer
    pub trace_ids : List TraceId
    pub ids_read : Each (HasId floats ids) (table_rows id_answer) trace_ids
    pub answer : List (Table F)
    pub some_found : trace_ids ≢ []
    pub answered : run (traces_query floats ids range format run r query trace_ids) ≡ tables answer
    pub read :
        traces
        ≡ map
            (λ (tr : Trace F). record tr {
              spans =
                  map
                    (λ (s : Span F).
                      logged floats ids r.span_measurement r.log_measurement
                        (last_rows floats ids r.span_measurement r.log_measurement s.trace_id answer
                          none)
                        s)
                    tr.spans;
            })
            (span_traces floats ids r.span_measurement r.log_measurement answer)
