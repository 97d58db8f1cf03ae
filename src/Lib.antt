-- ===== src/Lib.antt =====
-- Verification of the InfluxDB storage plugin for Jaeger.
--
-- The plugin stores the spans that Jaeger hands to it in InfluxDB 1 (package storev1) or InfluxDB 2
-- (package storev2) and reads them back. A writer's WriteSpan turns a span into points
-- (dbmodel/from_domain_v1.go, dbmodel/from_domain_v2.go), sends them as strings on a channel, and asks
-- a cache (common/write_meta_cache.go) whether a point of meta data is due. A goroutine of the writer,
-- batchAndWrite, takes the strings from the channel and writes them in batches; the writer of storev2
-- writes through the write service of package influx2http. A reader runs a query and turns the result
-- into traces, trace IDs or dependency links (dbmodel/to_domain_v1.go, dbmodel/to_domain_v2.go).
--
-- The files and what they model:
--   Prelude.antt and its children: lists over the native numbers, integers with the wrap-around of
--     int64, dictionaries for Go's maps, the outcome of a call (a value, an error or a panic), and the
--     orders in which a map can be ranged over.
--   Go.antt and its children: what the code uses of the packages strings, strconv and encoding/base64.
--   Common.antt: common/common.go. Common/MetaCache.antt: WriterMetaCache, with should_write for
--     ShouldWrite and Step for its interleaving with other callers between the locks.
--   Dbmodel/Model.antt: the data model of Jaeger, with the text forms of IDs and of float64 values as
--     the interfaces Ids and Floats.
--   Dbmodel/KeyValue.antt, Dbmodel/LogText.antt, Dbmodel/References.antt: the text forms of tags, log
--     fields and references (dbmodel/common.go, and stringsToKeyValue of dbmodel/to_domain_v2.go).
--   Dbmodel/SpanTime.antt: dbmodel/spanid.go.
--   Dbmodel/ToPoints.antt: SpanToPointsV1 and SpanToPointsV2, over the interface Models for the tag
--     sets and points of the client.
--   Dbmodel/Flux.antt and its children: dbmodel/to_domain_v2.go, with a row as the list of its columns
--     and a table as the list of its rows and the error that its reading ends with.
--   Dbmodel/Dependencies.antt: DependencyLinksFromResultV2, whose second half is also that of
--     DependencyLinksFromResultV1. Dbmodel/Dependencies/Gathered.antt says of a list of rows, as spans
--     with their services and references, which links it has; Dbmodel/Flux/Rows.antt and
--     Dbmodel/InfluxQl/Links/Rows.antt say what a row holds.
--   Dbmodel/InfluxQl.antt and its children: dbmodel/to_domain_v1.go, with a row as its tags, the names
--     of its columns and its lists of dynamic values. The spans that are shared by the traces and the
--     map that finds them are modelled by their places in the traces. Dbmodel/InfluxQl/Written.antt
--     has what a row has to show of the point of a span for the span to be read back from it.
--     Dbmodel/InfluxQl/Columns.antt has the columns by their names.
--   Dbmodel/Queries.antt: dbmodel/tracequery_influxql.go, dbmodel/logquery_influxql.go and
--     dbmodel/tracequery_flux.go, the builders of the queries with the texts they build.
--   Writer/Batch.antt: batchAndWrite as a machine over the events of its select. Writer/Spans.antt:
--     WriteSpan of storev1/writer.go and storev2/writer.go. Writer/Send.antt: writeBatch of both, with
--     the line that is logged about a batch. Writer/Senders.antt: callers of WriteSpan, the loop, its
--     timer and Close as the steps of one system.
--   Reader/Flux.antt: storev2/reader.go, over the answers to its queries. Reader/InfluxQl.antt:
--     storev1/reader.go, over the replies of its client; Reader/InfluxQl/Concurrent.antt has the steps
--     of FindTraces, whose goroutine reads the traces while the caller asks for the logs.
--   Stores.antt and its children: config/config.go, NewStore of storev1/store.go and storev2/store.go,
--     and main of cmd/jaeger-influxdb/main.go, over viper, the client of InfluxDB 1 and Net.
--   Influx2http.antt and its children: influx2http/client.go, tokens.go, errors.go, bucket_service.go,
--     org_service.go, write_handler.go, query.go and query_handler.go, over the interface Net for the
--     packages net/url, net/http and encoding/json.
--   Tests.antt and its children: instances of the interfaces, and the theorems at concrete values.
--
-- A function of Go that returns an error is a function into Outcome; where Go panics, at a nil pointer
-- or at a column of another type, the model has the value panic. A loop over a slice is structural
-- recursion on a list, and the loops over an index recur on the index, so no fuel is used. A map is an
-- association list in which each key stands once; where the code ranges over a map, the order is an
-- argument, of which only is assumed that it is a permutation. Text is the list of its bytes. A number of
-- the type int64 is an integer to which wrap64 is applied after each sum, and a time is its number of
-- nanoseconds since 1970.
--
-- Not modelled: loggers but for the lines about a batch, tracing, the parsing of flags, the serving of
-- the plugin over gRPC, the two transports of influx2http/transport.go, which are values of a library,
-- the container files, and the vendored libraries, of which the model takes what is called as an
-- argument.
pub mod Prelude
pub mod Go
pub mod Dbmodel
pub mod Common
pub mod Writer
pub mod Stores
pub mod Tests
pub mod Influx2http
pub mod Reader
