-- ===== src/Influx2http/QueryRequest.antt =====
-- QueryRequest of influx2http/query.go, and its conversion from a proxy request in
-- influx2http/query_handler.go.
pub mod Valid
use jaeger_influxdb.Prelude.{
  ℕ, ◌/◌, ◌%◌, ◌+◌, ◌≡◌, Bool, true, false, not, ◌&&◌, ◌||◌, List, [], ◌∷◌, Option, none, some,
  Text, codes, length, nat_eq, ltb, leb, if◌then◌else◌,
}
use jaeger_influxdb.Prelude.Eq.{text_eq}
use jaeger_influxdb.Prelude.Outcome.{
  Outcome, ok, err, panic, ◌>>=◌, ◌>>◌, guard, or_error, or_panic, no_query, spec_and_extern,
  unknown_type, bad_comment, bad_delimiter, bad_annotation, bad_date_format, parse_error,
  unsupported_compiler, unsupported_dialect,
}

pub record QueryDialect : Type 0 where
  pub header : Option Bool
  pub delimiter : Text
  pub comment_prefix : Text
  pub date_time_format : Text
  pub annotations : List Text

-- `QueryRequest`, over the types of `ast.File`, `flux.Spec` and `ast.Package`.
pub record QueryRequest (File Spec Package : Type 0) : Type 0 where
  pub extern : Option File
  pub spec : Option Spec
  pub ast : Option Package
  pub query : Text
  pub request_type : Text
  pub dialect : QueryDialect
  pub org : Option ℕ

abbrev pub or_default : Text → Text → Text
or_default [] d = d
or_default (c ∷ s) d = c ∷ s

abbrev pub default_header : Option Bool → Option Bool
default_header none = some true
default_header (some h) = some h

abbrev pub is_given {ℓ} : {A : Type ℓ} → Option A → Bool
is_given none = false
is_given (some a) = true

abbrev pub is_empty : Text → Bool
is_empty [] = true
is_empty (c ∷ s) = false

unfoldable pub is_annotation : Text → Bool
is_annotation a =
    text_eq a (codes "group") || text_eq a (codes "datatype") || text_eq a (codes "default")

pub check_annotations : List Text → Outcome (Unit {0})
unfolding is_annotation
check_annotations [] = ok tt
check_annotations (a ∷ rest) = do guard (is_annotation a) bad_annotation; check_annotations rest

-- The first rune of a text of one byte, if the byte is one.
pub delimiter_rune : Text → Option ℕ
delimiter_rune [] = none
delimiter_rune (c ∷ s) = if ltb c 128 then some c else none

-- `string(r)` of a rune: its UTF-8 form, with U+FFFD for a number that is no rune.
unfoldable pub rune_text : ℕ → Text
rune_text r =
    if ltb r 128
    then r ∷ []
    else if ltb r 2048
    then (192 + r / 64) ∷ (128 + r % 64) ∷ []
    else if (leb 55296 r && ltb r 57344) || leb 1114112 r
    then 239 ∷ 191 ∷ 189 ∷ []
    else if ltb r 65536
    then (224 + r / 4096) ∷ (128 + r / 64 % 64) ∷ (128 + r % 64) ∷ []
    else (240 + r / 262144) ∷ (128 + r / 4096 % 64) ∷ (128 + r / 64 % 64) ∷ (128 + r % 64) ∷ []

module _ {File Spec Package : Type 0} where
  unfoldable pub with_defaults : QueryRequest File Spec Package → QueryRequest File Spec Package
  with_defaults r = record r {
    request_type = or_default r.request_type (codes "flux");
    dialect = record (r.dialect) {
      delimiter = or_default r.dialect.delimiter (codes ",");
      date_time_format = or_default r.dialect.date_time_format (codes "RFC3339");
      header = default_header r.dialect.header;
    };
  }

  unfoldable pub validate : QueryRequest File Spec Package → Outcome (Unit {0})
  unfolding check_annotations delimiter_rune
  validate r = do
    guard (not (is_empty r.query && not (is_given r.spec) && not (is_given r.ast))) no_query
    guard (not (is_given r.spec && is_given r.extern)) spec_and_extern
    guard (text_eq r.request_type (codes "flux")) unknown_type
    guard (not (ltb 1 (length r.dialect.comment_prefix))) bad_comment
    guard (nat_eq (length r.dialect.delimiter) 1) bad_delimiter
    guard (is_given (delimiter_rune r.dialect.delimiter)) bad_delimiter
    check_annotations r.dialect.annotations
    guard
        (text_eq r.dialect.date_time_format (codes "RFC3339")
          || text_eq r.dialect.date_time_format (codes "RFC3339Nano"))
        bad_date_format

-- `flux.Compiler` and what the code tells apart of it; `prelude` holds the files put in front.
pub data Compiler (File Spec Package : Type 0) : Type 0 where
  flux_compiler : Text → Compiler File Spec Package
  ast_compiler : Package → ℕ → List File → Compiler File Spec Package
  repl_compiler : Spec → Compiler File Spec Package
  other_compiler : Compiler File Spec Package

-- The fields of `csv.Dialect` that the code sets and reads.
pub record CsvDialect : Type 0 where
  pub no_header : Bool
  pub delimiter : ℕ
  pub annotations : List Text

-- `query.ProxyRequest`; a dialect of another type than `*csv.Dialect` is `none`.
pub record ProxyRequest (File Spec Package : Type 0) : Type 0 where
  pub organization_id : ℕ
  pub compiler : Compiler File Spec Package
  pub dialect : Option CsvDialect

prelude_of {ℓ} : {File : Type ℓ} → Option File → List File
prelude_of none = []
prelude_of (some file) = file ∷ []

pub no_header_of : Option Bool → Bool
no_header_of none = false
no_header_of (some header) = not header

module _ {File Spec Package : Type 0} (parse : Text → Option Package) where
  spec_compiler : Option Spec → Compiler File Spec Package
  spec_compiler none = other_compiler
  spec_compiler (some spec) = repl_compiler spec

  ast_or_spec : QueryRequest File Spec Package → Option Package → ℕ → Compiler File Spec Package
  unfolding prelude_of spec_compiler
  ast_or_spec r none now = spec_compiler r.spec
  ast_or_spec r (some pkg) now = ast_compiler pkg now (prelude_of r.extern)

  -- A query is preferred over an AST, and that over a spec. Without any the compiler is nil, which
  -- `other_compiler` stands for; the validation excludes it.
  pub compiler_of : QueryRequest File Spec Package → Text → ℕ → Outcome (Compiler File Spec Package)
  unfolding ast_or_spec
  compiler_of r [] now = ok (ast_or_spec r r.ast now)
  compiler_of r (c ∷ q) now = do
    pkg ← or_error parse_error (parse (c ∷ q))
    ok (ast_compiler pkg now (prelude_of r.extern))

  -- `r.Org.ID` dereferences the organization.
  unfoldable pub proxy_request :
      QueryRequest File Spec Package → ℕ → Outcome (ProxyRequest File Spec Package)
  unfolding compiler_of no_header_of delimiter_rune
  proxy_request r now = do
    validate r
    compiler ← compiler_of r r.query now
    delimiter ← or_error bad_delimiter (delimiter_rune r.dialect.delimiter)
    organization_id ← or_panic r.org
    ok (record {
      organization_id = organization_id;
      compiler = compiler;
      dialect = some (record {
        no_header = no_header_of r.dialect.header;
        delimiter = delimiter;
        annotations = r.dialect.annotations;
      });
    })

pub dialect_from : CsvDialect → QueryDialect
unfolding rune_text
dialect_from d = record {
  header = some (not d.no_header);
  delimiter = rune_text d.delimiter;
  comment_prefix = codes "#";
  date_time_format = codes "RFC3339";
  annotations = d.annotations;
}

module _ {File Spec Package : Type 0} where
  pub no_request : QueryDialect → QueryRequest File Spec Package
  no_request d = record {
    extern = none;
    spec = none;
    ast = none;
    query = [];
    request_type = codes "flux";
    dialect = d;
    org = none;
  }

  compiled : QueryDialect → Compiler File Spec Package → Outcome (QueryRequest File Spec Package)
  unfolding no_request
  compiled d (flux_compiler query) = ok (record (no_request d) { query = query })
  compiled d (repl_compiler spec) = ok (record (no_request d) { spec = some spec })
  compiled d (ast_compiler pkg now prelude) = ok (record (no_request d) { ast = some pkg })
  compiled d other_compiler = err unsupported_compiler

  -- Both switches; the compiler's comes first, so that its error does.
  with_dialect :
      Compiler File Spec Package → Option CsvDialect → Outcome (QueryRequest File Spec Package)
  unfolding compiled dialect_from
  with_dialect other_compiler d = err unsupported_compiler
  with_dialect c none = err unsupported_dialect
  with_dialect c (some d) = compiled (dialect_from d) c

  unfoldable pub query_request_from_proxy_request :
      ProxyRequest File Spec Package → Outcome (QueryRequest File Spec Package)
  unfolding with_dialect
  query_request_from_proxy_request req = with_dialect req.compiler req.dialect
