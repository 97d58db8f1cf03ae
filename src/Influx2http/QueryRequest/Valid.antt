-- ===== src/Influx2http/QueryRequest/Valid.antt =====
-- What a request that is made from a proxy request gives back.
use jaeger_influxdb.Prelude.{
  ℕ, ◌<◌, ◌≡◌, refl, true, not, List, [], ◌∷◌, Option, none, some, Text, All, arith, Bool-cases,
  inl, inr, ap,
}
use jaeger_influxdb.Prelude.Eq.{text_eq}
use jaeger_influxdb.Prelude.Outcome.{
  Outcome, ok, err, ◌>>=◌, or_error, no_query, parse_error, unsupported_compiler,
}
use jaeger_influxdb.Influx2http.QueryRequest.{
  CsvDialect, ProxyRequest, Compiler, flux_compiler, ast_compiler, repl_compiler, other_compiler,
  is_annotation, check_annotations, delimiter_rune, rune_text, validate, proxy_request,
  query_request_from_proxy_request,
}

-- A dialect that can be written: its delimiter is one byte, and its annotations are known.
pub record IsDialect (d : CsvDialect) : Type 0 where
  pub ascii : d.delimiter < 128
  pub known : All (λ a. is_annotation a ≡ true) d.annotations

check_annotations_ok :
    (annotations : List Text)
    → All (λ a. is_annotation a ≡ true) annotations
    → check_annotations annotations ≡ ok tt
unfolding check_annotations
check_annotations_ok [] _ = refl
check_annotations_ok (a ∷ rest) (h, hs) = rw (h, check_annotations_ok rest hs) refl

rune_text_ascii : (r : ℕ) → r < 128 → rune_text r ≡ r ∷ []
unfolding rune_text
rune_text_ascii r h = ground arith

delimiter_rune_ascii : (r : ℕ) → r < 128 → delimiter_rune (r ∷ []) ≡ some r
unfolding delimiter_rune
delimiter_rune_ascii r h = ground arith

twice_negated : CsvDialect → CsvDialect
twice_negated d = record d { no_header = not (not d.no_header) }

twice_negated_eq : (d : CsvDialect) → twice_negated d ≡ d
unfolding twice_negated
twice_negated_eq d = elim (Bool-cases d.no_header) [ inl e ↦ rw e refl | inr e ↦ rw e refl ]

module _ {File Spec Package : Type 0} (parse : Text → Option Package) where
  -- The compiler that the server gets.
  abbrev pub recompiled : Compiler File Spec Package → ℕ → Outcome (Compiler File Spec Package)
  recompiled (flux_compiler []) now = err no_query
  recompiled (flux_compiler (c ∷ q)) now =
      or_error parse_error (parse (c ∷ q)) >>= λ pkg. ok (ast_compiler pkg now [])
  recompiled (ast_compiler pkg then_ files) now = ok (ast_compiler pkg now [])
  recompiled (repl_compiler spec) now = ok (repl_compiler spec)
  recompiled other_compiler now = err unsupported_compiler

  abbrev with_compiler :
      ℕ
      → CsvDialect
      → Outcome (Compiler File Spec Package)
      → Outcome (ProxyRequest File Spec Package)
  with_compiler id d m =
      m >>= λ c. ok (record { organization_id = id; compiler = c; dialect = some d })

  parsed_back :
      (id now : ℕ) (d : CsvDialect) (o : Option Package)
      → with_compiler id
          (twice_negated d)
          (or_error parse_error o >>= λ pkg. ok (ast_compiler pkg now []))
        ≡ with_compiler id d (or_error parse_error o >>= λ pkg. ok (ast_compiler pkg now []))
  parsed_back id now d none = refl
  parsed_back id now d (some pkg) =
      ap (λ x. with_compiler id x (ok (ast_compiler pkg now []))) (twice_negated_eq d)

  -- Where the delimiter is one ASCII byte and the annotations are known: a proxy request that is
  -- made into a query request and back, with the organization and the time given anew, has the same
  -- header flag, delimiter and annotations, and a compiler of the same query, AST or spec; the time
  -- and the files in front of an AST are not passed on. An empty query, a query that does not parse
  -- and a compiler of another type are refused.
  pub proxy_request-query_request_from_proxy_request :
      (id now : ℕ) (c : Compiler File Spec Package) (d : CsvDialect)
      → IsDialect d
      → (query_request_from_proxy_request
            (record { organization_id = id; compiler = c; dialect = some d })
          >>= λ r. proxy_request parse (record r { org = some id }) now)
        ≡ (recompiled c now >>= λ c'.
            ok (record { organization_id = id; compiler = c'; dialect = some d }))
  unfolding query_request_from_proxy_request proxy_request validate text_eq twice_negated
  proxy_request-query_request_from_proxy_request id now other_compiler d h = refl
  proxy_request-query_request_from_proxy_request id now (flux_compiler []) d h = refl
  proxy_request-query_request_from_proxy_request id now (flux_compiler (c ∷ q)) d h =
      rw
        (
          rune_text_ascii d.delimiter h.ascii,
          delimiter_rune_ascii d.delimiter h.ascii,
          check_annotations_ok d.annotations h.known,
        )
        (parsed_back id now d (parse (c ∷ q)))
  proxy_request-query_request_from_proxy_request id now (ast_compiler pkg made files) d h =
      rw
        (
          rune_text_ascii d.delimiter h.ascii,
          delimiter_rune_ascii d.delimiter h.ascii,
          check_annotations_ok d.annotations h.known,
        )
        (ap (λ x. with_compiler id x (ok (ast_compiler pkg now []))) (twice_negated_eq d))
  proxy_request-query_request_from_proxy_request id now (repl_compiler spec) d h =
      rw
        (
          rune_text_ascii d.delimiter h.ascii,
          delimiter_rune_ascii d.delimiter h.ascii,
          check_annotations_ok d.annotations h.known,
        )
        (ap (λ x. with_compiler id x (ok (repl_compiler spec))) (twice_negated_eq d))
