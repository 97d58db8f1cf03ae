-- ===== src/Influx2http/Buckets/Found.antt =====
-- What was asked and answered where FindBucket returns a bucket.
use mathlib.Core.Option
use mathlib.Core.Path.{subst}
use jaeger_influxdb.Prelude.{
  ℕ, ◌/◌, ◌≡◌, refl, sym, ap, ◌∙◌, false, List, [], ◌∷◌, ◌++◌, Option, none, some, Text, codes,
  Bool-cases, inl, inr,
}
use jaeger_influxdb.Prelude.Dict.{lookup, lookup-insert, lookup-insert_self}
use jaeger_influxdb.Prelude.Eq.{Text_eq, text_eq}
use jaeger_influxdb.Prelude.Int.{ℤ, pos, wrap64, ltb_ℤ}
use jaeger_influxdb.Prelude.Outcome.{
  ok, err, >>=-eq-ok, ok_eq, or_error, or_error-eq-ok, bad_body, unprocessable,
}
use jaeger_influxdb.Influx2http.Http.{
  Values, add_value, Url, Request, Response, Net, Service, new_url, new_request, set_token,
  do_request, check_error,
}
use jaeger_influxdb.Influx2http.Http.Answers.{check_error_ok, do_request_url}
use jaeger_influxdb.Influx2http.Buckets.{
  RetentionRule, BucketJson, Bucket, BucketFilter, seconds, bucket_with, retention, to_influxdb,
  add_some, add_id, bucket_query, to_buckets, find_buckets, first_bucket, find_bucket,
}

-- The query of a URL gives a value for a key, as the last of the values for it, if there is one.
abbrev pub Gives : Values → Text → Option Text → Type 0
Gives query k none = Unit
Gives query k (some v) = (before : List Text) × (lookup k query ≡ some (before ++ v ∷ []))

Gives-add_value :
    (j k w : Text) (o : Option Text) (vs : Values)
    → text_eq j k ≡ false
    → Gives vs k o
    → Gives (add_value j w vs) k o
unfolding add_value
Gives-add_value j k w none vs ne h = tt
Gives-add_value j k w (some v) vs ne (before, e) = (before, lookup-insert j k _ vs ∙ rw ne e)

Gives-add_some :
    (j k : Text) (p o : Option Text) (vs : Values)
    → text_eq j k ≡ false
    → Gives vs k o
    → Gives (add_some j p vs) k o
unfolding add_some
Gives-add_some j k none o vs ne h = h
Gives-add_some j k (some w) o vs ne h = Gives-add_value j k w o vs ne h

add_some-Gives : (k : Text) (o : Option Text) (vs : Values) → Gives (add_some k o vs) k o
unfolding add_some add_value
add_some-Gives k none vs = tt
add_some-Gives k (some v) vs = (_, lookup-insert_self k _ vs)

module _ (net : Net) (decode : Text → Option (List (Option BucketJson))) where
  -- What a filter asks for: each of its four parts that is given, under its own parameter.
  pub record Asks (filter : BucketFilter) (query : Values) : Type 0 where
    pub by_org_id : Gives query (codes "orgID") (Option.map net.id_string filter.organization_id)
    pub by_org : Gives query (codes "org") filter.org
    pub by_id : Gives query (codes "id") (Option.map net.id_string filter.id)
    pub by_name : Gives query (codes "name") filter.name

  add_id-add_some :
      (k : Text) (o : Option ℕ) (vs : Values)
      → add_id net decode k o vs ≡ add_some k (Option.map net.id_string o) vs
  unfolding add_id add_some
  add_id-add_some k none vs = refl
  add_id-add_some k (some n) vs = refl

  bucket_query-Asks :
      (filter : BucketFilter) (vs : Values) → Asks filter (bucket_query net decode filter vs)
  unfolding bucket_query text_eq
  bucket_query-Asks filter vs =
      rw (add_id-add_some (codes "orgID"), add_id-add_some (codes "id"))
        (record {
          by_org_id = Gives-add_some _ _ filter.name _ _ refl (
              Gives-add_some _ _ (Option.map net.id_string filter.id) _ _ refl
                (Gives-add_some _ _ filter.org _ _ refl (add_some-Gives _ _ vs)));
          by_org = Gives-add_some _ _ filter.name _ _ refl (
              Gives-add_some _ _ (Option.map net.id_string filter.id) _ _ refl
                (add_some-Gives _ _ _));
          by_id = Gives-add_some _ _ filter.name _ _ refl (add_some-Gives _ _ _);
          by_name = add_some-Gives _ _ _;
        })

  -- A bucket as the server sent it: its fields, and as its retention period no time where it has
  -- no rule, or that of its first rule, which is at least one second.
  pub record SentAs (j : BucketJson) (b : Bucket) : Type 0 where
    pub id : b.id ≡ j.id
    pub org_id : b.org_id ≡ j.org_id
    pub name : b.name ≡ j.name
    pub no_rule : j.retention_rules ≡ [] → b.retention_period ≡ pos 0
    pub first_rule :
        (r : RetentionRule) (rs : List RetentionRule)
        → j.retention_rules ≡ r ∷ rs
        → (b.retention_period ≡ wrap64 (seconds r.every_seconds))
          × (ltb_ℤ b.retention_period (pos 1000000000) ≡ false)

  ruled :
      (r : RetentionRule) (rs : List RetentionRule) (d : ℤ)
      → retention (r ∷ rs) ≡ ok d
      → (d ≡ wrap64 (seconds r.every_seconds)) × (ltb_ℤ d (pos 1000000000) ≡ false)
  unfolding retention
  ruled r rs d e = elim (Bool-cases (ltb_ℤ (wrap64 (seconds r.every_seconds)) (pos 1000000000))) [
    | inl short ↦ absurd (err_ok (rw short at e))
    | inr long ↦
        let same = ok_eq (rw long at e) in
        (sym same, subst (λ p. ltb_ℤ p (pos 1000000000) ≡ false) same long)
  ]
    where
      err_ok : err unprocessable ≡ ok d → ⊥
      err_ok h = cc

  to_influxdb-SentAs : (j : BucketJson) (b : Bucket) → to_influxdb j ≡ ok b → SentAs j b
  unfolding to_influxdb retention bucket_with
  to_influxdb-SentAs j b e =
      let (d, p, q) = >>=-eq-ok (retention j.retention_rules) _ e in
      subst (SentAs j) (ok_eq q) (record {
        id = refl;
        org_id = refl;
        name = refl;
        no_rule = λ none_given. sym (ok_eq (rw none_given at p));
        first_rule = λ r rs h. ruled r rs d (rw h at p);
      })

  -- A request for the buckets of a filter, and an answer of the server that begins with a bucket.
  pub record Answer (filter : BucketFilter) (b : Bucket) : Type 0 where
    pub request : Request
    pub response : Response
    pub json : BucketJson
    pub others : List (Option BucketJson)
    pub asked : Asks filter request.url.query
    pub sent : net.send request ≡ some response
    pub accepted : response.status_code / 100 ≡ 2
    pub decoded : decode response.body ≡ some (some json ∷ others)
    pub read : SentAs json b

  first_json :
      (bs : List (Option BucketJson)) (pbs : List Bucket) (b : Bucket)
      → to_buckets net decode bs ≡ ok pbs
      → first_bucket net decode pbs ≡ ok b
      → (j : BucketJson) × (rest : List (Option BucketJson)) × (bs ≡ some j ∷ rest)
        × (to_influxdb j ≡ ok b)
  unfolding to_buckets first_bucket
  first_json [] [] b e f = cc
  first_json [] (pb ∷ pbs) b e f = cc
  first_json (none ∷ bs) pbs b e f = cc
  first_json (some j ∷ bs) pbs b e f =
      let (pb, p, e') = >>=-eq-ok (to_influxdb j) _ e in
      let (rest, q, e'') = >>=-eq-ok (to_buckets net decode bs) _ e' in
      (j, bs, refl, p ∙ ap ok (ok_eq (ap (first_bucket net decode) (ok_eq e'') ∙ f)))

  -- Where FindBucket returns a bucket, the server was sent a request that gives each part of the
  -- filter that is there under its own parameter: the ID and the name of the organization, the ID
  -- and the name of the bucket. It answered with a status of the class 2 and with buckets of which
  -- the returned one is the first, and this one has no retention rule and no period, or a first
  -- rule, of at least one second as an `int64` of nanoseconds, which is its period.
  pub find_bucket-Answer :
      (s : Service) (filter : BucketFilter) (b : Bucket)
      → find_bucket net decode s filter ≡ ok b
      → Answer filter b
  unfolding find_bucket find_buckets set_token
  find_bucket-Answer s filter b e =
      let (pbs, found, first) = >>=-eq-ok (find_buckets net decode s filter) _ e in
      let (u, e1, r1) = >>=-eq-ok (new_url net s.addr (codes "/api/v2/buckets")) _ found in
      let (req, e2, r2) = >>=-eq-ok (new_request net (codes "GET") u []) _ r1 in
      let (resp, e3, r3) = >>=-eq-ok (do_request net s u _) _ r2 in
      let (done, e4, r4) = >>=-eq-ok (check_error net resp) _ r3 in
      let (bs, e5, r5) = >>=-eq-ok (or_error bad_body (decode resp.body)) _ r4 in
      let (j, rest, split, read) = first_json bs pbs b r5 first in
      let (sent, e6, same) = do_request_url net s u _ resp e3 in
      record {
        request = sent;
        response = resp;
        json = j;
        others = rest;
        asked =
            subst (λ (v : Url). Asks filter v.query) (sym same) (bucket_query-Asks filter u.query);
        sent = e6;
        accepted = check_error_ok net resp done e4;
        decoded = or_error-eq-ok bad_body _ bs e5 ∙ ap some split;
        read = to_influxdb-SentAs j b read;
      }
