-- ===== src/Dbmodel/Dependencies/Links.antt =====
-- Which links the end of DependencyLinksFromResultV1 and DependencyLinksFromResultV2 returns.
use mathlib.Core.List.{Permᴰ}
use mathlib.Core.List.Permᴰ
use jaeger_influxdb.Prelude.{
  ◌<◌, ◌≡◌, ◌≢◌, refl, sym, ap, ◌∙◌, true, false, List, [], ◌∷◌, ◌++◌, map, none, some, Text,
  length, All, append-nil, append_assoc, Bool-cases, inl, inr, arith,
}
use jaeger_influxdb.Prelude.Dict.{Dict, lookup, insert, lookup-insert}
use jaeger_influxdb.Prelude.Orders.{IsRange, All-perm, Fresh, Distinct, Distinct-perm}
use jaeger_influxdb.Prelude.Eq.{ℕ_eq, Text_eq, text_eq, text_eq_iff}
use jaeger_influxdb.Prelude.Int.{two64}
use jaeger_influxdb.Dbmodel.Model.{SpanId, Ids, IdLaws}
use jaeger_influxdb.Dbmodel.Dependencies.{
  DependencyLink, Calls, service_of, new_link, count_calls, cross_links, dependency_links,
}

-- The parts of two joined texts, if the first ones have one length.
append_split : (a b c d : Text) → length a ≡ length c → a ++ b ≡ c ++ d → (a ≡ c) × (b ≡ d)
append_split [] b [] d _ e = (refl, e)
append_split [] b (y ∷ c) d l e = absurd (omega arith)
append_split (x ∷ a) b [] d l e = absurd (omega arith)
append_split (x ∷ a) b (y ∷ c) d l e =
    let (p, q) = append_split a b c d (omega arith) (tail_eq e) in (cc, q)
  where
    tail_eq : x ∷ (a ++ b) ≡ y ∷ (c ++ d) → a ++ b ≡ c ++ d
    tail_eq e = cc

-- The IDs of a call that are `uint64` values.
abbrev pub IsCall : SpanId × SpanId → Type 0
IsCall e = (e.0 < two64) × (e.1 < two64)

insert_new {ℓ} :
    {V : Type ℓ} (k : Text) (v : V) (m : Dict Text V)
    → lookup k m ≡ none
    → insert k v m ≡ m ++ (k, v) ∷ []
unfolding lookup insert
insert_new k v [] h = refl
insert_new k v ((j, w) ∷ m) h = elim (Bool-cases (text_eq j k)) [
  | inl e ↦ absurd (none_some (rw e at h))
  | inr e ↦ rw e (ap (◌∷◌ (j, w)) (insert_new k v m (rw e at h)))
]
  where
    none_some : some w ≡ none → ⊥
    none_some e = cc

module _ (ids : Ids) (laws : IdLaws ids) where
  open ids use {span_id_string}

  span_id_string-injective :
      (a b : SpanId) → a < two64 → b < two64 → span_id_string a ≡ span_id_string b → a ≡ b
  span_id_string-injective a b ha hb e =
      some_eq (sym (laws.span_id a ha) ∙ ap ids.span_id_from_string e ∙ laws.span_id b hb)
    where
      some_eq : some a ≡ some b → a ≡ b
      some_eq e = cc

  abbrev link_key : SpanId × SpanId → Text
  link_key e = span_id_string e.0 ++ span_id_string e.1

  link_key_ne :
      (e f : SpanId × SpanId)
      → IsCall e
      → IsCall f
      → f.0 ≢ e.0
      → text_eq (link_key e) (link_key f) ≡ false
  link_key_ne e f (he, _) (hf, _) ne = elim (Bool-cases (text_eq (link_key e) (link_key f))) [
    | inl same ↦
        let (p, q) =
          append_split (span_id_string e.0) _ (span_id_string f.0) _
            (laws.span_id_width e.0 he ∙ sym (laws.span_id_width f.0 hf))
            ((text_eq_iff (link_key e) (link_key f)).0 same) in
        absurd (ne (sym (span_id_string-injective e.0 f.0 he hf p)))
    | inr other ↦ other
  ]

  module _ (calls : Calls) where
    -- The link of one span with a parent: it counts one call.
    abbrev pub one_link : SpanId × SpanId → Text × DependencyLink
    one_link e = (
      link_key e,
      record { parent = service_of calls e.1; child = service_of calls e.0; call_count = 1 },
    )

    abbrev New : Dict Text DependencyLink → List (SpanId × SpanId) → Type 0
    New links = All (λ e. lookup (link_key e) links ≡ none)

    New-insert :
        (links : Dict Text DependencyLink) (e : SpanId × SpanId) (v : DependencyLink)
        (es : List (SpanId × SpanId))
        → IsCall e
        → All IsCall es
        → Fresh e es
        → New links es
        → New (insert (link_key e) v links) es
    New-insert links e v [] _ _ _ _ = tt
    New-insert links e v (f ∷ es) c (d, cs) (ne, fresh) (n, ns) = (
      lookup-insert (link_key e) (link_key f) v links ∙ rw (link_key_ne e f c d ne) n,
      New-insert links e v es c cs fresh ns,
    )

    count_calls-map :
        (es : List (SpanId × SpanId)) (links : Dict Text DependencyLink)
        → All IsCall es
        → Distinct es
        → New links es
        → count_calls ids calls links es ≡ links ++ map one_link es
    unfolding count_calls new_link
    count_calls-map [] links _ _ _ = sym (append-nil links)
    count_calls-map (e ∷ es) links (c, cs) (fresh, distinct) (n, ns) =
        let grown = insert_new (link_key e) (one_link e).1 links n in
        let news = rw grown at (New-insert links e (one_link e).1 es c cs fresh ns) in
        rw n (
          rw grown (
            count_calls-map es (links ++ one_link e ∷ []) cs distinct news
            ∙ append_assoc links (one_link e ∷ []) (map one_link es)))

    all_none : (es : List (SpanId × SpanId)) → New [] es
    unfolding lookup
    all_none [] = tt
    all_none (e ∷ es) = (refl, all_none es)

    cross_links_skip :
        (k : Text) (dl : DependencyLink) (rest : List (Text × DependencyLink))
        → text_eq dl.parent dl.child ≡ true
        → cross_links ids ((k, dl) ∷ rest) ≡ cross_links ids rest
    unfolding cross_links
    cross_links_skip k dl rest e = simp e

    cross_links_take :
        (k : Text) (dl : DependencyLink) (rest : List (Text × DependencyLink))
        → text_eq dl.parent dl.child ≡ false
        → cross_links ids ((k, dl) ∷ rest) ≡ dl ∷ cross_links ids rest
    unfolding cross_links
    cross_links_take k dl rest e = simp e

    cross_links-cons :
        (a b : Text × DependencyLink) (xs ys : List (Text × DependencyLink))
        → a ≡ b
        → Permᴰ (cross_links ids xs) (cross_links ids ys)
        → Permᴰ (cross_links ids (a ∷ xs)) (cross_links ids (b ∷ ys))
    cross_links-cons (k, dl) b xs ys e p =
        rw (← e) (elim (Bool-cases (text_eq dl.parent dl.child)) [
          | inl x ↦ rw (cross_links_skip k dl xs x, cross_links_skip k dl ys x) p
          | inr x ↦ rw (cross_links_take k dl xs x, cross_links_take k dl ys x) (Permᴰ.cons refl p)
        ])

    cross_links-swap :
        (a b : Text × DependencyLink) (xs : List (Text × DependencyLink))
        → Permᴰ (cross_links ids (a ∷ b ∷ xs)) (cross_links ids (b ∷ a ∷ xs))
    cross_links-swap (j, a) (k, b) xs = elim (Bool-cases (text_eq a.parent a.child)) [
      | inl x ↦ rw (cross_links_skip j a ((k, b) ∷ xs) x) (
          cross_links-cons (k, b) (k, b) xs ((j, a) ∷ xs) refl
            (rw (cross_links_skip j a xs x) (Permᴰ.refl _)))
      | inr x ↦ elim (Bool-cases (text_eq b.parent b.child)) [
        | inl y ↦ rw (cross_links_skip k b ((j, a) ∷ xs) y) (
            cross_links-cons (j, a) (j, a) ((k, b) ∷ xs) xs refl
              (rw (cross_links_skip k b xs y) (Permᴰ.refl _)))
        | inr y ↦
            rw
              (
                cross_links_take j a ((k, b) ∷ xs) x,
                cross_links_take k b xs y,
                cross_links_take k b ((j, a) ∷ xs) y,
                cross_links_take j a xs x,
              )
              (Permᴰ.swap refl refl)
      ]
    ]

    cross_links-perm :
        {xs ys : List (Text × DependencyLink)}
        → Permᴰ xs ys
        → Permᴰ (cross_links ids xs) (cross_links ids ys)
    cross_links-perm Permᴰ.nil = Permᴰ.refl _
    cross_links-perm (Permᴰ.cons {a = a} {b = b} {l₁ = l₁} {l₂ = l₂} e p) =
        cross_links-cons a b l₁ l₂ e (cross_links-perm p)
    cross_links-perm (Permᴰ.swap {a = a} {b = b} {l = l} e f) =
        rw (← e, ← f) (cross_links-swap a b l)
    cross_links-perm (Permᴰ.trans p q) = Permᴰ.trans (cross_links-perm p) (cross_links-perm q)

    -- Where each child stands once in the gathered map, its IDs are `uint64`, the maps are ranged
    -- over in some order of their entries and the laws on the text of IDs hold: the links are, in
    -- some order, one for each span with a parent, with the services of the two and a call count of
    -- 1, without those within one service. No two calls are counted on one link.
    pub dependency_links-perm :
        {range : Dict SpanId SpanId → List (SpanId × SpanId)}
        {range_links : Dict Text DependencyLink → List (Text × DependencyLink)}
        → IsRange range
        → IsRange range_links
        → All IsCall calls.parent_by_child
        → Distinct calls.parent_by_child
        → Permᴰ
            (dependency_links ids range range_links calls)
            (cross_links ids (map one_link calls.parent_by_child))
    unfolding dependency_links
    dependency_links-perm {range} {range_links} hr hl bounds distinct =
        let entries = range calls.parent_by_child in
        let back = Permᴰ.symm (hr calls.parent_by_child) in
        let all_new = all_none entries in
        let counted =
          count_calls-map entries [] (All-perm IsCall back bounds) (Distinct-perm back distinct)
            all_new in
        Permᴰ.trans (cross_links-perm (hl _))
          (rw counted (cross_links-perm (Permᴰ.map one_link (hr calls.parent_by_child))))
