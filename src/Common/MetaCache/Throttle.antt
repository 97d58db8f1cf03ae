-- ===== src/Common/MetaCache/Throttle.antt =====
-- Concurrent callers get what some order of undisturbed calls gives, and the writes under one key
-- are more than `max_age` apart.
use jaeger_influxdb.Prelude.{
  ◌≡◌, refl, true, false, ◌&&◌, List, [], ◌∷◌, Option, none, some, Text, if◌then◌else◌, arith,
  Bool-cases, inl, inr, ◌∙◌, ap, sym,
}
use mathlib.Core.Path.{subst}
use jaeger_influxdb.Prelude.Dict.{lookup, insert, lookup-insert}
use jaeger_influxdb.Prelude.Eq.{Text_eq, text_eq, text_eq_iff}
use jaeger_influxdb.Prelude.Int.{ℤ, ◌+ℤ◌, ltb_ℤ_lem, ◌<ℤ◌}
use jaeger_influxdb.Dbmodel.Model.{Time}
use jaeger_influxdb.Common.MetaCache.{
  WriterMetaCache, new_writer_meta_cache, cache_key, is_expired, recheck, should_write, Returned,
  Callers, Step, enter, read_fresh, read_expired, write, Reach, idle, later,
}

-- The calls of a log, latest first, made one after the other on a new cache, return the results of
-- the log and leave the cache `c`.
abbrev pub Sequential : ℤ → List Returned → WriterMetaCache → Type 0
Sequential max_age [] c = c ≡ new_writer_meta_cache max_age
Sequential max_age (r ∷ log) c =
    (before : WriterMetaCache) × Sequential max_age log before
    × (should_write before r.service_name r.operation_name r.start_time ≡ (c, r.result))

should_write_fresh :
    (c : WriterMetaCache) (service operation : Text) (start : Time)
    → is_expired (lookup (cache_key service operation) c.m) start ≡ false
    → should_write c service operation start ≡ (c, false)
unfolding should_write
should_write_fresh c service operation start h = rw h

should_write-recheck :
    (c : WriterMetaCache) (service operation : Text) (start : Time)
    → should_write c service operation start ≡ recheck c (cache_key service operation) start
unfolding should_write recheck
should_write-recheck c service operation start =
    elim (Bool-cases (is_expired (lookup (cache_key service operation) c.m) start)) [
      | inl e ↦ rw e
      | inr e ↦ rw e
    ]

Step-Sequential :
    (max_age : ℤ) {s t : Callers}
    → Step s t
    → Sequential max_age s.returned s.cache
    → Sequential max_age t.returned t.cache
Step-Sequential max_age (enter i service operation start p) h = h
Step-Sequential max_age {s} (read_fresh i service operation start p e) h =
    (s.cache, h, should_write_fresh s.cache service operation start e)
Step-Sequential max_age (read_expired i service operation start p e) h = h
Step-Sequential max_age {s} (write i service operation start p e) h =
    (s.cache, h, should_write-recheck s.cache service operation start ∙ e)

-- However the callers are interleaved, every call returns what it would return if the calls were
-- made one after the other in the order of their returns, and the cache is the one these leave.
pub Reach-Sequential :
    {max_age : ℤ} {s : Callers} → Reach max_age s → Sequential max_age s.returned s.cache
Reach-Sequential idle = refl
Reach-Sequential {max_age} (later r st) = Step-Sequential max_age st (Reach-Sequential r)

-- The start times of the calls under one key that were told to write, latest first.
abbrev pub writes : Text → List Returned → List Time
writes k [] = []
writes k (r ∷ log) =
    if text_eq (cache_key r.service_name r.operation_name) k && r.result
    then r.start_time ∷ writes k log
    else writes k log

-- Each time is more than `gap` after the one behind it.
abbrev pub Spaced : ℤ → List Time → Type 0
Spaced gap [] = Unit
Spaced gap (t ∷ []) = Unit
Spaced gap (t ∷ u ∷ ts) = (u +ℤ gap <ℤ t) × Spaced gap (u ∷ ts)

-- The entry of a key is the expiry of its latest write.
abbrev LastWrite : ℤ → Option Time → List Time → Type 0
LastWrite gap none ts = ts ≡ []
LastWrite gap (some v) [] = ⊥
LastWrite gap (some v) (t ∷ ts) = v ≡ t +ℤ gap

record KeyInv (max_age : ℤ) (k : Text) (log : List Returned) (c : WriterMetaCache) : Type 0 where
  age : c.max_age ≡ max_age
  last : LastWrite max_age (lookup k c.m) (writes k log)
  spaced : Spaced max_age (writes k log)

Spaced-cons :
    (gap : ℤ) (t : Time) (o : Option Time) (ts : List Time)
    → is_expired o t ≡ true
    → LastWrite gap o ts
    → Spaced gap ts
    → Spaced gap (t ∷ ts)
Spaced-cons gap t none [] e l s = tt
Spaced-cons gap t none (u ∷ ts) e l s = cc
Spaced-cons gap t (some v) [] e l s = absurd l
Spaced-cons gap t (some v) (u ∷ ts) e l s = (rw l at (ltb_ℤ_lem v t e), s)

KeyInv-same :
    (max_age : ℤ) (k : Text) (log : List Returned) (c : WriterMetaCache) (r : Returned)
    → KeyInv max_age k log c
    → r.result ≡ false
    → KeyInv max_age k (r ∷ log) c
KeyInv-same max_age k log c r inv e =
    let w : writes k (r ∷ log) ≡ writes k log = ground arith in
    record { age = inv.age; last = rw w inv.last; spaced = rw w inv.spaced }

KeyInv-write :
    (max_age : ℤ) (k : Text) (log : List Returned) (c : WriterMetaCache) (r : Returned)
    → KeyInv max_age k log c
    → is_expired (lookup (cache_key r.service_name r.operation_name) c.m) r.start_time ≡ true
    → r.result ≡ true
    → KeyInv max_age k (r ∷ log) (record c {
      m = insert (cache_key r.service_name r.operation_name) (r.start_time +ℤ c.max_age) c.m;
    })
KeyInv-write max_age k log c r inv x e =
    let j = cache_key r.service_name r.operation_name in
    let l = lookup-insert j k (r.start_time +ℤ c.max_age) c.m in
    elim (Bool-cases (text_eq j k)) [
      | inl same ↦
          let w : writes k (r ∷ log) ≡ r.start_time ∷ writes k log = rw (same, e) in
          let jk : j ≡ k = (text_eq_iff j k).0 same in
          record {
            age = inv.age;
            last = rw (w, l, same) (ap (◌+ℤ◌ r.start_time) inv.age);
            spaced = rw w (
                Spaced-cons max_age r.start_time (lookup k c.m) _ (rw jk at x) inv.last inv.spaced);
          }
      | inr other ↦
          let w : writes k (r ∷ log) ≡ writes k log = rw other in
          record { age = inv.age; last = rw (w, l, other) inv.last; spaced = rw w inv.spaced }
    ]

KeyInv-step :
    (max_age : ℤ) (k : Text) (log : List Returned) (before c : WriterMetaCache) (r : Returned)
    → KeyInv max_age k log before
    → recheck before (cache_key r.service_name r.operation_name) r.start_time ≡ (c, r.result)
    → KeyInv max_age k (r ∷ log) c
unfolding recheck
KeyInv-step max_age k log before c r inv e =
    elim (Bool-cases
      (is_expired (lookup (cache_key r.service_name r.operation_name) before.m) r.start_time)) [
        | inl x ↦
            let e' = rw x at e in
            subst (KeyInv max_age k (r ∷ log)) (ap (λ p. p.0) e')
              (KeyInv-write max_age k log before r inv x (sym (ap (λ p. p.1) e')))
        | inr x ↦
            let e' = rw x at e in
            subst (KeyInv max_age k (r ∷ log)) (ap (λ p. p.0) e')
              (KeyInv-same max_age k log before r inv (sym (ap (λ p. p.1) e')))
      ]

Sequential-KeyInv :
    (max_age : ℤ) (k : Text) (log : List Returned) (c : WriterMetaCache)
    → Sequential max_age log c
    → KeyInv max_age k log c
Sequential-KeyInv max_age k [] c e = rw e (record {
  age = unfold new_writer_meta_cache in refl;
  last = unfold lookup new_writer_meta_cache in refl;
  spaced = tt;
})
Sequential-KeyInv max_age k (r ∷ log) c (before, h, e) =
    KeyInv-step max_age k log before c r (Sequential-KeyInv max_age k log before h)
      (rw should_write-recheck at e)

pub Sequential-Spaced :
    (max_age : ℤ) (k : Text) (log : List Returned) (c : WriterMetaCache)
    → Sequential max_age log c
    → Spaced max_age (writes k log)
Sequential-Spaced max_age k log c h = (Sequential-KeyInv max_age k log c h).spaced

-- Under any interleaving, of the calls that were told to write under one key each starts more than
-- `max_age` after the one that returned before it.
pub Reach-Spaced :
    {max_age : ℤ} {s : Callers} (k : Text) → Reach max_age s → Spaced max_age (writes k s.returned)
Reach-Spaced {max_age} {s} k r = Sequential-Spaced max_age k s.returned s.cache (Reach-Sequential r)
