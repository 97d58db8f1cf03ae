-- ===== src/Go/Strings.antt =====
-- Package `strings`: `HasPrefix`, `Split` and `SplitN` at one byte, `Join` and `ReplaceAll`.
use jaeger_influxdb.Prelude.{
  ℕ, zero, suc, ◌-◌, ◌≡◌, ◌≢◌, refl, Bool, true, false, ◌&&◌, List, [], ◌∷◌, ◌++◌, Option, none,
  some, arith, Text, length, All, Lacks, append-nil, append_assoc, nat_eq, if◌then◌else◌,
}

unfoldable pub starts_with : Text → Text → Bool
starts_with [] s = true
starts_with (x ∷ p) [] = false
starts_with (x ∷ p) (c ∷ s) = nat_eq x c && starts_with p s

-- `Split(s, sep)` for one byte: the part that begins here, and the parts behind it.
split_from : ℕ → Text → Text → List Text
split_from sep part [] = part ∷ []
split_from sep part (c ∷ s) = elim (nat_eq c sep) [
  | true ↦ part ∷ split_from sep [] s
  | false ↦ split_from sep (part ++ c ∷ []) s
]

unfoldable pub split : Text → ℕ → List Text
unfolding split_from
split s sep = split_from sep [] s

-- `SplitN(s, sep, 2)` for one byte: the two parts, or none where there is no separator.
cut_from : ℕ → Text → Text → Option (Text × Text)
cut_from sep part [] = none
cut_from sep part (c ∷ s) =
    let rest = cut_from sep (part ++ c ∷ []) s in if nat_eq c sep then some (part, s) else rest

unfoldable pub split_two : Text → ℕ → Option (Text × Text)
unfolding cut_from
split_two s sep = cut_from sep [] s

unfoldable pub join : List Text → Text → Text
join [] sep = []
join (p ∷ []) sep = p
join (p ∷ q ∷ ps) sep = p ++ (sep ++ join (q ∷ ps) sep)

-- `ReplaceAll(s, old, new)` for a nonempty `old`: from left to right, where a match skips the
-- rest of its bytes. The first argument counts the bytes still to skip.
unfoldable pub replace_from : ℕ → Text → Text → Text → Text
unfolding starts_with
replace_from n old new [] = []
replace_from (suc n) old new (c ∷ s) = replace_from n old new s
replace_from zero old new (c ∷ s) = elim (starts_with old (c ∷ s)) [
  | true ↦ new ++ replace_from (length old - 1) old new s
  | false ↦ c ∷ replace_from 0 old new s
]

unfoldable pub replace_all : Text → Text → Text → Text
unfolding replace_from
replace_all s old new = replace_from 0 old new s

pub split_two-append :
    (sep : ℕ) (p s : Text) → Lacks sep p → split_two (p ++ sep ∷ s) sep ≡ some (p, s)
unfolding split_two
split_two-append sep p s h = go p [] h
  where
    go : (q part : Text) → Lacks sep q → cut_from sep part (q ++ sep ∷ s) ≡ some (part ++ q, s)
    go [] part _ = rw append-nil (ground arith)
    go (c ∷ q) part (hc, hq) =
        ground (arith, go q (part ++ c ∷ []) hq, append_assoc part (c ∷ []) q)

split_from-append :
    (sep : ℕ) (p part s : Text)
    → Lacks sep p
    → split_from sep part (p ++ s) ≡ split_from sep (part ++ p) s
unfolding split_from
split_from-append sep [] part s _ = rw append-nil
split_from-append sep (c ∷ p) part s (hc, hp) =
    ground (arith, split_from-append sep p (part ++ c ∷ []) s hp, append_assoc part (c ∷ []) p)

split_from_whole :
    (sep : ℕ) (p part : Text) → Lacks sep p → split_from sep part p ≡ (part ++ p) ∷ []
unfolding split_from
split_from_whole sep [] part _ = rw append-nil
split_from_whole sep (c ∷ p) part (hc, hp) =
    ground (arith, split_from_whole sep p (part ++ c ∷ []) hp, append_assoc part (c ∷ []) p)

split_from-join :
    (sep : ℕ) (p : Text) (ps : List Text)
    → All (Lacks sep) (p ∷ ps)
    → split_from sep [] (join (p ∷ ps) (sep ∷ [])) ≡ p ∷ ps
unfolding split_from join
split_from-join sep p [] (hp, _) = split_from_whole sep p [] hp
split_from-join sep p (q ∷ ps) (hp, hps) =
    rw (split_from-append sep p [] _ hp) (ground (arith, split_from-join sep q ps hps))

-- Splitting a join gives the parts back, if there is a part and none holds the separator.
pub split-join :
    (sep : ℕ) (ps : List Text) → ps ≢ [] → All (Lacks sep) ps → split (join ps (sep ∷ [])) sep ≡ ps
unfolding split
split-join sep [] h _ = absurd (h refl)
split-join sep (p ∷ ps) _ hps = split_from-join sep p ps hps
