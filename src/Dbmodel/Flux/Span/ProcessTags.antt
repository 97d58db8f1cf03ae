-- ===== src/Dbmodel/Flux/Span/ProcessTags.antt =====
-- The loop that moves the process's tags, which removes each by overwriting it with the last one.
use mathlib.Core.List.{Perm, reverse, reverse-append, perm_append_singleton}
use mathlib.Core.List.Perm
use jaeger_influxdb.Prelude.{
  ℕ, zero, suc, ◌-◌, ◌≡◌, refl, sym, ap, ◌∙◌, Bool, true, false, not, List, [], ◌∷◌, ◌++◌, some,
  Text, length, length-append, get_elem?, set, take, keep, arith, append-nil, append_assoc,
  get_elem?_middle, set_middle, take-append_length, snoc_view, Bool-cases, inl, inr,
}
use jaeger_influxdb.Dbmodel.Model.{KeyValue}
use jaeger_influxdb.Dbmodel.Flux.Span.{swap_remove, move_tags}

module _ {ℓ} {A : Type ℓ} where
  swap_remove_at :
      (i last : ℕ) (tags : List A) (y : A)
      → length tags - 1 ≡ last
      → get_elem? tags last ≡ some y
      → swap_remove i tags ≡ take last (set tags i y)
  unfolding swap_remove
  swap_remove_at i last tags y l g = rw (l, g, swap_remove) (ap (λ n. take n (set tags i y)) l)

  swap_remove_last : (init : List A) (x : A) → swap_remove (length init) (init ++ x ∷ []) ≡ init
  swap_remove_last init x =
      swap_remove_at (length init) (length init) (init ++ x ∷ []) x
        (omega (arith, length-append init (x ∷ []))) (get_elem?_middle init [] x)
      ∙ ap (take (length init)) (set_middle init [] x x)
      ∙ take-append_length init (x ∷ [])

  swap_remove_inner :
      (init rest : List A) (x y : A)
      → swap_remove (length init) (init ++ x ∷ (rest ++ y ∷ [])) ≡ init ++ y ∷ rest
  swap_remove_inner init rest x y =
      let before = init ++ x ∷ rest in
      let tags = init ++ x ∷ (rest ++ y ∷ []) in
      let split : before ++ y ∷ [] ≡ tags = append_assoc init (x ∷ rest) (y ∷ []) in
      let get : get_elem? tags (length before) ≡ some y =
        ap (λ l. get_elem? l (length before)) (sym split) ∙ get_elem?_middle before [] y in
      let size : length before ≡ length (init ++ y ∷ rest) =
        omega (arith, length-append init (x ∷ rest), length-append init (y ∷ rest)) in
      swap_remove_at (length init) (length before) tags y
        (omega (arith, ap length split, length-append before (y ∷ []))) get
      ∙ ap (take (length before)) (set_middle init (rest ++ y ∷ []) x y)
      ∙ ap (λ n. take n (init ++ y ∷ (rest ++ y ∷ []))) size
      ∙ ap (take (length (init ++ y ∷ rest))) (sym (append_assoc init (y ∷ rest) (y ∷ [])))
      ∙ take-append_length (init ++ y ∷ rest) (y ∷ [])

  -- Removing the element behind `init` leaves `init` and some order of what stood behind it.
  swap_remove_middle :
      (init rest : List A) (x : A)
      → (rest' : List A) × (swap_remove (length init) (init ++ x ∷ rest) ≡ init ++ rest')
        × Perm rest' rest
  swap_remove_middle init rest x = elim (snoc_view rest) [
    | inl e ↦ rw e ([], swap_remove_last init x ∙ sym (append-nil init), Perm.refl [])
    | inr (front, y, e) ↦
        rw e
          (y ∷ front, swap_remove_inner init front x y, Perm.symm (perm_append_singleton y front))
  ]

  keep-append : (p : A → Bool) (xs ys : List A) → keep p (xs ++ ys) ≡ keep p xs ++ keep p ys
  keep-append p [] ys = refl
  keep-append p (x ∷ xs) ys = elim (Bool-cases (p x)) [
    | inl e ↦ rw (e, keep) (ap (◌∷◌ x) (keep-append p xs ys))
    | inr e ↦ rw (e, keep) (keep-append p xs ys)
  ]

module _ {F : Type 0} (p : Text → Bool) where
  abbrev pub of_process : KeyValue F → Bool
  of_process kv = p kv.key

  abbrev pub of_span : KeyValue F → Bool
  of_span kv = not (p kv.key)

  -- What a run of the loop over `init`, with `rest` behind it, leaves and moves.
  record Moved (init rest moved : List (KeyValue F))
      (result : List (KeyValue F) × List (KeyValue F)) : Type 0 where
    left : Perm result.0 (keep of_span init ++ rest)
    taken : result.1 ≡ moved ++ reverse (keep of_process init)

  move_tags_hit :
      (n : ℕ) (tags moved : List (KeyValue F)) (kv : KeyValue F)
      → get_elem? tags n ≡ some kv
      → p kv.key ≡ true
      → move_tags p (suc n) tags moved ≡ move_tags p n (swap_remove n tags) (moved ++ kv ∷ [])
  unfolding move_tags
  move_tags_hit n tags moved kv g e = rw (g, move_tags) (rw (e, move_tags))

  move_tags_miss :
      (n : ℕ) (tags moved : List (KeyValue F)) (kv : KeyValue F)
      → get_elem? tags n ≡ some kv
      → p kv.key ≡ false
      → move_tags p (suc n) tags moved ≡ move_tags p n tags moved
  unfolding move_tags
  move_tags_miss n tags moved kv g e = rw (g, move_tags) (rw (e, move_tags))

  keep-true : (kv : KeyValue F) → p kv.key ≡ true → keep of_process (kv ∷ []) ≡ kv ∷ []
  keep-true kv e = rw (e, keep)

  keep-false : (kv : KeyValue F) → p kv.key ≡ false → keep of_process (kv ∷ []) ≡ []
  keep-false kv e = rw (e, keep)

  keep_not_true : (kv : KeyValue F) → p kv.key ≡ true → keep of_span (kv ∷ []) ≡ []
  keep_not_true kv e = rw (e, keep)

  keep_not_false : (kv : KeyValue F) → p kv.key ≡ false → keep of_span (kv ∷ []) ≡ kv ∷ []
  keep_not_false kv e = rw (e, keep)

  Moved-hit :
      (front rest rest' moved : List (KeyValue F)) (kv : KeyValue F)
      {r : List (KeyValue F) × List (KeyValue F)}
      → p kv.key ≡ true
      → Perm rest' rest
      → Moved front rest' (moved ++ kv ∷ []) r
      → Moved (front ++ kv ∷ []) rest moved r
  Moved-hit front rest rest' moved kv e same m = record {
    left =
        rw (keep-append of_span front (kv ∷ []), keep_not_true kv e, append-nil)
          (Perm.trans m.left (Perm.append_left (keep of_span front) same));
    taken =
        rw (keep-append of_process front (kv ∷ []), keep-true kv e, reverse-append)
          (m.taken ∙ append_assoc moved (kv ∷ []) _);
  }

  Moved-miss :
      (front rest moved : List (KeyValue F)) (kv : KeyValue F)
      {r : List (KeyValue F) × List (KeyValue F)}
      → p kv.key ≡ false
      → Moved front (kv ∷ rest) moved r
      → Moved (front ++ kv ∷ []) rest moved r
  Moved-miss front rest moved kv e m = record {
    left = rw (keep-append of_span front (kv ∷ []), keep_not_false kv e, append_assoc) m.left;
    taken = rw (keep-append of_process front (kv ∷ []), keep-false kv e, append-nil) m.taken;
  }

  move_tags-Moved :
      (n : ℕ) (init rest moved : List (KeyValue F))
      → length init ≡ n
      → Moved init rest moved (move_tags p n (init ++ rest) moved)
  move_tags-Moved zero [] rest moved e = record {
    left = unfold move_tags in Perm.refl rest;
    taken = unfold move_tags in sym (append-nil moved);
  }
  move_tags-Moved zero (x ∷ init) rest moved e = absurd (omega arith)
  move_tags-Moved (suc n) init rest moved e = elim (snoc_view init) [
    | inl nil ↦ absurd (omega (arith, ap length nil))
    | inr (front, kv, split) ↦
        let size : length front ≡ n =
          omega (arith, ap length split, length-append front (kv ∷ [])) in
        let whole : init ++ rest ≡ front ++ kv ∷ rest =
          ap (λ l. l ++ rest) split ∙ append_assoc front (kv ∷ []) rest in
        let get : get_elem? (front ++ kv ∷ rest) n ≡ some kv =
          rw (← size) (get_elem?_middle front rest kv) in
        elim (Bool-cases (p kv.key)) [
          | inl hit ↦
              let (rest', removed, same) = swap_remove_middle front rest kv in
              let removed' : swap_remove n (front ++ kv ∷ rest) ≡ front ++ rest' =
                rw (← size) removed in
              rw (whole, move_tags_hit n _ moved kv get hit, removed', split)
                (Moved-hit front rest rest' moved kv hit same
                  (move_tags-Moved n front rest' (moved ++ kv ∷ []) size))
          | inr miss ↦
              rw (whole, move_tags_miss n _ moved kv get miss, split)
                (Moved-miss front rest moved kv miss
                  (move_tags-Moved n front (kv ∷ rest) moved size))
        ]
  ]

  -- The loop over all tags of a span leaves exactly the tags whose keys are not the process's, in
  -- some order, and moves exactly the others, in reverse order.
  pub move_tags_lem :
      (tags : List (KeyValue F))
      → Perm (move_tags p (length tags) tags []).0 (keep of_span tags)
        × ((move_tags p (length tags) tags []).1 ≡ reverse (keep of_process tags))
  move_tags_lem tags =
      let m = rw append-nil at (move_tags-Moved (length tags) tags [] [] refl) in
      (rw append-nil at m.left, m.taken)
