-- ===== src/Dbmodel/LogText/RoundTrip.antt =====
-- When the text form of a log field gives the text back.
use jaeger_influxdb.Prelude.{
  ℕ, ◌≡◌, ◌≢◌, ◌↔◌, refl, ap, true, false, ◌||◌, [], ◌∷◌, ◌++◌, arith, Text, codes, Bool-cases, inl,
  inr, ℕ_discrete, ◌∙◌, sym,
}
use jaeger_influxdb.Go.Strings.{starts_with, replace_from}
use jaeger_influxdb.Dbmodel.LogText.{
  newline_word, hide_newlines, show_newlines, misread_at, is_clean, hide_newlines_cons,
  hide_newlines_newline,
}

-- How the word is met in a written text, from its last letter to its first.
meets_e : (s : Text) → starts_with (codes "E") (hide_newlines s) ≡ starts_with (codes "E") s
unfolding starts_with
meets_e [] = unfold hide_newlines in refl
meets_e (c ∷ s) = elim (ℕ_discrete c b'\n') [
  | yes e ↦ rw (e, hide_newlines_newline) (ground arith)
  | no ne ↦ rw (hide_newlines_cons c s ne) (ground (arith))
]

meets_ne :
    (s : Text)
    → starts_with (codes "NE") (hide_newlines s)
      ≡ (starts_with (codes "NE") s || starts_with (codes "\n") s)
unfolding starts_with
meets_ne [] = unfold hide_newlines in refl
meets_ne (c ∷ s) = elim (ℕ_discrete c b'\n') [
  | yes e ↦ rw (e, hide_newlines_newline) (ground arith)
  | no ne ↦ rw (hide_newlines_cons c s ne) (ground (arith, meets_e s))
]

meets_ine :
    (s : Text)
    → starts_with (codes "INE") (hide_newlines s)
      ≡ (starts_with (codes "INE") s || starts_with (codes "I\n") s)
unfolding starts_with
meets_ine [] = unfold hide_newlines in refl
meets_ine (c ∷ s) = elim (ℕ_discrete c b'\n') [
  | yes e ↦ rw (e, hide_newlines_newline) (ground arith)
  | no ne ↦ rw (hide_newlines_cons c s ne) (ground (arith, meets_ne s))
]

meets_line :
    (s : Text)
    → starts_with (codes "LINE") (hide_newlines s)
      ≡ (starts_with (codes "LINE") s || starts_with (codes "LI\n") s)
unfolding starts_with
meets_line [] = unfold hide_newlines in refl
meets_line (c ∷ s) = elim (ℕ_discrete c b'\n') [
  | yes e ↦ rw (e, hide_newlines_newline) (ground arith)
  | no ne ↦ rw (hide_newlines_cons c s ne) (ground (arith, meets_ine s))
]

meets_wline :
    (s : Text)
    → starts_with (codes "WLINE") (hide_newlines s)
      ≡ (starts_with (codes "WLINE") s || starts_with (codes "WLI\n") s)
unfolding starts_with
meets_wline [] = unfold hide_newlines in refl
meets_wline (c ∷ s) = elim (ℕ_discrete c b'\n') [
  | yes e ↦ rw (e, hide_newlines_newline) (ground arith)
  | no ne ↦ rw (hide_newlines_cons c s ne) (ground (arith, meets_line s))
]

meets_ewline :
    (s : Text)
    → starts_with (codes "EWLINE") (hide_newlines s)
      ≡ (starts_with (codes "EWLINE") s || starts_with (codes "EWLI\n") s)
unfolding starts_with
meets_ewline [] = unfold hide_newlines in refl
meets_ewline (c ∷ s) = elim (ℕ_discrete c b'\n') [
  | yes e ↦ rw (e, hide_newlines_newline) (ground arith)
  | no ne ↦ rw (hide_newlines_cons c s ne) (ground (arith, meets_wline s))
]

pub meets_newline :
    (c : ℕ) (s : Text)
    → c ≢ b'\n'
    → starts_with newline_word (hide_newlines (c ∷ s)) ≡ misread_at (c ∷ s)
unfolding starts_with
meets_newline c s h = rw (hide_newlines_cons c s h) (ground (arith, meets_ewline s))

show_newlines_word : (s : Text) → show_newlines (newline_word ++ s) ≡ b'\n' ∷ show_newlines s
unfolding show_newlines
show_newlines_word s = refl

show_newlines_cons :
    (c : ℕ) (s : Text)
    → starts_with newline_word (c ∷ s) ≡ false
    → show_newlines (c ∷ s) ≡ c ∷ show_newlines s
unfolding show_newlines starts_with
show_newlines_cons c s h = ground arith

show_newlines_misread :
    (c : ℕ) (s : Text)
    → starts_with newline_word (c ∷ s) ≡ true
    → (t : Text) × (show_newlines (c ∷ s) ≡ b'\n' ∷ t)
unfolding show_newlines starts_with
show_newlines_misread c s h = (replace_from 6 newline_word (codes "\n") s, ground arith)

tail_eq : {a b : ℕ} {s t : Text} → a ∷ s ≡ b ∷ t → s ≡ t
tail_eq h = cc

head_eq : {a b : ℕ} {s t : Text} → a ∷ s ≡ b ∷ t → a ≡ b
head_eq h = cc

is_clean_sound : (s : Text) → is_clean s ≡ true → show_newlines (hide_newlines s) ≡ s
is_clean_sound [] _ = unfold show_newlines hide_newlines in refl
is_clean_sound (c ∷ s) h = elim (ℕ_discrete c b'\n') [
  | yes e ↦
      let ih = is_clean_sound s (ground arith) in
      rw (e, hide_newlines_newline, show_newlines_word) (ap (◌∷◌ b'\n') ih)
  | no ne ↦
      let ih = is_clean_sound s (ground arith) in
      rw (hide_newlines_cons c s ne) (
        show_newlines_cons c (hide_newlines s)
          (rw (← hide_newlines_cons c s ne) (meets_newline c s ne ∙ ground arith))
        ∙ ap (◌∷◌ c) ih)
]

is_clean_newline : (s : Text) → is_clean (b'\n' ∷ s) ≡ is_clean s
unfolding starts_with
is_clean_newline s = refl

is_clean_complete : (s : Text) → show_newlines (hide_newlines s) ≡ s → is_clean s ≡ true
is_clean_complete [] _ = refl
is_clean_complete (c ∷ s) h = elim (ℕ_discrete c b'\n') [
  | yes e ↦
      let h' = rw (e, hide_newlines_newline, show_newlines_word) at h in
      let ih = is_clean_complete s (tail_eq h') in rw e (is_clean_newline s ∙ ih)
  | no ne ↦ elim (Bool-cases (misread_at (c ∷ s))) [
    | inl bad ↦
        let h' = rw (hide_newlines_cons c s ne) at h in
        let m = rw (hide_newlines_cons c s ne) at (meets_newline c s ne ∙ bad) in
        let (t, e) = show_newlines_misread c (hide_newlines s) m in
        absurd (ne (head_eq (sym h' ∙ e)))
    | inr good ↦
        let m = rw (hide_newlines_cons c s ne) at (meets_newline c s ne ∙ good) in
        let h' = rw (hide_newlines_cons c s ne, show_newlines_cons c (hide_newlines s) m) at h in
        let ih = is_clean_complete s (tail_eq h') in ground arith
  ]
]

-- A string value of a log field is read back as it was written exactly when it holds neither the
-- word NEWLINE nor the letters NEWLI directly before a newline.
pub show_newlines-hide_newlines :
    (s : Text) → (show_newlines (hide_newlines s) ≡ s) ↔ (is_clean s ≡ true)
show_newlines-hide_newlines s = (is_clean_complete s, is_clean_sound s)
