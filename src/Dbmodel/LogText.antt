-- ===== src/Dbmodel/LogText.antt =====
-- The text form of string values in log fields: newlines are written as the word NEWLINE
-- (dbmodel/common.go:88 and dbmodel/to_domain_v2.go:70).
pub mod RoundTrip
use jaeger_influxdb.Prelude.{
  ℕ, ◌≡◌, ◌≢◌, ◌↔◌, refl, ap, Bool, true, false, not, ◌&&◌, ◌||◌, List, [], ◌∷◌, ◌++◌, arith, Text,
  codes, nat_eq, nat_eq_iff, Bool-cases, inl, inr, ◌∙◌, sym,
}
use jaeger_influxdb.Go.Strings.{starts_with, replace_from, replace_all}

abbrev pub newline_word : Text
newline_word = codes "NEWLINE"

unfoldable pub hide_newlines : Text → Text
unfolding replace_all
hide_newlines s = replace_all s (codes "\n") newline_word

unfoldable pub show_newlines : Text → Text
unfolding replace_all
show_newlines s = replace_all s newline_word (codes "\n")

-- The positions at which the written form reads as a newline that the text does not have:
-- the word itself, and its first five letters before a newline.
abbrev pub misread_at : Text → Bool
unfolding starts_with
misread_at s = starts_with (codes "NEWLINE") s || starts_with (codes "NEWLI\n") s

abbrev pub is_clean : Text → Bool
is_clean [] = true
is_clean (c ∷ s) = not (misread_at (c ∷ s)) && is_clean s

hide_newlines_cons : (c : ℕ) (s : Text) → c ≢ b'\n' → hide_newlines (c ∷ s) ≡ c ∷ hide_newlines s
unfolding hide_newlines
hide_newlines_cons c s h = ground arith

hide_newlines_newline : (s : Text) → hide_newlines (b'\n' ∷ s) ≡ newline_word ++ hide_newlines s
unfolding hide_newlines
hide_newlines_newline s = refl
