-- ===== src/Tests/Search.antt =====
-- The theorems about src/common/bksearch.c and src/common/quoting.c at concrete inputs.
use microdc.Prelude.{
  ℕ, ◌≡◌, refl, arith, ltb, leb, ◌==◌, ◌&&◌, Bool, true, false, some, [], ◌∷◌, if◌then◌else◌,
}
use microdc.Prelude.Text.{Bytes, codes}
use microdc.BkSearch.{Sign, below, equal, above, compare_at, bksearchrange}
use microdc.BkSearch.Laws.{bksearchrange_lem}
use microdc.Quoting.{Flags, quote_word_full, dequote_words_full}
use microdc.Quoting.RoundTrip.{dequote_words-quote_word}

-- the comparison of 5 with a number
abbrev five : ℕ → Sign
five n = if ltb 5 n then below else if 5 == n then equal else above

bksearchrange_example :
    bksearchrange (compare_at five (1 ∷ 3 ∷ 5 ∷ 5 ∷ 5 ∷ 9 ∷ [])) 6 ≡ some (some (2, 4))
bksearchrange_example =
    bksearchrange_lem five (1 ∷ 3 ∷ []) (5 ∷ 5 ∷ 5 ∷ []) (9 ∷ []) (refl, (refl, tt))
      (refl, (refl, (refl, tt))) (refl, tt) (omega arith)

abbrev ascii : ℕ → Bool
ascii c = leb 32 c && ltb c 127

abbrev all_flags : Flags
all_flags = record { c_hex = true; c_oct = true; c_simple = true }

-- a quote, a control character and a semicolon
abbrev word : Bytes
word = b'"' ∷ 1 ∷ b';' ∷ []

dequote_words_example :
    dequote_words_full all_flags
      (quote_word_full ascii all_flags word false false (codes ";|") (codes "#") true)
    ≡ word
dequote_words_example =
    dequote_words-quote_word ascii all_flags word false false (codes ";|") (codes "#") true
      (
        (omega arith, λ e. omega arith),
        ((omega arith, λ e. omega arith), ((omega arith, λ e. omega arith), tt)),
      )
      ((refl, refl, refl), ((refl, refl, refl), tt)) ((refl, refl, refl), tt)
