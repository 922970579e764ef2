-- ===== src/Tests/Text.antt =====
-- src/core/shell_quote.cpp and src/client/escape.cpp at concrete texts.
use zet.Prelude.{ℕ, ◌≡◌, refl, List, [], ◌∷◌, some, ok, arith, length}
use zet.Core.ShellQuote.{shell_quote, shell_quoted_size, has_nul}
use zet.Core.ShellQuote.Word.{shell_word, outside, shell_word-shell_quote}

-- The characters of it's.
abbrev its : List ℕ
its = 105 ∷ 116 ∷ 39 ∷ 115 ∷ []

shell_word-shell_quote_example :
    (quoted : List ℕ) × (shell_quote its 9 ≡ ok quoted)
    × (length quoted ≡ shell_quoted_size its)
    × (shell_word outside quoted ≡ some its)
unfolding shell_quoted_size has_nul
shell_word-shell_quote_example = shell_word-shell_quote its 9 refl (omega arith)
