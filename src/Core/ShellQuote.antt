-- ===== src/Core/ShellQuote.antt =====
-- src/core/shell_quote.cpp: a text as one single-quoted word. The output is a buffer of `room`
-- characters, and what is written there is the result.
pub mod Word
use zet.Prelude.{
  ℕ, ◌+◌, Bool, true, false, ◌||◌, List, [], ◌∷◌, ◌++◌, ok, err, if◌then◌else◌, ltb, ◌==◌,
}
use zet.Core.Error.{ProtoResult, malformed_field, buffer_too_small}

abbrev pub quote : ℕ
quote = 39

-- The characters of '\''.
abbrev pub escaped_quote : List ℕ
escaped_quote = quote ∷ 92 ∷ quote ∷ quote ∷ []

unfoldable pub shell_quoted_size : List ℕ → ℕ
shell_quoted_size [] = 2
shell_quoted_size (c ∷ text) = (if c == quote then 4 else 1) + shell_quoted_size text

unfoldable pub has_nul : List ℕ → Bool
has_nul [] = false
has_nul (c ∷ text) = c == 0 || has_nul text

-- The loop, with the quote behind it.
unfoldable pub quoted_from : List ℕ → List ℕ
quoted_from [] = quote ∷ []
quoted_from (c ∷ text) =
    let rest = quoted_from text in if c == quote then escaped_quote ++ rest else c ∷ rest

unfoldable pub shell_quote : List ℕ → ℕ → ProtoResult (List ℕ)
unfolding shell_quoted_size has_nul quoted_from
shell_quote text room =
    if has_nul text
    then err malformed_field
    else if ltb room (shell_quoted_size text)
    then err buffer_too_small
    else ok (quote ∷ quoted_from text)
