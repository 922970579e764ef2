-- ===== src/Core/ShellQuote/Word.antt =====
-- What a POSIX shell reads a quoted text as.
use zet.Prelude.{
  ℕ, ◌+◌, ◌≤◌, ◌≡◌, refl, sym, ap, ◌∙◌, inl, inr, false, List, [], ◌∷◌, Option, none, some, ok,
  arith, length, if◌then◌else◌, ◌==◌, Bool-cases,
}
use zet.Core.ShellQuote.{quote, shell_quote, shell_quoted_size, quoted_from, has_nul}

pub data Quoting : Type 0 where
  outside inside escaped : Quoting

abbrev behind : ℕ → Option (List ℕ) → Option (List ℕ)
behind c none = none
behind c (some word) = some (c ∷ word)

-- The reading of one word: between single quotes every character is itself, and behind a backslash
-- too. A character that is neither quoted nor escaped is refused, since it could mean anything.
pub shell_word : Quoting → List ℕ → Option (List ℕ)
shell_word outside [] = some []
shell_word inside [] = none
shell_word escaped [] = none
shell_word outside (c ∷ rest) =
    let quoted = shell_word inside rest in
    let next = shell_word escaped rest in
    if c == quote then quoted else if c == 92 then next else none
shell_word inside (c ∷ rest) =
    let closed = shell_word outside rest in
    let next = behind c (shell_word inside rest) in if c == quote then closed else next
shell_word escaped (c ∷ rest) = behind c (shell_word outside rest)

length-quoted_from : (text : List ℕ) → 1 + length (quoted_from text) ≡ shell_quoted_size text
unfolding quoted_from shell_quoted_size
length-quoted_from [] = refl
length-quoted_from (c ∷ text) = elim (Bool-cases (c == quote)) [
  | inl e ↦ ground (arith, e, length-quoted_from text)
  | inr e ↦ ground (arith, e, length-quoted_from text)
]

word-quoted_from : (text : List ℕ) → shell_word inside (quoted_from text) ≡ some text
unfolding quoted_from shell_word
word-quoted_from [] = refl
word-quoted_from (c ∷ text) = elim (Bool-cases (c == quote)) [
  | inl e ↦
      let same : c ≡ quote = ground (arith, e) in
      ap
        (λ b.
          shell_word inside
            (if b then quote ∷ 92 ∷ quote ∷ quote ∷ quoted_from text else c ∷ quoted_from text))
        e
      ∙ ap (behind quote) (word-quoted_from text)
      ∙ ap (λ d. some (d ∷ text)) (sym same)
  | inr e ↦
      ap
        (λ b.
          shell_word inside
            (if b then quote ∷ 92 ∷ quote ∷ quote ∷ quoted_from text else c ∷ quoted_from text))
        e
      ∙ ap
          (λ b.
            if b
            then shell_word outside (quoted_from text)
            else behind c (shell_word inside (quoted_from text)))
          e
      ∙ ap (behind c) (word-quoted_from text)
]

-- A text without NUL, quoted into a buffer that has room for its quoted size, has that size, and
-- the rules of single quotes and backslashes read it as one word that is the text again, with no
-- character standing outside of quotes.
pub shell_word-shell_quote :
    (text : List ℕ) (room : ℕ)
    → has_nul text ≡ false
    → shell_quoted_size text ≤ room
    → (quoted : List ℕ) × (shell_quote text room ≡ ok quoted)
      × (length quoted ≡ shell_quoted_size text)
      × (shell_word outside quoted ≡ some text)
unfolding shell_quote shell_word
shell_word-shell_quote text room h k = (
  quote ∷ quoted_from text,
  ground (arith, h),
  omega (arith, length-quoted_from text),
  word-quoted_from text,
)
