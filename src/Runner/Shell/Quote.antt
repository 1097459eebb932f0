-- ===== src/Runner/Shell/Quote.antt =====
-- src/runner/executor.rs: a quoted text is one word of the shell, with the text as its value.
use Prim.Native.Char.{Char, code}
use Prim.Native.String.{[], ◌∷◌}
use text.Mathlib.TextEquality.{Char-path}
use text.Mathlib.TextLemmas.{nil-append, cons-append, append-nil, append_assoc}
use automated_flywheel_setup.Base.{
  String, ◌++ₛ◌, ◌≡◌, sym, ap, ◌∙◌, true, false, some, List, arith, Bool-cases, inl, inr, eqb,
}
use automated_flywheel_setup.Runner.Shell.{
  between, bare, quoted, push, replace_quotes, shell_quote, read_char, words_from, shell_words,
  quote_char,
}

-- The closing quote.
pub quoted-close :
    (cur rest : String) → words_from quoted cur ("'" ++ₛ rest) ≡ words_from bare cur rest
unfolding words_from read_char
quoted-close cur rest = rw (cons-append, nil-append)

-- The replacement of a quote: closed, an escaped quote, opened again.
quoted-quote :
    (cur rest : String)
    → words_from quoted cur ("'\\''" ++ₛ rest) ≡ words_from quoted (push cur "'") rest
unfolding words_from read_char
quoted-quote cur rest = rw (cons-append, cons-append, cons-append, cons-append, nil-append)

quoted-other :
    (cur : String) (c : Char) (rest : String)
    → eqb (code c) quote_char ≡ false
    → words_from quoted cur ((c ∷ "") ++ₛ rest) ≡ words_from quoted (push cur c) rest
unfolding words_from read_char
quoted-other cur c rest h = simp (cons-append, nil-append) (ground arith)

is_quote : (c : Char) → eqb (code c) quote_char ≡ true → c ≡ "'"
is_quote c h = Char-path c "'" (ground arith)

pub push_append : (cur : String) (c : Char) (s : String) → push cur c ++ₛ s ≡ cur ++ₛ (c ∷ s)
push_append cur c s = simp (append_assoc, cons-append, nil-append)

-- Inside quotes the replaced text is read back, up to the closing quote.
words_from-replace_quotes :
    (cur s rest : String)
    → words_from quoted cur (replace_quotes s ++ₛ ("'" ++ₛ rest)) ≡ words_from bare (cur ++ₛ s) rest
unfolding replace_quotes
words_from-replace_quotes cur [] rest = simp (nil-append, append-nil) (quoted-close cur rest)
words_from-replace_quotes cur (c ∷ s) rest = elim (Bool-cases (eqb (code c) quote_char)) [
  | inl quote ↦ rw quote (
      simp (append_assoc, quoted-quote)
        (words_from-replace_quotes (push cur "'") s rest
          ∙ ap (λ t. words_from bare t rest)
              (push_append cur "'" s ∙ ap (λ d. cur ++ₛ (d ∷ s)) (sym (is_quote c quote)))))
  | inr other ↦ rw other (
      simp append_assoc (
        quoted-other cur c _ other
        ∙ words_from-replace_quotes (push cur c) s rest
        ∙ ap (λ t. words_from bare t rest) (push_append cur c s)))
]

between-open : (rest : String) → words_from between "" ("'" ++ₛ rest) ≡ words_from quoted "" rest
unfolding words_from read_char
between-open rest = rw (cons-append, nil-append)

-- A quoted text is read back as it was, whatever follows it and whatever word it continues.
pub words_from-shell_quote :
    (s rest : String) → words_from between "" (shell_quote s ++ₛ rest) ≡ words_from bare s rest
unfolding shell_quote
words_from-shell_quote s rest = simp append_assoc (
    between-open _
    ∙ words_from-replace_quotes "" s rest
    ∙ ap (λ t. words_from bare t rest) (nil-append s))

-- Quoting is right for every text, quotes, blanks, line ends and `$` in it included: the shell reads
-- the quoted text as one word, and the word is the text.
shell_words-shell_quote : (s : String) → shell_words (shell_quote s) ≡ some (List.◌∷◌ s List.[])
unfolding shell_words words_from
shell_words-shell_quote s =
    ap (words_from between "") (sym (append-nil (shell_quote s))) ∙ words_from-shell_quote s ""
