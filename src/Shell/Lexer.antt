-- ===== src/Shell/Lexer.antt =====
-- How a POSIX shell splits a simple command into words: an independent description, against which
-- the commands that the program builds are checked. `none` means that the text is not a plain
-- list of words: it has an operator, an expansion or a quotation that does not end.
use inference_lab.Prelude.{
  ℕ, ◌≡◌, Bool, ◌||◌, Option, none, some, List, [], ◌∷◌, ◌++◌, refl, ap, ◌∙◌, ◌==◌, ℕ-eq,
  if◌then◌else◌,
}

pub data Mode : Type 0 where
  plain single double : Mode

-- The words that are complete, and the word that is being read, if one is.
pub record Lexing : Type 0 where
  pub mode : Mode
  pub word : Option (List ℕ)
  pub words : List (List ℕ)

abbrev pub started : Option (List ℕ) → List ℕ
started none = []
started (some w) = w

abbrev pub is_blank : ℕ → Bool
is_blank c = c == 32 || c == 9

-- `$`, a back quote, a backslash
abbrev pub expands : ℕ → Bool
expands c = c == b'$' || c == 96 || c == 92

-- Operators, the end of a line, globs, comments, and what expands
abbrev pub is_special : ℕ → Bool
is_special c =
    expands c
    || c == 10
    || c == b'|'
    || c == b'&'
    || c == b';'
    || c == b'<'
    || c == b'>'
    || c == b'('
    || c == b')'
    || c == b'*'
    || c == b'?'
    || c == b'['
    || c == b'#'
    || c == b'!'
    || c == b'{'
    || c == b'~'

abbrev pub end_word : Option (List ℕ) → List (List ℕ) → List (List ℕ)
end_word none ws = ws
end_word (some w) ws = ws ++ w ∷ []

abbrev pub push : Lexing → ℕ → Lexing
push st c = record st { word = some (started st.word ++ c ∷ []) }

abbrev in_mode : Mode → Lexing → Lexing
in_mode m st = record st { mode = m; word = some (started st.word) }

unfoldable pub step_in : Mode → Lexing → ℕ → Option Lexing
step_in plain st c =
    if is_blank c
    then some (record st { word = none; words = end_word st.word st.words })
    else if c == 39
    then some (in_mode single st)
    else if c == 34
    then some (in_mode double st)
    else if is_special c
    then none
    else some (push st c)
step_in single st c = if c == 39 then some (in_mode plain st) else some (push st c)
step_in double st c =
    if c == 34 then some (in_mode plain st) else if expands c then none else some (push st c)

abbrev pub then_lex : Option Lexing → (Lexing → Option Lexing) → Option Lexing
then_lex none k = none
then_lex (some st) k = k st

unfoldable pub lex : List ℕ → Lexing → Option Lexing
unfolding step_in
lex [] st = some st
lex (c ∷ s) st = then_lex (step_in st.mode st c) (lex s)

abbrev pub finish : Lexing → Option (List (List ℕ))
finish (st) = elim st.mode [ plain ↦ some (end_word st.word st.words) | _ ↦ none ]

abbrev pub finished : Option Lexing → Option (List (List ℕ))
finished none = none
finished (some st) = finish st

abbrev pub start : Lexing
start = record { mode = plain; word = none; words = [] }

-- The words of a command line.
abbrev pub shell_words : List ℕ → Option (List (List ℕ))
shell_words s = finished (lex s start)

abbrev pub at : Mode → List ℕ → List (List ℕ) → Lexing
at m w ws = record { mode = m; word = some w; words = ws }

then_lex-append :
    (xs ys : List ℕ) (r : Option Lexing)
    → ((st : Lexing) → lex (xs ++ ys) st ≡ then_lex (lex xs st) (lex ys))
    → then_lex r (lex (xs ++ ys)) ≡ then_lex (then_lex r (lex xs)) (lex ys)
then_lex-append xs ys none h = refl
then_lex-append xs ys (some st) h = h st

pub lex-append : (xs ys : List ℕ) (st : Lexing) → lex (xs ++ ys) st ≡ then_lex (lex xs st) (lex ys)
unfolding lex
lex-append [] ys st = refl
lex-append (c ∷ xs) ys st = then_lex-append xs ys (step_in st.mode st c) (lex-append xs ys)

-- One character at a time, with `step_in` shut.
pub lex_step :
    (c : ℕ) (s : List ℕ) (st st' : Lexing)
    → step_in st.mode st c ≡ some st'
    → lex (c ∷ s) st ≡ lex s st'
lex_step c s st st' h = lex-cons ∙ ap (λ r. then_lex r (lex s)) h
  where
    lex-cons : lex (c ∷ s) st ≡ then_lex (step_in st.mode st c) (lex s)
    lex-cons = unfold lex in refl

-- In plain mode, with or without a word begun.
abbrev pub plainly : Option (List ℕ) → List (List ℕ) → Lexing
plainly w ws = record { mode = plain; word = w; words = ws }
