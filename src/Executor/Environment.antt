-- ===== src/Executor/Environment.antt =====
-- The assignments of `env`: what the shell reads where `_safe_env_prefix` built them.
use Prim.Native.Char.{code}
use text.Mathlib.TextLemmas.{cons-append}
use inference_lab.Prelude.{
  and_split, and_join, or_left, ℕ, ◌≡◌, refl, String, true, some, none, List, [], ◌∷◌, ◌++◌,
  append_assoc, map, ℕ-eq, String-eq, ap, ◌∙◌, All,
}
use inference_lab.Prelude.Text.{codes, codes-append, ◌<>◌, join}
use inference_lab.Result.{ok}
use inference_lab.Shell.{quote}
use inference_lab.Shell.Lexer.{plain, at, plainly, start, finished, shell_words, lex, lex-append}
use inference_lab.Shell.Words.{AllRead, words-join}
use inference_lab.Shell.Quoting.{lex-quote}
use inference_lab.Executor.{
  is_name_char, is_name_start, name_rest, is_env_name, assignments, safe_env_prefix,
}
use inference_lab.Executor.Words.{
  name_chars, is_identifier, is_identifier-is_env_name, lex_identifier,
}

abbrev assignment : String × String → String
assignment (name, value) = name <> ("=" <> quote value)

-- The word that sets one variable.
abbrev pub assignment_word : String × String → List ℕ
assignment_word (name, value) = codes name ++ b'=' ∷ codes value

abbrev pub HasNames : List (String × String) → Type 0
HasNames = All (λ e. is_identifier e.0 ≡ true)

assignments_of_HasNames :
    (env : List (String × String)) → HasNames env → assignments env ≡ ok (map assignment env)
unfolding assignments
assignments_of_HasNames [] h = refl
assignments_of_HasNames ((name, value) ∷ env) (h, hs) =
    rw (is_identifier-is_env_name name h, assignments_of_HasNames env hs)

lex_equals :
    (w : List ℕ) (ws : List (List ℕ)) (rest : List ℕ)
    → lex (b'=' ∷ rest) (at plain w ws) ≡ lex rest (at plain (w ++ b'=' ∷ []) ws)
lex_equals w ws rest = unfold lex in refl

lex-assignment :
    (e : String × String) (ws : List (List ℕ))
    → is_identifier e.0 ≡ true
    → lex (codes (assignment e)) (plainly none ws) ≡ some (at plain (assignment_word e) ws)
lex-assignment (name, value) ws h =
    rw
      (
        codes-append name ("=" <> quote value),
        codes-append "=" (quote value),
        lex-append,
        lex_identifier name none ws h,
      )
      (lex_equals (codes name) ws (codes (quote value))
        ∙ lex-quote value (some (codes name ++ b'=' ∷ [])) ws
        ∙ ap (λ v. some (at plain v ws)) (append_assoc (codes name) (b'=' ∷ []) (codes value)))

assignments-AllRead :
    (env : List (String × String))
    → HasNames env
    → AllRead (map assignment env) (map assignment_word env)
assignments-AllRead [] h = tt
assignments-AllRead (e ∷ env) (h, hs) = (λ ws. lex-assignment e ws h, assignments-AllRead env hs)

-- If every name is an identifier, the prefix is built, and the shell reads one word for each
-- variable: its name, an equals sign, and its value unchanged.
pub words-safe_env_prefix :
    (env : List (String × String))
    → HasNames env
    → (prefix : String) × (safe_env_prefix env ≡ ok prefix)
      × (shell_words (codes prefix) ≡ some (map assignment_word env))
unfolding safe_env_prefix
words-safe_env_prefix env h = (
  join " " (map assignment env),
  rw (assignments_of_HasNames env h),
  words-join (map assignment env) (map assignment_word env) (assignments-AllRead env h),
)

name_rest_newline : (s : String) → name_chars s ≡ true → name_rest (s <> "\n") ≡ true
unfolding name_rest
name_rest_newline String.[] h = refl
name_rest_newline (String.◌∷◌ c s) h =
    let (head, tail) = and_split (is_name_char (code c)) (name_chars s) h in
    rw cons-append (or_left _ _ (and_join _ _ head (name_rest_newline s tail)))

is_env_name_newline : (s : String) → is_identifier s ≡ true → is_env_name (s <> "\n") ≡ true
is_env_name_newline String.[] h = cc
is_env_name_newline (String.◌∷◌ c s) h =
    let (head, tail) = and_split (is_name_start (code c)) (name_chars s) h in
    rw cons-append (unfold is_env_name in and_join _ _ head (name_rest_newline s tail))

lex_newline :
    (name : String) (rest : List ℕ)
    → is_identifier name ≡ true
    → lex (codes name ++ 10 ∷ rest) start ≡ none
lex_newline name rest h = rw (lex-append, lex_identifier name none [] h) (unfold lex in refl)

codes_newline_name :
    (name value : String)
    → codes (assignment (name <> "\n", value)) ≡ codes name ++ 10 ∷ codes ("=" <> quote value)
codes_newline_name name value =
    codes-append (name <> "\n") ("=" <> quote value)
    ∙ ap (λ l. l ++ codes ("=" <> quote value)) (codes-append name "\n")
    ∙ append_assoc (codes name) (10 ∷ []) (codes ("=" <> quote value))

accepted_newline_name :
    (name value : String)
    → is_identifier name ≡ true
    → safe_env_prefix ((name <> "\n", value) ∷ []) ≡ ok (assignment (name <> "\n", value))
unfolding safe_env_prefix assignments
accepted_newline_name name value h = rw (is_env_name_newline name h)

-- A name that ends in a newline is accepted, and what is built is then not one list of words: the
-- line ends inside the assignment.
pub newline_name_breaks :
    (name value : String)
    → is_identifier name ≡ true
    → (prefix : String) × (safe_env_prefix ((name <> "\n", value) ∷ []) ≡ ok prefix)
      × (shell_words (codes prefix) ≡ none)
newline_name_breaks name value h = (
  assignment (name <> "\n", value),
  accepted_newline_name name value h,
  rw codes_newline_name (ap finished (lex_newline name (codes ("=" <> quote value)) h)),
)
