-- ===== src/Executor/Words.antt =====
-- What the remote shell reads in the lines that `_remote_shell_command` builds.
use Prim.Native.Char.{Char, code}
use inference_lab.Prelude.{
  ℕ, ◌≡◌, refl, String, Bool, true, false, ◌&&◌, Option, some, List, [], ◌∷◌, ◌++◌, arith, ℕ-eq,
  String-eq, and_split, and_join, or_left,
}
use inference_lab.Prelude.Text.{codes, codes-append}
use inference_lab.Result.{Result, >>=-eq-ok, ok, ◌>>=◌}
use inference_lab.Schemas.{CommandRecord}
use inference_lab.Shell.{all_safe, is_safe}
use inference_lab.Shell.Lexer.{plain, at, plainly, shell_words, lex, lex-append, started}
use inference_lab.Shell.Quoting.{lex-quote, lex_plain}
use inference_lab.Executor.{
  is_name_start, is_name_char, name_rest, is_env_name, with_env, with_cwd, with_sudo,
  remote_shell_command,
}

abbrev pub sudo_words : String → List (List ℕ)
sudo_words inner =
    codes "sudo" ∷ codes "-n" ∷ codes "--" ∷ codes "sh" ∷ codes "-lc" ∷ codes inner ∷ []

words-with_sudo :
    (inner : String) → shell_words (codes (with_sudo true inner)) ≡ some (sudo_words inner)
unfolding with_sudo
words-with_sudo inner = rw (codes-append, lex-append) (unfold lex in rw lex-quote)

-- With `sudo`, the shell reads exactly six words, and the last is the line that is sent without
-- `sudo`, whatever the command, the directory and the environment are.
pub remote_shell_command-sudo_words :
    (command : CommandRecord) (line : String)
    → command.sudo ≡ true
    → remote_shell_command command ≡ ok line
    → (inner : String) × (remote_shell_command (record command { sudo = false }) ≡ ok inner)
      × (shell_words (codes line) ≡ some (sudo_words inner))
unfolding remote_shell_command
remote_shell_command-sudo_words command line h e =
    let (l, found, built) = >>=-eq-ok (with_env command.env command.command) _ e in
    (
      with_cwd command.cwd l,
      sent l found,
      rw (← line_of l built) (words-with_sudo (with_cwd command.cwd l)),
    )
  where
    sent :
        (l : String)
        → with_env command.env command.command ≡ ok l
        → (with_env command.env command.command
            >>= (λ k. ok (with_sudo false (with_cwd command.cwd k))))
          ≡ ok (with_cwd command.cwd l)
    sent l p = rw p (unfold with_sudo in refl)

    line_of :
        (l : String)
        → Result.ok (with_sudo command.sudo (with_cwd command.cwd l)) ≡ ok line
        → with_sudo true (with_cwd command.cwd l) ≡ line
    line_of l p = cc (h, p)

-- A name that fits `[A-Za-z_][A-Za-z0-9_]*` to its end.
abbrev pub name_chars : String → Bool
name_chars String.[] = true
name_chars (String.◌∷◌ c s) = is_name_char (code c) && name_chars s

abbrev pub is_identifier : String → Bool
is_identifier String.[] = false
is_identifier (String.◌∷◌ c s) = is_name_start (code c) && name_chars s

name_char-is_safe : (c : ℕ) → is_name_char c ≡ true → is_safe c ≡ true
name_char-is_safe c h = ground arith

name_chars-all_safe : (s : String) → name_chars s ≡ true → all_safe s ≡ true
unfolding all_safe
name_chars-all_safe String.[] h = refl
name_chars-all_safe (String.◌∷◌ c s) h =
    let (head, tail) = and_split (is_name_char (code c)) (name_chars s) h in
    and_join _ _ (name_char-is_safe (code c) head) (name_chars-all_safe s tail)

name_chars-name_rest : (s : String) → name_chars s ≡ true → name_rest s ≡ true
unfolding name_rest
name_chars-name_rest String.[] h = refl
name_chars-name_rest (String.◌∷◌ c s) h =
    let (head, tail) = and_split (is_name_char (code c)) (name_chars s) h in
    or_left _ _ (and_join _ _ head (name_chars-name_rest s tail))

is_identifier-all_safe :
    (c : Char) (s : String)
    → is_identifier (String.◌∷◌ c s) ≡ true
    → all_safe (String.◌∷◌ c s) ≡ true
is_identifier-all_safe c s h =
    let (head, tail) = and_split (is_name_start (code c)) (name_chars s) h in
    name_chars-all_safe (String.◌∷◌ c s) (and_join _ _ (or_left _ _ head) tail)

pub is_identifier-is_env_name : (s : String) → is_identifier s ≡ true → is_env_name s ≡ true
unfolding is_env_name
is_identifier-is_env_name String.[] h = h
is_identifier-is_env_name (String.◌∷◌ c s) h =
    let (head, tail) = and_split (is_name_start (code c)) (name_chars s) h in
    and_join _ _ head (name_chars-name_rest s tail)

-- An identifier stands in a line as it is.
pub lex_identifier :
    (name : String) (w : Option (List ℕ)) (ws : List (List ℕ))
    → is_identifier name ≡ true
    → lex (codes name) (plainly w ws) ≡ some (at plain (started w ++ codes name) ws)
lex_identifier String.[] w ws h = cc
lex_identifier (String.◌∷◌ c s) w ws h = lex_plain c s w ws (is_identifier-all_safe c s h)
