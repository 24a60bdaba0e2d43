-- ===== src/Shell.antt =====
-- `shlex.quote` of Python's standard library, by which the program builds shell commands, and
-- the word syntax of the POSIX shell that such commands are read by.
pub mod Lexer
pub mod Quoting
pub mod Words
use Prim.Native.Char.{Char, code}
use Prim.Native.String.{[], ◌∷◌}
use inference_lab.Prelude.{ℕ, String, Bool, true, false, ◌&&◌, ◌||◌, ◌==◌, ℕ-eq, leb, if◌then◌else◌}
use inference_lab.Prelude.Text.{◌<>◌, is_empty}

-- A character in `[\w@%+=:,./-]` under `re.ASCII`.
abbrev pub is_safe : ℕ → Bool
is_safe c =
    (leb b'a' c && leb c b'z')
    || (leb b'A' c && leb c b'Z')
    || (leb b'0' c && leb c b'9')
    || c == b'_'
    || c == b'@'
    || c == b'%'
    || c == b'+'
    || c == b'='
    || c == b':'
    || c == b','
    || c == b'.'
    || c == b'/'
    || c == b'-'

unfoldable pub all_safe : String → Bool
all_safe [] = true
all_safe (c ∷ s) = is_safe (code c) && all_safe s

-- `s.replace("'", "'\"'\"'")`
unfoldable pub escape : String → String
escape [] = ""
escape (c ∷ s) = if code c == 39 then "'\"'\"'" <> escape s else c ∷ escape s

unfoldable pub quote : String → String
quote s = if is_empty s then "''" else if all_safe s then s else "'" <> (escape s <> "'")
