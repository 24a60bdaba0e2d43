-- ===== src/Prelude/Text.antt =====
-- Python's `str` methods that the program uses, over native texts.
use Prim.Native.Char.{code}
use Prim.Native.Nat.{ℕ, zero, suc, ◌/◌, ◌%◌}
use Prim.Native.String
use Prim.Native.String.{String}
use mathlib.Core.Path.{◌≡◌, ap, ◌∙◌}
use mathlib.Core.Bool.{Bool, true, false, ◌&&◌, ◌||◌}
use mathlib.Core.List.{List, [], ◌∷◌, ◌++◌}
use text.Mathlib.TextLemmas.{nil-append, cons-append}
use inference_lab.Prelude.Tests.{◌==◌, ltb, leb, if◌then◌else◌, leb, String-eq, ℕ-eq}

infixl 65 ◌<>◌
abbrev pub ◌<>◌ : String → String → String
◌<>◌ = String.◌++◌

-- `not s`
abbrev pub is_empty : String → Bool
is_empty String.[] = true
is_empty (String.◌∷◌ c s) = false

-- The code points of a text.
abbrev pub codes : String → List ℕ
codes String.[] = []
codes (String.◌∷◌ c s) = code c ∷ codes s

pub codes-append : (s t : String) → codes (s <> t) ≡ codes s ++ codes t
codes-append String.[] t = ap codes (nil-append t)
codes-append (String.◌∷◌ c s) t =
    ap codes (cons-append c s t) ∙ ap (λ r. code c ∷ r) (codes-append s t)

-- `s[:n]`
abbrev pub first_chars : ℕ → String → String
first_chars zero s = ""
first_chars (suc n) String.[] = ""
first_chars (suc n) (String.◌∷◌ c s) = String.◌∷◌ c (first_chars n s)

-- `sep.join(parts)`
abbrev pub join : String → List String → String
join sep [] = ""
join sep (x ∷ []) = x
join sep (x ∷ y ∷ r) = x <> (sep <> join sep (y ∷ r))

unfoldable pub digit : ℕ → String
digit d =
    if d == 0
    then "0"
    else if d == 1
    then "1"
    else if d == 2
    then "2"
    else if d == 3
    then "3"
    else if d == 4
    then "4"
    else if d == 5
    then "5"
    else if d == 6
    then "6"
    else if d == 7
    then "7"
    else if d == 8
    then "8"
    else "9"

unfoldable pub show_from : ℕ → ℕ → String → String
show_from zero n acc = acc
show_from (suc fuel) n acc =
    let here = digit (n % 10) <> acc in
    let more = show_from fuel (n / 10) here in if ltb n 10 then here else more

-- `str(n)`. A tenth of a number is below it, so `n + 1` rounds are enough.
unfoldable pub show : ℕ → String
unfolding digit show_from
show n = show_from (suc n) n ""

-- The characters at which `str.splitlines` ends a line; a carriage return takes a newline behind
-- it along.
abbrev pub is_line_end : ℕ → Bool
is_line_end c =
    (leb 10 c && leb c 13) || (leb 28 c && leb c 30) || c == 0x85 || c == 0x2028 || c == 0x2029

-- The lines of a text, given that the line being read is `line`, whether it has begun, and
-- whether the character before was a carriage return.
lines_from : String → Bool → Bool → String → List String
lines_from line begun after_return String.[] = if begun then line ∷ [] else []
lines_from line begun after_return (String.◌∷◌ c s) =
    let more = lines_from "" false (code c == 13) s in
    let longer = lines_from (line <> String.◌∷◌ c "") true false s in
    if is_line_end (code c)
    then (if after_return && code c == 10 then more else line ∷ more)
    else longer

-- `s.splitlines()`
unfoldable pub split_lines : String → List String
unfolding lines_from
split_lines = lines_from "" false false

-- The characters that `str.strip` removes.
abbrev pub is_space : ℕ → Bool
is_space c =
    (leb 9 c && leb c 13)
    || (leb 28 c && leb c 32)
    || c == 0x85
    || c == 0xa0
    || c == 0x1680
    || (leb 0x2000 c && leb c 0x200a)
    || c == 0x2028
    || c == 0x2029
    || c == 0x202f
    || c == 0x205f
    || c == 0x3000

-- `s.rstrip(chars)` and `s.lstrip(chars)`, the characters given by a test.
unfoldable pub rstrip_by : (ℕ → Bool) → String → String
rstrip_by p String.[] = ""
rstrip_by p (String.◌∷◌ c s) =
    let rest = rstrip_by p s in if is_empty rest && p (code c) then "" else String.◌∷◌ c rest

unfoldable pub lstrip_by : (ℕ → Bool) → String → String
lstrip_by p String.[] = ""
lstrip_by p (String.◌∷◌ c s) =
    let rest = lstrip_by p s in if p (code c) then rest else String.◌∷◌ c s

-- `s.strip()`
unfoldable pub strip : String → String
unfolding rstrip_by lstrip_by
strip s = rstrip_by is_space (lstrip_by is_space s)

-- `s.startswith(prefix)` and `part in s`
unfoldable pub begins_with : String → String → Bool
begins_with String.[] s = true
begins_with (String.◌∷◌ c p) String.[] = false
begins_with (String.◌∷◌ c p) (String.◌∷◌ d s) = code c == code d && begins_with p s

unfoldable pub contains : String → String → Bool
unfolding begins_with
contains part String.[] = is_empty part
contains part (String.◌∷◌ c s) = begins_with part (String.◌∷◌ c s) || contains part s
