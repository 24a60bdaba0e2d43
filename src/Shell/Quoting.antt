-- ===== src/Shell/Quoting.antt =====
-- What the shell reads where a quoted text stands.
use Prim.Native.Char.{Char, code}
use inference_lab.Prelude.{
  ℕ, ◌≡◌, refl, ◌<◌, String, Bool, true, false, not, ◌&&◌, ◌||◌, Option, some, none, List, [], ◌∷◌,
  ◌++◌, append-nil, append_assoc, arith, ◌==◌, ℕ-eq, String-eq, if◌then◌else◌, Bool-cases,
  and_split, inl, inr, ap, sym, ◌∙◌, holds_below, holds_below_sound,
}
use inference_lab.Prelude.Text.{codes, codes-append, ◌<>◌}
use inference_lab.Shell.{is_safe, all_safe, escape, quote}
use inference_lab.Shell.Lexer.{
  plain, single, Lexing, at, plainly, step_in, lex, lex-append, lex_step, push, is_special,
  is_blank, started,
}

abbrev is_word_char : ℕ → Bool
is_word_char c = not (is_blank c) && not (c == 39) && not (c == 34) && not (is_special c)

is_safe-lt : (c : ℕ) → is_safe c ≡ true → c < 128
is_safe-lt c h = ground arith

safe_table : holds_below 128 (λ c. not (is_safe c) || is_word_char c) ≡ true
unfolding holds_below
safe_table = refl

or_true : (a b : Bool) → not a || b ≡ true → a ≡ true → b ≡ true
or_true true b h e = h
or_true false b h e = cc

safe_word_char : (c : ℕ) → is_safe c ≡ true → is_word_char c ≡ true
safe_word_char c h = or_true _ _ (holds_below_sound 128 _ c safe_table (is_safe-lt c h)) h

choose :
    (a b c d : Bool) (st p q r : Option Lexing)
    → not a && not b && not c && not d ≡ true
    → (if a then p else if b then q else if c then r else if d then none else st) ≡ st
choose a b c d st p q r h = ground arith

step_word_char :
    (c : ℕ) (st : Lexing) → is_word_char c ≡ true → step_in plain st c ≡ some (push st c)
unfolding step_in
step_word_char c st h = choose (is_blank c) (c == 39) (c == 34) (is_special c) _ _ _ _ h

all_safe_head : (c : Char) (s : String) → all_safe (String.◌∷◌ c s) ≡ true → is_safe (code c) ≡ true
unfolding all_safe
all_safe_head c s h = (and_split _ _ h).0

all_safe_tail : (c : Char) (s : String) → all_safe (String.◌∷◌ c s) ≡ true → all_safe s ≡ true
unfolding all_safe
all_safe_tail c s h = (and_split (is_safe (code c)) _ h).1

append_one : (w v : List ℕ) (c : ℕ) → (w ++ c ∷ []) ++ v ≡ w ++ c ∷ v
append_one w v c = append_assoc w (c ∷ []) v

lex_safe :
    (s : String) (w : List ℕ) (ws : List (List ℕ))
    → all_safe s ≡ true
    → lex (codes s) (at plain w ws) ≡ some (at plain (w ++ codes s) ws)
lex_safe String.[] w ws h = unfold lex in rw append-nil
lex_safe (String.◌∷◌ c s) w ws h =
    lex_step (code c) (codes s) (at plain w ws) (at plain (w ++ code c ∷ []) ws)
      (step_word_char (code c) (at plain w ws) (safe_word_char (code c) (all_safe_head c s h)))
    ∙ lex_safe s (w ++ code c ∷ []) ws (all_safe_tail c s h)
    ∙ ap (λ v. some (at plain v ws)) (append_one w (codes s) (code c))

step_single :
    (c : ℕ) (w : List ℕ) (ws : List (List ℕ))
    → (c == 39) ≡ false
    → step_in single (at single w ws) c ≡ some (at single (w ++ c ∷ []) ws)
unfolding step_in
step_single c w ws h = rw h

-- The five characters that stand for a quote close the quotation, add a quote, and open it again.
lex_quote_mark :
    (rest : List ℕ) (w : List ℕ) (ws : List (List ℕ))
    → lex (codes "'\"'\"'" ++ rest) (at single w ws) ≡ lex rest (at single (w ++ 39 ∷ []) ws)
lex_quote_mark rest w ws = unfold lex in refl

codes-escape_mark :
    (c : Char) (s : String)
    → (code c == 39) ≡ true
    → codes (escape (String.◌∷◌ c s)) ≡ codes "'\"'\"'" ++ codes (escape s)
codes-escape_mark c s h = unfold escape in rw h (codes-append "'\"'\"'" (escape s))

codes-escape_other :
    (c : Char) (s : String)
    → (code c == 39) ≡ false
    → codes (escape (String.◌∷◌ c s)) ≡ code c ∷ codes (escape s)
codes-escape_other c s h = unfold escape in rw h

lex-escape :
    (s : String) (w : List ℕ) (ws : List (List ℕ))
    → lex (codes (escape s)) (at single w ws) ≡ some (at single (w ++ codes s) ws)
lex-escape String.[] w ws = unfold lex escape in rw append-nil
lex-escape (String.◌∷◌ c s) w ws = elim (Bool-cases (code c == 39)) [
  | inl mark ↦
      rw (codes-escape_mark c s mark, lex_quote_mark)
        (lex-escape s (w ++ 39 ∷ []) ws
          ∙ ap (λ v. some (at single v ws)) (append_one w (codes s) 39)
          ∙ ap (λ k. some (at single (w ++ k ∷ codes s) ws))
              (sym ((ℕ-eq.same_iff (code c) 39).0 mark)))
  | inr other ↦ rw (codes-escape_other c s other) (
      lex_step (code c) (codes (escape s)) (at single w ws) (at single (w ++ code c ∷ []) ws)
        (step_single (code c) w ws other)
      ∙ lex-escape s (w ++ code c ∷ []) ws
      ∙ ap (λ v. some (at single v ws)) (append_one w (codes s) (code c)))
]

codes_quoted : (e : String) → codes ("'" <> (e <> "'")) ≡ 39 ∷ (codes e ++ 39 ∷ [])
codes_quoted e = codes-append "'" (e <> "'") ∙ ap (λ r. 39 ∷ r) (codes-append e "'")

lex_open :
    (rest : List ℕ) (w : Option (List ℕ)) (ws : List (List ℕ))
    → lex (39 ∷ rest) (plainly w ws) ≡ lex rest (at single (started w) ws)
lex_open rest w ws = unfold lex in refl

lex_close :
    (w : List ℕ) (ws : List (List ℕ)) → lex (39 ∷ []) (at single w ws) ≡ some (at plain w ws)
lex_close w ws = unfold lex in refl

lex_quoted :
    (s : String) (w : Option (List ℕ)) (ws : List (List ℕ))
    → lex (codes ("'" <> (escape s <> "'"))) (plainly w ws)
      ≡ some (at plain (started w ++ codes s) ws)
lex_quoted s w ws =
    rw (codes_quoted (escape s), lex_open, lex-append, lex-escape s (started w) ws)
      (lex_close (started w ++ codes s) ws)

pub quote_safe :
    (c : Char) (s : String)
    → all_safe (String.◌∷◌ c s) ≡ true
    → quote (String.◌∷◌ c s) ≡ String.◌∷◌ c s
unfolding quote
quote_safe c s h = rw h

quote_unsafe :
    (c : Char) (s : String)
    → all_safe (String.◌∷◌ c s) ≡ false
    → quote (String.◌∷◌ c s) ≡ "'" <> (escape (String.◌∷◌ c s) <> "'")
unfolding quote
quote_unsafe c s h = rw h

-- From the shell's plain mode, a quoted text adds its characters to the current word, and no more.
pub lex-quote :
    (s : String) (w : Option (List ℕ)) (ws : List (List ℕ))
    → lex (codes (quote s)) (plainly w ws) ≡ some (at plain (started w ++ codes s) ws)
lex-quote String.[] w ws = unfold quote lex in rw append-nil
lex-quote (String.◌∷◌ c s) w ws = elim (Bool-cases (all_safe (String.◌∷◌ c s))) [
  | inl safe ↦ rw (quote_safe c s safe) (
      lex_step (code c) (codes s) (plainly w ws) (at plain (started w ++ code c ∷ []) ws)
        (step_word_char (code c) (plainly w ws) (safe_word_char (code c) (all_safe_head c s safe)))
      ∙ lex_safe s (started w ++ code c ∷ []) ws (all_safe_tail c s safe)
      ∙ ap (λ v. some (at plain v ws)) (append_one (started w) (codes s) (code c)))
  | inr other ↦ rw (quote_unsafe c s other) (lex_quoted (String.◌∷◌ c s) w ws)
]

-- A text of safe characters that is not empty is read as it stands.
pub lex_plain :
    (c : Char) (s : String) (w : Option (List ℕ)) (ws : List (List ℕ))
    → all_safe (String.◌∷◌ c s) ≡ true
    → lex (code c ∷ codes s) (plainly w ws) ≡ some (at plain (started w ++ code c ∷ codes s) ws)
lex_plain c s w ws safe =
    ap (λ (t : String). lex (codes t) (plainly w ws)) (sym (quote_safe c s safe))
    ∙ lex-quote (String.◌∷◌ c s) w ws
