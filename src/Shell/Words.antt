-- ===== src/Shell/Words.antt =====
-- Lines that are joined from words: what stands between two spaces is read as one word.
use Prim.Native.Char.{Char, char, code}
use text.Mathlib.TextLemmas.{nil-append, cons-append}
use inference_lab.Prelude.{
  ℕ, zero, suc, ◌/◌, ◌%◌, ◌≡◌, refl, ap, ◌∙◌, String, Bool, true, false, some, none, List, [], ◌∷◌,
  ◌++◌, append-nil, append_assoc, if◌then◌else◌, ltb, and_join, Bool-cases, inl, inr, ◌==◌, ℕ-eq,
}
use inference_lab.Prelude.Text.{codes, codes-append, ◌<>◌, join, is_empty, digit, show_from, show}
use inference_lab.Shell.{all_safe, is_safe, quote}
use inference_lab.Shell.Lexer.{plain, at, plainly, finished, shell_words, lex, lex-append}
use inference_lab.Shell.Quoting.{lex-quote, lex_plain}

-- A text that the shell reads as one word, at the start of a word.
abbrev pub Reads : String → List ℕ → Type 0
Reads text word =
    (ws : List (List ℕ)) → lex (codes text) (plainly none ws) ≡ some (at plain word ws)

abbrev pub AllRead : List String → List (List ℕ) → Type 0
AllRead [] [] = Unit
AllRead (t ∷ texts) (w ∷ words) = Reads t w × AllRead texts words
AllRead texts words = ⊥

space_ends :
    (w : List ℕ) (ws : List (List ℕ)) (rest : List ℕ)
    → lex (32 ∷ rest) (at plain w ws) ≡ lex rest (plainly none (ws ++ w ∷ []))
space_ends w ws rest = unfold lex in refl

lex-join :
    (texts : List String) (words ws : List (List ℕ))
    → AllRead texts words
    → finished (lex (codes (join " " texts)) (plainly none ws)) ≡ some (ws ++ words)
lex-join [] [] ws h = unfold lex in rw append-nil
lex-join [] (w ∷ words) ws h = absurd h
lex-join (t ∷ texts) [] ws h = absurd h
lex-join (t ∷ []) (w ∷ []) ws h = rw (h.0 ws)
lex-join (t ∷ []) (w ∷ v ∷ words) ws h = absurd h.1
lex-join (t ∷ u ∷ texts) (w ∷ []) ws h = absurd h.1
lex-join (t ∷ u ∷ texts) (w ∷ v ∷ words) ws (h, hs) =
    rw
      (
        codes-append t (" " <> join " " (u ∷ texts)),
        codes-append " " (join " " (u ∷ texts)),
        lex-append,
        h ws,
      )
      (ap finished (space_ends w ws (codes (join " " (u ∷ texts))))
        ∙ lex-join (u ∷ texts) (v ∷ words) (ws ++ w ∷ []) hs
        ∙ ap some (append_assoc ws (w ∷ []) (v ∷ words)))

pub words-join :
    (texts : List String) (words : List (List ℕ))
    → AllRead texts words
    → shell_words (codes (join " " texts)) ≡ some words
words-join texts words h = lex-join texts words [] h

pub Reads-quote : (s : String) → Reads (quote s) (codes s)
Reads-quote s ws = lex-quote s none ws

-- A text of safe characters that is not empty.
abbrev pub IsPlain : String → Type 0
IsPlain s = (all_safe s ≡ true) × (is_empty s ≡ false)

pub Reads-plain : (s : String) → IsPlain s → Reads s (codes s)
Reads-plain String.[] h ws = cc (h.1)
Reads-plain (String.◌∷◌ c s) h ws = lex_plain c s none ws h.0

-- Digits put before a safe text.
Leads : String → Type 0
Leads d = (acc : String) → all_safe acc ≡ true → IsPlain (d <> acc)

choose-Leads : (b : Bool) (s t : String) → Leads s → Leads t → Leads (if b then s else t)
choose-Leads true s t h k = h
choose-Leads false s t h k = k

one-Leads : (c : Char) → is_safe (code c) ≡ true → Leads (String.◌∷◌ c "")
unfolding Leads all_safe
one-Leads c h acc k = rw (cons-append, nil-append) (and_join _ _ h k, refl)

digit-Leads : (d : ℕ) → Leads (digit d)
unfolding digit
digit-Leads d =
    (choose-Leads (d == 0) "0" _ (one-Leads (char 48 tt) refl) (
      choose-Leads (d == 1) "1" _ (one-Leads (char 49 tt) refl) (
        choose-Leads (d == 2) "2" _ (one-Leads (char 50 tt) refl) (
          choose-Leads (d == 3) "3" _ (one-Leads (char 51 tt) refl) (
            choose-Leads (d == 4) "4" _ (one-Leads (char 52 tt) refl) (
              choose-Leads (d == 5) "5" _ (one-Leads (char 53 tt) refl) (
                choose-Leads (d == 6) "6" _ (one-Leads (char 54 tt) refl) (
                  choose-Leads (d == 7) "7" _ (one-Leads (char 55 tt) refl) (
                    choose-Leads (d == 8) "8" _ (one-Leads (char 56 tt) refl)
                      (one-Leads (char 57 tt) refl))))))))))

show_from-IsPlain : (fuel n : ℕ) (acc : String) → IsPlain acc → IsPlain (show_from fuel n acc)
unfolding show_from Leads
show_from-IsPlain zero n acc h = h
show_from-IsPlain (suc fuel) n acc h =
    let here = digit-Leads (n % 10) acc h.0 in
    elim (Bool-cases (ltb n 10)) [
      | inl last ↦ rw last here
      | inr more ↦ rw more (show_from-IsPlain fuel (n / 10) (digit (n % 10) <> acc) here)
    ]

-- A number is printed as plain digits.
pub show-IsPlain : (n : ℕ) → IsPlain (show n)
unfolding show show_from Leads all_safe
show-IsPlain n = elim (Bool-cases (ltb n 10)) [
  | inl last ↦ rw last (digit-Leads (n % 10) "" refl)
  | inr more ↦
      rw more (show_from-IsPlain n (n / 10) (digit (n % 10) <> "") (digit-Leads (n % 10) "" refl))
]
