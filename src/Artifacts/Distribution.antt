-- ===== src/Artifacts/Distribution.antt =====
-- What a distribution of a model sends.
use inference_lab.Prelude.{
  ◌≡◌, refl, sym, ap, ◌∙◌, String, Option, none, some, List, [], ◌∷◌, ◌++◌, append_assoc,
}
use inference_lab.Prelude.Text.{codes, codes-append, ◌<>◌, join}
use inference_lab.Schemas.{CommandRecord, plain_command}
use inference_lab.Shell.{all_safe, quote}
use inference_lab.Shell.Lexer.{shell_words}
use inference_lab.Shell.Words.{words-join, Reads-plain, Reads-quote}
use inference_lab.Executor.{RemoteExecutor}
use inference_lab.Steps.Running.{recording}
use inference_lab.Artifacts.{
  model_distribution_command, model_verification_command, distribute_model,
}

test_line : (q : String) → codes ("test -e " <> q) ≡ codes (join " " ("test" ∷ "-e" ∷ q ∷ []))
test_line q =
    codes-append "test -e " q
    ∙ sym (
        codes-append "test" (" " <> ("-e" <> (" " <> q)))
        ∙ ap (λ l. codes "test" ++ l)
            (codes-append " " ("-e" <> (" " <> q))
              ∙ ap (λ l. codes " " ++ l)
                  (codes-append "-e" (" " <> q) ∙ ap (λ l. codes "-e" ++ l) (codes-append " " q))))

-- A test of a path is read as three words.
test_words :
    (path : String)
    → shell_words (codes ("test -e " <> quote path))
      ≡ some (codes "test" ∷ codes "-e" ∷ codes path ∷ [])
unfolding all_safe
test_words path =
    ap shell_words (test_line (quote path))
    ∙ words-join ("test" ∷ "-e" ∷ quote path ∷ []) (codes "test" ∷ codes "-e" ∷ codes path ∷ [])
        (Reads-plain "test" (refl, refl), (Reads-plain "-e" (refl, refl), (Reads-quote path, tt)))

-- A distribution sends its command and then the verification of the target, whatever the first
-- one answers; without a checksum the shell reads that verification as a test of the target path,
-- whatever characters the path holds.
pub distribute_model-recording :
    {W : Type 0} (ex : RemoteExecutor W) (source cache_path target_path : String)
    (expected : Option String) (w : W) (log : List CommandRecord)
    → (distribute_model (recording ex) source cache_path target_path expected (w, log) ≡ (
      (distribute_model ex source cache_path target_path expected w).0,
      (
        (distribute_model ex source cache_path target_path expected w).1,
        log
            ++ plain_command (model_distribution_command source cache_path target_path)
              ∷ plain_command (model_verification_command target_path expected)
              ∷ [],
      ),
    ))
      × (shell_words (codes (model_verification_command target_path none))
          ≡ some (codes "test" ∷ codes "-e" ∷ codes target_path ∷ []))
unfolding distribute_model model_verification_command
distribute_model-recording ex source cache_path target_path expected w log = (
  ap
      (λ l. (
        (distribute_model ex source cache_path target_path expected w).0,
        ((distribute_model ex source cache_path target_path expected w).1, l),
      ))
      (append_assoc log
        (plain_command (model_distribution_command source cache_path target_path) ∷ [])
        (plain_command (model_verification_command target_path expected) ∷ [])),
  test_words target_path,
)
