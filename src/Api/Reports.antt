-- ===== src/Api/Reports.antt =====
-- backend/src/inflab/reports.py and the handlers of `/reports` in backend/src/inflab/api/v1.py.
-- The template is rendered by putting `str(value)` in the place of each value.
use inference_lab.Prelude.{
  String, none, some, List, [], ◌∷◌, get, put, map, length, ◌==◌, String-eq, if◌then◌else◌,
}
use inference_lab.Prelude.Int.{pos}
use inference_lab.Prelude.Json.{Json, text, array, object}
use inference_lab.Prelude.Text.{◌<>◌, join}
use inference_lab.Security.{Codecs, redact_text}
use inference_lab.Database.{Tables, Experiment, Artifact, MetricsSummary, ReportRecord}
use inference_lab.Database.Session.{
  Action, ◌>>=◌, ◌>>◌, return, reads, change, commit, found, fresh,
}
use inference_lab.Api.{Deployment}
use inference_lab.Api.Persistence.{add_artifact}

module _ {F : Type 0} (codecs : Codecs) (show_value : Json F → String) where
  -- `metrics.get(key, 0)`
  metric : String → List (String × Json F) → String
  metric key metrics = elim (get key metrics) [ none ↦ "0" | some v ↦ show_value v ]

  unfoldable pub render_markdown_report : Experiment F → (metrics : List (String × Json F)) → String
  unfolding metric
  render_markdown_report x metrics = redact_text codecs (
      join "\n" (
        ("# " <> (x.name <> " Performance Report"))
        ∷ ""
        ∷ "## Summary"
        ∷ ""
        ∷ ("- Runtime mode: " <> x.runtime_mode)
        ∷ ("- Framework: " <> (x.framework <> (" " <> x.framework_version)))
        ∷ ("- Prompt dataset: " <> x.prompt_dataset)
        ∷ ("- Launch command: `" <> (x.launch_command <> "`"))
        ∷ ""
        ∷ "## Reproducibility"
        ∷ ""
        ∷ "```json"
        ∷ show_value (object x.reproducibility)
        ∷ "```"
        ∷ ""
        ∷ "## Metrics"
        ∷ ""
        ∷ ("- TTFT P50: " <> (metric "ttft_p50_ms" metrics <> " ms"))
        ∷ ("- TPOT P50: " <> (metric "tpot_p50_ms" metrics <> " ms"))
        ∷ ("- Throughput: " <> (metric "tokens_per_second" metrics <> " tokens/s"))
        ∷ ""
        ∷ "## Notes"
        ∷ ""
        ∷ "Generated by the MVP report renderer. PDF and DOCX export are represented as artifact interfaces"
        ∷ "until the Pandoc/Typst toolchain is installed in the runtime image."
        ∷ []))

-- The metrics of the first summary of an experiment, in the order of insertion.
unfoldable pub metrics_of :
    {F : Type 0} → String → List (String × MetricsSummary F) → List (String × Json F)
metrics_of experiment_id [] = []
metrics_of experiment_id ((id, m) ∷ rest) =
    let more = metrics_of experiment_id rest in
    if m.experiment_id == experiment_id then m.metrics else more

abbrev pub add_report : {F : Type 0} → ReportRecord → Tables F → Tables F
add_report r t = record t { reports = put r.id r t.reports }

module _ {F W : Type 0} (d : Deployment F W) where
  unfoldable pub report_artifact : String → Experiment F → (template markdown : String) → Artifact F
  report_artifact id x template markdown = record {
    id = id;
    kind = "report";
    name = x.name <> ".md";
    uri = "memory://reports/" <> (x.id <> ("/" <> (template <> ".md")));
    sha256 = some (d.python.sha256_hex markdown);
    size_bytes = pos (length (d.codecs.encode markdown));
    metadata_json =
        ("template", text template)
        ∷ ("formats", array (map text ("markdown" ∷ "pdf" ∷ "docx" ∷ [])))
        ∷ [];
  }

  abbrev pub new_report :
      String → Experiment F → (template markdown artifact_id : String) → ReportRecord
  new_report id x template markdown artifact_id = record {
    id = id;
    experiment_id = x.id;
    template = template;
    status = "succeeded";
    markdown = markdown;
    artifact_id = some artifact_id;
  }

  unfoldable pub generate_report : (experiment_id template : String) → Action F W ReportRecord
  unfolding render_markdown_report metrics_of report_artifact
  generate_report experiment_id template = do
    row ← reads (λ t. get experiment_id t.experiments)
    x ← found "experiment" row
    metrics ← reads (λ t. metrics_of experiment_id t.summaries)
    let markdown = render_markdown_report d.codecs d.python.show_value x metrics
    artifact_id ← fresh d.new_id
    change (add_artifact (report_artifact artifact_id x template markdown))
    id ← fresh d.new_id
    change (add_report (new_report id x template markdown artifact_id))
    commit
    return (new_report id x template markdown artifact_id)

  unfoldable pub get_report : String → Action F W ReportRecord
  get_report report_id = do row ← reads (λ t. get report_id t.reports); found "report" row
