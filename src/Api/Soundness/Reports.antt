-- ===== src/Api/Soundness/Reports.antt =====
-- The report of an experiment keeps the tables sound.
use inference_lab.Prelude.{
  suc, String, List, ◌≡◌, refl, ap, ◌∙◌, true, inl, inr, get, put, has, has-put, get-has, text_iff,
  String-eq, All-put, All-get, Option-cases,
}
use inference_lab.Database.{Tables, ReportRecord}
use inference_lab.Database.Session.{Session, Holds}
use inference_lab.Api.{Deployment}
use inference_lab.Api.Persistence.{add_artifact}
use inference_lab.Api.Reports.{
  render_markdown_report, metrics_of, report_artifact, new_report, add_report, generate_report,
}
use inference_lab.Api.Soundness.{IsSound, has_or_none}
use inference_lab.Api.Soundness.Models.{add_artifact-IsSound}

module _ {F W : Type 0} (d : Deployment F W) where
  add_report-IsSound :
      (r : ReportRecord) (t : Tables F)
      → has r.experiment_id t.experiments ≡ true
      → has_or_none r.artifact_id t.artifacts ≡ true
      → IsSound t
      → IsSound (add_report r t)
  add_report-IsSound r t known stored h = record {
    keyed = h.keyed;
    snapshots = h.snapshots;
    runs = h.runs;
    experiments = h.experiments;
    ended = h.ended;
    named = h.named;
    reports =
        All-put (λ e. has e.1.experiment_id t.experiments ≡ true) r.id r t.reports known h.reports;
    filed =
        All-put (λ e. has_or_none e.1.artifact_id t.artifacts ≡ true) r.id r t.reports stored
          h.filed;
  }

  has-put_here :
      {V : Type 0} (k : String) (v : V) (m : List (String × V)) → has k (put k v m) ≡ true
  has-put_here k v m = rw (has-put k k v m, (text_iff k k).1 refl) refl

  pub generate_report-IsSound :
      (experiment_id template : String) (s : Session F W)
      → Holds IsSound s
      → Holds IsSound (generate_report d experiment_id template s).1
  unfolding generate_report report_artifact
  generate_report-IsSound experiment_id template s h =
      elim (Option-cases (get experiment_id s.pending.experiments)) [
        | inl e ↦ rw e h
        | inr (x, e) ↦
            let text =
              render_markdown_report d.codecs d.python.show_value x
                (metrics_of experiment_id s.pending.summaries) in
            let id = d.new_id s.made in
            let file = report_artifact d id x template text in
            let same =
              All-get (λ e. e.1.id ≡ e.0) experiment_id s.pending.experiments e h.0.named in
            let last =
              add_report-IsSound (new_report d (d.new_id (suc s.made)) x template text id)
                (add_artifact file s.pending)
                (ap (λ k. has k s.pending.experiments) same
                  ∙ get-has experiment_id s.pending.experiments e)
                (has-put_here id file s.pending.artifacts)
                (add_artifact-IsSound d file s.pending h.0) in
            rw e (last, last)
      ]
