-- ===== src/Samples/Values.antt =====
-- The parameters of the model at concrete values: millionths for floats, an SSH library that answers
-- every line alike, and a generator that always draws the lower end.
use inference_lab.Prelude.{
  ℕ, suc, ◌≡◌, ◌+◌, ◌*◌, ◌^◌, ◌/◌, true, false, none, some, [], ◌∷◌, ltb, leb, arith,
}
use inference_lab.Prelude.Int.{ℤ, pos, negsuc}
use inference_lab.Prelude.Float.{Floats, FloatOrder}
use inference_lab.Prelude.Json.{Json, float, obj, pack_fields}
use inference_lab.Prelude.Text.{show}
use inference_lab.Result.{Result, ok, err}
use inference_lab.Executor.Ssh.{SshLibrary, completed, closed, out_line, SshConnectionConfig}
use inference_lab.Tuning.{FrameworkParams}
use inference_lab.Tuning.Planning.{Rng}

abbrev natural : ℤ → ℕ
natural (pos n) = n
natural (negsuc n) = 0

-- Numbers of millionths that are not negative.
abbrev pub millionths : Floats ℕ
millionths = record {
  literal = λ a k. a * 1000000 / 10 ^ k;
  of_int = λ n. natural n * 1000000;
  of_text = λ _. none;
  to_int = λ x. pos (x / 1000000);
  to_text = show;
  plus = λ x y. x + y;
  times = λ x y. x * y / 1000000;
  over = λ x y. x * 1000000 / y;
  round = λ x _. x;
  lt = ltb;
  le = leb;
}

pub millionths-FloatOrder : FloatOrder millionths
millionths-FloatOrder = record {
  irrefl = λ a. ltb_irrefl a;
  trans = λ a b c x y z h k. ltb_trans a b c h k;
  asym = λ a b h. ltb_asym a b h;
}
  where
    ltb_irrefl : (a : ℕ) → ltb a a ≡ false
    ltb_irrefl a = ground arith

    ltb_trans : (a b c : ℕ) → ltb a b ≡ false → ltb b c ≡ false → ltb a c ≡ false
    ltb_trans a b c h k = ground arith

    ltb_asym : (a b : ℕ) → ltb a b ≡ true → ltb b a ≡ false
    ltb_asym a b h = ground arith

abbrev pub low_draws : Rng ℕ
low_draws = record { uniform = λ _ _ low _. low; choice = λ _ _. 64 }

-- Counts its calls.
abbrev pub quiet_ssh : SshLibrary ℕ
quiet_ssh = record {
  exec = λ _ _ line _ w. (completed (some (pos 0)) none (some line) none, suc w);
  exec_stream = λ _ _ line _ w. ((out_line line ∷ [], closed (some (pos 0)) none none), suc w);
  sftp_put = λ _ _ _ _ w. (none, suc w);
  sftp_get = λ _ _ _ _ w. (none, suc w);
}

abbrev pub lab_host : SshConnectionConfig
lab_host = record {
  host = "gpu-1";
  port = 22;
  username = some "root";
  credential_type = "password";
  secret = none;
  known_hosts_policy = "strict";
  connect_timeout_seconds = 10;
}

-- Scores a candidate by its number of sequences.
abbrev pub score_seqs : FrameworkParams ℕ → ℕ → Json ℕ × ℕ
score_seqs p w = (
  obj (
      pack_fields (
        (
          "metrics",
          obj (pack_fields (("tokens_per_second", float (p.max_num_seqs * 1000000)) ∷ [])),
        )
        ∷ [])),
  suc w,
)

-- The value of a run that returns.
abbrev pub Succeeds : {A : Type 0} → Result A → Type 0
Succeeds (ok a) = Unit
Succeeds (err e) = ⊥

abbrev pub value_of : {A : Type 0} (r : Result A) → Succeeds r → A
value_of (ok a) h = a
value_of (err e) h = absurd h
