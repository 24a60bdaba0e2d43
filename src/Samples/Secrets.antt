-- ===== src/Samples/Secrets.antt =====
-- Credentials under encodings that are simple to undo: bytes are written as tallies.
use inference_lab.Prelude.{
  none, ℕ, zero, suc, ◌+◌, ◌%◌, ◌<◌, ◌≡◌, refl, ap, ◌∙◌, String, List, [], ◌∷◌, length, All, arith,
  ◌==◌, ℕ-eq, String-eq, if◌then◌else◌,
}
use Prim.Native.Char.{char, code}
use inference_lab.Prelude.Text.{◌<>◌, contains, codes, join, split_lines, show}
use inference_lab.Result.{Result, ok, ◌>>=◌, ok_inj}
use inference_lab.Schemas.{container}
use inference_lab.Machines.{CredentialType, MachineCreate, SshSettings}
use inference_lab.Machines.Access.{NotEmptied, Reached, created_row-authentication}
use inference_lab.Security.{
  Codecs, CodecLaws, AreBytes, encrypt_secret, decrypt_secret, redact_text,
}
use inference_lab.Security.RoundTrip.{
  decrypt_secret-encrypt_secret, IsClean, IsRedacted, redact_text-IsClean,
}

abbrev tally : ℕ → String → String
tally zero rest = String.◌∷◌ (char 44 tt) rest
tally (suc n) rest = String.◌∷◌ (char 105 tt) (tally n rest)

abbrev tallies : List ℕ → String
tallies [] = ""
tallies (b ∷ bytes) = tally b (tallies bytes)

abbrev read : ℕ → String → Result (List ℕ)
read n String.[] = ok []
read n (String.◌∷◌ c s) =
    let more = read (suc n) s in
    let others = read 0 s in if code c == 44 then (do r ← others; ok (n ∷ r)) else more

abbrev with_first : ℕ → String → Result (List ℕ)
with_first b rest = do r ← read 0 rest; ok (b ∷ r)

with_first_same : (a b : ℕ) (rest : String) → a ≡ b → with_first a rest ≡ with_first b rest
with_first_same a b rest e = ap (λ n. with_first n rest) e

read-tally : (n b : ℕ) (rest : String) → read n (tally b rest) ≡ with_first (n + b) rest
read-tally n zero rest = with_first_same n (n + 0) rest (omega arith)
read-tally n (suc b) rest =
    read-tally (suc n) b rest ∙ with_first_same (suc n + b) (n + suc b) rest (omega arith)

read-tallies : (bytes : List ℕ) → read 0 (tallies bytes) ≡ ok bytes
read-tallies [] = refl
read-tallies (b ∷ bytes) =
    read-tally 0 b (tallies bytes)
    ∙ with_first_same (0 + b) b (tallies bytes) (omega arith)
    ∙ ap (λ m. m >>= (λ r. ok (b ∷ r))) (read-tallies bytes)

abbrev copies : ℕ → ℕ → List ℕ
copies zero b = []
copies (suc n) b = b ∷ copies n b

copies-AreBytes : (n b : ℕ) → b < 256 → AreBytes (copies n b)
copies-AreBytes zero b h = tt
copies-AreBytes (suc n) b h = (h, copies-AreBytes n b h)

-- Reads the letters p and w.
abbrev letters : List ℕ → String
letters [] = ""
letters (b ∷ bytes) = (if b == 112 then "p" else "w") <> letters bytes

abbrev pub plain_codecs : Codecs
plain_codecs = record {
  encode = codes;
  decode = λ bytes. ok (letters bytes);
  sha256 = λ m. copies 32 (length m % 256);
  b64_encode = tallies;
  b64_decode = read 0;
  lower = λ s. if s == "[REDACTED]" then "[redacted]" else s;
}

pub plain_codecs-CodecLaws : CodecLaws plain_codecs
plain_codecs-CodecLaws = record {
  sha256-AreBytes = λ m. copies-AreBytes 32 (length m % 256) (omega arith);
  length-sha256 = λ m. refl;
  b64_decode-b64_encode = λ bytes h. read-tallies bytes;
}

decrypt_secret-encrypt_secret_example :
    (stored : String) × (encrypt_secret plain_codecs "pw" "master" ≡ ok stored)
    × (decrypt_secret plain_codecs stored "master" ≡ ok "pw")
decrypt_secret-encrypt_secret_example =
    decrypt_secret-encrypt_secret plain_codecs plain_codecs-CodecLaws "pw" "master"
      (record { encode-AreBytes = (omega arith, (omega arith, tt)); decode-encode = refl })

redact_text-IsClean_example :
    ((lines : List String) × (redact_text plain_codecs "user=a\napi_key=b" ≡ join "\n" lines)
      × IsRedacted plain_codecs (split_lines "user=a\napi_key=b") lines
      × All (IsClean plain_codecs) lines)
    × (All (IsClean plain_codecs) (split_lines "user=a\napi_key=b")
        → redact_text plain_codecs "user=a\napi_key=b"
          ≡ join "\n" (split_lines "user=a\napi_key=b"))
unfolding contains
redact_text-IsClean_example =
    redact_text-IsClean plain_codecs "user=a\napi_key=b"
      (record { password = refl; private_key = refl; token = refl; secret = refl; api_key = refl })

abbrev pub lab_settings : SshSettings
lab_settings = record {
  secret_key = "master";
  known_hosts_policy = "strict";
  default_timeout_seconds = 10;
}

abbrev lab_payload : MachineCreate
lab_payload = record {
  name = "lab";
  host = "gpu-1";
  port = 22;
  username = "root";
  credential = none;
  runtime_mode = container;
}

pub stored_pw : NotEmptied plain_codecs lab_settings "pw"
unfolding encrypt_secret show
stored_pw stored h = rw (← ok_inj h) refl

created_row-authentication_example :
    Reached plain_codecs plain_codecs-CodecLaws lab_settings lab_payload CredentialType.private_key
      "pw"
created_row-authentication_example =
    created_row-authentication plain_codecs plain_codecs-CodecLaws lab_settings lab_payload
      CredentialType.private_key "pw" refl
      (record { encode-AreBytes = (omega arith, (omega arith, tt)); decode-encode = refl })
      stored_pw
