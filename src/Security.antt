-- ===== src/Security.antt =====
-- backend/src/inflab/security.py: the encryption and the masking of stored credentials, and the
-- redaction of texts. Encodings and the hash are Python's library, a parameter.
pub mod Xor
pub mod RoundTrip
use Prim.Native.Nat.{bit_xor}
use inference_lab.Prelude.{
  ℕ, zero, suc, ◌<◌, ◌≡◌, String, Bool, true, false, Option, none, some, List, [], ◌∷◌, ◌++◌, map,
  length, take, any, All, ltb, if◌then◌else◌,
}
use inference_lab.Prelude.Text.{◌<>◌, is_empty, join, show, split_lines, contains}
use inference_lab.Result.{Result, ok, err, other_error, ◌>>=◌}

pub record Codecs : Type 0 where
  -- `s.encode()` and `b.decode()`
  pub encode : String → List ℕ
  pub decode : List ℕ → Result String
  -- `hashlib.sha256(b).digest()`
  pub sha256 : List ℕ → List ℕ
  -- `base64.urlsafe_b64encode(b).decode()` and `base64.urlsafe_b64decode(s.encode())`
  pub b64_encode : List ℕ → String
  pub b64_decode : String → Result (List ℕ)
  -- `s.lower()`
  pub lower : String → String

abbrev pub AreBytes : List ℕ → Type 0
AreBytes = All (λ b. b < 256)

-- A text whose encoding is decoded again.
pub record IsEncodable (c : Codecs) (s : String) : Type 0 where
  pub encode-AreBytes : AreBytes (c.encode s)
  pub decode-encode : c.decode (c.encode s) ≡ ok s

-- The documented behaviour of the hash and of the encoding of bytes.
pub record CodecLaws (c : Codecs) : Type 0 where
  pub sha256-AreBytes : (m : List ℕ) → AreBytes (c.sha256 m)
  pub length-sha256 : (m : List ℕ) → length (c.sha256 m) ≡ 32
  pub b64_decode-b64_encode :
      (bytes : List ℕ) → AreBytes bytes → c.b64_decode (c.b64_encode bytes) ≡ ok bytes

-- `value ^ stream[index] for index, value in enumerate(raw)`
combine : List ℕ → List ℕ → Result (List ℕ)
combine [] stream = ok []
combine (value ∷ raw) [] = err (other_error "index out of range")
combine (value ∷ raw) (key ∷ stream) = do rest ← combine raw stream; ok (bit_xor value key ∷ rest)

module _ (c : Codecs) where
  -- The loop of `_key_stream`: fuel, the counter, the bytes gathered before, and how many to gather.
  gather : ℕ → String → ℕ → List ℕ → ℕ → List ℕ
  gather zero key counter got n = got
  gather (suc fuel) key counter got n =
      let more =
        gather fuel key (suc counter) (got ++ c.sha256 (c.encode (key <> (":" <> show counter))))
          n in
      if ltb (length got) n then more else got

  -- Every digest adds at least a byte, so `n` rounds are enough.
  key_stream : String → ℕ → List ℕ
  unfolding gather
  key_stream key n = take n (gather n key 0 [] n)

  unfoldable pub encrypt_secret : String → String → Result String
  unfolding combine key_stream
  encrypt_secret secret key =
      let raw = c.encode secret in
      do encrypted ← combine raw (key_stream key (length raw)); ok (c.b64_encode encrypted)

  unfoldable pub decrypt_secret : String → String → Result String
  unfolding combine key_stream
  decrypt_secret encrypted key = do
    raw ← c.b64_decode encrypted
    decrypted ← combine raw (key_stream key (length raw))
    c.decode decrypted

abbrev pub mask_secret : Option String → String
mask_secret none = "not_configured"
mask_secret (some s) = if is_empty s then "not_configured" else "configured"

abbrev markers : List String
markers = "password" ∷ "private_key" ∷ "token" ∷ "secret" ∷ "api_key" ∷ []

module _ (c : Codecs) where
  unfoldable pub has_marker : String → Bool
  has_marker line = any (λ m. contains m (c.lower line)) markers

  redact_line : String → String
  unfolding has_marker
  redact_line line = if has_marker line then "[REDACTED]" else line

  unfoldable pub redact_text : String → String
  unfolding redact_line
  redact_text text = join "\n" (map redact_line (split_lines text))
