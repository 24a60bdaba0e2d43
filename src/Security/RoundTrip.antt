-- ===== src/Security/RoundTrip.antt =====
-- A stored credential comes back, and redacted lines hold no marker.
use inference_lab.Prelude.{
  ℕ, zero, suc, ◌<◌, ◌≤◌, ◌+◌, ◌≡◌, refl, String, false, List, [], ◌∷◌, ◌++◌, map, length, take,
  All, All-append, All-take, length-append, ltb, arith, Bool-cases, ◌⊎◌, inl, inr, ap, sym, subst,
  or_split,
}
use inference_lab.Prelude.Text.{◌<>◌, join, show, split_lines, contains}
use inference_lab.Result.{ok}
use inference_lab.Security.{
  Codecs, CodecLaws, IsEncodable, AreBytes, combine, gather, key_stream, encrypt_secret,
  decrypt_secret, has_marker, redact_line, redact_text,
}
use inference_lab.Security.Xor.{bit_xor_twice}

-- A stream that is long enough is undone by itself, and the bytes between have the same number.
record Undoes (raw stream : List ℕ) : Type 0 where
  mixed : List ℕ
  there : combine raw stream ≡ ok mixed
  bytes : AreBytes mixed
  same_length : length mixed ≡ length raw
  back : combine mixed stream ≡ ok raw

combine-Undoes :
    (raw stream : List ℕ)
    → AreBytes raw
    → AreBytes stream
    → length raw ≤ length stream
    → Undoes raw stream
unfolding combine
combine-Undoes [] stream hr hs le = record {
  mixed = [];
  there = refl;
  bytes = tt;
  same_length = refl;
  back = refl;
}
combine-Undoes (v ∷ raw) [] hr hs le = absurd (omega arith)
combine-Undoes (v ∷ raw) (k ∷ stream) (hv, hr) (hk, hs) le =
    let rest = combine-Undoes raw stream hr hs (omega arith) in
    let (twice, byte) = bit_xor_twice k v hk hv in
    record {
      mixed = _ ∷ rest.mixed;
      there = rw rest.there;
      bytes = (byte, rest.bytes);
      same_length = omega (arith, rest.same_length);
      back = rw (rest.back, twice);
    }

length-take_all : (n : ℕ) (l : List ℕ) → n ≤ length l → length (take n l) ≡ n
length-take_all zero l h = refl
length-take_all (suc n) [] h = absurd (omega arith)
length-take_all (suc n) (x ∷ l) h = omega (arith, length-take_all n l (omega arith))

module _ (c : Codecs) (laws : CodecLaws c) where
  gather_enough :
      (fuel : ℕ) (key : String) (counter : ℕ) (got : List ℕ) (n : ℕ)
      → AreBytes got
      → n ≤ length got + fuel
      → AreBytes (gather c fuel key counter got n) × (n ≤ length (gather c fuel key counter got n))
  unfolding gather
  gather_enough zero key counter got n hb h = (hb, omega arith)
  gather_enough (suc fuel) key counter got n hb h = elim (Bool-cases (ltb (length got) n)) [
    | inl short ↦
        (let material = c.encode (key <> (":" <> show counter)) in
          rw short (
            gather_enough fuel key (suc counter) (got ++ c.sha256 material) n
              (All-append (λ b. b < 256) got (c.sha256 material) hb (laws.sha256-AreBytes material))
              (omega (arith, length-append got (c.sha256 material), laws.length-sha256 material))))
    | inr long ↦ rw long (hb, ground arith)
  ]

  key_stream-AreBytes :
      (key : String) (n : ℕ) → AreBytes (key_stream c key n) × (length (key_stream c key n) ≡ n)
  unfolding key_stream
  key_stream-AreBytes key n =
      let (bytes, enough) = gather_enough n key 0 [] n tt (omega arith) in
      (
        All-take (λ b. b < 256) n (gather c n key 0 [] n) bytes,
        length-take_all n (gather c n key 0 [] n) enough,
      )

  -- Encryption of an encodable secret never fails, and under the same master key decryption gives
  -- the secret back.
  pub decrypt_secret-encrypt_secret :
      (secret key : String)
      → IsEncodable c secret
      → (stored : String) × (encrypt_secret c secret key ≡ ok stored)
        × (decrypt_secret c stored key ≡ ok secret)
  unfolding encrypt_secret decrypt_secret
  decrypt_secret-encrypt_secret secret key h =
      let raw = c.encode secret in
      let (bytes, long) = key_stream-AreBytes key (length raw) in
      let u =
        combine-Undoes raw (key_stream c key (length raw)) h.encode-AreBytes bytes (omega arith) in
      (
        c.b64_encode u.mixed,
        rw u.there,
        rw (laws.b64_decode-b64_encode u.mixed u.bytes, u.same_length, u.back) h.decode-encode,
      )

module _ (c : Codecs) where
  abbrev Lacks : String → String → Type 0
  Lacks line marker = contains marker (c.lower line) ≡ false

  -- A line that holds none of the five words, in small or capital letters.
  pub record IsClean (line : String) : Type 0 where
    pub password : Lacks line "password"
    pub private_key : Lacks line "private_key"
    pub token : Lacks line "token"
    pub secret : Lacks line "secret"
    pub api_key : Lacks line "api_key"

  -- Line by line: one that is clean is kept, and any other is replaced.
  abbrev pub IsRedacted : List String → List String → Type 0
  IsRedacted [] [] = Unit
  IsRedacted (line ∷ lines) (r ∷ rest) =
      ((IsClean line × (r ≡ line)) ⊎ ((¬ IsClean line) × (r ≡ "[REDACTED]")))
      × IsRedacted lines rest
  IsRedacted lines rest = ⊥

  has_marker-IsClean : (line : String) → has_marker c line ≡ false → IsClean line
  unfolding has_marker
  has_marker-IsClean line h =
      let (password, h1) = or_split _ _ h in
      let (private_key, h2) = or_split _ _ h1 in
      let (token, h3) = or_split _ _ h2 in
      let (secret, h4) = or_split _ _ h3 in
      let (api_key, h5) = or_split _ _ h4 in
      record {
        password = password;
        private_key = private_key;
        token = token;
        secret = secret;
        api_key = api_key;
      }

  IsClean-has_marker : (line : String) → IsClean line → has_marker c line ≡ false
  unfolding has_marker
  IsClean-has_marker line h = rw (h.password, h.private_key, h.token, h.secret, h.api_key) refl

  redact_line-cases :
      (line : String)
      → (IsClean line × (redact_line c line ≡ line))
        ⊎ ((¬ IsClean line) × (redact_line c line ≡ "[REDACTED]"))
  unfolding redact_line
  redact_line-cases line = elim (Bool-cases (has_marker c line)) [
    | inl marked ↦ inr (λ clean. cc (rw (IsClean-has_marker line clean) at marked), rw marked refl)
    | inr clean ↦ inl (has_marker-IsClean line clean, rw clean refl)
  ]

  redact_lines-IsRedacted : (lines : List String) → IsRedacted lines (map (redact_line c) lines)
  redact_lines-IsRedacted [] = tt
  redact_lines-IsRedacted (line ∷ lines) = (redact_line-cases line, redact_lines-IsRedacted lines)

  IsRedacted-IsClean :
      (lines rest : List String) → IsRedacted lines rest → IsClean "[REDACTED]" → All IsClean rest
  IsRedacted-IsClean [] [] h blank = tt
  IsRedacted-IsClean [] (r ∷ rest) h blank = absurd h
  IsRedacted-IsClean (line ∷ lines) [] h blank = absurd h
  IsRedacted-IsClean (line ∷ lines) (r ∷ rest) (inl (clean, e), h) blank =
      (subst IsClean (sym e) clean, IsRedacted-IsClean lines rest h blank)
  IsRedacted-IsClean (line ∷ lines) (r ∷ rest) (inr (bad, e), h) blank =
      (subst IsClean (sym e) blank, IsRedacted-IsClean lines rest h blank)

  IsRedacted-kept :
      (lines rest : List String) → IsRedacted lines rest → All IsClean lines → rest ≡ lines
  IsRedacted-kept [] [] h clean = refl
  IsRedacted-kept [] (r ∷ rest) h clean = absurd h
  IsRedacted-kept (line ∷ lines) [] h clean = absurd h
  IsRedacted-kept (line ∷ lines) (r ∷ rest) (inl (k, e), h) clean =
      rw (e, IsRedacted-kept lines rest h clean.1) refl
  IsRedacted-kept (line ∷ lines) (r ∷ rest) (inr (bad, e), h) clean = absurd (bad clean.0)

  -- A text is redacted line by line: a line whose small-letter form holds none of the words
  -- `password`, `private_key`, `token`, `secret` and `api_key` is kept, and any other is replaced
  -- by `[REDACTED]`. If `[REDACTED]` holds none of them, no line of the redacted text does; and a
  -- text whose lines hold none only has its line ends made uniform.
  pub redact_text-IsClean :
      (text : String)
      → IsClean "[REDACTED]"
      → ((lines : List String) × (redact_text c text ≡ join "\n" lines)
          × IsRedacted (split_lines text) lines
          × All IsClean lines)
        × (All IsClean (split_lines text) → redact_text c text ≡ join "\n" (split_lines text))
  unfolding redact_text
  redact_text-IsClean text blank =
      let lines = map (redact_line c) (split_lines text) in
      let redacted = redact_lines-IsRedacted (split_lines text) in
      (
        (lines, refl, redacted, IsRedacted-IsClean (split_lines text) lines redacted blank),
        λ clean. ap (join "\n") (IsRedacted-kept (split_lines text) lines redacted clean),
      )
