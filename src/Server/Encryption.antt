-- ===== src/Server/Encryption.antt =====
-- encryption.rs: sealing and opening secret values. The AEAD, base64 and UTF-8 are parameters, with
-- what their documentation promises.
mod Tests
use sovereign_config.Prelude.{
  ℕ, zero, suc, ◌+◌, ◌-◌, ◌*◌, ◌/◌, ◌%◌, ◌^◌, ◌≤◌, ◌<◌, min, max, String, ◌≡◌, refl, sym, ap, ◌∙◌,
  subst, ◌≡⟨◌⟩◌, ◌∎, ◌≢◌, ◌↔◌, ◌⊎◌, inl, inr, Bool, true, false, not, ◌&&◌, ◌||◌, Option, none,
  some, List, [], ◌∷◌, ◌++◌, map, append_assoc, append-nil, arith, ltb, leb, ◌==◌, if◌then◌else◌,
  ==_iff, Bool-cases, Option-cases, is_some, is_none, get_or, All, Any, here, ok, err, there,
  length, is_empty, take, drop, get_elem?, all, any, keep_if, length-append, length-take-le,
  take-append_length, drop-append_length, take-append-drop, all-append, all_iff, any_sound,
  any_complete, All-append, All-left, All-right, All-keep_if, All-map_of, insert_by, sort_by, find,
  filter_map, Text, codes, slash, text_eq, text_eq_refl, text_eq_sound, text_eq_iff, lower, fold,
  eq_ignore_ascii_case, strip_prefix, starts_with, contains, extend_head, split, trim_start_matches,
  join, rsplit_once, is_ascii_lowercase, is_ascii_uppercase, is_ascii_alphabetic, is_ascii_digit,
  is_control, concat, decimal_digits, decimal, text_le, Result, ◌>>=◌, ◌>>◌, ok_or, map_err, is_ok,
  >>=-eq-ok, lower_idem, lower-eq_slash, fold_idem, fold-append, length-fold, strip_prefix-append,
  strip_prefix_sound, starts_with-append, starts_with_sound, extend_head-map-fold, split-fold,
  split-ne-nil, join-split, split_part, split-append, split_free, contains-append,
}

abbrev pub Bytes : Type 0
Bytes = List ℕ

-- XChaCha20-Poly1305 under one key, standard base64, and UTF-8.
pub record Primitives : Type 0 where
  pub aead_encrypt : Bytes → Bytes → Bytes → Option Bytes
  pub aead_decrypt : Bytes → Bytes → Bytes → Option Bytes
  pub base64_encode : Bytes → Text
  pub base64_decode : Text → Option Bytes
  pub utf8_encode : Text → Bytes
  pub utf8_decode : Bytes → Option Text

-- What they promise: decoding inverts encoding, decrypting inverts encrypting, and a ciphertext,
-- which ends in its tag, is not empty.
pub record AreCorrect (p : Primitives) : Type 0 where
  pub open-seal :
      (nonce aad message ciphertext : Bytes)
      → p.aead_encrypt nonce aad message ≡ some ciphertext
      → p.aead_decrypt nonce aad ciphertext ≡ some message
  pub tagged :
      (nonce aad message ciphertext : Bytes)
      → p.aead_encrypt nonce aad message ≡ some ciphertext
      → 0 < length ciphertext
  pub base64-decode-encode : (bytes : Bytes) → p.base64_decode (p.base64_encode bytes) ≡ some bytes
  pub utf8-decode-encode : (text : Text) → p.utf8_decode (p.utf8_encode text) ≡ some text

abbrev pub envelope_prefix : Text
envelope_prefix = codes "enc:v1:"

abbrev pub nonce_len : ℕ
nonce_len = 24

pub data DecryptError : Type 0 where
  not_encrypted malformed unauthenticated not_utf8 : DecryptError

pub data EncryptError : Type 0 where
  encrypt_error : EncryptError

unfoldable pub associated_data : ℕ → Text → Text
unfolding concat decimal
associated_data content_id classification = concat (
    codes "sovereign-config:value:v1:" ∷ (decimal content_id ∷ (codes ":" ∷ (classification ∷ []))))

-- `getrandom::fill` on an array of `n` zeros, from what the random source gives.
unfoldable pub fill : ℕ → Bytes → Bytes
fill zero bytes = []
fill (suc n) [] = 0 ∷ fill n []
fill (suc n) (byte ∷ bytes) = byte ∷ fill n bytes

length-fill : (n : ℕ) (bytes : Bytes) → length (fill n bytes) ≡ n
unfolding fill
length-fill zero bytes = refl
length-fill (suc n) [] = omega (arith, length-fill n [])
length-fill (suc n) (byte ∷ bytes) = omega (arith, length-fill n bytes)

-- `ValueCipher::encrypt`; `random` is what the random source gave, `none` when it failed.
unfoldable pub encrypt : Primitives → Option Bytes → ℕ → Text → Text → Result EncryptError Text
unfolding fill
encrypt p none content_id classification plaintext = err encrypt_error
encrypt p (some random) content_id classification plaintext =
    let nonce = fill nonce_len random in
    elim (p.aead_encrypt nonce (p.utf8_encode (associated_data content_id classification))
      (p.utf8_encode plaintext)) [
        | none ↦ err encrypt_error
        | some ciphertext ↦ ok (envelope_prefix ++ p.base64_encode (nonce ++ ciphertext))
      ]

-- Opening the decoded envelope: the nonce is its first 24 bytes.
unfoldable pub decrypt_envelope : Primitives → ℕ → Text → Bytes → Result DecryptError Text
decrypt_envelope p content_id classification envelope =
    if leb (length envelope) nonce_len
    then err malformed
    else ok_or
        (p.aead_decrypt (take nonce_len envelope)
          (p.utf8_encode (associated_data content_id classification)) (drop nonce_len envelope))
        unauthenticated
      >>= λ plaintext. ok_or (p.utf8_decode plaintext) not_utf8

-- `ValueCipher::decrypt`
unfoldable pub decrypt : Primitives → ℕ → Text → Text → Result DecryptError Text
unfolding decrypt_envelope strip_prefix
decrypt p content_id classification stored =
    ok_or (strip_prefix stored envelope_prefix) not_encrypted >>= λ encoded.
    ok_or (p.base64_decode encoded) malformed >>= λ envelope.
    decrypt_envelope p content_id classification envelope

unfoldable pub is_envelope : Text → Bool
unfolding starts_with
is_envelope stored = starts_with stored envelope_prefix

encrypt-eq-ok :
    (p : Primitives) (random : Bytes) (content_id : ℕ) (classification plaintext : Text)
    {stored : Text}
    → encrypt p (some random) content_id classification plaintext ≡ ok stored
    → (ciphertext : Bytes) × (p.aead_encrypt
          (fill nonce_len random)
          (p.utf8_encode (associated_data content_id classification))
          (p.utf8_encode plaintext)
        ≡ some ciphertext)
      × (stored ≡ envelope_prefix ++ p.base64_encode (fill nonce_len random ++ ciphertext))
unfolding encrypt
encrypt-eq-ok p random content_id classification plaintext h =
    elim (Option-cases (
      p.aead_encrypt (fill nonce_len random)
        (p.utf8_encode (associated_data content_id classification)) (p.utf8_encode plaintext))) [
          | inl failed ↦ absurd (ground arith)
          | inr (ciphertext, sealed) ↦ (ciphertext, sealed, ground arith)
        ]

decrypt-envelope :
    (p : Primitives)
    → AreCorrect p
    → (content_id : ℕ) (classification : Text) (envelope : Bytes)
    → decrypt p content_id classification (envelope_prefix ++ p.base64_encode envelope)
      ≡ decrypt_envelope p content_id classification envelope
unfolding decrypt
decrypt-envelope p correct content_id classification envelope =
    rw (correct.base64-decode-encode envelope)

decrypt_envelope-sealed :
    (p : Primitives)
    → AreCorrect p
    → (nonce : Bytes) (content_id : ℕ) (classification plaintext : Text) (ciphertext : Bytes)
    → length nonce ≡ nonce_len
    → nonce_len < length (nonce ++ ciphertext)
    → p.aead_decrypt nonce (p.utf8_encode (associated_data content_id classification)) ciphertext
      ≡ some (p.utf8_encode plaintext)
    → decrypt_envelope p content_id classification (nonce ++ ciphertext) ≡ ok plaintext
unfolding decrypt_envelope
decrypt_envelope-sealed p correct nonce content_id classification plaintext ciphertext full long
      opened =
    let front : take nonce_len (nonce ++ ciphertext) ≡ nonce =
      rw full at (take-append_length nonce ciphertext) in
    let back : drop nonce_len (nonce ++ ciphertext) ≡ ciphertext =
      rw full at (drop-append_length nonce ciphertext) in
    let short : leb (length (nonce ++ ciphertext)) nonce_len ≡ false = ground arith in
    rw (short, front, back, opened, correct.utf8-decode-encode plaintext)

-- A value sealed for a row opens at that row to itself.
pub decrypt-encrypt :
    (p : Primitives)
    → AreCorrect p
    → (random : Bytes) (content_id : ℕ) (classification plaintext : Text) {stored : Text}
    → encrypt p (some random) content_id classification plaintext ≡ ok stored
    → decrypt p content_id classification stored ≡ ok plaintext
decrypt-encrypt p correct random content_id classification plaintext {stored} h =
    let nonce = fill nonce_len random in
    let (ciphertext, sealed, spelled) =
      encrypt-eq-ok p random content_id classification plaintext h in
    let full : length nonce ≡ nonce_len = length-fill nonce_len random in
    let long : nonce_len < length (nonce ++ ciphertext) =
      omega
        (arith, full, length-append {0} nonce ciphertext, correct.tagged _ _ _ ciphertext sealed) in
    rw spelled (
      decrypt-envelope p correct content_id classification (nonce ++ ciphertext)
      ∙ decrypt_envelope-sealed p correct nonce content_id classification plaintext ciphertext full
          long (correct.open-seal _ _ _ ciphertext sealed))
