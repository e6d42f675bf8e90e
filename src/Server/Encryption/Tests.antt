-- ===== src/Server/Encryption/Tests.antt =====
-- The theorems on the cipher, with primitives that satisfy what is asked of them.
use sovereign_config.Prelude.{
  ◌<◌, ◌≡◌, refl, sym, ap, subst, Option, none, some, [], ◌∷◌, ◌++◌, arith, ok, length, Text, codes,
}
use sovereign_config.Server.Encryption.{
  Primitives, AreCorrect, Bytes, encrypt, fill, decrypt, decrypt-encrypt, fill, envelope_prefix,
}

-- Marks the message with one byte, and opens what is marked.
abbrev open_mark : Bytes → Option Bytes
open_mark [] = none
open_mark (tag ∷ message) = some message

abbrev marking : Primitives
marking = record {
  aead_encrypt = λ nonce aad message. some (0 ∷ message);
  aead_decrypt = λ nonce aad ciphertext. open_mark ciphertext;
  base64_encode = λ bytes. bytes;
  base64_decode = λ text. some text;
  utf8_encode = λ text. text;
  utf8_decode = λ bytes. some bytes;
}

some-eq : {s t : Bytes} → some s ≡ some t → s ≡ t
some-eq h = cc

marking-AreCorrect : AreCorrect marking
marking-AreCorrect = record {
  open-seal = λ nonce aad message ciphertext h. ap open_mark (sym (some-eq h));
  tagged = λ nonce aad message ciphertext h. subst (λ c. 0 < length c) (some-eq h) (omega arith);
  base64-decode-encode = λ bytes. refl;
  utf8-decode-encode = λ text. refl;
}

abbrev test_nonce : Bytes
test_nonce = codes "abcdefghijklmnopqrstuvwx"

abbrev sealed : Text
sealed = envelope_prefix ++ (test_nonce ++ (0 ∷ codes "hunter2"))

decrypt-encrypt_example : decrypt marking 7 (codes "secret") sealed ≡ ok (codes "hunter2")
unfolding encrypt fill
decrypt-encrypt_example =
    decrypt-encrypt marking marking-AreCorrect test_nonce 7 (codes "secret") (codes "hunter2") refl
