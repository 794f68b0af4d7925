-- ===== src/Crypto.antt =====
-- hub-api/src/common/crypto.util.ts, over the functions of `crypto`. Keys, nonces, ciphertexts and
-- tags are their hex digits.
pub mod Secrets
use code_caller.Prelude.{◌%◌, String, ◌<>◌, List, [], ◌∷◌, ◌≡◌, refl, arith}
use code_caller.Text.{decimal, pad_start, split_colon}
use code_caller.Platform.{Platform}
use code_caller.Hub.{Hub, Action, ErrorKind, pure, raise, draw, or_raise, ◌>>=◌}

module _ ⦃pf : Platform⦄ where
  -- 32 random bytes in hex
  unfoldable pub generate_api_key : Action String
  generate_api_key = do n ← draw; pure (pf.random_hex 32 n)

  unfoldable pub generate_secret : Action String
  generate_secret = do n ← draw; pure (pf.random_hex 32 n)

  abbrev pub hash_api_key : String → String
  hash_api_key api_key = pf.sha256 api_key

  -- `encryptForRequestSecret`: ciphertext, nonce and tag
  pub record Sealed : Type 0 where
    pub ciphertext : String
    pub iv : String
    pub auth_tag : String

  unfoldable pub encrypt_for_request_secret : String → String → Action Sealed
  encrypt_for_request_secret plain_text request_secret = do
    n ← draw
    let iv = pf.random_hex 12 n
    let encrypted = pf.aes_encrypt (pf.sha256 request_secret) iv plain_text
    pure (record { ciphertext = encrypted.0; iv = iv; auth_tag = encrypted.1 })

  -- `decipher.final()` throws where the tag does not fit.
  unfoldable pub decrypt_for_request_secret : Sealed → String → Action String
  decrypt_for_request_secret payload request_secret =
      or_raise
        (pf.aes_decrypt (pf.sha256 request_secret) payload.iv payload.auth_tag payload.ciphertext)
        ErrorKind.plain "Unsupported state or unable to authenticate data"

  unfoldable pub generate_verification_code : Action String
  unfolding decimal pad_start
  generate_verification_code = do
    n ← draw
    let value = pf.random_uint24 n % 1000000
    pure (pad_start 6 (decimal value))

  -- `encryptSecret`: nonce, tag and ciphertext, joined by colons
  unfoldable pub encrypt_secret : String → String → Action String
  encrypt_secret plain_text key_hex = do
    n ← draw
    let iv = pf.random_hex 12 n
    let encrypted = pf.aes_encrypt key_hex iv plain_text
    pure (iv <> (":" <> (encrypted.1 <> (":" <> encrypted.0))))

  -- A part that is missing is `undefined`, which `Buffer.from` throws at.
  unfoldable pub decrypt_parts : String → List String → Action String
  decrypt_parts key_hex (iv ∷ auth_tag ∷ text ∷ _) =
      or_raise (pf.aes_decrypt key_hex iv auth_tag text) ErrorKind.plain
        "Unsupported state or unable to authenticate data"
  decrypt_parts key_hex _ = raise ErrorKind.plain "The first argument must be of type string"

  -- Decryption changes nothing.
  pub decrypt_parts_same :
      (key_hex : String) (parts : List String) (h : Hub) → (decrypt_parts key_hex parts h).1 ≡ h
  unfolding decrypt_parts
  decrypt_parts_same key_hex [] h = refl
  decrypt_parts_same key_hex (iv ∷ []) h = refl
  decrypt_parts_same key_hex (iv ∷ tag ∷ []) h = refl
  decrypt_parts_same key_hex (iv ∷ tag ∷ text ∷ rest) h = ground arith

  unfoldable pub decrypt_secret : String → String → Action String
  unfolding decrypt_parts split_colon
  decrypt_secret cipher_text key_hex = decrypt_parts key_hex (split_colon cipher_text)
