-- ===== src/Crypto/Secrets.antt =====
-- That what is stored encrypted can be read again (hub-api/src/common/crypto.util.ts).
use Prim.Native.Char.{Char, code}
use Prim.Native.String.append
use text.Mathlib.TextLemmas.{append-nil, append_assoc}
use code_caller.Prelude.{
  ◌≡◌, refl, ap, sym, ◌∙◌, String, ◌<>◌, Bool, true, not, ◌&&◌, [], ◌∷◌, arith, ◌==◌,
}
use code_caller.Text.{split_from, split_colon}
use code_caller.Platform.{Platform}
use code_caller.Hub.{Hub, ok}
use code_caller.Crypto.{encrypt_secret, decrypt_secret, decrypt_parts}

-- A text without a colon.
abbrev pub is_part : String → Bool
is_part String.[] = true
is_part (String.◌∷◌ c s) = not (code c == b':') && is_part s

colon-append : (t : String) → ":" <> t ≡ String.◌∷◌ ":" t
colon-append t = append.cons ":" String.[] t ∙ ap (λ u. String.◌∷◌ ":" u) (append.nil t)

add_char :
    (part s : String) (c : Char) → (part <> String.◌∷◌ c String.[]) <> s ≡ part <> String.◌∷◌ c s
add_char part s c =
    append_assoc part (String.◌∷◌ c String.[]) s
    ∙ ap (λ u. part <> u) (append.cons c String.[] s ∙ ap (λ u. String.◌∷◌ c u) (append.nil s))

split_from-part :
    (part s t : String)
    → is_part s ≡ true
    → split_from part (s <> (":" <> t)) ≡ (part <> s) ∷ split_from "" t
unfolding split_from
split_from-part part String.[] t h =
    ap (split_from part) (append.nil (":" <> t) ∙ colon-append t)
    ∙ ap (λ u. u ∷ split_from "" t) (sym (append-nil part))
split_from-part part (String.◌∷◌ c s) t h =
    ap (split_from part) (append.cons c s (":" <> t))
    ∙ ground (arith, split_from-part (part <> String.◌∷◌ c String.[]) s t, add_char part s c)

split_from-last : (part s : String) → is_part s ≡ true → split_from part s ≡ (part <> s) ∷ []
unfolding split_from
split_from-last part String.[] h = ap (λ x. x ∷ []) (sym (append-nil part))
split_from-last part (String.◌∷◌ c s) h =
    ground (arith, split_from-last (part <> String.◌∷◌ c String.[]) s, add_char part s c)

module _ ⦃pf : Platform⦄ (plain key : String) (h : Hub) where
  -- the nonce that is drawn, and the ciphertext with its tag
  abbrev pub nonce : String
  nonce = pf.random_hex 12 h.draws

  abbrev pub sealed : String × String
  sealed = pf.aes_encrypt key nonce plain

  abbrev pub stored : String
  stored = nonce <> (":" <> (sealed.1 <> (":" <> sealed.0)))

  stored_parts :
      is_part nonce ≡ true
      → is_part sealed.1 ≡ true
      → is_part sealed.0 ≡ true
      → split_colon stored ≡ nonce ∷ sealed.1 ∷ sealed.0 ∷ []
  unfolding split_colon
  stored_parts a b c =
      split_from-part "" nonce (sealed.1 <> (":" <> sealed.0)) a
      ∙ ap (λ l. (String.[] <> nonce) ∷ l) (split_from-part "" sealed.1 sealed.0 b)
      ∙ ap (λ l. (String.[] <> nonce) ∷ (String.[] <> sealed.1) ∷ l) (split_from-last "" sealed.0 c)
      ∙ rw (append.nil nonce, append.nil sealed.1, append.nil sealed.0) refl

  -- What `encryptSecret` stores, `decryptSecret` reads back with the same key, if neither the
  -- nonce nor the tag nor the ciphertext has a colon; reading changes nothing.
  pub decrypt_secret-encrypt_secret :
      is_part nonce ≡ true
      → is_part sealed.1 ≡ true
      → is_part sealed.0 ≡ true
      → let (r, h') = encrypt_secret plain key h in
        (r ≡ ok stored) × (decrypt_secret stored key h' ≡ (ok plain, h'))
  unfolding encrypt_secret decrypt_secret decrypt_parts
  decrypt_secret-encrypt_secret a b c =
      (refl, rw (stored_parts a b c, pf.aes_decrypt-encrypt key nonce plain) refl)
