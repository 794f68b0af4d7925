-- ===== src/Platform/Memory.antt =====
-- A platform in memory, at which the theorems are applied: tables in memory, rooms as a list, and
-- a cipher, a hash and tokens with no secrecy.
use code_caller.Prelude.{
  ℕ, ◌≡◌, refl, sym, ◌∙◌, ◌≢◌, ◌↔◌, ◌⊎◌, inl, inr, String, ◌<>◌, true, false, Option, none, some,
  List, [], ◌∷◌, arith, ◌==◌, if◌then◌else◌, In, head, tail, Bool-cases, str_eq, starts_with,
}
use code_caller.Text.{decimal}
use code_caller.Database.Memory.Laws.{memory_table}
use code_caller.Platform.{Rooms, Claims, Platform}

abbrev pub sockets_in : ℕ → List (ℕ × ℕ) → List ℕ
sockets_in r [] = []
sockets_in r ((s, r') ∷ k) = if r == r' then s ∷ sockets_in r k else sockets_in r k

abbrev pub without : ℕ → List (ℕ × ℕ) → List (ℕ × ℕ)
without s' [] = []
without s' ((s, r) ∷ k) = if s == s' then without s' k else (s, r) ∷ without s' k

pub sockets_in-join :
    (s r s' r' : ℕ) (k : List (ℕ × ℕ))
    → In s (sockets_in r ((s', r') ∷ k)) ↔ (((s ≡ s') × (r ≡ r')) ⊎ In s (sockets_in r k))
sockets_in-join s r s' r' k = elim (Bool-cases (r == r')) [
  | inl q ↦ rw q (
    elim [ head e ↦ inl (e, ground arith) | tail m ↦ inr m ],
    elim [ inl e ↦ head e.0 | inr m ↦ tail m ],
  )
  | inr q ↦ rw q (λ m. inr m, elim [ inl e ↦ absurd (ground arith) | inr m ↦ m ])
]

module _ {s s' t : ℕ} {a b : List ℕ} (ih : In s a ↔ (In s b × (s ≢ s'))) where
  keep_one : t ≢ s' → In s (t ∷ a) ↔ (In s (t ∷ b) × (s ≢ s'))
  keep_one ne = (
    elim [ head e ↦ (head e, λ q. ne (sym e ∙ q)) | tail m ↦ (tail (ih.0 m).0, (ih.0 m).1) ],
    λ m. back m.0 m.1,
  )
    where
      back : In s (t ∷ b) → s ≢ s' → In s (t ∷ a)
      back (head e) q = head e
      back (tail m) q = tail (ih.1 (m, q))

  drop_one : t ≡ s' → In s a ↔ (In s (t ∷ b) × (s ≢ s'))
  drop_one same = (λ m. (tail (ih.0 m).0, (ih.0 m).1), λ m. back m.0 m.1)
    where
      back : In s (t ∷ b) → s ≢ s' → In s a
      back (head e) q = absurd (q (e ∙ same))
      back (tail m) q = ih.1 (m, q)

pub sockets_in-without :
    (s r s' : ℕ) (k : List (ℕ × ℕ))
    → In s (sockets_in r (without s' k)) ↔ (In s (sockets_in r k) × (s ≢ s'))
sockets_in-without s r s' [] = (λ m. elim m [ ], λ m. m.0)
sockets_in-without s r s' ((t, u) ∷ k) =
    let ih = sockets_in-without s r s' k in
    elim (Bool-cases (t == s')) [
      | inl gone ↦ elim (Bool-cases (r == u)) [
        | inl here ↦ rw (gone, here) (drop_one ih (ground arith))
        | inr away ↦ rw (gone, away) ih
      ]
      | inr stays ↦ elim (Bool-cases (r == u)) [
        | inl here ↦ rw (stays, here) (keep_one ih (ground arith))
        | inr away ↦ rw (stays, away) ih
      ]
    ]

abbrev pub memory_rooms : Rooms
memory_rooms = record {
  State = List (ℕ × ℕ);
  fetch_sockets = sockets_in;
  join = λ s r k. (s, r) ∷ k;
  leave = without;
  fetch-join = sockets_in-join;
  fetch-leave = sockets_in-without;
}

abbrev pub plain_decrypt : String → String → String → String → Option String
plain_decrypt key iv tag text = some text

abbrev pub someone : Claims
someone = record { sub = 0; email = "admin@example.com"; jti = none }

abbrev pub memory_env : String → Option String
memory_env name =
    if str_eq name "PORT"
    then none
    else if starts_with name "TASK_"
    then none
    else if starts_with name "FCM"
    then none
    else if str_eq name "JWT_REFRESH_EXPIRES_IN"
    then some "30d"
    else some "secret"

instance abbrev pub memory : Platform
memory = record {
  users = memory_table _;
  refresh_tokens = memory_table _;
  servers = memory_table _;
  registrations = memory_table _;
  profiles = memory_table _;
  tasks = memory_table _;
  attempts = memory_table _;
  approvals = memory_table _;
  push_tokens = memory_table _;
  rooms = memory_rooms;
  id_text = decimal;
  env = memory_env;
  prisma_message = "Record to update not found.";
  random_hex = λ k n. decimal n;
  random_uint24 = λ n. n;
  random_uuid = decimal;
  sha256 = λ s. "#" <> s;
  aes_encrypt = λ key iv text. (text, "tag");
  aes_decrypt = plain_decrypt;
  aes_decrypt-encrypt = λ key iv text. refl;
  bcrypt_compare = str_eq;
  jwt_sign = λ secret c lifetime now. decimal now;
  jwt_verify = λ secret token now. some someone;
  locale_gt = λ a b. false;
  collate_le = λ a b. true;
  fcm_init = λ path. true;
}
