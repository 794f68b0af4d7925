-- ===== src/Platform.antt =====
-- What the hub runs on and does not implement: the database, Socket.io's rooms, the process
-- environment, and the functions of `crypto`, `bcrypt`, `jsonwebtoken` and Firebase that the
-- services call.
pub mod Memory
use code_caller.Prelude.{ℕ, ◌≡◌, ◌≢◌, ◌↔◌, ◌⊎◌, String, Bool, Option, some, List, In}
use code_caller.Database.{Table}
use code_caller.Schema.{
  User, RefreshToken, Server, ServerRegistrationRequest, WorkerProfile, Task, TaskAttempt, Approval,
  PushToken,
}

-- The rooms of the /daemon namespace, one for each server id, with the sockets that joined.
pub record Rooms : Type 1 where
  pub State : Type 0
  pub fetch_sockets : ℕ → State → List ℕ
  pub join : ℕ → ℕ → State → State
  -- A socket that disconnects leaves its rooms.
  pub leave : ℕ → State → State
  pub fetch-join :
      (s r s' r' : ℕ) (k : State)
      → In s (fetch_sockets r (join s' r' k)) ↔ (((s ≡ s') × (r ≡ r')) ⊎ In s (fetch_sockets r k))
  pub fetch-leave :
      (s r s' : ℕ) (k : State)
      → In s (fetch_sockets r (leave s' k)) ↔ (In s (fetch_sockets r k) × (s ≢ s'))

-- The claims of a token.
pub record Claims : Type 0 where
  pub sub : ℕ
  pub email : String
  pub jti : Option String

pub record Platform : Type 1 where
  pub users : Table User
  pub refresh_tokens : Table RefreshToken
  pub servers : Table Server
  pub registrations : Table ServerRegistrationRequest
  pub profiles : Table WorkerProfile
  pub tasks : Table Task
  pub attempts : Table TaskAttempt
  pub approvals : Table Approval
  pub push_tokens : Table PushToken
  pub rooms : Rooms
  -- The text of a UUID.
  pub id_text : ℕ → String
  -- `process.env`, which `ConfigService` reads too.
  pub env : String → Option String
  -- The message of the error that Prisma throws at a row that is missing or not unique.
  pub prisma_message : String
  -- The n-th draw of `randomBytes` and `randomUUID`: of some bytes in hex, of three bytes as a number.
  pub random_hex : ℕ → ℕ → String
  pub random_uint24 : ℕ → ℕ
  pub random_uuid : ℕ → String
  pub sha256 : String → String
  -- `aes-256-gcm`: key, nonce and text to the ciphertext and the tag, and back.
  pub aes_encrypt : String → String → String → String × String
  pub aes_decrypt : String → String → String → String → Option String
  pub aes_decrypt-encrypt :
      (key iv text : String)
      → aes_decrypt key iv (aes_encrypt key iv text).1 (aes_encrypt key iv text).0 ≡ some text
  pub bcrypt_compare : String → String → Bool
  -- `jwt.sign` and `jwt.verify`: secret, claims, lifetime and time to the token, and back.
  pub jwt_sign : String → Claims → String → ℕ → String
  pub jwt_verify : String → String → ℕ → Option Claims
  -- `localeCompare`: is the left name after the right one?
  pub locale_gt : String → String → Bool
  -- The order of texts in the database.
  pub collate_le : String → String → Bool
  -- Whether `initializeApp` accepts the service account at a path.
  pub fcm_init : String → Bool
