-- ===== src/Daemon/Registration/Polling/Verdicts.antt =====
-- What the hub has answered where the wait ends with an approval (agent-daemon/src/register.js).
use code_caller.Prelude.{
  ℕ, zero, suc, ◌+◌, ◌-◌, ◌≡◌, refl, false, Option, some, ltb, Bool-cases, Option-cases, inl, inr,
  arith,
}
use code_caller.Units.{Text, codes, is_empty, text_eq}
use code_caller.Units.Equality.{text_eq_sound}
use code_caller.Daemon.Registration.Polling.{
  PollAnswer, approved, Turn, Read, failed, document, poll, poll_result, verdict, read_json,
}

-- An answer that was read and approves, with a key and an id of a server.
abbrev pub Approves : Read PollAnswer → Text → Text → Type 0
Approves r api_key server_id =
    (a : PollAnswer) × (r ≡ document a)
    × (a.status ≡ codes "APPROVED")
    × (a.api_key ≡ some api_key)
    × (is_empty api_key ≡ false)
    × (a.server_id ≡ server_id)

verdict-Approves :
    (r : Read PollAnswer) (api_key server_id : Text)
    → verdict r ≡ some (approved api_key server_id)
    → Approves r api_key server_id
unfolding verdict
verdict-Approves (failed reason) api_key server_id h = absurd (ground arith)
verdict-Approves (document a) api_key server_id h = elim (Option-cases a.api_key) [
  | inl keyless ↦ absurd (ground arith)
  | inr (key, is) ↦ elim (Bool-cases (is_empty key)) [
    | inl empty ↦ absurd (ground arith)
    | inr full ↦ elim (Bool-cases (text_eq a.status (codes "APPROVED"))) [
      | inr other ↦ absurd (ground arith)
      | inl said ↦ (
        a,
        refl,
        text_eq_sound a.status (codes "APPROVED") said,
        ground arith,
        ground arith,
        ground arith,
      )
    ]
  ]
]

module _ (parse : Text → Option PollAnswer) (turns : ℕ → Turn) (api_key server_id : Text) where
  poll-Approves :
      (fuel turn now expires_at n : ℕ)
      → poll parse turns fuel turn now expires_at ≡ some (n, approved api_key server_id)
      → (k : ℕ) × (n ≡ suc k) × Approves (read_json parse (turns k).answer) api_key server_id
  unfolding poll
  poll-Approves zero turn now expires_at n h = absurd (ground arith)
  poll-Approves (suc fuel) turn now expires_at n h = elim (Bool-cases (ltb now expires_at)) [
    | inr over ↦ absurd (ground arith)
    | inl waiting ↦ elim (Option-cases (verdict (read_json parse (turns turn).answer))) [
      | inl undecided ↦
          poll-Approves fuel (suc turn) (now + (turns turn).elapsed) expires_at n (ground arith)
      | inr (o, e) ↦ (
        turn,
        ground arith,
        verdict-Approves (read_json parse (turns turn).answer) api_key server_id (ground arith),
      )
    ]
  ]

  pub poll_result-Approves :
      (now expires_at n : ℕ)
      → poll_result parse turns now expires_at ≡ some (n, approved api_key server_id)
      → (k : ℕ) × (n ≡ suc k) × Approves (read_json parse (turns k).answer) api_key server_id
  unfolding poll_result
  poll_result-Approves now expires_at n h =
      poll-Approves (suc (expires_at - now)) 0 now expires_at n h
