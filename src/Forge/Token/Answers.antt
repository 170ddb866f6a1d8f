-- ===== src/Forge/Token/Answers.antt =====
-- What a call of Token and Refresh can end in (forge/runtime/token.go).
use rysh_cli_shared.Prelude.{
  ℕ, suc, ◌+◌, ◌≤◌, String, true, false, ◌&&◌, ◌||◌, not, Option, none, some, ◌≡◌, refl, subst, ◌∙◌,
  ◌==◌, Result, ok, err, length, ltb, leb, Bool-cases, inl, inr, if-holds, if◌then◌else◌, arith,
  Map,
}
use rysh_cli_shared.Forge.TokenResponse.{TokenResponse, parse_token_response}
use rysh_cli_shared.Forge.Token.{
  TokenRequest, AuthWorld, TokenManager, keep, take_response, send, post_token, acquire_locked,
  do_refresh_locked, refresh_endpoint, answer_of, or_acquire, ensure_locked, refresh_token, token,
  is_valid,
}

-- The tokens that the manager holds.
abbrev pub SameTokens : TokenManager → TokenManager → Type 0
SameTokens t u = (u.access ≡ t.access) × (u.refresh ≡ t.refresh) × (u.expiry ≡ t.expiry)

-- At most so many requests were sent.
abbrev pub Sent : ℕ → TokenManager → TokenManager → Type 0
Sent n t u = length u.requests ≤ n + length t.requests

-- A step fails with the tokens as they were, or ends with an access token.
data Settled (t : TokenManager) (n : ℕ) : Option String × TokenManager → Type 0 where
  failed : {e : String} {u : TokenManager} → SameTokens t u → Sent n t u → Settled t n (some e, u)
  stored : {u : TokenManager} → (u.access == "") ≡ false → Sent n t u → Settled t n (none, u)

-- A call is refused with the tokens as they were, or grants the access token that is held, which is
-- not empty.
pub data Answered (t : TokenManager) (n : ℕ) : Result String String × TokenManager → Type 0 where
  refused : {e : String} {u : TokenManager} → SameTokens t u → Sent n t u → Answered t n (err e, u)
  granted :
      {u : TokenManager} → (u.access == "") ≡ false → Sent n t u → Answered t n (ok u.access, u)

same : (t : TokenManager) → SameTokens t t
same t = (refl, refl, refl)

module _ (w : AuthWorld) where
  keep-Settled :
      (t u : TokenManager) (r : Option TokenResponse)
      → SameTokens t u
      → Sent 1 t u
      → Settled t 1 (keep w r u)
  unfolding keep
  keep-Settled t u none q s = failed q s
  keep-Settled t u (some r) q s =
      if-holds (Settled t 1) (r.access == "") _ _ (λ h. failed q s) (λ h. stored h s)

  take_response-Settled :
      (t u : TokenManager) (r : Result String (ℕ × String))
      → SameTokens t u
      → Sent 1 t u
      → Settled t 1 (take_response w r u)
  take_response-Settled t u (err e) q s = failed q s
  take_response-Settled t u (ok (status, body)) q s =
      if-holds (Settled t 1) (ltb status 200 || leb 300 status) _ _ (λ h. failed q s)
        (λ h. keep-Settled t u (parse_token_response w.decoding u.cfg.fields body) q s)

  send-Settled : (r : TokenRequest) (t : TokenManager) → Settled t 1 (send w r t)
  unfolding send
  send-Settled r t = take_response-Settled t _ (w.respond t.clock r) (same t) (omega arith)

  post_token-Settled :
      (endpoint : String) (form : Map String) (t : TokenManager)
      → Settled t 1 (post_token w endpoint form t)
  unfolding post_token
  post_token-Settled endpoint form t =
      if-holds (Settled t 1) (t.cfg.content_type == "json") _ _ (λ h. send-Settled _ t)
        (λ h. send-Settled _ t)

  failed_here : (e : String) (t : TokenManager) → Settled t 1 (some e, t)
  failed_here e t = failed (same t) (omega arith)

  unless_empty :
      (s e : String) (t : TokenManager) (p : Option String × TokenManager)
      → ((s == "") ≡ false → Settled t 1 p)
      → Settled t 1 (if s == "" then (some e, t) else p)
  unless_empty s e t p h = if-holds (Settled t 1) (s == "") _ _ (λ k. failed_here e t) h

  acquire_locked-Settled : (t : TokenManager) → Settled t 1 (acquire_locked w t)
  unfolding acquire_locked
  acquire_locked-Settled t =
      let P = Settled t 1 in
      if-holds P (t.cfg.kind == "static") _ _
        (λ h. unless_empty t.static_access _ t _ (λ k. stored k (omega arith)))
        (λ h.
          if-holds P (t.cfg.kind == "oauth2_password") _ _
            (λ h. unless_empty t.username _ t _ (λ k. post_token-Settled _ _ t))
            (λ h.
              if-holds P (t.cfg.kind == "oauth2_client_credentials") _ _
                (λ h. unless_empty t.client_id _ t _ (λ k. post_token-Settled _ _ t))
                (λ h.
                  if-holds P (t.cfg.kind == "jwt_login") _ _
                    (λ h. unless_empty t.username _ t _ (λ k. send-Settled _ t))
                    (λ h. failed_here _ t))))

  do_refresh_locked-Settled : (t : TokenManager) → Settled t 1 (do_refresh_locked w t)
  unfolding do_refresh_locked
  do_refresh_locked-Settled t = unless_empty t.refresh _ t _ (λ h.
      unless_empty (refresh_endpoint t.cfg) _ t _ (λ k.
        if-holds (Settled t 1) (t.cfg.kind == "jwt_login") _ _ (λ j. send-Settled _ t)
          (λ j. post_token-Settled _ _ t)))

  answer_of-Answered :
      (t u : TokenManager) (p : Option String × TokenManager)
      → SameTokens t u
      → Sent 1 t u
      → Settled u 1 p
      → Answered t 2 (answer_of p)
  answer_of-Answered t u _ (a, r, x) s (failed (b, q, y) z) =
      refused (b ∙ a, q ∙ r, y ∙ x) (omega (arith, s, z))
  answer_of-Answered t u _ q s (stored h z) = granted h (omega (arith, s, z))

  or_acquire-Answered :
      (t : TokenManager) (p : Option String × TokenManager)
      → Settled t 1 p
      → Answered t 2 (or_acquire w p)
  or_acquire-Answered t _ (stored h s) = granted h (omega (arith, s))
  or_acquire-Answered t _ (failed {u = u} q s) =
      answer_of-Answered t u (acquire_locked w u) q s (acquire_locked-Settled u)

  ensure_locked-Answered : (t : TokenManager) → Answered t 2 (ensure_locked w t)
  unfolding ensure_locked
  ensure_locked-Answered t =
      if-holds (Answered t 2) (t.refresh == "") _ _
        (λ h.
          answer_of-Answered t t (acquire_locked w t) (same t) (omega arith)
            (acquire_locked-Settled t))
        (λ h. or_acquire-Answered t (do_refresh_locked w t) (do_refresh_locked-Settled t))

ticked :
    (t : TokenManager) (p : Result String String × TokenManager)
    → Answered (record t { clock = suc t.clock }) 2 p
    → Answered t 2 p
ticked t _ (refused q s) = refused q s
ticked t _ (granted h s) = granted h s

granted_or_refused : (w : AuthWorld) (t : TokenManager) → Answered t 2 (token w t)
unfolding token
granted_or_refused w t = elim (Bool-cases (not (t.access == "") && is_valid w t)) [
  | inl h ↦ let k : (t.access == "") ≡ false = ground (arith, h) in rw h (granted k (omega arith))
  | inr h ↦ rw h (ticked t _ (ensure_locked-Answered w (record t { clock = suc t.clock })))
]

-- A call of Token or Refresh sends at most two requests. It fails and leaves the access token, the refresh token
-- and the expiry as they were, or it returns the access token that the manager then holds, which is
-- not empty.
pub token-Answered :
    (w : AuthWorld) (t : TokenManager) → Answered t 2 (token w t) × Answered t 2 (refresh_token w t)
token-Answered w t = (granted_or_refused w t, ensure_locked-Answered w t)

data Held : Result String String × TokenManager → Type 0 where
  held : {a : String} {u : TokenManager} → a ≡ u.access → (u.access == "") ≡ false → Held (ok a, u)
  not_held : {e : String} {u : TokenManager} → Held (err e, u)

Answered-Held :
    (t : TokenManager) (p : Result String String × TokenManager) → Answered t 2 p → Held p
Answered-Held t _ (refused q s) = not_held
Answered-Held t _ (granted h s) = held refl h

cached :
    (w : AuthWorld) (a : String) (u : TokenManager)
    → Held (ok a, u)
    → is_valid w u ≡ true
    → token w u ≡ (ok a, record u { clock = suc u.clock })
unfolding token
cached w a u (held q h) v = rw (h, v, q) refl

-- While the token that Token has returned is valid, the next call returns it again and sends no
-- request.
pub token-token :
    (w : AuthWorld) (t u : TokenManager) (a : String)
    → token w t ≡ (ok a, u)
    → is_valid w u ≡ true
    → token w u ≡ (ok a, record u { clock = suc u.clock })
token-token w t u a q v =
    cached w a u (subst Held q (Answered-Held t (token w t) (token-Answered w t).0)) v
