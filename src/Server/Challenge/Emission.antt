-- ===== src/Server/Challenge/Emission.antt =====
-- Which challenge a 403 or a proactive header carries.
use dbsc_python.Base.{
  ◌≡◌, ◌≢◌, refl, zero, suc, ℕ, true, false, some, none, Option, [], ◌∷◌, ◌++◌, Bool, List, arith,
  ap, if◌then◌else◌,
}
use dbsc_python.Base.Int.{ℤ, ◌-ℤ◌, ◌≤ℤ◌, ltb_ℤ, not-ltb_ℤ→≤ℤ}
use dbsc_python.Base.Text.{Text, codes, is_empty}
use dbsc_python.Exceptions.{Result, ok, raise}
use dbsc_python.Config.{Config}
use dbsc_python.Request.{RequestContext}
use dbsc_python.Response.{DbscResponse, empty_response}
use dbsc_python.Binding.{
  Binding, post_init, challenge_rotated, with_challenge, mark_challenge_advertised,
}
use dbsc_python.Binding.Laws.{post_init-eq-ok}
use dbsc_python.Effect.{
  clock, store, token_bytes, get_binding, replace_binding, Program, lift, pure, or_again, ◌>>=◌,
}
use dbsc_python.Effect.Ensures.{
  History, Ensures, Ensures-if, Ensures-lift, Ensures-then, Ensures-or_again, OnOk,
}
use dbsc_python.Server.Messages.{
  no_store, hex, same_user, challenge_headers, challenge_403, bare_403,
}
use dbsc_python.Server.Challenge.{
  rotate_challenge, unrotated_403, issue_loop, issue_refresh_challenge, nothing_to_advertise,
  advertise_refresh_challenge,
}

-- A 403 with these headers before the one against caching.
abbrev refusal : List (Text × Text) → DbscResponse
refusal headers = record {
  headers = headers ++ (codes "Cache-Control", codes "no-store") ∷ [];
  cookies = [];
  status = some 403;
  body = none;
  content_type = some (codes "application/json");
}

module _ (ctx : RequestContext) where
  -- How a 403 came about.
  pub data IsIssued (response : DbscResponse) (h : History) : Type 0 where
    -- no binding is stored
    unbound :
        (before : History)
        → h ≡ (store (get_binding ctx.session_id), ok none) ∷ before
        → response ≡ refusal []
        → IsIssued response h
    -- the rotation was written over the binding that was read, and the 403 carries its challenge
    rotated :
        (b : Binding) (bytes : List ℕ) (time : ℤ) (before : History)
        → h
          ≡ (
            store (replace_binding ctx.session_id b (challenge_rotated b (hex bytes) time)),
            ok true,
          )
            ∷ (clock, time)
            ∷ (token_bytes 32, bytes)
            ∷ (store (get_binding ctx.session_id), ok (some b))
            ∷ before
        → (challenge_rotated b (hex bytes) time).challenge ≡ hex bytes
        → response ≡ refusal (challenge_headers b.session_identifier (hex bytes))
        → IsIssued response h
    -- the last read found a binding, and the 403 carries its challenge
    stored :
        (b : Binding) (before : History)
        → h ≡ (store (get_binding ctx.session_id), ok (some b)) ∷ before
        → response ≡ refusal (challenge_headers b.session_identifier b.challenge)
        → IsIssued response h

  written :
      (b : Binding) (bytes : List ℕ) (time : ℤ) (before : History) (won : Result Bool)
      (replaced : Bool) (response : DbscResponse)
      → won ≡ ok replaced
      → (if replaced then some (challenge_403 b.session_identifier (hex bytes)) else none)
        ≡ some response
      → IsIssued response (
          (store (replace_binding ctx.session_id b (challenge_rotated b (hex bytes) time)), won)
          ∷ (clock, time)
          ∷ (token_bytes 32, bytes)
          ∷ (store (get_binding ctx.session_id), ok (some b))
          ∷ before)
  unfolding challenge_403 challenge_rotated
  written b bytes time before won true response p shown =
      rotated b bytes time before (rw p) refl (cc)
  written b bytes time before won false response p shown = absurd (cc)

  rotate_challenge-Ensures :
      (found : Option Binding) (before : History)
      → Ensures
          (OnOk (λ o h. (response : DbscResponse) → o ≡ some response → IsIssued response h))
          (rotate_challenge ctx found)
          ((store (get_binding ctx.session_id), ok found) ∷ before)
  unfolding rotate_challenge with_challenge challenge_rotated bare_403 challenge_403
  rotate_challenge-Ensures none before = λ response shown. unbound before refl (cc)
  rotate_challenge-Ensures (some b) before = λ bytes time.
      let new = challenge_rotated b (hex bytes) time in
      Ensures-lift _ (post_init new) _ _
        (λ r e. rw (post_init-eq-ok new r e).0 (λ (won : Result Bool).
          Ensures-lift _ won _ _
            (λ replaced p response shown. written b bytes time before won replaced response p shown)
            (λ _ _. tt)))
        (λ _ _. tt)

  found_last :
      (found : Option Binding) (h : History)
      → IsIssued (unrotated_403 found) ((store (get_binding ctx.session_id), ok found) ∷ h)
  unfolding unrotated_403 bare_403 challenge_403
  found_last none h = unbound h refl refl
  found_last (some b) h = stored b h refl refl

  after_last_read :
      (h : History) (read : Result (Option Binding))
      → Ensures
          (OnOk IsIssued)
          (lift read >>= λ found. pure (unrotated_403 found))
          ((store (get_binding ctx.session_id), read) ∷ h)
  after_last_read h (raise e) = tt
  after_last_read h (ok found) = found_last found h

  after_read :
      (next : Program DbscResponse) (h : History) (read : Result (Option Binding))
      → ((h' : History) → Ensures (OnOk IsIssued) next h')
      → Ensures
          (OnOk IsIssued)
          (lift read >>= λ found. rotate_challenge ctx found >>= λ answered. or_again answered next)
          ((store (get_binding ctx.session_id), read) ∷ h)
  after_read next h (raise e) again = tt
  after_read next h (ok found) again =
      Ensures-then _ _ (rotate_challenge ctx found) _ _ (rotate_challenge-Ensures found h)
        (λ answered h' issued. Ensures-or_again _ answered _ h' issued (λ _. again h'))

  issue_loop-IsIssued :
      (attempts : ℕ) (h : History) → Ensures (OnOk IsIssued) (issue_loop attempts ctx) h
  unfolding issue_loop
  issue_loop-IsIssued zero h = after_last_read h
  issue_loop-IsIssued (suc attempts) h =
      λ read. after_read _ h read (λ h'. issue_loop-IsIssued attempts h')

  -- Whatever the calls answer, a response of `issue_refresh_challenge` is the bare 403 of a
  -- session that was read as unbound, or carries the challenge that its last call wrote or read.
  pub issue_refresh_challenge-IsIssued :
      (h : History) → Ensures (OnOk IsIssued) (issue_refresh_challenge ctx) h
  unfolding issue_refresh_challenge
  issue_refresh_challenge-IsIssued h = issue_loop-IsIssued 3 h

module _ (config : Config) (b : Binding) (ctx : RequestContext) where
  -- How a response of `advertise_refresh_challenge` came about.
  pub data IsAdvertised (before : History) (response : DbscResponse) (h : History) : Type 0 where
    silent : response ≡ empty_response → IsAdvertised before response h
    -- the mark was written over the binding that was passed in, which was unmarked, had not
    -- refreshed, and held a live challenge
    emitted :
        (time : ℤ)
        → b.challenge_advertised ≡ false
        → b.has_refreshed ≡ false
        → b.challenge ≢ []
        → same_user b.user_id ctx.user_id ≡ true
        → time -ℤ b.challenge_time ≤ℤ config.challenge_ttl_seconds
        → h
          ≡ (
            store (replace_binding ctx.session_id b (record b { challenge_advertised = true })),
            ok true,
          )
            ∷ (clock, time)
            ∷ before
        → response.headers ≡ challenge_headers b.session_identifier b.challenge ++ no_store
        → IsAdvertised before response h

  something_to_advertise :
      nothing_to_advertise config b ctx ≡ false
      → (b.challenge_advertised ≡ false)
        × (b.has_refreshed ≡ false)
        × (b.challenge ≢ [])
        × (same_user b.user_id ctx.user_id ≡ true)
  unfolding nothing_to_advertise
  something_to_advertise h =
      (ground arith, ground arith, λ e. absurd (nonempty (ap is_empty e)), ground arith)
    where
      nonempty : is_empty b.challenge ≡ true → ⊥
      nonempty e = ground arith

  marked :
      (time : ℤ) (h : History) (won : Result Bool) (replaced : Bool)
      → nothing_to_advertise config b ctx ≡ false
      → ltb_ℤ config.challenge_ttl_seconds (time -ℤ b.challenge_time) ≡ false
      → won ≡ ok replaced
      → IsAdvertised h
          (if replaced
            then record empty_response {
              headers = challenge_headers b.session_identifier b.challenge ++ no_store;
            }
            else empty_response)
          ((
            store (replace_binding ctx.session_id b (record b { challenge_advertised = true })),
            won,
          )
            ∷ (clock, time)
            ∷ h)
  marked time h won true idle live p =
      let (fresh, unrefreshed, present, user) = something_to_advertise idle in
      emitted time fresh unrefreshed present user
        (not-ltb_ℤ→≤ℤ config.challenge_ttl_seconds (time -ℤ b.challenge_time) live) (rw p) refl
  marked time h won false idle live p = silent refl

  -- Whatever the calls answer, `advertise_refresh_challenge` answers nothing, or it wrote the
  -- mark over an unmarked binding and emits the live challenge of that binding, without rotating.
  pub advertise_refresh_challenge-IsAdvertised :
      (h : History) → Ensures (OnOk (IsAdvertised h)) (advertise_refresh_challenge config b ctx) h
  unfolding advertise_refresh_challenge mark_challenge_advertised
  advertise_refresh_challenge-IsAdvertised h =
      Ensures-if _ (nothing_to_advertise config b ctx) _ _ _ (λ _. silent refl)
        (λ idle. λ time.
          Ensures-if _ (ltb_ℤ config.challenge_ttl_seconds (time -ℤ b.challenge_time)) _ _ _
            (λ _. silent refl)
            (λ live.
              Ensures-lift _ (post_init (record b { challenge_advertised = true })) _ _
                (λ m e. rw (post_init-eq-ok _ m e).0 (λ (won : Result Bool).
                  Ensures-lift _ won _ _ (λ replaced p. marked time h won replaced idle live p)
                    (λ _ _. tt)))
                (λ _ _. tt)))
