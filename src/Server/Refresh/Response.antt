-- ===== src/Server/Refresh/Response.antt =====
-- What stands behind a successful response of `refresh`.
use dbsc_python.Base.{◌≡◌, refl, zero, suc, ℕ, true, false, some, List, [], ◌∷◌, ◌++◌, Bool}
use dbsc_python.Base.Int.{ℤ, ◌+ℤ◌}
use dbsc_python.Base.Text.{Text, codes}
use dbsc_python.Exceptions.{Result, ok}
use dbsc_python.Jwt.{JwtVerifier}
use dbsc_python.Config.{Config}
use dbsc_python.Request.{RequestContext}
use dbsc_python.Response.{DbscResponse}
use dbsc_python.Binding.{Binding, fully_rotated, with_rotated_cookie_and_challenge, post_init}
use dbsc_python.Binding.Laws.{post_init-eq-ok}
use dbsc_python.Audit.{refreshed}
use dbsc_python.Effect.{clock, store, audit, token_bytes, get_binding, replace_binding}
use dbsc_python.Effect.Ensures.{
  History, Ensures, Ensures-if, Ensures-lift, Ensures-then, Ensures-or_again, OnOk,
}
use dbsc_python.Server.Messages.{hex, no_store, challenge_headers, bound_cookie_at}
use dbsc_python.Server.Instructions.{instructions_json}
use dbsc_python.Server.Refresh.{
  binding_proved_by, refreshed_response, rotate, refresh_loop, refresh,
}
use dbsc_python.Server.Refresh.Proved.{IsProof, binding_proved_by-Ensures}

module _ (config : Config) (ctx : RequestContext) where
  -- The binding that a round writes, from the random bytes and the clock reading of that round.
  abbrev pub rotation : Binding → List ℕ → List ℕ → ℤ → Binding
  rotation b cookie_bytes challenge_bytes time =
      fully_rotated b (hex cookie_bytes) (hex challenge_bytes) time time
        config.cookie_max_age_seconds

  -- The end of the history of a round that won its write on `b`, and its response.
  pub record IsRotation (b : Binding) (proved : History) (response : DbscResponse) (h : History)
      : Type 0 where
    pub time : ℤ
    pub cookie_bytes : List ℕ
    pub challenge_bytes : List ℕ
    pub issued : ℤ
    pub history :
        h
        ≡ (clock, issued)
          ∷ (audit refreshed (codes "DBSC cookie refreshed.") ctx.user_id, tt)
          ∷ (
            store (replace_binding ctx.session_id b (rotation b cookie_bytes challenge_bytes time)),
            ok true,
          )
          ∷ (token_bytes 32, challenge_bytes)
          ∷ (token_bytes 32, cookie_bytes)
          ∷ (clock, time)
          ∷ proved
    -- the write stores the new cookie and challenge, and the old cookie as the previous one
    pub stored_cookie :
        (rotation b cookie_bytes challenge_bytes time).cookie_value ≡ hex cookie_bytes
    pub stored_challenge :
        (rotation b cookie_bytes challenge_bytes time).challenge ≡ hex challenge_bytes
    pub demoted_cookie :
        (rotation b cookie_bytes challenge_bytes time).previous_cookie_value ≡ b.cookie_value
    -- the response carries the new cookie and challenge
    pub shown : response ≡ record {
      headers = challenge_headers b.session_identifier (hex challenge_bytes) ++ no_store;
      cookies =
          record {
            name = config.cookie_name;
            value = hex cookie_bytes;
            expires_at = issued +ℤ config.cookie_max_age_seconds;
            delete = false;
            path = codes "/";
            secure = true;
            http_only = true;
            same_site = config.cookie_same_site;
          }
          ∷ [];
      status = some 200;
      body = some (instructions_json config b.session_identifier ctx);
      content_type = some (codes "application/json");
    }

  rotate-Ensures :
      (b : Binding) (h : History)
      → Ensures
          (OnOk
            (λ o h'. (response : DbscResponse) → o ≡ some response → IsRotation b h response h'))
          (rotate config ctx b)
          h
  unfolding rotate with_rotated_cookie_and_challenge refreshed_response bound_cookie_at
      fully_rotated
  rotate-Ensures b h = λ time cookie_bytes challenge_bytes.
      let new = rotation b cookie_bytes challenge_bytes time in
      Ensures-lift _ (post_init new) _ _
        (λ rotated e. rw (post_init-eq-ok new rotated e).0 (λ (won : Result Bool).
          Ensures-lift _ won _ _
            (λ replaced p.
              Ensures-if _ replaced _ _ _
                (λ q. λ _ issued. λ response shown. record {
                  time = time;
                  cookie_bytes = cookie_bytes;
                  challenge_bytes = challenge_bytes;
                  issued = issued;
                  history = rw (p, q);
                  stored_cookie = refl;
                  stored_challenge = refl;
                  demoted_cookie = refl;
                  shown = cc;
                })
                (λ _ response shown. cc))
            (λ _ _. tt)))
        (λ _ _. tt)

module _ (config : Config) (verifier : JwtVerifier) (jwt : Text) (ctx : RequestContext) where
  -- A round of `refresh` that answers: the binding was read, the JWT is a proof for it, and the
  -- write of its rotation found it unchanged.
  pub record IsRefreshed (response : DbscResponse) (h : History) : Type 0 where
    pub before : History
    pub binding : Binding
    pub proved : History
    pub proof :
        IsProof config verifier jwt ctx binding
          ((store (get_binding ctx.session_id), ok (some binding)) ∷ before)
          proved
    pub rotation : IsRotation config ctx binding proved response h

  refresh_loop-Ensures :
      (attempts : ℕ) (h : History)
      → Ensures (OnOk IsRefreshed) (refresh_loop config verifier attempts jwt ctx) h
  unfolding refresh_loop
  refresh_loop-Ensures zero h = λ _. tt
  refresh_loop-Ensures (suc attempts) h =
      Ensures-then _ _ (binding_proved_by config verifier jwt ctx) _ h
        (binding_proved_by-Ensures config verifier jwt ctx h)
        (λ b proved proof.
          Ensures-then _ _ (rotate config ctx b) _ proved (rotate-Ensures config ctx b proved)
            (λ answered h' rotation.
              Ensures-or_again _ answered _ h'
                (λ response e. record {
                  before = h;
                  binding = b;
                  proved = proved;
                  proof = proof;
                  rotation = rotation response e;
                })
                (λ _. refresh_loop-Ensures attempts h')))

  -- Whatever the calls answer, a response of `refresh` has behind it a binding read from the
  -- store, a proof by its device key of a live challenge, and a write of its rotation that found
  -- the binding unchanged; its cookie has the value and its headers the challenge that this write
  -- has stored, with the old value as the previous one, and the cookie's age is counted from the
  -- last reading of the clock.
  pub refresh-IsRefreshed :
      (h : History) → Ensures (OnOk IsRefreshed) (refresh config verifier jwt ctx) h
  unfolding refresh
  refresh-IsRefreshed h = refresh_loop-Ensures 3 h
