-- ===== src/Demo/Endpoints/Logout.antt =====
-- Why the demo's refresh endpoint logs a user out.
use dbsc_python.Base.{◌≡◌, true, false, [], ◌∷◌, List}
use dbsc_python.Base.Text.{Text, is_empty}
use dbsc_python.Exceptions.{Exception, Result, ok, raise, is_retryable, is_dbsc_error}
use dbsc_python.Jwt.{JwtVerifier, RaisesJwtInvalid}
use dbsc_python.Config.{Config}
use dbsc_python.Request.{RequestContext}
use dbsc_python.Response.{DbscResponse, Cookie}
use dbsc_python.Binding.{Binding}
use dbsc_python.Audit.{refresh_failed}
use dbsc_python.Effect.{Program, done, call, store, audit, get_binding, replace_binding, try, ◌>>=◌}
use dbsc_python.Effect.Ensures.{
  Event, History, Ensures, Continue, Ensures-bind, Ensures-if, Ensures-then, OnOk, OnRaise,
  Raises-then,
}
use dbsc_python.Server.Challenge.{issue_refresh_challenge}
use dbsc_python.Server.Refresh.{refresh}
use dbsc_python.Server.Refresh.Audits.{
  Cause, by_read, by_write, benign, terminal, unexpected, refresh-Cause,
}
use dbsc_python.Server.Gate.{revoke}
use dbsc_python.Demo.{Response, apply, with_cookies, set_cookie_header, set_headers, Outcome}
use dbsc_python.Demo.Gated.{Ensures-any}
use dbsc_python.Demo.Endpoints.{
  session_response_jwt, kept, applied, refresh_terminated, refresh_refused, refresh_endpoint,
}

-- The run has met this event.
pub data Occurs (e : Event) : History → Type 0 where
  here : (h : History) → Occurs e (e ∷ h)
  there : {h : History} (d : Event) → Occurs e h → Occurs e (d ∷ h)

-- The store raised, or the failure of the refresh was reported.
pub data Explained (ctx : RequestContext) (h : History) : Type 0 where
  read_raised :
      (e : Exception) → Occurs (store (get_binding ctx.session_id), raise e) h → Explained ctx h
  write_raised :
      (b b' : Binding) (e : Exception)
      → Occurs (store (replace_binding ctx.session_id b b'), raise e) h
      → Explained ctx h
  reported :
      (message : Text) → Occurs (audit refresh_failed message ctx.user_id, tt) h → Explained ctx h

later : {ctx : RequestContext} {h : History} (d : Event) → Explained ctx h → Explained ctx (d ∷ h)
later d (read_raised e o) = read_raised e (there d o)
later d (write_raised b b' e o) = write_raised b b' e (there d o)
later d (reported message o) = reported message (there d o)

Explained-Ensures :
    {A : Type 0} (ctx : RequestContext) (m : Program A) (h : History)
    → Explained ctx h
    → Ensures (OnOk (λ a h'. Explained ctx h')) m h
Explained-Ensures ctx (done (ok a)) h x = x
Explained-Ensures ctx (done (raise e)) h x = tt
Explained-Ensures ctx (call c k) h x =
    λ a. Explained-Ensures ctx (k a) ((c, a) ∷ h) (later (c, a) x)

-- What a run has to end with for a handler to go on to `Q`.
abbrev Caught :
    {A : Type 0}
    → (Result A → History → Type 0)
    → (Exception → Program A)
    → Result A
    → History
    → Type 0
Caught Q handler (ok a) h = Q (ok a) h
Caught Q handler (raise e) h = Ensures Q (handler e) h

Ensures-try :
    {A : Type 0} (Q : Result A → History → Type 0) (m : Program A) (handler : Exception → Program A)
    (h : History)
    → Ensures (Caught Q handler) m h
    → Ensures Q (try m handler) h
Ensures-try Q (done (ok a)) handler h e = e
Ensures-try Q (done (raise x)) handler h e = e
Ensures-try Q (call c k) handler h e = λ a. Ensures-try Q (k a) handler ((c, a) ∷ h) (e a)

-- Applying a response raises nothing.
abbrev Never : Exception → History → Type 0
Never e h = ⊥

set_cookie_header_returns :
    (c : Cookie) (h : History) → Ensures (OnRaise Never) (set_cookie_header c) h
unfolding set_cookie_header
set_cookie_header_returns c h = Ensures-if _ c.delete _ _ _ (λ _. tt) (λ _ t. tt)

with_cookies_returns :
    (cs : List Cookie) (r : Response) (h : History) → Ensures (OnRaise Never) (with_cookies cs r) h
unfolding with_cookies
with_cookies_returns [] r h = tt
with_cookies_returns (c ∷ cs) r h =
    Raises-then Never (set_cookie_header c) _ h (set_cookie_header_returns c h)
      (λ value h₁. with_cookies_returns cs _ h₁)

apply_returns :
    (dbsc : DbscResponse) (r : Response) (h : History) → Ensures (OnRaise Never) (apply dbsc r) h
unfolding apply
apply_returns dbsc r h =
    Raises-then Never (with_cookies dbsc.cookies (set_headers dbsc.headers r)) _ h
      (with_cookies_returns dbsc.cookies _ h) (λ a h₁. tt)

module _ (config : Config) (verifier : JwtVerifier) (only : RaisesJwtInvalid verifier)
    (ctx : RequestContext) (response : Response) where
  abbrev Q : Result Outcome → History → Type 0
  Q = OnOk (λ o h. o.logged_out ≡ true → Explained ctx h)

  applied_keeps :
      (dbsc : DbscResponse) (h : History) → Ensures Q (applied config verifier ctx response dbsc) h
  applied_keeps dbsc h =
      Ensures-then (λ _ _. Unit) _ (apply dbsc response) _ h (Ensures-any (apply dbsc response) h)
        (λ r h₁ _ q. absurd (cc))

  terminated_explained :
      (h : History)
      → Explained ctx h
      → Ensures Q (refresh_terminated config verifier ctx response) h
  unfolding refresh_terminated
  terminated_explained h x =
      Ensures-then _ _ (revoke config ctx true) _ h
        (Explained-Ensures ctx (revoke config ctx true) h x)
        (λ revoked h₁ x₁.
          Ensures-then _ _ (apply revoked response) _ h₁
            (Explained-Ensures ctx (apply revoked response) h₁ x₁) (λ r h₂ x₂ _. x₂))

  explained :
      (e : Exception) (h : History)
      → Cause ctx e h
      → is_retryable e.kind ≡ false
      → is_dbsc_error e.kind ≡ true
      → Explained ctx h
  explained e h (by_read before p) r d = rw p (read_raised e (here before))
  explained e h (by_write b b' before p) r d = rw p (write_raised b b' e (here before))
  explained e h (benign message before p _) r d = absurd (cc)
  explained e h (terminal message before _ p) r d = rw p (reported message (here before))
  explained e h (unexpected p) r d = absurd (cc)

  refused :
      (e : Exception) (h : History)
      → Cause ctx e h
      → Ensures Q (refresh_refused config verifier ctx response e) h
  unfolding refresh_refused
  refused e h cause =
      Ensures-if _ (is_retryable e.kind) _ _ _
        (λ _.
          Ensures-then (λ _ _. Unit) _ (issue_refresh_challenge ctx) _ h
            (Ensures-any (issue_refresh_challenge ctx) h) (λ dbsc h₁ _. applied_keeps dbsc h₁))
        (λ r.
          Ensures-if _ (is_dbsc_error e.kind) _ _ _
            (λ d. terminated_explained h (explained e h cause r d)) (λ _. tt))

  answered :
      (dbsc : DbscResponse) (h : History)
      → Ensures
          (Caught Q (refresh_refused config verifier ctx response))
          (applied config verifier ctx response dbsc)
          h
  answered dbsc h =
      Ensures-bind (OnRaise Never) _ (apply dbsc response) _ h (apply_returns dbsc response h)
        done_with
    where
      done_with :
          (r : Result Response) (h' : History)
          → OnRaise Never r h'
          → Continue
              (Caught Q (refresh_refused config verifier ctx response))
              (kept config verifier ctx response)
              r
              h'
      done_with (ok r) h' _ = λ q. absurd (cc)
      done_with (raise e) h' n = elim n [ ]

  -- Whatever the calls answer, a refresh endpoint that logs the user out has behind it an exception
  -- of the store or the report REFRESH_FAILED, if the verifier raises only `JwtInvalidError`.
  pub refresh_endpoint-Explained :
      (h : History)
      → Ensures
          (OnOk (λ o h'. o.logged_out ≡ true → Explained ctx h'))
          (refresh_endpoint config verifier ctx response)
          h
  unfolding refresh_endpoint
  refresh_endpoint-Explained h =
      Ensures-if _ (is_empty (session_response_jwt ctx)) _ _ _
        (λ _.
          Ensures-then (λ _ _. Unit) _ (issue_refresh_challenge ctx) _ h
            (Ensures-any (issue_refresh_challenge ctx) h) (λ dbsc h₁ _. applied_keeps dbsc h₁))
        (λ _.
          Ensures-try Q
            (refresh config verifier (session_response_jwt ctx) ctx
              >>= applied config verifier ctx response)
            (refresh_refused config verifier ctx response) h
            (Ensures-bind (OnRaise (Cause ctx))
              (Caught Q (refresh_refused config verifier ctx response))
              (refresh config verifier (session_response_jwt ctx) ctx)
              (applied config verifier ctx response) h
              (refresh-Cause config verifier only (session_response_jwt ctx) ctx h) after_refresh))
    where
      after_refresh :
          (r : Result DbscResponse) (h' : History)
          → OnRaise (Cause ctx) r h'
          → Continue
              (Caught Q (refresh_refused config verifier ctx response))
              (applied config verifier ctx response)
              r
              h'
      after_refresh (ok dbsc) h' _ = answered dbsc h'
      after_refresh (raise e) h' cause = refused e h' cause
