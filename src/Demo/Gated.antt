-- ===== src/Demo/Gated.antt =====
-- Who gets past the gate of the demo's protected page.
use dbsc_python.Base.{◌≡◌, refl, Bool, not, true, false, if◌then◌else◌, Option, none, some, ◌∷◌}
use dbsc_python.Base.Int.{ℤ, ◌-ℤ◌, ◌≤ℤ◌, ltb_ℤ, not-ltb_ℤ→≤ℤ}
use dbsc_python.Base.Text.{is_empty}
use dbsc_python.Exceptions.{
  Exception, ExceptionClass, Result, ok, raise, corrupt_state_error, jwt_invalid_error,
  challenge_expired_error, challenge_mismatch_error, missing_challenge_error,
  session_not_found_error, value_error, unicode_encode_error,
}
use dbsc_python.Config.{Config}
use dbsc_python.Request.{RequestContext}
use dbsc_python.Binding.{Binding}
use dbsc_python.Effect.{
  Call, Answer, Program, done, call, clock, store, get_binding, lift, pure, try, ◌>>=◌,
}
use dbsc_python.Effect.Ensures.{
  Event, History, Ensures, Ensures-if, Ensures-then, Ensures-weaken, OnOk,
}
use dbsc_python.Server.Gate.{
  revoke, bound_cookie_matches, is_within_registration_grace, is_document_request,
}
use dbsc_python.Server.Gate.Overlap.{IsVouched, bound_cookie_matches-IsVouched}
use dbsc_python.Demo.{
  Response, Outcome, readable, apply, terminate, must_check, passes, bound_account, found_binding,
  account_of, account, unreadable_if_corrupt,
}

-- The second history is the first, with what was called after it.
pub data Grows (h : History) : History → Type 0 where
  here : Grows h h
  there : {h' : History} (c : Call) (a : Answer c) → Grows h h' → Grows h ((c, a) ∷ h')

Grows-Ensures :
    {A : Type 0} (m : Program A) (h h' : History) → Grows h h' → Ensures (λ _. Grows h) m h'
Grows-Ensures (done r) h h' g = g
Grows-Ensures (call c k) h h' g = λ a. Grows-Ensures (k a) h ((c, a) ∷ h') (there c a g)

pub Ensures-any : {A : Type 0} (m : Program A) (h : History) → Ensures (OnOk (λ a h'. Unit {0})) m h
Ensures-any (done (ok a)) h = tt
Ensures-any (done (raise e)) h = tt
Ensures-any (call c k) h = λ a. Ensures-any (k a) ((c, a) ∷ h)

module _ (config : Config) (ctx : RequestContext) (response : Response) where
  -- The check of the cookie is due at the second history, which follows the first: the request is
  -- a navigation, or the clock was read at or after the end of the registration grace.
  pub data IsDue (b : Binding) (read : History) : History → Type 0 where
    navigation : is_document_request ctx ≡ true → IsDue b read read
    late :
        (t : ℤ)
        → is_document_request ctx ≡ false
        → config.registration_grace_seconds ≤ℤ t -ℤ b.created_at
        → IsDue b read ((clock, t) ∷ read)

  -- The request may be answered for this binding, by what the run called between the reading of
  -- the binding and the second history: it is no navigation, and the clock was read within the
  -- registration grace; or the check of the cookie was due, and the cookie vouches.
  pub data Granted (b : Binding) (read : History) : History → Type 0 where
    in_grace :
        (t : ℤ)
        → is_document_request ctx ≡ false
        → ltb_ℤ (t -ℤ b.created_at) config.registration_grace_seconds ≡ true
        → Granted b read ((clock, t) ∷ read)
    vouched :
        (due checked : History)
        → IsDue b read due
        → IsVouched config b ctx due checked
        → Granted b read checked

  -- What `must_check` says, by the reading of the clock.
  abbrev Decided : Binding → History → Bool → History → Type 0
  Decided b read true h = IsDue b read h
  Decided b read false h = Granted b read h

  due_by_time :
      (b : Binding) (read : History) (t : ℤ) (within : Bool)
      → is_document_request ctx ≡ false
      → ltb_ℤ (t -ℤ b.created_at) config.registration_grace_seconds ≡ within
      → Decided b read (not within) ((clock, t) ∷ read)
  due_by_time b read t true document p = in_grace t document p
  due_by_time b read t false document p =
      late t document (not-ltb_ℤ→≤ℤ (t -ℤ b.created_at) config.registration_grace_seconds p)

  must_check_sound :
      (b : Binding) (h : History)
      → Ensures (OnOk (Decided b h)) (must_check config ctx response b) h
  unfolding must_check is_within_registration_grace
  must_check_sound b h =
      Ensures-if _ (is_document_request ctx) _ _ _ (λ document. navigation document)
        (λ document t. due_by_time b h t _ document refl)

  by_cookie :
      (b : Binding) (read due : History) (r : Result Bool) (h : History)
      → IsDue b read due
      → OnOk (λ m h'. m ≡ true → IsVouched config b ctx due h') r h
      → OnOk (λ m h'. m ≡ true → Granted b read h') r h
  by_cookie b read due (ok m) h d k = λ q. vouched due h d (k q)
  by_cookie b read due (raise e) h d k = tt

  passed_unless_due :
      (b : Binding) (read : History) (checked : Bool) (h : History)
      → Decided b read checked h
      → Ensures
          (OnOk (λ passed h'. passed ≡ true → Granted b read h'))
          (if checked then bound_cookie_matches config b ctx else pure true)
          h
  passed_unless_due b read true h d =
      Ensures-weaken _ _ (bound_cookie_matches config b ctx) h
        (bound_cookie_matches-IsVouched config b ctx h) (λ r h' k. by_cookie b read h r h' d k)
  passed_unless_due b read false h d = λ _. d

  passes_sound :
      (b : Binding) (h : History)
      → Ensures
          (OnOk (λ passed h'. passed ≡ true → Granted b h h'))
          (passes config ctx response b)
          h
  unfolding passes
  passes_sound b h =
      Ensures-then _ _ (must_check config ctx response b) _ h (must_check_sound b h)
        (λ checked h' d. passed_unless_due b h checked h' d)

  terminate_logs_out :
      (h : History) → Ensures (OnOk (λ o h'. o.logged_out ≡ true)) (terminate config ctx response) h
  unfolding terminate
  terminate_logs_out h =
      Ensures-then (λ _ _. Unit) _ (revoke config ctx true) _ h
        (Ensures-any (revoke config ctx true) h)
        (λ revoked h₁ _.
          Ensures-then (λ _ _. Unit) _ (apply revoked response) _ h₁
            (Ensures-any (apply revoked response) h₁) (λ applied h₂ _. refl))

  -- The event of the gate's read.
  abbrev pub found : Option Binding → Event
  found b = (store (get_binding ctx.session_id), ok b)

  -- What a run from the first history has behind it if it does not log the user out.
  pub data Access (before h : History) : Type 0 where
    unbound : h ≡ found none ∷ before → Access before h
    granted :
        (b : Binding) (passed : History)
        → Granted b (found (some b) ∷ before) passed
        → Grows passed h
        → Access before h

  abbrev Gated : History → Outcome → History → Type 0
  Gated before o h = o.logged_out ≡ false → Access before h

  terminate-Gated :
      (before h : History) → Ensures (OnOk (Gated before)) (terminate config ctx response) h
  terminate-Gated before h =
      Ensures-weaken _ _ (terminate config ctx response) h (terminate_logs_out h) contradicted
    where
      contradicted :
          (r : Result Outcome) (h' : History)
          → OnOk (λ o h''. o.logged_out ≡ true) r h'
          → OnOk (Gated before) r h'
      contradicted (ok o) h' e = λ q. absurd (cc)
      contradicted (raise x) h' e = tt

  served :
      (b : Binding) (before passed : History)
      → Granted b (found (some b) ∷ before) passed
      → (r : Result Outcome) (h : History) → Grows passed h
      → OnOk (Gated before) r h
  served b before passed g (ok o) h grown = λ q. granted b passed g grown
  served b before passed g (raise x) h grown = tt

  account_of-Gated :
      (b : Option Binding) (before : History)
      → Ensures
          (OnOk (Gated before))
          (account_of config ctx response (readable b))
          (found b ∷ before)
  unfolding account_of
  account_of-Gated none before = λ q. unbound refl
  account_of-Gated (some b) before =
      Ensures-then _ _ (passes config ctx response b) _ _ (passes_sound b _) (λ passed h k.
        Ensures-if _ passed _ _ _
          (λ e.
            Ensures-weaken _ _ (bound_account config ctx response b) h
              (Grows-Ensures (bound_account config ctx response b) h h here)
              (served b before h (k e)))
          (λ _. terminate-Gated before h))

  unreadable-Gated :
      (e : Exception) (k : ExceptionClass) (before h : History)
      → Ensures
          (OnOk (Gated before))
          (unreadable_if_corrupt e k >>= account_of config ctx response)
          h
  unfolding unreadable_if_corrupt account_of
  unreadable-Gated e corrupt_state_error before h = terminate-Gated before h
  unreadable-Gated e jwt_invalid_error before h = tt
  unreadable-Gated e challenge_expired_error before h = tt
  unreadable-Gated e challenge_mismatch_error before h = tt
  unreadable-Gated e missing_challenge_error before h = tt
  unreadable-Gated e session_not_found_error before h = tt
  unreadable-Gated e value_error before h = tt
  unreadable-Gated e unicode_encode_error before h = tt

  -- Whatever the calls answer, a request of a user that the gate of the page answers without
  -- logging the user out begins by reading from the store that there is no binding, and makes no
  -- other call; or it begins by reading a binding and then either it is no navigation and reads
  -- the clock within the registration grace of that binding, or it is a navigation or reads the
  -- clock once that grace is over, and its cookie then vouches for the binding.
  pub account-Access :
      (h : History)
      → is_empty ctx.user_id ≡ false
      → Ensures (OnOk (λ o h'. o.logged_out ≡ false → Access h h')) (account config ctx response) h
  unfolding account found_binding
  account-Access h user = rw user (λ a. after_read a)
    where
      after_read :
          (a : Result (Option Binding))
          → Ensures
              (OnOk (Gated h))
              (try (lift a >>= λ b. pure (readable b)) (λ e. unreadable_if_corrupt e e.kind)
                >>= account_of config ctx response)
              ((store (get_binding ctx.session_id), a) ∷ h)
      after_read (ok b) = account_of-Gated b h
      after_read (raise e) = unreadable-Gated e e.kind h _
