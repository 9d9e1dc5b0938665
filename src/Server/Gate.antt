-- ===== src/Server/Gate.antt =====
-- `revoke`, the primitives of the enforcement gate, and `session_instructions_json`.
pub mod Revocation
pub mod Overlap
use dbsc_python.Base.{Bool, true, false, none, some, Option, [], ◌∷◌, if◌then◌else◌}
use dbsc_python.Base.Int.{◌-ℤ◌, ltb_ℤ}
use dbsc_python.Base.Text.{Text, codes, is_empty, text_eq}
use dbsc_python.Exceptions.{Exception, ExceptionClass, raise, corrupt_state_error}
use dbsc_python.Encoding.{constant_time_equals}
use dbsc_python.Config.{Config}
use dbsc_python.Request.{RequestContext, header, cookie}
use dbsc_python.Response.{DbscResponse, deletion}
use dbsc_python.Binding.{Binding}
use dbsc_python.Audit.{enforcement_terminated, revoked}
use dbsc_python.Effect
use dbsc_python.Effect.{Program, call, store, delete, pure, lift, try, ◌>>=◌, ◌>>◌}
use dbsc_python.Server.Messages.{no_store, now, log, same_user}
use dbsc_python.Server.Instructions.{instructions_json}

-- `get_binding`
unfoldable pub get_binding : RequestContext → Program (Option Binding)
get_binding ctx = call (store (Effect.get_binding ctx.session_id)) lift

unfoldable pub is_bound : Option Binding → Bool
is_bound none = false
is_bound (some b) = true

-- `except CorruptStateError`: a corrupt record counts as bound; any other exception passes.
unfoldable pub corrupt_is_bound : Exception → ExceptionClass → Program Bool
corrupt_is_bound e corrupt_state_error = pure true
corrupt_is_bound e _ = lift (raise e)

unfoldable pub was_bound : RequestContext → Program Bool
unfolding get_binding is_bound corrupt_is_bound
was_bound ctx =
    try (do found ← get_binding ctx; pure (is_bound found)) λ e. corrupt_is_bound e e.kind

-- The overlap: the previous cookie value, until its own expiry
unfoldable pub previous_cookie_matches : Binding → Text → Program Bool
previous_cookie_matches binding presented =
    if is_empty binding.previous_cookie_value then pure false else do
      time ← now
      if ltb_ℤ time binding.previous_cookie_expires_at
          then lift (constant_time_equals binding.previous_cookie_value presented)
          else pure false

unfoldable pub presented_cookie_matches : Binding → Text → Program Bool
unfolding previous_cookie_matches
presented_cookie_matches binding presented =
    if is_empty presented
    then pure false
    else if is_empty binding.cookie_value
    then previous_cookie_matches binding presented
    else do
      current ← lift (constant_time_equals binding.cookie_value presented)
      if current then pure true else previous_cookie_matches binding presented

unfoldable pub cookie_matches : Binding → Option Text → Program Bool
unfolding presented_cookie_matches
cookie_matches binding none = pure false
cookie_matches binding (some presented) = presented_cookie_matches binding presented

module _ (config : Config) where
  unfoldable pub revocation : DbscResponse
  revocation = record {
    headers = no_store;
    cookies = deletion config.cookie_name (codes "/") ∷ [];
    status = none;
    body = none;
    content_type = none;
  }

  unfoldable pub revoke : RequestContext → Bool → Program DbscResponse
  unfolding was_bound revocation
  revoke ctx terminated = do
    bound ← was_bound ctx
    call (store (delete ctx.session_id)) λ _.
        (if bound
          then if terminated
            then log enforcement_terminated
                (codes "DBSC enforcement terminated session (cookie missing or mismatched).") ctx
            else log revoked (codes "DBSC session revoked.") ctx
          else pure tt)
        >> pure revocation

  unfoldable pub bound_cookie_matches : Binding → RequestContext → Program Bool
  unfolding same_user cookie_matches
  bound_cookie_matches binding ctx =
      if same_user binding.user_id ctx.user_id
      then cookie_matches binding (cookie ctx config.cookie_name)
      else pure false

  unfoldable pub is_within_registration_grace : Binding → Program Bool
  is_within_registration_grace binding = do
    time ← now
    pure (ltb_ℤ (time -ℤ binding.created_at) config.registration_grace_seconds)

  unfoldable pub instructions_of : RequestContext → Option Binding → Text
  instructions_of ctx none = codes "{}"
  instructions_of ctx (some binding) =
      if is_empty binding.session_identifier
      then codes "{}"
      else instructions_json config binding.session_identifier ctx

  unfoldable pub session_instructions_json : RequestContext → Program Text
  unfolding instructions_of
  session_instructions_json ctx = do found ← get_binding ctx; pure (instructions_of ctx found)

unfoldable pub is_document_request : RequestContext → Bool
is_document_request ctx = elim (header ctx (codes "Sec-Fetch-Dest")) [
  | none ↦ false
  | some dest ↦ text_eq dest (codes "document")
]
