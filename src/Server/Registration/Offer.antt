-- ===== src/Server/Registration/Offer.antt =====
-- What `build_registration_header_response` sends and stores.
use dbsc_python.Base.{ℕ, ◌≡◌, refl, Bool, true, List, [], ◌∷◌, ◌++◌, all, arith, ◌==◌}
use dbsc_python.Base.Text.{Text, codes}
use dbsc_python.Exceptions.{ok}
use dbsc_python.Validate.{is_sf_string_safe, sf_string_char, require}
use dbsc_python.Validate.Patterns.{is_path, path_char, alphanumeric}
use dbsc_python.Config.{Config}
use dbsc_python.Config.Accepted.{IsAccepted}
use dbsc_python.Request.{RequestContext}
use dbsc_python.Response.{DbscResponse}
use dbsc_python.Pending.{PendingRegistration, pending_registration}
use dbsc_python.Effect.{store, put_pending_registration, clock, token_bytes}
use dbsc_python.Effect.Ensures.{History, Ensures}
use dbsc_python.Server.Messages.{header_registration, no_store, quoted, hex}
use dbsc_python.Server.Tokens.{hex-safe}
use dbsc_python.Server.Registration.{build_registration_header_response, registration_value}

path_char→sf_string_char : (c : ℕ) → path_char c ≡ true → sf_string_char c ≡ true
unfolding path_char sf_string_char alphanumeric codes
path_char→sf_string_char c h = ground arith

slash-safe : (c : ℕ) → (c == b'/') ≡ true → sf_string_char c ≡ true
unfolding sf_string_char
slash-safe c h = ground arith

all-imp :
    (p q : ℕ → Bool) (s : Text)
    → ((c : ℕ) → p c ≡ true → q c ≡ true)
    → all p s ≡ true
    → all q s ≡ true
all-imp p q [] f h = refl
all-imp p q (c ∷ s) f h = ground (arith, f c, all-imp p q s f)

-- A path has no character that could end a quoted string.
pub path-safe : (s : Text) → is_path s ≡ true → is_sf_string_safe s ≡ true
unfolding is_path is_sf_string_safe
path-safe [] h = absurd (cc)
path-safe (c ∷ rest) h =
    ground (arith, all-imp path_char sf_string_char rest path_char→sf_string_char, slash-safe c)

module _ (config : Config) (ctx : RequestContext) where
  -- The offer was stored last; the header quotes the path and the offer's challenge.
  pub record IsOffered (before : History) (response : DbscResponse) (h : History) : Type 0 where
    pub bytes : List ℕ
    pub offer : PendingRegistration
    pub user : offer.user_id ≡ ctx.user_id
    pub fresh : offer.reg_challenge ≡ hex bytes
    pub calls :
        h
        ≡ (store (put_pending_registration ctx.session_id offer), tt)
          ∷ (clock, offer.reg_challenge_time)
          ∷ (token_bytes 32, bytes)
          ∷ before
    pub headers :
        response.headers
        ≡ (
          header_registration,
          codes "(ES256); path="
              ++ quoted config.register_path
              ++ codes "; challenge="
              ++ quoted offer.reg_challenge,
        )
          ∷ no_store
    pub safe_path : is_sf_string_safe config.register_path ≡ true
    pub safe_challenge : is_sf_string_safe offer.reg_challenge ≡ true

  -- Under an accepted configuration, whatever the calls answer, an offer's response is returned,
  -- and has behind it an offer stored for the request's session and user, with fresh random bytes
  -- as its challenge and the time of the clock; its header quotes the registration path and that
  -- challenge, which hold no quote and no backslash.
  pub build_registration_header_response-IsOffered :
      IsAccepted config
      → (h : History)
      → Ensures
          (λ r h'. (response : DbscResponse) × (r ≡ ok response) × IsOffered h response h')
          (build_registration_header_response config ctx)
          h
  unfolding build_registration_header_response registration_value pending_registration require
  build_registration_header_response-IsOffered accepted h = λ bytes time. rw (hex-safe bytes) (λ _.
      (
        _,
        refl,
        record {
          bytes = bytes;
          offer = record {
            user_id = ctx.user_id;
            reg_challenge = hex bytes;
            reg_challenge_time = time;
          };
          user = refl;
          fresh = refl;
          calls = refl;
          headers = refl;
          safe_path = path-safe config.register_path accepted.register_path;
          safe_challenge = hex-safe bytes;
        },
      ))
