-- ===== src/Binding/Laws.antt =====
-- The constructor accepts exactly the valid bindings and changes nothing; rotations keep validity.
use dbsc_python.Base.{◌≡◌, arith}
use dbsc_python.Exceptions.{Exception, ok, raise, value_error}
use dbsc_python.Validate.{require}
use dbsc_python.Binding.{Binding, IsValid, post_init}

pub post_init_of_IsValid : (b : Binding) → IsValid b → post_init b ≡ ok b
unfolding post_init require
post_init_of_IsValid b v = rw (
  v.session_identifier, v.challenge, v.previous_challenge, v.cookie_value, v.previous_cookie_value,
)

pub post_init-eq-ok : (b c : Binding) → post_init b ≡ ok c → (c ≡ b) × IsValid b
unfolding post_init require
post_init-eq-ok b c h = ground arith

pub post_init-eq-raise :
    (b : Binding) (e : Exception) → post_init b ≡ raise e → e.kind ≡ value_error
unfolding post_init require
post_init-eq-raise b e h = ground arith
