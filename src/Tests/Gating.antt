-- ===== src/Tests/Gating.antt =====
-- The gate, the revocation and the challenges at concrete requests.
use dbsc_python.Base.{◌≡◌, refl, [], ◌∷◌, true, false, some}
use dbsc_python.Base.Int.{pos, ◌+ℤ◌}
use dbsc_python.Base.Text.{Text, codes, text_eq}
use dbsc_python.Exceptions.{Result, ok, raise, Exception, corrupt_state_error}
use dbsc_python.Encoding.{constant_time_equals}
use dbsc_python.Request.{RequestContext}
use dbsc_python.Response.{DbscResponse}
use dbsc_python.Effect.Ensures.{History}
use dbsc_python.Encoding.Injective.{constant_time_equals-eq-text_eq}
use dbsc_python.Binding.{fully_rotated}
use dbsc_python.Effect.Ensures.{Ensures, OnOk}
use dbsc_python.Server.Challenge.Emission.{
  IsIssued, issue_refresh_challenge-IsIssued, IsAdvertised,
  advertise_refresh_challenge-IsAdvertised,
}
use dbsc_python.Server.Gate.{presented_cookie_matches, revoke}
use dbsc_python.Effect.Points.{AtCalls}
use dbsc_python.Server.Gate.Revocation.{IsRevoked, RevokesAt, revoke-IsRevoked}
use dbsc_python.Server.Gate.Overlap.{
  IsVouched, bound_cookie_matches-IsVouched, UntilExpiry, rotation_overlap, rotation_single_depth,
}
use dbsc_python.Request.{lookup}
use dbsc_python.Server.Messages.{header_challenge, challenge_headers}
use dbsc_python.Server.Messages.Reading.{read_challenge, read_challenge-challenge_headers}
use dbsc_python.Tests.Fixtures.{program, config, ctx, bound, text_ne}

abbrev vouching : RequestContext
vouching = record ctx { cookies = (codes "__Host-dbsc", codes "c0") ∷ [] }

bound_cookie_matches-IsVouched_example : IsVouched config bound vouching [] []
unfolding program
bound_cookie_matches-IsVouched_example =
    bound_cookie_matches-IsVouched config bound vouching [] refl

rotation_overlap_example :
    Ensures
      (UntilExpiry (pos 1000 +ℤ pos 300) [])
      (presented_cookie_matches
        (fully_rotated bound (codes "c1") (codes "n1") (pos 1200) (pos 1200) (pos 300))
        (codes "c0"))
      []
unfolding program
rotation_overlap_example =
    rotation_overlap bound (codes "c1") (codes "n1") (pos 1200) (pos 1200) (pos 300) [] refl refl
      refl (text_ne (codes "c1") (codes "c0") refl)

rotation_single_depth_example :
    Ensures
      (OnOk (λ m h'. m ≡ false))
      (presented_cookie_matches
        (fully_rotated
          (fully_rotated bound (codes "c1") (codes "n1") (pos 1200) (pos 1200) (pos 300))
          (codes "c2")
          (codes "n2")
          (pos 1400)
          (pos 1400)
          (pos 300))
        (codes "c0"))
      []
unfolding program
rotation_single_depth_example =
    rotation_single_depth bound (codes "c1") (codes "n1") (pos 1200) (pos 1200) (pos 300)
      (codes "c2") (codes "n2") (pos 1400) (pos 1400) [] (text_ne (codes "c1") (codes "c0") refl)
      (text_ne (codes "c2") (codes "c0") refl)

abbrev corrupt_record : Exception
corrupt_record = record { kind = corrupt_state_error; message = codes "unreadable" }

revoke-IsRevoked_example :
    ((r : Result DbscResponse) × (h : History) × IsRevoked config ctx true [] r h)
    × AtCalls (RevokesAt config ctx true) (revoke config ctx true) []
unfolding program
revoke-IsRevoked_example =
    let revoked = revoke-IsRevoked config ctx true [] in
    ((_, _, revoked.0 (raise corrupt_record) tt tt), revoked.1)

issue_refresh_challenge-IsIssued_example :
    (response : DbscResponse) × (h : History) × IsIssued ctx response h
unfolding program
issue_refresh_challenge-IsIssued_example = (
  _,
  _,
  issue_refresh_challenge-IsIssued ctx [] (ok (some bound)) (18 ∷ []) (pos 1010) (ok false)
      (ok (some bound)) (52 ∷ []) (pos 1011) (ok true),
)

advertise_refresh_challenge-IsAdvertised_example :
    (response : DbscResponse) × (h : History) × IsAdvertised config bound ctx [] response h
unfolding program
advertise_refresh_challenge-IsAdvertised_example =
    (_, _, advertise_refresh_challenge-IsAdvertised config bound ctx [] (pos 1010) (ok true))

constant_time_equals-eq-text_eq_example :
    constant_time_equals (codes "n0") (codes "n1") ≡ ok (text_eq (codes "n0") (codes "n1"))
unfolding program
constant_time_equals-eq-text_eq_example =
    constant_time_equals-eq-text_eq (codes "n0") (codes "n1") (_, refl) (_, refl)

read_challenge-challenge_headers_example :
    (value : Text) × (lookup header_challenge (challenge_headers (codes "id") (codes "n0"))
      ≡ some value)
    × (read_challenge value ≡ some (codes "n0", codes "id"))
unfolding program
read_challenge-challenge_headers_example =
    read_challenge-challenge_headers (codes "id") (codes "n0") refl refl
