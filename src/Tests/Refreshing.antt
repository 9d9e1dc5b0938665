-- ===== src/Tests/Refreshing.antt =====
-- `refresh` at concrete requests.
use dbsc_python.Base.{◌≡◌, refl, [], ◌∷◌, true, false, some}
use dbsc_python.Base.Int.{pos}
use dbsc_python.Base.Text.{codes}
use dbsc_python.Exceptions.{ok, Exception}
use dbsc_python.Response.{DbscResponse}
use dbsc_python.Effect.Ensures.{History}
use dbsc_python.Server.Refresh.{refresh}
use dbsc_python.Server.Refresh.Response.{IsRefreshed, refresh-IsRefreshed}
use dbsc_python.Binding.{challenge_rotated, fully_rotated}
use dbsc_python.Effect.{clock}
use dbsc_python.Effect.Ensures.{Ensures, OnOk, OnRaise}
use dbsc_python.Effect.Inert.{AllInert}
use dbsc_python.Effect.Points.{AtCalls, StopsAt}
use dbsc_python.Server.Refresh.{challenge_matches}
use dbsc_python.Server.Refresh.Audits.{Cause, refresh-Cause}
use dbsc_python.Server.Refresh.Untouched.{IsReplacement, refreshing, refresh-AllInert}
use dbsc_python.Server.Refresh.Overlap.{WithinTtl, challenge_overlap, spent_challenge}
use dbsc_python.Effect.Under.{Under}
use dbsc_python.Server.Refresh.{verify_refresh}
use dbsc_python.Server.Progress.{IsAnswered, Favours, IsProvedBy, refresh-IsAnswered}
use dbsc_python.Tests.Fixtures.{
  program, config, ctx, verifier, verifier-RaisesJwtInvalid, bound, text_ne,
}

refresh-IsRefreshed_example :
    (response : DbscResponse) × (h : History) × IsRefreshed config verifier
      (codes "n0")
      ctx
      response
      h
unfolding program
refresh-IsRefreshed_example = (
  _,
  _,
  refresh-IsRefreshed config verifier (codes "n0") ctx [] (ok (some bound)) (pos 1010) (pos 1010)
      (18 ∷ []) (52 ∷ []) (ok true) tt (pos 1011),
)

refresh-Cause_example : (e : Exception) × (h : History) × Cause ctx e h
unfolding program
refresh-Cause_example = (
  _,
  _,
  refresh-Cause config verifier verifier-RaisesJwtInvalid (codes "n1") ctx [] (ok (some bound))
      (pos 1010) tt,
)

refresh-AllInert_example :
    Ensures (OnRaise (λ e. AllInert)) (refresh config verifier (codes "n1") ctx) []
    × AtCalls
        (StopsAt
          (IsReplacement config verifier (codes "n1") ctx)
          (refreshing config verifier (codes "n1") ctx))
        (refresh config verifier (codes "n1") ctx)
        []
unfolding program
refresh-AllInert_example = refresh-AllInert config verifier (codes "n1") ctx [] tt

challenge_overlap_example :
    Ensures
      (WithinTtl config verifier bound (codes "n1") (pos 1100) [])
      (challenge_matches config verifier
        (challenge_rotated bound (codes "n1") (pos 1100))
        (codes "n0"))
      []
unfolding program
challenge_overlap_example =
    challenge_overlap config verifier bound (codes "n1") (pos 1100) [] refl refl refl
      (text_ne (codes "n1") (codes "n0") refl)

spent_challenge_example :
    Ensures
      (OnOk (λ m h'. m ≡ false))
      (challenge_matches config verifier
        (fully_rotated bound (codes "c1") (codes "n1") (pos 1200) (pos 1200) (pos 300))
        (codes "n0"))
      ((clock, pos 1300) ∷ [])
unfolding program
spent_challenge_example =
    spent_challenge config verifier bound (codes "n1") (pos 1200) (codes "n0") ctx (codes "c1")
      (pos 1200) (pos 300) (pos 1300) [] (text_ne (codes "n1") (codes "n0") refl)

proved : IsProvedBy config verifier (codes "n0") ctx bound
unfolding program verify_refresh
proved = record {
  valid = record {
    session_identifier = refl;
    challenge = refl;
    previous_challenge = refl;
    cookie_value = refl;
    previous_cookie_value = refl;
  };
  user = refl;
  session = refl;
  challenged = refl;
  signed = refl;
}

refresh-IsAnswered_example :
    Under
      (Favours config verifier (codes "n0") ctx bound)
      (λ r h. IsAnswered r)
      (refresh config verifier (codes "n0") ctx)
      []
refresh-IsAnswered_example = refresh-IsAnswered config verifier (codes "n0") ctx bound proved []
