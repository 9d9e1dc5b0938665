-- ===== src/Effect/Points.antt =====
-- Where a run may stop short: the model gives an answer to every clock reading, draw of random
-- bytes, audit report, put and deletion, while the host's own code behind them may raise. No `try`
-- of src/dbsc/server.py stands around such a call, so a run in which one raises ends there, with
-- the history it has made so far.
use dbsc_python.Base.{◌≡◌, refl, subst, ◌⊎◌, inl, inr, [], ◌∷◌, false, none}
use dbsc_python.Base.Int.{pos}
use dbsc_python.Exceptions.{Exception, Result, ok, raise}
use dbsc_python.Effect.{
  Call, Answer, store, clock, token_bytes, audit, Program, done, call, put_pending_registration,
  get_pending_registration, delete_pending_registration, put_binding, get_binding, delete,
  commit_registration, replace_binding,
}
use dbsc_python.Effect.Ensures.{Event, History, Ensures, Ensures-weaken, OnRaise}
use dbsc_python.Effect.Inert.{AllInert}

-- A condition on every call that a run reaches and on the history before it.
abbrev pub AtCalls : {A : Type 0} → (Call → History → Type 0) → Program A → History → Type 0
AtCalls P (done r) h = Unit
AtCalls P (call c k) h = P c h × ((a : Answer c) → AtCalls P (k a) ((c, a) ∷ h))

-- The history contains this call, made after this earlier history.
abbrev pub Made : Call → History → History → Type 0
Made c h [] = ⊥
Made c h ((c', a) ∷ h') = ((c ≡ c') × (h ≡ h')) ⊎ Made c h h'

reply : (c : Call) → Answer c
reply (store (put_pending_registration s p)) = tt
reply (store (get_pending_registration s)) = ok none
reply (store (delete_pending_registration s)) = tt
reply (store (put_binding s b)) = tt
reply (store (get_binding s)) = ok none
reply (store (delete s)) = tt
reply (store (commit_registration s p b)) = ok false
reply (store (replace_binding s b b')) = ok false
reply clock = pos 0
reply (token_bytes n) = []
reply (audit event message user_id) = tt

module _ {A : Type 0} (Q : Result A → History → Type 0) where
  -- A call that a run has made is in the history of one of its ends.
  in_an_end :
      (c : Call) (h : History) (m : Program A) (h' : History)
      → Ensures Q m h'
      → Made c h h'
      → (r : Result A) × (end : History) × (Q r end) × Made c h end
  in_an_end c h (done r) h' q made = (r, h', q, made)
  in_an_end c h (call c' k) h' e made =
      let a = reply c' in in_an_end c h (k a) ((c', a) ∷ h') (e a) (inr made)

  -- What the history of every end shows of its calls holds of every call that is reached.
  pub Ensures-AtCalls :
      (P : Call → History → Type 0) (m : Program A) (h : History)
      → Ensures Q m h
      → ((r : Result A) (end : History)
          → Q r end
          → (c : Call) (h' : History) → Made c h' end
          → P c h')
      → AtCalls P m h
  Ensures-AtCalls P (done r) h e shows = tt
  Ensures-AtCalls P (call c k) h e shows =
      let a = reply c in
      let (r, end, q, made) = in_an_end c h (k a) ((c, a) ∷ h) (e a) (inl (refl, refl)) in
      (shows r end q c h made, λ b. Ensures-AtCalls P (k b) ((c, b) ∷ h) (e b) shows)

pub AllInert-before : (c : Call) (h h' : History) → AllInert h' → Made c h h' → AllInert h
AllInert-before c h [] i made = elim made [ ]
AllInert-before c h ((c', a) ∷ h') (_, i) (inl (p, q)) = rw q i
AllInert-before c h ((c', a) ∷ h') (_, i) (inr made) = AllInert-before c h h' i made

-- A run of one conditional write, `IsWin` if it is won: the win is followed by a report and a
-- reading of the clock.
module _ (IsWin : Event → Type 0) (report : Event) where
  -- How such a run ends.
  pub data Ends {A : Type 0} (r : Result A) (h : History) : Type 0 where
    refused : (e : Exception) → r ≡ raise e → AllInert h → Ends r h
    won :
        (a : A) (win last : Event) (before : History)
        → r ≡ ok a
        → IsWin win
        → last.0 ≡ clock
        → AllInert before
        → h ≡ last ∷ report ∷ win ∷ before
        → Ends r h

  -- Where it may stop short: before anything has changed, or after the win, at the report of it or
  -- at the reading of the clock behind that.
  pub data StopsAt (c : Call) (h : History) : Type 0 where
    untouched : AllInert h → StopsAt c h
    reporting :
        (win : Event) (before : History)
        → IsWin win
        → AllInert before
        → h ≡ win ∷ before
        → c ≡ report.0
        → StopsAt c h
    dating :
        (win : Event) (before : History)
        → IsWin win
        → AllInert before
        → h ≡ report ∷ win ∷ before
        → c ≡ clock
        → StopsAt c h

  past_the_win :
      (c : Call) (h before : History) (win last : Event)
      → IsWin win
      → last.0 ≡ clock
      → AllInert before
      → Made c h (last ∷ report ∷ win ∷ before)
      → StopsAt c h
  past_the_win c h before win last w l i (inl (p, q)) = dating win before w i q (cc)
  past_the_win c h before win last w l i (inr (inl (p, q))) = reporting win before w i q p
  past_the_win c h before win last w l i (inr (inr (inl (p, q)))) = untouched (rw q i)
  past_the_win c h before win last w l i (inr (inr (inr made))) =
      untouched (AllInert-before c h before i made)

  Ends-StopsAt :
      {A : Type 0} (r : Result A) (end : History)
      → Ends r end
      → (c : Call) (h : History) → Made c h end
      → StopsAt c h
  Ends-StopsAt r end (refused e p i) c h made = untouched (AllInert-before c h end i made)
  Ends-StopsAt r end (won a win last before p w l i q) c h made =
      past_the_win c h before win last w l i (subst (Made c h) q made)

  Ends-OnRaise :
      {A : Type 0} (r : Result A) (end : History) → Ends r end → OnRaise (λ _. AllInert) r end
  Ends-OnRaise (ok a) end e = tt
  Ends-OnRaise (raise x) end (refused e p i) = i
  Ends-OnRaise (raise x) end (won a win last before p w l i q) = absurd (cc)

  -- What a run of one write leaves when it raises, and where it may stop short.
  pub Ends-StopsShort :
      {A : Type 0} (m : Program A) (h : History)
      → Ensures Ends m h
      → Ensures (OnRaise (λ _. AllInert)) m h × AtCalls StopsAt m h
  Ends-StopsShort m h e =
      (Ensures-weaken Ends _ m h e Ends-OnRaise, Ensures-AtCalls Ends StopsAt m h e Ends-StopsAt)
