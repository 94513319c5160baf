-- ===== src/Db/Sessions.antt =====
-- A request's session is committed or rolled back.
use guardian_pi.Base.{◌≡◌, refl, ap, ◌∙◌, ◌⊎◌, inl, inr, Option, none, some}
use guardian_pi.Http.{Error, Result, ok, err}
use guardian_pi.Db.{Session, run_session, get_db, commit_work, settle}

module _ {S A : Type 0} (commit : S → Option S) where
  -- Why a request is answered by an exception: the handler raised it, or the commit failed.
  abbrev pub IsCause : Result (A × S) → Error → Type 0
  IsCause handled e =
      (handled ≡ err e) ⊎ ((a : A) × ((t : S) × ((handled ≡ ok (a, t)) × (commit t ≡ none))))

  abbrev pub IsCommitted : Result (A × S) → Result A → S → Type 0
  IsCommitted handled answer kept =
      (a : A) × ((t : S) × ((handled ≡ ok (a, t)) × ((commit t ≡ some kept) × (answer ≡ ok a))))

  -- What is answered of a request, and the session then.
  abbrev pub Settled : (handled : Result (A × S)) → S → Result A × Session S → Type 0
  Settled handled s run =
      (run.1.working ≡ run.1.kept)
      × (((e : Error) × ((run.0 ≡ err e) × ((run.1.kept ≡ s) × IsCause handled e)))
          ⊎ IsCommitted handled run.0 run.1.kept)

  commit_work-Settled :
      (a : A) (t s : S) (o : Option S)
      → commit t ≡ o
      → Settled (ok (a, t)) s (commit_work commit a (record { kept = s; working = t }) o)
  commit_work-Settled a t s none fails =
      (refl, inl (_, (refl, (refl, inr (a, (t, (refl, fails)))))))
  commit_work-Settled a t s (some u) commits = (refl, inr (a, (t, (refl, (commits, refl)))))

  settle-Settled :
      (s left : S) (handled : Result (A × S)) → Settled handled s (settle commit s left handled)
  settle-Settled s left (err e) = (refl, inl (e, (refl, (refl, inl refl))))
  settle-Settled s left (ok (a, t)) = commit_work-Settled a t s (commit t) refl

  -- A request ends in one of two ways, whatever an exception left flushed: its response is sent and
  -- what the commit made of the handler's store is kept, or the exception that the handler or its
  -- commit raised is raised, and what is kept is as it was before the request. After either the session
  -- sees what is kept, with nothing flushed beside it.
  pub run_session-Settled :
      (left : S) (handler : S → Result (A × S)) (s : S)
      → Settled (handler s) s (run_session commit left handler s)
  unfolding run_session
  run_session-Settled left handler s = settle-Settled s left (handler s)

  pub get_db-cases :
      (handler : S → Result (A × S)) (s : S)
      → ((e : Error) × (get_db commit handler s ≡ (err e, s)))
        ⊎ ((a : A) × ((t : S) × ((u : S) × ((handler s ≡ ok (a, t))
                  × ((commit t ≡ some u) × (get_db commit handler s ≡ (ok a, u)))))))
  unfolding get_db
  get_db-cases handler s = elim (run_session-Settled s handler s).1 [
    | inl (e, (raised, (same, cause))) ↦ inl (e, cc (raised, same))
    | inr (a, (t, (succeeds, (commits, answered)))) ↦
        inr (a, (t, (_, (succeeds, (commits, cc answered)))))
  ]

  pub get_db-err :
      (handler : S → Result (A × S)) (s : S) {e : Error}
      → handler s ≡ err e
      → get_db commit handler s ≡ (err e, s)
  unfolding get_db run_session
  get_db-err handler s h = ap (λ r. let (answer, x) = settle commit s s r in (answer, x.kept)) h

  pub get_db-ok :
      (handler : S → Result (A × S)) (s : S) {a : A} {t u : S}
      → handler s ≡ ok (a, t)
      → commit t ≡ some u
      → get_db commit handler s ≡ (ok a, u)
  unfolding get_db run_session
  get_db-ok handler s {a} {t} {u} h commits =
      ap (λ r. let (answer, x) = settle commit s s r in (answer, x.kept)) h
      ∙ ap
          (λ o.
            let (answer, x) = commit_work commit a (record { kept = s; working = t }) o in
            (answer, x.kept))
          commits
