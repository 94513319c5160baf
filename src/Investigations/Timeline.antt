-- ===== src/Investigations/Timeline.antt =====
-- The life of an investigation: what the endpoints can do to it, and what stays.
use guardian_pi.Base.{String, ◌≡◌, refl, ◌∙◌, sym, ap, List, [], ◌∷◌, ◌++◌, get_or}
use mathlib.Core.List.{append_assoc, append-nil}
use guardian_pi.Http.{ok, http, >>=-eq-ok, >>-eq-ok}
use guardian_pi.Db.{Uuid, Table, IsLawful, with_store}
use guardian_pi.Db.Modify.{Modified, modify-then, ok-injective}
use guardian_pi.Db.Add.{with_store-eq}
use guardian_pi.Schemas.{Pydantic, InvestigationResponse, investigation_response}
use guardian_pi.Models.{Investigation, TimelineItem, User, Time}
use guardian_pi.Deps.{require_role}
use guardian_pi.Deps.Access.{require_role-eq-ok}
use guardian_pi.Investigations.{
  TimelineEntry, add_timeline_entry, assign_investigation, close_investigation, with_entry,
  assigned, closed,
}

module _ (pydantic : Pydantic) (T : Table Investigation) where
  -- What one request can do to an investigation.
  pub data Step (inv : Investigation) : Investigation → Type 0 where
    entry :
        (now : Time) (user : User) (e : TimelineEntry)
        → Step inv (with_entry pydantic T now user e inv)
    assign : (now : Time) (assignee : Uuid) → Step inv (assigned pydantic T now assignee inv)
    close :
        (now : Time) (user : User) (findings : String)
        → Step inv (closed pydantic T now user findings inv)

  pub data Reach (inv : Investigation) : Investigation → Type 0 where
    here : Reach inv inv
    next : {i j : Investigation} → Reach inv i → Step i j → Reach inv j

  abbrev pub entries : Investigation → List TimelineItem
  entries inv = get_or inv.timeline []

  -- The later state has the history of the earlier one, and the same origin.
  pub record Extends (old new : Investigation) : Type 0 where
    pub added : List TimelineItem
    pub history : entries new ≡ entries old ++ added
    pub same_id : new.id ≡ old.id
    pub same_title : new.title ≡ old.title
    pub same_creator : new.created_by ≡ old.created_by
    pub same_creation : new.created_at ≡ old.created_at

  Step-Extends : {i j : Investigation} → Step i j → Extends i j
  Step-Extends {i} (entry now user e) = record {
    added = _;
    history = refl;
    same_id = refl;
    same_title = refl;
    same_creator = refl;
    same_creation = refl;
  }
  Step-Extends {i} (assign now assignee) = record {
    added = [];
    history = sym (append-nil (entries i));
    same_id = refl;
    same_title = refl;
    same_creator = refl;
    same_creation = refl;
  }
  Step-Extends {i} (close now user findings) = record {
    added = _;
    history = refl;
    same_id = refl;
    same_title = refl;
    same_creator = refl;
    same_creation = refl;
  }

  Extends-trans : {i j k : Investigation} → Extends i j → Extends j k → Extends i k
  Extends-trans {i} a b = record {
    added = a.added ++ b.added;
    history =
        b.history ∙ ap (λ l. l ++ b.added) a.history ∙ append_assoc (entries i) a.added b.added;
    same_id = b.same_id ∙ a.same_id;
    same_title = b.same_title ∙ a.same_title;
    same_creator = b.same_creator ∙ a.same_creator;
    same_creation = b.same_creation ∙ a.same_creation;
  }

  -- However the requests are ordered, the timeline only grows at its end, and the id, the title, the
  -- creator and the time of creation stay.
  pub Reach-Extends : {i j : Investigation} → Reach i j → Extends i j
  Reach-Extends {i} here = record {
    added = [];
    history = sym (append-nil (entries i));
    same_id = refl;
    same_title = refl;
    same_creator = refl;
    same_creation = refl;
  }
  Reach-Extends (next r st) = Extends-trans (Reach-Extends r) (Step-Extends st)

  module _ (now : Time) (id : Uuid) (user : User) (s t : T.Store)
      (law : IsLawful (λ i. i.id) T) where
    -- A request for a new entry that succeeds changes the one investigation, by the step of the
    -- entry.
    pub add_timeline_entry-Step :
        (e : TimelineEntry) (response : InvestigationResponse)
        → add_timeline_entry pydantic T now id e (ok user) s ≡ ok (response, t)
        → (old : Investigation) × Modified
            (λ i. i.id)
            id
            (T.rows s)
            (T.rows t)
            old
            (with_entry pydantic T now user e old)
    unfolding add_timeline_entry
    add_timeline_entry-Step e response h =
        let (u, role, h1) = >>=-eq-ok (require_role ("admin" ∷ "analyst" ∷ []) user) _ h in
        let (_, same_user) = require_role-eq-ok ("admin" ∷ "analyst" ∷ []) user role in
        let (old, v, m, end) =
          modify-then (λ i. i.id) T id (http 404 "Investigation not found")
            (with_entry pydantic T now user e) s
            (λ (i, t). with_store (investigation_response pydantic i) t) law (λ i. refl)
            (rw same_user at h1) in
        (
          old,
          rw
              (with_store-eq
                (investigation_response pydantic (with_entry pydantic T now user e old)) end)
              at m,
        )

    pub close_investigation-Step :
        (findings : String)
        → close_investigation pydantic T now id findings (ok user) s ≡ ok t
        → (old : Investigation) × Modified
            (λ i. i.id)
            id
            (T.rows s)
            (T.rows t)
            old
            (closed pydantic T now user findings old)
    unfolding close_investigation
    close_investigation-Step findings h =
        let (u, role, h1) = >>=-eq-ok (require_role ("admin" ∷ "analyst" ∷ []) user) _ h in
        let (_, same_user) = require_role-eq-ok ("admin" ∷ "analyst" ∷ []) user role in
        let (old, v, m, end) =
          modify-then (λ i. i.id) T id (http 404 "Investigation not found")
            (closed pydantic T now user findings) s (λ (i, t). ok t) law (λ i. refl)
            (rw same_user at h1) in
        (old, rw (ok-injective end) at m)

    pub assign_investigation-Step :
        (assignee : Uuid)
        → assign_investigation pydantic T now id assignee (ok user) s ≡ ok (assignee, t)
        → (old : Investigation) × Modified
            (λ i. i.id)
            id
            (T.rows s)
            (T.rows t)
            old
            (assigned pydantic T now assignee old)
    unfolding assign_investigation
    assign_investigation-Step assignee h =
        let h1 = >>-eq-ok (require_role ("admin" ∷ []) user) _ h in
        let (old, v, m, end) =
          modify-then (λ i. i.id) T id (http 404 "Investigation not found")
            (assigned pydantic T now assignee) s (λ (i, t). ok (assignee, t)) law (λ i. refl) h1 in
        (old, rw (ap (λ (p : Uuid × T.Store). p.1) (ok-injective end)) at m)
