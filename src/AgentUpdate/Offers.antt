-- ===== src/AgentUpdate/Offers.antt =====
-- What an agent is offered after a version was published.
use guardian_pi.Base.{
  ℕ, String, ◌≡◌, refl, sym, ap, ◌∙◌, ◌≢◌, true, false, List, [], ◌∷◌, none, some, lookup, insert,
  lookup-insert, eq_refl, eq_false_of_ne,
}
use guardian_pi.Http.{Result, ok, >>=-eq-ok, >>-eq-ok}
use guardian_pi.Models.{User}
use guardian_pi.Deps.{require_role}
use guardian_pi.Agent.Hashing.{Sha256, IsStream, hash_file}
use guardian_pi.Agent.Hashing.Chunks.{hash_file-hexdigest}
use guardian_pi.Db.Modify.{ok-injective}
use guardian_pi.AgentUpdate.{
  Versions, checked, answer, check_for_update, Published, uploaded, publish_agent_update,
}

module _ (H : Sha256) (law : IsStream H) where
  -- A version that was published is offered at once to each agent of its platform that has another
  -- version, older or newer, with the SHA-256 that the agent's own hashing of the file, in chunks,
  -- returns; an agent of that version is offered nothing, and the other platforms keep what they had.
  pub publish_agent_update-check_for_update :
      (now version platform release_notes : String) (content : List ℕ) (current_user : Result User)
      (before after : Versions) (response : Published) (current_version key : String)
      → publish_agent_update H now version platform release_notes content current_user before
        ≡ ok (response, after)
      → (version ≢ current_version
          → check_for_update current_version platform (ok key) after
            ≡ ok (
                checked true current_version version
                  (some (uploaded H now version platform release_notes content).download_url)
                  (hash_file H (some content))
                  (some release_notes)))
        × ((check_for_update version platform (ok key) after
              ≡ ok (checked false version version none none none))
            × ((other : String)
                → platform ≢ other
                → check_for_update current_version other (ok key) after
                  ≡ check_for_update current_version other (ok key) before))
  unfolding publish_agent_update check_for_update
  publish_agent_update-check_for_update now version platform release_notes content current_user
        before after response current_version key h =
      let (user, is_user, h1) = >>=-eq-ok current_user _ h in
      let h2 = >>-eq-ok (require_role ("admin" ∷ []) user) _ h1 in
      let new = uploaded H now version platform release_notes content in
      let stored : after ≡ insert platform new before = sym (ap (λ p. p.1) (ok-injective h2)) in
      let found : lookup platform after ≡ some new =
        ap (lookup platform) stored
        ∙ lookup-insert platform platform new before
        ∙ rw (eq_refl platform) refl in
      (
        λ differs. rw (found, eq_false_of_ne differs, hash_file-hexdigest H law content) refl,
        (
          rw (found, eq_refl version) refl,
          λ other differs.
              ap (λ o. ok (answer current_version other o))
                (ap (lookup other) stored
                  ∙ lookup-insert platform other new before
                  ∙ rw (eq_false_of_ne differs) refl),
        ),
      )
