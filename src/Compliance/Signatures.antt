-- ===== src/Compliance/Signatures.antt =====
-- What the signature of an audit entry proves.
use guardian_pi.Base.{String, ◌≡◌, sym, ap, ◌∙◌, ◌≢◌, ◌↔◌, true, false, Bool-cases, inl, inr}
use mathlib.Core.Path.{subst}
use guardian_pi.Http.{ok, >>=-eq-ok}
use guardian_pi.Db.{Table, flush}
use guardian_pi.Db.Modify.{ok-injective}
use guardian_pi.Models.{Time}
use guardian_pi.Compliance.{
  AuditLog, Entry, Signer, sign_audit_entry, verify_audit_signature, Action, signed_entry,
  created_log, create_audit_entry,
}

-- hmac.compare_digest is equality.
abbrev pub IsComparison : Signer → Type 0
IsComparison S = (a b : String) → (S.compare_digest a b ≡ true) ↔ (a ≡ b)

-- The HMACs of the JSON of two entries differ, unless the entries are the same.
abbrev pub IsCollisionFree : Signer → Entry → Entry → Type 0
IsCollisionFree S a b = S.hmac S.secret_key (S.dumps a) ≡ S.hmac S.secret_key (S.dumps b) → a ≡ b

-- The entry that the row itself tells, its time being created_at.
abbrev pub entry_of : AuditLog → Entry
entry_of log = record {
  action = log.action;
  category = log.category;
  user_id = log.user_id;
  device_id = log.device_id;
  details = log.details;
  timestamp = log.created_at;
}

module _ (S : Signer) (law : IsComparison S) (T : Table AuditLog) where
  created_log-eq :
      (id : String) (now later : Time) (a : Action) (s t : T.Store) (log : AuditLog)
      → create_audit_entry S T id now later a s ≡ ok (log, t)
      → created_log S id now later a ≡ log
  unfolding create_audit_entry
  created_log-eq id now later a s t log h =
      let (u, added, same) = >>=-eq-ok (flush (T.add (created_log S id now later a) s)) _ h in
      ap (λ p. p.0) (ok-injective same)

  -- The signature of a created row verifies for one entry only: the row's action, category, user,
  -- device and details with the time of the signature. A change of any of them, in the row or in the
  -- entry, shows, as long as its HMAC is another.
  pub verify_audit_signature_iff :
      (id : String) (now later : Time) (a : Action) (s t : T.Store) (log : AuditLog) (entry : Entry)
      → IsCollisionFree S entry (signed_entry now a)
      → create_audit_entry S T id now later a s ≡ ok (log, t)
      → (verify_audit_signature S (S.dumps entry) log.hmac_signature ≡ true)
        ↔ (entry ≡ record (entry_of log) { timestamp = now })
  unfolding verify_audit_signature sign_audit_entry
  verify_audit_signature_iff id now later a s t log entry free h =
      subst
        (λ l.
          (S.compare_digest (S.hmac S.secret_key (S.dumps entry)) l.hmac_signature ≡ true)
          ↔ (entry ≡ record (entry_of l) { timestamp = now }))
        (created_log-eq id now later a s t log h)
        (
          λ equal. free ((law _ _).0 equal),
          λ same. (law _ _).1 (ap (λ e. S.hmac S.secret_key (S.dumps e)) same),
        )

  -- A row does not tell the time of its signature: where created_at, set when the row is written, is
  -- any later, the signature does not verify for the entry that the row tells.
  pub verify_audit_signature-entry_of :
      (id : String) (now later : Time) (a : Action) (s t : T.Store) (log : AuditLog)
      → IsCollisionFree S (entry_of log) (signed_entry now a)
      → now ≢ later
      → create_audit_entry S T id now later a s ≡ ok (log, t)
      → verify_audit_signature S (S.dumps (entry_of log)) log.hmac_signature ≡ false
  verify_audit_signature-entry_of id now later a s t log free differs h =
      elim (Bool-cases (verify_audit_signature S (S.dumps (entry_of log)) log.hmac_signature)) [
        | inl verified ↦
            let same =
              (verify_audit_signature_iff id now later a s t log (entry_of log) free h).0
                verified in
            let written = ap (λ l. l.created_at) (created_log-eq id now later a s t log h) in
            absurd (differs (sym (ap (λ e. e.timestamp) same) ∙ sym written))
        | inr refused ↦ refused
      ]
