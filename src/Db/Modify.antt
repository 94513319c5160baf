-- ===== src/Db/Modify.antt =====
-- What a change of one row leaves in the table.
use guardian_pi.Base.{◌≡◌, sym, ◌∙◌, ap, ◌≢◌, Option, none, some, List}
use mathlib.Core.Path.{subst}
use guardian_pi.Http.{Error, Result, ok, ◌>>=◌, >>=-eq-ok}
use guardian_pi.Db.{Uuid, Table, IsLawful, fetch, found, flush, modify}
use guardian_pi.Db.Laws.{fetch-overwrite_self, fetch-overwrite_ne, key-fetch}

-- The id loaded `old` from the rows `before`, it loads `new` from `after`, and each other id loads
-- what it loaded before.
pub record Modified {Row : Type 0} (key : Row → Uuid) (id : Uuid) (before after : List Row)
    (old new : Row) : Type 0 where
  pub loaded : fetch key id before ≡ ok (some old)
  pub written : fetch key id after ≡ ok (some new)
  pub others : (other : Uuid) → id ≢ other → fetch key other after ≡ fetch key other before

pub ok-injective : {A : Type 0} {a b : A} → ok a ≡ ok b → a ≡ b
ok-injective h = cc

pub found-eq-ok :
    {Row : Type 0} (e : Error) (o : Option Row) {row : Row} → found e o ≡ ok row → o ≡ some row
found-eq-ok e none h = cc
found-eq-ok e (some r) h = cc

pub flush-eq-ok : {S : Type 0} (o : Option S) {s : S} → flush o ≡ ok s → o ≡ some s
flush-eq-ok none h = cc
flush-eq-ok (some t) h = cc

module _ {Row : Type 0} (key : Row → Uuid) (T : Table Row) where
  pub save-Modified :
      (id : Uuid) (old new : Row) (s t : T.Store)
      → IsLawful key T
      → fetch key id (T.rows s) ≡ ok (some old)
      → key new ≡ key old
      → T.save new s ≡ some t
      → Modified key id (T.rows s) (T.rows t) old new
  save-Modified id old new s t law loaded same saved =
      let e : key new ≡ id = same ∙ key-fetch key id old (T.rows s) loaded in
      let rows = law.rows-save new s t saved in
      record {
        loaded = loaded;
        written = rw (rows, ← e) (fetch-overwrite_self key new old (T.rows s) (rw (← e) at loaded));
        others =
            λ other h. rw rows (fetch-overwrite_ne key new other (T.rows s) (λ p. h (sym e ∙ p)));
      }

  -- A change that succeeds loaded the row, made the change, and wrote it.
  pub modify-Modified :
      (id : Uuid) (missing : Error) (change : Row → Result Row) (s t : T.Store) (new : Row)
      → IsLawful key T
      → ((old new : Row) → change old ≡ ok new → key new ≡ key old)
      → modify key T id missing change s ≡ ok (new, t)
      → (old : Row) × (change old ≡ ok new) × Modified key id (T.rows s) (T.rows t) old new
  unfolding modify
  modify-Modified id missing change s t new law keeps h =
      let (o, loaded, h1) =
        >>=-eq-ok (fetch key id (T.rows s))
          (λ row. found missing row >>= λ row.
            change row >>= λ row'. flush (T.save row' s) >>= λ t. ok (row', t))
          h in
      let (old, is_found, h2) =
        >>=-eq-ok (found missing o)
          (λ row. change row >>= λ row'. flush (T.save row' s) >>= λ t. ok (row', t)) h1 in
      let (new', changed, h3) =
        >>=-eq-ok (change old) (λ row'. flush (T.save row' s) >>= λ t. ok (row', t)) h2 in
      let (t', saved, h4) = >>=-eq-ok (flush (T.save new' s)) (λ t. ok (new', t)) h3 in
      let same : new' ≡ new = cc in
      let same_store : t' ≡ t = cc in
      let old_change : change old ≡ ok new = cc in
      let old_saved : T.save new s ≡ some t = cc (flush-eq-ok (T.save new' s) saved) in
      let old_loaded : fetch key id (T.rows s) ≡ ok (some old) =
        cc (loaded, found-eq-ok missing o is_found) in
      (
        old,
        old_change,
        save-Modified id old new s t law old_loaded (keeps old new old_change) old_saved,
      )

  -- The same, for a change that only assigns.
  pub modify-assign :
      (id : Uuid) (missing : Error) (f : Row → Row) (s t : T.Store) (new : Row)
      → IsLawful key T
      → ((r : Row) → key (f r) ≡ key r)
      → modify key T id missing (λ r. ok (f r)) s ≡ ok (new, t)
      → (old : Row) × (f old ≡ new) × Modified key id (T.rows s) (T.rows t) old (f old)
  modify-assign id missing f s t new law keeps h =
      let (old, e, m) =
        modify-Modified id missing (λ r. ok (f r)) s t new law
          (λ old new e. sym (ap key (ok-injective e)) ∙ keeps old) h in
      (
        old,
        ok-injective e,
        subst (Modified key id (T.rows s) (T.rows t) old) (sym (ok-injective e)) m,
      )

  -- The same, where the endpoint goes on with the row that was written.
  pub modify-then :
      {B : Type 0} (id : Uuid) (missing : Error) (f : Row → Row) (s : T.Store)
      (k : Row × T.Store → Result B) {b : B}
      → IsLawful key T
      → ((r : Row) → key (f r) ≡ key r)
      → (modify key T id missing (λ r. ok (f r)) s >>= k) ≡ ok b
      → (old : Row) × (t : T.Store) × Modified key id (T.rows s) (T.rows t) old (f old)
        × (k (f old, t) ≡ ok b)
  modify-then id missing f s k {b} law keeps h =
      let ((new, t), modified, rest) = >>=-eq-ok (modify key T id missing (λ r. ok (f r)) s) k h in
      let (old, e, m) = modify-assign id missing f s t new law keeps modified in
      (old, t, m, subst (λ r. k (r, t) ≡ ok b) (sym e) rest)
