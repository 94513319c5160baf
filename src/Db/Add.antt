-- ===== src/Db/Add.antt =====
-- What a new row leaves in the table.
use guardian_pi.Base.{
  ◌≡◌, refl, ◌∙◌, ap, ◌≢◌, none, some, arith, List, [], ◌∷◌, ◌++◌, filter, filter-append, ◌==◌,
  eq_iff,
}
use mathlib.Core.List.{append-nil}
use guardian_pi.Http.{Result, ok, err, ◌>>=◌, >>=-eq-ok}
use guardian_pi.Db.{Uuid, Table, IsLawful, fetch, scalar_one_or_none, flush, with_store}
use guardian_pi.Db.Modify.{flush-eq-ok}

pub with_store-eq :
    {R S : Type 0} (m : Result R) {u : S} {response : R} {t : S}
    → with_store m u ≡ ok (response, t)
    → u ≡ t
with_store-eq (ok x) h = cc
with_store-eq (err e) h = cc

pub scalar-eq-none : {Row : Type 0} (xs : List Row) → scalar_one_or_none xs ≡ ok none → xs ≡ []
unfolding scalar_one_or_none
scalar-eq-none [] h = refl
scalar-eq-none (x ∷ []) h = cc
scalar-eq-none (x ∷ y ∷ xs) h = cc

module _ {Row : Type 0} (key : Row → Uuid) where
  fetch-append_self :
      (r : Row) (xs : List Row)
      → fetch key (key r) xs ≡ ok none
      → fetch key (key r) (xs ++ r ∷ []) ≡ ok (some r)
  unfolding fetch scalar_one_or_none
  fetch-append_self r xs h =
      let is_key = λ (x : Row). key x == key r in
      rw (filter-append is_key xs (r ∷ []), scalar-eq-none (filter is_key xs) h)
        (ground (arith, eq_iff (key r) (key r)))

  fetch-append_ne :
      (r : Row) (id : Uuid) (xs : List Row)
      → key r ≢ id
      → fetch key id (xs ++ r ∷ []) ≡ fetch key id xs
  unfolding fetch
  fetch-append_ne r id xs h =
      let is_id = λ (x : Row). key x == id in
      ap scalar_one_or_none (
        filter-append is_id xs (r ∷ [])
        ∙ ap (λ ys. filter is_id xs ++ ys) (last h)
        ∙ append-nil (filter is_id xs))
    where
      last : key r ≢ id → filter (λ x. key x == id) (r ∷ []) ≡ []
      last h = ground (arith, eq_iff (key r) id)

  -- The end of the endpoints that add a row: add, flush, and the response.
  pub add-fetch :
      (T : Table Row) (r : Row) (s : T.Store) {R : Type 0} (m : Result R) {response : R}
      {t : T.Store}
      → IsLawful key T
      → fetch key (key r) (T.rows s) ≡ ok none
      → (flush (T.add r s) >>= λ t. with_store m t) ≡ ok (response, t)
      → (fetch key (key r) (T.rows t) ≡ ok (some r))
        × ((other : Uuid) → key r ≢ other → fetch key other (T.rows t) ≡ fetch key other (T.rows s))
  add-fetch T r s {R} m {response} {t} law fresh h =
      let (u, added, h1) = >>=-eq-ok (flush (T.add r s)) (λ t. with_store m t) h in
      let same : u ≡ t = with_store-eq m h1 in
      let rows : T.rows t ≡ T.rows s ++ r ∷ [] =
        law.rows-add r s t (cc (flush-eq-ok (T.add r s) added)) in
      (
        rw rows (fetch-append_self r (T.rows s) fresh),
        λ other h. rw rows (fetch-append_ne r other (T.rows s) h),
      )
