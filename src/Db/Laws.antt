-- ===== src/Db/Laws.antt =====
-- Loading a row by its id, before and after a change of the table.
use guardian_pi.Base.{
  ◌≡◌, refl, ap, ◌≢◌, List, [], ◌∷◌, map, some, filter, ◌==◌, eq_iff, arith, true, Bool,
}
use guardian_pi.Http.{ok}
use guardian_pi.Db.{Uuid, overwrite, fetch, scalar_one_or_none}

module _ {Row : Type 0} (key : Row → Uuid) where
  filter-overwrite_self :
      (r : Row) (xs : List Row)
      → filter (λ x. key x == key r) (overwrite key r xs)
        ≡ map (λ _. r) (filter (λ x. key x == key r) xs)
  filter-overwrite_self r [] = refl
  filter-overwrite_self r (x ∷ xs) =
      ground (arith, filter-overwrite_self r xs, eq_iff (key x) (key r), eq_iff (key r) (key r))

  filter-overwrite_ne :
      (r : Row) (k : Uuid) (xs : List Row)
      → key r ≢ k
      → filter (λ x. key x == k) (overwrite key r xs) ≡ filter (λ x. key x == k) xs
  filter-overwrite_ne r k [] h = refl
  filter-overwrite_ne r k (x ∷ xs) h = ground (
    arith,
    filter-overwrite_ne r k xs,
    eq_iff (key x) (key r),
    eq_iff (key r) k,
    eq_iff (key x) k,
  )

  scalar-map :
      (r d : Row) (xs : List Row)
      → scalar_one_or_none xs ≡ ok (some d)
      → scalar_one_or_none (map (λ _. r) xs) ≡ ok (some r)
  unfolding scalar_one_or_none
  scalar-map r d [] h = cc
  scalar-map r d (x ∷ []) h = refl
  scalar-map r d (x ∷ y ∷ xs) h = cc

  -- A row that was loaded and overwritten is loaded as it was written.
  pub fetch-overwrite_self :
      (r d : Row) (xs : List Row)
      → fetch key (key r) xs ≡ ok (some d)
      → fetch key (key r) (overwrite key r xs) ≡ ok (some r)
  unfolding fetch
  fetch-overwrite_self r d xs h =
      rw (filter-overwrite_self r xs) (scalar-map r d (filter (λ x. key x == key r) xs) h)

  pub fetch-overwrite_ne :
      (r : Row) (k : Uuid) (xs : List Row)
      → key r ≢ k
      → fetch key k (overwrite key r xs) ≡ fetch key k xs
  unfolding fetch
  fetch-overwrite_ne r k xs h = ap scalar_one_or_none (filter-overwrite_ne r k xs h)

  pub filter-head :
      (p : Row → Bool) (xs : List Row) (y : Row) (ys : List Row) → filter p xs ≡ y ∷ ys → p y ≡ true
  filter-head p [] y ys h = cc
  filter-head p (x ∷ xs) y ys h = ground (arith, filter-head p xs y ys)

  pub scalar-eq-some : (d : Row) (xs : List Row) → scalar_one_or_none xs ≡ ok (some d) → xs ≡ d ∷ []
  unfolding scalar_one_or_none
  scalar-eq-some d [] h = cc
  scalar-eq-some d (x ∷ []) h = cc
  scalar-eq-some d (x ∷ y ∷ xs) h = cc

  -- What is loaded has the id that was asked for.
  pub key-fetch : (k : Uuid) (d : Row) (xs : List Row) → fetch key k xs ≡ ok (some d) → key d ≡ k
  unfolding fetch
  key-fetch k d xs h =
      (eq_iff (key d) k).0 (filter-head (λ x. key x == k) xs d [] (scalar-eq-some d _ h))
