-- ===== src/Agent/Hashing/Chunks.antt =====
-- The loop over the chunks ends, and its digest is that of the whole content.
use guardian_pi.Base.{
  ℕ, zero, suc, ◌<◌, ◌≡◌, refl, sym, ap, ◌∙◌, List, [], ◌∷◌, ◌++◌, some, length, take, drop,
  take-append-drop, length-drop, arith, List-cases, inl, inr,
}
use guardian_pi.Agent.Hashing.{Sha256, IsStream, hash_chunks, hash_file}

empty_take : {A : Type 0} (size : ℕ) (xs : List A) → 0 < size → take size xs ≡ [] → xs ≡ []
empty_take zero xs h e = absurd (omega arith)
empty_take (suc n) [] h e = refl
empty_take (suc n) (x ∷ xs) h e = cc

pos_of_take :
    {A : Type 0} {b : A} {bs : List A} (size : ℕ) (xs : List A)
    → take size xs ≡ b ∷ bs
    → 0 < length xs
pos_of_take zero [] taken = omega (arith, ap length taken)
pos_of_take (suc n) [] taken = omega (arith, ap length taken)
pos_of_take size (x ∷ xs) taken = omega arith

module _ (H : Sha256) (law : IsStream H) where
  -- With more fuel than bytes, whatever the size of a chunk.
  pub hash_chunks-eq :
      (fuel size : ℕ) (s : H.State) (unread : List ℕ)
      → 0 < size
      → length unread < fuel
      → hash_chunks H fuel size s unread ≡ some (H.update s unread)
  unfolding hash_chunks
  hash_chunks-eq zero size s unread pos enough = absurd (omega arith)
  hash_chunks-eq (suc fuel) size s unread pos enough = elim (List-cases (take size unread)) [
    | inl done ↦
        rw (hash_chunks, done, empty_take size unread pos done) (ap some (sym (law.update-nil s)))
    | inr (b, (bs, taken)) ↦
        let left = drop size unread in
        let fewer : length left < fuel =
          omega (arith, length-drop size unread, pos_of_take size unread taken, enough, pos) in
        let whole : (b ∷ bs) ++ left ≡ unread =
          ap (λ t. t ++ left) (sym taken) ∙ take-append-drop size unread in
        rw (hash_chunks, taken)
          (hash_chunks-eq fuel size (H.update s (b ∷ bs)) left pos fewer
            ∙ ap some (law.update-update s (b ∷ bs) left ∙ ap (H.update s) whole))
  ]

  -- Hashing a file in chunks of 8192 bytes always ends, for a content of any length (a multiple of
  -- 8192 and the empty one included), and returns the digest of the whole content in one update.
  pub hash_file-hexdigest :
      (content : List ℕ)
      → hash_file H (some content) ≡ some (H.hexdigest (H.update H.start content))
  unfolding hash_file
  hash_file-hexdigest content =
      rw (hash_chunks-eq (suc (length content)) 8192 H.start content (omega arith) (omega arith))
        refl
