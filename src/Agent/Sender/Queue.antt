-- ===== src/Agent/Sender/Queue.antt =====
-- What the queue keeps.
use guardian_pi.Base.{
  ℕ, zero, suc, ◌+◌, ◌-◌, ◌≤◌, ◌≡◌, refl, ap, true, false, List, [], ◌∷◌, ◌++◌, length, drop, take,
  take-append-drop, length-drop, length-append, leb, arith, if_ind,
}
use mathlib.Core.List.{append_assoc}
use guardian_pi.Agent.Sender.{
  max_queue, bounded, queue_event, Outcome, accepted, is_cancelled, finish,
}

module _ {E : Type 0} where
  drop-append : (xs ys : List E) (n : ℕ) → drop (length xs + n) (xs ++ ys) ≡ drop n ys
  drop-append [] ys n = rw zero_add refl
    where
      zero_add : 0 + n ≡ n
      zero_add = omega arith
  drop-append (x ∷ xs) ys n = rw suc_add (drop-append xs ys n)
    where
      suc_add : suc (length xs) + n ≡ suc (length xs + n)
      suc_add = omega arith

  length-take-eq : (n : ℕ) (xs : List E) → n ≤ length xs → length (take n xs) ≡ n
  length-take-eq zero xs h = refl
  length-take-eq (suc n) [] h = absurd (omega arith)
  length-take-eq (suc n) (x ∷ xs) h = ap suc (length-take-eq n xs (omega arith))

  -- Queueing leaves at most a hundred events. They are the newest ones: the events dropped stand
  -- before them in the queue, the new event is kept, and nothing is dropped up to a hundred.
  pub queue_event-newest :
      (event : E) (queue : List E)
      → (length (queue_event event queue) ≤ max_queue)
        × ((dropped : List E) × (dropped ++ queue_event event queue ≡ queue ++ event ∷ [])
            × (length dropped ≡ suc (length queue) - max_queue))
  unfolding queue_event
  queue_event-newest event queue =
      let q = queue ++ event ∷ [] in
      let size : length q ≡ suc (length queue) = omega (arith, length-append queue (event ∷ [])) in
      if_ind
        (λ r.
          (length r ≤ max_queue)
          × ((dropped : List E) × (dropped ++ r ≡ q)
              × (length dropped ≡ suc (length queue) - max_queue)))
        (leb max_queue (length q))
        (λ full.
          let n = length q - max_queue in
          let fits : n ≤ length q = omega arith in
          (
            ground (arith, length-drop n q),
            (take n q, take-append-drop n q, omega (arith, length-take-eq n q fits)),
          ))
        (λ short. (ground arith, ([], refl, ground arith)))

  -- After a flush of a hundred events that failed and was not cancelled, the next event that is queued drops every event that
  -- was queued during the flush, and of the hundred older ones only the first.
  pub queue_event-finish :
      (event : E) (queue events : List E) (outcome : Outcome)
      → accepted outcome ≡ false
      → is_cancelled outcome ≡ false
      → length events ≡ max_queue
      → queue_event event (finish outcome events queue) ≡ drop 1 (events ++ event ∷ [])
  unfolding queue_event finish
  queue_event-finish event queue events outcome failed goes_on full =
      rw (failed, goes_on) (bounded-eq)
    where
      q : List E
      q = (queue ++ events) ++ event ∷ []

      size : length ((queue ++ events) ++ event ∷ []) ≡ length queue + suc max_queue
      size = omega (arith, length-append (queue ++ events) (event ∷ []), length-append queue events)

      excess : length queue + suc max_queue - max_queue ≡ length queue + 1
      excess = omega arith

      is_full : leb max_queue (length queue + suc max_queue) ≡ true
      is_full = ground arith

      bounded-eq : bounded ((queue ++ events) ++ event ∷ []) ≡ drop 1 (events ++ event ∷ [])
      bounded-eq =
          rw (size, is_full, excess, append_assoc queue events (event ∷ []))
            (drop-append queue (events ++ event ∷ []) 1)
