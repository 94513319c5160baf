-- ===== src/Agent/Monitors/Network/History.antt =====
-- What the monitor remembers of the numbers of connections.
use guardian_pi.Base.{
  ℕ, zero, suc, ◌+◌, ◌-◌, ◌≤◌, ◌≡◌, refl, sym, ap, ◌∙◌, Bool, List, [], ◌∷◌, ◌++◌, Option, none,
  some, length, drop, length-append, length-drop, drop-append_le, ltb, arith, Bool-cases, inl, inr,
}
use mathlib.Core.List.{append_assoc, append-nil}
use guardian_pi.Agent.Sender.{last}
use guardian_pi.Agent.Monitors.Network.{
  Connection, Monitor, new_monitor, history_max, remember, detect_anomalies, observe,
}

drop-nil : {A : Type 0} (n : ℕ) → drop {A = A} n [] ≡ []
drop-nil zero = refl
drop-nil (suc n) = refl

drop-add : {A : Type 0} (m n : ℕ) (xs : List A) → drop m (drop n xs) ≡ drop (n + m) xs
drop-add m zero xs = ap (λ k. drop k xs) (zero_add m)
  where
    zero_add : (m : ℕ) → m ≡ 0 + m
    zero_add m = omega arith
drop-add m (suc n) [] = drop-nil m ∙ sym (drop-nil (suc n + m))
drop-add m (suc n) (x ∷ xs) = rw (suc_add) (drop-add m n xs)
  where
    suc_add : suc n + m ≡ suc (n + m)
    suc_add = omega arith

last-last-append :
    {A : Type 0} (n : ℕ) (xs ys : List A) → last n (last n xs ++ ys) ≡ last n (xs ++ ys)
last-last-append n xs ys =
    let k = length xs - n in
    let small : k ≤ length xs = omega arith in
    let size = length-append (drop k xs) ys in
    let rest = length-drop k xs in
    let whole = length-append xs ys in
    let total : k + (length (drop k xs ++ ys) - n) ≡ length (xs ++ ys) - n =
      omega (arith, size, rest, whole) in
    ap (drop (length (drop k xs ++ ys) - n)) (sym (drop-append_le k xs ys small))
    ∙ drop-add (length (drop k xs ++ ys) - n) k (xs ++ ys)
    ∙ ap (λ j. drop j (xs ++ ys)) total

last_of_length-le : {A : Type 0} (n : ℕ) (xs : List A) → length xs ≤ n → last n xs ≡ xs
last_of_length-le n xs short = ap (λ k. drop k xs) all_fit
  where
    all_fit : length xs - n ≡ 0
    all_fit = omega (arith, short)

length-last-le : {A : Type 0} (n : ℕ) (xs : List A) → length (last n xs) ≤ n
length-last-le n xs = omega (arith, length-drop (length xs - n) xs)

remember-eq-last :
    (count : ℕ) (history : List ℕ)
    → length history ≤ history_max
    → remember count history ≡ last history_max (history ++ count ∷ [])
unfolding remember
remember-eq-last count history short =
    let longer = history ++ count ∷ [] in
    let size = length-append history (count ∷ []) in
    elim (Bool-cases (ltb history_max (length longer))) [
      | inl full ↦
          let one : 1 ≡ length longer - history_max = ground (arith, full, size, short) in
          rw full (ap (λ k. drop k longer) one)
      | inr fits ↦
          let small : length longer ≤ history_max = ground (arith, fits) in
          rw fits (sym (last_of_length-le history_max longer small))
    ]

-- The numbers of the observations that were not denied.
abbrev pub counts : List (Option (List Connection)) → List ℕ
counts [] = []
counts (none ∷ later) = counts later
counts (some connections ∷ later) = length connections ∷ counts later

observe-eq-last :
    (seen : List (Option (List Connection))) (triples : ℕ → List ℕ → Bool) (m : Monitor)
    → length m.connection_history ≤ history_max
    → (observe triples seen m).connection_history
      ≡ last history_max (m.connection_history ++ counts seen)
unfolding observe detect_anomalies
observe-eq-last [] triples m short = sym (
    last_of_length-le history_max (m.connection_history ++ [])
      (omega (arith, short, ap length (append-nil m.connection_history)))
    ∙ append-nil m.connection_history)
observe-eq-last (none ∷ later) triples m short = observe-eq-last later triples m short
observe-eq-last (some connections ∷ later) triples m short =
    let count = length connections in
    let longer = m.connection_history ++ count ∷ [] in
    let now = remember-eq-last count m.connection_history short in
    let small : length (remember count m.connection_history) ≤ history_max =
      omega (arith, ap length now, length-last-le history_max longer) in
    observe-eq-last later triples (detect_anomalies triples (some connections) m).1 small
    ∙ ap (λ h. last history_max (h ++ counts later)) now
    ∙ last-last-append history_max longer (counts later)
    ∙ ap (last history_max) (append_assoc m.connection_history (count ∷ []) (counts later))

-- After any observations, some of them denied, the history is the numbers of connections of the last
-- sixty observations that were not denied, in order, or of all if they are fewer.
pub observe_history :
    (seen : List (Option (List Connection))) (triples : ℕ → List ℕ → Bool)
    → ((observe triples seen new_monitor).connection_history ≡ last history_max (counts seen))
      × (length (observe triples seen new_monitor).connection_history ≤ history_max)
observe_history seen triples =
    let e = observe-eq-last seen triples new_monitor (omega arith) in
    (e, omega (arith, ap length e, length-drop (length (counts seen) - history_max) (counts seen)))
