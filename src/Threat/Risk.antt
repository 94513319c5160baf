-- ===== src/Threat/Risk.antt =====
-- The bounds of the two scores, and what they say.
use guardian_pi.Base.{
  ℕ, ◌+◌, ◌≤◌, ◌≡◌, refl, sym, ap, Bool, true, false, ◌&&◌, List, [], ◌∷◌, ◌++◌, length, filter,
  any, leb, if◌then◌else◌, arith, inl, inr, ◌⊎◌, if_ind, filter-append, ◌||◌, ◌∙◌, length-filter-le,
}
use mathlib.Core.Path.{subst}
use guardian_pi.Db.{Uuid}
use guardian_pi.Models.{Alert, Device}
use guardian_pi.Threat.{
  total_score, minimum, risk_level, is_open, has_severity, risk_of, calculate_device_risk_score,
  has_status, is_open_critical, posture_score, posture_status, get_security_posture,
}

minimum-le : (n : ℕ) → minimum 100 n ≤ 100
minimum-le n = ground arith

minimum_mono : (m n : ℕ) → m ≤ n → minimum 100 m ≤ minimum 100 n
minimum_mono m n h = ground arith

total_score-append : (xs ys : List Alert) → total_score (xs ++ ys) ≡ total_score xs + total_score ys
total_score-append [] ys = omega arith
total_score-append (x ∷ xs) ys = omega (arith, total_score-append xs ys)

-- The score by the formula alone: the early answer without open alerts agrees with it.
risk_of-score :
    (alerts : List Alert) → (risk_of alerts).risk_score ≡ minimum 100 (total_score alerts)
risk_of-score [] = refl
risk_of-score (a ∷ alerts) = refl

risk_of-level :
    (alerts : List Alert) → (risk_of alerts).risk_level ≡ risk_level (risk_of alerts).risk_score
risk_of-level [] = refl
risk_of-level (a ∷ alerts) = refl

-- A device's risk is at most 100, its level is the one of its score, whether or not it has open
-- alerts, and further alerts in the table never lower the score.
pub calculate_device_risk_score_bounds :
    (alerts more : List Alert) (device_id : Uuid)
    → ((calculate_device_risk_score alerts device_id).risk_score ≤ 100)
      × ((calculate_device_risk_score alerts device_id).risk_level
          ≡ risk_level (calculate_device_risk_score alerts device_id).risk_score)
      × ((calculate_device_risk_score alerts device_id).risk_score
          ≤ (calculate_device_risk_score (alerts ++ more) device_id).risk_score)
unfolding calculate_device_risk_score
calculate_device_risk_score_bounds alerts more device_id =
    let xs = filter (is_open device_id) alerts in
    let ys = filter (is_open device_id) more in
    let grown : total_score xs ≤ total_score (xs ++ ys) = omega (arith, total_score-append xs ys) in
    (
      subst (λ n. n ≤ 100) (sym (risk_of-score xs)) (minimum-le (total_score xs)),
      risk_of-level xs,
      rw (filter-append (is_open device_id) alerts more, risk_of-score xs, risk_of-score (xs ++ ys))
          (minimum_mono (total_score xs) (total_score (xs ++ ys)) grown),
    )

total_score-critical :
    (device_id : Uuid) (alerts : List Alert)
    → any (λ a. is_open device_id a && has_severity "critical" a) alerts ≡ true
    → 100 ≤ total_score (filter (is_open device_id) alerts)
total_score-critical device_id [] h = cc
total_score-critical device_id (a ∷ alerts) h =
    split (is_open device_id a) (has_severity "critical" a) refl h
      (total_score-critical device_id alerts)
  where
    split :
        (opened critical : Bool)
        → has_severity "critical" a ≡ critical
        → (opened && critical || any (λ a. is_open device_id a && has_severity "critical" a) alerts)
          ≡ true
        → (any (λ a. is_open device_id a && has_severity "critical" a) alerts ≡ true
            → 100 ≤ total_score (filter (is_open device_id) alerts))
        → 100
          ≤ total_score (
              if opened
              then a ∷ filter (is_open device_id) alerts
              else filter (is_open device_id) alerts)
    split true true c h later = rw c (omega arith)
    split true false c h later = let l = later h in omega arith
    split false critical c h later = later h

-- One open alert of severity critical puts the device at the top of the scale.
pub calculate_device_risk_score-critical :
    (alerts : List Alert) (device_id : Uuid)
    → any (λ a. is_open device_id a && has_severity "critical" a) alerts ≡ true
    → ((calculate_device_risk_score alerts device_id).risk_score ≡ 100)
      × ((calculate_device_risk_score alerts device_id).risk_level ≡ "critical")
unfolding calculate_device_risk_score
calculate_device_risk_score-critical alerts device_id h =
    let xs = filter (is_open device_id) alerts in
    let full : minimum 100 (total_score xs) ≡ 100 =
      ground (arith, total_score-critical device_id alerts h) in
    let score = risk_of-score xs ∙ full in (score, risk_of-level xs ∙ ap risk_level score)

length-filter-pos :
    {A : Type 0} (p : A → Bool) (xs : List A) → any p xs ≡ true → 1 ≤ length (filter p xs)
length-filter-pos p [] h = cc
length-filter-pos p (x ∷ xs) h = split (p x) h (length-filter-pos p xs)
  where
    split :
        (b : Bool)
        → (b || any p xs) ≡ true
        → (any p xs ≡ true → 1 ≤ length (filter p xs))
        → 1 ≤ length (if b then x ∷ filter p xs else filter p xs)
    split true h later = omega arith
    split false h later = later h

posture_score-low :
    (total compromised open_critical : ℕ)
    → 1 ≤ total
    → 1 ≤ compromised
    → posture_score total compromised open_critical ≤ 70
posture_score-low total compromised open_critical t c = ground arith

posture_status-low :
    (n : ℕ) → n ≤ 70 → (posture_status n ≡ "degraded") ⊎ (posture_status n ≡ "critical")
posture_status-low n h =
    if_ind (λ t. (t ≡ "degraded") ⊎ (t ≡ "critical")) (leb 80 n) (λ high. absurd (ground arith))
      λ _.
        if_ind (λ t. (t ≡ "degraded") ⊎ (t ≡ "critical")) (leb 50 n) (λ _. inl refl) (λ _. inr refl)

-- While a device is compromised, the posture is at most 70 and is not reported as healthy.
pub get_security_posture-compromised :
    (devices : List Device) (alerts : List Alert)
    → any (has_status "compromised") devices ≡ true
    → ((get_security_posture devices alerts).posture_score ≤ 70)
      × (((get_security_posture devices alerts).status ≡ "degraded")
          ⊎ ((get_security_posture devices alerts).status ≡ "critical"))
unfolding get_security_posture
get_security_posture-compromised devices alerts h =
    let some_compromised = length-filter-pos (has_status "compromised") devices h in
    let some_devices : 1 ≤ length devices =
      omega (arith, length-filter-le (has_status "compromised") devices) in
    let low =
      posture_score-low (length devices) (length (filter (has_status "compromised") devices))
        (length (filter is_open_critical alerts)) some_devices some_compromised in
    (low, posture_status-low _ low)
