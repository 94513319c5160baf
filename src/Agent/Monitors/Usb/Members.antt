-- ===== src/Agent/Monitors/Usb/Members.antt =====
-- Which devices are in a list of devices.
use guardian_pi.Base.{
  String, ◌≡◌, refl, ap, Bool, true, false, not, ◌&&◌, ◌||◌, List, [], ◌∷◌, ◌++◌, filter, contains,
  ◌==◌, eq_iff, arith, Bool-cases, inl, inr,
}
use mathlib.Core.Path.{subst}
use guardian_pi.Agent.Monitors.Usb.{add_device}

contains-append :
    (xs ys : List String) (d : String) → contains (xs ++ ys) d ≡ (contains xs d || contains ys d)
contains-append [] ys d = refl
contains-append (x ∷ xs) ys d = ground (arith, contains-append xs ys d)

pub contains-add_device :
    (device : String) (devices : List String) (d : String)
    → contains (add_device device devices) d ≡ (contains devices d || device == d)
contains-add_device device devices d = elim (Bool-cases (contains devices device)) [
  | inl present ↦ rw present (already present)
  | inr absent ↦ rw (absent, contains-append devices (device ∷ []) d) (ground arith)
]
  where
    already :
        contains devices device ≡ true → contains devices d ≡ (contains devices d || device == d)
    already present = elim (Bool-cases (device == d)) [
      | inl same ↦
          let here : contains devices d ≡ true =
            subst (λ k. contains devices k ≡ true) ((eq_iff device d).0 same) present in
          rw (same, here) refl
      | inr other ↦ rw other (ground arith)
    ]

pub eq_comm : (s t : String) → (s == t) ≡ (t == s)
eq_comm s t = ground (arith, eq_iff s t, eq_iff t s)

pub contains-filter :
    (p : String → Bool) (xs : List String) (d : String)
    → contains (filter p xs) d ≡ (contains xs d && p d)
contains-filter p [] d = refl
contains-filter p (x ∷ xs) d = elim (Bool-cases (x == d)) [
  | inl same ↦
      let alike : p x ≡ p d = ap p ((eq_iff x d).0 same) in
      rw (same) (ground (arith, contains-filter p xs d, alike, same))
  | inr other ↦ rw other (ground (arith, contains-filter p xs d, other))
]

if_known :
    (known : List String) (device d : String) (b : Bool)
    → contains known device ≡ b
    → (device == d) ≡ true
    → contains known d ≡ b
if_known known device d b h same = subst (λ k. contains known k ≡ b) ((eq_iff device d).0 same) h

pub if_old :
    (known : List String) (device d : String) (here there : Bool)
    → contains known device ≡ true
    → (here || (not (contains known d) && there))
      ≡ (here || (not (contains known d) && (device == d || there)))
if_old known device d here there old = elim (Bool-cases (device == d)) [
  | inl same ↦ rw (same, if_known known device d true old same) refl
  | inr other ↦ rw other refl
]

pub if_new :
    (known : List String) (device d : String) (here there : Bool)
    → contains known device ≡ false
    → ((here || device == d) || (not (contains known d) && there))
      ≡ (here || (not (contains known d) && (device == d || there)))
if_new known device d here there new = elim (Bool-cases (device == d)) [
  | inl same ↦ rw (same, if_known known device d false new same) (ground arith)
  | inr other ↦ rw other (ground arith)
]
