-- ===== src/Agent/Monitors/Usb/Told.antt =====
-- Which connections and disconnections the events of a check tell.
use guardian_pi.Base.{
  String, ◌≡◌, refl, ap, ◌∙◌, Bool, false, not, ◌&&◌, ◌||◌, List, [], ◌∷◌, ◌++◌, Option, map,
  filter, contains, ◌==◌, arith, Bool-cases, inl, inr,
}
use guardian_pi.Agent.Monitors.Usb.{
  Partition, Event, usb_connected, usb_disconnected, add_device, is_watched, watch, disconnected,
  check,
}
use guardian_pi.Agent.Monitors.Usb.Members.{contains-filter, if_old, if_new}
use guardian_pi.Agent.Monitors.Usb.Changes.{
  replay, replay-check, watched, watch-passed, watch-old, watch-new, contains-watched,
  contains-watch,
}

-- Whether some event tells that the device was connected, or that it was disconnected.
abbrev pub tells_connection : String → List Event → Bool
tells_connection d [] = false
tells_connection d (usb_connected device title details ∷ events) =
    device == d || tells_connection d events
tells_connection d (usb_disconnected device title ∷ events) = tells_connection d events

abbrev pub tells_disconnection : String → List Event → Bool
tells_disconnection d [] = false
tells_disconnection d (usb_connected device title details ∷ events) = tells_disconnection d events
tells_disconnection d (usb_disconnected device title ∷ events) =
    device == d || tells_disconnection d events

or_assoc : (a b c : Bool) → ((a || b) || c) ≡ (a || (b || c))
or_assoc a b c = ground arith

tells_connection-append :
    (d : String) (xs ys : List Event)
    → tells_connection d (xs ++ ys) ≡ (tells_connection d xs || tells_connection d ys)
tells_connection-append d [] ys = refl
tells_connection-append d (usb_connected device title details ∷ xs) ys =
    rw (tells_connection-append d xs ys, or_assoc) refl
tells_connection-append d (usb_disconnected device title ∷ xs) ys = tells_connection-append d xs ys

tells_disconnection-append :
    (d : String) (xs ys : List Event)
    → tells_disconnection d (xs ++ ys) ≡ (tells_disconnection d xs || tells_disconnection d ys)
tells_disconnection-append d [] ys = refl
tells_disconnection-append d (usb_connected device title details ∷ xs) ys =
    tells_disconnection-append d xs ys
tells_disconnection-append d (usb_disconnected device title ∷ xs) ys =
    rw (tells_disconnection-append d xs ys, or_assoc) refl

module _ (lower : String → String) (total_gb : String → Option String) where
  tells_connection-disconnected :
      (d : String) (gone : List String)
      → tells_connection d (map (disconnected lower total_gb) gone) ≡ false
  tells_connection-disconnected d [] = refl
  tells_connection-disconnected d (g ∷ gone) = tells_connection-disconnected d gone

  tells_disconnection-disconnected :
      (d : String) (gone : List String)
      → tells_disconnection d (map (disconnected lower total_gb) gone) ≡ contains gone d
  tells_disconnection-disconnected d [] = refl
  tells_disconnection-disconnected d (g ∷ gone) =
      ground (arith, tells_disconnection-disconnected d gone)

  tells_connection-watch :
      (known : List String) (partitions : List Partition) (current : List String) (d : String)
      → tells_connection d (watch lower total_gb known partitions current).0
        ≡ (not (contains known d) && contains (watched lower total_gb partitions) d)
  unfolding watch watched
  tells_connection-watch known [] current d = ground arith
  tells_connection-watch known (p ∷ partitions) current d =
      elim (Bool-cases (is_watched lower total_gb p)) [
        | inl watching ↦ elim (Bool-cases (contains known p.device)) [
          | inl old ↦
              ap (λ w. tells_connection d w.0)
                (watch-old lower total_gb known p partitions current watching old)
              ∙ tells_connection-watch known partitions (add_device p.device current) d
              ∙ rw (contains-watched lower total_gb p partitions d, watching)
                  (if_old known p.device d false _ old)
          | inr new ↦
              ap (λ w. tells_connection d w.0)
                (watch-new lower total_gb known p partitions current watching new)
              ∙ ap (λ b. p.device == d || b)
                  (tells_connection-watch known partitions (add_device p.device current) d)
              ∙ rw (contains-watched lower total_gb p partitions d, watching)
                  (if_new known p.device d false _ new)
        ]
        | inr passed ↦
            ap (λ w. tells_connection d w.0)
              (watch-passed lower total_gb known p partitions current passed)
            ∙ tells_connection-watch known partitions current d
            ∙ rw (contains-watched lower total_gb p partitions d, passed) refl
      ]

  tells_disconnection-watch :
      (known : List String) (partitions : List Partition) (current : List String) (d : String)
      → tells_disconnection d (watch lower total_gb known partitions current).0 ≡ false
  unfolding watch
  tells_disconnection-watch known [] current d = refl
  tells_disconnection-watch known (p ∷ partitions) current d =
      elim (Bool-cases (is_watched lower total_gb p)) [
        | inl watching ↦ elim (Bool-cases (contains known p.device)) [
          | inl old ↦
              ap (λ w. tells_disconnection d w.0)
                (watch-old lower total_gb known p partitions current watching old)
              ∙ tells_disconnection-watch known partitions (add_device p.device current) d
          | inr new ↦
              ap (λ w. tells_disconnection d w.0)
                (watch-new lower total_gb known p partitions current watching new)
              ∙ tells_disconnection-watch known partitions (add_device p.device current) d
        ]
        | inr passed ↦
            ap (λ w. tells_disconnection d w.0)
              (watch-passed lower total_gb known p partitions current passed)
            ∙ tells_disconnection-watch known partitions current d
      ]

  -- For each device, the events of a check tell a connection exactly if the device was not known and
  -- is afterwards, and a disconnection exactly if it was known and no longer is; and whoever adds and
  -- removes the devices of the events in turn, starting from the devices that were known, ends with
  -- those that the monitor knows afterwards.
  pub check-tells :
      (partitions : List Partition) (known : List String) (d : String)
      → (tells_connection d (check lower total_gb partitions known).0
          ≡ (not (contains known d) && contains (check lower total_gb partitions known).1 d))
        × (tells_disconnection d (check lower total_gb partitions known).0
            ≡ (contains known d && not (contains (check lower total_gb partitions known).1 d)))
        × (contains (replay (check lower total_gb partitions known).0 known) d
            ≡ contains (check lower total_gb partitions known).1 d)
  unfolding check
  check-tells partitions known d =
      let (events, current) = watch lower total_gb known partitions [] in
      let gone = filter (λ k. not (contains current k)) known in
      let told = map (disconnected lower total_gb) gone in
      (
        tells_connection-append d events told
            ∙ rw
                (
                  tells_connection-watch known partitions [] d,
                  tells_connection-disconnected d gone,
                  contains-watch lower total_gb known partitions [] d,
                )
                (ground arith),
        tells_disconnection-append d events told
            ∙ rw
                (
                  tells_disconnection-watch known partitions [] d,
                  tells_disconnection-disconnected d gone,
                )
                (contains-filter (λ k. not (contains current k)) known d),
        replay-check lower total_gb partitions known d,
      )
