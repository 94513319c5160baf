-- ===== src/Agent/Monitors/Usb/Changes.antt =====
-- What the events of a check tell.
use guardian_pi.Base.{
  String, ◌≡◌, refl, ap, ◌∙◌, true, false, not, ◌&&◌, ◌||◌, List, [], ◌∷◌, ◌++◌, Option, map,
  filter, contains, ◌==◌, arith, if◌then◌else◌, Bool-cases, inl, inr,
}
use guardian_pi.Agent.Monitors.Usb.{
  Partition, Event, usb_connected, usb_disconnected, add_device, is_watched, connected, watch,
  disconnected, check,
}
use guardian_pi.Agent.Monitors.Usb.Members.{
  contains-add_device, eq_comm, contains-filter, if_old, if_new,
}

-- The devices that one who reads the events, in order, takes to be there.
unfoldable pub replay : List Event → List String → List String
replay [] devices = devices
replay (usb_connected device title details ∷ events) devices =
    replay events (add_device device devices)
replay (usb_disconnected device title ∷ events) devices =
    replay events (filter (λ d. not (d == device)) devices)

replay-append :
    (xs ys : List Event) (devices : List String)
    → replay (xs ++ ys) devices ≡ replay ys (replay xs devices)
unfolding replay
replay-append [] ys devices = refl
replay-append (usb_connected device title details ∷ xs) ys devices =
    replay-append xs ys (add_device device devices)
replay-append (usb_disconnected device title ∷ xs) ys devices =
    replay-append xs ys (filter (λ d. not (d == device)) devices)

module _ (lower : String → String) (total_gb : String → Option String) where
  replay-disconnected :
      (gone devices : List String) (d : String)
      → contains (replay (map (disconnected lower total_gb) gone) devices) d
        ≡ (contains devices d && not (contains gone d))
  unfolding replay
  replay-disconnected [] devices d = ground arith
  replay-disconnected (g ∷ gone) devices d =
      replay-disconnected gone (filter (λ k. not (k == g)) devices) d
      ∙ rw (contains-filter (λ k. not (k == g)) devices d, eq_comm d g) (ground arith)

  -- The devices of the partitions that are watched.
  unfoldable pub watched : List Partition → List String
  watched [] = []
  watched (p ∷ partitions) =
      let rest = watched partitions in if is_watched lower total_gb p then p.device ∷ rest else rest

  watch-cons :
      (known : List String) (p : Partition) (partitions : List Partition) (current : List String)
      → watch lower total_gb known (p ∷ partitions) current ≡ (
          if is_watched lower total_gb p
          then (if contains known p.device
              then watch lower total_gb known partitions (add_device p.device current)
              else (
                connected lower total_gb p
                    ∷ (watch lower total_gb known partitions (add_device p.device current)).0,
                (watch lower total_gb known partitions (add_device p.device current)).1,
              ))
          else watch lower total_gb known partitions current)
  unfolding watch
  watch-cons known p partitions current = refl

  pub contains-watched :
      (p : Partition) (partitions : List Partition) (d : String)
      → contains (watched (p ∷ partitions)) d
        ≡ ((is_watched lower total_gb p && p.device == d) || contains (watched partitions) d)
  unfolding watched
  contains-watched p partitions d = elim (Bool-cases (is_watched lower total_gb p)) [
    | inl watching ↦ rw watching refl
    | inr passed ↦ rw passed refl
  ]

  pub watch-passed :
      (known : List String) (p : Partition) (partitions : List Partition) (current : List String)
      → is_watched lower total_gb p ≡ false
      → watch lower total_gb known (p ∷ partitions) current
        ≡ watch lower total_gb known partitions current
  watch-passed known p partitions current passed =
      watch-cons known p partitions current ∙ rw passed refl

  pub watch-old :
      (known : List String) (p : Partition) (partitions : List Partition) (current : List String)
      → is_watched lower total_gb p ≡ true
      → contains known p.device ≡ true
      → watch lower total_gb known (p ∷ partitions) current
        ≡ watch lower total_gb known partitions (add_device p.device current)
  watch-old known p partitions current watching old =
      watch-cons known p partitions current ∙ rw (watching, old) refl

  pub watch-new :
      (known : List String) (p : Partition) (partitions : List Partition) (current : List String)
      → is_watched lower total_gb p ≡ true
      → contains known p.device ≡ false
      → watch lower total_gb known (p ∷ partitions) current ≡ (
        connected lower total_gb p
            ∷ (watch lower total_gb known partitions (add_device p.device current)).0,
        (watch lower total_gb known partitions (add_device p.device current)).1,
      )
  watch-new known p partitions current watching new =
      watch-cons known p partitions current ∙ rw (watching, new) refl

  -- Whether the device is known does not change which devices are there.
  current-watch :
      (known : List String) (p : Partition) (partitions : List Partition) (current : List String)
      → is_watched lower total_gb p ≡ true
      → (watch lower total_gb known (p ∷ partitions) current).1
        ≡ (watch lower total_gb known partitions (add_device p.device current)).1
  current-watch known p partitions current watching = elim (Bool-cases (contains known p.device)) [
    | inl old ↦ ap (λ w. w.1) (watch-old known p partitions current watching old)
    | inr new ↦ ap (λ w. w.1) (watch-new known p partitions current watching new)
  ]

  pub contains-watch :
      (known : List String) (partitions : List Partition) (current : List String) (d : String)
      → contains (watch lower total_gb known partitions current).1 d
        ≡ (contains current d || contains (watched partitions) d)
  unfolding watch watched
  contains-watch known [] current d = ground arith
  contains-watch known (p ∷ partitions) current d =
      elim (Bool-cases (is_watched lower total_gb p)) [
        | inl watching ↦
            ap (λ c. contains c d) (current-watch known p partitions current watching)
            ∙ contains-watch known partitions (add_device p.device current) d
            ∙ rw (contains-watched p partitions d, contains-add_device p.device current d, watching)
                (ground arith)
        | inr passed ↦
            ap (λ w. contains w.1 d) (watch-passed known p partitions current passed)
            ∙ contains-watch known partitions current d
            ∙ rw (contains-watched p partitions d, passed) refl
      ]

  replay-watch :
      (known : List String) (partitions : List Partition) (current devices : List String)
      (d : String)
      → contains (replay (watch lower total_gb known partitions current).0 devices) d
        ≡ (contains devices d || (not (contains known d) && contains (watched partitions) d))
  unfolding watch watched replay
  replay-watch known [] current devices d = ground arith
  replay-watch known (p ∷ partitions) current devices d =
      elim (Bool-cases (is_watched lower total_gb p)) [
        | inl watching ↦ elim (Bool-cases (contains known p.device)) [
          | inl old ↦
              ap (λ w. contains (replay w.0 devices) d)
                (watch-old known p partitions current watching old)
              ∙ replay-watch known partitions (add_device p.device current) devices d
              ∙ rw (contains-watched p partitions d, watching) (if_old known p.device d _ _ old)
          | inr new ↦
              ap (λ w. contains (replay w.0 devices) d)
                (watch-new known p partitions current watching new)
              ∙ replay-watch known partitions (add_device p.device current)
                  (add_device p.device devices) d
              ∙ rw
                  (
                    contains-watched p partitions d,
                    contains-add_device p.device devices d,
                    watching,
                  )
                  (if_new known p.device d _ _ new)
        ]
        | inr passed ↦
            ap (λ w. contains (replay w.0 devices) d)
              (watch-passed known p partitions current passed)
            ∙ replay-watch known partitions current devices d
            ∙ rw (contains-watched p partitions d, passed) refl
      ]

  -- Whoever reads the events of a check and adds and removes the devices in turn, starting from the
  -- devices that were known, ends with the devices that the monitor knows afterwards.
  pub replay-check :
      (partitions : List Partition) (known : List String) (d : String)
      → contains (replay (check lower total_gb partitions known).0 known) d
        ≡ contains (check lower total_gb partitions known).1 d
  unfolding check
  replay-check partitions known d =
      let (events, current) = watch lower total_gb known partitions [] in
      let gone = filter (λ k. not (contains current k)) known in
      ap (λ ds. contains ds d) (replay-append events (map (disconnected lower total_gb) gone) known)
      ∙ replay-disconnected gone (replay events known) d
      ∙ rw
          (
            replay-watch known partitions [] known d,
            contains-filter (λ k. not (contains current k)) known d,
            contains-watch known partitions [] d,
          )
          (ground arith)
