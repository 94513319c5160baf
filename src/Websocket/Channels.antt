-- ===== src/Websocket/Channels.antt =====
-- Who is connected after a broadcast and after a visit.
use guardian_pi.Base.{
  ℕ, String, ◌≡◌, refl, ap, ◌∙◌, Bool, true, false, not, ◌&&◌, ◌||◌, List, [], ◌∷◌, Option, none,
  some, filter, any, all, nat_eq, lookup, insert, lookup-insert, arith, eq_refl, ◌==◌,
  filter-append, Bool-cases, All, inl, inr, Option-cases,
}
use mathlib.Core.List.{append-nil}
use guardian_pi.Websocket.{
  Connections, members, add_to, discard, connect, discard_in, disconnect, discard_all, dead_of,
  broadcast, Incoming, receive, no_object, binary, no_json, ping, other_object, alerts_websocket,
}

members-insert :
    (channel : String) (conns : List ℕ) (c : Connections)
    → members channel (insert channel conns c) ≡ conns
unfolding members
members-insert channel conns c = rw (lookup-insert channel channel conns c, eq_refl channel) refl

members-discard_in :
    (channel : String) (change : List ℕ → List ℕ) (c : Connections)
    → change [] ≡ []
    → members channel (discard_in channel change (lookup channel c) c) ≡ change (members channel c)
unfolding members
members-discard_in channel change c empty = elim (Option-cases (lookup channel c)) [
  | inl missing ↦ rw (missing, missing, empty) refl
  | inr (conns, found) ↦
      rw (found, lookup-insert channel channel (change conns) c, eq_refl channel) refl
]

filter-filter :
    (p q : ℕ → Bool) (xs : List ℕ) → filter p (filter q xs) ≡ filter (λ x. q x && p x) xs
filter-filter p q [] = refl
filter-filter p q (x ∷ xs) = ground (arith, filter-filter p q xs)

filter-ext : (p q : ℕ → Bool) (xs : List ℕ) → All (λ x. p x ≡ q x) xs → filter p xs ≡ filter q xs
filter-ext p q [] h = refl
filter-ext p q (x ∷ xs) (h, hs) = ground (arith, h, filter-ext p q xs hs)

always : (P : ℕ → Type 0) (xs : List ℕ) → ((x : ℕ) → P x) → All P xs
always P [] h = tt
always P (x ∷ xs) h = (h x, always P xs h)

-- Membership tests, and the connections that survive a list of dead ones.
is_in : List ℕ → ℕ → Bool
is_in dead c = any (nat_eq c) dead

discard_all-eq :
    (dead conns : List ℕ) → discard_all dead conns ≡ filter (λ c. not (is_in dead c)) conns
unfolding is_in
discard_all-eq [] [] = refl
discard_all-eq [] (c ∷ conns) = ap (◌∷◌ c) (discard_all-eq [] conns)
discard_all-eq (ws ∷ dead) conns =
    discard_all-eq dead (discard ws conns)
    ∙ filter-filter (λ c. not (is_in dead c)) (λ c. not (nat_eq c ws)) conns
    ∙ filter-ext _ _ conns (always _ conns (λ c. de_morgan (nat_eq c ws) (is_in dead c)))
  where
    de_morgan : (a b : Bool) → (not a && not b) ≡ not (a || b)
    de_morgan true b = refl
    de_morgan false b = refl

is_in-cons :
    (x : ℕ) (ts : List ℕ) (cs : List ℕ)
    → All (λ c. is_in ts c ≡ true) cs
    → All (λ c. is_in (x ∷ ts) c ≡ true) cs
unfolding is_in
is_in-cons x ts [] h = tt
is_in-cons x ts (c ∷ cs) (h, hs) = (ground arith, is_in-cons x ts cs hs)

is_in_self : (ts : List ℕ) → All (λ c. is_in ts c ≡ true) ts
unfolding is_in
is_in_self [] = tt
is_in_self (t ∷ ts) = (ground arith, is_in-cons t ts ts (is_in_self ts))

is_in-dead_of :
    (sends : ℕ → Bool) (ts : List ℕ) (c : ℕ)
    → is_in (dead_of sends ts) c ≡ (is_in ts c && not (sends c))
unfolding is_in
is_in-dead_of sends [] c = refl
is_in-dead_of sends (t ∷ ts) c = elim (Bool-cases (sends t)) [
  | inl takes ↦ ground (arith, takes, is_in-dead_of sends ts c)
  | inr raises ↦ ground (arith, raises, is_in-dead_of sends ts c)
]

survivors :
    (sends : ℕ → Bool) (ts : List ℕ)
    → filter (λ c. not (is_in (dead_of sends ts) c)) ts ≡ filter sends ts
survivors sends ts = filter-ext _ sends ts (each ts (is_in_self ts))
  where
    each :
        (cs : List ℕ)
        → All (λ c. is_in ts c ≡ true) cs
        → All (λ c. not (is_in (dead_of sends ts) c) ≡ sends c) cs
    each [] h = tt
    each (c ∷ cs) (h, hs) = (ground (arith, h, is_in-dead_of sends ts c), each cs hs)

discard_all-nil : (dead : List ℕ) → discard_all dead [] ≡ []
discard_all-nil [] = refl
discard_all-nil (ws ∷ dead) = discard_all-nil dead

members-other :
    (channel other : String) (change : List ℕ → List ℕ) (found : Option (List ℕ)) (c : Connections)
    → (channel == other) ≡ false
    → members other (discard_in channel change found c) ≡ members other c
unfolding members
members-other channel other change none c apart = refl
members-other channel other change (some conns) c apart =
    rw (lookup-insert channel other (change conns) c, apart) refl

-- A broadcast sends to each connection of the channel that takes the message, and afterwards the
-- channel has exactly these, in their order: the others were taken out. Other channels are as before.
pub members-broadcast :
    (sends : ℕ → Bool) (channel other : String) (c : Connections)
    → (channel == other) ≡ false
    → ((broadcast sends channel c).0 ≡ filter sends (members channel c))
      × (members channel (broadcast sends channel c).1 ≡ filter sends (members channel c))
      × (members other (broadcast sends channel c).1 ≡ members other c)
unfolding broadcast
members-broadcast sends channel other c apart =
    let ts = members channel c in
    let dead = dead_of sends ts in
    (
      refl,
      members-discard_in channel (discard_all dead) c (discard_all-nil dead)
          ∙ discard_all-eq dead ts
          ∙ survivors sends ts,
      members-other channel other (discard_all dead) (lookup channel c) c apart,
    )

discard-add_to : (ws : ℕ) (conns : List ℕ) → discard ws (add_to ws conns) ≡ discard ws conns
discard-add_to ws conns = elim (Bool-cases (any (nat_eq ws) conns)) [
  | inl there ↦ rw there refl
  | inr absent ↦
      let own : nat_eq ws ws ≡ true = ground arith in
      rw
        (
          absent,
          filter-append (λ c. not (nat_eq c ws)) conns (ws ∷ []),
          own,
          append-nil (discard ws conns),
        )
        refl
]

disconnect-connect :
    (ws : ℕ) (channel : String) (c : Connections)
    → members channel (disconnect ws channel (connect ws channel c))
      ≡ discard ws (members channel c)
unfolding disconnect connect
disconnect-connect ws channel c =
    members-discard_in channel (discard ws) (insert channel (add_to ws (members channel c)) c) refl
    ∙ ap (discard ws) (members-insert channel (add_to ws (members channel c)) c)
    ∙ discard-add_to ws (members channel c)

-- A text that `msg.get` works on, or that is no JSON at all.
abbrev pub is_answerable : Incoming → Bool
is_answerable no_object = false
is_answerable binary = false
is_answerable no_json = true
is_answerable ping = true
is_answerable other_object = true

receive-clean : (texts : List Incoming) → all is_answerable texts ≡ true → (receive texts).1 ≡ true
unfolding receive
receive-clean [] h = refl
receive-clean (no_json ∷ texts) h = receive-clean texts h
receive-clean (ping ∷ texts) h = receive-clean texts h
receive-clean (other_object ∷ texts) h = receive-clean texts h
receive-clean (no_object ∷ texts) h = cc
receive-clean (binary ∷ texts) h = cc

-- A client of the alerts is gone from the channel after its visit exactly as after a disconnection,
-- if each message that it sent was a text, and each text that was JSON was an object.
pub alerts_websocket-discard :
    (ws : ℕ) (texts : List Incoming) (c : Connections)
    → all is_answerable texts ≡ true
    → members "alerts" (alerts_websocket ws texts c).1 ≡ discard ws (members "alerts" c)
unfolding alerts_websocket
alerts_websocket-discard ws texts c objects =
    rw (receive-clean texts objects) (disconnect-connect ws "alerts" c)
