-- ===== src/EventBus/Relay.antt =====
-- What is published on the bus reaches those who read what NATS has stored.
use guardian_pi.Base.{
  sym, ℕ, String, ◌≡◌, refl, ap, ◌∙◌, Bool, true, false, List, [], ◌∷◌, ◌++◌, Option, none, some,
  ◌⊎◌, inl, inr, Bool-cases, if◌then◌else◌,
}
use mathlib.Core.Path.{subst}
use guardian_pi.EventBus.{
  Nats, Json, Call, alert, telemetry, device_status, event_of, handler, Bus, new_bus, add_streams,
  streams, opened, connect, send, publish, publish_alert, publish_telemetry, publish_device_status,
  publish_call, publish_all,
}

-- What NATS documents of the messages that it ever stored, in order, those included that the limits
-- of a stream have discarded since: a publication that returns has stored its message, one that raises
-- may have; the other calls store none.
pub record IsNats (N : Nats) : Type 0 where
  pub stored : N.Server → List (String × String)
  pub stored-connecting : (url : String) (s : N.Server) → stored (N.connecting url s).1 ≡ stored s
  pub stored-add_stream :
      (c : N.Client) (name : String) (subjects : List String) (age bytes : ℕ) (s : N.Server)
      → stored (N.add_stream c name subjects age bytes s).1 ≡ stored s
  pub stored-publish :
      (c : N.Client) (subject payload : String) (s : N.Server)
      → (N.publish c subject payload s).0 ≡ true
      → stored (N.publish c subject payload s).1 ≡ stored s ++ (subject, payload) ∷ []
  pub stored-raised :
      (c : N.Client) (subject payload : String) (s : N.Server)
      → (N.publish c subject payload s).0 ≡ false
      → (stored (N.publish c subject payload s).1 ≡ stored s)
        ⊎ (stored (N.publish c subject payload s).1 ≡ stored s ++ (subject, payload) ∷ [])

-- What json documents of such dicts.
pub record IsJson (J : Json) : Type 0 where
  pub loads-dumps :
      (content : J.Dict) (payload : String)
      → J.dumps content ≡ some payload
      → J.loads payload ≡ some content

module _ (N : Nats) (J : Json) where
  -- A message whose handling is the callback's of the dict that was published.
  abbrev pub IsRead : Call J → String → Type 1
  IsRead call payload =
      (S : Type 0) (callback : J.Dict → S → Bool × S) (u : S)
      → handler J callback payload u ≡ callback (event_of J call).content u

  publish_call-eq :
      (bus : Bus N) (call : Call J) (s : N.Server)
      → publish_call N J bus call s ≡ publish N J bus.js (event_of J call) s
  unfolding publish_alert publish_telemetry publish_device_status
  publish_call-eq bus (alert alert_data now) s = refl
  publish_call-eq bus (telemetry device_id telemetry_data now) s = refl
  publish_call-eq bus (device_status device_id status now) s = refl

  module _ (nats : IsNats N) (json : IsJson J) where
    dumps-IsRead :
        (call : Call J) (payload : String)
        → J.dumps (event_of J call).content ≡ some payload
        → IsRead call payload
    unfolding handler
    dumps-IsRead call payload h S callback u = rw (json.loads-dumps _ payload h) refl

    -- What the publication of one event does to the server: nothing, as its dict is no JSON; or its
    -- message is stored, on its subject; or this very publication raised, and it is not.
    abbrev pub IsPublished : N.Client → Call J → N.Server → N.Server → Type 1
    IsPublished c call s t =
        ((J.dumps (event_of J call).content ≡ none) × (t ≡ s))
        ⊎ ((payload : String) × (IsRead call payload
              × ((t ≡ (N.publish c (event_of J call).subject payload s).1)
                  × ((nats.stored t ≡ nats.stored s ++ ((event_of J call).subject, payload) ∷ [])
                      ⊎ (((N.publish c (event_of J call).subject payload s).0 ≡ false)
                          × (nats.stored t ≡ nats.stored s))))))

    -- The servers before and after the calls.
    pub data Relayed (c : N.Client) : List (Call J) → N.Server → N.Server → Type 1 where
      nothing : {s : N.Server} → Relayed c [] s s
      one_more :
          {call : Call J} {calls : List (Call J)} {s t u : N.Server}
          → IsPublished c call s t
          → Relayed c calls t u
          → Relayed c (call ∷ calls) s u

    publish-stored :
        (c : N.Client) (subject payload : String) (s : N.Server)
        → (nats.stored (N.publish c subject payload s).1 ≡ nats.stored s ++ (subject, payload) ∷ [])
          ⊎ (((N.publish c subject payload s).0 ≡ false)
              × (nats.stored (N.publish c subject payload s).1 ≡ nats.stored s))
    publish-stored c subject payload s = elim (Bool-cases (N.publish c subject payload s).0) [
      | inl returned ↦ inl (nats.stored-publish c subject payload s returned)
      | inr raised ↦ elim (nats.stored-raised c subject payload s raised) [
        | inl same ↦ inr (raised, same)
        | inr stored ↦ inl stored
      ]
    ]

    send-IsPublished :
        (c : N.Client) (call : Call J) (s : N.Server) (o : Option String)
        → J.dumps (event_of J call).content ≡ o
        → IsPublished c call s (send N J c (event_of J call).subject o s)
    unfolding send
    send-IsPublished c call s none h = inl (h, refl)
    send-IsPublished c call s (some payload) h = inr (
      payload,
      (dumps-IsRead call payload h, (refl, publish-stored c (event_of J call).subject payload s)),
    )

    publish_call-IsPublished :
        (bus : Bus N) (c : N.Client) (call : Call J) (s : N.Server)
        → bus.js ≡ some c
        → IsPublished c call s (publish_call N J bus call s)
    unfolding publish
    publish_call-IsPublished bus c call s h =
        subst (IsPublished c call s)
          (sym (publish_call-eq bus call s ∙ ap (λ o. publish N J o (event_of J call) s) h))
          (send-IsPublished c call s (J.dumps (event_of J call).content) refl)

    publish_all-Relayed :
        (bus : Bus N) (c : N.Client) (calls : List (Call J)) (s : N.Server)
        → bus.js ≡ some c
        → Relayed c calls s (publish_all N J bus calls s)
    unfolding publish_all
    publish_all-Relayed bus c [] s h = nothing
    publish_all-Relayed bus c (call ∷ calls) s h =
        one_more (publish_call-IsPublished bus c call s h)
          (publish_all-Relayed bus c calls (publish_call N J bus call s) h)

    publish_all-none :
        (bus : Bus N) (calls : List (Call J)) (s : N.Server)
        → bus.js ≡ none
        → publish_all N J bus calls s ≡ s
    unfolding publish_all publish
    publish_all-none bus [] s h = refl
    publish_all-none bus (call ∷ calls) s h =
        publish_all-none bus calls (publish_call N J bus call s) h
        ∙ publish_call-eq bus call s
        ∙ ap (λ o. publish N J o (event_of J call) s) h

    add_streams-stored :
        (c : N.Client) (wanted : List (String × List String)) (s : N.Server)
        → nats.stored (add_streams N c wanted s) ≡ nats.stored s
    unfolding add_streams
    add_streams-stored c [] s = refl
    add_streams-stored c ((name, subjects) ∷ wanted) s =
        add_streams-stored c wanted _ ∙ nats.stored-add_stream c name subjects _ _ s

    -- What a run of the bus comes to: without a connection the server is left alone, with one the
    -- messages are relayed.
    abbrev pub Outcome : List (Call J) → N.Server → Bus N × N.Server → Type 1
    Outcome calls s run =
        (nats.stored run.1 ≡ nats.stored s)
        × (((run.0.js ≡ none) × (publish_all N J run.0 calls run.1 ≡ run.1))
            ⊎ ((c : N.Client) × ((run.0.js ≡ some c)
                  × Relayed c calls run.1 (publish_all N J run.0 calls run.1))))

    opened-Outcome :
        (calls : List (Call J)) (s t : N.Server) (o : Option N.Client)
        → nats.stored t ≡ nats.stored s
        → Outcome calls s (opened N (new_bus N) (o, t))
    opened-Outcome calls s t none h = (h, inl (refl, publish_all-none (new_bus N) calls t refl))
    opened-Outcome calls s t (some c) h = (
      add_streams-stored c streams t ∙ h,
      inr (c, (refl, publish_all-Relayed (record { nc = some c; js = some c }) c calls _ refl)),
    )

    connected-Outcome :
        (calls : List (Call J)) (s : N.Server) (installed : Bool)
        (found : Option N.Client × N.Server)
        → nats.stored found.1 ≡ nats.stored s
        → Outcome calls s (if installed then opened N (new_bus N) found else (new_bus N, s))
    connected-Outcome calls s true (o, t) h = opened-Outcome calls s t o h
    connected-Outcome calls s false found h =
        (refl, inl (refl, publish_all-none (new_bus N) calls s refl))

    -- A new bus connects and publishes alerts, telemetry and statuses in any order. Connecting stores
    -- no message. If it fails, nothing that is published reaches the server. If it succeeds, the events
    -- are published one after the other, each on the server that the one before left: its message is
    -- stored behind those stored until then, on the event's subject, unless its dict is no JSON or NATS
    -- raises an exception at this publication; later events are published all the same. A subscriber's
    -- handler does with the message what its callback does with the published dict.
    pub connect-Outcome :
        (url : String) (s : N.Server) (calls : List (Call J))
        → Outcome calls s (connect N url (new_bus N) s)
    unfolding connect
    connect-Outcome url s calls =
        connected-Outcome calls s N.installed (N.connecting url s) (nats.stored-connecting url s)
