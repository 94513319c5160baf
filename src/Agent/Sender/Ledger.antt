-- ===== src/Agent/Sender/Ledger.antt =====
-- A sender through its life: events are queued, flushes start and end, in any order that the loops
-- of the agent allow, and each event that was queued is accounted for.
use guardian_pi.Base.{
  nat_eq, false, ℕ, ◌+◌, ◌-◌, ◌≡◌, refl, ap, ◌∙◌, Bool, List, [], ◌∷◌, ◌++◌, length, filter,
  filter-append, take, take-append-drop, length-append, leb, arith, if◌then◌else◌, Bool-cases, inl,
  inr,
}
use guardian_pi.Agent.Sender.{
  max_queue, queue_event, Outcome, responded, send_error, cancelled, accepted, is_cancelled, finish,
}

module _ (E : Type 0) where
  -- The queue, the events of the request that is under way, and, for the account, the events that
  -- were ever queued, that a response 202 acknowledged, and that a full queue or a cancelled
  -- flush dropped.
  pub record Ledger : Type 0 where
    pub queue : List E
    pub in_flight : List E
    pub queued : List E
    pub acknowledged : List E
    pub dropped : List E

  abbrev pub empty : Ledger
  empty = record { queue = []; in_flight = []; queued = []; acknowledged = []; dropped = [] }

-- What queueing one more event drops.
abbrev pub overflow : {E : Type 0} → List E → List E
overflow q = if leb max_queue (length q) then take (length q - max_queue) q else []

module _ {E : Type 0} where
  abbrev pub queueing : E → Ledger E → Ledger E
  queueing e l = record l {
    queue = queue_event e l.queue;
    queued = l.queued ++ e ∷ [];
    dropped = l.dropped ++ overflow (l.queue ++ e ∷ []);
  }

  -- events = list(self._queue); self._queue.clear()
  abbrev pub starting : Ledger E → Ledger E
  starting l = record l { queue = []; in_flight = l.queue }

  abbrev pub finishing : Outcome → Ledger E → Ledger E
  finishing outcome l = record l {
    queue = finish outcome l.in_flight l.queue;
    in_flight = [];
    acknowledged = if accepted outcome then l.acknowledged ++ l.in_flight else l.acknowledged;
    dropped = if is_cancelled outcome then l.dropped ++ l.in_flight else l.dropped;
  }

  -- The loop of the flushes starts the next one only after the end of the last.
  pub data Step (l : Ledger E) : Ledger E → Type 0 where
    queue_one : (e : E) → Step l (queueing e l)
    start : l.in_flight ≡ [] → Step l (starting l)
    end : (outcome : Outcome) → Step l (finishing outcome l)

  pub data Reach (l : Ledger E) : Ledger E → Type 0 where
    here : Reach l l
    next : {m n : Ledger E} → Reach l m → Step m n → Reach l n

  abbrev pub count : (E → Bool) → List E → ℕ
  count p xs = length (filter p xs)

  -- Of each kind of event, as many were queued as are queued now, are under way, were acknowledged
  -- or were dropped.
  abbrev pub IsBalanced : Ledger E → Type 0
  IsBalanced l =
      (p : E → Bool)
      → count p l.queued
        ≡ count p l.queue + count p l.in_flight + count p l.acknowledged + count p l.dropped

  count-append : (p : E → Bool) (xs ys : List E) → count p (xs ++ ys) ≡ count p xs + count p ys
  count-append p xs ys =
      ap length (filter-append p xs ys) ∙ length-append (filter p xs) (filter p ys)

  overflow-append : (e : E) (q : List E) → overflow (q ++ e ∷ []) ++ queue_event e q ≡ q ++ e ∷ []
  unfolding queue_event
  overflow-append e q = elim (Bool-cases (leb max_queue (length (q ++ e ∷ [])))) [
    | inl full ↦ rw (full, take-append-drop (length (q ++ e ∷ []) - max_queue) (q ++ e ∷ [])) refl
    | inr short ↦ rw short refl
  ]

  Step-IsBalanced : {l m : Ledger E} → Step l m → IsBalanced l → IsBalanced m
  unfolding finish
  Step-IsBalanced {l} (queue_one e) h p =
      let q = l.queue in
      let parts = count-append p (overflow (q ++ e ∷ [])) (queue_event e q) in
      let whole = ap (count p) (overflow-append e q) in
      let one = count-append p q (e ∷ []) in
      let log = count-append p l.queued (e ∷ []) in
      let drops = count-append p l.dropped (overflow (q ++ e ∷ [])) in
      omega (arith, h p, parts, whole, one, log, drops)
  Step-IsBalanced {l} (start idle) h p =
      let idle_p = ap (count p) idle in omega (arith, h p, idle_p)
  Step-IsBalanced {l} (end (responded status_code)) h p =
      elim (Bool-cases (nat_eq status_code 202)) [
        | inl good ↦
            let more = count-append p l.acknowledged l.in_flight in
            rw good (omega (arith, h p, more))
        | inr bad ↦
            let more = count-append p l.queue l.in_flight in rw bad (omega (arith, h p, more))
      ]
  Step-IsBalanced {l} (end send_error) h p =
      let more = count-append p l.queue l.in_flight in omega (arith, h p, more)
  Step-IsBalanced {l} (end cancelled) h p =
      let more = count-append p l.dropped l.in_flight in omega (arith, h p, more)

  Reach-append : {l m n : Ledger E} → Reach l m → Reach m n → Reach l n
  Reach-append r here = r
  Reach-append r (next t s) = next (Reach-append r t) s

  Reach-IsBalanced_from : {l m : Ledger E} → Reach l m → IsBalanced l → IsBalanced m
  Reach-IsBalanced_from here h = h
  Reach-IsBalanced_from (next r s) h = Step-IsBalanced s (Reach-IsBalanced_from r h)

  -- Whatever events are queued and however the flushes end, in any order, no event is lost without
  -- account and none is acknowledged twice: of every kind of event, as many were queued as are
  -- queued still, are under way, were acknowledged by a response 202, or were dropped, by a full queue or
  -- by a flush that was cancelled.
  pub Reach-IsBalanced : {l : Ledger E} → Reach (empty E) l → IsBalanced l
  Reach-IsBalanced r = Reach-IsBalanced_from r (λ p. refl)

  -- The next flush: it starts, and a response 202 ends it.
  abbrev pub delivered : Ledger E → Ledger E
  delivered l = finishing (responded 202) (starting l)

  -- One accepted flush delivers what is left, in every state that a sender can reach and once the flush
  -- that is under way there, if any, has ended in any way but a cancellation: the queue is then empty
  -- and no flush under way, what was acknowledged before is followed by the whole queue of that moment,
  -- each event that was ever queued was acknowledged or dropped, and nothing was dropped since.
  pub Reach-responded :
      {l : Ledger E} (outcome : Outcome)
      → Reach (empty E) l
      → is_cancelled outcome ≡ false
      → Reach l (delivered (finishing outcome l))
        × ((delivered (finishing outcome l)).queue ≡ [])
        × ((delivered (finishing outcome l)).in_flight ≡ [])
        × ((delivered (finishing outcome l)).acknowledged
            ≡ (finishing outcome l).acknowledged ++ (finishing outcome l).queue)
        × ((delivered (finishing outcome l)).dropped ≡ l.dropped)
        × ((p : E → Bool)
            → count p l.queued
              ≡ count p (delivered (finishing outcome l)).acknowledged + count p l.dropped)
  unfolding finish
  Reach-responded {l} outcome r goes_on =
      let m = delivered (finishing outcome l) in
      let way : Reach l m =
        next (next (next here (end outcome)) (start refl)) (end (responded 202)) in
      let same : m.dropped ≡ l.dropped = rw goes_on refl in
      (
        way,
        refl,
        refl,
        refl,
        same,
        λ p.
            let drops = ap (count p) same in
            omega (arith, Reach-IsBalanced (Reach-append r way) p, drops),
      )
