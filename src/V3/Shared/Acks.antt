-- ===== src/V3/Shared/Acks.antt =====
-- Several acknowledgements in a row (src/v3/shared.rs, `pkt_ack`).
use mathlib.Core.Option.{none, some}
use mathlib.Core.Path.{subst}
use mathlib.Core.List.{append-nil}
use ntex_mqtt.Base.{
  ℕ, ◌≡◌, refl, sym, ap, ◌∙◌, Bool, true, false, List, [], ◌∷◌, ◌++◌, map, take, Bool-cases, inl,
  inr, Result, ok, err, panic,
}
use ntex_mqtt.V3.Shared.State.{
  Ack, ack_packet_id, Waiting, Effect, acked, woken, callback, MqttShared, AckViolation,
}
use ntex_mqtt.V3.Shared.Operations.{pkt_ack, Outcome, send_ack}
use ntex_mqtt.V3.Shared.Ids.{IsOpen}
use ntex_mqtt.V3.Shared.Order.{
  Accepted, is_answer, delivery, front_delivery, behind_front, pkt_ack_branches,
}
use ntex_mqtt.V3.Shared.Wakes.{live}

abbrev pub and_rest :
    Result AckViolation (Unit {0})
    → Outcome AckViolation (Unit {0})
    → Outcome AckViolation (Unit {0})
    → Outcome AckViolation (Unit {0})
and_rest (ok _) first rest = record {
  shared = rest.shared;
  effects = first.effects ++ rest.effects;
  result = rest.result;
}
and_rest (err e) first rest = first
and_rest panic first rest = first

-- Several acknowledgements, one after the other, until one fails.
module _ (alive : ℕ → Bool) where
  abbrev pub pkt_acks : List Ack → MqttShared → Outcome AckViolation (Unit {0})
  pkt_acks [] s = record { shared = s; effects = []; result = ok tt }
  pkt_acks (a ∷ as') s =
      let first = pkt_ack alive a s in
      let rest = pkt_acks as' first.shared in and_rest first.result first rest

  -- Each acknowledgement answers the entry at its place.
  abbrev pub AllAnswer : List Waiting → List Ack → Type 0
  AllAnswer [] [] = Unit {0}
  AllAnswer (w ∷ ws) (a ∷ as') = (is_answer w a ≡ true) × AllAnswer ws as'
  AllAnswer _ _ = ⊥

  abbrev pub deliveries : List Waiting → List Ack → List Effect
  deliveries (w ∷ ws) (a ∷ as') = delivery alive w a ++ deliveries ws as'
  deliveries _ _ = []

  -- The effects that tell of acknowledgements.
  abbrev pub told : List Effect → List Effect
  told [] = []
  told (acked tx a ∷ es) = acked tx a ∷ told es
  told (callback id b ∷ es) = callback id b ∷ told es
  told (_ ∷ es) = told es

  told_append : (xs ys : List Effect) → told (xs ++ ys) ≡ told xs ++ told ys
  told_append [] ys = refl
  told_append (acked tx a ∷ xs) ys = ap (◌∷◌ (acked tx a)) (told_append xs ys)
  told_append (callback id b ∷ xs) ys = ap (◌∷◌ (callback id b)) (told_append xs ys)
  told_append (woken w ∷ xs) ys = told_append xs ys
  told_append (Effect.encoded p r ∷ xs) ys = told_append xs ys
  told_append (Effect.disconnect_sent ∷ xs) ys = told_append xs ys
  told_append (Effect.io_closed ∷ xs) ys = told_append xs ys
  told_append (Effect.io_force_closed ∷ xs) ys = told_append xs ys

  told_woken : (ws : List ℕ) → told (map woken ws) ≡ []
  told_woken [] = refl
  told_woken (w ∷ ws) = told_woken ws

  told-delivery : (w : Waiting) (a : Ack) → told (delivery alive w a) ≡ delivery alive w a
  told-delivery w a =
      elim w.tx
        as (λ t.
          let d : List Effect = elim t [
            | some tx ↦ send_ack alive tx a
            | none ↦ callback (ack_packet_id a) false ∷ []
          ] in
          told d ≡ d) [
            | none ↦ refl
            | some tx ↦ elim (Bool-cases (alive tx)) [
              | inl listens ↦ rw listens refl
              | inr gone ↦ rw gone refl
            ]
          ]

  told-pkt_ack :
      (w : Waiting) (ws : List Waiting) (a : Ack) (s : MqttShared)
      → s.inflight ≡ w ∷ ws
      → Accepted alive a s (pkt_ack alive a s)
      → told (pkt_ack alive a s).effects ≡ delivery alive w a
  told-pkt_ack w ws a s e taken =
      let woke : List Effect = map woken (take 1 (live alive s.waiters)) in
      ap told (taken.done ∙ ap (λ (q : List Waiting). front_delivery alive q a ++ woke) e)
      ∙ told_append (delivery alive w a) woke
      ∙ rw (told-delivery w a, told_woken (take 1 (live alive s.waiters)))
          (append-nil (delivery alive w a))

  pub record InOrder (ws rest : List Waiting) (acks' : List Ack)
      (o : Outcome AckViolation (Unit {0})) : Type 0 where
    pub all_accepted : o.result ≡ ok tt
    pub left : o.shared.inflight ≡ rest
    pub still_open : IsOpen o.shared
    pub told_in_order : told o.effects ≡ deliveries ws acks'

  -- While the connection is open, acknowledgements that answer the oldest entries in flight, one by
  -- one in the order of sending, are all accepted: exactly the tasks and callbacks of these entries
  -- hear of them, each of its own and in that order, exactly these entries leave, and the
  -- connection stays open.
  pub pkt_acks-InOrder :
      (ws rest : List Waiting) (acks' : List Ack) (s : MqttShared)
      → IsOpen s
      → s.inflight ≡ ws ++ rest
      → AllAnswer ws acks'
      → InOrder ws rest acks' (pkt_acks acks' s)
  pkt_acks-InOrder [] rest [] s v e h = record {
    all_accepted = refl;
    left = e;
    still_open = v;
    told_in_order = refl;
  }
  pkt_acks-InOrder [] rest (a ∷ as') s v e h = absurd h
  pkt_acks-InOrder (w ∷ ws) rest [] s v e h = absurd h
  pkt_acks-InOrder (w ∷ ws) rest (a ∷ as') s v e h =
      let taken : Accepted alive a s (pkt_ack alive a s) = elim (pkt_ack_branches alive a s v) [
        | inl (expected, taken) ↦ taken
        | inr (unexpected, closed) ↦ cc (h.0, rw e at unexpected)
      ] in
      let others =
        pkt_acks-InOrder ws rest as' (pkt_ack alive a s).shared taken.still_open
          (taken.left ∙ ap behind_front e) h.1 in
      let first = pkt_ack alive a s in
      let run = pkt_acks as' first.shared in
      subst
        (λ (r : Result AckViolation (Unit {0})).
          InOrder (w ∷ ws) rest (a ∷ as') (and_rest r first run))
        (sym taken.accepted)
        (record {
          all_accepted = others.all_accepted;
          left = others.left;
          still_open = others.still_open;
          told_in_order =
              told_append first.effects run.effects
              ∙ rw (told-pkt_ack w (ws ++ rest) a s e taken, others.told_in_order) refl;
        })
