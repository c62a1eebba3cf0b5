-- ===== src/V3/Shared/Order.antt =====
-- The order of the acknowledgements (src/v3/shared.rs, `pkt_ack`).
use mathlib.Core.Option.{Option, none, some}
use ntex_mqtt.Base.{
  ℕ, ◌≡◌, ◌⊎◌, refl, sym, ap, ◌∙◌, Bool, true, false, not, ◌&&◌, List, [], ◌∷◌, ◌++◌, map, take,
  ◌==◌, if◌then◌else◌, arith, Bool-cases, inl, inr, ok, err,
}
use mathlib.Core.Path.{subst}
use ntex_mqtt.V3.Shared.State.{
  Ack, AckType, ack_packet_id, ack_packet_type, is_match, Waiting, Effect, woken, callback,
  disconnect_sent, io_closed, MqttShared, has_id, remove_id, wake_one, AckViolation,
  unexpected_packet, generic_violation, packet_id_mismatch,
}
use ntex_mqtt.V3.Shared.Operations.{
  disconnected_callbacks, clear_queues, close, deliver, send_ack, pkt_ack_inner, close_on_error,
  pkt_ack, Outcome,
}
use ntex_mqtt.V3.Shared.Ids.{IsOpen, Distinct, ids_of, by_callback, free_front}
use ntex_mqtt.V3.Shared.Wakes.{live, wake_one_effects}

-- The entry that an acknowledgement answers.
abbrev pub is_answer : Waiting → Ack → Bool
is_answer w a = (w.id == ack_packet_id a) && is_match a w.tp

abbrev pub behind_front : List Waiting → List Waiting
behind_front [] = []
behind_front (w ∷ ws) = ws

abbrev pub is_expected : List Waiting → Ack → Bool
is_expected [] a = false
is_expected (w ∷ ws) a = is_answer w a

close_on_error-ok : (o : Outcome AckViolation (Unit {0})) → o.result ≡ ok tt → close_on_error o ≡ o
unfolding close_on_error
close_on_error-ok o h = rw h refl

module _ (alive : ℕ → Bool) where
  -- Who hears of the acknowledgement.
  abbrev pub delivery : Waiting → Ack → List Effect
  delivery w a = elim w.tx [
    | some tx ↦ send_ack alive tx a
    | none ↦ callback (ack_packet_id a) false ∷ []
  ]

  abbrev pub front_delivery : List Waiting → Ack → List Effect
  front_delivery [] a = []
  front_delivery (w ∷ ws) a = delivery w a

  pub record Accepted (a : Ack) (s : MqttShared) (o : Outcome AckViolation (Unit {0}))
      : Type 0 where
    pub accepted : o.result ≡ ok tt
    pub left : o.shared.inflight ≡ behind_front s.inflight
    pub still_open : IsOpen o.shared
    pub done : o.effects ≡ front_delivery s.inflight a ++ map woken (take 1 (live alive s.waiters))

  pub record Refused (s : MqttShared) (o : Outcome AckViolation (Unit {0})) : Type 0 where
    pub refused : (e : AckViolation) × (o.result ≡ err e)
    pub empty : o.shared.inflight ≡ []
    pub nobody_waits : o.shared.waiters ≡ []
    pub closed :
        o.effects
        ≡ (if s.is_client then disconnect_sent ∷ [] else [])
          ++ (io_closed
              ∷ (if s.on_publish_ack then disconnected_callbacks (behind_front s.inflight) else []))

  answered_behind :
      (w : Waiting) (ws : List Waiting) (b : Bool)
      → (by_callback (w ∷ ws) && b) ≡ false
      → (by_callback ws && b) ≡ false
  answered_behind w ws b =
      elim w.tx
        as (λ t.
          (elim t [ none ↦ true | some tx ↦ by_callback ws ] && b) ≡ false
          → (by_callback ws && b) ≡ false) [ none ↦ λ h. ground arith | some tx ↦ λ h. h ]

  -- The state behind an acknowledgement of the front entry is open, whoever is woken.
  behind_front-IsOpen :
      (w : Waiting) (ws : List Waiting) (s : MqttShared) (waiting : List ℕ)
      → IsOpen s
      → s.inflight ≡ w ∷ ws
      → IsOpen (record s {
        inflight = ws;
        inflight_ids = remove_id w.id s.inflight_ids;
        waiters = waiting;
      })
  behind_front-IsOpen w ws s waiting v e =
      let distinct : Distinct (ids_of (w ∷ ws)) = rw e at v.distinct in
      record {
        same =
            free_front w ws s.inflight_ids
              (λ x. v.same x ∙ ap (λ (l : List Waiting). has_id x (ids_of l)) e) distinct;
        distinct = distinct.1;
        answered = answered_behind w ws (not s.on_publish_ack) (rw e at v.answered);
        flagged = v.flagged;
      }

  deliver_front :
      (id : ℕ) (tx : Option ℕ) (tp : AckType) (ws : List Waiting) (a : Ack) (s : MqttShared)
      → IsOpen s
      → s.inflight ≡ record { id = id; tx = tx; tp = tp } ∷ ws
      → id ≡ ack_packet_id a
      → Accepted a s (
          deliver alive
            (record { id = id; tx = tx; tp = tp })
            a
            (record s { inflight = ws; inflight_ids = remove_id (ack_packet_id a) s.inflight_ids }))
  unfolding deliver
  deliver_front id (some tx) tp ws a s v e i = record {
    accepted = refl;
    left = rw e refl;
    still_open = rw (sym i) (behind_front-IsOpen _ ws s (wake_one alive s.waiters).0 v e);
    done = rw (e, wake_one_effects alive s.waiters) refl;
  }
  deliver_front id none tp ws a s v e i =
      let ready : s.on_publish_ack ≡ true = ground (arith, rw e at v.answered) in
      let w : Waiting = record { id = id; tx = none; tp = tp } in
      let t : MqttShared = record s {
        inflight = ws;
        inflight_ids = remove_id (ack_packet_id a) s.inflight_ids;
      } in
      let woke : List ℕ × List Effect = wake_one alive s.waiters in
      let outcome : Outcome AckViolation (Unit {0}) = record {
        shared = record t { waiters = woke.0 };
        effects = callback (ack_packet_id a) false ∷ woke.1;
        result = ok tt;
      } in
      let same : deliver alive w a t ≡ outcome = rw ready refl in
      subst (Accepted a s) (sym same) (record {
        accepted = refl;
        left = rw e refl;
        still_open = rw (sym i) (behind_front-IsOpen w ws s woke.0 v e);
        done = rw (e, wake_one_effects alive s.waiters) refl;
      })

  refuse :
      (a : Ack) (s t : MqttShared) (e : AckViolation)
      → pkt_ack_inner alive a s ≡ record { shared = t; effects = []; result = err e }
      → t.is_client ≡ s.is_client
      → t.on_publish_ack ≡ s.on_publish_ack
      → t.inflight ≡ behind_front s.inflight
      → Refused s (pkt_ack alive a s)
  unfolding pkt_ack close_on_error close clear_queues
  refuse a s t e h client call left =
      subst (λ (o : Outcome AckViolation (Unit {0})). Refused s (close_on_error o)) (sym h)
        (record {
          refused = (e, refl);
          empty = refl;
          nobody_waits = refl;
          closed = rw (client, call, left) refl;
        })

  pkt_ack-Refused :
      (a : Ack) (s : MqttShared) (q : List Waiting)
      → s.inflight ≡ q
      → is_expected q a ≡ false
      → Refused s (pkt_ack alive a s)
  unfolding pkt_ack_inner
  pkt_ack-Refused a s [] e h =
      refuse a s s generic_violation (rw e refl) refl refl (e ∙ sym (ap behind_front e))
  pkt_ack-Refused a s (w ∷ ws) e h = elim (Bool-cases (w.id == ack_packet_id a)) [
    | inr other ↦
        refuse a s (record s { inflight = ws }) packet_id_mismatch (rw (e, other) refl) refl refl
          (sym (ap behind_front e))
    | inl same ↦
        let other_kind : is_match a w.tp ≡ false = ground arith in
        refuse a s
          (record s { inflight = ws; inflight_ids = remove_id (ack_packet_id a) s.inflight_ids })
          (unexpected_packet (ack_packet_type a) w.tp) (rw (e, same, other_kind) refl) refl refl
          (sym (ap behind_front e))
  ]

  pkt_ack-Accepted :
      (a : Ack) (s : MqttShared) (q : List Waiting)
      → IsOpen s
      → s.inflight ≡ q
      → is_expected q a ≡ true
      → Accepted a s (pkt_ack alive a s)
  unfolding pkt_ack pkt_ack_inner close_on_error
  pkt_ack-Accepted a s [] v e h = cc
  pkt_ack-Accepted a s (w ∷ ws) v e h =
      let freed : MqttShared = record s {
        inflight = ws;
        inflight_ids = remove_id (ack_packet_id a) s.inflight_ids;
      } in
      let same : (w.id == ack_packet_id a) ≡ true = ground arith in
      let kind : is_match a w.tp ≡ true = ground arith in
      let inner : pkt_ack_inner alive a s ≡ deliver alive w a freed = rw (e, same, kind) refl in
      let taken = deliver_front w.id w.tx w.tp ws a s v e (ground arith) in
      subst (λ (o : Outcome AckViolation (Unit {0})). Accepted a s (close_on_error o)) (sym inner)
        (subst (Accepted a s) (sym (close_on_error-ok _ taken.accepted)) taken)

  -- While the connection is open, an acknowledgement with the packet id and the kind of the oldest
  -- entry in flight is accepted: that entry leaves, and no other; its id is free again; the task or
  -- the callback that waits for it hears of it, and the first task that still waits for readiness
  -- is woken. Every other acknowledgement is an error that closes the connection and empties the
  -- queues; the callback hears of the entries behind the oldest. It never panics.
  pub pkt_ack_branches :
      (a : Ack) (s : MqttShared)
      → IsOpen s
      → ((is_expected s.inflight a ≡ true) × Accepted a s (pkt_ack alive a s))
        ⊎ ((is_expected s.inflight a ≡ false) × Refused s (pkt_ack alive a s))
  pkt_ack_branches a s v = elim (Bool-cases (is_expected s.inflight a)) [
    | inl expected ↦ inl (expected, pkt_ack-Accepted a s s.inflight v refl expected)
    | inr unexpected ↦ inr (unexpected, pkt_ack-Refused a s s.inflight refl unexpected)
  ]
