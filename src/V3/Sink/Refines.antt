-- ===== src/V3/Sink/Refines.antt =====
-- The QoS 1 publish of the sink (src/v3/sink.rs) as operations of the queue (src/v3/shared.rs).
use mathlib.Core.Option.{Option, none, some}
use ntex_mqtt.Base.{
  ℕ, ◌≡◌, refl, sym, ap, Bool, true, false, ◌||◌, List, [], ◌∷◌, ◌++◌, length, ◌+◌, leb, ◌==◌,
  Result, ok, err, panic, Bool-cases, inl, inr, ◌⊎◌,
}
use mathlib.Core.Path.{subst}
use ntex_mqtt.Wire.{EncodeError}
use ntex_mqtt.Types.{QoS}
use ntex_mqtt.V3.Packet.{Packet, Publish}
use ntex_mqtt.V3.Shared.State.{
  Waiting, AckType, publish_type, Effect, encoded, MqttShared, has_id, next_id,
}
use ntex_mqtt.V3.Shared.Operations.{wait_packet_response, wait_readiness}
use ntex_mqtt.V3.Shared.Runs.{
  Reach, here, next, takes_id, waits_response, waits_packet_response, waits_readiness,
}
use ntex_mqtt.V3.Sink.{
  on_ack, after_readiness, Started, choose_id, with_qos, publish_with, send_at_least_once_inner,
  send_at_least_once, publish_when_woken, request_with,
}

next_id-inflight : (s t : MqttShared) (n : ℕ) → next_id s ≡ ok (t, n) → t.inflight ≡ s.inflight
unfolding next_id
next_id-inflight s t n e = elim (Bool-cases (leb 65536 (s.inflight_idx + 1))) [
  | inl over ↦ cc (rw over at e)
  | inr fits ↦ elim (Bool-cases (s.inflight_idx + 1 == 65535)) [
    | inl last ↦
        let same : record s { inflight_idx = 0 } ≡ t = cc (rw (fits, last) at e) in
        sym (ap (λ (x : MqttShared). x.inflight) same)
    | inr more ↦
        let same : record s { inflight_idx = s.inflight_idx + 1 } ≡ t = cc (rw (fits, more) at e) in
        sym (ap (λ (x : MqttShared). x.inflight) same)
  ]
]

-- `wait_readiness` lets the caller go on, or makes it wait.
pub readiness :
    (tx : ℕ) (s : MqttShared)
    → (wait_readiness tx s ≡ (s, none))
      ⊎ (((wait_readiness tx s).1 ≡ some tx) × ((wait_readiness tx s).0.inflight ≡ s.inflight))
unfolding wait_readiness
readiness tx s = elim (Bool-cases (leb s.cap (length s.inflight) || s.wrb_enabled)) [
  | inl full ↦ inr (rw full refl, rw full refl)
  | inr free ↦ inl (rw free refl)
]

choose_id-inflight :
    (id : Option ℕ) (s t : MqttShared) (n : ℕ)
    → choose_id id s ≡ ok (t, n)
    → t.inflight ≡ s.inflight
choose_id-inflight (some i) s t n e =
    let same : s ≡ t = cc e in sym (ap (λ (x : MqttShared). x.inflight) same)
choose_id-inflight none s t n e = next_id-inflight s t n e

abbrev pub entry : ℕ → ℕ → Waiting
entry id tx = record { id = id; tx = some tx; tp = publish_type }

-- The packets whose encoding succeeds.
abbrev pub written : List Effect → List Packet
written [] = []
written (encoded p (ok u) ∷ es) = p ∷ written es
written (_ ∷ es) = written es

-- No encoding succeeds and the entries in flight are as they were, or the packet is encoded with an
-- id and nothing else is done, and an entry that waits for that id has joined behind the others.
abbrev pub IsTracked : ℕ → Publish → MqttShared → Started (Unit {0}) → Type 0
IsTracked tx p s o =
    ((written o.effects ≡ []) × (o.shared.inflight ≡ s.inflight))
    ⊎ ((id : ℕ) × (o.effects
          ≡ encoded (Packet.publish (record p { packet_id = some id })) (ok tt) ∷ [])
        × (o.shared.inflight ≡ s.inflight ++ (entry id tx ∷ []))
        × (o.progress ≡ on_ack tx))

module _ (alive : ℕ → Bool) (io_encode : Packet → Result EncodeError (Unit {0})) where
  choose_id-Reach :
      (id : Option ℕ) (s t : MqttShared) (n : ℕ) → choose_id id s ≡ ok (t, n) → Reach alive s t
  choose_id-Reach (some i) s t n e = let same : s ≡ t = cc e in subst (Reach alive s) same here
  choose_id-Reach none s t n e = next here (takes_id t n e)

  publish_with-Reach :
      (tx : ℕ) (p : Publish) (r : Result (Unit {0}) (MqttShared × ℕ)) (s : MqttShared)
      → choose_id p.packet_id s ≡ r
      → Reach alive s (publish_with io_encode tx p r s).shared
  publish_with-Reach tx p (ok (t, id)) s e =
      next (choose_id-Reach p.packet_id s t id e)
        (waits_packet_response io_encode id tx publish_type _)
  publish_with-Reach tx p (err u) s e = here
  publish_with-Reach tx p panic s e = here

  request_with-Reach :
      (A : Type 0) (tx : ℕ) (tp : AckType) (packet : ℕ → Packet) (id : Option ℕ)
      (r : Result (Unit {0}) (MqttShared × ℕ)) (s : MqttShared)
      → choose_id id s ≡ r
      → Reach alive s (request_with io_encode {A = A} tx tp packet r s).shared
  request_with-Reach A tx tp packet id (ok (t, n)) s e =
      next (choose_id-Reach id s t n e) (waits_response n tx tp)
  request_with-Reach A tx tp packet id (err u) s e = here
  request_with-Reach A tx tp packet id panic s e = here

  abbrev tried : ℕ → Publish → Result EncodeError (Unit {0}) → List Effect
  tried id p a = encoded (Packet.publish (record p { packet_id = some id })) a ∷ []

  wait_packet_response-IsTracked :
      (tx id : ℕ) (p : Publish) (s t : MqttShared) (answer : Result EncodeError (Unit {0}))
      → t.inflight ≡ s.inflight
      → io_encode (Packet.publish (record p { packet_id = some id })) ≡ answer
      → IsTracked tx p s (publish_with io_encode tx p (ok (t, id)) s)
  unfolding wait_packet_response
  wait_packet_response-IsTracked tx id p s t answer kept e =
      elim (Bool-cases (has_id id t.inflight_ids)) [
        | inl used ↦ rw used (inl (refl, kept))
        | inr free ↦
            elim answer
                as (λ r.
                  io_encode (Packet.publish (record p { packet_id = some id })) ≡ r
                  → IsTracked tx p s (publish_with io_encode tx p (ok (t, id)) s)) [
                    | ok u ↦ λ k.
                        rw (free, k)
                          (inr (
                            id,
                            ap (tried id p) k,
                            ap (λ (l : List Waiting). l ++ (entry id tx ∷ [])) kept,
                            refl,
                          ))
                    | err x ↦ λ k. rw (free, k) (inl (ap (λ a. written (tried id p a)) k, kept))
                    | panic ↦ λ k. rw (free, k) (inl (ap (λ a. written (tried id p a)) k, kept))
                  ]
              e
      ]

  publish_with-IsTracked :
      (tx : ℕ) (p : Publish) (r : Result (Unit {0}) (MqttShared × ℕ)) (s : MqttShared)
      → choose_id p.packet_id s ≡ r
      → IsTracked tx p s (publish_with io_encode tx p r s)
  publish_with-IsTracked tx p (ok (t, id)) s e =
      wait_packet_response-IsTracked tx id p s t _ (choose_id-inflight p.packet_id s t id e) refl
  publish_with-IsTracked tx p (err u) s e = inl (refl, refl)
  publish_with-IsTracked tx p panic s e = inl (refl, refl)

  abbrev pub IsPiece : ℕ → Publish → MqttShared → Started (Unit {0}) → Type 0
  IsPiece tx p s o = Reach alive s o.shared × IsTracked tx (with_qos QoS.at_least_once p) s o

  inner-IsPiece :
      (tx : ℕ) (p : Publish) (s : MqttShared)
      → IsPiece tx p s (send_at_least_once_inner io_encode tx (with_qos QoS.at_least_once p) s)
  unfolding send_at_least_once_inner
  inner-IsPiece tx p s =
      let q : Publish = with_qos QoS.at_least_once p in
      (
        publish_with-Reach tx q (choose_id p.packet_id s) s refl,
        publish_with-IsTracked tx q (choose_id p.packet_id s) s refl,
      )

  first-IsPiece :
      (closed : Bool) (tx : ℕ) (p : Publish) (s : MqttShared)
      → IsPiece tx p s (send_at_least_once io_encode closed tx p s)
  unfolding send_at_least_once
  first-IsPiece true tx p s = (here, inl (refl, refl))
  first-IsPiece false tx p s = elim (readiness tx s) [
    | inl free ↦
        subst
          (λ (w : MqttShared × Option ℕ). IsPiece tx p s (
            after_readiness w.1 w.0
              (send_at_least_once_inner io_encode tx (with_qos QoS.at_least_once p) w.0)))
          (sym free) (inner-IsPiece tx p s)
    | inr (full, kept) ↦
        subst
          (λ (r : Option ℕ). IsPiece tx p s (
            after_readiness r (wait_readiness tx s).0 (
              send_at_least_once_inner io_encode tx (with_qos QoS.at_least_once p)
                (wait_readiness tx s).0)))
          (sym full) (next here (waits_readiness tx), inl (refl, kept))
  ]

  -- A QoS 1 publish, up to its first wait and again when it goes on behind a wait for readiness,
  -- is a run of the queue's operations. Either `io.encode` is called once, with the packet at QoS 1
  -- and an id, and succeeds, and its entry joins the queue behind the entries that are there, under
  -- that id; or no call of `io.encode` succeeds, and the entries in flight are as they were.
  pub send_at_least_once-IsPiece :
      (closed woken : Bool) (tx : ℕ) (p : Publish) (s : MqttShared)
      → IsPiece tx p s (send_at_least_once io_encode closed tx p s)
        × IsPiece tx p s (publish_when_woken io_encode woken tx p s)
  unfolding publish_when_woken
  send_at_least_once-IsPiece closed true tx p s =
      (first-IsPiece closed tx p s, inner-IsPiece tx p s)
  send_at_least_once-IsPiece closed false tx p s =
      (first-IsPiece closed tx p s, (here, inl (refl, refl)))
