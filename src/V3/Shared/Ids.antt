-- ===== src/V3/Shared/Ids.antt =====
-- The packet ids in use and the entries in flight (src/v3/shared.rs).
use mathlib.Core.Option.{Option, none, some}
use ntex_mqtt.Base.{
  ℕ, ◌≡◌, refl, sym, ap, ◌∙◌, Bool, true, false, not, ◌&&◌, ◌||◌, List, [], ◌∷◌, ◌++◌, ◌==◌, arith,
  Bool-cases, inl, inr,
}
use ntex_mqtt.V3.Shared.State.{AckType, Waiting, MqttShared, has_id, remove_id}
use ntex_mqtt.V3.Shared.Operations.{register}

abbrev pub ids_of : List Waiting → List ℕ
ids_of [] = []
ids_of (w ∷ ws) = w.id ∷ ids_of ws

abbrev pub Distinct : List ℕ → Type 0
Distinct [] = Unit {0}
Distinct (x ∷ xs) = (has_id x xs ≡ false) × Distinct xs

-- An entry without a channel is answered by the callback.
abbrev pub by_callback : List Waiting → Bool
by_callback [] = false
by_callback (w ∷ ws) = elim w.tx [ none ↦ true | some tx ↦ by_callback ws ]

-- What holds of the queues while the connection is open.
pub record IsOpen (s : MqttShared) : Type 0 where
  pub same : (id : ℕ) → has_id id s.inflight_ids ≡ has_id id (ids_of s.inflight)
  pub distinct : Distinct (ids_of s.inflight)
  pub answered : (by_callback s.inflight && not s.on_publish_ack) ≡ false
  pub flagged : s.on_publish_ack_flag ≡ s.on_publish_ack

has_id-remove_id :
    (id x : ℕ) (ids : List ℕ) → has_id id (remove_id x ids) ≡ (not (x == id) && has_id id ids)
has_id-remove_id id x [] = ground arith
has_id-remove_id id x (y ∷ ys) = ground (arith, has_id-remove_id id x ys)

has_id_append :
    (id x : ℕ) (ids : List ℕ) → has_id id (ids ++ (x ∷ [])) ≡ ((x == id) || has_id id ids)
has_id_append id x [] = ground arith
has_id_append id x (y ∷ ys) = ground (arith, has_id_append id x ys)

Distinct-append :
    (x : ℕ) (ids : List ℕ) → Distinct ids → has_id x ids ≡ false → Distinct (ids ++ (x ∷ []))
Distinct-append x [] d h = (refl, tt)
Distinct-append x (y ∷ ys) d h =
    (ground (arith, has_id_append y x ys, d.0), Distinct-append x ys d.1 (ground (arith)))

ids_of_append :
    (ws : List Waiting) (w : Waiting) → ids_of (ws ++ (w ∷ [])) ≡ ids_of ws ++ (w.id ∷ [])
ids_of_append [] w = refl
ids_of_append (v ∷ vs) w = ap (◌∷◌ v.id) (ids_of_append vs w)

by_callback_append :
    (ws : List Waiting) (w : Waiting)
    → by_callback (ws ++ (w ∷ [])) ≡ (by_callback ws || by_callback (w ∷ []))
by_callback_append [] w = refl
by_callback_append (v ∷ vs) w =
    elim v.tx
      as (λ t.
        elim t [ none ↦ true | some tx ↦ by_callback (vs ++ (w ∷ [])) ]
        ≡ (elim t [ none ↦ true | some tx ↦ by_callback vs ] || by_callback (w ∷ []))) [
          | none ↦ refl
          | some tx ↦ by_callback_append vs w
        ]

-- The first entry leaves, and its id is free again.
pub free_front :
    (w : Waiting) (ws : List Waiting) (ids : List ℕ)
    → ((id : ℕ) → has_id id ids ≡ has_id id (ids_of (w ∷ ws)))
    → Distinct (ids_of (w ∷ ws))
    → (id : ℕ) → has_id id (remove_id w.id ids) ≡ has_id id (ids_of ws)
free_front w ws ids same d id = elim (Bool-cases (w.id == id)) [
  | inl e ↦
      let is : w.id ≡ id = ground arith in
      ground (arith, has_id-remove_id id w.id ids, ap (λ (x : ℕ). has_id x (ids_of ws)) is, d.0)
  | inr ne ↦ ground (arith, has_id-remove_id id w.id ids, same id)
]

pub register-IsOpen :
    (id : ℕ) (tx : Option ℕ) (tp : AckType) (s : MqttShared)
    → IsOpen s
    → has_id id s.inflight_ids ≡ false
    → (by_callback (record { id = id; tx = tx; tp = tp } ∷ []) && not s.on_publish_ack) ≡ false
    → IsOpen (register id tx tp s)
register-IsOpen id tx tp s v free ready =
    let w : Waiting = record { id = id; tx = tx; tp = tp } in
    record {
      same = λ x. ground (
        arith,
        v.same x,
        ap (has_id x) (ids_of_append s.inflight w),
        has_id_append x id (ids_of s.inflight),
      );
      distinct =
          rw (ids_of_append s.inflight w)
            (Distinct-append id (ids_of s.inflight) v.distinct (sym (v.same id) ∙ free));
      answered = ground (arith, by_callback_append s.inflight w, v.answered, ready);
      flagged = v.flagged;
    }
