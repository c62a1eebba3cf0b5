-- ===== src/Dispatch/Answers.antt =====
-- What the answer of a call that waits does to the queue.
use mathlib.Core.Option.{Option}
use mathlib.Core.List.{append_assoc, append-nil}
use ntex_mqtt.Base.{
  ℕ, suc, ◌+◌, ◌-◌, ◌%◌, ◌^◌, ◌<◌, ◌≤◌, ◌≡◌, refl, sym, ap, ◌∙◌, Bool, true, false, ◌&&◌, List, [],
  ◌∷◌, ◌++◌, map, ltb, ◌==◌, length, length-append, is_empty, ok, arith,
}
use ntex_mqtt.Dispatch.{
  Answer, ServiceResult, pending, ready, Output, new_output, DispatcherState, wrapping_add,
  wrapping_sub, set_at, pop_front, handle_item, check_remaining, handle_result,
}
use ntex_mqtt.Dispatch.Released.{
  released, starts_pending, unreleased, unreleased_front, released-unreleased, map_ready_append,
  length-map-ready, set_at_append, starts_pending_head, handle_all, check_remaining_output,
  check_remaining_queue, check_remaining_base, handle_all_append,
}

module _ {E X I : Type 0} (io_encode : I → Option X) where
  pub record Inv (d : ℕ) (cs : List (ServiceResult E X I)) (s : DispatcherState E X I)
      : Type 0 where
    pub past : List (Answer E X I)
    pub parted : cs ≡ map ready past ++ s.queue
    pub output : s.output ≡ handle_all io_encode past (new_output E X I)
    pub few : d ≤ length past
    pub base : s.base ≡ (length past - d) % 2 ^ 64
    pub front : starts_pending s.queue ≡ true

  -- The answer of the oldest call in the queue: it leaves, and those behind it that have come.
  pub answer_oldest :
      (r : Answer E X I) (wake : Bool) (s : DispatcherState E X I) (past : List (Answer E X I))
      (cs after : List (ServiceResult E X I)) (d k : ℕ)
      → s.output ≡ handle_all io_encode past (new_output E X I)
      → d ≤ length past
      → s.base ≡ (length past - d) % 2 ^ 64
      → s.queue ≡ pending ∷ after
      → k ≡ length past - d
      → cs ≡ map ready past ++ (ready r ∷ after)
      → (t : DispatcherState E X I) × (w : Bool) × (handle_result E X I io_encode r
            (k % 2 ^ 64)
            wake
            s
          ≡ ok (t, w))
        × Inv d cs t
  unfolding handle_result
  answer_oldest r wake s past cs after d k out few base queue at parted =
      let o : Output E X I = handle_item E X I io_encode r s.output in
      let rest : DispatcherState E X I =
        check_remaining E X I io_encode after (wrapping_add E X I s.base 1) o in
      let zero_index : (wrapping_sub E X I (k % 2 ^ 64) s.base == 0) ≡ true = ground arith in
      let popped : pop_front E X I s.queue ≡ after = ap (pop_front E X I) queue in
      let left : rest.queue ≡ unreleased after = check_remaining_queue io_encode after _ o in
      let more : List (Answer E X I) = r ∷ released after in
      (
        rest,
        wake && is_empty rest.queue,
        rw (zero_index, popped) refl,
        record {
          past = past ++ more;
          parted =
              parted
              ∙ ap (λ (l : List (ServiceResult E X I)). map ready past ++ (ready r ∷ l))
                  (released-unreleased after)
              ∙ sym (append_assoc (map ready past) (map ready more) (unreleased after))
              ∙ ap (λ (l : List (ServiceResult E X I)). l ++ unreleased after)
                  (sym (map_ready_append past more))
              ∙ ap (λ (l : List (ServiceResult E X I)). map ready (past ++ more) ++ l) (sym left);
          output =
              check_remaining_output io_encode after _ o
              ∙ ap
                  (λ (x : Output E X I).
                    handle_all io_encode (released after) (handle_item E X I io_encode r x))
                  out
              ∙ sym (handle_all_append io_encode past more (new_output E X I));
          few = omega (arith, few, length-append past more);
          base =
              check_remaining_base io_encode after (wrapping_add E X I s.base 1) o (omega arith)
              ∙ omega (arith, base, few, length-append past more);
          front = rw left (unreleased_front after);
        },
      )

  -- Any other answer waits at its place.
  pub answer_later :
      (r : Answer E X I) (wake : Bool) (s : DispatcherState E X I) (past : List (Answer E X I))
      (cs mid after : List (ServiceResult E X I)) (m : ServiceResult E X I) (d k : ℕ)
      → s.output ≡ handle_all io_encode past (new_output E X I)
      → d ≤ length past
      → s.base ≡ (length past - d) % 2 ^ 64
      → s.queue ≡ m ∷ (mid ++ (pending ∷ after))
      → starts_pending s.queue ≡ true
      → length s.queue < 2 ^ 64
      → k ≡ length past - d + (length mid + 1)
      → cs ≡ map ready past ++ (m ∷ (mid ++ (ready r ∷ after)))
      → (t : DispatcherState E X I) × (w : Bool) × (handle_result E X I io_encode r
            (k % 2 ^ 64)
            wake
            s
          ≡ ok (t, w))
        × Inv d cs t
  unfolding handle_result
  answer_later r wake s past cs mid after m d k out few base queue front small at parted =
      let index : wrapping_sub E X I (k % 2 ^ 64) s.base ≡ suc (length mid) = omega (
        arith,
        ap (λ (l : List (ServiceResult E X I)). length l) queue,
        length-append mid (pending ∷ after),
      ) in
      let positive : (suc (length mid) == 0) ≡ false = ground arith in
      let within : ltb (suc (length mid)) (length s.queue) ≡ true = ground (
        arith,
        ap (λ (l : List (ServiceResult E X I)). length l) queue,
        length-append mid (pending ∷ after),
      ) in
      let t : DispatcherState E X I = record s {
        queue = set_at E X I (suc (length mid)) (ready r) s.queue;
      } in
      let put : t.queue ≡ m ∷ (mid ++ (ready r ∷ after)) =
        ap (set_at E X I (suc (length mid)) (ready r)) queue
        ∙ ap (◌∷◌ m) (set_at_append mid after (ready r)) in
      let head : starts_pending (m ∷ (mid ++ (pending ∷ after))) ≡ true = rw queue at front in
      (
        t,
        false,
        rw (index, positive, within) refl,
        record {
          past = past;
          parted = parted ∙ ap (λ (l : List (ServiceResult E X I)). map ready past ++ l) (sym put);
          output = out;
          few = few;
          base = base;
          front = ap starts_pending put ∙ starts_pending_head m _ _ ∙ head;
        },
      )

  pub complete_at :
      (before after mid : List (ServiceResult E X I)) (r : Answer E X I) (wake : Bool) (d : ℕ)
      (s : DispatcherState E X I)
      → (v : Inv d (before ++ (pending ∷ after)) s) → length s.queue < 2 ^ 64
      → before ≡ map ready v.past ++ mid
      → s.queue ≡ mid ++ (pending ∷ after)
      → (t : DispatcherState E X I) × (w : Bool) × (handle_result E X I io_encode r
            ((length before - d) % 2 ^ 64)
            wake
            s
          ≡ ok (t, w))
        × Inv d (before ++ (ready r ∷ after)) t
  complete_at before after [] r wake d s v small front back =
      answer_oldest r wake s v.past _ after d (length before - d) v.output v.few v.base back
        (omega (
          arith,
          v.few,
          ap (λ (l : List (ServiceResult E X I)). length l) front,
          length-append {A = ServiceResult E X I} (map ready v.past) [],
          length-map-ready v.past,
        ))
        (ap (λ (l : List (ServiceResult E X I)). l ++ (ready r ∷ after))
          (front ∙ append-nil (map ready v.past)))
  complete_at before after (m ∷ mid) r wake d s v small front back =
      answer_later r wake s v.past _ mid after m d (length before - d) v.output v.few v.base back
        v.front small
        (omega (
          arith,
          v.few,
          ap (λ (l : List (ServiceResult E X I)). length l) front,
          length-append {A = ServiceResult E X I} (map ready v.past) (m ∷ mid),
          length-map-ready v.past,
        ))
        (ap (λ (l : List (ServiceResult E X I)). l ++ (ready r ∷ after)) front
          ∙ append_assoc (map ready v.past) (m ∷ mid) (ready r ∷ after))
