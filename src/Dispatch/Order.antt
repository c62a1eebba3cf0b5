-- ===== src/Dispatch/Order.antt =====
-- The order of the responses that leave (src/io.rs).
use mathlib.Core.Option.{Option}
use mathlib.Core.Path.{subst}
use mathlib.Core.List.{append_assoc, append-nil}
use ntex_mqtt.Base.{
  ℕ, ◌+◌, ◌-◌, ◌%◌, ◌^◌, ◌<◌, ◌≡◌, ◌≢◌, refl, sym, ap, ◌∙◌, Bool, false, ◌&&◌, List, [], ◌∷◌, ◌++◌,
  map, not, if◌then◌else◌, length, length-append, is_empty, ok, panic, arith,
}
use ntex_mqtt.Dispatch.{
  Answer, ServiceResult, pending, ready, new_output, DispatcherState, new, handle_item,
  handle_result, call_answered, call_pending,
}
use ntex_mqtt.Dispatch.Released.{
  released, starts_pending, map_ready_append, length-map-ready, released_past, locate,
  starts_pending_append, handle_all, handle_all_append,
}
use ntex_mqtt.Dispatch.Answers.{Inv, complete_at}

module _ (E X I : Type 0) (io_encode : I → Option X) where
  -- The calls so far, with the answers that have come, how many of them were answered at once
  -- while nothing waited, and the state. An answer may come at any time after its call, with the
  -- index that the call was given. Fewer than 2^64 answers wait at a time.
  pub data Run : ℕ → List (ServiceResult E X I) → DispatcherState E X I → Type 0 where
    start : Run 0 [] (new E X I)
    answered :
        {d : ℕ} {cs : List (ServiceResult E X I)} {s : DispatcherState E X I} (r : Answer E X I)
        → Run d cs s
        → Run
            (if is_empty s.queue then d + 1 else d)
            (cs ++ (ready r ∷ []))
            (call_answered E X I io_encode r s)
    called :
        {d : ℕ} {cs : List (ServiceResult E X I)} {s : DispatcherState E X I}
        → Run d cs s
        → Run d (cs ++ (pending ∷ [])) (call_pending E X I io_encode s).0
    completes :
        {d : ℕ} {s t : DispatcherState E X I} (before after : List (ServiceResult E X I))
        (r : Answer E X I) (wake w : Bool)
        → Run d (before ++ (pending ∷ after)) s
        → length s.queue < 2 ^ 64
        → handle_result E X I io_encode r ((length before - d) % 2 ^ 64) wake s ≡ ok (t, w)
        → Run d (before ++ (ready r ∷ after)) t

  pushed-Inv :
      (d : ℕ) (cs : List (ServiceResult E X I)) (c : ServiceResult E X I)
      (s : DispatcherState E X I)
      → (is_empty s.queue && not (starts_pending (c ∷ []))) ≡ false
      → Inv io_encode d cs s
      → Inv io_encode d (cs ++ (c ∷ [])) (record s { queue = s.queue ++ (c ∷ []) })
  pushed-Inv d cs c s h v = record {
    past = v.past;
    parted =
        ap (λ (l : List (ServiceResult E X I)). l ++ (c ∷ [])) v.parted
        ∙ append_assoc (map ready v.past) s.queue (c ∷ []);
    output = v.output;
    few = v.few;
    base = v.base;
    front = starts_pending_append s.queue c v.front h;
  }

  at_once-Inv :
      (d : ℕ) (cs : List (ServiceResult E X I)) (r : Answer E X I) (s : DispatcherState E X I)
      (q : List (ServiceResult E X I))
      → s.queue ≡ q
      → Inv io_encode d cs s
      → Inv io_encode (if is_empty q then d + 1 else d) (cs ++ (ready r ∷ [])) (
          if is_empty q
          then record s { output = handle_item E X I io_encode r s.output }
          else record s { queue = s.queue ++ (ready r ∷ []) })
  at_once-Inv d cs r s [] e v = record {
    past = v.past ++ (r ∷ []);
    parted =
        ap (λ (l : List (ServiceResult E X I)). l ++ (ready r ∷ []))
          (v.parted
            ∙ ap (λ (l : List (ServiceResult E X I)). map ready v.past ++ l) e
            ∙ append-nil (map ready v.past))
        ∙ sym (map_ready_append v.past (r ∷ []))
        ∙ sym (append-nil (map ready (v.past ++ (r ∷ []))))
        ∙ ap (λ (l : List (ServiceResult E X I)). map ready (v.past ++ (r ∷ [])) ++ l) (sym e);
    output =
        ap (handle_item E X I io_encode r) v.output
        ∙ sym (handle_all_append io_encode v.past (r ∷ []) (new_output E X I));
    few = omega (arith, v.few, length-append v.past (r ∷ []));
    base = omega (arith, v.base, v.few, length-append v.past (r ∷ []));
    front = v.front;
  }
  at_once-Inv d cs r s (c ∷ q) e v = pushed-Inv d cs (ready r) s (rw e refl) v

  Run-Inv :
      {d : ℕ} {cs : List (ServiceResult E X I)} {s : DispatcherState E X I}
      → Run d cs s
      → Inv io_encode d cs s
  unfolding new call_answered call_pending
  Run-Inv start = record {
    past = [];
    parted = refl;
    output = refl;
    few = omega arith;
    base = omega arith;
    front = refl;
  }
  Run-Inv (answered {d} {cs} {s} r run) = at_once-Inv d cs r s s.queue refl (Run-Inv run)
  Run-Inv (called {d} {cs} {s} run) = pushed-Inv d cs pending s (ground arith) (Run-Inv run)
  Run-Inv (completes {d} {s} {t} before after r wake w run small e) =
      let v = Run-Inv run in
      let (mid, front, back) = locate v.past s.queue before after (sym v.parted) in
      let (t', w', e', v') = complete_at io_encode before after mid r wake d s v small front back in
      let same : t' ≡ t = cc (e, e') in
      subst (Inv io_encode d (before ++ (ready r ∷ after))) same v'

  -- However calls are answered, at once or later and in any order: what has been encoded into the
  -- connection, and the error, are at any time those of handling, in the order of the calls, the
  -- answers of the calls before the first that still waits. In particular no response overtakes an
  -- earlier request's. The next pending call gets as its index the number of the calls so far less
  -- those that were answered at once while nothing waited, modulo 2^64.
  pub Run-released :
      {d : ℕ} {cs : List (ServiceResult E X I)} {s : DispatcherState E X I}
      → Run d cs s
      → (s.output ≡ handle_all io_encode (released cs) (new_output E X I))
        × ((call_pending E X I io_encode s).1 ≡ (length cs - d) % 2 ^ 64)
  unfolding call_pending
  Run-released {d} {cs} {s} run =
      let v = Run-Inv run in
      (
        v.output
            ∙ ap (λ (l : List (Answer E X I)). handle_all io_encode l (new_output E X I))
                (sym (ap released v.parted ∙ released_past v.past s.queue v.front)),
        omega (
          arith,
          v.base,
          v.few,
          ap (λ (l : List (ServiceResult E X I)). length l) v.parted,
          length-append {A = ServiceResult E X I} (map ready v.past) s.queue,
          length-map-ready v.past,
        ),
      )

  -- However calls were answered before, at once or later and in any order, and while fewer than 2^64
  -- answers wait: `handle_result` takes the answer of a call that waits without a panic, the queue
  -- has a place for it.
  pub handle_result-Run :
      {d : ℕ} {s : DispatcherState E X I} (before after : List (ServiceResult E X I))
      (r : Answer E X I) (wake : Bool)
      → Run d (before ++ (pending ∷ after)) s
      → length s.queue < 2 ^ 64
      → handle_result E X I io_encode r ((length before - d) % 2 ^ 64) wake s ≢ panic
  handle_result-Run {d} {s} before after r wake run small p =
      let v = Run-Inv run in
      let (mid, front, back) = locate v.past s.queue before after (sym v.parted) in
      let (t, w, e, _) = complete_at io_encode before after mid r wake d s v small front back in
      cc (e, p)
