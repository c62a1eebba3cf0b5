-- ===== src/Dispatch/Tests.antt =====
-- Two requests, the second of which is answered first (src/io.rs).
use mathlib.Core.Option.{Option, none}
use ntex_mqtt.Base.{ℕ, ◌-◌, ◌%◌, ◌^◌, ◌≡◌, ◌≢◌, refl, true, false, [], ◌∷◌, panic, arith}
use ntex_mqtt.Dispatch.{
  reply, pending, ready, DispatcherState, new, new_output, check_remaining, handle_result,
  call_pending,
}
use ntex_mqtt.Dispatch.Released.{released, handle_all}
use ntex_mqtt.Dispatch.Order.{Run, start, called, completes, Run-released, handle_result-Run}

abbrev io_encode : ℕ → Option ℕ
io_encode i = none

abbrev waiting : DispatcherState ℕ ℕ ℕ
waiting = record { output = new_output ℕ ℕ ℕ; base = 0; queue = pending ∷ pending ∷ [] }

abbrev out_of_order : DispatcherState ℕ ℕ ℕ
out_of_order = record {
  output = new_output ℕ ℕ ℕ;
  base = 0;
  queue = pending ∷ ready (reply 7) ∷ [];
}

abbrev both_sent : DispatcherState ℕ ℕ ℕ
both_sent = record { output = record { error = none; written = 6 ∷ 7 ∷ [] }; base = 2; queue = [] }

to_waiting : Run ℕ ℕ ℕ io_encode 0 (pending ∷ pending ∷ []) waiting
unfolding new call_pending
to_waiting = called (called start)

to_out_of_order : Run ℕ ℕ ℕ io_encode 0 (pending ∷ ready (reply 7) ∷ []) out_of_order
unfolding handle_result
to_out_of_order = completes (pending ∷ []) [] (reply 7) true false to_waiting (omega arith) refl

to_both_sent : Run ℕ ℕ ℕ io_encode 0 (ready (reply 6) ∷ ready (reply 7) ∷ []) both_sent
unfolding handle_result check_remaining
to_both_sent =
    completes [] (ready (reply 7) ∷ []) (reply 6) true true to_out_of_order (omega arith) refl

Run-released_example :
    (both_sent.output
      ≡ handle_all io_encode (released (ready (reply 6) ∷ ready (reply 7) ∷ [])) (new_output ℕ ℕ ℕ))
    × ((call_pending ℕ ℕ ℕ io_encode both_sent).1 ≡ (2 - 0) % 2 ^ 64)
Run-released_example = Run-released ℕ ℕ ℕ io_encode to_both_sent

handle_result-Run_example :
    handle_result ℕ ℕ ℕ io_encode (reply 7) ((1 - 0) % 2 ^ 64) true waiting ≢ panic
handle_result-Run_example =
    handle_result-Run ℕ ℕ ℕ io_encode (pending ∷ []) [] (reply 7) true to_waiting (omega arith)
