-- ===== src/Tests/Gates.antt =====
-- A gate at concrete runs.
use http_client.Prelude.{◌+◌, ◌≡◌, ◌≤◌, refl, true, false, List, [], ◌∷◌}
use http_client.Gate.{
  Gate, new_gate, GateOptions, fallback_h1, wait, enter, contains, wait_for_detection,
}
use http_client.Gate.Run.{
  Event, enters, finds_h1, finds_h2, fails_h2, suspends, step, run, detections, settlements,
}
use http_client.Gate.Detection.{running, detections-le-settlements}
use http_client.Gate.Invariant.{IsValid, run-new_gate-IsValid}
use http_client.Gate.Waiters.{h1, result_wakes, wait_after_result}

abbrev options : GateOptions
options = record {
  origin_waiter_limit = 2;
  detection_overflow_policy = fallback_h1;
  h2_failure_ttl = 10;
}

-- A detection with two waiters and a request over the limit, its failure, and the next detection.
abbrev events : List Event
events =
    enters 1
    ∷ enters 2
    ∷ suspends 0
    ∷ enters 3
    ∷ suspends 1
    ∷ enters 4
    ∷ fails_h2 5
    ∷ enters 6
    ∷ enters 16
    ∷ finds_h2
    ∷ []

run-new_gate-IsValid_example : IsValid options (run options events new_gate)
run-new_gate-IsValid_example = run-new_gate-IsValid options events

detections-le-settlements_example :
    detections options events new_gate + running new_gate.protocol ≤ settlements events + 1
detections-le-settlements_example = detections-le-settlements options events new_gate

-- A gate whose detection has one waiter.
abbrev waiting : Gate
waiting = run options (enters 1 ∷ enters 2 ∷ suspends 0 ∷ []) new_gate

is_queued : contains 0 waiting.waiters ≡ true
unfolding contains run step enter wait_for_detection
is_queued = refl

result_wakes_example :
    (contains 0 (step options finds_h1 waiting).done ≡ true)
    × (contains 0 (step options finds_h1 waiting).suspended ≡ false)
    × ((step options finds_h1 waiting).waiters ≡ [])
result_wakes_example = result_wakes options finds_h1 waiting 0 h1 is_queued

-- A gate that detects.
abbrev detecting_gate : Gate
detecting_gate = run options (enters 1 ∷ []) new_gate

is_told_to_wait : ((enter options 2 detecting_gate).0).action ≡ wait 0
unfolding run step enter
is_told_to_wait = refl

wait_after_result_example :
    (contains 0 (run options (enters 2 ∷ finds_h1 ∷ suspends 0 ∷ []) detecting_gate).done ≡ true)
    × (contains 0 (run options (enters 2 ∷ finds_h1 ∷ suspends 0 ∷ events) detecting_gate).suspended
        ≡ true)
wait_after_result_example =
    wait_after_result options 2 detecting_gate 0 finds_h1 events is_told_to_wait h1
