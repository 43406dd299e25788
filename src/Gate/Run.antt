-- ===== src/Gate/Run.antt =====
-- Runs of a gate: the operations in the order in which the strand runs them. The code calls
-- `set_protocol` with `H1Only` and `H2Available` only.
use http_client.Prelude.{ℕ, suc, ◌+◌, List, [], ◌∷◌}
use http_client.Gate.{
  Gate, GateOptions, GateAction, use_h1, use_h2, detect, wait, h1_only, h2_available, enter,
  set_protocol, mark_h2_failed, record_h2_origin, wait_for_detection,
}

pub data Event : Type 0 where
  enters : ℕ → Event
  finds_h1 : Event
  finds_h2 : Event
  fails_h2 : ℕ → Event
  records_h2 : Event
  suspends : ℕ → Event

unfoldable pub step : GateOptions → Event → Gate → Gate
step o (enters now) g = (enter o now g).1
step o finds_h1 g = set_protocol h1_only g
step o finds_h2 g = set_protocol h2_available g
step o (fails_h2 now) g = mark_h2_failed o now g
step o records_h2 g = record_h2_origin g
step o (suspends w) g = wait_for_detection w g

unfoldable pub run : GateOptions → List Event → Gate → Gate
run o [] g = g
run o (e ∷ es) g = run o es (step o e g)

-- Whether an action makes its caller the detector.
abbrev pub is_detect : GateAction → ℕ
is_detect use_h1 = 0
is_detect use_h2 = 0
is_detect detect = 1
is_detect (wait w) = 0

-- How many calls of `enter` in a run answer `Detect`.
unfoldable pub detections : GateOptions → List Event → Gate → ℕ
detections o [] g = 0
detections o (enters now ∷ es) g =
    is_detect ((enter o now g).0).action + detections o es (step o (enters now) g)
detections o (e ∷ es) g = detections o es (step o e g)

-- How many events of a run end a detection.
unfoldable pub settlements : List Event → ℕ
settlements [] = 0
settlements (finds_h1 ∷ es) = suc (settlements es)
settlements (finds_h2 ∷ es) = suc (settlements es)
settlements (fails_h2 now ∷ es) = suc (settlements es)
settlements (e ∷ es) = settlements es
