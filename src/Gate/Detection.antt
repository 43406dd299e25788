-- ===== src/Gate/Detection.antt =====
-- One detector at a time, and the gate's invariant.
use http_client.Prelude.{ℕ, ◌+◌, ◌≤◌, ◌≡◌, refl, List, [], ◌∷◌, arith}
use http_client.Gate.{
  Gate, GateOptions, ProtocolState, unknown, detecting, h1_only, h2_available, h2_failed_recently,
  enter, set_protocol, mark_h2_failed, record_h2_origin, wait_for_detection, enter_in,
}
use http_client.Gate.Run.{
  Event, enters, finds_h1, finds_h2, fails_h2, records_h2, suspends, step, detections, settlements,
  is_detect,
}

-- 1 while a detection runs.
abbrev pub running : ProtocolState → ℕ
running unknown = 0
running detecting = 1
running h2_available = 0
running h1_only = 0
running h2_failed_recently = 0

running-le-one : (p : ProtocolState) → running p ≤ 1
running-le-one p = ground arith

enter_in_count :
    (p : ProtocolState) (o : GateOptions) (now : ℕ) (g : Gate)
    → g.protocol ≡ p
    → is_detect ((enter_in p o now g).0).action + running p
      ≡ running ((enter_in p o now g).1).protocol
unfolding enter
enter_in_count h2_available o now g e = ground arith
enter_in_count h1_only o now g e = ground arith
enter_in_count h2_failed_recently o now g e = ground arith
enter_in_count detecting o now g e = ground arith
enter_in_count unknown o now g e = ground arith

enter_count :
    (o : GateOptions) (now : ℕ) (g : Gate)
    → is_detect ((enter o now g).0).action + running g.protocol
      ≡ running ((enter o now g).1).protocol
enter_count o now g = unfold enter in enter_in_count g.protocol o now g refl

-- In every run the calls that are told to detect number at most one more than the events that end a
-- detection, and no more than those if a detection runs at the start: so two detectors never run with
-- no result between them.
pub detections-le-settlements :
    (o : GateOptions) (es : List Event) (g : Gate)
    → detections o es g + running g.protocol ≤ settlements es + 1
unfolding detections settlements step set_protocol mark_h2_failed record_h2_origin
    wait_for_detection
detections-le-settlements o [] g = omega (arith, running-le-one g.protocol)
detections-le-settlements o (enters now ∷ es) g =
    omega (arith, detections-le-settlements o es (enter o now g).1, enter_count o now g)
detections-le-settlements o (finds_h1 ∷ es) g =
    omega
      (arith, detections-le-settlements o es (set_protocol h1_only g), running-le-one g.protocol)
detections-le-settlements o (finds_h2 ∷ es) g =
    omega (
      arith,
      detections-le-settlements o es (set_protocol h2_available g),
      running-le-one g.protocol,
    )
detections-le-settlements o (fails_h2 now ∷ es) g =
    omega
      (arith, detections-le-settlements o es (mark_h2_failed o now g), running-le-one g.protocol)
detections-le-settlements o (records_h2 ∷ es) g =
    detections-le-settlements o es (record_h2_origin g)
detections-le-settlements o (suspends w ∷ es) g =
    detections-le-settlements o es (wait_for_detection w g)
