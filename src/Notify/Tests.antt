-- ===== src/Notify/Tests.antt =====
-- Two targets for services/notification-worker/worker.py, of which the second is refused.
use Prim.Native.String.{String}
use signalchord.Prelude.{ℕ, ◌≡◌, refl, true, false, none, List, [], ◌∷◌, ok}
use signalchord.Kafka.World.{World}
use signalchord.Kafka.Tests.{broker}
use signalchord.Graph.Json.{text, object, other}
use signalchord.Events.Values.{Runtime, dict}
use signalchord.Events.Tests.{Value, runtime}
use signalchord.Notify.Deliver.{Call, Http, expo_message, provider_id}
use signalchord.Notify.Process.{push, attempt_push, deliver_target, deliver_targets}
use signalchord.Notify.Reports.{reports, IsHandled, deliver_targets-IsHandled}

abbrev rt : Runtime (Unit {0}) ℕ
rt = runtime (other tt)

abbrev http : Http (Unit {0})
http = record {
  raised = λ calls. none;
  json = λ calls. ok (object (dict (("data", object (dict (("id", text "p1") ∷ []))) ∷ [])));
  iterate = λ v. ok [];
  is_hashable = λ a. true;
  is_true = λ v. false;
  is_severe = λ v. ok false;
}

abbrev target : String → String → Value
target id platform =
    object
      (dict (("delivery_id", text id) ∷ ("platform", text platform) ∷ ("token", text "t") ∷ []))

abbrev targets : List Value
targets = target "d1" "ios" ∷ target "d2" "fax" ∷ target "d3" "ios" ∷ []

abbrev payload : Value
payload = object (dict (("title", text "News") ∷ ("alert_id", text "a1") ∷ []))

abbrev idle : World ℕ (List (Call (Unit {0})))
idle = record { log = []; cell = [] }

-- nothing is tried for the third
two_reports :
    reports (deliver_targets rt http broker payload targets idle).1.cell
    ≡ (text "d1", "delivered") ∷ (text "d2", "failed") ∷ []
unfolding deliver_targets deliver_target attempt_push push expo_message provider_id
two_reports = refl

deliver_targets-IsHandled_example :
    let r = deliver_targets rt http broker payload targets idle in
    IsHandled rt http broker [] targets r.0 (reports r.1.cell)
deliver_targets-IsHandled_example = deliver_targets-IsHandled rt http broker payload targets idle
