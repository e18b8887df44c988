-- ===== src/Examples/Fleet.antt =====
-- The theorems on ordering, navigation, the outbox, capabilities and tags, at small inputs.
use mathlib.Core.List.{Memᴰ}
use manage_robot.Common.{
  trim, ℕ, ◌≤◌, ◌<◌, ◌≡◌, refl, ◌⊎◌, Bool, true, false, none, some, List, [], ◌∷◌, String, ℤ, pos,
  ok, All, length, arith, ◌+ℤ◌,
}
use manage_robot.Registry.Cursor.{
  Channel, Inbound, accepted, same_channel, last_sequence, set_cursor, accept_inbound_sequence,
  accept_inbound_sequence_tx,
}
use manage_robot.Registry.Ordering.{InOrder, accepted-InOrder}
use manage_robot.Navigation.Ack.{
  Status, queued, running, cancelled, cancel_requested, completed, dispatch, cancel, ack_started,
  ack_completed, ack_cancelled, navigation_ack_transition, Action, AckResult,
}
use manage_robot.Navigation.Route.{
  Route, NavigationAck, cancel_begin, cancel_store, storing, mark_dispatched, delivered, commit_ack,
  check_ack, project_ack, acknowledged,
}
use manage_robot.Navigation.World.{
  Event, delivers, cancels, acknowledges, goes_on, World, step, run, on_delivery, on_ack, on_begin,
  perform, task_at, without_task, ever_overwrites,
}
use manage_robot.Navigation.Onwards.{rank}
use manage_robot.Navigation.Life.{
  resting, overtaken, run_forward, cancelled_confirmed, cancel_reopens,
}
use manage_robot.Outbox.Table.{
  slash, Message, enqueue_outbox_tx, insert_outbox, message_bad, dedupe_key_of, Item, pending,
  claim_outbox, in_batch, batch_of, by_age, insert_by_age, due, recover, recover_one,
  outbox_claim_timeout,
}
use manage_robot.Outbox.Delivery.{
  enqueue_once, Work, queues, claims, marks, work, Apart, claim_exclusive,
}
use manage_robot.Wire.Envelope.{Bytes, Envelope, target_motion, minimal_risk}
use manage_robot.Wire.Auth.{
  sign_envelope, verify_envelope_auth, verify_control_command_mac, sign_control_command_mac,
  validate_envelope, wrong_identity, no_freshness, outside_window, control_command_mac_input,
}
use manage_robot.Wire.Tags.{verify_envelope_auth-sign_envelope, verify_control_command_mac-sign}
use manage_robot.Capability.Assess.{
  Capabilities, Entry, Matrix, CapabilityDecision, complete, assess_gateway_capabilities,
  validate_capabilities, load_compatibility_matrix, decide_first, decide_entry, matches, reasons_of,
  mode_reasons, mode_name,
}
use manage_robot.Capability.Persist.{
  Declared, Admissions, find_declared, find_row, persist_capabilities, require_monitoring,
}
use manage_robot.Capability.Admission.{persist_assessed}
use manage_robot.Capability.Safety.{Fulfils, assess_control_sound}
use manage_robot.Examples.World.{codec, lawful, envelope, drive, zeros, number}

abbrev poses : Channel
poses = record { vehicle_id = "v1"; gateway_id = "g1"; message_type = "pose"; session_id = "s1" }

abbrev none_yet : Inbound
none_yet = record { cursors = []; ledger = [] }

abbrev arrivals : List (Channel × ℕ)
arrivals = (poses, 2) ∷ (poses, 1) ∷ (poses, 2) ∷ (poses, 5) ∷ []

arrivals-accepted : accepted none_yet arrivals ≡ (poses, 2) ∷ (poses, 5) ∷ []
unfolding accepted accept_inbound_sequence accept_inbound_sequence_tx same_channel last_sequence
    set_cursor
arrivals-accepted = refl

accepted-InOrder_example : InOrder (accepted none_yet arrivals)
accepted-InOrder_example = accepted-InOrder none_yet arrivals

abbrev route : Status → Route
route s = record {
  id = "r1";
  vehicle_id = "v1";
  points = 3;
  status = s;
  dispatched_ns = pos 0;
  ack_result = none;
  current_point = 0;
  ack_ns = pos 0;
  updated_ns = pos 0;
}

abbrev ack : Action → AckResult → NavigationAck
ack a r = record {
  version = 1;
  vehicle_id = "v1";
  route_id = "r1";
  action = a;
  result = r;
  current_point = 1;
}

abbrev at_rest : Status → World
at_rest s = resting (route s) (route s) none_yet

abbrev travel : List Event
travel =
    delivers (pos 1)
    ∷ acknowledges "4g" poses 1 (ack dispatch ack_started) (pos 2)
    ∷ goes_on 1 (pos 3) true
    ∷ cancels
    ∷ goes_on 0 (pos 3) true
    ∷ goes_on 0 (pos 4) true
    ∷ acknowledges "4g" poses 2 (ack cancel ack_cancelled) (pos 5)
    ∷ []

travel-overwrites : ever_overwrites (at_rest queued) travel ≡ false
unfolding ever_overwrites step on_delivery on_ack on_begin perform task_at without_task
    mark_dispatched delivered commit_ack check_ack project_ack acknowledged cancel_begin
    cancel_store navigation_ack_transition accept_inbound_sequence_tx same_channel last_sequence
    set_cursor
travel-overwrites = refl

run_forward_example :
    (0 ≤ rank (run (at_rest queued) travel).row.status)
    × ((false ≡ false) ⊎ ((run (at_rest queued) travel).row.status ≡ queued))
run_forward_example = run_forward (at_rest queued) travel tt travel-overwrites

started : navigation_ack_transition queued dispatch ack_started ≡ some running
unfolding navigation_ack_transition
started = refl

confirmed : navigation_ack_transition cancel_requested cancel ack_cancelled ≡ some cancelled
unfolding navigation_ack_transition
confirmed = refl

cancelled_confirmed_example :
    ((cancel_requested ≡ cancel_requested) ⊎ (cancel_requested ≡ cancelled))
    × (cancel ≡ cancel)
    × (ack_cancelled ≡ ack_cancelled)
cancelled_confirmed_example = cancelled_confirmed cancel_requested cancel ack_cancelled confirmed

begun : cancel_begin (route running) ≡ storing (route cancel_requested)
unfolding cancel_begin
begun = refl

abbrev arrived : NavigationAck
arrived = ack dispatch ack_completed

abbrev arrived_row : Route
arrived_row = record (route completed) {
  ack_result = some ack_completed;
  current_point = 1;
  ack_ns = pos 5;
  updated_ns = pos 5;
}

completes :
    (db : Inbound) × (commit_ack (route running) none_yet "4g" poses 1 arrived (pos 5)
      ≡ ok (arrived_row, db, some completed))
unfolding commit_ack check_ack project_ack acknowledged navigation_ack_transition
    accept_inbound_sequence_tx same_channel last_sequence set_cursor
completes = (_, refl)

cancel_reopens_example :
    let w = run (at_rest running) (overtaken "4g" poses 1 arrived (pos 5)) in
    (arrived_row.ack_result ≡ some ack_completed)
    × (w.row.status ≡ cancel_requested)
    × (w.cached.status ≡ cancel_requested)
    × (rank w.row.status < rank completed)
    × (w.row.ack_result ≡ (route running).ack_result)
cancel_reopens_example =
    cancel_reopens (route running) arrived_row (route running) (route cancel_requested) none_yet
      completes.0 completed "4g" poses 1 arrived (pos 5) begun completes.1 refl

abbrev item : String → ℕ → Item
item id at = record {
  id = id;
  dedupe_key = slash "nav" (slash id "g1/c/0");
  aggregate_type = "nav";
  aggregate_id = id;
  gateway = "g1";
  channel = "c";
  payload = 1 ∷ [];
  status = pending;
  attempts = 0;
  next_attempt_at = pos at;
  created_at = pos at;
  last_error = "";
}

abbrev free : String → Bool
free id = false

abbrev items : List Item
items = item "a" 3 ∷ item "b" 2 ∷ item "c" 90000000000 ∷ []

abbrev message : Message
message = record {
  gateway = "g1";
  channel = "c";
  aggregate_type = "nav";
  aggregate_id = "r1";
  payload = 1 ∷ [];
}

abbrev shifts : List Work
shifts =
    queues "d" "new" message (pos 11)
    ∷ claims free (pos 12)
    ∷ marks "c" false 20 "gone" (pos 12)
    ∷ claims free (pos 40000000000)
    ∷ []

apart :
    All
      (Apart
        (claim_outbox free (pos 10) items).1
        (pos 10 +ℤ outbox_claim_timeout +ℤ outbox_claim_timeout))
      shifts
unfolding claim_outbox batch_of by_age insert_by_age due recover recover_one ◌+ℤ◌
apart = (refl, (omega arith, (refl, (omega arith, tt))))

claim_exclusive_example :
    let (db', batch) = claim_outbox free (pos 10) items in
    let (db'', next) = claim_outbox free (pos 60000000010) (work db' shifts) in
    All (λ i. in_batch batch i.id ≡ false) next × (length next ≤ 32)
unfolding ◌+ℤ◌
claim_exclusive_example =
    claim_exclusive free free (pos 10) (pos 60000000010) items shifts (omega arith) apart

abbrev zero_digest : Bytes → String
zero_digest b = "0"

abbrev queued_message : Item
queued_message = record (item "m1" 5) { dedupe_key = "nav/r1/g1/c/0"; aggregate_id = "r1" }

message_queued :
    enqueue_outbox_tx zero_digest (some "m1") message (pos 5) [] ≡ some (queued_message ∷ [])
unfolding enqueue_outbox_tx insert_outbox message_bad dedupe_key_of
message_queued = refl

enqueue_once_example :
    enqueue_outbox_tx zero_digest (some "m2") message (pos 9) (queued_message ∷ [])
    ≡ some (queued_message ∷ [])
enqueue_once_example =
    enqueue_once zero_digest "m1" "m2" message (pos 5) (pos 9) [] (queued_message ∷ [])
      message_queued

abbrev bare_env : Envelope
bare_env = envelope "platform.v1.ControlCommand" 3

abbrev key : List ℕ
key = zeros 32

env_signed : sign_envelope codec (some bare_env) key ≡ some bare_env
unfolding sign_envelope validate_envelope wrong_identity no_freshness outside_window
env_signed = refl

verify_envelope_auth-sign_envelope_example : verify_envelope_auth codec (some bare_env) key ≡ true
verify_envelope_auth-sign_envelope_example =
    verify_envelope_auth-sign_envelope codec lawful bare_env bare_env key env_signed

command_signed : sign_control_command_mac codec (some bare_env) (drive 3) key ≡ some (drive 3)
unfolding sign_control_command_mac control_command_mac_input
command_signed = refl

verify_control_command_mac-sign_example :
    verify_control_command_mac codec
      (some (record bare_env { payload = 9 ∷ []; auth_tag = [] }))
      (some (drive 3))
      key
    ≡ true
verify_control_command_mac-sign_example =
    verify_control_command_mac-sign codec lawful bare_env (9 ∷ []) [] (drive 3) (drive 3) key
      command_signed

abbrev stack_name : ℤ → String
stack_name n = "VEHICLE_STACK_ROS2"

abbrev caps : Capabilities
caps = record {
  vehicle_id = "v1";
  gateway_version = "1";
  stack = pos 2;
  stack_version = "1";
  topic_mapping_version = "1";
  adapter_version = "1";
  safety_arbiter_version = "1";
  supported_control_modes = target_motion ∷ minimal_risk ∷ [];
  cameras = [];
  modems = some "m1" ∷ some "m2" ∷ [];
  workspace_features = [];
  tpm_available = true;
  certificate_installed = true;
}

abbrev entry : Entry
entry = record {
  id = "ros2";
  stack = "VEHICLE_STACK_ROS2";
  stack_version = "1";
  gateway_version = "1";
  adapter_version = "1";
  safety_arbiter_version = "1";
  topic_mapping_version = "1";
  required_control_modes = "CONTROL_MODE_TARGET_MOTION" ∷ "CONTROL_MODE_MINIMAL_RISK" ∷ [];
  requires_certificate = true;
  requires_tpm_for_control = true;
  required_modems_for_control = 2;
}

abbrev matrix : Matrix
matrix = record { schema_major = 1; schema_minor = 0; entries = entry ∷ [] }

abbrev allowed : CapabilityDecision
allowed = record {
  matrix_entry = "ros2";
  monitoring_allowed = true;
  control_allowed = true;
  control_reason = complete;
}

assessed : assess_gateway_capabilities stack_name number (some matrix) (some caps) ≡ ok allowed
unfolding assess_gateway_capabilities validate_capabilities load_compatibility_matrix decide_first
    decide_entry matches reasons_of mode_reasons mode_name trim
assessed = refl

assess_control_sound_example :
    (m : Matrix) × (e : Entry) × (some matrix ≡ some m)
    × Memᴰ e m.entries
    × Fulfils stack_name number caps e
assess_control_sound_example =
    assess_control_sound stack_name number (some matrix) caps allowed assessed refl

abbrev admissions : Admissions
admissions = record {
  registrations = record { vehicle_id = caps.vehicle_id; gateway_id = "g1"; is_active = true } ∷ [];
  declared = [];
  vehicles =
      record { id = caps.vehicle_id; gateway_id = ""; stack = ""; lifecycle = "active" } ∷ [];
  events = [];
}

persist_assessed_example :
    (db' : Admissions) × (persist_capabilities stack_name "g1"
        (some caps)
        allowed
        (some (1 ∷ []))
        admissions
      ≡ ok db')
    × (require_monitoring caps.vehicle_id "g1" db' ≡ ok tt)
    × (r : Declared) × (find_declared caps.vehicle_id "g1" db'.declared ≡ some r)
    × (r.decision.control_allowed ≡ true)
unfolding find_row trim
persist_assessed_example =
    persist_assessed stack_name number (some matrix) caps allowed "g1" (1 ∷ []) admissions
      (record { id = caps.vehicle_id; gateway_id = ""; stack = ""; lifecycle = "active" }) assessed
      refl refl refl refl
