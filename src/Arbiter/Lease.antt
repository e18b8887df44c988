-- ===== src/Arbiter/Lease.antt =====
-- vehicle/safety-arbiter/proto_kernel.go: HandleProtoLease. The checks that run before the lock is
-- taken are `admit_lease`; what the lock guards is `apply_lease`.
use manage_robot.Common.{
  Bool, true, false, not, ◌&&◌, ◌||◌, Option, none, some, List, [], ◌∷◌, String, str_eq, ◌==◌,
  if◌then◌else◌, length, pos, ltb_ℤ, leb_ℤ, eqb_ℤ, to_int64, Result, ok, err, ◌>>=◌, ◌>>◌,
  refuse_if, or_fail,
}
use manage_robot.Wire.GoTime.{Time, unix_ns, before, after, time_add, neg}
use manage_robot.Wire.Envelope.{Bytes, Envelope, LeaseAction, LeaseGrant, grant, revoke}
use manage_robot.Wire.Codec.{Codec}
use manage_robot.Wire.Auth.{is_empty, validate_envelope, verify_envelope_auth}
use manage_robot.Arbiter.State.{
  Float, Detail, accepted, rejected_fencing, rejected_lease, rejected_auth, failed, expired_grant,
  stale_grant, changed_grant, renewed_grant, new_grant, stale_revoke, revoked, revoked_failed,
  unknown_action_detail, envelope_missing, bad_envelope, bad_auth_tag, bad_payload, bad_fields,
  issue_skew, missing_driver, untrusted_key, bad_signature, Config, ActiveLease, Arbiter, Actuator,
  risked, Outcome, decide, decide_risk, refuse,
}

abbrev pub is_grant : LeaseAction → Bool
is_grant grant = true
is_grant _ = false

abbrev pub is_revoke : LeaseAction → Bool
is_revoke revoke = true
is_revoke _ = false

-- The lookup in the map of the Authority's keys.
unfoldable pub find_key : String → List (String × Bytes) → Option Bytes
find_key id [] = none
find_key id ((k, v) ∷ keys) = if str_eq k id then some v else find_key id keys

-- A pointer message that Unmarshal or Validate reports on.
abbrev pub wrap_error {ℓ κ μ} :
    {E : Type ℓ} {E' : Type κ} {A : Type μ} → (E → E') → Result E A → Result E' A
wrap_error f (ok a) = ok a
wrap_error f (err e) = err (f e)

module _ {F : Type 0} (c : Codec F) where
  lease_fields_bad : Config F → Envelope → LeaseGrant → Bool
  lease_fields_bad cfg env g =
      not (g.version == 1)
      || (not (is_grant g.action) && not (is_revoke g.action))
      || not (str_eq g.vehicle_id cfg.vehicle_id)
      || not (str_eq g.gateway_id cfg.gateway_id)
      || is_empty g.lease_id
      || g.fencing_token == 0
      || not (env.sequence == g.fencing_token)
      || leb_ℤ g.issued_at_unix_ns (pos 0)
      || eqb_ℤ g.valid_until_unix_ns (pos 0)

  issued_outside : Config F → Envelope → LeaseGrant → Bool
  issued_outside cfg env g =
      let issued = unix_ns g.issued_at_unix_ns in
      let sent = unix_ns env.utc_time_ns in
      before issued (time_add sent (neg cfg.max_clock_skew))
      || after issued (time_add sent cfg.max_clock_skew)

  signed_by : Bytes → LeaseGrant → Bool
  signed_by key g = elim (c.marshal_grant (record g { authority_signature = [] })) [
    | none ↦ false
    | some canonical ↦ c.verify key canonical g.authority_signature
  ]

  unfoldable pub validate_proto_lease : Config F → Envelope → LeaseGrant → Result Detail (Unit {0})
  unfolding lease_fields_bad issued_outside signed_by
  validate_proto_lease cfg env g = do
    refuse_if (lease_fields_bad cfg env g) bad_fields
    refuse_if (issued_outside cfg env g) issue_skew
    refuse_if (is_grant g.action && (is_empty g.driver_id || is_empty g.device_id)) missing_driver
    key ← or_fail (find_key g.authority_key_id cfg.authority_keys) untrusted_key
    refuse_if (not (length key == 32) || not (length g.authority_signature == 64)) untrusted_key
    refuse_if (not (signed_by key g)) bad_signature
    ok tt

  -- `now` is cfg.Now() and `clock` what time.Now() returns, both before the lock is taken.
  unfoldable pub admit_lease : Config F → Option Envelope → Time → Time → Result Detail LeaseGrant
  admit_lease cfg none now clock = err envelope_missing
  admit_lease cfg (some env) now clock = do
    wrap_error bad_envelope (
        validate_envelope (some env) "platform.v1.LeaseGrant" cfg.vehicle_id cfg.gateway_id now
          clock)
    refuse_if (not (verify_envelope_auth c (some env) cfg.command_mac_key)) bad_auth_tag
    g ← or_fail (c.unmarshal_grant env.payload) bad_payload
    validate_proto_lease cfg env g
    ok g

module _ {F : Type 0} (fl : Float F) where
  -- A grant under the fencing token that is in force: it can only prolong its own lease.
  renew_lease : Arbiter F → Option ActiveLease → LeaseGrant → Outcome F
  renew_lease a none g = refuse fl a (decide fl rejected_fencing changed_grant)
  renew_lease a (some l) g =
      let until = unix_ns g.valid_until_unix_ns in
      if not (str_eq l.lease_id g.lease_id) || before until l.valid_until
      then refuse fl a (decide fl rejected_fencing changed_grant)
      else record {
        arbiter = record a { lease = some (record l { valid_until = until }) };
        decision = decide fl accepted renewed_grant;
        effects = [];
      }

  fresh_lease : LeaseGrant → Time → ActiveLease
  fresh_lease g now = record {
    lease_id = g.lease_id;
    fencing = to_int64 g.fencing_token;
    valid_until = unix_ns g.valid_until_unix_ns;
    last_command = now;
    last_seq = pos 0;
    session_id = "";
  }

  take_grant : Arbiter F → LeaseGrant → Time → Outcome F
  unfolding renew_lease fresh_lease
  take_grant a g now =
      let fencing = to_int64 g.fencing_token in
      if not (after (unix_ns g.valid_until_unix_ns) now)
      then refuse fl a (decide_risk fl rejected_lease expired_grant "lease_expired" (pos 0))
      else if ltb_ℤ fencing a.last_fencing
      then refuse fl a (decide fl rejected_fencing stale_grant)
      else if eqb_ℤ fencing a.last_fencing
      then renew_lease a a.lease g
      else record {
        arbiter = record {
          cfg = a.cfg;
          last_fencing = fencing;
          lease = some (fresh_lease g now);
          minimal_risk = "";
        };
        decision = decide fl accepted new_grant;
        effects = [];
      }

  take_revoke : Arbiter F → Actuator F → LeaseGrant → Outcome F
  take_revoke a act g =
      let fencing = to_int64 g.fencing_token in
      if ltb_ℤ fencing a.last_fencing
      then refuse fl a (decide fl rejected_fencing stale_revoke)
      else record {
        arbiter = record {
          cfg = a.cfg;
          last_fencing = fencing;
          lease = none;
          minimal_risk = "lease_revoked";
        };
        decision =
            let reply = act.minimal_risk "lease_revoked" in
            if reply.failed
            then decide_risk fl failed revoked_failed "lease_revoked" (pos 0)
            else decide_risk fl accepted revoked "lease_revoked" reply.applied_ns;
        effects = risked "lease_revoked" ∷ [];
      }

  lease_action : LeaseAction → Arbiter F → Actuator F → LeaseGrant → Time → Outcome F
  unfolding take_grant take_revoke
  lease_action grant a act g now = take_grant a g now
  lease_action revoke a act g now = take_revoke a act g
  lease_action _ a act g now = refuse fl a (decide fl rejected_auth unknown_action_detail)

  -- What the arbiter does under its lock; `now` is read again there.
  unfoldable pub apply_lease : Arbiter F → Actuator F → LeaseGrant → Time → Outcome F
  unfolding lease_action
  apply_lease a act g now = lease_action g.action a act g now

module _ {F : Type 0} (fl : Float F) (c : Codec F) where
  -- `now` and `clock` are read before the lock is taken, `later` after.
  unfoldable pub handle_proto_lease :
      Arbiter F → Actuator F → Option Envelope → Time → Time → Time → Outcome F
  handle_proto_lease a act env now clock later = elim (admit_lease c a.cfg env now clock) [
    | err d ↦ refuse fl a (decide fl rejected_auth d)
    | ok g ↦ apply_lease fl a act g later
  ]
