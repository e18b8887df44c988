-- ===== src/Authority/Publish.antt =====
-- server/fleet/durable_authority.go: publishGrantTx, the signed LeaseGrant in its envelope.
use manage_robot.Common.{some, [], Result, ok, ◌>>=◌, or_fail}
use manage_robot.Wire.Envelope.{Bytes, Envelope, LeaseAction, LeaseGrant}
use manage_robot.Wire.Codec.{Codec}
use manage_robot.Wire.Auth.{sign_envelope}
use manage_robot.Authority.Data.{
  Lease, Settings, Draws, Db, AuthorityError, signing_failed, not_queued,
}
use manage_robot.Outbox.Table.{enqueue_outbox_tx}

unfoldable pub unsigned_grant : Settings → Draws → Lease → LeaseAction → LeaseGrant
unsigned_grant cfg t l action = record {
  version = 1;
  action = action;
  vehicle_id = l.vehicle_id;
  gateway_id = l.gateway_id;
  lease_id = l.lease_id;
  driver_id = l.driver_id;
  device_id = l.device_id;
  fencing_token = l.fencing;
  valid_until_unix_ns = l.valid_until;
  issued_at_unix_ns = t.now;
  authority_key_id = cfg.signer_key_id;
  authority_signature = [];
}

unfoldable pub grant_envelope : Settings → Draws → Lease → Bytes → Envelope
grant_envelope cfg t l payload = record {
  schema_major = 1;
  schema_minor = 0;
  message_type = "platform.v1.LeaseGrant";
  vehicle_id = l.vehicle_id;
  gateway_id = l.gateway_id;
  session_id = "authority";
  sequence = l.fencing;
  utc_time_ns = t.now;
  monotonic_time_ns = t.monotonic;
  ttl_ms = 30000;
  trace_id = l.lease_id;
  payload = payload;
  auth_tag = [];
}

module _ {F : Type 0} (c : Codec F) where
  unfoldable pub signed_grant :
      Settings → Draws → Lease → LeaseAction → Result AuthorityError Envelope
  signed_grant cfg t l action = do
    let unsigned = unsigned_grant cfg t l action
    canonical ← or_fail (c.marshal_grant unsigned) signing_failed
    payload ←
        or_fail
          (c.marshal_grant
            (record unsigned { authority_signature = c.sign cfg.signer_private canonical }))
          signing_failed
    or_fail (sign_envelope c (some (grant_envelope cfg t l payload)) cfg.envelope_auth_key)
        signing_failed

  -- The transaction's tables with the message in the outbox.
  unfoldable pub publish_grant_tx :
      Settings → Draws → Db → Lease → LeaseAction → Result AuthorityError Db
  publish_grant_tx cfg t db l action = do
    env ← signed_grant cfg t l action
    bytes ← or_fail (c.marshal_envelope env) signing_failed
    outbox ←
        or_fail
          (enqueue_outbox_tx c.digest t.outbox_id
            (record {
              gateway = l.gateway_id;
              channel = "lease";
              aggregate_type = "control_lease";
              aggregate_id = l.lease_id;
              payload = bytes;
            })
            t.db_now db.outbox)
          not_queued
    ok (record db { outbox = outbox })
