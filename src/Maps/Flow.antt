-- ===== src/Maps/Flow.antt =====
-- server/fleet/map_publication.go: the operations one after another.
use manage_robot.Common.{Option, List, [], ◌∷◌, String, ℤ, Result, ok, err}
use manage_robot.Wire.Envelope.{Bytes}
use manage_robot.Wire.Codec.{Codec}
use manage_robot.Maps.Data.{Action, Publication, Tables, MapError}
use manage_robot.Maps.Ack.{MapAck, handle_map_publication_ack, mark_map_publication_dispatched}
use manage_robot.Maps.Request.{Draws, request_map_publication, rollback_map_publication}
use manage_robot.Maps.Approve.{MapCommand, approve_map_publication}

pub data Step : Type 0 where
  -- map, vehicle, version, action, frame, operator
  requests : Draws → String → String → ℤ → Action → String → String → Step
  -- publication, operator
  rolls_back : Draws → String → String → Step
  approves : Draws → String → String → Step
  -- the database's time, publication
  dispatches : ℤ → String → Step
  -- vehicle, gateway, the acknowledgement, the two clocks
  acknowledges : String → String → MapAck → ℤ → ℤ → Step

abbrev pub requested_or : Tables → Result MapError (Tables × Publication) → Tables
requested_or db (ok (db', p)) = db'
requested_or db (err e) = db

abbrev pub approved_or : Tables → Result MapError Tables → Tables
approved_or db (ok db') = db'
approved_or db (err e) = db

abbrev pub acked_or : Tables → Result MapError (List Publication) → Tables
acked_or db (ok ps) = record db { publications = ps }
acked_or db (err e) = db

module _ {F : Type 0} (c : Codec F) (marshal : MapCommand → Option Bytes)
    (to_lower : String → String) (key : Bytes) where
  unfoldable pub step : Tables → Step → Tables
  step db (requests t map_id vehicle version action frame by) =
      requested_or db (request_map_publication t map_id vehicle version action frame by db)
  step db (rolls_back t source by) = requested_or db (rollback_map_publication t source by db)
  step db (approves t id by) =
      approved_or db (approve_map_publication c marshal key to_lower t id by db)
  step db (dispatches at id) = record db {
    publications = mark_map_publication_dispatched at id db.publications;
  }
  step db (acknowledges vehicle gateway ack now at) =
      acked_or db (handle_map_publication_ack vehicle gateway ack now at db.publications)

  unfoldable pub run : Tables → List Step → Tables
  run db [] = db
  run db (e ∷ es) = run (step db e) es
