-- ===== src/Store/Frames.antt =====
-- What the methods leave alone.
use nadi.Common.{suc, ◌≡◌, String, Option, arith}
use nadi.Common.Int.{ℤ}
use nadi.Json.{Fields}
use nadi.Store.Schema.{Env, Store}
use nadi.Store.Sessions.{create_session}
use nadi.Store.Events.{append_event}
use nadi.Store.Commands.{enqueue_command}
use nadi.Store.Leases.{create_lease}
use nadi.Store.Channels.{get_or_create_channel}

module _ {Text : Type 0} (env : Env Text) (s : Store Text) where
  pub get_or_create_channel-frame :
      (p ch t sid rid : String) (metadata : Option Fields)
      → let s' = (get_or_create_channel env p ch t sid rid metadata s).1 in
        s' ≡ record s {
          channels = s'.channels;
          clock_reads = suc s.clock_reads;
          uuid_reads = suc s.uuid_reads;
        }
  unfolding get_or_create_channel
  get_or_create_channel-frame p ch t sid rid metadata = ground arith

  pub create_lease-frame :
      (sid hid : String) (ttl : ℤ)
      → let s' = (create_lease env sid hid ttl s).1 in
        s' ≡ record s {
          session_leases = s'.session_leases;
          cell_hosts = s'.cell_hosts;
          clock_reads = suc s.clock_reads;
          uuid_reads = suc s.uuid_reads;
        }
  unfolding create_lease
  create_lease-frame sid hid ttl = ground arith

  pub create_session-frame :
      (tenant : String) (external_id bundle : Option String) (metadata : Option Fields)
      → let s' = (create_session env tenant external_id bundle metadata s).1 in
        s' ≡ record s {
          sessions = s'.sessions;
          clock_reads = suc s.clock_reads;
          uuid_reads = suc s.uuid_reads;
        }
  unfolding create_session
  create_session-frame tenant external_id bundle metadata = ground arith

  pub append_event-frame :
      (sid ty : String) (payload : Option Fields) (actor : Option String)
      → let s' = (append_event env sid ty payload actor s).1 in
        s' ≡ record s {
          events = s'.events;
          last_event_id = s'.last_event_id;
          clock_reads = suc s.clock_reads;
        }
  unfolding append_event
  append_event-frame sid ty payload actor = ground arith

  pub enqueue_command-frame :
      (sid ty : String) (payload : Option Fields) (actor : Option String)
      → let s' = (enqueue_command env sid ty payload actor s).1 in
        s' ≡ record s {
          command_inbox = s'.command_inbox;
          last_command_id = s'.last_command_id;
          clock_reads = s'.clock_reads;
        }
  unfolding enqueue_command
  enqueue_command-frame sid ty payload actor = ground arith
