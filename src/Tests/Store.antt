-- ===== src/Tests/Store.antt =====
-- A record that is stored, retrieved and verified.
use worm.Base.{true, false, [], ◌≡◌, refl, codes, str_eq, count_where}
use worm.Model.{RawEvent, RawStatus}
use worm.Store.Action.{ok, Db, ◌>>=◌, transact}
use worm.Store.Raw.{store_new, retrieve, verify}
use worm.Store.Commit.{as_read, store-retrieve}
use worm.Tests.Setup.{no_metadata, datagram, no_tables, toy_library}

abbrev empty_db : Db
empty_db = record { tables = no_tables; counter = 0; faults = [] }

abbrev pub stored : RawEvent
stored = record {
  raw_id = codes "raw-i";
  received_at = 7;
  transport = codes "syslog-udp";
  source_ip = codes "10.0.0.1";
  source_port = 514;
  payload = codes "x";
  raw_sha256 = codes "hx";
  status = RawStatus.accepted;
  duplicate = false;
  byte_count = 1;
  metadata = (datagram (codes "x")).metadata;
}

stored_run : (store_new (datagram (codes "x")) 9 (codes "r") empty_db).0 ≡ ok stored
unfolding store_new str_eq ◌>>=◌ transact count_where
stored_run = refl

store-retrieve_example :
    (stored.payload ≡ codes "x")
    × ((retrieve stored.raw_id (store_new (datagram (codes "x")) 9 (codes "r") empty_db).1).0
        ≡ ok (as_read no_metadata stored))
    × ((verify stored.raw_id (store_new (datagram (codes "x")) 9 (codes "r") empty_db).1).0
        ≡ ok (true, codes "hx"))
store-retrieve_example =
    store-retrieve (datagram (codes "x")) 9 (codes "r") empty_db stored no_metadata refl refl
      stored_run
