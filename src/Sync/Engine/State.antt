-- ===== src/Sync/Engine/State.antt =====
-- internal/sync/engine.go and internal/store/sharing.sql.go: the state of one share, and what the code
-- takes from other packages.
use flightdeck.Base.{ℕ, Bool, true, false, ◌&&◌, Option, none, some, nat_beq, if◌then◌else◌, Eq}
use flightdeck.Base.Assoc.{Assoc}
use flightdeck.Base.Bytes.{Bytes, codes}
use flightdeck.Sync.Payload.{Item, ItemPayload, Activity, ActivityPayload, Project, ProjectPayload}

-- The constants KindItem, KindActivity and KindProject.
pub data Kind : Type 0 where
  item activity project : Kind

abbrev pub kind_text : Kind → Bytes
kind_text item = codes "item"
kind_text activity = codes "activity"
kind_text project = codes "project"

abbrev pub protocol_version : ℕ
protocol_version = 1

pub record Envelope (Doc : Type 0) : Type 0 where
  pub version : ℕ
  pub kind : Bytes
  pub origin : Bytes
  pub payload : Doc

pub record ShareState (Hash : Type 0) : Type 0 where
  pub sent : Option Hash
  pub base : Option Hash

-- No row of project_share_state: both hashes are "".
abbrev pub no_state : {Hash : Type 0} → ShareState Hash
no_state = record { sent = none; base = none }

pub record Db (Hash : Type 0) : Type 0 where
  pub items : Assoc ℕ Item
  pub activities : Assoc ℕ Activity
  pub the_project : Project
  pub states : Kind → ℕ → ShareState Hash

pub record Wire : Type 1 where
  pub Doc : Type 0
  pub Hash : Type 0
  pub Sealed : Type 0
  pub hash_eq : Eq Hash
  pub hash : Doc → Hash
  pub marshal_item : ItemPayload → Doc
  pub marshal_activity : ActivityPayload → Doc
  pub marshal_project : ProjectPayload → Doc
  pub decode_item : Doc → Option ItemPayload
  pub decode_activity : Doc → Option ActivityPayload
  pub decode_project : Doc → Option ProjectPayload
  pub seal : Envelope Doc → Sealed
  pub decrypt : Sealed → Option (Envelope Doc)
  pub uuid_string : ℕ → Bytes
  pub uuid_parse : Bytes → Option ℕ
  pub quote : Bytes → Bytes
  pub new_id : Db Hash → ℕ
  pub now : ℕ

unfoldable pub kind_beq : Kind → Kind → Bool
kind_beq item item = true
kind_beq activity activity = true
kind_beq project project = true
kind_beq _ _ = false

unfoldable pub put_state : {Hash : Type 0} → Kind → ℕ → ShareState Hash → Db Hash → Db Hash
unfolding kind_beq
put_state k id st db = record db {
  states = λ j i. if kind_beq j k && nat_beq i id then st else db.states j i;
}

-- RecordApplied, RecordMergedBase and RecordSent (internal/store/sharing.sql.go).
unfoldable pub record_applied : {Hash : Type 0} → Kind → ℕ → Hash → Db Hash → Db Hash
unfolding put_state
record_applied k id h db = put_state k id (record { sent = some h; base = some h }) db

unfoldable pub record_merged_base : {Hash : Type 0} → Kind → ℕ → Hash → Db Hash → Db Hash
unfolding put_state
record_merged_base k id h db =
    put_state k id (record { sent = (db.states k id).sent; base = some h }) db

unfoldable pub record_sent : {Hash : Type 0} → Kind → ℕ → Hash → Db Hash → Db Hash
unfolding put_state
record_sent k id h db = put_state k id (record { sent = some h; base = (db.states k id).base }) db

pub record Share : Type 0 where
  pub project_id : ℕ
  pub peer_name : Bytes
