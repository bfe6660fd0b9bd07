-- ===== src/Sync/Merge.antt =====
-- internal/sync/engine.go: `mergeConflict`, the resolution of a two-sided edit.
pub mod Symmetry
pub mod Bodies
use flightdeck.Base.{
  ℕ, ◌+◌, ◌||◌, Option, none, some, [], ◌∷◌, ◌++◌, ltb, if◌then◌else◌, ◌==◌, nat_eq, string_eq,
}
use flightdeck.Base.Bytes.{Bytes, codes, bytes_eq, bytes_ltb, contains_text}
use flightdeck.Sync.Payload.{Item, ItemPayload}

abbrev pub conflict_separator : Bytes
conflict_separator =
    10 ∷ 10 ∷ codes "---"
    ++ 10 ∷ codes "_Edited on both instances; the other version:_"
    ++ 10 ∷ 10 ∷ []

-- The switch on the bodies: the body of the result.
pub merge_body : Bytes → Bytes → Bytes → Bytes → Bytes
merge_body local_id remote_id local remote =
    if local == remote || local == []
    then remote
    else if remote == []
    then local
    else if contains_text remote local
    then remote
    else if contains_text local remote
    then local
    else if bytes_ltb local_id remote_id
    then local ++ (conflict_separator ++ remote)
    else remote ++ (conflict_separator ++ local)

-- A deletion on this side stands where the other has none.
pub merge_deleted : Option ℕ → Option ℕ → Option ℕ
merge_deleted (some t) none = some t
merge_deleted local remote = remote

-- The scalars, by the higher instance id.
pub merge_scalars : Bytes → Bytes → Item → ItemPayload → ItemPayload
merge_scalars local_id remote_id local remote =
    if bytes_ltb remote_id local_id
    then record remote {
      title = local.title;
      status = local.status;
      priority = local.priority;
      type = local.type;
      assignee = local.assignee;
      tags = local.tags;
    }
    else remote

unfoldable pub merge_conflict : Bytes → Bytes → Item → ItemPayload → ItemPayload
unfolding merge_scalars merge_body merge_deleted
merge_conflict local_id remote_id local remote =
    let scalars = merge_scalars local_id remote_id local remote in
    record scalars {
      body = merge_body local_id remote_id local.body remote.body;
      created_at =
          if ltb local.created_at remote.created_at then local.created_at else remote.created_at;
      deleted_at = merge_deleted local.deleted_at remote.deleted_at;
    }
