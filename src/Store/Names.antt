-- ===== src/Store/Names.antt =====
-- The `names`, `namespaces`, `principals` and `audit_events` tables of sql_metadata.py.
use ai_vfs.Base.{
  ◌≡◌, Bool, false, not, ◌&&◌, Option, none, some, List, [], ◌∷◌, Text, text_eq, text_eq_iff, any,
  if◌then◌else◌, arith,
}
use ai_vfs.Models.{AuditEvent, Namespace, Principal}
use ai_vfs.Errors.{ok, err, conflict, integrity_error}
use ai_vfs.Exec.{gets, modify}
use ai_vfs.Store.Tables.{Sql, NameRow}

unfoldable pub names_entity : Text → Text → NameRow → Bool
unfolding text_eq
names_entity entity_type entity_id r =
    text_eq r.entity_type entity_type && text_eq r.entity_id entity_id

unfoldable pub shows_name : Text → Text → NameRow → Bool
unfolding text_eq
shows_name entity_type display_name r =
    text_eq r.entity_type entity_type && text_eq r.display_name display_name

-- The UNIQUE(entity_type, display_name) key, against a row of another entity.
unfoldable pub is_taken : Text → Text → Text → List NameRow → Bool
unfolding shows_name text_eq any
is_taken entity_type entity_id display_name =
    any (λ r. shows_name entity_type display_name r && not (text_eq r.entity_id entity_id))

unfoldable pub upsert_name : Text → Text → Text → List NameRow → List NameRow
unfolding names_entity
upsert_name entity_type entity_id display_name [] =
    (record { entity_type = entity_type; entity_id = entity_id; display_name = display_name }) ∷ []
upsert_name entity_type entity_id display_name (r ∷ rs) =
    if names_entity entity_type entity_id r
    then record r { display_name = display_name } ∷ rs
    else r ∷ upsert_name entity_type entity_id display_name rs

unfoldable pub set_name : Text → Text → Text → Sql (Unit {0})
unfolding is_taken upsert_name
set_name entity_type entity_id display_name m =
    if is_taken entity_type entity_id display_name m.names
    then (err conflict, m)
    else (ok tt, record m { names = upsert_name entity_type entity_id display_name m.names })

unfoldable pub find_name : Text → Text → List NameRow → Option Text
unfolding shows_name
find_name entity_type display_name [] = none
find_name entity_type display_name (r ∷ rs) =
    if shows_name entity_type display_name r
    then some r.entity_id
    else find_name entity_type display_name rs

unfoldable pub resolve_name : Text → Text → Sql (Option Text)
unfolding find_name
resolve_name entity_type display_name = gets (λ m. find_name entity_type display_name m.names)

unfoldable pub upsert_namespace : Namespace → List Namespace → List Namespace
unfolding text_eq
upsert_namespace n [] = n ∷ []
upsert_namespace n (o ∷ os) = if text_eq o.id n.id then n ∷ os else o ∷ upsert_namespace n os

unfoldable pub put_namespace : Namespace → Sql (Unit {0})
unfolding upsert_namespace
put_namespace n = modify (λ m. record m { namespaces = upsert_namespace n m.namespaces })

unfoldable pub upsert_principal : Principal → List Principal → List Principal
unfolding text_eq
upsert_principal p [] = p ∷ []
upsert_principal p (q ∷ qs) = if text_eq q.id p.id then p ∷ qs else q ∷ upsert_principal p qs

unfoldable pub put_principal : Principal → Sql (Unit {0})
unfolding upsert_principal
put_principal p = modify (λ m. record m { principals = upsert_principal p m.principals })

unfoldable pub has_event : Text → List AuditEvent → Bool
unfolding text_eq any
has_event i = any (λ e. text_eq e.event_id i)

-- `INSERT INTO audit_events`: the primary key is enforced.
unfoldable pub append_audit_event : AuditEvent → Sql (Unit {0})
unfolding has_event
append_audit_event e m =
    if has_event e.event_id m.audit_events
    then (err integrity_error, m)
    else (ok tt, record m { audit_events = e ∷ m.audit_events })

-- Claiming a free name resolves it to the entity, whatever names the entity had.
pub find_name-upsert_name :
    (entity_type entity_id display_name : Text) (rs : List NameRow)
    → is_taken entity_type entity_id display_name rs ≡ false
    → find_name entity_type display_name (upsert_name entity_type entity_id display_name rs)
      ≡ some entity_id
unfolding find_name upsert_name is_taken names_entity shows_name any
find_name-upsert_name t i d [] h = ground (arith, text_eq_iff t t, text_eq_iff d d)
find_name-upsert_name t i d (r ∷ rs) h = ground (
  arith,
  find_name-upsert_name t i d rs,
  text_eq_iff r.entity_type t,
  text_eq_iff r.entity_id i,
  text_eq_iff r.display_name d,
  text_eq_iff d d,
)
