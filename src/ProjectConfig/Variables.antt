-- ===== src/ProjectConfig/Variables.antt =====
-- The variables of a project after a mutation, and the revisions that earlier jobs name
-- (cmd/brain/project_config.go).
use ovek.Common.{
  ◌≤◌, ◌≡◌, refl, sym, ap, subst, ◌∙◌, String, Bool, true, false, ◌&&◌, Option, none, some, List,
  ◌==◌, eq_iff, eq_refl, map, arith, Bool-cases, Option-cases, inl, inr, if◌then◌else◌,
}
use ovek.Store.{Db}
use ovek.Store.Sql.{
  ok, bind-ok, ok_inj, select, select_row, count_where, exists_where, delete_where, order_by,
}
use ovek.Store.Laws.{count_mono}
use ovek.Store.Rows.{
  count-delete, map_row, select_row-append, select_row-count_zero, select_row-map,
  select_row-delete,
}
use ovek.Store.Changes.{count-delete_le, select_row-select}
use ovek.Store.Order.{count-order_by, count-select, select_row-ext, select_row-order_by}
use ovek.Projects.{has_name, ensure_project, latest_project_config_revision_id}
use ovek.Auth.{Platform}
use ovek.ProjectConfig.{
  EntryRow, ConfigDb, ConfigDraws, EnvironmentMutation, has_revision_id, in_revision,
  has_entry_name, name_before, has_entry_key, in_new_revision, list_project_config_entry_records,
  latest_project_config_entry_map, store_revision, set_entry, stored_value, set_valid_entry,
}
use ovek.ProjectConfig.Revisions.{IsConsistent, IsConsistent-same, store_revision-ok}

-- What a row stores: whether it is a secret, and the value, sealed if it is.
abbrev pub stored : EntryRow → Bool × String
stored row = (row.secret, row.value)

-- The variable of a name in a revision.
abbrev pub variable : String → String → String → ConfigDb → Option (Bool × String)
variable project_name revision_id name db = map_row stored (
    select_row (λ (e : EntryRow). in_revision project_name revision_id e && has_entry_name name e)
      db.project_config_entries)

-- The variable of a name in the project's latest revision, if there is one.
abbrev pub latest_variable : String → String → ConfigDb → Option (Bool × String)
latest_variable project_name name db =
    elim (latest_project_config_revision_id project_name db.tables) [
      | none ↦ none
      | some revision_id ↦ variable project_name revision_id name db
    ]

map-stored :
    (project_name revision_id : String) (o : Option EntryRow)
    → map_row stored (map_row (in_new_revision project_name revision_id) o) ≡ map_row stored o
map-stored project_name revision_id none = refl
map-stored project_name revision_id (some row) = refl

-- The entries of a revision that is not there yet.
no_entries :
    (project_name revision_id name : String) (db : ConfigDb)
    → IsConsistent db
    → exists_where (has_revision_id revision_id) db.tables.project_config_revisions ≡ false
    → count_where
        (λ (e : EntryRow). in_revision project_name revision_id e && has_entry_name name e)
        db.project_config_entries
      ≡ 0
no_entries project_name revision_id name db c new = omega (
  arith,
  c.owned revision_id new,
  count_mono (λ (e : EntryRow). e.revision_id == revision_id)
      (λ (e : EntryRow). in_revision project_name revision_id e && has_entry_name name e)
      db.project_config_entries (λ e k. ground (arith, k)),
)

selected_unique :
    (project_name revision_id name : String) (db : ConfigDb)
    → IsConsistent db
    → count_where
        (has_entry_name name)
        (select (in_revision project_name revision_id) db.project_config_entries)
      ≤ 1
selected_unique project_name revision_id name db c = omega (
  arith,
  c.keyed revision_id name,
  count-select (has_entry_name name) (in_revision project_name revision_id)
      db.project_config_entries,
  count_mono (has_entry_key revision_id name)
      (λ (e : EntryRow). in_revision project_name revision_id e && has_entry_name name e)
      db.project_config_entries (λ e k. ground (arith, k)),
)

records_unique :
    (project_name revision_id name : String) (db : ConfigDb)
    → IsConsistent db
    → count_where
        (has_entry_name name)
        (list_project_config_entry_records project_name revision_id db)
      ≤ 1
unfolding list_project_config_entry_records
records_unique project_name revision_id name db c = omega (
  arith,
  selected_unique project_name revision_id name db c,
  count-order_by (has_entry_name name) name_before
      (select (in_revision project_name revision_id) db.project_config_entries),
)

records-variable :
    (project_name revision_id name : String) (db : ConfigDb)
    → IsConsistent db
    → map_row stored (
        select_row
          (has_entry_name name)
          (list_project_config_entry_records project_name revision_id db))
      ≡ variable project_name revision_id name db
unfolding list_project_config_entry_records
records-variable project_name revision_id name db c = ap (map_row stored) (
    select_row-order_by (has_entry_name name) name_before
      (select (in_revision project_name revision_id) db.project_config_entries)
      (selected_unique project_name revision_id name db c)
    ∙ select_row-select (has_entry_name name) (in_revision project_name revision_id)
        db.project_config_entries)

pub latest_unique :
    (project_name name : String) (db : ConfigDb)
    → IsConsistent db
    → count_where (has_entry_name name) (latest_project_config_entry_map project_name db) ≤ 1
unfolding latest_project_config_entry_map count_where
latest_unique project_name name db c =
    elim (Option-cases (latest_project_config_revision_id project_name db.tables)) [
      | inl e ↦ rw (e, latest_project_config_entry_map) (omega arith)
      | inr (revision_id, e) ↦
          rw (e, latest_project_config_entry_map)
            (records_unique project_name revision_id name db c)
    ]

pub latest_map-variable :
    (project_name name : String) (db : ConfigDb)
    → IsConsistent db
    → map_row stored
        (select_row (has_entry_name name) (latest_project_config_entry_map project_name db))
      ≡ latest_variable project_name name db
unfolding latest_project_config_entry_map select_row
latest_map-variable project_name name db c =
    elim (Option-cases (latest_project_config_revision_id project_name db.tables)) [
      | inl e ↦ rw (e, latest_project_config_entry_map) (rw (e, latest_variable) refl)
      | inr (revision_id, e) ↦
          rw (e, latest_project_config_entry_map)
            (rw (e, latest_variable) (records-variable project_name revision_id name db c))
    ]

deleted-none :
    (own name : String) (entries : List EntryRow)
    → (own == name) ≡ true
    → count_where (has_entry_name name) (delete_where (has_entry_name own) entries) ≡ 0
deleted-none own name entries e =
    rw ((eq_iff own name).0 e) (count-delete (has_entry_name name) entries)

set_unique :
    (entry : EntryRow) (entries : List EntryRow) (name : String)
    → count_where (has_entry_name name) entries ≤ 1
    → count_where (has_entry_name name) (set_entry entry entries) ≤ 1
unfolding set_entry count_where
set_unique entry entries name h = elim (Bool-cases (entry.name == name)) [
  | inl e ↦ rw e (omega (arith, deleted-none entry.name name entries e))
  | inr e ↦
      rw e
        (omega (arith, count-delete_le (has_entry_name name) (has_entry_name entry.name) entries))
]

-- Rows of one name have no other name.
other_name :
    (own name : String) (row : EntryRow)
    → (own == name) ≡ false
    → has_entry_name own row ≡ true
    → has_entry_name name row ≡ false
other_name own name row e k = rw ((eq_iff row.name own).0 k) e

set-select :
    (entry : EntryRow) (entries : List EntryRow) (name : String)
    → select_row (has_entry_name name) (set_entry entry entries)
      ≡ (if entry.name == name then some entry else select_row (has_entry_name name) entries)
unfolding set_entry select_row
set-select entry entries name = elim (Bool-cases (entry.name == name)) [
  | inl e ↦ rw e refl
  | inr e ↦ rw e (
      select_row-delete (has_entry_name name) (has_entry_name entry.name) entries
        (λ row. other_name entry.name name row e))
]

pub delete-select :
    (own : String) (entries : List EntryRow) (name : String)
    → select_row (has_entry_name name) (delete_where (has_entry_name own) entries)
      ≡ (if own == name then none else select_row (has_entry_name name) entries)
delete-select own entries name = elim (Bool-cases (own == name)) [
  | inl e ↦ rw e (
      select_row-count_zero (has_entry_name name) (delete_where (has_entry_name own) entries)
        (deleted-none own name entries e))
  | inr e ↦ rw e (
      select_row-delete (has_entry_name name) (has_entry_name own) entries
        (λ row. other_name own name row e))
]

module _ (platform : Platform) where
  pub store-variable :
      (draws : ConfigDraws) (project_name created_by name : String) (secret : Bool)
      (action : String) (entries : List EntryRow) (other : String) (db : ConfigDb) {db' : ConfigDb}
      → store_revision platform draws project_name created_by name secret action entries db ≡ ok db'
      → IsConsistent db
      → count_where (has_entry_name other) entries ≤ 1
      → variable project_name draws.revision_id other db'
        ≡ map_row stored (select_row (has_entry_name other) entries)
  store-variable draws project_name created_by name secret action entries other db h c u =
      let (c', new, revisions, added) =
        store_revision-ok platform draws project_name created_by name secret action entries db h
          c in
      let q : EntryRow → Bool =
        λ e. in_revision project_name draws.revision_id e && has_entry_name other e in
      let stamp = in_new_revision project_name draws.revision_id in
      ap (map_row stored) (
        ap (select_row q) added
        ∙ select_row-append q db.project_config_entries (map stamp (order_by name_before entries))
            (no_entries project_name draws.revision_id other db c new)
        ∙ select_row-map q stamp (order_by name_before entries)
        ∙ ap (map_row stamp) (
            select_row-ext (λ e. q (stamp e)) (has_entry_name other) (order_by name_before entries)
              (λ e. rw (eq_refl project_name, eq_refl draws.revision_id))
            ∙ select_row-order_by (has_entry_name other) name_before entries u))
      ∙ map-stored project_name draws.revision_id (select_row (has_entry_name other) entries)

  pub ensured-same :
      (project_name now : String) (db : Db)
      → (ensure_project project_name now db).project_config_revisions ≡ db.project_config_revisions
  unfolding ensure_project
  ensured-same project_name now db =
      elim (Option-cases (select_row (has_name project_name) db.projects)) [
        | inl e ↦ rw (e, ensure_project) refl
        | inr (p, e) ↦ rw (e, ensure_project) refl
      ]

  latest-ensured :
      (project_name now : String) (db : Db)
      → latest_project_config_revision_id project_name (ensure_project project_name now db)
        ≡ latest_project_config_revision_id project_name db
  unfolding latest_project_config_revision_id
  latest-ensured project_name now db = rw (ensured-same project_name now db) refl

  latest_variable-ensured :
      (project_name now other : String) (db : ConfigDb)
      → latest_variable project_name other
          (record db { tables = ensure_project project_name now db.tables })
        ≡ latest_variable project_name other db
  latest_variable-ensured project_name now other db =
      ap
        (λ (o : Option String). elim o as (λ _. Option (Bool × String)) [
          | none ↦ none
          | some revision_id ↦ variable project_name revision_id other db
        ])
        (latest-ensured project_name now db.tables)

  -- The tables in which SetEnvironmentEntry stores its revision.
  abbrev ensured : String → String → ConfigDb → ConfigDb
  ensured project_name now db = record db { tables = ensure_project project_name now db.tables }

  if_stored :
      (b : Bool) (row : EntryRow) (o : Option EntryRow)
      → map_row stored (if b then some row else o)
        ≡ (if b then some (stored row) else map_row stored o)
  if_stored true row o = refl
  if_stored false row o = refl

  pub if_none :
      (b : Bool) (o : Option EntryRow)
      → map_row stored (if b then none else o) ≡ (if b then none else map_row stored o)
  if_none true o = refl
  if_none false o = refl

  module _ (encrypt : String → Option String) where
    pub set-valid :
        (draws : ConfigDraws) (project_name name value : String) (secret : Bool)
        (created_by other : String) (db : ConfigDb) {mutation : EnvironmentMutation}
        {db' : ConfigDb}
        → set_valid_entry platform encrypt draws project_name name value secret created_by db
          ≡ ok (mutation, db')
        → IsConsistent db
        → (sealed : String) × IsConsistent db'
          × (stored_value encrypt secret value ≡ ok sealed)
          × (variable project_name mutation.revision_id other db' ≡ (
              if name == other
              then some (secret, sealed)
              else latest_variable project_name other db))
    unfolding set_valid_entry
    set-valid draws project_name name value secret created_by other db {mutation} {db'} h c =
        let db1 = ensured project_name draws.now db in
        let c1 : IsConsistent db1 =
          IsConsistent-same refl (ensured-same project_name draws.now db.tables) c in
        let (sealed, cipher, rest) = bind-ok _ _ h in
        let (db2, stored_all, done) = bind-ok _ _ rest in
        let result = ok_inj _ _ done in
        let entry : EntryRow = record {
          project_name = project_name;
          revision_id = "";
          name = name;
          value = sealed;
          secret = secret;
          created_at = draws.now;
        } in
        let latest = latest_project_config_entry_map project_name db1 in
        let entries = set_entry entry latest in
        let kept =
          (store_revision-ok platform draws project_name created_by name secret "set" entries db1
            stored_all c1).0 in
        let seen =
          store-variable draws project_name created_by name secret "set" entries other db1
            stored_all c1
            (set_unique entry latest other (latest_unique project_name other db1 c1)) in
        (
          sealed,
          subst IsConsistent (ap (λ (r : EnvironmentMutation × ConfigDb). r.1) result) kept,
          cipher,
          sym (
                ap
                  (λ (r : EnvironmentMutation × ConfigDb).
                    variable project_name r.0.revision_id other r.1)
                  result)
              ∙ seen
              ∙ ap (map_row stored) (set-select entry latest other)
              ∙ if_stored (name == other) entry (select_row (has_entry_name other) latest)
              ∙ ap
                  (λ (o : Option (Bool × String)).
                    if name == other then some (secret, sealed) else o)
                  (latest_map-variable project_name other db1 c1
                    ∙ latest_variable-ensured project_name draws.now other db),
        )
