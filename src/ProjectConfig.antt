-- ===== src/ProjectConfig.antt =====
-- Environment variables of a project, in revisions that are never changed: cmd/brain/project_config.go.
-- The cipher of secret values is the parameter of a section.
pub mod Names
pub mod Revisions
pub mod Variables
pub mod Mutations
use ovek.Common.{
  ℕ, String, Char, code, Bool, true, false, not, ◌&&◌, ◌||◌, Option, none, some, List, [], ◌∷◌,
  ◌++◌, ◌==◌, map, ltb, trim_space, text_lt, text_append, if◌then◌else◌,
}
use ovek.Store.{
  Db, RevisionRow, constraint_failed, err_no_rows, err_project_env_not_found, cipher_failed,
}
use ovek.Store.Sql.{
  Result, ok, err, ◌>>=◌, ◌>>◌, select, select_row, count_where, exists_where, delete_where,
  order_by, nullable_string,
}
use ovek.Scrubber.{Bytes}
use ovek.Projects.{has_name, project_exists, ensure_project, latest_project_config_revision_id}
use ovek.Auth.{Platform, AuditLogRow, AuthDb, insert_audit_log, must_details_json}
use ovek.ProjectConfig.Names.{validate_project_env_name, validate_project_env_value}

-- projectConfigEntryRecord
pub record EntryRow : Type 0 where
  pub project_name : String
  pub revision_id : String
  pub name : String
  pub value : String
  pub secret : Bool
  pub created_at : String

pub record ConfigDb : Type 0 where
  pub tables : Db
  pub auth : AuthDb
  pub project_config_entries : List EntryRow

-- ProjectEnvironmentEntry
pub record EnvironmentEntry : Type 0 where
  pub name : String
  pub value : Option String
  pub secret : Bool
  pub updated_at : String

-- ProjectEnvironmentMutation
pub record EnvironmentMutation : Type 0 where
  pub revision_id : String
  pub entry : Option EnvironmentEntry

-- resolvedProjectConfig, less its scrubber, which newSecretScrubber makes of the secret values
pub record ResolvedConfig : Type 0 where
  pub revision_id : String
  pub env : List String
  pub secret_values : List String

-- What a mutation draws: the revision's id, the audit entry's and the clock.
pub record ConfigDraws : Type 0 where
  pub revision_id : String
  pub audit_id : String
  pub now : String

abbrev pub has_revision_id : String → RevisionRow → Bool
has_revision_id revision_id revision = revision.id == revision_id

-- project_name = ? AND revision_id = ?
abbrev pub in_revision : String → String → EntryRow → Bool
in_revision project_name revision_id entry =
    entry.project_name == project_name && entry.revision_id == revision_id

abbrev pub has_entry_name : String → EntryRow → Bool
has_entry_name name entry = entry.name == name

-- ORDER BY name ASC, and sort.Strings
abbrev pub name_before : EntryRow → EntryRow → Bool
name_before a b = text_lt a.name b.name

unfoldable pub list_project_config_entry_records : String → String → ConfigDb → List EntryRow
list_project_config_entry_records project_name revision_id db =
    order_by name_before (select (in_revision project_name revision_id) db.project_config_entries)

-- The map of a project's latest entries, as a list in which each name stands once.
unfoldable pub latest_project_config_entry_map : String → ConfigDb → List EntryRow
latest_project_config_entry_map project_name db =
    elim (latest_project_config_revision_id project_name db.tables) [
      | none ↦ []
      | some revision_id ↦ list_project_config_entry_records project_name revision_id db
    ]

unfoldable pub project_config_revision_exists : String → String → ConfigDb → Bool
project_config_revision_exists project_name revision_id db = ltb 0 (
    count_where (λ (r : RevisionRow). r.project_name == project_name && r.id == revision_id)
      db.tables.project_config_revisions)

-- INSERT INTO project_config_revisions
unfoldable pub insert_revision_row : RevisionRow → ConfigDb → Result ConfigDb
insert_revision_row row db =
    if exists_where (has_revision_id row.id) db.tables.project_config_revisions
      || not (exists_where (has_name row.project_name) db.tables.projects)
    then err constraint_failed
    else ok (record db {
      tables = record db.tables {
        project_config_revisions = db.tables.project_config_revisions ++ row ∷ [];
      };
    })

-- PRIMARY KEY (revision_id, name)
abbrev pub has_entry_key : String → String → EntryRow → Bool
has_entry_key revision_id name entry = entry.revision_id == revision_id && entry.name == name

-- INSERT INTO project_config_entries
unfoldable pub insert_entry_row : EntryRow → ConfigDb → Result ConfigDb
insert_entry_row row db =
    if exists_where (has_entry_key row.revision_id row.name) db.project_config_entries
      || not (exists_where (has_name row.project_name) db.tables.projects)
      || not (exists_where (has_revision_id row.revision_id) db.tables.project_config_revisions)
    then err constraint_failed
    else ok (record db { project_config_entries = db.project_config_entries ++ row ∷ [] })

abbrev pub in_new_revision : String → String → EntryRow → EntryRow
in_new_revision project_name revision_id entry = record entry {
  project_name = project_name;
  revision_id = revision_id;
}

-- The loop of insertProjectConfigRevision over the sorted names.
unfoldable pub insert_entries : String → String → List EntryRow → ConfigDb → Result ConfigDb
insert_entries project_name revision_id [] db = ok db
insert_entries project_name revision_id (entry ∷ entries) db = do
  db' ← insert_entry_row (in_new_revision project_name revision_id entry) db
  insert_entries project_name revision_id entries db'

unfoldable pub insert_project_config_revision :
    String → String → String → String → String → List EntryRow → ConfigDb → Result ConfigDb
insert_project_config_revision revision_id project_name created_by reason created_at entries db = do
  db' ←
      insert_revision_row
        (record {
          id = revision_id;
          project_name = project_name;
          created_at = created_at;
          created_by = nullable_string created_by;
          reason = reason;
        })
        db
  insert_entries project_name revision_id (order_by name_before entries) db'

unfoldable pub project_config_mutation_reason : String → Bool → String → String
project_config_mutation_reason name secret action =
    let prefix = if secret then "secret" else "env" in
    text_append prefix (text_append "." (text_append action (text_append ":" name)))

abbrev pub with_auth : (AuthDb → Result AuthDb) → ConfigDb → Result ConfigDb
with_auth f db = f db.auth >>= λ auth. ok (record db { auth = auth })

-- The entry of a listing: a secret's value is left out.
unfoldable pub listed_entry : EntryRow → EnvironmentEntry
listed_entry row = record {
  name = row.name;
  value = if row.secret then none else some row.value;
  secret = row.secret;
  updated_at = row.created_at;
}

unfoldable pub list_environment : String → ConfigDb → Result (List EnvironmentEntry)
list_environment project_name db = elim (latest_project_config_revision_id project_name db.tables) [
  | some revision_id ↦
      ok (map listed_entry (list_project_config_entry_records project_name revision_id db))
  | none ↦ if project_exists project_name db.tables then ok [] else err err_no_rows
]

-- entries[name] = entry
unfoldable pub set_entry : EntryRow → List EntryRow → List EntryRow
set_entry entry entries = entry ∷ delete_where (has_entry_name entry.name) entries

-- secretCipher.Encrypt, for a secret
unfoldable pub stored_value : (String → Option String) → Bool → String → Result String
stored_value encrypt secret value =
    if secret
    then (elim (encrypt value) [ none ↦ err cipher_failed | some sealed ↦ ok sealed ])
    else ok value

module _ (platform : Platform) where
  unfoldable pub project_config_audit_record :
      String → String → String → Bool → String → String → AuditLogRow
  project_config_audit_record project_name actor name secret action created_at = record {
    id = "";
    user_id = none;
    api_key_id = none;
    event_type =
        if secret then text_append "project_secret." action else text_append "project_env." action;
    project_name = some project_name;
    details_json = must_details_json platform (("actor", actor) ∷ ("name", name) ∷ []);
    created_at = created_at;
  }

  -- The rest of a mutation's transaction: the new revision and the audit entry.
  unfoldable pub store_revision :
      ConfigDraws
      → String
      → String
      → String
      → Bool
      → String
      → List EntryRow
      → ConfigDb
      → Result ConfigDb
  store_revision draws project_name created_by name secret action entries db = do
    db' ←
        insert_project_config_revision draws.revision_id project_name created_by
          (project_config_mutation_reason name secret action) draws.now entries db
    with_auth
        (insert_audit_log draws.audit_id draws.now
          (project_config_audit_record project_name created_by name secret action draws.now))
        db'

  module _ (encrypt : String → Option String) where
    unfoldable pub set_valid_entry :
        ConfigDraws
        → String
        → String
        → String
        → Bool
        → String
        → ConfigDb
        → Result (EnvironmentMutation × ConfigDb)
    set_valid_entry draws project_name name value secret created_by db = do
      let db1 = record db { tables = ensure_project project_name draws.now db.tables }
      stored ← stored_value encrypt secret value
      db' ←
          store_revision draws project_name created_by name secret "set"
            (set_entry
              (record {
                project_name = project_name;
                revision_id = "";
                name = name;
                value = stored;
                secret = secret;
                created_at = draws.now;
              })
              (latest_project_config_entry_map project_name db1))
            db1
      ok (
        record {
          revision_id = draws.revision_id;
          entry = some (record {
            name = name;
            value = if secret then none else some value;
            secret = secret;
            updated_at = draws.now;
          });
        },
        db',
      )

    -- SetEnvironmentEntry
    unfoldable pub set_environment_entry :
        ConfigDraws
        → String
        → String
        → String
        → Bool
        → String
        → ConfigDb
        → Result (EnvironmentMutation × ConfigDb)
    set_environment_entry draws project_name name value secret created_by db = do
      validate_project_env_name (trim_space name)
      validate_project_env_value value
      set_valid_entry draws project_name (trim_space name) value secret created_by db

  unfoldable pub delete_valid_entry :
      ConfigDraws → String → String → String → ConfigDb → Result (EnvironmentMutation × ConfigDb)
  delete_valid_entry draws project_name name created_by db =
      let entries = latest_project_config_entry_map project_name db in
      if not (exists_where (has_name project_name) db.tables.projects)
      then err err_no_rows
      else elim (select_row (has_entry_name name) entries) [
        | none ↦ err err_project_env_not_found
        | some entry ↦
            store_revision draws project_name created_by name entry.secret "unset"
              (delete_where (has_entry_name name) entries) db
            >>= λ db'. ok (record { revision_id = draws.revision_id; entry = none }, db')
      ]

  -- DeleteEnvironmentEntry
  unfoldable pub delete_environment_entry :
      ConfigDraws → String → String → String → ConfigDb → Result (EnvironmentMutation × ConfigDb)
  delete_environment_entry draws project_name name created_by db = do
    validate_project_env_name (trim_space name)
    delete_valid_entry draws project_name (trim_space name) created_by db

-- secretCipher.Decrypt is the parameter.
module _ (decrypt : String → Option String) where
  -- ResolveRuntimeConfig, over the records of the revision
  unfoldable pub resolve_records : List EntryRow → ResolvedConfig → Result ResolvedConfig
  resolve_records [] config = ok config
  resolve_records (row ∷ rows) config =
      let add = λ (value : String) (secrets : List String). resolve_records rows (record config {
        env = config.env ++ text_append row.name (text_append "=" value) ∷ [];
        secret_values = secrets;
      }) in
      if row.secret
      then (elim (decrypt row.value) [
        | none ↦ err cipher_failed
        | some value ↦ add value (config.secret_values ++ value ∷ [])
      ])
      else add row.value config.secret_values

  unfoldable pub resolve_runtime_config : String → String → ConfigDb → Result ResolvedConfig
  resolve_runtime_config project_name revision_id db =
      let trimmed = trim_space revision_id in
      if trimmed == ""
      then ok (record { revision_id = ""; env = []; secret_values = [] })
      else if not (project_config_revision_exists project_name trimmed db)
      then err err_no_rows
      else resolve_records (list_project_config_entry_records project_name trimmed db)
          (record { revision_id = trimmed; env = []; secret_values = [] })
