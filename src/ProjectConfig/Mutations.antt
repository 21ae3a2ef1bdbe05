-- ===== src/ProjectConfig/Mutations.antt =====
-- Mutations of an environment, and sequences of them (cmd/brain/project_config.go).
use ovek.Common.{
  ℕ, ◌≤◌, ◌≡◌, refl, sym, ap, ◌∙◌, String, Bool, true, false, ◌&&◌, Option, none, some, List, [],
  ◌∷◌, ◌++◌, ◌==◌, eq_iff, map, arith, append-nil, Bool-cases, Option-cases, inl, inr, trim_space,
  if◌then◌else◌,
}
use ovek.Store.Sql.{
  Result, ok, ◌>>◌, bind-ok, then-ok, ok_inj, select, select_row, exists_where, delete_where,
  order_by,
}
use ovek.Store.Rows.{count-map, count_none, map_row, select-append, select-count_zero}
use ovek.Store.Changes.{count-delete_le}
use ovek.Projects.{has_name, ensure_project}
use ovek.Auth.{Platform}
use ovek.ProjectConfig.{
  EntryRow, ConfigDb, ConfigDraws, EnvironmentMutation, has_revision_id, in_revision,
  has_entry_name, name_before, in_new_revision, list_project_config_entry_records,
  latest_project_config_entry_map, store_revision, set_entry, stored_value, set_valid_entry,
  set_environment_entry, delete_valid_entry, delete_environment_entry,
}
use ovek.ProjectConfig.Names.{validate_project_env_name, validate_project_env_value}
use ovek.ProjectConfig.Revisions.{IsConsistent, IsConsistent-same, store_revision-ok}
use ovek.ProjectConfig.Variables.{
  stored, variable, latest_variable, latest_unique, latest_map-variable, delete-select,
  ensured-same, store-variable, if_none, set-valid,
}

deleted : ConfigDraws → ConfigDb → Result (EnvironmentMutation × ConfigDb)
deleted draws db = ok (record { revision_id = draws.revision_id; entry = none }, db)

module _ (platform : Platform) where
  delete-steps :
      (draws : ConfigDraws) (project_name name created_by : String) (db : ConfigDb)
      {mutation : EnvironmentMutation} {db' : ConfigDb}
      → delete_valid_entry platform draws project_name name created_by db ≡ ok (mutation, db')
      → (secret : Bool) × (store_revision platform draws project_name created_by name secret "unset"
            (delete_where (has_entry_name name) (latest_project_config_entry_map project_name db))
            db
          ≡ ok db')
        × (mutation.revision_id ≡ draws.revision_id)
  unfolding delete_valid_entry deleted
  delete-steps draws project_name name created_by db {mutation} {db'} h =
      elim (Bool-cases (exists_where (has_name project_name) db.tables.projects)) [
        | inl e ↦
            (elim (Option-cases (
              select_row (has_entry_name name) (latest_project_config_entry_map project_name db))) [
                | inl f ↦ cc (rw (e, f, delete_valid_entry) at h)
                | inr (entry, f) ↦
                    let (db1, done, result) =
                      bind-ok
                        (store_revision platform draws project_name created_by name entry.secret
                          "unset"
                          (delete_where (has_entry_name name)
                            (latest_project_config_entry_map project_name db))
                          db)
                        (deleted draws) (rw (e, f, delete_valid_entry) at h) in
                    let same = ok_inj _ _ result in
                    (
                      entry.secret,
                      done
                          ∙ ap {B = Result ConfigDb}
                              (λ (r : EnvironmentMutation × ConfigDb). ok r.1) same,
                      sym (ap (λ (r : EnvironmentMutation × ConfigDb). r.0.revision_id) same),
                    )
              ])
        | inr e ↦ cc (rw e at h)
      ]

  delete-valid :
      (draws : ConfigDraws) (project_name name created_by other : String) (db : ConfigDb)
      {mutation : EnvironmentMutation} {db' : ConfigDb}
      → delete_valid_entry platform draws project_name name created_by db ≡ ok (mutation, db')
      → IsConsistent db
      → variable project_name mutation.revision_id other db'
        ≡ (if name == other then none else latest_variable project_name other db)
  delete-valid draws project_name name created_by other db {mutation} {db'} h c =
      let (secret, done, id) = delete-steps draws project_name name created_by db h in
      let latest = latest_project_config_entry_map project_name db in
      ap (λ (r : String). variable project_name r other db') id
      ∙ store-variable platform draws project_name created_by name secret "unset"
          (delete_where (has_entry_name name) latest) other db done c
          (fewer (count-delete_le (has_entry_name other) (has_entry_name name) latest)
            (latest_unique project_name other db c))
      ∙ ap (map_row stored) (delete-select name latest other)
      ∙ if_none platform (name == other) (select_row (has_entry_name other) latest)
      ∙ ap (λ (o : Option (Bool × String)). if name == other then none else o)
          (latest_map-variable project_name other db c)
    where
      fewer : {m n : ℕ} → m ≤ n → n ≤ 1 → m ≤ 1
      fewer a b = omega arith

  delete-checked :
      (draws : ConfigDraws) (project_name name created_by : String) (db : ConfigDb)
      {r : EnvironmentMutation × ConfigDb}
      → delete_environment_entry platform draws project_name name created_by db ≡ ok r
      → delete_valid_entry platform draws project_name (trim_space name) created_by db ≡ ok r
  unfolding delete_environment_entry
  delete-checked draws project_name name created_by db h =
      then-ok (validate_project_env_name (trim_space name))
        (delete_valid_entry platform draws project_name (trim_space name) created_by db) h

  -- DeleteEnvironmentEntry makes a revision without the variable of the trimmed name, and with each
  -- other variable as it was in the latest revision.
  pub delete-variable :
      (draws : ConfigDraws) (project_name name created_by other : String) (db : ConfigDb)
      (mutation : EnvironmentMutation) (db' : ConfigDb)
      → IsConsistent db
      → delete_environment_entry platform draws project_name name created_by db ≡ ok (mutation, db')
      → variable project_name mutation.revision_id other db'
        ≡ (if trim_space name == other then none else latest_variable project_name other db)
  delete-variable draws project_name name created_by other db mutation db' c h =
      delete-valid draws project_name (trim_space name) created_by other db
        (delete-checked draws project_name name created_by db h) c

  module _ (encrypt : String → Option String) where
    set-checked :
        (draws : ConfigDraws) (project_name name value : String) (secret : Bool)
        (created_by : String) (db : ConfigDb) {r : EnvironmentMutation × ConfigDb}
        → set_environment_entry platform encrypt draws project_name name value secret created_by db
          ≡ ok r
        → set_valid_entry platform encrypt draws project_name
            (trim_space name)
            value
            secret
            created_by
            db
          ≡ ok r
    unfolding set_environment_entry
    set-checked draws project_name name value secret created_by db h =
        let rest =
          set_valid_entry platform encrypt draws project_name (trim_space name) value secret
            created_by db in
        then-ok (validate_project_env_value value) rest (
          then-ok (validate_project_env_name (trim_space name))
            (validate_project_env_value value >> rest) h)

    -- SetEnvironmentEntry makes a revision in which the variable of the trimmed name has the value,
    -- sealed if it is a secret, and each other variable is as it was in the latest revision.
    pub set-variable :
        (draws : ConfigDraws) (project_name name value : String) (secret : Bool)
        (created_by other : String) (db : ConfigDb) (mutation : EnvironmentMutation)
        (db' : ConfigDb)
        → IsConsistent db
        → set_environment_entry platform encrypt draws project_name name value secret created_by db
          ≡ ok (mutation, db')
        → (sealed : String) × (stored_value encrypt secret value ≡ ok sealed)
          × (variable project_name mutation.revision_id other db' ≡ (
              if trim_space name == other
              then some (secret, sealed)
              else latest_variable project_name other db))
    set-variable draws project_name name value secret created_by other db mutation db' c h =
        let (sealed, kept, cipher, seen) =
          set-valid platform encrypt draws project_name (trim_space name) value secret created_by
            other db (set-checked draws project_name name value secret created_by db h) c in
        (sealed, cipher, seen)

    pub set-IsConsistent :
        (draws : ConfigDraws) (project_name name value : String) (secret : Bool)
        (created_by : String) (db : ConfigDb) (mutation : EnvironmentMutation) (db' : ConfigDb)
        → IsConsistent db
        → set_environment_entry platform encrypt draws project_name name value secret created_by db
          ≡ ok (mutation, db')
        → IsConsistent db'
    set-IsConsistent draws project_name name value secret created_by db mutation db' c h =
        (set-valid platform encrypt draws project_name (trim_space name) value secret created_by
          name db (set-checked draws project_name name value secret created_by db h) c).1

-- A mutation that succeeds; one that fails is rolled back.
pub data Mutates (platform : Platform) (encrypt : String → Option String)
    : ConfigDb → ConfigDb → Type 0 where
  sets :
      (draws : ConfigDraws) (project_name name value : String) (secret : Bool) (created_by : String)
      (mutation : EnvironmentMutation) (db db' : ConfigDb)
      → set_environment_entry platform encrypt draws project_name name value secret created_by db
        ≡ ok (mutation, db')
      → Mutates platform encrypt db db'
  deletes :
      (draws : ConfigDraws) (project_name name created_by : String) (mutation : EnvironmentMutation)
      (db db' : ConfigDb)
      → delete_environment_entry platform draws project_name name created_by db ≡ ok (mutation, db')
      → Mutates platform encrypt db db'

pub data Evolves (platform : Platform) (encrypt : String → Option String) (db : ConfigDb)
    : ConfigDb → Type 0 where
  here : Evolves platform encrypt db db
  next :
      {a b : ConfigDb}
      → Evolves platform encrypt db a
      → Mutates platform encrypt a b
      → Evolves platform encrypt db b

-- What a mutation keeps of a revision that is there.
record KeepsRevision (project_name revision_id : String) (a b : ConfigDb) : Type 0 where
  consistent : IsConsistent b
  there : exists_where (has_revision_id revision_id) b.tables.project_config_revisions ≡ true
  same :
      list_project_config_entry_records project_name revision_id b
      ≡ list_project_config_entry_records project_name revision_id a

added-none :
    (project_name revision_id project new : String) (entries : List EntryRow)
    → (new == revision_id) ≡ false
    → select (in_revision project_name revision_id) (map (in_new_revision project new) entries) ≡ []
added-none project_name revision_id project new entries e =
    select-count_zero (in_revision project_name revision_id)
      (map (in_new_revision project new) entries)
      (count-map (in_revision project_name revision_id) (in_new_revision project new) entries
        ∙ count_none
            (λ (x : EntryRow). in_revision project_name revision_id (in_new_revision project new x))
            entries (λ x. other (project == project_name)))
  where
    other : (b : Bool) → (b && (new == revision_id)) ≡ false
    other true = e
    other false = refl

exists-append :
    {A : Type 0} (q : A → Bool) (xs : List A) (x : A)
    → exists_where q xs ≡ true
    → exists_where q (xs ++ x ∷ []) ≡ true
unfolding exists_where
exists-append q [] x h = cc
exists-append q (y ∷ ys) x h = ground (arith, exists-append q ys x)

module _ (platform : Platform) where
  store-KeepsRevision :
      (draws : ConfigDraws) (project created_by name : String) (secret : Bool) (action : String)
      (entries : List EntryRow) (project_name revision_id : String) (db : ConfigDb) {db' : ConfigDb}
      → store_revision platform draws project created_by name secret action entries db ≡ ok db'
      → IsConsistent db
      → exists_where (has_revision_id revision_id) db.tables.project_config_revisions ≡ true
      → KeepsRevision project_name revision_id db db'
  unfolding list_project_config_entry_records
  store-KeepsRevision draws project created_by name secret action entries project_name revision_id
        db {db'} h c t =
      let (c', new, (row, id, revisions), added) =
        store_revision-ok platform draws project created_by name secret action entries db h c in
      let q = in_revision project_name revision_id in
      record {
        consistent = c';
        there =
            rw revisions (
              exists-append (has_revision_id revision_id) db.tables.project_config_revisions row t);
        same = ap (order_by name_before) (
            ap (select q) added
            ∙ select-append q db.project_config_entries _
            ∙ ap (λ (es : List EntryRow). select q db.project_config_entries ++ es)
                (added-none project_name revision_id project draws.revision_id _ (other new t))
            ∙ append-nil (select q db.project_config_entries));
      }
    where
      other :
          exists_where (has_revision_id draws.revision_id) db.tables.project_config_revisions
            ≡ false
          → exists_where (has_revision_id revision_id) db.tables.project_config_revisions ≡ true
          → (draws.revision_id == revision_id) ≡ false
      other n y = elim (Bool-cases (draws.revision_id == revision_id)) [
        | inl e ↦ cc (
          n,
          y,
          ap (λ (i : String). exists_where (has_revision_id i) db.tables.project_config_revisions)
              ((eq_iff draws.revision_id revision_id).0 e),
        )
        | inr e ↦ e
      ]

  set-stored :
      (encrypt : String → Option String) (draws : ConfigDraws) (project_name name value : String)
      (secret : Bool) (created_by : String) (db : ConfigDb) {mutation : EnvironmentMutation}
      {db' : ConfigDb}
      → set_valid_entry platform encrypt draws project_name name value secret created_by db
        ≡ ok (mutation, db')
      → (entries : List EntryRow) × (store_revision platform draws project_name created_by name
            secret "set" entries
            (record db { tables = ensure_project project_name draws.now db.tables })
          ≡ ok db')
  unfolding set_valid_entry
  set-stored encrypt draws project_name name value secret created_by db {mutation} {db'} h =
      let (sealed, cipher, rest) = bind-ok (stored_value encrypt secret value) _ h in
      let db1 = record db { tables = ensure_project project_name draws.now db.tables } in
      let entries =
        set_entry
          (record {
            project_name = project_name;
            revision_id = "";
            name = name;
            value = sealed;
            secret = secret;
            created_at = draws.now;
          })
          (latest_project_config_entry_map project_name db1) in
      let (db2, stored_all, done) =
        bind-ok
          (store_revision platform draws project_name created_by name secret "set" entries db1) _
          rest in
      (
        entries,
        stored_all
            ∙ ap {B = Result ConfigDb} (λ (r : EnvironmentMutation × ConfigDb). ok r.1)
                (ok_inj _ _ done),
      )

  records-ensured :
      (project_name revision_id project now : String) (db : ConfigDb)
      → list_project_config_entry_records project_name revision_id
          (record db { tables = ensure_project project now db.tables })
        ≡ list_project_config_entry_records project_name revision_id db
  unfolding list_project_config_entry_records
  records-ensured project_name revision_id project now db = refl

  step-KeepsRevision :
      (encrypt : String → Option String) (project_name revision_id : String) {a b : ConfigDb}
      → Mutates platform encrypt a b
      → IsConsistent a
      → exists_where (has_revision_id revision_id) a.tables.project_config_revisions ≡ true
      → KeepsRevision project_name revision_id a b
  step-KeepsRevision encrypt project_name revision_id
        (sets draws project name value secret created_by mutation db db' h) c t =
      let (entries, done) =
        set-stored encrypt draws project (trim_space name) value secret created_by db
          (set-checked platform encrypt draws project name value secret created_by db h) in
      let k =
        store-KeepsRevision draws project created_by (trim_space name) secret "set" entries
          project_name revision_id
          (record db { tables = ensure_project project draws.now db.tables }) done
          (IsConsistent-same refl (ensured-same platform project draws.now db.tables) c)
          (ap (exists_where (has_revision_id revision_id))
              (ensured-same platform project draws.now db.tables)
            ∙ t) in
      record {
        consistent = k.consistent;
        there = k.there;
        same = k.same ∙ records-ensured project_name revision_id project draws.now db;
      }
  step-KeepsRevision encrypt project_name revision_id
        (deletes draws project name created_by mutation db db' h) c t =
      let (secret, done, id) =
        delete-steps platform draws project (trim_space name) created_by db
          (delete-checked platform draws project name created_by db h) in
      store-KeepsRevision draws project created_by (trim_space name) secret "unset" _ project_name
        revision_id db done c t

  evolved :
      (encrypt : String → Option String) (project_name revision_id : String) {a b : ConfigDb}
      → Evolves platform encrypt a b
      → IsConsistent a
      → exists_where (has_revision_id revision_id) a.tables.project_config_revisions ≡ true
      → KeepsRevision project_name revision_id a b
  evolved encrypt project_name revision_id here c t = record {
    consistent = c;
    there = t;
    same = refl;
  }
  evolved encrypt project_name revision_id (next r step) c t =
      let k = evolved encrypt project_name revision_id r c t in
      let l = step-KeepsRevision encrypt project_name revision_id step k.consistent k.there in
      record { consistent = l.consistent; there = l.there; same = l.same ∙ k.same }

  -- A revision never changes: the entries that a job or a run finds under the revision that it was
  -- queued with are those of that time, whatever mutations follow, of any project.
  pub records-evolved :
      (encrypt : String → Option String) (project_name revision_id : String) (db later : ConfigDb)
      → IsConsistent db
      → exists_where (has_revision_id revision_id) db.tables.project_config_revisions ≡ true
      → Evolves platform encrypt db later
      → list_project_config_entry_records project_name revision_id later
        ≡ list_project_config_entry_records project_name revision_id db
  records-evolved encrypt project_name revision_id db later c t r =
      (evolved encrypt project_name revision_id r c t).same
