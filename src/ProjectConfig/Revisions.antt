-- ===== src/ProjectConfig/Revisions.antt =====
-- What a mutation of an environment stores (cmd/brain/project_config.go).
use ovek.Common.{
  ◌≤◌, ◌≡◌, refl, sym, ap, ◌∙◌, String, Bool, true, false, List, [], ◌∷◌, ◌++◌, ◌==◌, eq_iff, map,
  arith, append_assoc, append-nil, Bool-cases, inl, inr,
}
use ovek.Store.{Db, RevisionRow}
use ovek.Store.Sql.{Result, ok, err, ◌>>=◌, bind-ok, ok_inj, count_where, exists_where, order_by}
use ovek.Store.Rows.{count-snoc, exists_where-false, exists_where_of_zero}
use ovek.Store.Changes.{count-snoc_first, count-snoc_other}
use ovek.Auth.{Platform, AuthDb, insert_audit_log}
use ovek.ProjectConfig.{
  EntryRow, ConfigDb, ConfigDraws, has_revision_id, name_before, has_entry_key, insert_revision_row,
  insert_entry_row, in_new_revision, insert_entries, insert_project_config_revision, store_revision,
  with_auth, project_config_audit_record,
}

-- The primary key of the entries, and their foreign key to the revisions.
pub record IsConsistent (db : ConfigDb) : Type 0 where
  pub keyed :
      (revision_id name : String)
      → count_where (has_entry_key revision_id name) db.project_config_entries ≤ 1
  pub owned :
      (revision_id : String)
      → exists_where (has_revision_id revision_id) db.tables.project_config_revisions ≡ false
      → count_where (λ (e : EntryRow). e.revision_id == revision_id) db.project_config_entries ≡ 0

pub IsConsistent-same :
    {a b : ConfigDb}
    → b.project_config_entries ≡ a.project_config_entries
    → b.tables.project_config_revisions ≡ a.tables.project_config_revisions
    → IsConsistent a
    → IsConsistent b
IsConsistent-same e r c = record {
  keyed = λ revision_id name. rw e (c.keyed revision_id name);
  owned = λ revision_id h. rw e (c.owned revision_id (rw (sym r) h));
}

insert_revision-ok :
    (row : RevisionRow) (db : ConfigDb) {db' : ConfigDb}
    → insert_revision_row row db ≡ ok db'
    → (exists_where (has_revision_id row.id) db.tables.project_config_revisions ≡ false)
      × (db'.project_config_entries ≡ db.project_config_entries)
      × (db'.tables.project_config_revisions ≡ db.tables.project_config_revisions ++ row ∷ [])
unfolding insert_revision_row
insert_revision-ok row db h = ground arith

exists-snoc :
    {A : Type 0} (q : A → Bool) (xs : List A) (x : A)
    → exists_where q (xs ++ x ∷ []) ≡ false
    → exists_where q xs ≡ false
exists-snoc q xs x h =
    exists_where_of_zero q xs
      (omega (arith, count-snoc q xs x, exists_where-false q (xs ++ x ∷ []) h))

insert_revision-IsConsistent :
    (row : RevisionRow) (db : ConfigDb) {db' : ConfigDb}
    → insert_revision_row row db ≡ ok db'
    → IsConsistent db
    → IsConsistent db'
insert_revision-IsConsistent row db h c =
    let (new, entries, revisions) = insert_revision-ok row db h in
    record {
      keyed = λ revision_id name. rw entries (c.keyed revision_id name);
      owned = λ revision_id k. rw entries (
          c.owned revision_id (
            exists-snoc (has_revision_id revision_id) db.tables.project_config_revisions row
              (rw revisions at k)));
    }

insert_entry-ok :
    (row : EntryRow) (db : ConfigDb) {db' : ConfigDb}
    → insert_entry_row row db ≡ ok db'
    → (exists_where (has_entry_key row.revision_id row.name) db.project_config_entries ≡ false)
      × (exists_where (has_revision_id row.revision_id) db.tables.project_config_revisions ≡ true)
      × (db' ≡ record db { project_config_entries = db.project_config_entries ++ row ∷ [] })
unfolding insert_entry_row
insert_entry-ok row db h = ground arith

insert_entry-IsConsistent :
    (row : EntryRow) (db : ConfigDb) {db' : ConfigDb}
    → insert_entry_row row db ≡ ok db'
    → IsConsistent db
    → IsConsistent db'
insert_entry-IsConsistent row db h c =
    let (new, there, same) = insert_entry-ok row db h in
    rw same (record {
      keyed = λ revision_id name.
          count-snoc_first (has_entry_key revision_id name) db.project_config_entries row
            (λ e. same_key revision_id name e ∙ exists_where-false _ db.project_config_entries new)
            (c.keyed revision_id name);
      owned = λ revision_id k.
          count-snoc_other (λ (e : EntryRow). e.revision_id == revision_id)
            db.project_config_entries row (other revision_id k there)
          ∙ c.owned revision_id k;
    })
  where
    same_key :
        (revision_id name : String)
        → has_entry_key revision_id name row ≡ true
        → count_where (has_entry_key revision_id name) db.project_config_entries
          ≡ count_where (has_entry_key row.revision_id row.name) db.project_config_entries
    same_key revision_id name e =
        let r : row.revision_id ≡ revision_id =
          (eq_iff row.revision_id revision_id).0 (ground (arith, e)) in
        let n : row.name ≡ name = (eq_iff row.name name).0 (ground (arith, e)) in
        ap (λ (i : String). count_where (has_entry_key i name) db.project_config_entries) (sym r)
        ∙ ap
            (λ (m : String).
              count_where (has_entry_key row.revision_id m) db.project_config_entries)
            (sym n)

    other :
        (revision_id : String)
        → exists_where (has_revision_id revision_id) db.tables.project_config_revisions ≡ false
        → exists_where (has_revision_id row.revision_id) db.tables.project_config_revisions ≡ true
        → (row.revision_id == revision_id) ≡ false
    other revision_id k there = elim (Bool-cases (row.revision_id == revision_id)) [
      | inl e ↦ cc (
        k,
        there,
        ap (λ (i : String). exists_where (has_revision_id i) db.tables.project_config_revisions)
            ((eq_iff row.revision_id revision_id).0 e),
      )
      | inr e ↦ e
    ]

insert_entries-ok :
    (project_name revision_id : String) (entries : List EntryRow) (db : ConfigDb) {db' : ConfigDb}
    → insert_entries project_name revision_id entries db ≡ ok db'
    → IsConsistent db
    → IsConsistent db'
      × (db' ≡ record db {
        project_config_entries =
            db.project_config_entries ++ map (in_new_revision project_name revision_id) entries;
      })
unfolding insert_entries
insert_entries-ok project_name revision_id [] db {db'} h c =
    let same = ok_inj db db' h in
    (rw (sym same) c, sym same ∙ rw (append-nil db.project_config_entries) refl)
insert_entries-ok project_name revision_id (entry ∷ entries) db {db'} h c =
    let row = in_new_revision project_name revision_id entry in
    let (db1, inserted, rest) = bind-ok _ _ h in
    let (new, there, same) = insert_entry-ok row db inserted in
    let (consistent, added) =
      insert_entries-ok project_name revision_id entries db1 rest
        (insert_entry-IsConsistent row db inserted c) in
    (
      consistent,
      added
          ∙ rw same (
              ap (λ (es : List EntryRow). record db { project_config_entries = es })
                (append_assoc db.project_config_entries (row ∷ [])
                  (map (in_new_revision project_name revision_id) entries))),
    )

with_auth-ok :
    (f : AuthDb → Result AuthDb) (db : ConfigDb) {db' : ConfigDb}
    → with_auth f db ≡ ok db'
    → (db'.project_config_entries ≡ db.project_config_entries) × (db'.tables ≡ db.tables)
with_auth-ok f db {db'} h = go (f db.auth) h
  where
    go :
        (r : Result AuthDb)
        → (r >>= λ auth. ok (record db { auth = auth })) ≡ ok db'
        → (db'.project_config_entries ≡ db.project_config_entries) × (db'.tables ≡ db.tables)
    go (err e) h = cc
    go (ok auth) h =
        let same = ok_inj (record db { auth = auth }) db' h in
        (
          sym (ap (λ (d : ConfigDb). d.project_config_entries) same),
          sym (ap (λ (d : ConfigDb). d.tables) same),
        )

module _ (platform : Platform) where
  -- A mutation adds its revision, with its entries in the order of their names, and changes no other.
  pub store_revision-ok :
      (draws : ConfigDraws) (project_name created_by name : String) (secret : Bool)
      (action : String) (entries : List EntryRow) (db : ConfigDb) {db' : ConfigDb}
      → store_revision platform draws project_name created_by name secret action entries db ≡ ok db'
      → IsConsistent db
      → IsConsistent db'
        × (exists_where (has_revision_id draws.revision_id) db.tables.project_config_revisions
            ≡ false)
        × ((row : RevisionRow) × (row.id ≡ draws.revision_id)
            × (db'.tables.project_config_revisions
                ≡ db.tables.project_config_revisions ++ row ∷ []))
        × (db'.project_config_entries
            ≡ db.project_config_entries
              ++ map
                  (in_new_revision project_name draws.revision_id)
                  (order_by name_before entries))
  unfolding store_revision insert_project_config_revision
  store_revision-ok draws project_name created_by name secret action entries db {db'} h c =
      let (db2, stored, audited) = bind-ok _ _ h in
      let (db1, inserted, rest) = bind-ok _ _ stored in
      let (same_entries, same_tables) =
        with_auth-ok
          (insert_audit_log draws.audit_id draws.now (
            project_config_audit_record platform project_name created_by name secret action
              draws.now))
          db2 audited in
      let (new, old, revisions) = insert_revision-ok _ db inserted in
      let (consistent, added) =
        insert_entries-ok project_name draws.revision_id (order_by name_before entries) db1 rest
          (insert_revision-IsConsistent _ db inserted c) in
      (
        IsConsistent-same same_entries (ap (λ (t : Db). t.project_config_revisions) same_tables)
            consistent,
        new,
        (
          _,
          refl,
          ap (λ (t : Db). t.project_config_revisions) same_tables
              ∙ ap (λ (d : ConfigDb). d.tables.project_config_revisions) added
              ∙ revisions,
        ),
        same_entries
            ∙ ap (λ (d : ConfigDb). d.project_config_entries) added
            ∙ ap
                (λ (es : List EntryRow).
                  es
                  ++ map (in_new_revision project_name draws.revision_id)
                      (order_by name_before entries))
                old,
      )
