-- ===== src/Workflows/Definitions.antt =====
-- upsertWorkflowDefinition (cmd/brain/workflows.go) and the lookup after it.
use ovek.Common.{
  ◌<◌, ◌≡◌, refl, ap, ◌∙◌, String, Bool, true, none, some, [], ◌∷◌, ◌++◌, arith, ◌==◌, eq_iff,
  eq_refl, Option-cases, inl, inr, if◌then◌else◌, Bool-cases, trim_space,
}
use ovek.Store.{Db, WorkflowRow, err_workflow_not_found}
use ovek.Store.Sql.{Result, ok, err, select_row, update_where}
use ovek.Store.Laws.{changed_option, select_row-update, select_row-holds}
use ovek.Store.Rows.{select_row-snoc_none}
use ovek.Projects.{has_name, ensure_project}
use ovek.Lifecycle.Created.{or_blank-nullable_string}
use ovek.Workflows.{
  Workflow, scan_workflow_definition, decorate_workflow_definition, is_workflow,
  get_workflow_definition_query, get_workflow_definition, inserted_workflow, overwritten_workflow,
  capped, upsert_workflow_definition,
}

ensure-workflows : (n at : String) (db : Db) → (ensure_project n at db).workflows ≡ db.workflows
unfolding ensure_project
ensure-workflows n at db = elim (Option-cases (select_row (has_name n) db.projects)) [
  | inl e ↦ rw (e, ensure_project)
  | inr (p, e) ↦ rw (e, ensure_project)
]

-- The times of an upsert.
abbrev pub upsert_now : String → Workflow → String
upsert_now clock workflow =
    if trim_space workflow.updated_at == "" then clock else trim_space workflow.updated_at

abbrev pub upsert_first : String → Workflow → String
upsert_first clock workflow =
    if trim_space workflow.created_at == ""
    then upsert_now clock workflow
    else trim_space workflow.created_at

query-found :
    (p w : String) (db : Db) (row : WorkflowRow)
    → select_row (is_workflow p w) db.workflows ≡ some row
    → get_workflow_definition_query p w db ≡ some (scan_workflow_definition row)
unfolding get_workflow_definition_query
query-found p w db row e = rw (e, get_workflow_definition_query)

pub get-missing :
    (p w : String) (db : Db)
    → select_row (is_workflow p w) db.workflows ≡ none
    → get_workflow_definition p w db ≡ err err_workflow_not_found
unfolding get_workflow_definition get_workflow_definition_query
get-missing p w db e = rw (e, get_workflow_definition, get_workflow_definition_query)

query-none :
    (p w : String) (db : Db)
    → select_row (is_workflow p w) db.workflows ≡ none
    → get_workflow_definition_query p w db ≡ none
unfolding get_workflow_definition_query
query-none p w db e = rw (e, get_workflow_definition_query)

get-found :
    (p w : String) (db : Db) (row : WorkflowRow)
    → select_row (is_workflow p w) db.workflows ≡ some row
    → get_workflow_definition p w db
      ≡ ok (decorate_workflow_definition (scan_workflow_definition row))
unfolding get_workflow_definition
get-found p w db row e = rw (query-found p w db row e, get_workflow_definition)

is_workflow-holds :
    (p w : String) (row : WorkflowRow)
    → is_workflow p w row ≡ true
    → (row.project_name ≡ p) × (row.name ≡ w)
is_workflow-holds p w row h = elim (Bool-cases (row.project_name == p)) [
  | inl e ↦ ((eq_iff row.project_name p).0 e, (eq_iff row.name w).0 (rw e at h))
  | inr e ↦ cc (rw e at h)
]

-- A definition is read back as it was stored.
scan-inserted :
    (workflow : Workflow) (first now : String)
    → decorate_workflow_definition (scan_workflow_definition (inserted_workflow workflow first now))
      ≡ decorate_workflow_definition (record workflow { created_at = first; updated_at = now })
unfolding decorate_workflow_definition scan_workflow_definition
scan-inserted workflow first now =
    let o = or_blank-nullable_string in
    rw (o workflow.resolved_repo_digest, o workflow.runtime_image_id, o workflow.schedule)

scan-overwritten :
    (workflow : Workflow) (now : String) (row : WorkflowRow)
    → is_workflow workflow.project_name workflow.name row ≡ true
    → decorate_workflow_definition
        (scan_workflow_definition (overwritten_workflow workflow now row))
      ≡ decorate_workflow_definition (record workflow {
        created_at = (scan_workflow_definition row).created_at;
        updated_at = now;
      })
unfolding decorate_workflow_definition scan_workflow_definition
scan-overwritten workflow now row met =
    let o = or_blank-nullable_string in
    let (same_project, same_name) = is_workflow-holds workflow.project_name workflow.name row met in
    rw (
      same_project,
      same_name,
      o workflow.resolved_repo_digest,
      o workflow.runtime_image_id,
      o workflow.schedule,
    )

is_workflow_refl :
    (workflow : Workflow) (first now : String)
    → is_workflow workflow.project_name workflow.name (inserted_workflow workflow first now) ≡ true
is_workflow_refl workflow first now = rw (eq_refl workflow.project_name, eq_refl workflow.name)

module _ (clock : String) (workflow : Workflow) (db : Db) where
  abbrev definition : Workflow
  definition = record workflow { queue_cap = capped workflow.queue_cap }

  abbrev ensured : Db
  ensured = ensure_project workflow.project_name (upsert_now clock workflow) db

  upsert-new :
      get_workflow_definition_query workflow.project_name workflow.name ensured ≡ none
      → upsert_workflow_definition clock workflow db ≡ (
        decorate_workflow_definition (record definition {
          created_at = upsert_first clock workflow;
          updated_at = upsert_now clock workflow;
        }),
        record ensured {
          workflows =
              ensured.workflows
              ++ inserted_workflow definition
                  (upsert_first clock workflow)
                  (upsert_now clock workflow)
                ∷ [];
        },
      )
  unfolding upsert_workflow_definition
  upsert-new e = rw (e, upsert_workflow_definition)

  upsert-old :
      (existing : Workflow)
      → get_workflow_definition_query workflow.project_name workflow.name ensured ≡ some existing
      → upsert_workflow_definition clock workflow db ≡ (
        decorate_workflow_definition (record definition {
          created_at = existing.created_at;
          updated_at = upsert_now clock workflow;
        }),
        record ensured {
          workflows =
              update_where
                (is_workflow workflow.project_name workflow.name)
                (overwritten_workflow definition (upsert_now clock workflow))
                ensured.workflows;
        },
      )
  unfolding upsert_workflow_definition
  upsert-old existing e = rw (e, upsert_workflow_definition)

  cap_of :
      (at : String)
      → 0
        < (decorate_workflow_definition (record definition {
          created_at = at;
          updated_at = upsert_now clock workflow;
        })).queue_cap
  unfolding decorate_workflow_definition
  cap_of at = ground arith

  -- The definition that an upsert returns is the one that a lookup finds afterwards, whether the
  -- workflow is new or replaces one: its queue cap is never 0.
  pub get-upserted :
      (get_workflow_definition workflow.project_name workflow.name
          (upsert_workflow_definition clock workflow db).1
        ≡ ok (upsert_workflow_definition clock workflow db).0)
      × (0 < (upsert_workflow_definition clock workflow db).0.queue_cap)
  get-upserted =
      let p = workflow.project_name in
      let w = workflow.name in
      elim (Option-cases (select_row (is_workflow p w) ensured.workflows)) [
        | inl e ↦ rw (upsert-new (query-none p w ensured e)) (
          get-found p w
                (record ensured {
                  workflows =
                      ensured.workflows
                      ++ inserted_workflow definition (upsert_first clock workflow)
                          (upsert_now clock workflow)
                        ∷ [];
                })
                (inserted_workflow definition (upsert_first clock workflow)
                  (upsert_now clock workflow))
                (select_row-snoc_none (is_workflow p w) ensured.workflows
                    (inserted_workflow definition (upsert_first clock workflow)
                      (upsert_now clock workflow))
                    e
                  ∙ ap
                      (λ (b : Bool).
                        if b
                        then some (
                            inserted_workflow definition (upsert_first clock workflow)
                              (upsert_now clock workflow))
                        else none)
                      (is_workflow_refl definition (upsert_first clock workflow)
                        (upsert_now clock workflow)))
              ∙ ap {B = Result Workflow} (λ d. ok d)
                  (scan-inserted definition (upsert_first clock workflow)
                    (upsert_now clock workflow)),
          cap_of (upsert_first clock workflow),
        )
        | inr (row, e) ↦
            rw (upsert-old (scan_workflow_definition row) (query-found p w ensured row e)) (
              get-found p w
                    (record ensured {
                      workflows =
                          update_where (is_workflow p w)
                            (overwritten_workflow definition (upsert_now clock workflow))
                            ensured.workflows;
                    })
                    (overwritten_workflow definition (upsert_now clock workflow) row)
                    (select_row-update (is_workflow p w) (is_workflow p w)
                        (overwritten_workflow definition (upsert_now clock workflow))
                        ensured.workflows (λ x h. refl)
                      ∙ ap
                          (changed_option (is_workflow p w)
                            (overwritten_workflow definition (upsert_now clock workflow)))
                          e
                      ∙ ap
                          (λ (b : Bool). some (
                            if b
                            then overwritten_workflow definition (upsert_now clock workflow) row
                            else row))
                          (select_row-holds (is_workflow p w) ensured.workflows row e))
                  ∙ ap {B = Result Workflow} (λ d. ok d)
                      (scan-overwritten definition (upsert_now clock workflow) row
                        (select_row-holds (is_workflow p w) ensured.workflows row e)),
              cap_of (scan_workflow_definition row).created_at,
            )
      ]
