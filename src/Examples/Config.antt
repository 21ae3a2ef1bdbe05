-- ===== src/Examples/Config.antt =====
-- The environment of a project through cmd/brain/project_config.go.
use ovek.Common.{
  ◌≡◌, refl, String, Bool, true, false, Option, none, some, [], ◌∷◌, ◌==◌, arith, trim_space, strip,
  text_append, text_lt, if◌then◌else◌,
}
use ovek.Store.Sql.{
  Result, ok, err, select, select_row, count_where, exists_where, delete_where, insert_by, order_by,
  first_row, nullable_string,
}
use ovek.Projects.{ensure_project, latest_project_config_revision_id}
use ovek.Auth.{insert_audit_log, insert_audit_row, with_defaults, must_details_json}
use ovek.Auth.History.{empty_tables}
use ovek.ProjectConfig.{
  ConfigDb, ConfigDraws, EnvironmentMutation, has_revision_id, insert_revision_row,
  insert_entry_row, insert_entries, insert_project_config_revision, project_config_mutation_reason,
  project_config_audit_record, store_revision, set_entry, stored_value,
  list_project_config_entry_records, latest_project_config_entry_map, set_valid_entry,
  set_environment_entry, delete_valid_entry, delete_environment_entry,
  project_config_revision_exists, resolve_records, resolve_runtime_config,
}
use ovek.ProjectConfig.Names.{
  byte_length, matches_rest, matches_name_pattern, is_reserved, validate_project_env_name,
  validate_project_env_value,
}
use ovek.ProjectConfig.Revisions.{IsConsistent}
use ovek.ProjectConfig.Variables.{variable, latest_variable}
use ovek.ProjectConfig.Mutations.{
  here, next, deletes, Evolves, set-variable, delete-variable, set-IsConsistent, records-evolved,
}
use ovek.Examples.Auth.{demo_platform}

-- Stand-ins for the cipher.
abbrev seal : String → Option String
seal value = some (text_append "#" value)

abbrev unseal : String → Option String
unseal value = strip value "#"

abbrev empty_config : ConfigDb
empty_config = record {
  tables = record {
    projects = [];
    deployments = [];
    jobs = [];
    project_config_revisions = [];
    workflows = [];
    workflow_runs = [];
    workflow_trigger_tokens = [];
  };
  auth = empty_tables;
  project_config_entries = [];
}

abbrev config_of : Result (EnvironmentMutation × ConfigDb) → ConfigDb
config_of (ok r) = r.1
config_of (err e) = empty_config

abbrev mutation_of : Result (EnvironmentMutation × ConfigDb) → EnvironmentMutation
mutation_of (ok r) = r.0
mutation_of (err e) = record { revision_id = ""; entry = none }

unfoldable set_demo :
    ConfigDraws → String → String → Bool → ConfigDb → Result (EnvironmentMutation × ConfigDb)
unfolding set_environment_entry validate_project_env_name validate_project_env_value byte_length
    matches_name_pattern matches_rest is_reserved strip trim_space set_valid_entry ensure_project
    select_row stored_value store_revision insert_project_config_revision insert_revision_row
    insert_entries insert_entry_row exists_where order_by insert_by set_entry delete_where
    latest_project_config_entry_map latest_project_config_revision_id first_row select
    list_project_config_entry_records project_config_mutation_reason project_config_audit_record
    insert_audit_log insert_audit_row with_defaults must_details_json nullable_string text_append
set_demo draws name value secret db =
    set_environment_entry demo_platform seal draws "demo" name value secret "ada" db

abbrev draws1 : ConfigDraws
draws1 = record { revision_id = "r1"; audit_id = "a1"; now = "t1" }

abbrev draws2 : ConfigDraws
draws2 = record { revision_id = "r2"; audit_id = "a2"; now = "t2" }

abbrev draws3 : ConfigDraws
draws3 = record { revision_id = "r3"; audit_id = "a3"; now = "t3" }

unfoldable first_set : Result (EnvironmentMutation × ConfigDb)
unfolding set_demo
first_set = set_demo draws1 "DEBUG" "1" false empty_config

unfoldable second_set : Result (EnvironmentMutation × ConfigDb)
unfolding set_demo first_set
second_set = set_demo draws2 " TOKEN " "s3cret" true (config_of first_set)

second-ok : second_set ≡ ok (mutation_of second_set, config_of second_set)
unfolding second_set text_lt
second-ok = refl

-- The second revision as a job resolves it.
resolves :
    resolve_runtime_config unseal "demo" "r2" (config_of second_set)
    ≡ ok (record {
      revision_id = "r2";
      env = "DEBUG=1" ∷ "TOKEN=s3cret" ∷ [];
      secret_values = "s3cret" ∷ [];
    })
unfolding second_set resolve_runtime_config resolve_records project_config_revision_exists
    list_project_config_entry_records select order_by insert_by count_where trim_space strip
    text_append text_lt
resolves = refl

empty-IsConsistent : IsConsistent empty_config
unfolding count_where
empty-IsConsistent = record {
  keyed = λ revision_id name. omega arith;
  owned = λ revision_id h. refl;
}

first-ok : first_set ≡ ok (mutation_of first_set, config_of first_set)
unfolding first_set
first-ok = refl

first-IsConsistent : IsConsistent (config_of first_set)
unfolding first_set set_demo
first-IsConsistent =
    set-IsConsistent demo_platform seal draws1 "demo" "DEBUG" "1" false "ada" empty_config
      (mutation_of first_set) (config_of first_set) empty-IsConsistent first-ok

second-IsConsistent : IsConsistent (config_of second_set)
unfolding second_set set_demo
second-IsConsistent =
    set-IsConsistent demo_platform seal draws2 "demo" " TOKEN " "s3cret" true "ada"
      (config_of first_set) (mutation_of second_set) (config_of second_set) first-IsConsistent
      second-ok

set-variable_example :
    (sealed : String) × (stored_value seal true "s3cret" ≡ ok sealed)
    × (variable "demo" "r2" "DEBUG" (config_of second_set) ≡ (
        if trim_space " TOKEN " == "DEBUG"
        then some (true, sealed)
        else latest_variable "demo" "DEBUG" (config_of first_set)))
unfolding second_set set_demo text_lt
set-variable_example =
    set-variable demo_platform seal draws2 "demo" " TOKEN " "s3cret" true "ada" "DEBUG"
      (config_of first_set) (mutation_of second_set) (config_of second_set) first-IsConsistent
      second-ok

unfoldable removal : Result (EnvironmentMutation × ConfigDb)
unfolding second_set delete_environment_entry validate_project_env_name byte_length
    matches_name_pattern matches_rest is_reserved strip trim_space delete_valid_entry select_row
    store_revision insert_project_config_revision insert_revision_row insert_entries
    insert_entry_row exists_where order_by insert_by delete_where latest_project_config_entry_map
    latest_project_config_revision_id first_row select list_project_config_entry_records
    project_config_mutation_reason project_config_audit_record insert_audit_log insert_audit_row
    with_defaults must_details_json nullable_string text_append text_lt
removal = delete_environment_entry demo_platform draws3 "demo" "DEBUG" "ada" (config_of second_set)

removal-ok : removal ≡ ok (mutation_of removal, config_of removal)
unfolding removal
removal-ok = refl

delete-variable_example : variable "demo" "r3" "DEBUG" (config_of removal) ≡ (
    if trim_space "DEBUG" == "DEBUG"
    then none
    else latest_variable "demo" "DEBUG" (config_of second_set))
unfolding removal
delete-variable_example =
    delete-variable demo_platform draws3 "demo" "DEBUG" "ada" "DEBUG" (config_of second_set)
      (mutation_of removal) (config_of removal) second-IsConsistent removal-ok

evolution : Evolves demo_platform seal (config_of second_set) (config_of removal)
unfolding removal
evolution = next here (
    deletes draws3 "demo" "DEBUG" "ada" (mutation_of removal) (config_of second_set)
      (config_of removal) removal-ok)

there :
    exists_where (has_revision_id "r2") (config_of second_set).tables.project_config_revisions
    ≡ true
unfolding second_set exists_where text_lt
there = refl

records-evolved_example :
    list_project_config_entry_records "demo" "r2" (config_of removal)
    ≡ list_project_config_entry_records "demo" "r2" (config_of second_set)
records-evolved_example =
    records-evolved demo_platform seal "demo" "r2" (config_of second_set) (config_of removal)
      second-IsConsistent there evolution
