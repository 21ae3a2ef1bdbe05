-- ===== src/Cleanup/Steps.antt =====
-- The steps of Cleanup and RemoveRuntime of cmd/brain/cleanup.go that leave the database.
use ovek.Common.{arith, inl, inr, String, List, [], ◌∷◌, Bool-cases}
use ovek.Runtime.{RuntimeError, ProjectAppRuntime, Call, Flow, ◌>>◌, return, refuse}
use ovek.Runtime.Laws.{
  IsQuiet, return-IsQuiet, if_present-IsQuiet, if_present-IsIdle, IsIdle, bind-IsQuiet, if-IsQuiet,
  call-IsQuiet, ask-IsQuiet, return-IsIdle, attempt-IsIdle, then-IsIdle,
}
use ovek.Cleanup.Listing.{dedupe_strings}
use ovek.Cleanup.Removal.{
  Cleaner, RuntimeRemovalOptions, remove_log_files, cleanup_project_log_files, cleanup_images,
  managed_job_log_path, cleanup_project_images, tear_down, require_project, remove_apps,
  tear_down_project, remove_ingress, tear_down_apps, tear_down_database,
}

module _ {W : Type 0} (cleaner : Cleaner W) where
  remove_log_files-IsIdle : (paths : List String) → IsIdle (remove_log_files cleaner paths)
  unfolding remove_log_files
  remove_log_files-IsIdle [] = return-IsIdle
  remove_log_files-IsIdle (path ∷ paths) =
      then-IsIdle (if_present-IsIdle (managed_job_log_path cleaner path) (λ p. attempt-IsIdle _))
        (remove_log_files-IsIdle paths)

  cleanup_images-IsIdle :
      (cleanup_image : String → Call RuntimeError W) (refs : List String)
      → IsIdle (cleanup_images cleaner cleanup_image refs)
  unfolding cleanup_images
  cleanup_images-IsIdle cleanup_image [] = return-IsIdle
  cleanup_images-IsIdle cleanup_image (ref ∷ refs) =
      then-IsIdle (attempt-IsIdle (cleanup_image ref)) (cleanup_images-IsIdle cleanup_image refs)

  -- Cleanup after its changes of the database.
  abbrev pub tidy : String → List String → List String → Flow W (Unit {0})
  tidy n refs paths =
      remove_ingress cleaner n
      >> (cleanup_project_images cleaner refs >> cleanup_project_log_files cleaner paths)

  pub tidy-IsIdle : (n : String) (refs paths : List String) → IsIdle (tidy n refs paths)
  unfolding remove_ingress cleanup_project_images cleanup_project_log_files
  tidy-IsIdle n refs paths =
      then-IsIdle (if_present-IsIdle cleaner.remove_project_ingress (λ f. attempt-IsIdle (f n))) (
        then-IsIdle (if_present-IsIdle cleaner.cleanup_image (λ f. cleanup_images-IsIdle f _))
          (remove_log_files-IsIdle (dedupe_strings paths)))

  require_project-IsQuiet : (n : String) → IsQuiet (require_project cleaner n)
  unfolding require_project return refuse
  require_project-IsQuiet n = record { same_db = λ w db. ground arith }

  tear_down-IsQuiet : (teardown : Call RuntimeError W) → IsQuiet (tear_down cleaner teardown)
  unfolding tear_down
  tear_down-IsQuiet teardown = call-IsQuiet _ _

  remove_apps-IsQuiet : (apps : List ProjectAppRuntime) → IsQuiet (remove_apps cleaner apps)
  unfolding remove_apps
  remove_apps-IsQuiet [] = return-IsQuiet tt
  remove_apps-IsQuiet (app ∷ apps) =
      bind-IsQuiet (tear_down-IsQuiet _) (λ _. remove_apps-IsQuiet apps)

  pub tear_down_project-IsQuiet : (n : String) → IsQuiet (tear_down_project cleaner n)
  unfolding tear_down_project
  tear_down_project-IsQuiet n = bind-IsQuiet (require_project-IsQuiet n) (λ _.
      bind-IsQuiet (ask-IsQuiet _) (λ apps. bind-IsQuiet (remove_apps-IsQuiet apps) (λ _.
        bind-IsQuiet (tear_down-IsQuiet _)
          (λ _. bind-IsQuiet (tear_down-IsQuiet _) (λ _. tear_down-IsQuiet _)))))

  pub tear_down_apps-IsQuiet : (n : String) → IsQuiet (tear_down_apps cleaner n)
  unfolding tear_down_apps
  tear_down_apps-IsQuiet n = bind-IsQuiet (require_project-IsQuiet n) (λ _.
      bind-IsQuiet (ask-IsQuiet _) (λ apps.
        bind-IsQuiet (remove_apps-IsQuiet apps)
          (λ _. if_present-IsQuiet cleaner.remove_project_ingress (λ f. call-IsQuiet _ _))))

  pub tear_down_database-IsQuiet :
      (n : String) (options : RuntimeRemovalOptions)
      → IsQuiet (tear_down_database cleaner n options)
  unfolding tear_down_database
  tear_down_database-IsQuiet n options = elim (Bool-cases options.remove_database) [
    | inl e ↦ rw e (
        bind-IsQuiet (tear_down-IsQuiet _) (λ _.
          bind-IsQuiet
            (if-IsQuiet options.delete_database_data (call-IsQuiet _ _) (return-IsQuiet tt))
            (λ _. tear_down-IsQuiet _)))
    | inr e ↦ rw e (return-IsQuiet tt)
  ]
