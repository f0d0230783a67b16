-- ===== src/Tests/Matches.antt =====
-- A token with two scopes, three entries, a task of the outbox, and an upload.
use git_hub_action_cache_ser.Prelude.{
  arith, ℕ, ◌+◌, ◌≤◌, ◌≡◌, refl, ◌↔◌, true, false, some, List, [], ◌∷◌, min, find, any, map,
  delete_where, update_where, ◌==◌, ◌++◌,
}
use git_hub_action_cache_ser.Prelude.Int.{ℤ, pos, int_ltb}
use git_hub_action_cache_ser.Db.{Bytes, codes, bytes_eq, Db, CacheEntry, StorageDeletion, enqueue}
use git_hub_action_cache_ser.Matching.{
  Scope, CacheScope, read_scopes_by_permission, readable_scopes, sort_scopes, insert_scope,
  match_cache_entry, match_scopes, match_restore_keys, find_exact_or_prefixed, find_cache_entry,
  latest, has_prefix,
}
use git_hub_action_cache_ser.Matching.Entries.{Answers, tries, match_cache_entry-Answers}
use git_hub_action_cache_ser.Matching.Scopes.{
  IsDescending, with_permission, read_scopes_by_permission-ordered,
}
use git_hub_action_cache_ser.Outbox.{
  process, storage_deletion_ready, storage_deletion_retry_delay, storage_deletion_retry_base,
  storage_deletion_retry_max, reconciliation_retry_delay,
}
use git_hub_action_cache_ser.Outbox.Retry.{
  doubled, retry_delays-doubled, process-failed, process-done,
}
use git_hub_action_cache_ser.Uploads.Cleanup.{
  run_uploads, clean_pages, next_uploads, clean_page, clean_upload,
}
use git_hub_action_cache_ser.Uploads.{UploadStep, upload_steps, delete_if_inactive}
use git_hub_action_cache_ser.Uploads.Activity.{IsActiveSince, upload_steps-IsActiveSince}

abbrev token : CacheScope
token = record {
  scopes =
      record { scope = codes "main"; permission = pos 1 }
      ∷ record { scope = codes "dev"; permission = pos 3 }
      ∷ [];
  repo_id = codes "r";
}

abbrev row : ℕ → Bytes → Bytes → ℕ → CacheEntry
row id key scope updated_at = record {
  id = id;
  key = key;
  version = codes "v";
  scope = scope;
  repo_id = codes "r";
  updated_at = updated_at;
  location_id = id;
}

abbrev rows : List CacheEntry
rows =
    row 1 (codes "linux") (codes "main") 10
    ∷ row 2 (codes "linux-a") (codes "dev") 20
    ∷ row 3 (codes "linux-b") (codes "dev") 30
    ∷ []

match_cache_entry-Answers_example :
    Answers rows
      (codes "v")
      (codes "r")
      (tries (codes "win") (codes "linux" ∷ []) (read_scopes_by_permission token))
      (match_cache_entry rows (codes "win") (codes "linux" ∷ []) (codes "v") token)
match_cache_entry-Answers_example =
    match_cache_entry-Answers rows (codes "win") (codes "linux" ∷ []) (codes "v") token

-- The scope with more permission comes first, though another has the exact key.
match-run :
    match_cache_entry rows (codes "win") (codes "linux" ∷ []) (codes "v") token
    ≡ some (row 3 (codes "linux-b") (codes "dev") 30)
unfolding match_cache_entry match_scopes match_restore_keys find_exact_or_prefixed find_cache_entry
    latest has_prefix find read_scopes_by_permission readable_scopes sort_scopes insert_scope
    bytes_eq
match-run = refl

read_scopes_by_permission-ordered_example :
    (sorted : List Scope) × IsDescending sorted
    × ((p : ℤ) → with_permission p sorted ≡ with_permission p token.scopes)
    × (read_scopes_by_permission token
        ≡ map (λ x. x.scope) (delete_where (λ x. int_ltb x.permission (pos 1)) sorted))
read_scopes_by_permission-ordered_example = read_scopes_by_permission-ordered token

abbrev task : StorageDeletion
task = record {
  id = 4;
  folder_name = codes "up";
  created_at = 100;
  attempt_count = 1;
  last_attempted_at = some 200;
}

abbrev outbox : Db
outbox = record {
  locations = [];
  entries = [];
  leases = [];
  uploads = [];
  deletions = task ∷ [];
  next_deletion = 5;
}

process-failed_example :
    ((process (λ folder. false) 1000 task outbox).0 ≡ false)
    × ((t : StorageDeletion) × (find
            (λ t. t.id == 4)
            (process (λ folder. false) 1000 task outbox).1.deletions
          ≡ some t)
        × ((later : ℕ)
            → (storage_deletion_ready t later ≡ true) ↔ (
                1000 + min (doubled 1 storage_deletion_retry_base) storage_deletion_retry_max
                ≤ later)))
unfolding find
process-failed_example = process-failed (λ folder. false) 1000 task outbox refl refl

process-done_example :
    ((process (λ folder. true) 1000 task outbox).0 ≡ true)
    × (any (λ t. t.id == 4) (process (λ folder. true) 1000 task outbox).1.deletions ≡ false)
    × (delete_where (λ t. t.id == 4) (process (λ folder. true) 1000 task outbox).1.deletions
        ≡ delete_where (λ t. t.id == 4) outbox.deletions)
    × ((process (λ folder. true) 1000 task outbox).1
        ≡ record outbox { deletions = (process (λ folder. true) 1000 task outbox).1.deletions })
    × ((process (λ folder. false) 2000 task (process (λ folder. true) 1000 task outbox).1).1
        ≡ (process (λ folder. true) 1000 task outbox).1)
process-done_example = process-done (λ folder. true) (λ folder. false) 1000 2000 task outbox refl

retry_delays-doubled_example :
    (storage_deletion_retry_delay 3 ≡ 1200000) × (reconciliation_retry_delay 3 ≡ 240000)
retry_delays-doubled_example = retry_delays-doubled 3

abbrev uploading : Db
uploading = record outbox {
  uploads =
      record {
        id = 9;
        key = codes "k";
        version = codes "v";
        scope = codes "main";
        repo_id = codes "r";
        created_at = 1000;
        last_part_uploaded_at = some 400000;
        finished_part_upload_count = 1;
        folder_name = codes "9";
        committed_part_count = some 0;
      }
      ∷ [];
}

abbrev steps : List (ℕ × UploadStep)
steps =
    (450000, UploadStep.clean_up 9 (codes "9"))
    ∷ (600000, UploadStep.take_over 9 (codes "9"))
    ∷ (650000, UploadStep.touch 9)
    ∷ []

upload_steps-IsActiveSince_example : IsActiveSince 9 400000 (upload_steps steps uploading)
unfolding any
upload_steps-IsActiveSince_example =
    upload_steps-IsActiveSince 9 400000 steps uploading
      ((omega arith, omega arith), ((omega arith, omega arith), ((omega arith, omega arith), tt)))
      refl

-- The upload is idle by then; its folder cannot be deleted, and its task stays.
run_uploads-run :
    run_uploads (λ folder. false) 1600000 uploading
    ≡ some (
      1,
      record uploading {
        uploads = [];
        deletions =
            uploading.deletions
            ++ record {
              id = uploading.next_deletion;
              folder_name = codes "9";
              created_at = 1600000;
              attempt_count = 1;
              last_attempted_at = some 1600000;
            }
              ∷ [];
        next_deletion = uploading.next_deletion + 1;
      },
    )
unfolding run_uploads clean_pages next_uploads clean_page clean_upload delete_if_inactive process
    any delete_where update_where enqueue
run_uploads-run = refl
