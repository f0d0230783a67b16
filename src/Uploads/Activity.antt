-- ===== src/Uploads/Activity.antt =====
-- Uploads through histories of renewals, takeovers and cleanups: internal/uploadsession/session.go.
use git_hub_action_cache_ser.Prelude.{
  ℕ, ◌+◌, ◌≤◌, ◌≡◌, Bool, true, false, ◌&&◌, List, [], ◌∷◌, leb, ◌==◌, holds, any, All,
  update_where, delete_where, none, any-delete_where, arith, Bool-cases, inl, inr, ◌∙◌,
}
use git_hub_action_cache_ser.Db.{Bytes, Db, Upload, StorageDeletion, enqueue}
use git_hub_action_cache_ser.Uploads.{
  takeover_idle_timeout, inactive_by_id, delete_if_inactive, set_activity, touch_upload_activity,
  UploadStep, touch, take_over, clean_up, upload_step, upload_steps,
}

-- The rows of other uploads, and those that are not idle.
abbrev pub kept_uploads : ℕ → ℕ → List Upload → List Upload
kept_uploads k cutoff us = delete_where (inactive_by_id k cutoff) us

-- The task of a folder that goes into these tables.
abbrev pub first_task : ℕ → Bytes → Db → StorageDeletion
first_task now folder_name db = record {
  id = db.next_deletion;
  folder_name = folder_name;
  created_at = now;
  attempt_count = 0;
  last_attempted_at = none;
}

-- The upload is in the table, with a part at the time `t` or later.
abbrev pub is_active_since : ℕ → ℕ → Upload → Bool
is_active_since upload_id t u = u.id == upload_id && holds u.last_part_uploaded_at (λ x. leb t x)

abbrev pub IsActiveSince : ℕ → ℕ → Db → Type 0
IsActiveSince upload_id t db = any (is_active_since upload_id t) db.uploads ≡ true

module _ (upload_id t : ℕ) where
  delete_if_inactive-IsActiveSince :
      (now k : ℕ) (folder_name : Bytes) (cutoff : ℕ) (db : Db)
      → cutoff ≤ t
      → IsActiveSince upload_id t db
      → IsActiveSince upload_id t (delete_if_inactive now k folder_name cutoff db).1
  unfolding delete_if_inactive enqueue
  delete_if_inactive-IsActiveSince now k folder_name cutoff db early h =
      elim (Bool-cases (any (inactive_by_id k cutoff) db.uploads)) [
        | inl e ↦ rw e (
            any-delete_where (is_active_since upload_id t) (inactive_by_id k cutoff) db.uploads
              (λ u a. kept u a)
            ∙ h)
        | inr e ↦ rw e h
      ]
    where
      kept : (u : Upload) → is_active_since upload_id t u ≡ true → inactive_by_id k cutoff u ≡ false
      kept u a = ground arith

  touched-stays :
      (now k : ℕ) (us : List Upload)
      → t ≤ now
      → any (is_active_since upload_id t) us ≡ true
      → any (is_active_since upload_id t) (update_where (λ u. u.id == k) (set_activity now) us)
        ≡ true
  unfolding any update_where
  touched-stays now k [] late h = h
  touched-stays now k (u ∷ us) late h = ground (arith, touched-stays now k us late)

  touch-IsActiveSince :
      (now k : ℕ) (db : Db)
      → t ≤ now
      → IsActiveSince upload_id t db
      → IsActiveSince upload_id t (touch_upload_activity now k db).1
  unfolding touch_upload_activity
  touch-IsActiveSince now k db late h = elim (Bool-cases (any (λ u. u.id == k) db.uploads)) [
    | inl e ↦ rw e (touched-stays now k db.uploads late h)
    | inr e ↦ rw e h
  ]

  upload_step-IsActiveSince :
      (now : ℕ) (step : UploadStep) (db : Db)
      → (t ≤ now) × (now ≤ t + takeover_idle_timeout)
      → IsActiveSince upload_id t db
      → IsActiveSince upload_id t (upload_step now step db)
  unfolding upload_step
  upload_step-IsActiveSince now (touch k) db w h = touch-IsActiveSince now k db w.0 h
  upload_step-IsActiveSince now (take_over k folder_name) db w h =
      delete_if_inactive-IsActiveSince now k folder_name _ db (omega arith) h
  upload_step-IsActiveSince now (clean_up k folder_name) db w h =
      delete_if_inactive-IsActiveSince now k folder_name _ db (omega arith) h

  -- An upload that had a part at the time `t` stays, and keeps such an activity, through every history
  -- of renewals, takeovers and cleanups from then until the idle time of a takeover has passed.
  pub upload_steps-IsActiveSince :
      (steps : List (ℕ × UploadStep)) (db : Db)
      → All (λ (s : ℕ × UploadStep). (t ≤ s.0) × (s.0 ≤ t + takeover_idle_timeout)) steps
      → IsActiveSince upload_id t db
      → IsActiveSince upload_id t (upload_steps steps db)
  unfolding upload_steps
  upload_steps-IsActiveSince [] db w h = h
  upload_steps-IsActiveSince ((now, step) ∷ steps) db w h =
      upload_steps-IsActiveSince steps _ w.1 (upload_step-IsActiveSince now step db w.0 h)
