-- ===== src/Backend/Tree/Handler.antt =====
-- backend/app/controllers/protocol_device.go: the changes of files that a device sends.
use sagiri_guard.Base.{ℕ, Bool, true, not, List, Option, none, some, String, ◌==◌, if◌then◌else◌}
use sagiri_guard.Base.Results.{ok, err}
use sagiri_guard.Changes.{FileChange}
use sagiri_guard.Backend.Transfer.{Transfer, is_authorized}
use sagiri_guard.Backend.Tree.{Database, Tree, Run}
use sagiri_guard.Backend.Tree.Deletion.{apply_changes}

module _ (B : Database) where
  -- what is done with a payload, which may not be a list of changes
  unfoldable pub apply_payload : ℕ → String → Option (List FileChange) → Tree B → Run B Bool
  unfolding apply_changes
  apply_payload now device none t = (err "invalid payload", t)
  apply_payload now device (some changes) t = apply_changes B now device changes t

module _ (B : Database) {V : Type 0} where
  -- `handleFileTreeSync`; `has_tree` is whether the controller has a tree service
  unfoldable pub handle_file_tree_sync :
      Bool → ℕ → String → Option (List FileChange) → Transfer V → Tree B → Run B Bool
  unfolding apply_payload is_authorized
  handle_file_tree_sync has_tree now device changes st t =
      if not (is_authorized device st)
      then (err "unauthorized", t)
      else if not has_tree
      then (ok true, t)
      else if device == ""
      then (err "missing device id", t)
      else apply_payload B now device changes t
