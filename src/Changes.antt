-- ===== src/Changes.antt =====
-- backend/app/dto/filetree.go, and its mirror in agent/internal/service/filetree_sync.go: a change of
-- a file that the agent sends.
use sagiri_guard.Base.{ℕ, Bool, List, String}
use sagiri_guard.Base.Text.{Text}

-- `FileChange`
pub record FileChange : Type 0 where
  pub id : String
  pub origin_path : Text
  pub current_path : Text
  pub current_name : Text
  pub extension : Text
  pub size : ℕ
  pub snapshot_number : ℕ
  pub is_dir : Bool
  pub deleted : Bool
  pub change_pending : Bool
  pub content_types : List ℕ
