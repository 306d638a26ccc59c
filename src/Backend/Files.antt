-- ===== src/Backend/Files.antt =====
-- The file system as the backup service uses it: package `os` on a map from paths to contents, with
-- what the system lets each call do. A write stores at most `quota` bytes, if there is a quota.
pub mod Writes
use sagiri_guard.Base.{
  ℕ, zero, suc, ◌≡◌, Bool, true, false, not, ◌&&◌, List, [], ◌∷◌, ◌++◌, Option, none, some, String,
  if◌then◌else◌, leb, length, drop, take,
}
use sagiri_guard.Base.Text.{Text}
use sagiri_guard.Base.Map.{Map, lookup, insert, delete}

pub record Files : Type 0 where
  pub contents : Map Text
  pub mkdir_works : Bool
  pub stat_works : Bool
  pub create_works : Bool
  pub open_works : Bool
  pub rename_works : Bool
  pub quota : Option ℕ

pub data Stat : Type 0 where
  present : ℕ → Stat
  absent failed : Stat

-- os.Stat, for the size of a file
unfoldable pub stat : String → Files → Stat
unfolding lookup
stat p fs =
    if not fs.stat_works
    then failed
    else elim (lookup p fs.contents) [ none ↦ absent | some s ↦ present (length s) ]

-- os.Create
unfoldable pub create : String → Files → Option Files
unfolding insert
create p fs =
    if fs.create_works then some (record fs { contents = insert p [] fs.contents }) else none

-- the content after a write at an offset; a gap before it is filled with zeros
unfoldable pub write_at : ℕ → Text → Text → Text
write_at zero bytes s = bytes ++ drop (length bytes) s
write_at (suc n) bytes [] = 0 ∷ write_at n bytes []
write_at (suc n) bytes (c ∷ s) = c ∷ write_at n bytes s

pub data Written : Type 0 where
  done open_failed write_failed : Written

unfoldable pub store_at : String → ℕ → Text → Text → Files → Written × Files
unfolding write_at insert
store_at p offset bytes s fs = elim fs.quota [
  | none ↦ (done, record fs { contents = insert p (write_at offset bytes s) fs.contents })
  | some n ↦
      if leb (length bytes) n
      then (done, record fs { contents = insert p (write_at offset bytes s) fs.contents })
      else (
        write_failed,
        record fs { contents = insert p (write_at offset (take n bytes) s) fs.contents },
      )
]

-- os.OpenFile for writing, without creating or truncating; Seek; Write
unfoldable pub open_write : String → ℕ → Text → Option Text → Files → Written × Files
unfolding store_at
open_write p offset bytes none fs = (open_failed, fs)
open_write p offset bytes (some s) fs =
    if fs.open_works then store_at p offset bytes s fs else (open_failed, fs)

-- os.Rename
unfoldable pub rename : String → String → Files → Option Files
unfolding lookup insert delete
rename old new fs = elim (lookup old fs.contents) [
  | none ↦ none
  | some s ↦
      if fs.rename_works
      then some (record fs { contents = insert new s (delete old fs.contents) })
      else none
]
