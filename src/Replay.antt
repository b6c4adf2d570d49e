-- ===== src/Replay.antt =====
-- server/replay/store.go: the audit store, one directory per round under the store's root.
-- The root is a table from entry names to entries. What the operating system may refuse is a record
-- of flags, one for each call that can fail; SHA-256 is a parameter. JSON encoding is left out: the
-- file manifest.json holds a manifest, or bytes that do not parse.
pub mod FileSystem
pub mod Saving
pub mod Listing
pub mod Integrity
mod Tests
use marbles_game.Prelude.{
  Bool, Exec, List, Option, Result, Str, [], codes, err, if◌then◌else◌, is_empty, is_some, leb,
  length, none, not, ok, some, str_eq, str_eq_inst, ℕ, ◌++◌, ◌-◌, ◌==◌, ◌∷◌,
}
use marbles_game.Prelude.Dict.{delete, insert, lookup}
use marbles_game.Std.Decimal.{format_uint, parse_uint}
use marbles_game.Std.Hex.{hex_encode}
use marbles_game.Std.Sort.{sort}
use FileSystem.{Participant, Winner, Manifest, ManifestFile, json, garbage, Entry, file, dir, Root}

pub data Error : Type 0 where
  round_exists round_missing checksum_mismatch invalid_manifest : Error
  stat_failed mkdir_temp_failed write_replay_failed write_manifest_failed rename_failed : Error
  read_root_failed read_manifest_failed parse_manifest_failed open_replay_failed : Error

-- Which calls of the operating system fail.
pub record Faults : Type 0 where
  pub stat : Bool
  pub mkdir_temp : Bool
  pub write_replay : Bool
  pub write_manifest : Bool
  pub rename : Bool

-- `roundDir`
abbrev pub round_dir : ℕ → Str
round_dir id = format_uint id

-- `validateManifestForSave`: the nil check has no counterpart.
unfoldable pub validate_manifest_for_save : Manifest → Option Error
validate_manifest_for_save m =
    if m.round_id == 0
    then some invalid_manifest
    else if is_empty m.server_seed_hash_hex
    then some invalid_manifest
    else if is_empty m.server_seed_hex
    then some invalid_manifest
    else if leb (length m.participants) 0
    then some invalid_manifest
    else none

-- The name that `os.MkdirTemp` makes from the pattern, with a suffix of its choice.
abbrev pub temp_name : ℕ → Str → Str
temp_name id suffix = codes "pending-" ++ (format_uint id ++ codes "-") ++ suffix

module _ (sha256 : Str → Str) where
  -- What `Save` writes into its manifest: the digest, and the time if there is none.
  unfoldable pub stamp : ℕ → Str → Manifest → Manifest
  stamp now replay m = record m {
    replay_sha256_hex = hex_encode (sha256 replay);
    created_at = if m.created_at == 0 then now else m.created_at;
  }

  -- `Save` from the temporary directory on. A failure removes that directory again; a success
  -- renames it.
  unfoldable pub write_round : Faults → Str → ℕ → Manifest → Str → Exec Error Root Manifest
  unfolding stamp
  write_round faults tmp now m replay root =
      if faults.write_replay
      then (err write_replay_failed, delete tmp (insert tmp (dir none none) root))
      else if faults.write_manifest
      then (err write_manifest_failed, delete tmp (insert tmp (dir none (some replay)) root))
      else (let m' = stamp now replay m in
          let full = insert tmp (dir (some (json m')) (some replay)) root in
          if faults.rename then (err rename_failed, delete tmp full) else (
            ok m',
            insert (round_dir m.round_id) (dir (some (json m')) (some replay)) (delete tmp full),
          ))

  unfoldable pub save_new : Faults → Str → ℕ → Manifest → Str → Exec Error Root Manifest
  unfolding write_round
  save_new faults suffix now m replay root =
      if faults.stat
      then (err stat_failed, root)
      else if is_some (lookup (round_dir m.round_id) root)
      then (err round_exists, root)
      else if faults.mkdir_temp
      then (err mkdir_temp_failed, root)
      else write_round faults (temp_name m.round_id suffix) now m replay root

  -- `Save`: the manifest as it was persisted.
  unfoldable pub save : Faults → Str → ℕ → Manifest → Str → Exec Error Root Manifest
  unfolding save_new validate_manifest_for_save
  save faults suffix now m replay root = elim (validate_manifest_for_save m) [
    | some e ↦ (err e, root)
    | none ↦ save_new faults suffix now m replay root
  ]

-- The files of one round directory, as `Load` meets them.
unfoldable pub read_manifest : Option Entry → Result Error Manifest
read_manifest none = err round_missing
read_manifest (some file) = err read_manifest_failed
read_manifest (some (dir none r)) = err round_missing
read_manifest (some (dir (some garbage) r)) = err parse_manifest_failed
read_manifest (some (dir (some (json m)) r)) = ok m

-- `Load`, without the path that it returns beside the manifest.
unfoldable pub load : ℕ → Root → Result Error Manifest
unfolding read_manifest
load id root = read_manifest (lookup (round_dir id) root)

-- The bytes of replay.bin under the path that `Load` returns.
unfoldable pub open_replay : Option Entry → Option Str
open_replay none = none
open_replay (some file) = none
open_replay (some (dir m r)) = r

-- The loop of `List`: directories whose name is a round id.
unfoldable pub round_ids : Root → List ℕ
round_ids [] = []
round_ids ((name, file) ∷ es) = round_ids es
round_ids ((name, dir m r) ∷ es) =
    let rest = round_ids es in elim (parse_uint name) [ none ↦ rest | some id ↦ id ∷ rest ]

-- `List`: `read_fails` tells whether the root can not be read.
unfoldable pub list : Bool → Root → Result Error (List ℕ)
unfolding round_ids
list read_fails root = if read_fails then err read_root_failed else ok (sort (round_ids root))

module _ (sha256 : Str → Str) where
  unfoldable pub check_replay : Manifest → Option Str → Result Error (Unit {0})
  check_replay m none = err open_replay_failed
  check_replay m (some bytes) =
      if not (str_eq (hex_encode (sha256 bytes)) m.replay_sha256_hex)
      then err checksum_mismatch
      else ok tt

  -- `Verify`
  unfoldable pub verify : ℕ → Root → Result Error (Unit {0})
  unfolding check_replay open_replay
  verify id root = elim (load id root) [
    | err e ↦ err e
    | ok m ↦ check_replay m (open_replay (lookup (round_dir id) root))
  ]
