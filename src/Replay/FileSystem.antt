-- ===== src/Replay/FileSystem.antt =====
-- The data of server/replay/store.go: manifests, and the entries below the store's root.
use marbles_game.Prelude.{List, Option, Str, str_eq_inst, ℕ, ℤ}
use marbles_game.Prelude.Dict.{Dict}

pub record Participant : Type 0 where
  pub marble_index : ℕ
  pub name : Str
  pub client_seed : Str

pub record Winner : Type 0 where
  pub marble_index : ℤ
  pub finish_tick : ℤ

pub record Manifest : Type 0 where
  pub round_id : ℕ  -- uint64
  pub created_at : ℕ
  pub protocol_version : ℕ
  pub tick_rate_hz : ℤ
  pub track_id : ℕ  -- uint8
  pub server_seed_hash_hex : Str
  pub server_seed_hex : Str
  pub participants : List Participant
  pub winner : Winner
  pub replay_sha256_hex : Str

pub data ManifestFile : Type 0 where
  json : Manifest → ManifestFile
  garbage : ManifestFile

-- A directory may hold a manifest.json and a replay.bin.
pub data Entry : Type 0 where
  file : Entry
  dir : Option ManifestFile → Option Str → Entry

abbrev pub Root : Type 0
Root = Dict Str Entry
