-- ===== src/Cmd/Replayd.antt =====
-- server/cmd/replayd/main.go: the files of the game's web build, compressed beforehand. A file system is what
-- `os.Stat` and `os.Open` find under a path. `http.FileServer`, which serves any other request, is not
-- modelled, nor are flags and the listener.
pub mod Encoding
mod Tests
use marbles_game.Prelude.{
  Bool, List, Option, Str, [], codes, false, if◌then◌else◌, length, none, not, some, str_eq,
  str_eq_inst, true, ℕ, ◌&&◌, ◌++◌, ◌∷◌,
}
use marbles_game.Prelude.Dict.{Dict}
use marbles_game.Std.Decimal.{format_uint}
use marbles_game.Std.Text.{contains, cut_at, equal_fold, split_on, trim_space}
use marbles_game.Std.Paths.{clean, ext, ext_from, join}

-- The `q=0` test of `acceptEncodingAllows`, on what follows the name
abbrev pub refuses : Str → Bool
refuses params = contains params (codes "q=0") && not (contains params (codes "q=0."))

-- One part of the header
unfoldable pub part_allows : Str → Str → Bool
unfolding trim_space cut_at equal_fold contains
part_allows part enc =
    let token = trim_space part in
    elim (cut_at b';' token) [
      | none ↦ equal_fold token enc
      | some (name, params) ↦ if refuses params then false else equal_fold (trim_space name) enc
    ]

-- The loop of `acceptEncodingAllows`
unfoldable pub any_part_allows : List Str → Str → Bool
unfolding part_allows
any_part_allows [] enc = false
any_part_allows (p ∷ ps) enc =
    let rest = any_part_allows ps enc in if part_allows p enc then true else rest

-- `acceptEncodingAllows`
unfoldable pub accept_encoding_allows : Str → Str → Bool
unfolding any_part_allows split_on
accept_encoding_allows header enc = any_part_allows (split_on b',' header) enc

pub data Entry : Type 0 where
  directory : Entry
  file : Str → Entry
  unreadable : ℕ → Entry  -- a file of this size that does not open

abbrev pub Disk : Type 0
Disk = Str → Option Entry

-- A response of `servePrecompressed`; HEAD has no body.
pub record Served : Type 0 where
  pub headers : Dict Str Str
  pub body : Option Str

-- Both encodings, with the suffix of their files, in the order of the code
abbrev pub encodings : List (Str × Str)
encodings = (codes ".br", codes "br") ∷ (codes ".gz", codes "gzip") ∷ []

abbrev pub content_type : Str → Str
content_type extension =
    if str_eq extension (codes ".wasm")
    then codes "application/wasm"
    else codes "text/javascript; charset=utf-8"

abbrev pub served : Str → Str → Str → Str → Served
served method extension encoding bytes = record {
  headers =
      (codes "Content-Type", content_type extension)
      ∷ (codes "Content-Encoding", encoding)
      ∷ (codes "Content-Length", format_uint (length bytes))
      ∷ (codes "Vary", codes "Accept-Encoding")
      ∷ [];
  body = if str_eq method (codes "HEAD") then none else some bytes;
}

module _ (disk : Disk) (root : Str) where
  -- The loop of `servePrecompressed`: `none` leaves the request to the file server.
  unfoldable pub try_encodings : Str → Str → Str → List (Str × Str) → Option Served
  unfolding accept_encoding_allows clean contains
  try_encodings method path accept [] = none
  try_encodings method path accept ((suffix, encoding) ∷ encs) =
      let rest = try_encodings method path accept encs in
      if not (accept_encoding_allows accept encoding)
      then rest
      else if contains (clean path) (codes "..")
      then none
      else elim (disk (join root (clean path ++ suffix))) [
        | none ↦ rest
        | some directory ↦ rest
        | some (unreadable size) ↦ rest
        | some (file bytes) ↦ some (served method (ext path) encoding bytes)
      ]

  -- `servePrecompressed`
  unfoldable pub serve_precompressed : Str → Str → Str → Option Served
  unfolding try_encodings ext_from
  serve_precompressed method path accept =
      if not (str_eq method (codes "GET")) && not (str_eq method (codes "HEAD"))
      then none
      else if not (str_eq (ext path) (codes ".wasm")) && not (str_eq (ext path) (codes ".js"))
      then none
      else try_encodings method path accept encodings
