-- ===== src/Cmd/Replayd/Tests.antt =====
-- Requests for the game's files (server/cmd/replayd/main.go).
use marbles_game.Prelude.{[], codes, false, if◌then◌else◌, none, refl, some, str_eq, true, ◌∷◌, ◌≡◌}
use marbles_game.Std.Paths.{clean, ext, ext_from}
use marbles_game.Cmd.Replayd.Encoding.{IsFetch, ServedFrom, serve_precompressed_safe}
use marbles_game.Cmd.Replayd.{
  Disk, accept_encoding_allows, encodings, file, serve_precompressed, served,
}

paths :
    (clean (codes "/a/./b//c/..") ≡ codes "/a/b")
    × (clean (codes "/../../etc") ≡ codes "/etc")
    × (clean (codes "../x") ≡ codes "../x")
    × (ext (codes "/dir.d/index.wasm") ≡ codes ".wasm")
    × (ext (codes "/dir.d/index") ≡ [])
unfolding clean ext_from str_eq
paths = (refl, refl, refl, refl, refl)

accepted :
    (accept_encoding_allows (codes "gzip, deflate, BR;q=0.8") (codes "br") ≡ true)
    × (accept_encoding_allows (codes "gzip, br;q=0") (codes "br") ≡ false)
    × (accept_encoding_allows (codes "gzip, br;q=0.0") (codes "br") ≡ true)
    × (accept_encoding_allows (codes "*") (codes "br") ≡ false)
unfolding accept_encoding_allows
accepted = (refl, refl, refl, refl)

abbrev disk : Disk
disk path = if str_eq path (codes "web/index.wasm.gz") then some (file (1 ∷ 2 ∷ [])) else none

fetched :
    serve_precompressed disk
      (codes "web")
      (codes "GET")
      (codes "/x/../index.wasm")
      (codes "gzip, br")
    ≡ some (served (codes "GET") (codes ".wasm") (codes "gzip") (1 ∷ 2 ∷ []))
unfolding serve_precompressed str_eq
fetched = refl

serve_precompressed_safe_example :
    IsFetch disk (codes "web") (codes "GET") (codes "/x/../index.wasm") (codes "gzip, br")
    × ServedFrom disk
        (codes "web")
        (codes "GET")
        (codes "/x/../index.wasm")
        (codes "gzip, br")
        (served (codes "GET") (codes ".wasm") (codes "gzip") (1 ∷ 2 ∷ []))
        encodings
serve_precompressed_safe_example =
    serve_precompressed_safe disk (codes "web") (codes "GET") (codes "/x/../index.wasm")
      (codes "gzip, br") (served (codes "GET") (codes ".wasm") (codes "gzip") (1 ∷ 2 ∷ [])) fetched
