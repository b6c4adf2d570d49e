-- ===== src/Cmd/Replayd/Encoding.antt =====
-- What a compressed file is served for (server/cmd/replayd/main.go).
use marbles_game.Prelude.{
  ap, length, none, if◌then◌else◌, str_eq_inst, Bool-cases, List, Option-cases, Str, [], arith,
  codes, false, inl, inr, not, some, str_eq, sym, true, ◌&&◌, ◌++◌, ◌||◌, ◌∷◌, ◌≡◌, ◌⊎◌,
}
use mathlib.Core.Option.{none-ne-some, some-injective}
use marbles_game.Std.Text.{contains, cut_at, equal_fold, split_on, trim_space}
use marbles_game.Std.Decimal.{format_uint}
use marbles_game.Prelude.Dict.{lookup}
use marbles_game.Std.Paths.{clean, ext, join}
use marbles_game.Cmd.Replayd.{
  Disk, Entry, Served, accept_encoding_allows, any_part_allows, part_allows, refuses, directory,
  encodings, file, serve_precompressed, served, try_encodings, unreadable,
}

-- A part of an Accept-Encoding header that asks for an encoding: its name, in any case, alone or before
-- parameters, which do not refuse it. Parameters with `q=0.` in them never refuse.
abbrev pub Asks : Str → Str → Type 0
Asks encoding part =
    ((cut_at b';' (trim_space part) ≡ none) × (equal_fold (trim_space part) encoding ≡ true))
    ⊎ ((name : Str) × (params : Str) × (cut_at b';' (trim_space part) ≡ some (name, params))
        × (equal_fold (trim_space name) encoding ≡ true)
        × ((contains params (codes "q=0") ≡ false) ⊎ (contains params (codes "q=0.") ≡ true)))

-- One of the parts between commas asks for it.
abbrev pub AsksAny : Str → List Str → Type 0
AsksAny encoding [] = ⊥
AsksAny encoding (part ∷ parts) = Asks encoding part ⊎ AsksAny encoding parts

refuses_lem :
    (params : Str)
    → refuses params ≡ false
    → (contains params (codes "q=0") ≡ false) ⊎ (contains params (codes "q=0.") ≡ true)
refuses_lem params kept = elim (Bool-cases (contains params (codes "q=0"))) [
  | inr none_there ↦ inl none_there
  | inl zero_there ↦ inr (ground (arith, zero_there, kept))
]

part_allows-Asks : (part encoding : Str) → part_allows part encoding ≡ true → Asks encoding part
unfolding part_allows
part_allows-Asks part encoding h = elim (Option-cases (cut_at b';' (trim_space part))) [
  | inl alone ↦ inl (alone, ground (arith, alone))
  | inr ((name, params), cut) ↦ elim (Bool-cases (refuses params)) [
    | inl refused ↦ ground (arith, cut, refused)
    | inr kept ↦ inr (name, params, cut, ground (arith, cut, kept), refuses_lem params kept)
  ]
]

any_part_allows-AsksAny :
    (parts : List Str) (encoding : Str)
    → any_part_allows parts encoding ≡ true
    → AsksAny encoding parts
unfolding any_part_allows
any_part_allows-AsksAny [] encoding h = ground arith
any_part_allows-AsksAny (part ∷ parts) encoding h = elim (Bool-cases (part_allows part encoding)) [
  | inl allowed ↦ inl (part_allows-Asks part encoding allowed)
  | inr other ↦ inr (any_part_allows-AsksAny parts encoding (ground (arith, other)))
]

accept_encoding_allows-AsksAny :
    (accept encoding : Str)
    → accept_encoding_allows accept encoding ≡ true
    → AsksAny encoding (split_on b',' accept)
unfolding accept_encoding_allows
accept_encoding_allows-AsksAny accept encoding h =
    any_part_allows-AsksAny (split_on b',' accept) encoding h

module _ (disk : Disk) (root method path accept : Str) where
  -- A file that the client can decode, under the root.
  abbrev pub ServedFrom : Served → List (Str × Str) → Type 0
  ServedFrom resp [] = ⊥
  ServedFrom resp ((suffix, encoding) ∷ encs) =
      ((bytes : Str) × AsksAny encoding (split_on b',' accept)
        × (contains (clean path) (codes "..") ≡ false)
        × (disk (join root (clean path ++ suffix)) ≡ some (file bytes))
        × (lookup (codes "Content-Encoding") resp.headers ≡ some encoding)
        × (lookup (codes "Content-Type") resp.headers
            ≡ some (
                if str_eq (ext path) (codes ".wasm")
                then codes "application/wasm"
                else codes "text/javascript; charset=utf-8"))
        × (lookup (codes "Content-Length") resp.headers ≡ some (format_uint (length bytes)))
        × (lookup (codes "Vary") resp.headers ≡ some (codes "Accept-Encoding"))
        × (resp.body ≡ (if str_eq method (codes "HEAD") then none else some bytes)))
      ⊎ ServedFrom resp encs

  -- A path that something stands under.
  found_lem :
      (encs : List (Str × Str)) (suffix encoding : Str) (resp : Served) (e : Entry)
      → disk (join root (clean path ++ suffix)) ≡ some e
      → accept_encoding_allows accept encoding ≡ true
      → contains (clean path) (codes "..") ≡ false
      → try_encodings disk root method path accept ((suffix, encoding) ∷ encs) ≡ some resp
      → (try_encodings disk root method path accept encs ≡ some resp → ServedFrom resp encs)
      → ServedFrom resp ((suffix, encoding) ∷ encs)
  unfolding try_encodings lookup str_eq
  found_lem encs suffix encoding resp directory found wanted inside h later =
      inr (later (rw (try_encodings, wanted, inside, found) at h))
  found_lem encs suffix encoding resp (unreadable size) found wanted inside h later =
      inr (later (rw (try_encodings, wanted, inside, found) at h))
  found_lem encs suffix encoding resp (file bytes) found wanted inside h later =
      let sent : some (served method (ext path) encoding bytes) ≡ some resp =
        rw (try_encodings, wanted, inside, found) at h in
      let same = sym (some-injective _ _ sent) in
      inl (
        bytes,
        accept_encoding_allows-AsksAny accept encoding wanted,
        inside,
        found,
        ap (λ r. lookup (codes "Content-Encoding") r.headers) same,
        ap (λ r. lookup (codes "Content-Type") r.headers) same,
        ap (λ r. lookup (codes "Content-Length") r.headers) same,
        ap (λ r. lookup (codes "Vary") r.headers) same,
        ap (λ r. r.body) same,
      )

  try_encodings_lem :
      (encs : List (Str × Str)) (resp : Served)
      → try_encodings disk root method path accept encs ≡ some resp
      → ServedFrom resp encs
  unfolding try_encodings
  try_encodings_lem [] resp h = none-ne-some resp h
  try_encodings_lem ((suffix, encoding) ∷ encs) resp h =
      elim (Bool-cases (accept_encoding_allows accept encoding)) [
        | inr unwanted ↦ inr (try_encodings_lem encs resp (rw (try_encodings, unwanted) at h))
        | inl wanted ↦ elim (Bool-cases (contains (clean path) (codes ".."))) [
          | inl dots ↦ absurd (none-ne-some resp (rw (try_encodings, wanted, dots) at h))
          | inr inside ↦ elim (Option-cases (disk (join root (clean path ++ suffix)))) [
            | inl missing ↦
                inr (try_encodings_lem encs resp (rw (try_encodings, wanted, inside, missing) at h))
            | inr (e, found) ↦
                found_lem encs suffix encoding resp e found wanted inside h
                  (try_encodings_lem encs resp)
          ]
        ]
      ]

  abbrev pub IsFetch : Type 0
  IsFetch =
      ((str_eq method (codes "GET") || str_eq method (codes "HEAD")) ≡ true)
      × ((str_eq (ext path) (codes ".wasm") || str_eq (ext path) (codes ".js")) ≡ true)

  -- A compressed file is sent only to a GET or a HEAD for a path that ends in .wasm or .js, in an
  -- encoding that a part of the Accept-Encoding header names, in any case, and does not refuse, and from a readable file that stands under the root at the cleaned
  -- path, without two dots in it, with the suffix of the encoding; the headers name the encoding, the
  -- type of the path without it, the length of the file and `Vary`, and the body is the file, or nothing
  -- for a HEAD. A part refuses by parameters that hold `q=0` unless they hold `q=0.` as well, so that
  -- `q=0.0` does not refuse.
  pub serve_precompressed_safe :
      (resp : Served)
      → serve_precompressed disk root method path accept ≡ some resp
      → IsFetch × ServedFrom resp encodings
  unfolding serve_precompressed
  serve_precompressed_safe resp h =
      elim (Bool-cases (not (str_eq method (codes "GET")) && not (str_eq method (codes "HEAD")))) [
        | inl other ↦ absurd (none-ne-some resp (rw (serve_precompressed, other) at h))
        | inr fetch ↦
            elim (Bool-cases
              (not (str_eq (ext path) (codes ".wasm")) && not (str_eq (ext path) (codes ".js")))) [
                | inl small ↦
                    absurd (none-ne-some resp (rw (serve_precompressed, fetch, small) at h))
                | inr big ↦ (
                  (ground (arith, fetch), ground (arith, big)),
                  try_encodings_lem encodings resp (rw (serve_precompressed, fetch, big) at h),
                )
              ]
      ]
