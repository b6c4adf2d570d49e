-- ===== src/Replay/Listing.antt =====
-- `List` of server/replay/store.go over a history of saves.
use mathlib.Core.List.{Perm, perm_middle, append-nil}
use mathlib.Core.List.Perm
use marbles_game.Prelude.{
  List, Option, Option-cases, Str, [], arith, false, inl, inr, none, ok, refl, some, str_eq_inst,
  subst, sym, u64_mod, ℕ, ◌++◌, ◌<◌, ◌∙◌, ◌∷◌, ◌≡◌,
}
use marbles_game.Prelude.Dict.{insert, insert_new, lookup}
use marbles_game.Std.Decimal.{parse-format, parse_uint}
use marbles_game.Std.Sort.{IsSorted, sort, sort-IsSorted, sort-perm}
use marbles_game.Replay.FileSystem.{Entry, Manifest, ManifestFile, Root, dir, file, json}
use marbles_game.Replay.{Faults, list, round_dir, round_ids, save, stamp, temp_name}
use marbles_game.Replay.Saving.{parse_uint-temp_name, save_ok}

round_ids-append :
    (root : Root) (name : Str) (e : Entry)
    → round_ids (root ++ (name, e) ∷ []) ≡ round_ids root ++ round_ids ((name, e) ∷ [])
unfolding round_ids
round_ids-append [] name e = refl
round_ids-append ((n, file) ∷ es) name e = round_ids-append es name e
round_ids-append ((n, dir m r) ∷ es) name e = elim (Option-cases (parse_uint n)) [
  | inl bad ↦ ground (arith, round_ids-append es name e)
  | inr (id, good) ↦ ground (arith, round_ids-append es name e)
]

round_ids-temp :
    (id : ℕ) (suffix : Str) (e : Entry) (root : Root)
    → lookup (temp_name id suffix) root ≡ none
    → round_ids (insert (temp_name id suffix) e root) ≡ round_ids root
unfolding round_ids
round_ids-temp id suffix file root free =
    rw (insert_new (temp_name id suffix) file root free)
      (round_ids-append root (temp_name id suffix) file ∙ append-nil (round_ids root))
round_ids-temp id suffix (dir m r) root free =
    rw (insert_new (temp_name id suffix) (dir m r) root free) (
      round_ids-append root (temp_name id suffix) (dir m r)
      ∙ ground (arith, parse_uint-temp_name id suffix, append-nil (round_ids root)))

round_ids-round :
    (id : ℕ) (m : Option ManifestFile) (r : Option Str) (root : Root)
    → id < u64_mod
    → lookup (round_dir id) root ≡ none
    → round_ids (insert (round_dir id) (dir m r) root) ≡ round_ids root ++ id ∷ []
unfolding round_ids
round_ids-round id m r root small free =
    rw (insert_new (round_dir id) (dir m r) root free)
      (round_ids-append root (round_dir id) (dir m r) ∙ ground (arith, parse-format id small))

-- A temporary directory, left behind by a crash in the middle of a save, is not listed.
pub list_crash :
    (id : ℕ) (suffix : Str) (e : Entry) (root : Root)
    → lookup (temp_name id suffix) root ≡ none
    → list false (insert (temp_name id suffix) e root) ≡ list false root
unfolding list
list_crash id suffix e root free = rw (round_ids-temp id suffix e root free)

module _ (sha256 : Str → Str) where
  -- A save that succeeds adds its round to the list, and the list is ascending.
  pub list-save :
      (faults : Faults) (suffix : Str) (now : ℕ) (m : Manifest) (replay : Str) (root : Root)
      {m' : Manifest}
      → lookup (temp_name m.round_id suffix) root ≡ none
      → m.round_id < u64_mod
      → (save sha256 faults suffix now m replay root).0 ≡ ok m'
      → (ids : List ℕ) × (ids' : List ℕ) × (list false root ≡ ok ids)
        × (list false (save sha256 faults suffix now m replay root).1 ≡ ok ids')
        × Perm ids' (m.round_id ∷ ids)
        × IsSorted ids'
  unfolding list
  list-save faults suffix now m replay root free small h =
      let (same, valid, absent, after) = save_ok sha256 faults suffix now m replay root free h in
      let before = round_ids root in
      let ids =
        round_ids-round m.round_id (some (json (stamp sha256 now replay m))) (some replay) root
          small absent in
      (
        sort before,
        sort (before ++ m.round_id ∷ []),
        refl,
        rw (after, ids),
        Perm.trans (sort-perm _) (
            Perm.trans (perm_middle before []) (
              Perm.cons m.round_id (
                Perm.trans (subst (λ l. Perm l before) (sym (append-nil before)) (Perm.refl before))
                  (Perm.symm (sort-perm before))))),
        sort-IsSorted _,
      )
