-- ===== src/Replay/Saving.antt =====
-- `Save` of server/replay/store.go: it stores a round whole or changes nothing, and never overwrites.
use marbles_game.Prelude.{
  Str, ap, arith, err, none, ok, refl, some, str_eq_iff, str_eq_inst, sym, u64_mod, ℕ, ◌<◌, ◌∙◌,
  ◌≡◌, ◌≢◌,
}
use marbles_game.Prelude.Dict.{beq_ne, beq_self, delete-insert, insert, lookup, lookup-insert}
use marbles_game.Std.Decimal.{parse-format, parse_uint}
use marbles_game.Replay.FileSystem.{Entry, Manifest, Root, dir, json}
use marbles_game.Replay.{
  Error, Faults, load, round_dir, round_missing, save, stamp, temp_name, validate_manifest_for_save,
  verify,
}
use marbles_game.Std.Hex.{hex_encode}

-- Round directories have different names for different ids.
pub round_dir-injective : (i j : ℕ) → i < u64_mod → j < u64_mod → round_dir i ≡ round_dir j → i ≡ j
round_dir-injective i j hi hj e =
    let same : some i ≡ some j = sym (parse-format i hi) ∙ ap parse_uint e ∙ parse-format j hj in cc

-- No temporary directory has the name of a round.
pub parse_uint-temp_name : (i : ℕ) (suffix : Str) → parse_uint (temp_name i suffix) ≡ none
unfolding parse_uint
parse_uint-temp_name i suffix = refl

pub temp_name-ne : (i j : ℕ) (suffix : Str) → j < u64_mod → temp_name i suffix ≢ round_dir j
temp_name-ne i j suffix hj e =
    let clash : none ≡ some j =
      sym (parse_uint-temp_name i suffix) ∙ ap parse_uint e ∙ parse-format j hj in
    cc

module _ (sha256 : Str → Str) where
  -- A save that fails, at whichever step, leaves the store as it was.
  pub save_err :
      (faults : Faults) (suffix : Str) (now : ℕ) (m : Manifest) (replay : Str) (root : Root)
      {e : Error}
      → lookup (temp_name m.round_id suffix) root ≡ none
      → (save sha256 faults suffix now m replay root).0 ≡ err e
      → (save sha256 faults suffix now m replay root).1 ≡ root
  unfolding save
  save_err faults suffix now m replay root free h =
      let tmp = temp_name m.round_id suffix in
      ground (
        arith,
        delete-insert tmp (dir none none) root free,
        delete-insert tmp (dir none (some replay)) root free,
        delete-insert tmp (dir (some (json (stamp sha256 now replay m))) (some replay)) root free,
      )

  -- What the directory of a saved round holds.
  abbrev pub stored : ℕ → Manifest → Str → Entry
  stored now m replay = dir (some (json (stamp sha256 now replay m))) (some replay)

  pub save_ok :
      (faults : Faults) (suffix : Str) (now : ℕ) (m : Manifest) (replay : Str) (root : Root)
      {m' : Manifest}
      → lookup (temp_name m.round_id suffix) root ≡ none
      → (save sha256 faults suffix now m replay root).0 ≡ ok m'
      → (m' ≡ stamp sha256 now replay m)
        × (validate_manifest_for_save m ≡ none)
        × (lookup (round_dir m.round_id) root ≡ none)
        × ((save sha256 faults suffix now m replay root).1
            ≡ insert (round_dir m.round_id) (stored now m replay) root)
  unfolding save
  save_ok faults suffix now m replay root free h =
      let tmp = temp_name m.round_id suffix in
      ground (
        arith,
        delete-insert tmp (dir (some (json (stamp sha256 now replay m))) (some replay)) root free,
      )

  -- `Load` and `Verify` look at one directory only.
  reads_same :
      (j : ℕ) (root root' : Root)
      → lookup (round_dir j) root' ≡ lookup (round_dir j) root
      → (load j root' ≡ load j root) × (verify sha256 j root' ≡ verify sha256 j root)
  unfolding load verify
  reads_same j root root' e = (ground arith, ground arith)

  reads_stored :
      (id now : ℕ) (m : Manifest) (replay : Str) (root : Root)
      → lookup (round_dir id) root ≡ some (stored now m replay)
      → (load id root ≡ ok (stamp sha256 now replay m)) × (verify sha256 id root ≡ ok tt)
  unfolding load verify stamp
  reads_stored id now m replay root e =
      let digest = hex_encode (sha256 replay) in
      (ground arith, ground (arith, str_eq_iff digest digest))

  -- A save that succeeds stores a round that was not there before: `Load` returns the manifest with
  -- the digest filled in, `Verify` accepts it, and what any other round's `Load` and `Verify` return
  -- is the same as before.
  pub save_stores :
      (faults : Faults) (suffix : Str) (now : ℕ) (m : Manifest) (replay : Str) (root : Root)
      {m' : Manifest}
      → lookup (temp_name m.round_id suffix) root ≡ none
      → m.round_id < u64_mod
      → (save sha256 faults suffix now m replay root).0 ≡ ok m'
      → let root' = (save sha256 faults suffix now m replay root).1 in
        (load m.round_id root ≡ err round_missing)
        × (load m.round_id root' ≡ ok (stamp sha256 now replay m))
        × (verify sha256 m.round_id root' ≡ ok tt)
        × ((j : ℕ)
            → j < u64_mod
            → j ≢ m.round_id
            → (load j root' ≡ load j root) × (verify sha256 j root' ≡ verify sha256 j root))
  save_stores faults suffix now m replay root free small h =
      let (same, valid, absent, after) = save_ok faults suffix now m replay root free h in
      let id = m.round_id in
      let entry = stored now m replay in
      let mine = reads_stored id now m replay _ (
        rw (
          after,
          lookup-insert (round_dir id) (round_dir id) entry root,
          beq_self (round_dir id),
        )) in
      (
        unfold load in rw absent,
        mine.0,
        mine.1,
        λ j hj ne. reads_same j root _ (
            rw (
              after,
              lookup-insert (round_dir id) (round_dir j) entry root,
              beq_ne (round_dir id) (round_dir j)
                  (λ e. ne (sym (round_dir-injective id j small hj e))),
            )),
      )
