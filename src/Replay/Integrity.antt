-- ===== src/Replay/Integrity.antt =====
-- What `Verify` of server/replay/store.go finds out, and that stored rounds are never rewritten.
use marbles_game.Prelude.{
  All, List, Result-cases, Str, [], ap, arith, err, inl, inr, none, ok, refl, some, str_eq_iff,
  str_eq_inst, subst, sym, u64_mod, ℕ, ◌<◌, ◌∙◌, ◌∷◌, ◌≡◌, ◌≢◌,
}
use marbles_game.Prelude.Dict.{beq_self, insert, lookup, lookup-insert}
use marbles_game.Std.Hex.{IsByte, hex_encode, hex_encode-injective}
use marbles_game.Replay.FileSystem.{Manifest, Root, dir, json}
use marbles_game.Replay.{
  Faults, checksum_mismatch, load, round_dir, round_missing, save, temp_name, verify,
}
use marbles_game.Replay.Saving.{save_err, save_stores}

-- One attempt to save a round.
pub record Attempt : Type 0 where
  pub faults : Faults
  pub suffix : Str
  pub now : ℕ
  pub manifest : Manifest
  pub replay : Str

module _ (sha256 : Str → Str) where
  -- The attempts one after another, failed ones included.
  pub save_all : List Attempt → Root → Root
  save_all [] root = root
  save_all (a ∷ rest) root =
      save_all rest (save sha256 a.faults a.suffix a.now a.manifest a.replay root).1

  -- `os.MkdirTemp` picks names that are not taken, and ids are uint64.
  abbrev pub Fresh : List Attempt → Root → Type 0
  Fresh [] root = Unit
  Fresh (a ∷ rest) root =
      (lookup (temp_name a.manifest.round_id a.suffix) root ≡ none)
      × (a.manifest.round_id < u64_mod)
      × Fresh rest (save sha256 a.faults a.suffix a.now a.manifest a.replay root).1

  save_keeps :
      (a : Attempt) (root : Root) (id : ℕ)
      → lookup (temp_name a.manifest.round_id a.suffix) root ≡ none
      → a.manifest.round_id < u64_mod
      → id < u64_mod
      → load id root ≢ err round_missing
      → let root' = (save sha256 a.faults a.suffix a.now a.manifest a.replay root).1 in
        (load id root' ≡ load id root) × (verify sha256 id root' ≡ verify sha256 id root)
  save_keeps a root id free small hi there =
      elim (Result-cases (save sha256 a.faults a.suffix a.now a.manifest a.replay root).0) [
        | inr (e, failed) ↦
            let same =
              save_err sha256 a.faults a.suffix a.now a.manifest a.replay root free failed in
            (ap (load id) same, ap (verify sha256 id) same)
        | inl (m', done) ↦
            let (absent, _, _, others) =
              save_stores sha256 a.faults a.suffix a.now a.manifest a.replay root free small done in
            others id hi (λ e. there (subst (λ i. load i root ≡ err round_missing) (sym e) absent))
      ]

  -- The store is append-only: whatever is saved later, successfully or not, a round that is stored
  -- keeps its manifest, and its verdict under `Verify`.
  pub save_all_keeps :
      (attempts : List Attempt) (root : Root) (id : ℕ)
      → Fresh attempts root
      → id < u64_mod
      → load id root ≢ err round_missing
      → (load id (save_all attempts root) ≡ load id root)
        × (verify sha256 id (save_all attempts root) ≡ verify sha256 id root)
  unfolding save_all
  save_all_keeps [] root id fresh hi there = (refl, refl)
  save_all_keeps (a ∷ rest) root id fresh hi there =
      let next = (save sha256 a.faults a.suffix a.now a.manifest a.replay root).1 in
      let step = save_keeps a root id fresh.0 fresh.1 hi there in
      let later = save_all_keeps rest next id fresh.2 hi (λ e. there (sym step.0 ∙ e)) in
      (later.0 ∙ step.0, later.1 ∙ step.1)

  -- Replacing the stored bytes by others with another digest makes `Verify` fail with the checksum
  -- error, and putting back bytes with the same digest makes it succeed.
  pub verify_tampered :
      (id : ℕ) (m : Manifest) (bytes tampered : Str) (root : Root)
      → All IsByte (sha256 bytes)
      → All IsByte (sha256 tampered)
      → m.replay_sha256_hex ≡ hex_encode (sha256 bytes)
      → let root' = insert (round_dir id) (dir (some (json m)) (some tampered)) root in
        (sha256 tampered ≢ sha256 bytes → verify sha256 id root' ≡ err checksum_mismatch)
        × (sha256 tampered ≡ sha256 bytes → verify sha256 id root' ≡ ok tt)
  unfolding verify load
  verify_tampered id m bytes tampered root hb ht digest = (
    λ ne. ground (
      arith,
      lookup-insert (round_dir id) (round_dir id) (dir (some (json m)) (some tampered)) root,
      beq_self (round_dir id),
      str_eq_iff (hex_encode (sha256 tampered)) m.replay_sha256_hex,
      λ (e : hex_encode (sha256 tampered) ≡ hex_encode (sha256 bytes)).
          ne (hex_encode-injective _ _ ht hb e),
    ),
    λ e. ground (
      arith,
      lookup-insert (round_dir id) (round_dir id) (dir (some (json m)) (some tampered)) root,
      beq_self (round_dir id),
      str_eq_iff (hex_encode (sha256 tampered)) m.replay_sha256_hex,
    ),
  )
