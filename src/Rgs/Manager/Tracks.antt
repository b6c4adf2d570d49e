-- ===== src/Rgs/Manager/Tracks.antt =====
-- `selectTrack` of server/rgs/manager.go, which cmd/roundd mirrors.
use marbles_game.Prelude.{
  Bool-cases, List, arith, eqb_ℤ, eqb_ℤ_iff, get_or, inl, inr, length, pos, ℕ, ℤ, ◌%◌, ◌+◌, ◌<◌,
  ◌==◌, ◌≡◌, ◌≢◌, ◌≤◌,
}
use marbles_game.Std.Fnv.{fnv64a}
use marbles_game.Rgs.Manager.{select_track}

-- No track is in the pool twice.
abbrev pub AllDifferent : List ℕ → Type 0
AllDifferent pool =
    (i j : ℕ) → i < length pool → j < length pool → get_or pool i 0 ≡ get_or pool j 0 → i ≡ j

-- The chosen track is one of the pool's.
pub select_track_member :
    (pool : List ℕ) (round_id : ℕ) (previous : ℤ)
    → 0 < length pool
    → (i : ℕ) × (i < length pool) × (select_track pool round_id previous ≡ get_or pool i 0)
unfolding select_track
select_track_member pool round_id previous some_track = elim (Bool-cases (length pool == 1)) [
  | inl one ↦ (0, omega arith, rw one)
  | inr more ↦
      let candidate = fnv64a round_id % length pool in
      elim (Bool-cases (eqb_ℤ (pos (get_or pool candidate 0)) previous)) [
        | inl again ↦ ((candidate + 1) % length pool, grind arith, rw (more, again))
        | inr other ↦ (candidate, grind arith, rw (more, other))
      ]
]

next-ne : (c n : ℕ) → 2 ≤ n → c < n → (c + 1) % n ≢ c
next-ne c n two h e = grind arith

-- With two tracks or more, all different, the previous track is never chosen again.
pub select_track_no_repeat :
    (pool : List ℕ) (round_id : ℕ) (previous : ℤ)
    → 2 ≤ length pool
    → AllDifferent pool
    → pos (select_track pool round_id previous) ≢ previous
unfolding select_track
select_track_no_repeat pool round_id previous two different e =
    let n = length pool in
    let c = fnv64a round_id % n in
    let small : c < n = grind arith in
    elim (Bool-cases (eqb_ℤ (pos (get_or pool c 0)) previous)) [
      | inr other ↦ ground (arith, other, eqb_ℤ_iff (pos (get_or pool c 0)) previous)
      | inl again ↦ next-ne c n two small (
          different ((c + 1) % n) c (grind arith) small
            (ground (arith, again, eqb_ℤ_iff (pos (get_or pool c 0)) previous)))
    ]
