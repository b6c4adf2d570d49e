-- ===== src/Rgs/RoundRun/Stakes.antt =====
-- Whose bets the outcomes of `RunNextRound` of server/rgs/manager.go are (steps 3 and 7).
use marbles_game.Prelude.{
  List, Option, Option-cases, Result-cases, Str, [], ap, arith, false, inl, inr, map, none, ok,
  refl, some, str_eq, str_eq_iff, str_eq_inst, ℕ, ℤ, ◌+◌, ◌∙◌, ◌∷◌, ◌≡◌,
}
use marbles_game.Prelude.Dict.{Dict, insert, lookup, lookup-insert}
use marbles_game.Rgs.Session.{Session, SettlementOutcome, assign_marble, settle}
use marbles_game.Rgs.Wallet.{Wallet}
use marbles_game.Rgs.Money.{Floats}
use marbles_game.Rgs.Manager.{World, on_session}
use marbles_game.Rgs.RoundRun.Stages.{assign_all, outcome_of, pay, settle_all, settle_one}
use marbles_game.Rgs.RoundRun.Marbles.{Apart, Distinct}

-- A bet as its player placed it: its id, the player and the stake.
abbrev pub Stake : Type 0
Stake = Str × Str × ℕ

abbrev pub stake_in : Session → Option Stake
stake_in s = elim s.bet [ none ↦ none | some b ↦ some (b.bet_id, b.player_id, b.amount) ]

-- The bet of a session in the table.
abbrev pub stake_of : Dict Str Session → Str → Option Stake
stake_of m id = elim (lookup id m) [ none ↦ none | some s ↦ stake_in s ]

abbrev pub reported : SettlementOutcome → Option Stake
reported o = some (o.bet_id, o.player_id, o.amount)

-- A session that is put back with the same bet changes no bet of the table.
stake_of-insert :
    (id j : Str) (s s' : Session) (m : Dict Str Session)
    → lookup id m ≡ some s
    → stake_in s' ≡ stake_in s
    → stake_of (insert id s' m) j ≡ stake_of m j
stake_of-insert id j s s' m found same =
    grind (arith, lookup-insert id j s' m, str_eq_iff id j, found, same)

stake_of-others :
    (id j : Str) (s' : Session) (m : Dict Str Session)
    → str_eq id j ≡ false
    → stake_of (insert id s' m) j ≡ stake_of m j
stake_of-others id j s' m other = ground (arith, lookup-insert id j s' m, other)

assign_marble_stake : (i now : ℕ) (s : Session) → stake_in (assign_marble i now s).1 ≡ stake_in s
unfolding assign_marble
assign_marble_stake i now s = ground arith

pub map_same {ℓ κ} :
    {A : Type ℓ} {B : Type κ} (f g : A → B) (xs : List A)
    → ((x : A) → f x ≡ g x)
    → map f xs ≡ map g xs
map_same f g [] same = refl
map_same f g (x ∷ xs) same =
    ap (λ y. y ∷ map f xs) (same x) ∙ ap (λ ys. g x ∷ ys) (map_same f g xs same)

map_stakes :
    (ids : List Str) (id : Str) (s' : Session) (m : Dict Str Session)
    → Apart id ids
    → map (stake_of (insert id s' m)) ids ≡ map (stake_of m) ids
map_stakes [] id s' m apart = refl
map_stakes (j ∷ ids) id s' m apart =
    ap (λ x. x ∷ map (stake_of (insert id s' m)) ids) (stake_of-others id j s' m apart.0)
    ∙ ap (λ xs. stake_of m j ∷ xs) (map_stakes ids id s' m apart.1)

module _ (fl : Floats) (wal : Wallet) where
  open fl use {Float}

  -- The marbles change no stake.
  pub assign_all_stake :
      (now i : ℕ) (ids : List Str) (j : Str) (w : World wal.State Float)
      → stake_of (assign_all fl wal now i ids w).1.manager.sessions j
        ≡ stake_of w.manager.sessions j
  unfolding assign_all on_session
  assign_all_stake now i [] j w = refl
  assign_all_stake now i (id ∷ ids) j w =
      let on = on_session id (assign_marble i now) w in
      elim (Option-cases (lookup id w.manager.sessions)) [
        | inl missing ↦ ground (arith, missing)
        | inr (s, found) ↦
            let s' = (assign_marble i now s).1 in
            let kept =
              stake_of-insert id j s s' w.manager.sessions found (assign_marble_stake i now s) in
            let later = assign_all_stake now (i + 1) ids j on.1 in
            ground (arith, found, kept, later)
      ]

  settle_one_stake :
      (winner : ℤ) (prize now : ℕ) (id : Str) (ids : List Str) (w : World wal.State Float)
      (o : SettlementOutcome)
      → Apart id ids
      → (settle_one fl wal winner prize now id w).0 ≡ ok o
      → (reported o ≡ stake_of w.manager.sessions id)
        × (map (stake_of (settle_one fl wal winner prize now id w).1.manager.sessions) ids
            ≡ map (stake_of w.manager.sessions) ids)
  unfolding settle_one outcome_of pay on_session
  settle_one_stake winner prize now id ids w o apart h =
      elim (Option-cases (lookup id w.manager.sessions)) [
        | inl missing ↦ ground (arith, missing)
        | inr (s, found) ↦ elim (Option-cases s.bet) [
          | inl no_stake ↦ ground (arith, found, no_stake)
          | inr (b, has) ↦
              let s' = (settle (outcome_of b winner prize now) now s).1 in
              let stored : (settle_one fl wal winner prize now id w).1.manager.sessions
                  ≡ insert id s' w.manager.sessions =
                ground (arith, found, has) in
              let mine : o ≡ outcome_of b winner prize now = ground (arith, found, has) in
              (
                ap reported mine ∙ ground (arith, found, has),
                ap (λ m. map (stake_of m) ids) stored
                    ∙ map_stakes ids id s' w.manager.sessions apart,
              )
        ]
      ]

  -- Each outcome is that of its session's bet.
  pub settle_all_stakes :
      (winner : ℤ) (prize now : ℕ) (ids : List Str) (w : World wal.State Float)
      (os : List SettlementOutcome)
      → Distinct ids
      → (settle_all fl wal winner prize now ids w).0 ≡ ok os
      → map reported os ≡ map (stake_of w.manager.sessions) ids
  unfolding settle_all
  settle_all_stakes winner prize now [] w os distinct h =
      let none_left : os ≡ [] = ground arith in ap (map reported) none_left
  settle_all_stakes winner prize now (id ∷ ids) w os distinct h =
      let one = settle_one fl wal winner prize now id w in
      let rest = settle_all fl wal winner prize now ids one.1 in
      elim (Result-cases one.0) [
        | inr (e, bad) ↦ ground (arith, bad)
        | inl (o, good) ↦ elim (Result-cases rest.0) [
          | inr (e, bad) ↦ ground (arith, good, bad)
          | inl (os', done) ↦
              let first = settle_one_stake winner prize now id ids w o distinct.0 good in
              let later = settle_all_stakes winner prize now ids one.1 os' distinct.1 done in
              let same : os ≡ o ∷ os' = ground (arith, good, done) in
              ap (map reported) same
              ∙ ap (λ x. x ∷ map reported os') first.0
              ∙ ap (λ xs. stake_of w.manager.sessions id ∷ xs) (later ∙ first.1)
        ]
      ]
