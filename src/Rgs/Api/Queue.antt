-- ===== src/Rgs/Api/Queue.antt =====
-- The queue of bettors of server/rgs/manager.go and the sessions that it names.
use marbles_game.Prelude.{
  Bool-cases, List, Str, [], ap, arith, false, inl, inr, some, str_eq, str_eq_iff, str_eq_inst,
  ◌++◌, ◌∙◌, ◌∷◌, ◌≡◌,
}
use marbles_game.Prelude.Dict.{Dict, beq_self, insert, lookup, lookup-insert}
use marbles_game.Rgs.Session.{Bet, Session, betting, state_eq}
use marbles_game.Rgs.Manager.{Manager}
use marbles_game.Rgs.RoundRun.Liveness.{Queued, Queued-insert}
use marbles_game.Rgs.RoundRun.Marbles.{Apart, Distinct}

-- No session is queued twice, and each that is queued is in BET with its bet.
abbrev pub QueueInv : {F : Type 0} → Manager F → Type 0
QueueInv m = Distinct m.pending × Queued m.pending m.sessions

-- No session under the id is in BET.
abbrev pub Idle : Str → Dict Str Session → Type 0
Idle id m = (s : Session) → lookup id m ≡ some s → state_eq s.state betting ≡ false

Idle-Apart :
    (id : Str) (ids : List Str) (m : Dict Str Session) → Idle id m → Queued ids m → Apart id ids
Idle-Apart id [] m idle q = tt
Idle-Apart id (j ∷ ids) m idle ((s, b, found, state, bet), later) = (
  elim (Bool-cases (str_eq id j)) [
    | inr other ↦ other
    | inl same ↦
        let no = idle s (ap (λ k. lookup k m) ((str_eq_iff id j).0 same) ∙ found) in
        ground (arith, state, no)
  ],
  Idle-Apart id ids m idle later,
)

-- Only what a lookup finds matters.
Queued-same :
    (ids : List Str) (m m' : Dict Str Session)
    → ((j : Str) → lookup j m' ≡ lookup j m)
    → Queued ids m
    → Queued ids m'
Queued-same [] m m' same q = tt
Queued-same (id ∷ ids) m m' same ((s, b, found, state, bet), later) =
    ((s, b, same id ∙ found, state, bet), Queued-same ids m m' same later)

Apart-last :
    (id j : Str) (ids : List Str) → Apart j ids → str_eq j id ≡ false → Apart j (ids ++ id ∷ [])
Apart-last id j [] apart other = (other, tt)
Apart-last id j (k ∷ ids) apart other = (apart.0, Apart-last id j ids apart.1 other)

Distinct-last :
    (id : Str) (ids : List Str) → Distinct ids → Apart id ids → Distinct (ids ++ id ∷ [])
Distinct-last id [] distinct apart = (tt, tt)
Distinct-last id (j ∷ ids) distinct apart = (
  Apart-last id j ids distinct.0 (ground (arith, apart.0, str_eq_iff id j, str_eq_iff j id)),
  Distinct-last id ids distinct.1 apart.1,
)

Queued-last :
    (id : Str) (s : Session) (b : Bet) (ids : List Str) (m : Dict Str Session)
    → Queued ids m
    → lookup id m ≡ some s
    → s.state ≡ betting
    → s.bet ≡ some b
    → Queued (ids ++ id ∷ []) m
Queued-last id s b [] m q found state bet = ((s, b, found, state, bet), tt)
Queued-last id s b (j ∷ ids) m (first, later) found state bet =
    (first, Queued-last id s b ids m later found state bet)

lookup-insert_same :
    (id : Str) (s : Session) (m : Dict Str Session) (j : Str)
    → lookup id m ≡ some s
    → lookup j (insert id s m) ≡ lookup j m
lookup-insert_same id s m j found = grind (arith, lookup-insert id j s m, str_eq_iff id j)

module _ {F : Type 0} where
  -- A session that is not queued may change.
  pub put-QueueInv :
      (id : Str) (s : Session) (m : Manager F)
      → Idle id m.sessions
      → QueueInv m
      → QueueInv (record m { sessions = insert id s m.sessions })
  put-QueueInv id s m idle (distinct, queued) = (
    distinct,
    Queued-insert id s m.pending m.sessions (Idle-Apart id m.pending m.sessions idle queued) queued,
  )

  -- A session that is written back as it was.
  pub same-QueueInv :
      (id : Str) (s : Session) (m : Manager F)
      → lookup id m.sessions ≡ some s
      → QueueInv m
      → QueueInv (record m { sessions = insert id s m.sessions })
  same-QueueInv id s m found (distinct, queued) = (
    distinct,
    Queued-same m.pending m.sessions (insert id s m.sessions)
        (λ j. lookup-insert_same id s m.sessions j found) queued,
  )

  -- A session that was not queued goes to the end of the queue with its bet.
  pub join-QueueInv :
      (id : Str) (s : Session) (b : Bet) (m : Manager F)
      → Idle id m.sessions
      → s.state ≡ betting
      → s.bet ≡ some b
      → QueueInv m
      → QueueInv (record m { sessions = insert id s m.sessions; pending = m.pending ++ id ∷ [] })
  join-QueueInv id s b m idle state bet v =
      let apart = Idle-Apart id m.pending m.sessions idle v.1 in
      let at_id = lookup-insert id id s m.sessions in
      (
        Distinct-last id m.pending v.0 apart,
        Queued-last id s b m.pending (insert id s m.sessions) (put-QueueInv id s m idle v).1
            (rw (beq_self id) at at_id) state bet,
      )
