-- ===== src/Rgs/Session/States.antt =====
-- On which sessions each method succeeds, and what a history of calls amounts to
-- (server/rgs/session.go).
use marbles_game.Prelude.{
  Bool-cases, List, Option, [], arith, err, if◌then◌else◌, inl, inr, is_ok, is_some, none, ok, refl,
  some, suc, ℕ, ◌+◌, ◌∷◌, ◌≡◌,
}
use marbles_game.Rgs.Errors.{Error, sentinel, session_closed, wrap, wrong_state}
use marbles_game.Rgs.Session.{
  Op, Session, SessionState, apply, assigns, betting, closed, closes, opened, places, racing, run,
  settled, settles,
}
use marbles_game.Rgs.Session.Invariant.{Inv, apply-Inv}

-- The transition table: `none` where the method is refused.
abbrev pub next_state : Op → SessionState → Option SessionState
next_state (places b now) opened = some betting
next_state (places b now) settled = some betting
next_state (places b now) _ = none
next_state (assigns i now) betting = some racing
next_state (assigns i now) _ = none
next_state (settles o now) racing = some settled
next_state (settles o now) _ = none
next_state (closes now) betting = none
next_state (closes now) racing = none
next_state (closes now) _ = some closed

-- The error of a refused method.
abbrev pub refusal : Op → SessionState → Error
refusal (places b now) closed = sentinel session_closed
refusal _ _ = wrap (sentinel wrong_state)

abbrev pub Follows : Op → Session → Option SessionState → Type 0
Follows op s none = apply op s ≡ (err (refusal op s.state), s)
Follows op s (some t) = ((apply op s).0 ≡ ok tt) × ((apply op s).1.state ≡ t)

-- On a session that satisfies the invariant every method follows the transition table: it succeeds
-- and moves to the state of the table, or it is refused by the state alone and changes nothing. So
-- `ErrBetExists` and `ErrNoBet` never occur.
pub apply-Follows : (op : Op) (s : Session) → Inv s → Follows op s (next_state op s.state)
unfolding apply
apply-Follows (places b now) s v = ground arith
apply-Follows (assigns i now) s v = ground arith
apply-Follows (settles o now) s v = ground arith
apply-Follows (closes now) s v = ground arith

-- The calls of a history that succeeded.
abbrev pub accepted : List Op → Session → List Op
accepted [] s = []
accepted (op ∷ ops) s =
    let rest = accepted ops (apply op s).1 in if is_ok (apply op s).0 then op ∷ rest else rest

abbrev pub placed : List Op → ℕ
placed [] = 0
placed (places b now ∷ ops) = suc (placed ops)
placed (_ ∷ ops) = placed ops

abbrev pub paid_out : List Op → ℕ
paid_out [] = 0
paid_out (settles o now ∷ ops) = suc (paid_out ops)
paid_out (_ ∷ ops) = paid_out ops

abbrev pub active : Session → ℕ
active s = if is_some s.bet then 1 else 0

apply_counts :
    (op : Op) (s : Session)
    → Inv s
    → let done = if is_ok (apply op s).0 then op ∷ [] else [] in
      placed done + active s ≡ paid_out done + active (apply op s).1
unfolding apply
apply_counts (places b now) s v = ground arith
apply_counts (assigns i now) s v = ground arith
apply_counts (settles o now) s v = ground arith
apply_counts (closes now) s v = ground arith

placed-cons : (op : Op) (ops : List Op) → placed (op ∷ ops) ≡ placed (op ∷ []) + placed ops
placed-cons (places b now) ops = omega arith
placed-cons (assigns i now) ops = omega arith
placed-cons (settles o now) ops = omega arith
placed-cons (closes now) ops = omega arith

paid_out-cons : (op : Op) (ops : List Op) → paid_out (op ∷ ops) ≡ paid_out (op ∷ []) + paid_out ops
paid_out-cons (places b now) ops = omega arith
paid_out-cons (assigns i now) ops = omega arith
paid_out-cons (settles o now) ops = omega arith
paid_out-cons (closes now) ops = omega arith

-- In any history of a session that satisfies the invariant every accepted bet is settled exactly
-- once, but for one that may still be open: bets placed, and the one open before, are settlements
-- and the one open after.
pub run_counts :
    (ops : List Op) (s : Session)
    → Inv s
    → placed (accepted ops s) + active s ≡ paid_out (accepted ops s) + active (run ops s)
unfolding run
run_counts [] s v = refl
run_counts (op ∷ ops) s v =
    let next = run_counts ops (apply op s).1 (apply-Inv op s v) in
    let step = apply_counts op s v in
    elim (Bool-cases (is_ok (apply op s).0)) [
      | inl good ↦ rw good (
          ground (
            arith,
            good,
            next,
            step,
            placed-cons op (accepted ops (apply op s).1),
            paid_out-cons op (accepted ops (apply op s).1),
          ))
      | inr bad ↦ rw bad (ground (arith, bad, next, step))
    ]
