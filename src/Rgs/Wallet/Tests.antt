-- ===== src/Rgs/Wallet/Tests.antt =====
-- Runs of the wallet of server/rgs/wallet.go.
use marbles_game.Prelude.{List, [], arith, codes, ok, refl, str_eq, str_eq_inst, ◌+◌, ◌∷◌, ◌≡◌}
use marbles_game.Prelude.Dict.{insert, lookup}
use marbles_game.Rgs.Wallet.{MockWallet, Op, apply, credits, debits, run}
use marbles_game.Rgs.Wallet.Accounts.{total}
use marbles_game.Rgs.Wallet.Idempotence.{run_idempotent}
use marbles_game.Rgs.Wallet.Conservation.{run_conserves}

abbrev purse : MockWallet
purse = record { balances = (codes "ann", 100) ∷ (codes "bob", 7) ∷ []; applied = [] }

abbrev stake : Op
stake = debits (codes "ann") 30 (codes "t1")

abbrev history : List Op
history =
    credits (codes "bob") 5 (codes "t2")
    ∷ debits (codes "ann") 30 (codes "t1")
    ∷ debits (codes "ann") 99 (codes "t3")
    ∷ credits (codes "eve") 5 (codes "t4")
    ∷ debits (codes "bob") 30 (codes "t1")
    ∷ []

history_ends : (run (stake ∷ history) purse).balances ≡ (codes "ann", 70) ∷ (codes "bob", 12) ∷ []
unfolding run apply lookup insert str_eq
history_ends = refl

run_idempotent_example :
    let later = run history (apply stake purse).1 in apply stake later ≡ (ok tt, later)
unfolding apply lookup insert str_eq
run_idempotent_example = run_idempotent stake history purse refl

run_conserves_example : total (run (stake ∷ history) purse).balances + 30 ≡ 107 + 5
unfolding apply lookup insert str_eq
run_conserves_example = run_conserves (stake ∷ history) purse (omega arith)
