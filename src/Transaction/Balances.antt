-- ===== src/Transaction/Balances.antt =====
-- The balances that a transaction moves (Transaction/Repo).
use mali.Prelude.{
  ◌≡◌, ◌≢◌, ◌||◌, refl, ap, sym, ◌∙◌, true, false, Bool, none, some, List, inl, inr, arith, String,
  str_eq,
}
use mali.Prelude.Tests.{Bool-cases, Option-cases, if◌then◌else◌}
use mali.Rat.{Rat, negate}
use mali.Rat.Text.{set_string}
use mali.Domain.{CreateTransactionInput}
use mali.Store.{WalletRow}
use mali.Context.{Result, ok, Platform, World, ◌>>=◌}
use mali.Wallet.Repo.{set_wallets}
use mali.Transaction.Repo.{
  lock_wallet_for_update, apply_wallet_balance_delta, rat_to_decimal_string, source_delta, credit,
  move_balances,
}
use mali.Context.Success.{result_cases}
use mali.Transaction.Moves.{
  Moved, Credited, WalletsOnly, locked-Moved, parse_ok, parse_err, credit-Credited,
}

-- An expense and a transfer take the amount from their wallet.
abbrev pub signed : String → Rat → Rat
signed tx_type amount =
    if str_eq tx_type "expense" || str_eq tx_type "transfer" then negate amount else amount

delta_ok :
    (tx_type : String) (amount d : Rat)
    → source_delta tx_type amount ≡ ok d
    → d ≡ signed tx_type amount
unfolding source_delta
delta_ok tx_type amount d h = ground arith

-- The balances that a transaction of this amount has moved: of its wallet, and for a transfer of the other
-- one then.
pub record Settled (input : CreateTransactionInput) (amount : Rat) (p : Platform)
    (old new : List WalletRow) : Type 0 where
  pub read : set_string input.amount ≡ some amount
  pub between : List WalletRow
  pub source : Moved input.user_id input.wallet_id (signed input.tx_type amount) p old between
  pub other :
      if str_eq input.tx_type "transfer" then Credited input amount p between new else between ≡ new

module _ (input : CreateTransactionInput) (p : Platform) (w : World)
    (h : (move_balances input p w).0 ≡ ok tt) where
  move_read : set_string input.amount ≢ none
  unfolding move_balances ◌>>=◌
  move_read q = let (_, g) = parse_err input.amount q in ground arith

  module _ (amount : Rat) (q : set_string input.amount ≡ some amount) where
    abbrev locked : Result (Unit {0}) × World
    locked = lock_wallet_for_update input.user_id input.wallet_id p w

    abbrev debited : Result (Unit {0}) × World
    debited =
        apply_wallet_balance_delta input.wallet_id
          (rat_to_decimal_string (signed input.tx_type amount)) p locked.1

    move_lock : locked.0 ≡ ok tt
    unfolding move_balances ◌>>=◌
    move_lock =
        let g = parse_ok input.amount amount q in
        elim (result_cases locked.0) [ inl (_, l) ↦ l | inr (_, l) ↦ absurd (ground arith) ]

    move_delta : source_delta input.tx_type amount ≡ ok (signed input.tx_type amount)
    unfolding move_balances ◌>>=◌
    move_delta =
        let g = parse_ok input.amount amount q in
        let l = move_lock in
        elim (result_cases (source_delta input.tx_type amount)) [
          | inl (d, s) ↦ s ∙ ap ok (delta_ok input.tx_type amount d s)
          | inr (_, s) ↦ absurd (ground arith)
        ]

    move_apply : debited.0 ≡ ok tt
    unfolding move_balances ◌>>=◌
    move_apply =
        let g = parse_ok input.amount amount q in
        let l = move_lock in
        let s = move_delta in
        elim (result_cases debited.0) [ inl (_, a) ↦ a | inr (_, a) ↦ absurd (ground arith) ]

    move_other : (move_balances input p w) ≡ (
        if str_eq input.tx_type "transfer"
        then credit input amount p debited.1
        else (ok tt, debited.1))
    unfolding move_balances ◌>>=◌
    move_other =
        let g = parse_ok input.amount amount q in
        let l = move_lock in let s = move_delta in let a = move_apply in ground arith

then_of : (P Q : Type 0) (b : Bool) → b ≡ true → P → if b then P else Q
then_of P Q true h x = x
then_of P Q false h x = absurd (ground arith)

else_of : (P Q : Type 0) (b : Bool) → b ≡ false → Q → if b then P else Q
else_of P Q true h x = absurd (ground arith)
else_of P Q false h x = x

pub move_balances-Settled :
    (input : CreateTransactionInput) (p : Platform) (w : World)
    → (move_balances input p w).0 ≡ ok tt
    → let w' = (move_balances input p w).1 in
      (amount : Rat) × Settled input amount p w.db.wallets w'.db.wallets × WalletsOnly w w'
move_balances-Settled input p w h = elim (Option-cases (set_string input.amount)) [
  | inl unread ↦ absurd (move_read input p w h unread)
  | inr (amount, q) ↦
      let l = move_lock input p w h amount q in
      let a = move_apply input p w h amount q in
      let o = move_other input p w h amount q in
      let (m, only) =
        locked-Moved input.user_id input.wallet_id (signed input.tx_type amount) p w l a in
      elim (Bool-cases (str_eq input.tx_type "transfer")) [
        | inl moves ↦
            let run : move_balances input p w
                ≡ credit input amount p (debited input p w h amount q).1 =
              o ∙ rw moves refl in
            let (c, rest) =
              credit-Credited input amount p (debited input p w h amount q).1
                (ap (λ x. x.0) (sym run) ∙ h) in
            rw run (
              amount,
              record { read = q; between = _; source = m; other = then_of _ _ _ moves c },
              rest
                  ∙ ap
                      (set_wallets (λ _.
                        (credit input amount p (debited input p w h amount q).1).1.db.wallets))
                      only,
            )
        | inr stays ↦
            let run : move_balances input p w ≡ (ok tt, (debited input p w h amount q).1) =
              o ∙ rw stays refl in
            rw run (
              amount,
              record { read = q; between = _; source = m; other = else_of _ _ _ stays refl },
              only,
            )
      ]
]
