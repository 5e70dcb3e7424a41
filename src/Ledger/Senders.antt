-- ===== src/Ledger/Senders.antt =====
-- What src/reconciliation/ledger-verification.service.ts says of an account that has sent money.
use nexa_fx_js.Base.{
  ℕ, ◌<◌, ◌≡◌, refl, sym, ap, ◌∙◌, inl, inr, Bool, true, false, ◌&&◌, ◌||◌, some, List, [], ◌∷◌,
  ◌++◌, ◌==◌, ltb, if◌then◌else◌, any, All, or_else, subst, if_both, Text, same_text,
  eq_of_same_text, arith, Bool-cases,
}
use nexa_fx_js.Base.Int.{ℤ, ◌+ℤ◌, ◌-ℤ◌, pos_part}
use nexa_fx_js.Wallets.{Wallet, Wallets, is_of, find_wallet, empty_wallet}
use nexa_fx_js.Wallets.Balance.{balance_at}
use nexa_fx_js.Wallets.Move.{IsMoved}
use nexa_fx_js.Transactions.Data.{Transaction}
use nexa_fx_js.Ledger.{
  Discrepancy, is_received, ledger_balance, distance, tolerance, check_wallet, check_wallets,
  verify,
}

abbrev pub is_reported : ℕ → Text → List Discrepancy → Bool
is_reported account c found =
    any (λ (d : Discrepancy). (d.account_id == account) && same_text d.currency c) found

or_true : (b : Bool) → (b || true) ≡ true
or_true true = refl
or_true false = refl

first_reported :
    (account : ℕ) (c : Text) (v : Wallet) (txs : List Transaction) (found : List Discrepancy)
    → is_of account c v ≡ true
    → tolerance < distance (ledger_balance v.account_id v.currency txs) v.balance
    → is_reported account c (check_wallet txs v found) ≡ true
unfolding is_of
first_reported account c v txs found hit far =
    let test : ltb tolerance (distance (ledger_balance v.account_id v.currency txs) v.balance)
        ≡ true =
      ground arith in
    rw (test, hit) refl

-- A wallet that is too far from its ledger is among the discrepancies.
check_wallets_reports :
    (account : ℕ) (c : Text) (w : Wallet) (txs : List Transaction) (ws : Wallets)
    → find_wallet account c ws ≡ some w
    → tolerance < distance (ledger_balance account c txs) w.balance
    → is_reported account c (check_wallets txs ws) ≡ true
unfolding is_of
check_wallets_reports account c w txs [] h far = cc
check_wallets_reports account c w txs (v ∷ vs) h far = elim (Bool-cases (is_of account c v)) [
  | inl hit ↦
      let e : some v ≡ some w = rw (hit) at h in
      let same : v ≡ w = ground arith in
      let owner : v.account_id ≡ account = ground arith in
      let money : v.currency ≡ c = eq_of_same_text v.currency c (ground arith) in
      first_reported account c v txs (check_wallets txs vs) hit (
        rw (owner, money)
          (subst (λ u. tolerance < distance (ledger_balance account c txs) u.balance) (sym same)
            far))
  | inr miss ↦
      let rest = check_wallets_reports account c w txs vs (rw (miss) at h) far in
      if_both (λ found. is_reported account c found ≡ true)
        (ltb tolerance (distance (ledger_balance v.account_id v.currency txs) v.balance)) _ _
        (rw (rest) (or_true _)) rest
]

ledger_appended :
    (account : ℕ) (c : Text) (txs added : List Transaction)
    → All (λ tx. is_received account c tx ≡ false) added
    → ledger_balance account c (txs ++ added) ≡ ledger_balance account c txs
unfolding ledger_balance
ledger_appended account c [] [] h = refl
ledger_appended account c [] (tx ∷ more) (h, hs) = rw (h) (ledger_appended account c [] more hs)
ledger_appended account c (tx ∷ txs) added h =
    ap (λ z. if is_received account c tx then tx.amount +ℤ z else z)
      (ledger_appended account c txs added h)

distance_moved : (a z : ℤ) → tolerance < pos_part z → tolerance < distance a (a -ℤ z)
unfolding distance ◌-ℤ◌
distance_moved a z h = ground arith

-- An account whose balance agreed with the ledger is reported once it has sent more than a cent: the
-- ledger adds what an account received, and never takes off what it sent. The transactions that are
-- new are not received by the sender.
pub sender_reported :
    (from to : ℕ) (c : Text) (z : ℤ) (ws ws' : Wallets) (w : Wallet) (txs added : List Transaction)
    → IsMoved from to c z ws ws'
    → find_wallet from c ws' ≡ some w
    → balance_at from c ws ≡ ledger_balance from c txs
    → All (λ tx. is_received from c tx ≡ false) added
    → tolerance < pos_part z
    → is_reported from c (verify ws' (txs ++ added)).discrepancies ≡ true
unfolding verify
sender_reported from to c z ws ws' w txs added moved found agreed others much =
    let stored : w.balance ≡ balance_at from c ws -ℤ z =
      ap (λ o. (or_else o (empty_wallet from c)).balance) (sym found) ∙ moved.debited in
    let same = ledger_appended from c txs added others in
    check_wallets_reports from c w (txs ++ added) ws' found
      (rw (same, stored, agreed) (distance_moved (ledger_balance from c txs) z much))
