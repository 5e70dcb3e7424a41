-- ===== src/Wallets/Total.antt =====
-- The money of one currency over all accounts, under `save_wallet`.
use nexa_fx_js.Base.{
  ℕ, ◌≡◌, refl, inl, inr, [], ◌∷◌, arith, Bool-cases, Text, same_text, same_text_refl,
  eq_of_same_text, if◌then◌else◌,
}
use nexa_fx_js.Base.Int.{ℤ, pos, ◌+ℤ◌, int_laws, +ℤ_shift}
use nexa_fx_js.Wallets.{Wallet, Wallets, is_of, empty_wallet, save_wallet, read_wallet}
use nexa_fx_js.Wallets.Balance.{save_wallet_cons}

-- What a wallet holds in a currency.
pub share : Text → Wallet → ℤ
share c w = if same_text w.currency c then w.balance else pos 0

pub total : Text → Wallets → ℤ
total c [] = pos 0
total c (w ∷ ws) = share c w +ℤ total c ws

share-same : (c : Text) (w : Wallet) → w.currency ≡ c → share c w ≡ w.balance
unfolding share
share-same c w h = ground (arith, same_text_refl c)

share-other : (c : Text) (w : Wallet) → ¬ (w.currency ≡ c) → share c w ≡ pos 0
unfolding share
share-other c w h = ground (arith, eq_of_same_text w.currency c)

share-empty : (a : ℕ) (c d : Text) → share d (empty_wallet a c) ≡ pos 0
unfolding share
share-empty a c d = ground arith

total-save_wallet :
    (c : Text) (w : Wallet) (ws : Wallets)
    → total c (save_wallet w ws) +ℤ share c (read_wallet w.account_id w.currency ws)
      ≡ total c ws +ℤ share c w
unfolding total
total-save_wallet c w [] =
    unfold save_wallet in grind (int_laws, share-empty w.account_id w.currency c)
total-save_wallet c w (v ∷ ws) =
    rw (save_wallet_cons w v ws) (elim (Bool-cases (is_of w.account_id w.currency v)) [
      | inl same ↦ rw same (omega int_laws)
      | inr other ↦ rw other (+ℤ_shift _ _ _ _ _ (total-save_wallet c w ws))
    ])

module _ (w : Wallet) (ws : Wallets) where
  -- Saving over a wallet changes its currency's total by the difference of the two balances.
  pub total-save_same :
      (read_wallet w.account_id w.currency ws).currency ≡ w.currency
      → total w.currency (save_wallet w ws) +ℤ (read_wallet w.account_id w.currency ws).balance
        ≡ total w.currency ws +ℤ w.balance
  total-save_same h = ground (
    arith,
    total-save_wallet w.currency w ws,
    share-same w.currency w refl,
    share-same w.currency (read_wallet w.account_id w.currency ws) h,
  )

  pub total-save_other :
      (c : Text)
      → (read_wallet w.account_id w.currency ws).currency ≡ w.currency
      → ¬ (w.currency ≡ c)
      → total c (save_wallet w ws) ≡ total c ws
  total-save_other c h differ = grind (
    int_laws,
    total-save_wallet c w ws,
    share-other c w differ,
    share-other c (read_wallet w.account_id w.currency ws) (rw h differ),
  )
