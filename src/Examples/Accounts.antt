-- ===== src/Examples/Accounts.antt =====
-- Disputes, tokens, rate limits, KYC documents, referrals, freezes, one-time codes and logins.
use nexa_fx_js.Base.{ℕ, ◌≡◌, refl, true, false, none, some, List, [], ◌∷◌, codes, arith, ◌+◌, ◌≤◌}
use nexa_fx_js.Base.Int.{pos, ◌+ℤ◌}
use nexa_fx_js.Base.Action.{ok}
use nexa_fx_js.Wallets.{
  Wallet, adjust_balance, is_of, save_wallet, write_balance, with_transaction, get_balance,
}
use nexa_fx_js.Disputes
use nexa_fx_js.Tokens
use nexa_fx_js.EndpointLimit
use nexa_fx_js.EndpointLimit.Sliding
use nexa_fx_js.RateLimit
use nexa_fx_js.Kyc
use nexa_fx_js.AccountFreeze
use nexa_fx_js.Login
use nexa_fx_js.Otp
use nexa_fx_js.Otp.Attempts
use nexa_fx_js.Login.Lockout
use nexa_fx_js.Currencies.{validate_currency, is_supported_currency, normalize_currency_code}
use nexa_fx_js.Examples.{alice, bob, two_wallets}

abbrev complaint : Disputes.Dispute
complaint = record {
  id = 4;
  transaction_id = 1;
  user_id = 1;
  reason = "late";
  status = Disputes.DisputeStatus.opened;
  resolution = none;
  resolved_at = none;
  created_at = 10;
}

abbrev desk : Disputes.State
desk = record {
  cases = [];
  messages = [];
  disputes = complaint ∷ [];
  transactions = [];
  events = [];
  next_id = 5;
}

abbrev double : ℕ → ℕ
double n = n + n

abbrev session : Tokens.RefreshToken
session = record {
  id = 1;
  user_id = 1;
  family_id = 1;
  parent_token_id = none;
  token_hash = 14;
  expires_at = 100;
  revoked_at = none;
  replaced_by_token_id = none;
}

abbrev fresh : Tokens.Fresh
fresh = record { token = 8; id = 2; family_id = 0 }

abbrev after_rotation : List Tokens.RefreshToken
after_rotation =
    record session { revoked_at = some 50; replaced_by_token_id = some 2 }
    ∷ record {
      id = 2;
      user_id = 1;
      family_id = 1;
      parent_token_id = some 1;
      token_hash = 16;
      expires_at = 60_050;
      revoked_at = none;
      replaced_by_token_id = none;
    }
    ∷ []

rotation_run :
    Tokens.rotate_token double 60 50 fresh 7 (session ∷ []) ≡ (ok (8, 60_050), after_rotation)
unfolding Tokens.rotate_token Tokens.rotate_row
rotation_run = refl

abbrev busy : RateLimit.Entry
busy = record {
  id = 1;
  user_id = 1;
  endpoint = codes "/transactions";
  request_count = 18;
  window_start = 1000;
}

abbrev passport : Kyc.KycDocument
passport = record {
  id = 3;
  user_id = 1;
  document_type = "passport";
  document_number = "X1";
  document_url = "https://store/x1";
  status = Kyc.KycDocumentStatus.appealed;
  reviewed_by = none;
  reviewed_at = none;
  appeal_reason = some "typo";
}

abbrev office : Kyc.State
office = record { documents = passport ∷ []; reviewed = []; next_id = 4 }

abbrev richer : Wallet
richer = record alice { balance = pos 11_000_000_000 }

reward_paid :
    adjust_balance 1 (codes "USD") (pos 1_000_000_000) two_wallets ≡ (ok richer, richer ∷ bob ∷ [])
unfolding adjust_balance write_balance with_transaction get_balance save_wallet validate_currency
    is_supported_currency normalize_currency_code is_of ◌+ℤ◌
reward_paid = refl

abbrev no_freezes : AccountFreeze.State
no_freezes = record { rows = []; next_id = 1 }

not_frozen : AccountFreeze.is_account_frozen 1 no_freezes ≡ false
unfolding AccountFreeze.is_account_frozen
not_frozen = refl

abbrev careless : Login.User
careless = record {
  id = 1;
  email = codes "a@b";
  password_hash = 10;
  is_admin = false;
  require_2fa = false;
  failed_login_attempts = 4;
  locked_until = none;
}

abbrev site : Login.State
site = record { users = careless ∷ []; used_refresh_tokens = [] }

abbrev login_env : Login.Env
login_env = record {
  hash_password = double;
  terms_accepted = λ user. true;
  is_deactivated = λ user. false;
  verify = λ token. true;
}

abbrev wrong : Login.LoginDto
wrong = record { email = codes "a@b"; password = 6; totp_code = false }

logins-AllUnlocked_example :
    Lockout.AllUnlocked (Lockout.logins login_env ((100, wrong) ∷ (101, wrong) ∷ []) site)
logins-AllUnlocked_example =
    Lockout.logins-AllUnlocked login_env ((100, wrong) ∷ (101, wrong) ∷ []) site
      ((refl, omega arith), tt)

abbrev spent : Login.State
spent = record site { used_refresh_tokens = 5 ∷ [] }

first_refresh : Login.rotate_refresh_token login_env (some 5) site ≡ (ok 5, spent)
unfolding Login.rotate_refresh_token
first_refresh = refl

abbrev code_row : Otp.Otp
code_row = record {
  id = 2;
  user_id = 1;
  code_hash = 10;
  purpose = 0;
  expires_at = 900;
  used_at = none;
  attempts = 3;
}

answers_bounded_example :
    Attempts.answers double ((100, 1) ∷ (101, 2) ∷ (102, 3) ∷ (103, 5) ∷ []) code_row ≤ 2
answers_bounded_example =
    Attempts.answers_bounded double ((100, 1) ∷ (101, 2) ∷ (102, 3) ∷ (103, 5) ∷ []) code_row

-- Two requests in ten milliseconds.
abbrev strict : EndpointLimit.Config
strict = record {
  id = 1;
  endpoint = codes "/login";
  method = codes "POST";
  max_requests = 2;
  window_ms = 10;
  is_active = true;
}

admitted_bounded_example :
    Sliding.count
      (Sliding.in_window strict 13)
      (Sliding.admitted strict (1 ∷ 4 ∷ 5 ∷ 11 ∷ 12 ∷ []) [] []).0
    ≤ 2
admitted_bounded_example =
    Sliding.admitted_bounded strict (1 ∷ 4 ∷ 5 ∷ 11 ∷ 12 ∷ []) 13
      (omega arith, (omega arith, (omega arith, (omega arith, (omega arith, tt)))))
