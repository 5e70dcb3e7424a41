-- ===== src/Examples/Access.antt =====
-- Reset tokens, accounts, API keys and deactivations.
use nexa_fx_js.Base.{List, ℕ, ◌≡◌, ◌≤◌, ◌*◌, refl, true, false, none, some, [], ◌∷◌, codes, arith}
use nexa_fx_js.Base.Int.{pos}
use nexa_fx_js.Base.Action.{ok, err, Error, conflict, email_in_use}
use nexa_fx_js.PasswordReset
use nexa_fx_js.PasswordReset.Runs
use nexa_fx_js.PasswordReset.Runs.{accepted_at_most_three}
use nexa_fx_js.Users
use nexa_fx_js.Users.Unique
use nexa_fx_js.Users.Unique.Index
use nexa_fx_js.Users.Unique.Index.{run-IsUnique}
use nexa_fx_js.Users.Registered
use nexa_fx_js.Users.Registered.{register_once}
use nexa_fx_js.Deactivation
use nexa_fx_js.Deactivation.Blocks.{deactivated_blocked}
use nexa_fx_js.ApiKeys
use nexa_fx_js.ApiKeys.Created.{created_key_opens}
use nexa_fx_js.ApiKeys.Revoked
use nexa_fx_js.ApiKeys.Revoked.{revoked_for_good}
use nexa_fx_js.Login
use nexa_fx_js.Transactions.Data.{Metadata}
use nexa_fx_js.Transactions.Transfer.{TransferDto, transfer}
use nexa_fx_js.Examples.{usd, all_up, start}

abbrev twice : ℕ → ℕ
twice n = 2 * n

abbrev drawn : PasswordReset.Fresh
drawn = record { raw_token = 6; id = 1 }

-- Three validations that are accepted, and one that is not and deletes the row.
tries : Runs.Run twice 12 (PasswordReset.create_reset_token twice 100 drawn 4 []).1 3 []
unfolding PasswordReset.create_reset_token PasswordReset.validate_token PasswordReset.validate_row
tries =
    Runs.validates (Runs.validates (Runs.validates (Runs.validates Runs.start 200 6) 300 6) 400 6)
      500 6

accepted_at_most_three_example : 3 ≤ 3
accepted_at_most_three_example = accepted_at_most_three twice [] 100 drawn 4 3 [] tt refl refl tries

abbrev ann : Users.RegisterDto
ann = record {
  email = codes "ann@x";
  password = 21;
  first_name = codes "Ann";
  last_name = codes "Lee";
}

abbrev nobody : Users.State
nobody = record { users = []; acceptances = []; registered = [] }

abbrev comings : List Unique.Call
comings =
    Unique.registers twice (codes "1.0") 1 ann
    ∷ Unique.registers twice (codes "1.0") 2 ann
    ∷ Unique.deletes (codes "deleted") 1
    ∷ []

ann_registered : Index.AreDrawn nobody comings
unfolding Unique.step Users.register Users.create Users.find_by_email Users.accept
ann_registered = (tt, (tt, (refl, tt)))

run-IsUnique_example :
    Unique.IsUnique (Unique.run nobody comings) × (Index.any_faults nobody comings ≡ false)
run-IsUnique_example = run-IsUnique nobody comings tt ann_registered

register_once_example :
    let t = (Users.register twice (codes "1.0") 1 ann nobody).1 in
    ((Users.register twice (codes "1.0") 1 ann nobody).0
      ≡ ok (Users.issue_token 1 (codes "ann@x") Users.UserRole.user))
    × (Users.with_email (codes "ann@x") t.users
        ≡ some (Registered.row_for twice (codes "1.0") 1 ann))
    × (Users.ensure_accepted (codes "1.0") 1 t ≡ (ok tt, t))
    × (Users.register twice (codes "1.0") 2 ann t ≡ (err (conflict email_in_use), t))
register_once_example = register_once twice (codes "1.0") 1 ann nobody 2 ann refl refl

abbrev barred : Deactivation.Rows
barred = Deactivation.new_row 50 1 1 none 9 ∷ []

barred_lem :
    Deactivation.deactivate 50 1 1 none 9 [] ≡ (ok (Deactivation.new_row 50 1 1 none 9), barred)
unfolding Deactivation.deactivate
barred_lem = refl

abbrev gift : TransferDto
gift = record {
  sender_id = 1;
  receiver_id = 2;
  amount = pos 1_000_000_000;
  currency = usd;
  reference = "gift";
  metadata = Metadata.plain;
}

abbrev gate : Login.Env
gate = record {
  hash_password = twice;
  terms_accepted = λ user. true;
  is_deactivated = Deactivation.is_user_deactivated barred;
  verify = λ token. true;
}

abbrev member : Login.User
member = record {
  id = 1;
  email = codes "a@b";
  password_hash = 10;
  is_admin = false;
  require_2fa = false;
  failed_login_attempts = 0;
  locked_until = none;
}

abbrev lobby : Login.State
lobby = record { users = member ∷ []; used_refresh_tokens = [] }

deactivated_blocked_example :
    ((e : Error) × (transfer
          (record all_up { is_deactivated = Deactivation.is_user_deactivated barred })
          gift
          start
        ≡ (err e, start)))
    × ((e : Error) × (Login.finish_login gate member lobby ≡ (err e, lobby)))
deactivated_blocked_example =
    deactivated_blocked 50 1 1 none 9 [] (Deactivation.new_row 50 1 1 none 9) barred
      (record { distinct = tt; single = tt }) refl barred_lem
      (record all_up { is_deactivated = Deactivation.is_user_deactivated barred }) gift start refl
      refl gate member lobby refl refl

abbrev script : ApiKeys.CreateDto
script = record { name = codes "script"; scopes = none; rate_limit = none; expires_at = some 900 }

abbrev key : ApiKeys.Fresh
key = record { plain_key = 33; id = 1 }

abbrev live : ApiKeys.Keys
live = ApiKeys.new_key twice key 4 script ∷ []

live_lem :
    ApiKeys.create_api_key twice key 4 script []
    ≡ (ok (ApiKeys.new_key twice key 4 script, 33), live)
unfolding ApiKeys.create_api_key
live_lem = refl

created_key_opens_example : (ApiKeys.can_activate twice 800 (some 33) live).0 ≡ ok 4
created_key_opens_example =
    created_key_opens twice key 4 script [] (ApiKeys.new_key twice key 4 script) 33 live 800 refl
      live_lem refl

abbrev dead : ApiKeys.Keys
dead = ApiKeys.revoked (ApiKeys.new_key twice key 4 script) ∷ []

dead_lem :
    ApiKeys.revoke_api_key 1 4 live
    ≡ (ok (ApiKeys.revoked (ApiKeys.new_key twice key 4 script)), dead)
unfolding ApiKeys.revoke_api_key
dead_lem = refl

abbrev second : ApiKeys.Fresh
second = record { plain_key = 35; id = 2 }

abbrev used : ApiKeys.ApiKey
used = ApiKeys.touched twice 810 (ApiKeys.new_key twice second 4 script)

used_lem :
    ApiKeys.validate_api_key twice 810 35
      (Revoked.run twice dead (Revoked.creates second 4 script ∷ []))
    ≡ (ok used, ApiKeys.revoked (ApiKeys.new_key twice key 4 script) ∷ used ∷ [])
unfolding ApiKeys.validate_api_key Revoked.run Revoked.step ApiKeys.create_api_key
used_lem = refl

revoked_for_good_example : ¬ (used.id ≡ 1)
revoked_for_good_example =
    revoked_for_good twice 1 4 live (ApiKeys.revoked (ApiKeys.new_key twice key 4 script)) dead
      (Revoked.creates second 4 script ∷ []) dead_lem ((λ e. omega arith), tt) 810 35 used
      (ApiKeys.revoked (ApiKeys.new_key twice key 4 script) ∷ used ∷ []) used_lem
