-- ===== src/Tests/Accounts.antt =====
-- The theorems on one-time codes, refresh tokens and loyalty accounts, applied.
use booking_platform_claude.Prelude.{
  ◌∷◌, [], some, ◌+◌, ◌≡◌, refl, true, none, ◌==◌, In, false, arith,
}
use booking_platform_claude.Schema.{BookingStatus, OtpPurpose, User}
use booking_platform_claude.Store.{Db}
use booking_platform_claude.Store.Memory.{memory}
use booking_platform_claude.Store.Action.{ok, err, unauthorized}
use booking_platform_claude.Otp.Accepted.{request_otp-verify_otp}
use booking_platform_claude.Otp.{
  OtpConfig, request_otp, verify_otp, verify_record, update_code, latest_open,
}
use booking_platform_claude.Otp.Codes.{IsAnswer, verify_otp-IsAnswer}
use booking_platform_claude.Loyalty.{add_points}
use booking_platform_claude.Loyalty.Tiers.{AllRanked, add_points-AllRanked}
use booking_platform_claude.Schema.{booking_purchase}
use booking_platform_claude.Auth.{reset_password, set_password}
use booking_platform_claude.Auth.Tokens.{
  Crypto, DeviceContext, issue_token_pair, logout, refresh_tokens, revoke_by_id, revoke_of_user,
}
use booking_platform_claude.Auth.Rotation.{refresh_tokens_once}
use booking_platform_claude.Api.Auth.{cleared, handle_auth, logs_out, logout_route, refreshes}
use booking_platform_claude.Api.Auth.Ended.{logs_out-refreshes}
use booking_platform_claude.Auth.Revoked.{
  AllRevoked, logout-refresh_tokens, reset_password-AllRevoked,
}
use booking_platform_claude.Referral.{new_referral, mark_rewarded, reward, reward_if_eligible}
use booking_platform_claude.Referral.Once.{reward_if_eligible_once}
use booking_platform_claude.Users.{UpdateProfileDto, update_profile}
use booking_platform_claude.Users.Profile.{UniqueUsers, update_profile-UniqueUsers}
use booking_platform_claude.Tests.{clock, customer, shop_db}

-- A digest and a password hash that add one.
abbrev plus_one : Crypto
plus_one = record {
  sha256 = λ n. n + 1;
  hash_password = λ n. n + 1;
  verify_password = λ n hash. n + 1 == hash;
  sign_access_token = λ user_id role. user_id;
  refresh_days = 30;
}

abbrev browser : DeviceContext
browser = record { device_info = none; ip_address = none }

abbrev settings : OtpConfig
settings = record { is_production = true; debug_expose = false }

abbrev db : Db
db = shop_db BookingStatus.confirmed

verify_otp-IsAnswer_example :
    IsAnswer plus_one.sha256 912 OtpPurpose.reset_password 1234 1000 db
      (verify_otp plus_one.sha256 memory (clock 1000) 912 OtpPurpose.reset_password 1234 db).1
      true
unfolding verify_otp verify_record update_code latest_open
verify_otp-IsAnswer_example =
    verify_otp-IsAnswer plus_one.sha256 memory (clock 1000) 912 OtpPurpose.reset_password 1234 db
      (verify_otp plus_one.sha256 memory (clock 1000) 912 OtpPurpose.reset_password 1234 db).1 true
      refl

abbrev sent_db : Db
sent_db =
    (request_otp plus_one.sha256 memory (clock 100000) settings 4321 912 OtpPurpose.login none db).1

request_otp-verify_otp_example :
    (verify_otp plus_one.sha256 memory (clock 400000) 912 OtpPurpose.login 4321 sent_db).0 ≡ ok true
unfolding request_otp latest_open
request_otp-verify_otp_example =
    request_otp-verify_otp plus_one.sha256 memory (clock 100000) (clock 400000) settings 4321 912
      OtpPurpose.login none db sent_db none refl (ground arith)

logout-refresh_tokens_example :
    refresh_tokens plus_one memory
      (clock 2000)
      5
      777
      browser
      (logout plus_one memory (clock 1000) 777 db).1
    ≡ (err unauthorized, (logout plus_one memory (clock 1000) 777 db).1)
logout-refresh_tokens_example =
    logout-refresh_tokens plus_one memory (clock 1000) (clock 2000) 777 5 browser db

reset_password-AllRevoked_example :
    (u : User) × In u db.users
    × ((u.phone == 912) ≡ true)
    × AllRevoked u.id (reset_password plus_one memory (clock 1000) 912 1234 99 db).1
unfolding reset_password verify_otp verify_record update_code latest_open set_password
    revoke_of_user
reset_password-AllRevoked_example =
    reset_password-AllRevoked plus_one memory (clock 1000) 912 1234 99 db
      (reset_password plus_one memory (clock 1000) 912 1234 99 db).1 refl

-- Enough for a silver account, which is made on the way.
add_points-AllRanked_example :
    AllRanked
      (add_points memory
        (clock 1000)
        0
        7
        1200
        booking_purchase
        none
        (shop_db BookingStatus.confirmed)).1
unfolding AllRanked
add_points-AllRanked_example =
    add_points-AllRanked memory (clock 1000) 0 7 1200 booking_purchase none
      (shop_db BookingStatus.confirmed) tt

refresh_tokens_once_example :
    refresh_tokens plus_one memory
      (clock 2000)
      6000
      777
      browser
      (refresh_tokens plus_one memory (clock 1000) 5000 777 browser db).1
    ≡ (err unauthorized, (refresh_tokens plus_one memory (clock 1000) 5000 777 browser db).1)
unfolding refresh_tokens revoke_by_id issue_token_pair
refresh_tokens_once_example =
    refresh_tokens_once plus_one memory (clock 1000) (clock 2000) 777 5000 6000 browser browser db
      (refresh_tokens plus_one memory (clock 1000) 5000 777 browser db).1 _ (tt, tt) refl

abbrev left_db : Db
left_db =
    (handle_auth plus_one settings memory (clock 1000) 0 0 browser (some 777) (logs_out none) db).1

logs_out-refreshes_example :
    (cleared ≡ cleared)
    × (handle_auth plus_one settings memory
          (clock 2000)
          0
          5
          browser
          (some 777)
          (refreshes none)
          left_db
        ≡ (err unauthorized, left_db))
unfolding handle_auth logout_route logout
logs_out-refreshes_example =
    logs_out-refreshes plus_one settings memory (clock 1000) (clock 2000) 0 0 0 5 777 browser
      browser none none db left_db (record { access_token = none; cookie = cleared }) refl refl

-- A second user, and an email that nobody has yet.
abbrev two_users : Db
two_users = record db { users = record customer { id = 8; phone = 913 } ∷ customer ∷ [] }

abbrev new_email : UpdateProfileDto
new_email = record { full_name = none; email = some 31; avatar_url = none }

update_profile-UniqueUsers_example :
    UniqueUsers (update_profile memory (clock 1000) 7 new_email two_users).1.users
update_profile-UniqueUsers_example =
    update_profile-UniqueUsers memory (clock 1000) 7 new_email two_users ((refl, tt), (tt, tt))

-- The user 8 brought the user 7, who has not bought anything yet.
abbrev referred_db : Db
referred_db = record two_users { referrals = new_referral 60 8 7 ∷ [] }

reward_if_eligible_once_example :
    reward_if_eligible memory
      (clock 2000)
      10
      7
      (reward_if_eligible memory (clock 1000) 0 7 referred_db).1
    ≡ (ok tt, (reward_if_eligible memory (clock 1000) 0 7 referred_db).1)
unfolding reward_if_eligible reward add_points mark_rewarded
reward_if_eligible_once_example =
    reward_if_eligible_once memory (clock 1000) (clock 2000) 0 10 7 referred_db
      (reward_if_eligible memory (clock 1000) 0 7 referred_db).1 (tt, tt) refl
