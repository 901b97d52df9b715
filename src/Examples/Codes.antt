-- ===== src/Examples/Codes.antt =====
-- One-time codes: bob asks for one and verifies it.
use test_specs_to_code.Table.{append_row}
use test_specs_to_code.Repositories.OtpRequestRepository.{create_otp_request}
use test_specs_to_code.Repositories.OtpRequestRepository.{mark_delivered}
use test_specs_to_code.Services.OtpService.{deliver_otp}
use test_specs_to_code.Repositories.Constraints.{user_exists}
use test_specs_to_code.Table.{update_where}
use test_specs_to_code.Repositories.OtpRequestRepository.{invalidate_active_by_user_id}
use test_specs_to_code.Repositories.OtpRequestRepository.{otp_request_violations}
use test_specs_to_code.Services.OtpService.{store_otp}
use test_specs_to_code.Table.{select_first}
use test_specs_to_code.Table.{count_where}
use test_specs_to_code.Common.{◌+◌}
use test_specs_to_code.Common.{arith, ◌≡◌, ℕ, refl, true, some, ltb}
use test_specs_to_code.Model.{
  AccountStatus, OtpStatus, UserEntity, World, ok, thrown, otp_not_found, otp_invalid,
}
use test_specs_to_code.Repositories.UserRepository.{find_by_id}
use test_specs_to_code.Repositories.OtpRequestRepository.{find_active_by_user_id}
use test_specs_to_code.Services.RateLimitGuard.{RateLimitGuard}
use test_specs_to_code.Services.OtpService.{
  OtpInputs, OtpState, new_otp_request, issue_otp, verify_otp,
}
use test_specs_to_code.Services.OtpService.Issue.{
  AtMostOneActive, MayReceive, issue_otp-AtMostOne, issue_otp-ok,
}
use test_specs_to_code.Services.OtpService.Verify.{issue_otp-verify, verify_otp-once}
use test_specs_to_code.Examples.Fixtures.{demo_crypto, bob, start, one_time_codes}

-- A guard that counts the requests and lets three through.
abbrev pub three_requests : RateLimitGuard ℕ
three_requests = record { allow = λ user_id now n. (ltb n 3, n + 1) }

abbrev pub at_first : OtpState ℕ
at_first = record { world = start; counters = 0 }

abbrev pub inputs : OtpInputs
inputs = record {
  asked_at = 1000;
  invalidated_at = 1000;
  created_at = 1000;
  code = "123456";
  request_id = "o1";
  provider_accepts = true;
}

abbrev pub issued : World
issued = (issue_otp demo_crypto one_time_codes three_requests "u2" inputs at_first).1.world

pub start-AtMostOne : AtMostOneActive start.db
unfolding count_where
start-AtMostOne user_id = omega arith

pub issued-AtMostOne : AtMostOneActive issued.db
issued-AtMostOne =
    issue_otp-AtMostOne demo_crypto one_time_codes three_requests "u2" inputs at_first
      start-AtMostOne

pub bob_may : MayReceive demo_crypto one_time_codes three_requests "u2" inputs at_first bob
unfolding find_by_id select_first
bob_may = record { listed = refl; status = refl; allowed = refl; fresh = refl }

issue_otp-ok_example :
    (n : ℕ) × ((issue_otp demo_crypto one_time_codes three_requests "u2" inputs at_first).0
      ≡ ok (record { accepted = true; status = OtpStatus.delivered }))
    × (find_active_by_user_id "u2" issued.db
        ≡ some (record (new_otp_request demo_crypto one_time_codes "u2" bob n inputs) {
          status = OtpStatus.delivered;
        }))
    × (issued.db.users ≡ start.db.users)
issue_otp-ok_example =
    issue_otp-ok demo_crypto one_time_codes three_requests "u2" inputs at_first bob bob_may

issue_otp-verify_example :
    (verify_otp demo_crypto "u2" "000000" 2000 2000 issued).0 ≡ thrown (otp_invalid "u2")
issue_otp-verify_example =
    issue_otp-verify demo_crypto one_time_codes three_requests "u2" "000000" inputs at_first bob
      2000 2000 bob_may

abbrev pub verified : World
verified = (verify_otp demo_crypto "u2" "123456" 2000 2001 issued).1

verify_otp-once_example :
    (u : UserEntity) × (find_by_id "u2" verified.db ≡ some u)
    × (u.status ≡ AccountStatus.active)
    × (verify_otp demo_crypto "u2" "123456" 3000 3000 verified
        ≡ (thrown (otp_not_found "u2"), verified))
unfolding verify_otp issue_otp find_by_id select_first store_otp otp_request_violations
    invalidate_active_by_user_id update_where user_exists deliver_otp mark_delivered
    create_otp_request find_active_by_user_id append_row
verify_otp-once_example =
    verify_otp-once demo_crypto "u2" "123456" 2000 2001 issued verified
      (record { user_id = "u2"; activated_at = 2001 }) issued-AtMostOne refl "123456" 3000 3000
