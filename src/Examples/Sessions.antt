-- ===== src/Examples/Sessions.antt =====
-- Sessions: alice's session, valid, expired, and closed.
use test_specs_to_code.Common.{String}
use test_specs_to_code.Services.SessionService.Abstract.{
  after_check, after_logout, check_answer, logout_answer, open_ticket, view,
}
use test_specs_to_code.Services.SessionService.Refinement.{
  OneRowPerId, create_session-opens, invalidate_session-refines, validate_session-refines,
}
use test_specs_to_code.Table.{append_row, count_where}
use test_specs_to_code.Repositories.Constraints.{user_exists}
use test_specs_to_code.Table.{select_first}
use test_specs_to_code.Common.{arith, ◌≡◌, refl}
use test_specs_to_code.Model.{World, ok}
use test_specs_to_code.Repositories.UserRepository.{find_by_id}
use test_specs_to_code.Repositories.SessionRepository.{insert_session, session_violations}
use test_specs_to_code.Services.SessionService.{
  valid, create_session, validate_session, invalidate_session,
}
use test_specs_to_code.Services.SessionService.Lifecycle.{create_session-validate}
use test_specs_to_code.Examples.Fixtures.{demo_crypto, alice, start}

abbrev pub with_session : World
with_session = (create_session demo_crypto 60 "u1" "token" "s1" 1000 start).1

create_session-validate_example :
    validate_session demo_crypto "token" 60999 60999 with_session ≡ (ok (valid "u1"), with_session)
unfolding create_session session_violations insert_session find_by_id select_first user_exists
create_session-validate_example =
    create_session-validate demo_crypto 60 "u1" "token" "s1" 1000 60999 60999 start with_session
      (record { token = "token"; expires_at = 61000 }) alice refl refl refl (omega arith)

abbrev pub token_hash : String
token_hash = demo_crypto.hash_token "token"

create_session-opens_example :
    view with_session.db token_hash ≡ open_ticket token_hash "u1" 61000 (view start.db) token_hash
unfolding create_session session_violations insert_session select_first user_exists
create_session-opens_example =
    create_session-opens demo_crypto 60 "u1" "token" "s1" token_hash 1000 start with_session
      (record { token = "token"; expires_at = 61000 }) refl

validate_session-refines_example :
    ((validate_session demo_crypto "token" 2000 2000 with_session).0
      ≡ ok (
          check_answer
            (λ id. find_by_id id with_session.db)
            (view with_session.db token_hash)
            2000))
    × (view (validate_session demo_crypto "token" 2000 2000 with_session).1.db token_hash
        ≡ after_check
            (λ id. find_by_id id with_session.db)
            (view with_session.db token_hash)
            2000
            (view with_session.db)
            token_hash)
validate_session-refines_example =
    validate_session-refines demo_crypto "token" token_hash 2000 2000 with_session

with_session-OneRowPerId : OneRowPerId with_session.db
unfolding create_session session_violations insert_session select_first user_exists append_row
    count_where
with_session-OneRowPerId id = ground arith

invalidate_session-refines_example :
    ((invalidate_session demo_crypto "token" 2000 2000 with_session).0
      ≡ ok (logout_answer (view with_session.db token_hash) 2000))
    × (view (invalidate_session demo_crypto "token" 2000 2000 with_session).1.db token_hash
        ≡ after_logout token_hash 2000 (view with_session.db) token_hash)
invalidate_session-refines_example =
    invalidate_session-refines demo_crypto "token" token_hash 2000 2000 with_session
      with_session-OneRowPerId
