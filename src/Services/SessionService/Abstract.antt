-- ===== src/Services/SessionService/Abstract.antt =====
-- What the session service promises: a map from the hash of a token to the owner, the expiry and
-- whether the session is closed.
use mathlib.Core.Option
use test_specs_to_code.Common.{
  ℕ, String, Bool, true, false, Option, none, some, ◌==◌, ◌||◌, leb, if◌then◌else◌,
}
use test_specs_to_code.Model.{UserEntity, SessionEntity, Db, is_active}
use test_specs_to_code.Repositories.SessionRepository.{find_by_token_hash}
use test_specs_to_code.Services.SessionService.{
  Reason, SessionValidationResult, valid, invalid, LogoutResult,
}

pub record Ticket : Type 0 where
  pub owner : String
  pub expires_at : ℕ
  pub closed : Bool

abbrev pub Tickets : Type 0
Tickets = String → Option Ticket

abbrev pub ticket_of : SessionEntity → Ticket
ticket_of s = record { owner = s.user_id; expires_at = s.expires_at; closed = s.invalidated }

-- The map that a database stands for.
abbrev pub view : Db → Tickets
view db h = Option.map ticket_of (find_by_token_hash h db)

abbrev pub closing : Ticket → Ticket
closing t = record t { closed = true }

-- A new ticket under a hash.
abbrev pub open_ticket : String → String → ℕ → Tickets → Tickets
open_ticket hash owner expires_at m k =
    if k == hash
    then some (record { owner = owner; expires_at = expires_at; closed = false })
    else m k

abbrev pub close_ticket : String → Tickets → Tickets
close_ticket hash m k = if k == hash then Option.map closing (m k) else m k

abbrev pub close_owned : String → Tickets → Tickets
close_owned owner m k = Option.map (λ t. if t.owner == owner then closing t else t) (m k)

-- Logout: the answer, and the map afterwards.
abbrev pub logout_answer : Option Ticket → ℕ → LogoutResult
logout_answer none now = record { already_terminated = true }
logout_answer (some t) now = record { already_terminated = t.closed || leb t.expires_at now }

-- A check: the answer, where `owner` finds the account.
abbrev pub check_answer : (String → Option UserEntity) → Option Ticket → ℕ → SessionValidationResult
check_answer owner none now = invalid Reason.not_found
check_answer owner (some t) now =
    if leb t.expires_at now
    then invalid Reason.expired
    else if t.closed
    then invalid Reason.invalidated
    else elim (owner t.owner) [
      | none ↦ valid t.owner
      | some u ↦ if is_active u.status then valid t.owner else invalid Reason.account_suspended
    ]

-- What a check closes: all tickets of an account that is not active.
abbrev pub after_check : (String → Option UserEntity) → Option Ticket → ℕ → Tickets → Tickets
after_check owner none now m = m
after_check owner (some t) now m =
    if leb t.expires_at now || t.closed then m else elim (owner t.owner) [
      | none ↦ m
      | some u ↦ if is_active u.status then m else close_owned u.id m
    ]

-- What a logout closes: the ticket, if it is open and not expired.
abbrev pub after_logout : String → ℕ → Tickets → Tickets
after_logout hash now m = elim (m hash) [
  | none ↦ m
  | some t ↦ if t.closed || leb t.expires_at now then m else close_ticket hash m
]
