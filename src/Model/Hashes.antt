-- ===== src/Model/Hashes.antt =====
-- The hash functions that the services call: SHA-256 and HMAC of node's crypto, and bcrypt, of
-- which `hash_password` takes the salt that bcrypt draws. They are not code of the repository.
use test_specs_to_code.Common.{String, Bool, true, ◌≡◌}

pub record Crypto : Type 0 where
  -- createHash('sha256').update(token).digest('hex')
  pub hash_token : String → String
  -- createHmac(algorithm, secret).update(code).digest('hex')
  pub hash_code : String → String
  pub hash_password : String → String → String
  pub compare_password : String → String → Bool

-- bcrypt's contract: a password matches its own hash, whatever the salt.
abbrev pub AcceptsOwnHash : Crypto → Type 0
AcceptsOwnHash crypto =
    (salt password : String)
    → crypto.compare_password password (crypto.hash_password salt password) ≡ true
