-- ===== src/Core/Idempotency.antt =====
-- Idempotency keys: src/crypto_processing_api/core/idempotency.py. The hash of a body is a parameter,
-- `sha256`, as the module `hashlib` has it.
pub mod Owned
pub mod Once
use crypto_processing_api.Prelude.{
  ℕ, zero, suc, ◌+◌, ltb, Bool, true, false, ◌&&◌, ◌||◌, not, Option, none, some, List, [], ◌∷◌,
  ◌++◌, map, find, select, length, if◌then◌else◌, ◌==◌,
}
use crypto_processing_api.Errors.{
  Result, ok, err, invalid_idempotency_key, request_mismatch, request_in_flight,
}
use crypto_processing_api.Exec.{Exec, guard, modify, gets, pure, raise, ◌>>=◌, ◌>>◌}
use crypto_processing_api.Core.Text.{Text, strip, has_text}

pub data KeyState : Type 0 where
  in_progress completed : KeyState

-- A row of `idempotency_keys`. A response body is what the caller stored, by reference.
pub record IdempotencyKey : Type 0 where
  pub key : Text
  pub endpoint : ℕ
  pub request_hash : ℕ
  pub state : KeyState
  pub resource_id : Option ℕ
  pub response_status : Option ℕ
  pub response_body : Option ℕ
  pub created_at : ℕ
  pub updated_at : ℕ

pub record Keys : Type 0 where
  pub rows : List IdempotencyKey
  pub now : ℕ

unfoldable pub eq_text : Text → Text → Bool
eq_text [] [] = true
eq_text (a ∷ s) (b ∷ t) = a == b && eq_text s t
eq_text _ _ = false

unfoldable pub is_for : Text → ℕ → IdempotencyKey → Bool
is_for key endpoint row = eq_text row.key key && row.endpoint == endpoint

abbrev pub max_key_length : ℕ
max_key_length = 255

-- _validate_key
unfoldable pub is_unusable : Text → Bool
is_unusable key = not (has_text (some (strip key))) || ltb max_key_length (length key)

pub data Start : Type 0 where
  started : (reclaimed : Bool) (resource_id : Option ℕ) → Start
  replayed : (status : ℕ) (body resource_id : Option ℕ) → Start

-- existing.response_status or 200
abbrev pub status_or_ok : Option ℕ → ℕ
status_or_ok none = 200
status_or_ok (some zero) = 200
status_or_ok (some (suc n)) = suc n

unfoldable pub new_key : Text → ℕ → ℕ → ℕ → IdempotencyKey
new_key key endpoint hash now = record {
  key = key;
  endpoint = endpoint;
  request_hash = hash;
  state = in_progress;
  resource_id = none;
  response_status = none;
  response_body = none;
  created_at = now;
  updated_at = now;
}

-- UPDATE ... WHERE key = key AND endpoint = endpoint
unfoldable pub update_key : Text → ℕ → (IdempotencyKey → IdempotencyKey) → Keys → Keys
update_key key endpoint change s = record s {
  rows = map (λ row. if is_for key endpoint row then change row else row) s.rows;
}

-- The UPDATE of the takeover reaches the row that was read, which the primary key makes the only
-- one, if its `updated_at` is far enough back.
unfoldable pub take_over : ℕ → Text → ℕ → IdempotencyKey → Exec Keys Start
take_over stale_after key endpoint existing s =
    if ltb (existing.updated_at + stale_after) s.now
    then (
      ok (started true existing.resource_id),
      update_key key endpoint (λ row. record row { updated_at = s.now }) s,
    )
    else (err request_in_flight, s)

-- A row of the same body, by its state.
unfoldable pub resume : KeyState → ℕ → Text → ℕ → IdempotencyKey → Exec Keys Start
resume completed stale_after key endpoint existing =
    pure
      (replayed (status_or_ok existing.response_status) existing.response_body existing.resource_id)
resume in_progress stale_after key endpoint existing = take_over stale_after key endpoint existing

unfoldable pub meet : ℕ → Text → ℕ → ℕ → Option IdempotencyKey → Exec Keys Start
unfolding resume take_over
meet stale_after key endpoint hash none s =
    (ok (started false none), record s { rows = s.rows ++ new_key key endpoint hash s.now ∷ [] })
meet stale_after key endpoint hash (some existing) s =
    if existing.request_hash == hash
    then resume existing.state stale_after key endpoint existing s
    else (err request_mismatch, s)

module _ (sha256 : Text → ℕ) where
  -- INSERT ... ON CONFLICT DO NOTHING, and what follows. A key that is taken has a row, so the loop
  -- ends in its first round; the further rounds are for a rival that rolled back in between.
  unfoldable pub begin : ℕ → Text → ℕ → Text → Exec Keys Start
  begin stale_after key endpoint body s =
      if is_unusable key
      then (err invalid_idempotency_key, s)
      else meet stale_after key endpoint (sha256 body) (find (is_for key endpoint) s.rows) s

unfoldable pub record_resource : Text → ℕ → ℕ → Exec Keys (Unit {0})
record_resource key endpoint resource s = (
  ok tt,
  update_key key endpoint (λ row. record row { resource_id = some resource; updated_at = s.now }) s,
)

-- if resource_id is not None: values["resource_id"] = resource_id
abbrev pub kept_unless : Option ℕ → Option ℕ → Option ℕ
kept_unless none old = old
kept_unless (some x) old = some x

unfoldable pub complete : Text → ℕ → ℕ → Option ℕ → Option ℕ → Exec Keys (Unit {0})
complete key endpoint status body resource s = (
  ok tt,
  update_key key endpoint
      (λ row. record row {
        state = completed;
        response_status = some status;
        response_body = body;
        resource_id = kept_unless resource row.resource_id;
        updated_at = s.now;
      })
      s,
)

-- How many rows are past their lifetime, and what is left of the table.
abbrev is_expired : ℕ → ℕ → IdempotencyKey → Bool
is_expired lifetime now row = ltb (row.created_at + lifetime) now

unfoldable pub purge_expired : ℕ → Exec Keys ℕ
purge_expired lifetime s = (
  ok (length (select (is_expired lifetime s.now) s.rows)),
  record s { rows = select (λ row. not (is_expired lifetime s.now row)) s.rows },
)
