-- ===== src/Tests/KeyTests.antt =====
-- Idempotency keys, with the length of a body for its hash.
use crypto_processing_api.Prelude.{◌≡◌, refl, true, false, none, some, [], ◌∷◌, length}
use crypto_processing_api.Errors.{ok, err, request_in_flight}
use crypto_processing_api.Core.Text.{Text, codes, strip, lstrip, rstrip, is_space}
use crypto_processing_api.Core.Idempotency.{
  Keys, started, replayed, is_unusable, new_key, take_over, resume, meet, begin, complete,
}
use crypto_processing_api.Core.Idempotency.Once.{
  begin_once, begin_reclaimed, begin_replayed, recorded_at,
}

abbrev key : Text
key = codes "k1"

abbrev body : Text
body = codes "{}"

abbrev table : Keys
table = record { rows = []; now = 5 }

abbrev claimed : Keys
claimed = record { rows = new_key key 3 2 5 ∷ []; now = 5 }

first : begin length 60 key 3 body table ≡ (ok (started false none), claimed)
unfolding begin meet resume take_over is_unusable strip lstrip rstrip is_space new_key
first = refl

begin_once_example :
    begin length 60 key 3 body (record claimed { now = 65 })
    ≡ (err request_in_flight, record claimed { now = 65 })
begin_once_example = begin_once length 60 key 3 body table claimed false none first 65 refl

begin_reclaimed_example :
    (t : Keys) × (begin length 60 key 3 body (recorded_at key 3 claimed 10 4 71)
      ≡ (ok (started true (some 4)), t))
    × (begin length 60 key 3 body (record t { now = 131 })
        ≡ (err request_in_flight, record t { now = 131 }))
begin_reclaimed_example =
    begin_reclaimed length 60 key 3 body table claimed false none first 10 4 71 131 refl refl

-- The response is replayed long after the staleness window.
begin_replayed_example :
    begin length 60 key 3 body
      (record (complete key 3 201 (some 9) (some 4) (record claimed { now = 20 })).1 { now = 900 })
    ≡ (
      ok (replayed 201 (some 9) (some 4)),
      record (complete key 3 201 (some 9) (some 4) (record claimed { now = 20 })).1 { now = 900 },
    )
begin_replayed_example =
    begin_replayed length 60 key 3 body table claimed false none first 20 900 201 (some 9) (some 4)
