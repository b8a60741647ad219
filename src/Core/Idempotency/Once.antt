-- ===== src/Core/Idempotency/Once.antt =====
-- A key lets its request run once.
use crypto_processing_api.Prelude.{
  ℕ, ◌+◌, ltb, ◌≡◌, ◌≢◌, refl, Bool, true, false, Bool-cases, inl, inr, Option, some, find, ◌==◌,
  ==_self, arith,
}
use crypto_processing_api.Errors.{ok, err, request_mismatch, request_in_flight}
use crypto_processing_api.Core.Text.{Text}
use crypto_processing_api.Core.Idempotency.{
  completed, Keys, is_for, is_unusable, started, replayed, status_or_ok, take_over, resume, meet,
  begin, complete, kept_unless, record_resource, update_key,
}
use crypto_processing_api.Core.Idempotency.Owned.{update_key-find, Owned, met}

-- The table after the request has recorded its resource at one time, at another.
abbrev pub recorded_at : Text → ℕ → Keys → ℕ → ℕ → ℕ → Keys
recorded_at key endpoint s mid resource later =
    record (record_resource key endpoint resource (record s { now = mid })).1 { now = later }

module _ (sha256 : Text → ℕ) (stale : ℕ) (key : Text) (endpoint : ℕ) (body : Text) (s s' : Keys)
    (b : Bool) (r : Option ℕ)
    (own : begin sha256 stale key endpoint body s ≡ (ok (started b r), s')) where
  begin-Owned : Owned (sha256 body) key endpoint r s'
  unfolding begin
  begin-Owned = elim (Bool-cases (is_unusable key)) [
    | inl unusable ↦ absurd (cc (rw unusable at own))
    | inr usable ↦
        met stale key endpoint (sha256 body) s (find (is_for key endpoint) s.rows) usable refl
          (rw usable at own)
  ]

  -- After a request was given the key, and until the staleness window has passed, the same request is
  -- told that the first one is running, and changes nothing.
  pub begin_once :
      (later : ℕ)
      → ltb (s'.now + stale) later ≡ false
      → begin sha256 stale key endpoint body (record s' { now = later })
        ≡ (err request_in_flight, record s' { now = later })
  unfolding begin meet resume take_over
  begin_once later soon =
      let o = begin-Owned in
      let hashed : (o.row.request_hash == sha256 body) ≡ true =
        rw o.same_hash (==_self (sha256 body)) in
      let early : ltb (o.row.updated_at + stale) later ≡ false = rw o.fresh soon in
      rw (o.usable, o.there, hashed, o.running, early) refl

  -- A request with the key of another one, with a body of another hash, is refused and changes nothing.
  begin_mismatch :
      (other : Text)
      → sha256 body ≢ sha256 other
      → begin sha256 stale key endpoint other s' ≡ (err request_mismatch, s')
  unfolding begin meet
  begin_mismatch other differ =
      let o = begin-Owned in
      let foreign : (o.row.request_hash == sha256 other) ≡ false = rw o.same_hash (ground arith) in
      rw (o.usable, o.there, foreign) refl

  -- Once the request is complete, the same request is answered with the stored response and changes
  -- nothing, at any later time, whether or not the staleness window has passed; a stored status of 0
  -- reads as 200.
  pub begin_replayed :
      (finish later status : ℕ) (answer resource : Option ℕ)
      → begin sha256 stale key endpoint body
          (record (complete key endpoint status answer resource (record s' { now = finish })).1 {
            now = later;
          })
        ≡ (
          ok (replayed (status_or_ok (some status)) answer (kept_unless resource r)),
          record (complete key endpoint status answer resource (record s' { now = finish })).1 {
            now = later;
          },
        )
  unfolding begin meet resume complete is_for
  begin_replayed finish later status answer resource =
      let o = begin-Owned in
      let hashed : (o.row.request_hash == sha256 body) ≡ true =
        rw o.same_hash (==_self (sha256 body)) in
      rw
        (
          o.usable,
          update_key-find key endpoint
              (λ row. record row {
                state = completed;
                response_status = some status;
                response_body = answer;
                resource_id = kept_unless resource row.resource_id;
                updated_at = finish;
              })
              (λ row. refl) (record s' { now = finish }) o.there,
          hashed,
          o.resource_of,
        )
        refl

  begin_taken :
      (mid resource later : ℕ)
      → ltb (mid + stale) later ≡ true
      → begin sha256 stale key endpoint body (recorded_at key endpoint s' mid resource later) ≡ (
        ok (started true (some resource)),
        update_key key endpoint
            (λ row. record row { updated_at = later })
            (recorded_at key endpoint s' mid resource later),
      )
  unfolding begin meet resume take_over record_resource is_for
  begin_taken mid resource later passed =
      let o = begin-Owned in
      let hashed : (o.row.request_hash == sha256 body) ≡ true =
        rw o.same_hash (==_self (sha256 body)) in
      rw
        (
          o.usable,
          update_key-find key endpoint
              (λ row. record row { resource_id = some resource; updated_at = mid }) (λ row. refl)
              (record s' { now = mid }) o.there,
          hashed,
          o.running,
          passed,
        )
        refl

module _ (sha256 : Text → ℕ) (stale : ℕ) (key : Text) (endpoint : ℕ) (body : Text) (s s' : Keys)
    (b : Bool) (r : Option ℕ)
    (own : begin sha256 stale key endpoint body s ≡ (ok (started b r), s')) where
  -- A request that was given the key has recorded a resource and has not completed. Once the
  -- staleness window after that record has passed, the same request takes the key over and is given that
  -- resource; and until the window after the takeover has passed, a further one is told that it is
  -- running, and changes nothing.
  pub begin_reclaimed :
      (mid resource later again : ℕ)
      → ltb (mid + stale) later ≡ true
      → ltb (later + stale) again ≡ false
      → (t : Keys) × (begin sha256 stale key endpoint body
            (recorded_at key endpoint s' mid resource later)
          ≡ (ok (started true (some resource)), t))
        × (begin sha256 stale key endpoint body (record t { now = again })
            ≡ (err request_in_flight, record t { now = again }))
  unfolding update_key
  begin_reclaimed mid resource later again passed soon =
      let table = recorded_at key endpoint s' mid resource later in
      let taken =
        begin_taken sha256 stale key endpoint body s s' b r own mid resource later passed in
      (
        update_key key endpoint (λ row. record row { updated_at = later }) table,
        taken,
        begin_once sha256 stale key endpoint body table
            (update_key key endpoint (λ row. record row { updated_at = later }) table) true
            (some resource) taken again soon,
      )
