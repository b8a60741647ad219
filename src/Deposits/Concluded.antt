-- ===== src/Deposits/Concluded.antt =====
-- What `apply_invoice_state` leaves of the deposit and of the tables when it returns.
use mathlib.Core.Option
use crypto_processing_api.Prelude.{
  ◌≡◌, refl, sym, ◌∙◌, ap, ℕ, Bool, true, false, ◌&&◌, not, some, List, find, find-map, find-true,
  map, ltb, Bool-cases, Option-cases, inl, inr, arith,
}
use crypto_processing_api.Errors.{Result, ok, integrity_error, other_constraint, out_of_range}
use crypto_processing_api.Exec.{pure, guard}
use crypto_processing_api.Exec.Keeps.{continue-eq-ok, guard-eq-ok}
use crypto_processing_api.Models.{DepositStatus}
use crypto_processing_api.Withdrawals.Rows.{Asset, Db, has_asset_id, truthy}
use crypto_processing_api.Deposits.Rows.{
  Deposit, DepositPayment, Invoice, InvoicePaymentMethod, Payment,
}
use crypto_processing_api.Deposits.Status.{
  Parsed, breaches_pooled_tolerance, eq_deposit_status, is_terminal, allowed_target,
}
use crypto_processing_api.Deposits.Invoices.{
  has_deposit_id, stored_deposit, save_deposit, get_deposit_asset, attached, attach_invoice,
  shares_invoice, is_some_deposit,
}
use crypto_processing_api.Deposits.Payments.{Progress}
use crypto_processing_api.Deposits.Apply.{
  ApplyArgs, attach_first, wanted_target, conclude, reviewed, moved_to,
}
use crypto_processing_api.Deposits.Results.{ApplyResult, emit_events, result_of}
use crypto_processing_api.Deposits.Graph.{Steps, moved_to-Steps}
use crypto_processing_api.Deposits.Attached.{attached-IsAttachedTo}
use crypto_processing_api.Deposits.Tables.{
  tables, payments_of, save_deposit-Preserves, emit_events-Preserves,
}
use crypto_processing_api.Deposits.Closed.{is_closed}

has_id-stored :
    (k : ℕ) (d row : Deposit) → has_deposit_id k (stored_deposit d row) ≡ has_deposit_id k row
unfolding stored_deposit
has_id-stored k d row = ground arith

-- A stored deposit is found by its id.
save_deposit-found :
    (k : ℕ) (d x : Deposit) (s : Db) {u : Unit {0}} {s' : Db}
    → d.id ≡ k
    → find (has_deposit_id k) s.deposits ≡ some x
    → save_deposit d s ≡ (ok u, s')
    → find (has_deposit_id k) s'.deposits ≡ some d
unfolding save_deposit
save_deposit-found k d x s {u} {s'} same found h =
    let (u₁, s₁, g₁, h₁) =
      continue-eq-ok
        (guard (is_some_deposit (find (shares_invoice d) s.deposits))
          (integrity_error other_constraint) s)
        _ h in
    let (u₂, s₂, g₂, h₂) =
      continue-eq-ok (guard (ltb 9223372036854775807 d.amount_credited) out_of_range s₁) _ h₁ in
    let start_same : s ≡ s₂ = (guard-eq-ok _ _ s g₁).1 ∙ (guard-eq-ok _ _ s₁ g₂).1 in
    let left : s'.deposits ≡ map (stored_deposit d) s.deposits =
      ap (λ (r : Result (Unit {0}) × Db). r.1.deposits) (sym h₂)
      ∙ ap (λ (t : Db). map (stored_deposit d) t.deposits) (sym start_same) in
    let id : has_deposit_id k x ≡ true = find-true (has_deposit_id k) s.deposits found in
    let hit : stored_deposit d x ≡ d = unfold stored_deposit in ground (arith, same, id) in
    ap (find (has_deposit_id k)) left
    ∙ find-map (has_deposit_id k) (stored_deposit d) (has_id-stored k d) s.deposits
    ∙ ap (Option.map (stored_deposit d)) found
    ∙ ap some hit

pub attach_first-found :
    (k : ℕ) (d : Deposit) (i : Invoice) (ms : List InvoicePaymentMethod) (a : Asset) (s : Db)
    {d₁ : Deposit} {s₁ : Db}
    → d.id ≡ k
    → find (has_deposit_id k) s.deposits ≡ some d
    → attach_first d i ms a s ≡ (ok d₁, s₁)
    → find (has_deposit_id k) s₁.deposits ≡ some d₁
unfolding attach_first attach_invoice
attach_first-found k d i ms a s {d₁} {s₁} same found h =
    elim (Bool-cases (truthy d.btcpay_invoice_id)) [
      | inl has ↦
          let stays : (ok d, s) ≡ (ok d₁, s₁) = rw has at h in
          let d_is : d ≡ d₁ = cc in
          let s_is : s ≡ s₁ = ap (λ (r : Result Deposit × Db). r.1) stays in
          ap (λ (t : Db). find (has_deposit_id k) t.deposits) (sym s_is) ∙ found ∙ ap some d_is
      | inr none_yet ↦
          let (u, s₂, saved, rest) =
            continue-eq-ok (save_deposit (attached d i ms a s.now) s)
              (λ _. pure (attached d i ms a s.now)) (rw none_yet at h) in
          let d_is : attached d i ms a s.now ≡ d₁ = cc in
          let s_is : s₂ ≡ s₁ = ap (λ (r : Result Deposit × Db). r.1) rest in
          ap (λ (t : Db). find (has_deposit_id k) t.deposits) (sym s_is)
          ∙ save_deposit-found k (attached d i ms a s.now) d s
              ((attached-IsAttachedTo d i ms a s.now).id ∙ same) found saved
          ∙ ap some d_is
    ]

pub get_deposit_asset-eq-ok :
    (k : ℕ) (s : Db) {a : Asset} {s' : Db}
    → get_deposit_asset k false s ≡ (ok a, s')
    → (find (has_asset_id k) s.assets ≡ some a) × (s ≡ s')
unfolding get_deposit_asset
get_deposit_asset-eq-ok k s {a} {s'} h = elim (Option-cases (find (has_asset_id k) s.assets)) [
  | inl missing ↦ absurd (cc (rw missing at h))
  | inr (a', found) ↦
      let stays : (ok a', s) ≡ (ok a, s') = rw found at h in
      let same : a' ≡ a = cc in (found ∙ ap some same, ap (λ (r : Result Asset × Db). r.1) stays)
]

allowed_target-closed : (u t : DepositStatus) → is_closed u ≡ true → allowed_target u t ≡ false
unfolding allowed_target eq_deposit_status is_terminal
allowed_target-closed DepositStatus.review t h = refl
allowed_target-closed DepositStatus.dismissed t h = refl
allowed_target-closed DepositStatus.failed t h = refl
allowed_target-closed DepositStatus.creating t h = absurd (cc)
allowed_target-closed DepositStatus.pending t h = absurd (cc)
allowed_target-closed DepositStatus.confirming t h = absurd (cc)
allowed_target-closed DepositStatus.settled t h = absurd (cc)
allowed_target-closed DepositStatus.expired t h = absurd (cc)

-- A closed deposit does not move.
moved_to-closed :
    (t : DepositStatus) (d : Deposit) → is_closed d.status ≡ true → (moved_to t d).status ≡ d.status
unfolding moved_to
moved_to-closed t d h =
    let barred = allowed_target-closed d.status t h in
    elim (Bool-cases (not (eq_deposit_status t d.status))) [
      | inl other ↦ rw (other, barred) refl
      | inr same ↦ rw same refl
    ]

pub wanted_target-same :
    (args : ApplyArgs) (d d' : Deposit) (a : Asset) (ps : List Payment) (read : Bool × List Parsed)
    → d'.amount_expected ≡ d.amount_expected
    → wanted_target args d' a ps read ≡ wanted_target args d a ps read
unfolding wanted_target breaches_pooled_tolerance
wanted_target-same args d d' a ps read same = rw same refl

-- What the last part leaves: the deposit as it was stored, and the other tables as they were.
pub record IsConcluded (p : Progress) (s s' : Db) : Type 0 where
  pub last : Deposit
  pub id : last.id ≡ p.deposit.id
  pub asset_id : last.asset_id ≡ p.deposit.asset_id
  pub amount_expected : last.amount_expected ≡ p.deposit.amount_expected
  pub steps : Steps p.deposit.status last.status
  pub closed : is_closed p.deposit.status ≡ true → is_closed last.status ≡ true
  pub stored :
      (k : ℕ) (x : Deposit)
      → last.id ≡ k
      → find (has_deposit_id k) s.deposits ≡ some x
      → find (has_deposit_id k) s'.deposits ≡ some last
  pub assets : s'.assets ≡ s.assets
  pub payments : s'.deposit_payments ≡ s.deposit_payments

moved_to-keeps :
    (t : DepositStatus) (d : Deposit)
    → ((moved_to t d).id ≡ d.id)
      × ((moved_to t d).asset_id ≡ d.asset_id)
      × ((moved_to t d).amount_expected ≡ d.amount_expected)
unfolding moved_to
moved_to-keeps t d =
    elim (Bool-cases (not (eq_deposit_status t d.status) && allowed_target d.status t)) [
      | inl moves ↦ rw moves (refl, refl, refl)
      | inr stays ↦ rw stays (refl, refl, refl)
    ]

pub conclude-IsConcluded :
    (previous target : DepositStatus) (a : Asset) (p : Progress) (s : Db) {r : ApplyResult}
    {s' : Db}
    → conclude previous target a p s ≡ (ok r, s')
    → IsConcluded p s s'
unfolding conclude
conclude-IsConcluded previous target a p s {r} {s'} h =
    let t = reviewed target p.deposit s.deposit_payments in
    let d : Deposit = record (moved_to t p.deposit) { updated_at = s.now } in
    let (u, s₁, saved, rest) = continue-eq-ok (save_deposit d s) _ h in
    let (u', s₂, emitted, rest') =
      continue-eq-ok (emit_events d a (result_of previous (record p { deposit = d })) s₁) _ rest in
    let (same_id, same_asset, same_amount) = moved_to-keeps t p.deposit in
    let view : tables s' ≡ tables s₁ =
      ap (λ (q : Result ApplyResult × Db). tables q.1) (sym rest')
      ∙ ap (λ (q : Result (Unit {0}) × Db). tables q.1) (sym emitted)
      ∙ (emit_events-Preserves d a (result_of previous (record p { deposit = d }))).at s₁ in
    let kept : payments_of s₁ ≡ payments_of s =
      ap (λ (q : Result (Unit {0}) × Db). payments_of q.1) (sym saved)
      ∙ (save_deposit-Preserves d).at s in
    record {
      last = d;
      id = same_id;
      asset_id = same_asset;
      amount_expected = same_amount;
      steps = moved_to-Steps t p.deposit;
      closed = λ c. rw (moved_to-closed t p.deposit c) c;
      stored = λ k x e found.
          ap
            (λ (v : List Asset × (List Deposit × List DepositPayment)).
              find (has_deposit_id k) v.1.0)
            view
          ∙ save_deposit-found k d x s e found saved;
      assets =
          ap (λ (v : List Asset × (List Deposit × List DepositPayment)). v.0) view
          ∙ ap (λ (v : List Asset × List DepositPayment). v.0) kept;
      payments =
          ap (λ (v : List Asset × (List Deposit × List DepositPayment)). v.1.1) view
          ∙ ap (λ (v : List Asset × List DepositPayment). v.1) kept;
    }
