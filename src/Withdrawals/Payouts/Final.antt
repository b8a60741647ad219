-- ===== src/Withdrawals/Payouts/Final.antt =====
-- What a payout report can do to the stored status of a withdrawal.
use mathlib.Core.Option
use crypto_processing_api.Prelude.{
  ℕ, ◌≡◌, refl, sym, ◌∙◌, ap, subst, ℤ, Bool, true, false, ◌&&◌, not, Option, none, some, find,
  find-map, find-true, ◌==◌, ==_iff, Option-cases, Bool-cases, inl, inr,
}
use crypto_processing_api.Errors.{withdrawal_error}
use crypto_processing_api.Exec.{Exec, ◌>>=◌, ◌>>◌, gets, lift, guard, modify}
use crypto_processing_api.Exec.Keeps.{
  Keeps, Keeps-bind, Keeps-then, Keeps-if, Keeps-pure, Keeps-gets, Keeps-guard, Keeps-lift,
  Keeps-bind_returned, keeps_rules, Returns, Returns-pure, Returns-bind, Returns-then, Returns-if,
}
use crypto_processing_api.Models.{Status, broadcast, confirmed, failed}
use crypto_processing_api.Core.Text.{Text}
use crypto_processing_api.Ledger.Store.{Ledger}
use crypto_processing_api.Withdrawals.Rows.{
  truthy, Withdrawal, Asset, Db, EventType, save, stored, has_withdrawal_id, on_ledger, get_asset,
  emit, lock,
}
use crypto_processing_api.Withdrawals.Transitions.{eq_status, allowed, advance, transition}
use crypto_processing_api.Withdrawals.Entries.{post_settle_entry}
use crypto_processing_api.Withdrawals.Payouts.{
  BackendPayout, is_other, same_text, payout_target, take_txid, settle_first, report_as, report,
  follow, apply_payout_state,
}

-- `P` is a set of statuses that no edge of the graph leaves.
module _ (P : Status → Bool)
    (closed : (s t : Status) → P s ≡ true → allowed s t ≡ true → P t ≡ true) (k : ℕ) where
  -- The stored row of the withdrawal has a status in the set.
  abbrev pub Stands : Db → Type 0
  Stands s =
      (w : Withdrawal) × (find (has_withdrawal_id k) s.withdrawals ≡ some w) × (P w.status ≡ true)

  -- A row that may be saved: if it is of the withdrawal, its status is in the set.
  Fits : Withdrawal → Type 0
  Fits v = (v.id == k) ≡ true → P v.status ≡ true

  stored-same : (v w : Withdrawal) → ((stored v w).id == k) ≡ (w.id == k)
  unfolding stored
  stored-same v w = elim (Bool-cases (w.id == v.id)) [
    | inl same ↦ rw same (ap (λ i. i == k) (sym ((==_iff w.id v.id).0 same)))
    | inr other ↦ rw other refl
  ]

  stored-status :
      (v w : Withdrawal)
      → Fits v
      → (w.id == k) ≡ true
      → P w.status ≡ true
      → P (stored v w).status ≡ true
  unfolding stored Fits
  stored-status v w fits own p = elim (Bool-cases (w.id == v.id)) [
    | inl same ↦ rw same (fits (ap (λ i. i == k) (sym ((==_iff w.id v.id).0 same)) ∙ own))
    | inr other ↦ rw other p
  ]

  save-Stands : (v : Withdrawal) → Fits v → Keeps Stands (save v)
  unfolding save Fits
  save-Stands v fits = record {
    at = λ s (w, h, p). (
      stored v w,
      find-map (has_withdrawal_id k) (stored v) (stored-same v) s.withdrawals
          ∙ ap (Option.map (stored v)) h,
      stored-status v w fits (find-true (has_withdrawal_id k) s.withdrawals h) p,
    );
  }

  save-Fits : (v : Withdrawal) → Fits v → Returns Fits (save v)
  unfolding save
  save-Fits v fits = record { at = λ s {a = x} h. let same : v ≡ x = cc in subst Fits same fits }

  on_ledger-Stands : {A : Type 0} (m : Exec Ledger A) → Keeps Stands (on_ledger m)
  on_ledger-Stands m = record { at = λ s h. h }

  modify-Stands :
      (f : Db → Db) (same : (s : Db) → (f s).withdrawals ≡ s.withdrawals) → Keeps Stands (modify f)
  modify-Stands f same = record {
    at = λ s (w, h, p). (w, ap (find (has_withdrawal_id k)) (same s) ∙ h, p);
  }

  emit-Stands :
      (t : EventType) (w : Withdrawal) (a : Asset) (r : Option Text) → Keeps Stands (emit t w a r)
  unfolding emit
  emit-Stands t w a r = Keeps-bind _ _ (search keeps_rules) λ payload. modify-Stands _ (λ s. refl)

  get_asset-Stands : (j : ℕ) (b : Bool) → Keeps Stands (get_asset j b)
  unfolding get_asset
  get_asset-Stands j b = search keeps_rules depth 10

  ruleset stands_rules = (keeps_rules, on_ledger-Stands, emit-Stands, get_asset-Stands)

  take_txid-Stands : (w : Withdrawal) (p : BackendPayout) → Fits w → Keeps Stands (take_txid w p)
  unfolding take_txid Fits
  take_txid-Stands w p fits =
      let saved = save-Stands (record w { txid = p.txid }) fits in
      search (stands_rules, Keeps-if) depth 10

  take_txid-Fits : (w : Withdrawal) (p : BackendPayout) → Fits w → Returns Fits (take_txid w p)
  unfolding take_txid Fits
  take_txid-Fits w p fits =
      let saved = save-Fits (record w { txid = p.txid }) fits in
      search (Returns-bind, Returns-then, Returns-if, Returns-pure) depth 10

  settled_save-Stands :
      (w : Withdrawal) (e : ℕ)
      → Fits w
      → Keeps Stands (save (record w { settle_entry_id = some e }))
  unfolding Fits
  settled_save-Stands w e fits = save-Stands (record w { settle_entry_id = some e }) fits

  settled_save-Fits :
      (w : Withdrawal) (e : ℕ)
      → Fits w
      → Returns Fits (save (record w { settle_entry_id = some e }))
  unfolding Fits
  settled_save-Fits w e fits = save-Fits (record w { settle_entry_id = some e }) fits

  post_settle_entry-Stands :
      (w : Withdrawal) (fee : Option ℤ) → Fits w → Keeps Stands (post_settle_entry w fee)
  unfolding post_settle_entry
  post_settle_entry-Stands w fee fits = search (stands_rules, settled_save-Stands) depth 24

  post_settle_entry-Fits :
      (w : Withdrawal) (fee : Option ℤ) → Fits w → Returns Fits (post_settle_entry w fee)
  unfolding post_settle_entry
  post_settle_entry-Fits w fee fits =
      search (Returns-bind, Returns-then, settled_save-Fits) depth 24

  settle_first-Stands :
      (t : Status) (w : Withdrawal) (fee : Option ℤ) → Fits w → Keeps Stands (settle_first t w fee)
  unfolding settle_first
  settle_first-Stands t w fee fits =
      Keeps-if _ _ _ (post_settle_entry-Stands w fee fits) (Keeps-pure w)

  settle_first-Fits :
      (t : Status) (w : Withdrawal) (fee : Option ℤ) → Fits w → Returns Fits (settle_first t w fee)
  unfolding settle_first
  settle_first-Fits t w fee fits =
      Returns-if _ _ _ (post_settle_entry-Fits w fee fits) (Returns-pure w fits)

  -- A step along the graph, or none.
  advance-Fits :
      (w : Withdrawal) (target : Status) (now : ℕ)
      → Fits w
      → Returns {S = Db} (λ (step : Bool × Withdrawal). Fits step.1) (lift (advance w target now))
  unfolding advance transition Fits
  advance-Fits w target now fits = elim (Bool-cases (eq_status target w.status)) [
    | inl same ↦ rw same (Returns-pure (false, w) fits)
    | inr other ↦ elim (Bool-cases (allowed w.status target)) [
      | inl edge ↦
          rw (other, edge)
            (Returns-pure (true, record w { status = target; updated_at = now })
              (λ own. closed w.status target (fits own) edge))
      | inr no_edge ↦ rw (other, no_edge) (Returns-pure (false, w) fits)
    ]
  ]

  explained-Stands :
      (w : Withdrawal) (why : Option Text)
      → Fits w
      → Keeps Stands (save (record w { failure_reason = why }))
  unfolding Fits
  explained-Stands w why fits = save-Stands (record w { failure_reason = why }) fits

  report_as-Stands :
      (t : Status) (w : Withdrawal) (a : Asset) → Fits w → Keeps Stands (report_as t w a)
  unfolding report_as
  report_as-Stands broadcast w a fits = search stands_rules depth 10
  report_as-Stands confirmed w a fits = search stands_rules depth 10
  report_as-Stands failed w a fits = search (stands_rules, explained-Stands) depth 10
  report_as-Stands _ w a fits = Keeps-pure w

  report-Stands : (b : Bool) (w : Withdrawal) (a : Asset) → Fits w → Keeps Stands (report b w a)
  unfolding report
  report-Stands true w a fits = report_as-Stands w.status w a fits
  report-Stands false w a fits = Keeps-pure w

  touched_save : (w : Withdrawal) (now : ℕ) → Fits w → Fits (record w { updated_at = now })
  unfolding Fits
  touched_save w now fits = fits

  follow-Stands :
      (t : Option Status) (w : Withdrawal) (a : Asset) (fee : Option ℤ)
      → Fits w
      → Keeps Stands (follow t w a fee)
  unfolding follow
  follow-Stands none w a fee fits = Keeps-pure w
  follow-Stands (some t) w a fee fits =
      Keeps-bind_returned Fits (settle_first t w fee) _ (settle_first-Stands t w fee fits)
        (settle_first-Fits t w fee fits)
        λ settled own. Keeps-bind (gets (λ s. s.now)) _ (Keeps-gets (λ s. s.now)) λ now.
          Keeps-bind_returned (λ (step : Bool × Withdrawal). Fits step.1)
            (lift (advance settled t now)) _ (Keeps-lift (advance settled t now))
            (advance-Fits settled t now own)
            λ step moved.
              Keeps-bind_returned Fits (save (record step.1 { updated_at = now })) _
                (save-Stands (record step.1 { updated_at = now }) (touched_save step.1 now moved))
                (save-Fits (record step.1 { updated_at = now }) (touched_save step.1 now moved))
                λ kept last. report-Stands step.0 kept a last

  -- A row that is locked is the one that is stored.
  locked-Fits :
      (j : ℕ) (s : Db) (w : Withdrawal)
      → Stands s
      → find (has_withdrawal_id j) s.withdrawals ≡ some w
      → Fits w
  unfolding Fits
  locked-Fits j s w (v, there, p) h own =
      let at_j = (==_iff w.id j).0 (find-true (has_withdrawal_id j) s.withdrawals h) in
      let at_k = (==_iff w.id k).0 own in
      let again : find (has_withdrawal_id k) s.withdrawals ≡ some w =
        ap (λ i. find (has_withdrawal_id i) s.withdrawals) (sym at_k ∙ at_j) ∙ h in
      let same : v ≡ w = cc (sym there ∙ again) in
      ap (λ (x : Withdrawal). P x.status) (sym same) ∙ p

  after_lock : BackendPayout → Option ℤ → Withdrawal → Exec Db Withdrawal
  after_lock payout actual w = do
    asset ← get_asset w.asset_id false
    guard (is_other payout.withdrawal_id w.id) withdrawal_error
    guard (truthy w.backend_ref && not (same_text w.backend_ref (some payout.id))) withdrawal_error
    known ← take_txid w payout
    follow (payout_target payout.state) known asset actual

  after_lock-Stands :
      (payout : BackendPayout) (actual : Option ℤ) (w : Withdrawal)
      → Fits w
      → Keeps Stands (after_lock payout actual w)
  unfolding after_lock
  after_lock-Stands payout actual w fits =
      let other : Withdrawal → Bool = λ v. is_other payout.withdrawal_id v.id in
      let foreign : Withdrawal → Bool =
        λ v. truthy v.backend_ref && not (same_text v.backend_ref (some payout.id)) in
      Keeps-bind (get_asset w.asset_id false) _ (get_asset-Stands w.asset_id false) λ asset.
        Keeps-then (guard (other w) withdrawal_error) _ (Keeps-guard (other w) withdrawal_error) (
          Keeps-then (guard (foreign w) withdrawal_error) _
            (Keeps-guard (foreign w) withdrawal_error)
            (Keeps-bind_returned Fits (take_txid w payout) _ (take_txid-Stands w payout fits)
              (take_txid-Fits w payout fits)
              λ known own. follow-Stands (payout_target payout.state) known asset actual own))

  -- A payout report for any withdrawal leaves the stored status in the set.
  pub apply_payout_state-Stands :
      (j : ℕ) (payout : BackendPayout) (fee : Option ℤ)
      → Keeps Stands (apply_payout_state j payout fee)
  unfolding apply_payout_state lock after_lock
  apply_payout_state-Stands j payout fee = record {
    at = λ s h. elim (Option-cases (find (has_withdrawal_id j) s.withdrawals)) [
      | inl missing ↦ rw missing h
      | inr (w, found) ↦
          rw found ((after_lock-Stands payout fee w (locked-Fits j s w h found)).at s h)
    ];
  }
