-- ===== src/Ledger/Consistency/Sources.antt =====
-- No two entries are posted for one source.
use crypto_processing_api.Prelude.{
  ◌≡◌, refl, sym, ◌∙◌, true, none, List, [], ◌∷◌, ◌++◌, All, All-append, find, select, Bool-cases,
  inl, inr, arith,
}
use crypto_processing_api.Models.{
  EntryKind, SourceRef, JournalEntry, eq_entry_kind, eq_entry_kind_self, eq_source_ref_self,
  eq_source_ref→eq,
}
use crypto_processing_api.Ledger.Store.{has_source}
use crypto_processing_api.Ledger.Consistency.{DiffersFrom, HasUniqueSources}

has_source_self : (e : JournalEntry) → has_source e.kind e.source_ref e ≡ true
unfolding has_source
has_source_self e = rw (eq_entry_kind_self e.kind, eq_source_ref_self e.source_ref) refl

eq_entry_kind→eq : (k j : EntryKind) → eq_entry_kind k j ≡ true → k ≡ j
unfolding eq_entry_kind
eq_entry_kind→eq k j h = ground arith

has_source→eq :
    (kind : EntryKind) (ref : SourceRef) (e : JournalEntry)
    → has_source kind ref e ≡ true
    → (e.kind ≡ kind) × (e.source_ref ≡ ref)
unfolding has_source
has_source→eq kind ref e h = elim (Bool-cases (eq_entry_kind e.kind kind)) [
  | inl same ↦
      (eq_entry_kind→eq e.kind kind same, eq_source_ref→eq e.source_ref ref (cc (rw same at h)))
  | inr other ↦ absurd (cc (rw other at h))
]

-- A source that was not found is posted.
pub HasUniqueSources-append :
    (es : List JournalEntry) (new : JournalEntry)
    → HasUniqueSources es
    → find (has_source new.kind new.source_ref) es ≡ none
    → HasUniqueSources (es ++ new ∷ [])
HasUniqueSources-append [] new h fresh = (tt, tt)
HasUniqueSources-append (e ∷ es) new h fresh =
    elim (Bool-cases (has_source new.kind new.source_ref e)) [
      | inl taken ↦ absurd (cc (rw taken at fresh))
      | inr free ↦ (
        All-append (DiffersFrom e) es (new ∷ []) h.0
            (λ same. absurd (cc (has_source_self e, rw (same.0, same.1) at free)), tt),
        HasUniqueSources-append es new h.1 (rw free at fresh),
      )
    ]

select-DiffersFrom :
    (kind : EntryKind) (ref : SourceRef) (e : JournalEntry) (es : List JournalEntry)
    → e.kind ≡ kind
    → e.source_ref ≡ ref
    → All (DiffersFrom e) es
    → select (has_source kind ref) es ≡ []
select-DiffersFrom kind ref e [] k r h = refl
select-DiffersFrom kind ref e (f ∷ es) k r h = elim (Bool-cases (has_source kind ref f)) [
  | inl hit ↦ let (k', r') = has_source→eq kind ref f hit in absurd (h.0 (k' ∙ sym k, r' ∙ sym r))
  | inr miss ↦ rw miss (select-DiffersFrom kind ref e es k r h.1)
]
