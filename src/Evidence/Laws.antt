-- ===== src/Evidence/Laws.antt =====
-- What a matching summary says of the evidence.
use machina_sol.Prelude.{
  ◌≡◌, refl, String, Bool, true, false, nat_eq, some, List, [], ◌∷◌, map, all, any, find, filter,
  length, length-filter-le, ◌==◌, eq_iff, if◌then◌else◌, Option-cases, arith, inl, inr,
}
use machina_sol.Evidence.{
  ReceiptEvidenceField, ReceiptExpectation, FieldEvidenceSummary, CoverageLabel,
  is_unavailable_source, not_refuted, expected_receipt_field_names, canonical_field_name,
  field_summary, is_satisfied, summarize_receipt_expectation_evidence,
  receipt_evidence_coverage_ratio, receipt_evidence_coverage_label, label_of,
}

satisfied_of_all :
    (name : String) (names : List String) (fields : List ReceiptEvidenceField)
    → all is_satisfied (map (λ n. field_summary n fields) names) ≡ true
    → any (λ n. n == name) names ≡ true
    → is_satisfied (field_summary name fields) ≡ true
unfolding all any
satisfied_of_all name [] fields h e = absurd (ground arith)
satisfied_of_all name (n ∷ names) fields h e =
    ground (arith, eq_iff n name, satisfied_of_all name names fields)

-- Where a summary matches, the first evidence for every field that the expectation names is
-- available and does not refute it.
pub summary-evidence :
    (expectation : ReceiptExpectation) (fields : List ReceiptEvidenceField) (name : String)
    → (summarize_receipt_expectation_evidence expectation fields).matched ≡ true
    → any (λ n. n == name) (expected_receipt_field_names expectation) ≡ true
    → (e : ReceiptEvidenceField) × (find (λ f. canonical_field_name f.field == name) fields
        ≡ some e)
      × (is_unavailable_source e.source ≡ false)
      × (not_refuted e.matched ≡ true)
unfolding summarize_receipt_expectation_evidence field_summary
summary-evidence expectation fields name h e =
    elim (Option-cases (find (λ f. canonical_field_name f.field == name) fields)) [
      | inl nothing ↦
          absurd (
            ground (arith, satisfied_of_all name (expected_receipt_field_names expectation) fields))
      | inr (v, found) ↦ (
        v,
        found,
        ground (arith, satisfied_of_all name (expected_receipt_field_names expectation) fields),
        ground (arith, satisfied_of_all name (expected_receipt_field_names expectation) fields),
      )
    ]

abbrev pub is_complete : CoverageLabel → Bool
is_complete CoverageLabel.complete = true
is_complete _ = false

filter-all :
    {A : Type 0} (p : A → Bool) (xs : List A) → nat_eq (length (filter p xs)) (length xs) ≡ all p xs
unfolding filter all
filter-all p [] = refl
filter-all p (x ∷ xs) = ground (arith, filter-all p xs, length-filter-le p xs)

-- The coverage is complete exactly when the summary matches.
pub summary-is_complete :
    (expectation : ReceiptExpectation) (fields : List ReceiptEvidenceField)
    → (let summary = summarize_receipt_expectation_evidence expectation fields in
        is_complete (receipt_evidence_coverage_label summary) ≡ summary.matched)
unfolding summarize_receipt_expectation_evidence receipt_evidence_coverage_label
    receipt_evidence_coverage_ratio label_of
summary-is_complete expectation fields = complete_at _
  where
    complete_at :
        (xs : List FieldEvidenceSummary)
        → is_complete (
            label_of (
              if nat_eq (length xs) 0
              then (1, 1)
              else (length (filter is_satisfied xs), length xs)))
          ≡ all is_satisfied xs
    complete_at [] = unfold all in refl
    complete_at (x ∷ xs) = ground (arith, filter-all is_satisfied (x ∷ xs))
