-- ===== src/Evidence.antt =====
-- The evidence for what a receipt is expected to show (src/adapters/shared/evidence.ts,
-- expectation-summary.ts and finality.ts). Names of fields are the code's strings.
pub mod Laws
use machina_sol.Prelude.{
  ℕ, String, Bool, true, false, not, ◌||◌, ◌&&◌, nat_eq, leb, Option, none, some, List, [], ◌∷◌,
  ◌++◌, map, all, find, filter, length, ◌==◌, if◌then◌else◌,
}

pub data EvidenceSource : Type 0 where
  native_receipt transaction log_event memo_log balance_delta machinefi_envelope fixture
        unavailable :
      EvidenceSource

pub record ReceiptEvidenceField : Type 0 where
  pub field : String
  pub source : EvidenceSource
  pub matched : Option Bool
  pub expected : Option String
  pub actual : Option String
  pub detail : Option String

abbrev pub is_native : EvidenceSource → Bool
is_native native_receipt = true
is_native transaction = true
is_native log_event = true
is_native memo_log = true
is_native balance_delta = true
is_native _ = false

abbrev pub is_envelope : EvidenceSource → Bool
is_envelope machinefi_envelope = true
is_envelope _ = false

abbrev pub is_fixture : EvidenceSource → Bool
is_fixture fixture = true
is_fixture _ = false

abbrev pub is_unavailable_source : EvidenceSource → Bool
is_unavailable_source unavailable = true
is_unavailable_source _ = false

pub record SettlementEvidence : Type 0 where
  pub native : List ReceiptEvidenceField
  pub envelope : List ReceiptEvidenceField
  pub unavailable : List ReceiptEvidenceField

unfoldable pub split_evidence : List ReceiptEvidenceField → SettlementEvidence
split_evidence fields = record {
  native = filter (λ f. is_native f.source) fields;
  envelope = filter (λ f. is_envelope f.source || is_fixture f.source) fields;
  unavailable = filter (λ f. is_unavailable_source f.source) fields;
}

pub record ReceiptExpectation : Type 0 where
  pub status : Option String
  pub from : Option String
  pub to : Option String
  pub recipient : Option String
  pub amount : Option String
  pub asset : Option String
  pub memo : Option String
  pub session_id : Option String
  pub machine_id : Option String

-- Is an optional text there, and not empty?
abbrev pub filled : Option String → Bool
filled none = false
filled (some text) = not (text == "")

abbrev pub name_if : Bool → String → List String
name_if true name = name ∷ []
name_if false name = []

unfoldable pub expected_receipt_field_names : ReceiptExpectation → List String
expected_receipt_field_names e =
    name_if (filled e.status) "status"
    ++ name_if (filled e.from) "from"
    ++ name_if (filled e.to || filled e.recipient) "to"
    ++ name_if (filled e.amount) "amount"
    ++ name_if (filled e.memo) "memo"
    ++ name_if (filled e.machine_id) "machineId"
    ++ name_if (filled e.session_id) "sessionId"

unfoldable pub canonical_field_name : String → String
canonical_field_name field = if field == "recipient" then "to" else field

-- The source is `none` where no evidence names the field.
pub record FieldEvidenceSummary : Type 0 where
  pub name : String
  pub observed : Bool
  pub matched : Bool
  pub source : Option EvidenceSource
  pub native : Bool
  pub envelope : Bool
  pub unavailable : Bool
  pub detail : Option String

-- evidence.matched !== false
abbrev pub not_refuted : Option Bool → Bool
not_refuted (some false) = false
not_refuted _ = true

unfoldable pub field_summary : String → List ReceiptEvidenceField → FieldEvidenceSummary
unfolding canonical_field_name
field_summary name evidence_fields =
    elim (find (λ f. canonical_field_name f.field == name) evidence_fields) [
      | none ↦ record {
        name = name;
        observed = false;
        matched = false;
        source = none;
        native = false;
        envelope = false;
        unavailable = true;
        detail = none;
      }
      | some e ↦ record {
        name = name;
        observed = not (is_unavailable_source e.source);
        matched = not_refuted e.matched;
        source = some e.source;
        native = is_native e.source;
        envelope = is_envelope e.source;
        unavailable = is_unavailable_source e.source;
        detail = e.detail;
      }
    ]

pub record ReceiptExpectationSummary : Type 0 where
  pub matched : Bool
  pub unavailable_fields : List String
  pub mismatched_fields : List String
  pub native_fields : List String
  pub envelope_fields : List String
  pub fixture_fields : List String
  pub field_summaries : List FieldEvidenceSummary

abbrev pub is_satisfied : FieldEvidenceSummary → Bool
is_satisfied f = f.matched && not f.unavailable

is_fixture_summary : FieldEvidenceSummary → Bool
is_fixture_summary f = elim f.source [ none ↦ false | some s ↦ is_fixture s ]

names_of : (FieldEvidenceSummary → Bool) → List FieldEvidenceSummary → List String
names_of p fields = map (λ f. f.name) (filter p fields)

unfoldable pub summarize_receipt_expectation_evidence :
    ReceiptExpectation → List ReceiptEvidenceField → ReceiptExpectationSummary
unfolding names_of is_fixture_summary
summarize_receipt_expectation_evidence expectation evidence_fields =
    let summaries : List FieldEvidenceSummary =
      map (λ name. field_summary name evidence_fields) (expected_receipt_field_names expectation) in
    record {
      matched = all is_satisfied summaries;
      unavailable_fields = names_of (λ f. f.unavailable) summaries;
      mismatched_fields = names_of (λ f. not f.matched && not f.unavailable) summaries;
      native_fields = names_of (λ f. f.native) summaries;
      envelope_fields = names_of (λ f. f.envelope) summaries;
      fixture_fields = names_of is_fixture_summary summaries;
      field_summaries = summaries;
    }

-- The function throws where the summary does not match.
unfoldable pub expected_fields_available : ReceiptExpectation → List ReceiptEvidenceField → Bool
expected_fields_available expectation evidence_fields =
    (summarize_receipt_expectation_evidence expectation evidence_fields).matched

-- The ratio as a numerator and a denominator.
unfoldable pub receipt_evidence_coverage_ratio : ReceiptExpectationSummary → ℕ × ℕ
receipt_evidence_coverage_ratio summary =
    if nat_eq (length summary.field_summaries) 0
    then (1, 1)
    else (length (filter is_satisfied summary.field_summaries), length summary.field_summaries)

pub data CoverageLabel : Type 0 where
  complete partial unavailable : CoverageLabel

unfoldable pub label_of : ℕ × ℕ → CoverageLabel
label_of (satisfied, expected) =
    if nat_eq satisfied expected
    then complete
    else if nat_eq satisfied 0
    then CoverageLabel.unavailable
    else partial

unfoldable pub receipt_evidence_coverage_label : ReceiptExpectationSummary → CoverageLabel
unfolding label_of
receipt_evidence_coverage_label summary = label_of (receipt_evidence_coverage_ratio summary)

pub data ChainFinality : Type 0 where
  finalized confirmed processed pending unknown : ChainFinality

-- status is `none` where it is missing or null.
unfoldable pub normalize_solana_finality : Option ChainFinality → Bool → ChainFinality
normalize_solana_finality (some finalized) has_transaction = finalized
normalize_solana_finality (some confirmed) has_transaction = confirmed
normalize_solana_finality (some processed) has_transaction = processed
normalize_solana_finality _ has_transaction = if has_transaction then confirmed else pending

abbrev pub rank : ChainFinality → ℕ
rank pending = 0
rank unknown = 0
rank processed = 1
rank confirmed = 2
rank finalized = 3

unfoldable pub finality_meets_minimum : ChainFinality → ChainFinality → Bool
finality_meets_minimum finality minimum = leb (rank minimum) (rank finality)
