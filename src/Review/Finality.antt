-- ===== src/Review/Finality.antt =====
-- A candidate of internal/review/store.go has one receipt for good.
use skilar.Prelude.{
  ◌≡◌, refl, ap, ◌∙◌, Option, none, some, Text, arith, lookup, lookup-insert_self, Result, ok,
  text_eq,
}
use skilar.Review.{ReviewError}
use skilar.Review.Receipts.{
  Receipt, IssueRequest, ReceiptStore, Encoders, file_receipt, new_receipt, issue_receipt,
  sort_evidence, receipt_at,
}
use skilar.Review.Authority.{issue_receipt-Passed}

-- The receipt of a candidate, through the index of candidates.
abbrev pub IsReceiptOf : Text → Receipt → ReceiptStore → Type 0
IsReceiptOf id r s =
    (known : Text) × (lookup id s.by_candidate ≡ some known) × (receipt_at known s ≡ r)

file_receipt-IsReceiptOf :
    (receipt r : Receipt) (o : Option Text) (s : ReceiptStore)
    → lookup receipt.candidate_record_id s.by_candidate ≡ o
    → (file_receipt receipt o s).0 ≡ ok r
    → IsReceiptOf receipt.candidate_record_id r (file_receipt receipt o s).1
unfolding file_receipt receipt_at
file_receipt-IsReceiptOf receipt r none s found h = (
  receipt.id,
  lookup-insert_self receipt.candidate_record_id receipt.id s.by_candidate,
  ground (arith, lookup-insert_self receipt.id receipt s.receipts),
)
file_receipt-IsReceiptOf receipt r (some known) s found h = (known, ground arith, ground arith)

module _ (encoders : Encoders) where
  issue_receipt-IsReceiptOf :
      (req : IssueRequest) (s : ReceiptStore) (r : Receipt)
      → (issue_receipt encoders req s).0 ≡ ok r
      → IsReceiptOf req.candidate.id r (issue_receipt encoders req s).1
  unfolding new_receipt
  issue_receipt-IsReceiptOf req s r h =
      let p = issue_receipt-Passed encoders req s r h in
      let receipt = new_receipt encoders req (sort_evidence req.evidence) p.seen.ids in
      let filed : (file_receipt receipt (lookup req.candidate.id s.by_candidate) s).0 ≡ ok r =
        rw p.filed at h in
      rw p.filed
        (file_receipt-IsReceiptOf receipt r (lookup req.candidate.id s.by_candidate) s refl filed)

  known_receipt_kept :
      (receipt r q : Receipt) (s : ReceiptStore)
      → IsReceiptOf receipt.candidate_record_id r s
      → (file_receipt receipt (lookup receipt.candidate_record_id s.by_candidate) s).0 ≡ ok q
      → (q ≡ r)
        × ((file_receipt receipt (lookup receipt.candidate_record_id s.by_candidate) s).1 ≡ s)
  unfolding file_receipt
  known_receipt_kept receipt r q s (known, here, same) h = ground (arith, here, same)

  -- After `Issue` returned a receipt, another `Issue` for the same candidate, whatever its assessment
  -- and evidence, returns that receipt and changes nothing, unless it fails.
  pub receipt_is_final :
      (req next : IssueRequest) (s : ReceiptStore) (r q : Receipt)
      → next.candidate.id ≡ req.candidate.id
      → (issue_receipt encoders req s).0 ≡ ok r
      → let s' = (issue_receipt encoders req s).1 in
        (issue_receipt encoders next s').0 ≡ ok q
        → (q ≡ r) × ((issue_receipt encoders next s').1 ≡ s')
  unfolding new_receipt
  receipt_is_final req next s r q same h k =
      let s' = (issue_receipt encoders req s).1 in
      let p = issue_receipt-Passed encoders next s' q k in
      let receipt = new_receipt encoders next (sort_evidence next.evidence) p.seen.ids in
      let here : IsReceiptOf next.candidate.id r s' =
        rw same (issue_receipt-IsReceiptOf req s r h) in
      let filed : (file_receipt receipt (lookup next.candidate.id s'.by_candidate) s').0 ≡ ok q =
        rw p.filed at k in
      let (kept, unchanged) = known_receipt_kept receipt r q s' here filed in
      (kept, ap (λ (b : Result ReviewError Receipt × ReceiptStore). b.1) p.filed ∙ unchanged)
