-- ===== src/Verification/Collision.antt =====
-- The names of evidence in internal/verification/verification.go.
use skilar.Prelude.{
  ℕ, ◌≡◌, ap, sym, ◌∙◌, List, [], ◌∷◌, none, some, Text, Map, lookup, insert_new, insert_new_keeps,
  lookup-insert_self, text_eq,
}
use skilar.Review.{RiskPolicy}
use skilar.Review.Candidate.{CandidateRecord}
use skilar.Verification.{
  Command, CheckEvidence, CommandRun, Host, evidence_id, evidence_of, exit_of,
}
use skilar.Verification.Buffer.{new_buffer, read_all}
use skilar.Verification.Run.{insert_rows}

module _ {W : Type 0} (host : Host W) (digest : Text → Text) (marshal : RiskPolicy → Text)
    (marshal_basis : CandidateRecord → Text) where
  abbrev rows_after : List CheckEvidence → Map Text CheckEvidence → Map Text CheckEvidence
  rows_after = insert_rows host digest marshal marshal_basis

  insert_rows_keeps :
      (items : List CheckEvidence) (rows : Map Text CheckEvidence) (id : Text) (e : CheckEvidence)
      → lookup id rows ≡ some e
      → lookup id (rows_after items rows) ≡ some e
  unfolding insert_rows
  insert_rows_keeps [] rows id e h = h
  insert_rows_keeps (f ∷ items) rows id e h =
      insert_rows_keeps items (insert_new f.id f rows) id e (insert_new_keeps f.id id f e rows h)

  -- Two commands with the name of one program, whatever their arguments, that end with the same code
  -- and the same output on one tree and in one group have evidence of the same id. Only the first of
  -- the two is kept, whatever evidence follows.
  pub like_runs_share_evidence :
      (tree kind : Text) (c c' : Command) (limit : ℕ) (r r' : CommandRun)
      (rest : List CheckEvidence) (rows : Map Text CheckEvidence)
      → c.name ≡ c'.name
      → exit_of r ≡ exit_of r'
      → r.writes ≡ r'.writes
      → lookup (evidence_of digest tree kind c limit (some r)).0.id rows ≡ none
      → let first = (evidence_of digest tree kind c limit (some r)).0 in
        let second = (evidence_of digest tree kind c' limit (some r')).0 in
        (second.id ≡ first.id)
        × (lookup second.id (rows_after (first ∷ second ∷ rest) rows) ≡ some first)
  unfolding evidence_of insert_rows insert_new
  like_runs_share_evidence tree kind c c' limit r r' rest rows names exits writes new =
      let first = (evidence_of digest tree kind c limit (some r)).0 in
      let second = (evidence_of digest tree kind c' limit (some r')).0 in
      let bytes : List Text → Text = λ ws. (read_all (new_buffer limit) ws).content in
      let same : second.id ≡ first.id =
        ap (λ n. evidence_id digest tree kind n (exit_of r') (digest (bytes r'.writes))) (sym names)
        ∙ ap (λ x. evidence_id digest tree kind c.name x (digest (bytes r'.writes))) (sym exits)
        ∙ ap (λ ws. evidence_id digest tree kind c.name (exit_of r) (digest (bytes ws)))
            (sym writes) in
      let stored : lookup first.id (insert_new first.id first rows) ≡ some first =
        rw new (lookup-insert_self first.id first rows) in
      (
        same,
        insert_rows_keeps rest _ second.id first (
            insert_new_keeps second.id second.id second first (insert_new first.id first rows)
              (rw same stored)),
      )
