-- ===== src/Verification/Unlimited.antt =====
-- The limit on the output of a command in internal/verification/verification.go.
use mathlib.Core.List.{append_assoc, append-nil}
use skilar.Prelude.{
  ℕ, ◌<◌, ◌≡◌, refl, ap, sym, ◌∙◌, true, false, ◌++◌, List, [], ◌∷◌, some, Text, length, take,
  Every,
}
use skilar.Verification.{Command, CommandRun, evidence_of}
use skilar.Verification.Buffer.{
  LimitBuffer, read_from, read_all, write_calls, new_buffer, joined, IsFilled, buffer_keeps_prefix,
}

read_all-joined :
    (b : LimitBuffer) (ps : List Text)
    → ((read_all b ps).content ≡ b.content ++ joined ps) × ((read_all b ps).truncated ≡ b.truncated)
unfolding read_all read_from joined
read_all-joined b [] = (sym (append-nil b.content), refl)
read_all-joined b (p ∷ ps) =
    let rest = read_all-joined (read_from b p) ps in
    (rest.0 ∙ append_assoc b.content p (joined ps), rest.1)

-- Whatever the limit, the evidence of a command keeps its whole output and is never marked as
-- truncated. Calls of Write on the same output, none of them empty, would have kept its first `limit`
-- bytes, and marked the buffer only if there were more.
pub output_is_unlimited :
    (digest : Text → Text) (tree kind : Text) (c : Command) (limit : ℕ) (r : CommandRun)
    → let found = evidence_of digest tree kind c limit (some r) in
      let written = write_calls (new_buffer limit) r.writes in
      (found.1 ≡ joined r.writes)
      × (found.0.truncated ≡ false)
      × (found.0.output_digest ≡ digest (joined r.writes))
      × (written.content ≡ take limit (joined r.writes))
      × (Every IsFilled r.writes → written.truncated ≡ true → limit < length (joined r.writes))
unfolding evidence_of
output_is_unlimited digest tree kind c limit r =
    let whole = read_all-joined (new_buffer limit) r.writes in
    let (kept, _, _, marked) = buffer_keeps_prefix limit r.writes in
    (whole.0, whole.1, ap digest whole.0, kept, marked)
