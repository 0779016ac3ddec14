-- ===== src/Verification/Buffer.antt =====
-- `limitBuffer` of internal/verification/verification.go. It embeds a bytes.Buffer, so it has the
-- ReadFrom of that too, and os/exec copies the output of a command with io.Copy, which calls ReadFrom
-- where there is one.
use mathlib.Core.Path.{subst}
use mathlib.Core.List.{append_assoc, append-nil}
use skilar.Prelude.{
  ℕ, ◌-◌, ◌≤◌, ◌<◌, ◌≡◌, sym, ap, ◌∙◌, ◌||◌, take_all, take-append, length-take_left,
  length-take_le, ◌++◌, Bool, true, false, List, [], ◌∷◌, Text, ◌==◌, is_empty, if◌then◌else◌, ltb,
  length, length-append, take, nat_eq, Every, arith, refl, nat_beq_iff, Bool-cases, inl, inr,
}

pub record LimitBuffer : Type 0 where
  pub content : Text
  pub limit : ℕ
  pub truncated : Bool

-- `Write`, which answers the length of what it was given.
unfoldable pub write : LimitBuffer → Text → ℕ × LimitBuffer
write b p =
    let remaining = b.limit - length b.content in
    (
      length p,
      if remaining == 0
          then record b { truncated = true }
          else if ltb remaining (length p)
          then record b { content = b.content ++ take remaining p; truncated = true }
          else record b { content = b.content ++ p },
    )

-- Calls of `Write`, one after the other.
unfoldable pub write_calls : LimitBuffer → List Text → LimitBuffer
write_calls b [] = b
write_calls b (p ∷ ps) = write_calls (write b p).1 ps

-- `ReadFrom` of bytes.Buffer, on one part of what it reads: everything is appended.
unfoldable pub read_from : LimitBuffer → Text → LimitBuffer
read_from b p = record b { content = b.content ++ p }

-- What the output of a command leaves.
unfoldable pub read_all : LimitBuffer → List Text → LimitBuffer
read_all b [] = b
read_all b (p ∷ ps) = read_all (read_from b p) ps

abbrev pub new_buffer : ℕ → LimitBuffer
new_buffer limit = record { content = []; limit = limit; truncated = false }

unfoldable pub joined : List Text → Text
joined [] = []
joined (p ∷ ps) = p ++ joined ps

abbrev pub IsFilled : Text → Type 0
IsFilled p = is_empty p ≡ false

abbrev room : LimitBuffer → ℕ
room b = b.limit - length b.content

take_zero : (p : Text) → take 0 p ≡ []
take_zero [] = refl
take_zero (x ∷ p) = refl

-- The three branches of a write as one.
write_lem :
    (b : LimitBuffer) (p : Text)
    → let b' = (write b p).1 in
      (b'.limit ≡ b.limit)
      × (b'.content ≡ b.content ++ take (room b) p)
      × (b'.truncated ≡ (b.truncated || room b == 0 || ltb (room b) (length p)))
unfolding write
write_lem b p = elim (Bool-cases (room b == 0)) [
  | inl full ↦
      let none_left : room b ≡ 0 = (nat_beq_iff (room b) 0).0 full in
      rw full (
        refl,
        sym (append-nil b.content)
            ∙ ap (λ l. b.content ++ l) (sym (ap (λ n. take n p) none_left ∙ take_zero p)),
        ground arith,
      )
  | inr some_left ↦ elim (Bool-cases (ltb (room b) (length p))) [
    | inl long ↦ rw (some_left, long) (refl, refl, ground arith)
    | inr short ↦
        let fits : length p ≤ room b = ground (arith, short) in
        rw (some_left, short)
          (refl, ap (λ l. b.content ++ l) (sym (take_all (room b) p fits)), ground arith)
  ]
]

-- What the buffer holds after the writes `done`.
record Holds (limit : ℕ) (done : Text) (nonempty : Type 0) (b : LimitBuffer) : Type 0 where
  same_limit : b.limit ≡ limit
  is_prefix : b.content ≡ take limit done
  whole : b.truncated ≡ false → length done ≤ limit
  cut : nonempty → b.truncated ≡ true → limit < length done

write-Holds :
    (limit : ℕ) (done p : Text) (N : Type 0) (b : LimitBuffer)
    → Holds limit done N b
    → Holds limit (done ++ p) (N × IsFilled p) (write b p).1
write-Holds limit done p N b h =
    let (same, content, truncated) = write_lem b p in
    let left : room b ≡ limit - length done =
      ap (λ n. n - length b.content) h.same_limit
      ∙ ap (λ l. limit - length l) h.is_prefix
      ∙ length-take_left limit done in
    record {
      same_limit = same ∙ h.same_limit;
      is_prefix =
          content
          ∙ ap (λ n. b.content ++ take n p) left
          ∙ ap (λ l. l ++ take (limit - length done) p) h.is_prefix
          ∙ sym (take-append limit done p);
      whole = λ e. ground (arith, e, truncated, left, h.whole, length-append done p);
      cut = λ n e. after_cut left n (sym truncated ∙ e);
    }
  where
    some_bytes : (p : Text) → IsFilled p → 1 ≤ length p
    some_bytes [] e = absurd (ground (arith, e))
    some_bytes (x ∷ p) e = omega arith

    after_cut :
        room b ≡ limit - length done
        → N × IsFilled p
        → (b.truncated || room b == 0 || ltb (room b) (length p)) ≡ true
        → limit < length (done ++ p)
    after_cut left (n, filled) e =
        ground (arith, e, left, h.cut n, length-append done p, some_bytes p filled)

write_calls-Holds :
    (limit : ℕ) (done : Text) (ps : List Text) (N : Type 0) (b : LimitBuffer)
    → Holds limit done N b
    → Holds limit (done ++ joined ps) (N × Every IsFilled ps) (write_calls b ps)
unfolding write_calls joined
write_calls-Holds limit done [] N b h =
    subst (λ l. Holds limit l (N × Unit) b) (sym (append-nil done))
      (record {
        same_limit = h.same_limit;
        is_prefix = h.is_prefix;
        whole = h.whole;
        cut = λ n. h.cut n.0;
      })
write_calls-Holds limit done (p ∷ ps) N b h =
    let rest =
      write_calls-Holds limit (done ++ p) ps (N × IsFilled p) (write b p).1
        (write-Holds limit done p N b h) in
    record {
      same_limit = rest.same_limit;
      is_prefix = rest.is_prefix ∙ ap (λ l. take limit l) (append_assoc done p (joined ps));
      whole = λ e. rw (sym (append_assoc done p (joined ps))) (rest.whole e);
      cut = λ n e. rw (sym (append_assoc done p (joined ps))) (rest.cut ((n.0, n.1.0), n.1.1) e);
    }

-- After calls of Write the buffer holds what was written up to the limit, and at most that much. A
-- buffer that is not marked as truncated holds everything, and when no write was empty, one that is
-- marked does not.
pub buffer_keeps_prefix :
    (limit : ℕ) (ps : List Text)
    → let b = write_calls (new_buffer limit) ps in
      (b.content ≡ take limit (joined ps))
      × (length b.content ≤ limit)
      × (b.truncated ≡ false → b.content ≡ joined ps)
      × (Every IsFilled ps → b.truncated ≡ true → limit < length (joined ps))
buffer_keeps_prefix limit ps =
    let start : Holds limit [] Unit (new_buffer limit) = record {
      same_limit = refl;
      is_prefix = refl;
      whole = λ _. omega arith;
      cut = λ _ e. absurd (ground (arith, e));
    } in
    let end = write_calls-Holds limit [] ps Unit (new_buffer limit) start in
    (
      end.is_prefix,
      rw end.is_prefix (length-take_le limit (joined ps)),
      λ e. end.is_prefix ∙ take_all limit (joined ps) (end.whole e),
      λ filled e. end.cut (tt, filled) e,
    )
