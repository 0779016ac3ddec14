-- ===== src/Delivery/Intents.antt =====
-- SQLiteIntentStore of internal/delivery/sqlite.go: the table delivery_intents under its primary key.
-- encoding/json is two functions, and the database itself does not fail.
use mathlib.Core.Path.{subst}
use skilar.Prelude.{
  ◌≡◌, refl, sym, ap, ◌∙◌, Bool, true, false, Option, none, some, Option-cases, Text, ◌==◌, Map,
  lookup, insert, insert_new, lookup-insert, Result, ok, err, Action, if◌then◌else◌, text_eq,
  pair_eq, inl, inr,
}
use skilar.Workflow.Memory.Keys.{HasNoNul, same_key}
use skilar.Workflow.Memory.{idem_key}
use skilar.Delivery.{
  DeliveryError, intent_reuse, corrupt_intent, Intent, GateState, Git, intent_key, same_intent,
  put_intent,
}

abbrev pub IntentRows : Type 0
IntentRows = Map (Text × Text) Text

module _ (encode : Intent → Text) (decode : Text → Option Intent) where
  abbrev pub decoded : Option Text → Option Intent
  decoded none = none
  decoded (some raw) = decode raw

  -- `Get`
  unfoldable pub find_intent : Text → Text → IntentRows → Option Intent
  find_intent workflow_id key rows = decoded (lookup (workflow_id, key) rows)

  -- When INSERT OR IGNORE has ignored the row.
  abbrev pub compare_intent : Intent → Option Intent → Result DeliveryError (Unit {0})
  compare_intent i none = err corrupt_intent
  compare_intent i (some old) = if same_intent old i then ok tt else err intent_reuse

  abbrev pub is_new : Option Text → Bool
  is_new none = true
  is_new (some raw) = false

  -- `Put`
  unfoldable pub keep_intent : Intent → Action IntentRows DeliveryError (Unit {0})
  keep_intent i rows =
      let key : Text × Text = (i.workflow_id, i.idempotency_key) in
      let rows' = insert_new key (encode i) rows in
      if is_new (lookup key rows)
      then (ok tt, rows')
      else (compare_intent i (find_intent i.workflow_id i.idempotency_key rows'), rows')

  abbrev encoded : Option Intent → Option Text
  encoded none = none
  encoded (some i) = some (encode i)

  encoded_if :
      (b : Bool) (i : Intent) (o : Option Intent)
      → (if b then some (encode i) else encoded o) ≡ encoded (if b then some i else o)
  encoded_if true i o = refl
  encoded_if false i o = refl

  readable_if :
      (b : Bool) (i j : Intent) (o : Option Intent)
      → decode (encode i) ≡ some i
      → (o ≡ some j → decode (encode j) ≡ some j)
      → (if b then some i else o) ≡ some j
      → decode (encode j) ≡ some j
  readable_if true i j o survives old h =
      let e : i ≡ j = cc in subst (λ x. decode (encode x) ≡ some x) e survives
  readable_if false i j o survives old h = old h

  -- The table holds what the map of the in-memory store holds, and can be read back.
  pub record Represents {W : Type 0} (s : GateState W) (rows : IntentRows) : Type 0 where
    pub same :
        (workflow_id key : Text)
        → HasNoNul workflow_id
        → lookup (workflow_id, key) rows ≡ encoded (lookup (intent_key workflow_id key) s.intents)
    pub readable :
        (key : Text) (i : Intent) → lookup key s.intents ≡ some i → decode (encode i) ≡ some i

  pub find_intent_refines :
      {W : Type 0} (s : GateState W) (rows : IntentRows) (workflow_id key : Text)
      → HasNoNul workflow_id
      → Represents s rows
      → find_intent workflow_id key rows ≡ lookup (intent_key workflow_id key) s.intents
  unfolding find_intent
  find_intent_refines s rows workflow_id key plain r =
      elim (Option-cases (lookup (intent_key workflow_id key) s.intents)) [
        | inl new ↦
            let missing : lookup (workflow_id, key) rows ≡ none =
              r.same workflow_id key plain ∙ ap encoded new in
            rw (missing, new) refl
        | inr (old, found) ↦
            let there : lookup (workflow_id, key) rows ≡ some (encode old) =
              r.same workflow_id key plain ∙ ap encoded found in
            rw (there, found) (r.readable (intent_key workflow_id key) old found)
      ]

  module _ {W : Type 0} (git : Git W) (i : Intent) (s : GateState W) (rows : IntentRows)
      (plain : HasNoNul i.workflow_id) (survives : decode (encode i) ≡ some i)
      (r : Represents s rows) where
    abbrev mem_key : Text
    mem_key = intent_key i.workflow_id i.idempotency_key

    abbrev sql_key : Text × Text
    sql_key = (i.workflow_id, i.idempotency_key)

    inserted-Represents :
        Represents
          (record s { intents = insert mem_key i s.intents })
          (insert sql_key (encode i) rows)
    unfolding intent_key idem_key
    inserted-Represents = record {
      same = λ workflow_id key n.
          rw
            (
              lookup-insert sql_key (workflow_id, key) (encode i) rows,
              lookup-insert mem_key (intent_key workflow_id key) i s.intents,
              r.same workflow_id key n,
              same_key i.workflow_id workflow_id i.idempotency_key key plain n,
            )
            (encoded_if _ i (lookup (intent_key workflow_id key) s.intents));
      readable = λ key j h.
          readable_if (mem_key == key) i j (lookup key s.intents) survives (r.readable key j)
            (sym (lookup-insert mem_key key i s.intents) ∙ h);
    }

    -- What the two stores do, by what each has under the key.
    abbrev mem_put : Option Intent → Result DeliveryError (Unit {0}) × GateState W
    mem_put none = (ok tt, record s { intents = insert mem_key i s.intents })
    mem_put (some old) = (if same_intent old i then ok tt else err intent_reuse, s)

    abbrev sql_put : Option Text → Result DeliveryError (Unit {0}) × IntentRows
    sql_put none = (ok tt, insert sql_key (encode i) rows)
    sql_put (some raw) = (compare_intent i (decode raw), rows)

    put_intent-mem_put : put_intent git i s ≡ mem_put (lookup mem_key s.intents)
    unfolding put_intent
    put_intent-mem_put = by_cases (lookup mem_key s.intents)
      where
        by_cases :
            (o : Option Intent)
            → Path
                (Result DeliveryError (Unit {0}) × GateState W)
                (elim o [
                  | some old ↦ (if same_intent old i then ok tt else err intent_reuse, s)
                  | none ↦ (ok tt, record s { intents = insert mem_key i s.intents })
                ])
                (mem_put o)
        by_cases none = refl
        by_cases (some old) = refl

    keep_intent-sql_put : keep_intent i rows ≡ sql_put (lookup sql_key rows)
    unfolding keep_intent find_intent insert_new
    keep_intent-sql_put = by_cases (lookup sql_key rows) refl
      where
        by_cases : (o : Option Text) → lookup sql_key rows ≡ o → keep_intent i rows ≡ sql_put o
        by_cases none h = rw h refl
        by_cases (some raw) h = rw h (rw h refl)

    abbrev Alike :
        Result DeliveryError (Unit {0}) × GateState W
        → Result DeliveryError (Unit {0}) × IntentRows
        → Type 0
    Alike a b = (a.0 ≡ b.0) × Represents a.1 b.1

    puts-Alike :
        (o : Option Intent) → lookup mem_key s.intents ≡ o → Alike (mem_put o) (sql_put (encoded o))
    puts-Alike none new = (refl, inserted-Represents)
    puts-Alike (some old) found = (rw (r.readable mem_key old found) refl, r)

    both_put-Alike : Alike (put_intent git i s) (keep_intent i rows)
    both_put-Alike =
        let alike = puts-Alike (lookup mem_key s.intents) refl in
        let same : sql_put (encoded (lookup mem_key s.intents)) ≡ keep_intent i rows =
          ap sql_put (sym (r.same i.workflow_id i.idempotency_key plain))
          ∙ sym keep_intent-sql_put in
        subst (λ b. Alike (put_intent git i s) b) same
          (subst (λ a. Alike a (sql_put (encoded (lookup mem_key s.intents))))
            (sym put_intent-mem_put) alike)

    -- When the in-memory store and the table hold the same, Put of an intent that can be read back,
    -- whose workflow id has no byte 0, answers alike in both. They hold the same afterwards, and Get
    -- answers alike for every such workflow.
    pub put_intent_refines :
        ((put_intent git i s).0 ≡ (keep_intent i rows).0)
        × Represents (put_intent git i s).1 (keep_intent i rows).1
        × ((workflow_id key : Text)
            → HasNoNul workflow_id
            → find_intent workflow_id key (keep_intent i rows).1
              ≡ lookup (intent_key workflow_id key) (put_intent git i s).1.intents)
    put_intent_refines = (
      both_put-Alike.0,
      both_put-Alike.1,
      λ workflow_id key n. find_intent_refines _ _ workflow_id key n both_put-Alike.1,
    )
