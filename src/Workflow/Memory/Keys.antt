-- ===== src/Workflow/Memory/Keys.antt =====
-- The keys of the maps of internal/workflow/store.go and internal/delivery/delivery.go, a name, the byte
-- 0 and a key, against the pairs that are primary keys of the tables.
use skilar.Prelude.{
  ◌≡◌, ◌≢◌, refl, sym, Bool, true, false, [], ◌∷◌, Text, ◌==◌, text_eq, pair_eq, text_beq_iff,
  Every,
}
use skilar.Workflow.Memory.{idem_key}

-- A Go string without the byte 0, which the in-memory store puts between a name and a key.
abbrev pub HasNoNul : Text → Type 0
HasNoNul = Every (λ b. b ≢ 0)

pub idem_key-injective :
    (id id' key key' : Text)
    → HasNoNul id
    → HasNoNul id'
    → idem_key id key ≡ idem_key id' key'
    → (id ≡ id') × (key ≡ key')
unfolding idem_key
idem_key-injective [] [] key key' n n' h = (refl, cc)
idem_key-injective [] (b ∷ id') key key' n n' h = absurd (n'.0 (cc))
idem_key-injective (a ∷ id) [] key key' n n' h = absurd (n.0 (cc))
idem_key-injective (a ∷ id) (b ∷ id') key key' n n' h =
    let rest = idem_key-injective id id' key key' n.1 n'.1 (cc) in (cc rest.0, rest.1)

iff→eq : (p q : Bool) → (p ≡ true → q ≡ true) → (q ≡ true → p ≡ true) → p ≡ q
iff→eq true q f g = sym (f refl)
iff→eq false true f g = g refl
iff→eq false false f g = refl

-- Both stores recognise a key alike.
pub same_key :
    (id id' key key' : Text)
    → HasNoNul id
    → HasNoNul id'
    → (◌==◌ {A = Text × Text} ⦃e = pair_eq⦄ (id, key) (id', key'))
      ≡ (idem_key id key == idem_key id' key')
same_key id id' key key' n n' =
    iff→eq _ _
      (λ h.
        let p = (pair_eq.decides (id, key) (id', key')).0 h in
        let q : idem_key id key ≡ idem_key id' key' = cc p in
        (text_beq_iff (idem_key id key) (idem_key id' key')).1 q)
      (λ h.
        let p = (text_beq_iff (idem_key id key) (idem_key id' key')).0 h in
        let q = idem_key-injective id id' key key' n n' p in
        let both : (id, key) ≡ (id', key') = λ i. (q.0 i, q.1 i) in
        (pair_eq.decides (id, key) (id', key')).1 both)
