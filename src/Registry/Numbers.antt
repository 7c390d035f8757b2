-- ===== src/Registry/Numbers.antt =====
-- The numbering of the campaigns: the ids in use are 1 up to the count, and a campaign stands
-- under its own id.
use proof_of_heart_stellar.Prelude.{
  leb, ◌==◌, if◌then◌else◌, Bool-cases, is_some, ℕ, ◌≡◌, refl, inl, inr, ◌&&◌, some, arith,
}
use proof_of_heart_stellar.Types.{Campaign}
use proof_of_heart_stellar.Store.{State, get_campaign_count, get_campaign}
use proof_of_heart_stellar.Invariant.{Rewrites}
use proof_of_heart_stellar.Registry.{Move, idle, changed, entered, Moves, here, next}

pub record IsNumbered (s : State) : Type 0 where
  pub stored : (id : ℕ) → is_some (get_campaign id s) ≡ (leb 1 id && leb id (get_campaign_count s))
  pub own_id : (id : ℕ) (c : Campaign) → get_campaign id s ≡ some c → c.id ≡ id

-- A lookup after a rewriting.
pub lookup-Rewrites :
    (id j : ℕ) (c : Campaign) (s t : State)
    → Rewrites id c s t
    → get_campaign j t ≡ (if j == id then some c else get_campaign j s)
lookup-Rewrites id j c s t w =
    rw w elim (Bool-cases (j == id)) [ inl h ↦ rw h refl | inr h ↦ rw h refl ]

module _ {s t : State} (v : IsNumbered s) where
  Move-IsNumbered : Move s t → IsNumbered t
  Move-IsNumbered (idle p l) = record {
    stored = λ id. rw (p, l.0) (v.stored id);
    own_id = λ id. rw p (v.own_id id);
  }
  Move-IsNumbered (changed id c d e p w l) = record {
    stored = λ j. grind (arith, lookup-Rewrites id j d s t w, v.stored j);
    own_id =
        λ j x h. grind (arith, lookup-Rewrites id j d s t w, v.own_id j, v.own_id id c e, p.id);
  }
  Move-IsNumbered (entered c i a w n f k) = record {
    stored = λ j. grind (arith, lookup-Rewrites c.id j c s t w, v.stored j);
    own_id = λ j x h. grind (arith, lookup-Rewrites c.id j c s t w, v.own_id j);
  }

pub Moves-IsNumbered : {s t : State} → IsNumbered s → Moves s t → IsNumbered t
Moves-IsNumbered v here = v
Moves-IsNumbered v (next k m) = Move-IsNumbered (Moves-IsNumbered v k) m
