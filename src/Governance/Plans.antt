-- ===== src/Governance/Plans.antt =====
-- Milestone plans: src/milestones.rs.
use proof_of_heart_stellar.Prelude.{
  ◌==◌, length, contains, ℕ, ◌+◌, ◌≤◌, ◌<◌, ◌≡◌, refl, ap, Bool, true, false, not, ◌&&◌, ◌||◌, List,
  [], ◌∷◌, ◌++◌, arith,
}
use proof_of_heart_stellar.Prelude.Words.{checked_add_u32}
use proof_of_heart_stellar.Types.{Milestone}
use proof_of_heart_stellar.Types.Limits.{bps_denominator, max_milestones}
use proof_of_heart_stellar.Host.{Host}
use proof_of_heart_stellar.Store.{State, get_campaign_milestones}
use proof_of_heart_stellar.Action.{Outcome, ok, err, trap}
use proof_of_heart_stellar.Funding.Sums.{is_distinct}
use proof_of_heart_stellar.Milestones.{validate_milestones, normalize, set_milestones}

unfoldable pub bps_sum : List Milestone → ℕ
bps_sum [] = 0
bps_sum (m ∷ ms) = m.payout_bps + bps_sum ms

unfoldable pub ids_of : List Milestone → List ℕ
ids_of [] = []
ids_of (m ∷ ms) = m.id ∷ ids_of ms

abbrev pub all_unverified : List Milestone → Bool
all_unverified [] = true
all_unverified (m ∷ ms) = not m.verified && all_unverified ms

normalize-all_unverified : (ms : List Milestone) → all_unverified (normalize ms) ≡ true
unfolding normalize
normalize-all_unverified [] = refl
normalize-all_unverified (m ∷ ms) = normalize-all_unverified ms

ids_of-normalize : (ms : List Milestone) → ids_of (normalize ms) ≡ ids_of ms
unfolding normalize ids_of
ids_of-normalize [] = refl
ids_of-normalize (m ∷ ms) = ap (λ xs. m.id ∷ xs) (ids_of-normalize ms)

bps_sum-normalize : (ms : List Milestone) → bps_sum (normalize ms) ≡ bps_sum ms
unfolding normalize bps_sum
bps_sum-normalize [] = refl
bps_sum-normalize (m ∷ ms) = ap (λ n. m.payout_bps + n) (bps_sum-normalize ms)

contains-append : (xs : List ℕ) (y a : ℕ) → contains (xs ++ y ∷ []) a ≡ (contains xs a || y == a)
contains-append [] y a = ground arith
contains-append (x ∷ xs) y a = ground (arith, contains-append xs y a)

-- No member of `ys` is in `xs`.
abbrev apart : List ℕ → List ℕ → Bool
apart xs [] = true
apart xs (y ∷ ys) = not (contains xs y) && apart xs ys

apart-snoc :
    (xs ys : List ℕ) (y : ℕ)
    → apart (xs ++ y ∷ []) ys ≡ true
    → (apart xs ys ≡ true) × (contains ys y ≡ false)
apart-snoc xs [] y h = (refl, refl)
apart-snoc xs (z ∷ ys) y h = ground (arith, contains-append xs y z, apart-snoc xs ys y)

abbrev Validated : List Milestone → List ℕ → ℕ → Outcome ℕ → Type 0
Validated ms seen total (ok n t) =
    (n ≡ total + bps_sum ms) × (is_distinct (ids_of ms) ≡ true) × (apart seen (ids_of ms) ≡ true)
Validated ms seen total (err e t) = Unit {0}
Validated ms seen total trap = Unit {0}

validate_milestones_value :
    (ms : List Milestone) (seen : List ℕ) (total : ℕ) (s : State)
    → Validated ms seen total (validate_milestones ms seen total s)
unfolding validate_milestones bps_sum ids_of checked_add_u32
validate_milestones_value [] seen total s = ground arith
validate_milestones_value (m ∷ ms) seen total s = ground (
  arith,
  validate_milestones_value ms (seen ++ m.id ∷ []) (total + m.payout_bps) s,
  apart-snoc seen (ids_of ms) m.id,
)

-- A plan of milestones for the campaign `c`.
pub record Planned (id : ℕ) (ms : List Milestone) (s t : State) : Type 0 where
  pub first : get_campaign_milestones id s ≡ []
  pub some_milestone : (0 < length ms) × (length ms ≤ max_milestones)
  pub whole : bps_sum (get_campaign_milestones id t) ≡ bps_denominator
  pub distinct_ids : is_distinct (ids_of (get_campaign_milestones id t)) ≡ true
  pub unverified : all_unverified (get_campaign_milestones id t) ≡ true
  pub ids : ids_of (get_campaign_milestones id t) ≡ ids_of ms

module _ (env : Host) (id : ℕ) (ms : List Milestone) (s t : State)
    (h : set_milestones env id ms s ≡ ok tt t) where
  plan_stored :
      (get_campaign_milestones id s ≡ [])
      × (get_campaign_milestones id t ≡ normalize ms)
      × (0 < length ms)
      × (length ms ≤ max_milestones)
      × (bps_sum ms ≡ bps_denominator)
      × (is_distinct (ids_of ms) ≡ true)
  unfolding set_milestones
  plan_stored = ground (arith, validate_milestones_value ms [] 0 s)

  -- A plan of milestones whose call returns is the first of its campaign and has 1 to 10
  -- milestones; as stored, their ids are distinct and as given, their shares add up to 100%, and
  -- none is verified.
  pub set_milestones-Planned : Planned id ms s t
  set_milestones-Planned =
      let (a, b, c, d, e, f) = plan_stored in
      record {
        first = a;
        some_milestone = (c, d);
        whole = rw (b, bps_sum-normalize ms) e;
        distinct_ids = rw (b, ids_of-normalize ms) f;
        unverified = rw b (normalize-all_unverified ms);
        ids = rw b (ids_of-normalize ms);
      }
