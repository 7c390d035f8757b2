-- ===== src/Registry/History.antt =====
-- What every history of calls leaves of the campaigns, once the contract is initialised.
use proof_of_heart_stellar.Prelude.{
  slice-nil, ℕ, ◌*◌, ◌≡◌, refl, sym, true, some, List, [], ◌∷◌, arith,
}
use proof_of_heart_stellar.Types.{Address, Category, Campaign}
use proof_of_heart_stellar.Types.Limits.{category_campaigns_bucket_size}
use proof_of_heart_stellar.Host.{Host}
use proof_of_heart_stellar.Store.{is_initialized, State, empty_storage, get_campaign}
use proof_of_heart_stellar.Action.{ok}
use proof_of_heart_stellar.Admin.{init}
use proof_of_heart_stellar.Calls.{Call, step, history}
use proof_of_heart_stellar.Invariant.{SameCampaigns}
use proof_of_heart_stellar.Registry.{Move, idle, changed, entered, Moves, here, next, Moves-trans}
use proof_of_heart_stellar.Registry.Categories.{members, IsIndexed, Moves-IsIndexed}
use proof_of_heart_stellar.Registry.Fates.{Survives, Moves-Survives}
use proof_of_heart_stellar.Registry.Numbers.{IsNumbered, Moves-IsNumbered}
use proof_of_heart_stellar.Registry.Steps.{step-Moves}

Move-is_initialized : {s t : State} → is_initialized s ≡ true → Move s t → is_initialized t ≡ true
Move-is_initialized i (idle p l) = rw l.3 i
Move-is_initialized i (changed id c d e p w l) = rw l.3 i
Move-is_initialized i (entered c k a w n f l) = rw l i

Moves-is_initialized : {s t : State} → is_initialized s ≡ true → Moves s t → is_initialized t ≡ true
Moves-is_initialized i here = i
Moves-is_initialized i (next k m) = Move-is_initialized (Moves-is_initialized i k) m

pub history-Moves :
    (calls : List (Host × Call)) (s : State) → is_initialized s ≡ true → Moves s (history calls s)
unfolding history
history-Moves [] s i = here
history-Moves ((env, call) ∷ calls) s i =
    let m = step-Moves env call s i in
    Moves-trans m (history-Moves calls (step env call s) (Moves-is_initialized i m))

-- The contract is initialised, its campaigns are numbered from 1 up to the count, and the index by
-- category holds them.
pub record IsListed (s : State) : Type 0 where
  pub initialized : is_initialized s ≡ true
  pub numbered : IsNumbered s
  pub indexed : (category : Category) → IsIndexed category s

init_effect :
    (env : Host) (admin token : Address) (fee : ℕ) (s t : State)
    → init env admin token fee s ≡ ok tt t
    → (is_initialized t ≡ true)
      × (t.campaign_keys.campaign_count ≡ some 0)
      × SameCampaigns s t
      × (t.campaign_keys.category_campaign_count ≡ s.campaign_keys.category_campaign_count)
      × (t.campaign_keys.category_campaigns_bucket ≡ s.campaign_keys.category_campaigns_bucket)
unfolding init
init_effect env admin token fee s t h = ground arith

pub init-IsListed :
    (env : Host) (admin token : Address) (fee : ℕ) (t : State)
    → init env admin token fee empty_storage ≡ ok tt t
    → IsListed t
unfolding members
init-IsListed env admin token fee t h =
    let (i, n, c, k, b) = init_effect env admin token fee empty_storage t h in
    record {
      initialized = i;
      numbered = record {
        stored = λ id. rw (n, c) (grind arith);
        own_id = λ id x e. absurd (grind (arith, c));
      };
      indexed = λ category. record {
        count = rw (n, k) refl;
        buckets = λ j.
            rw (n, b)
              (sym (slice-nil (j * category_campaigns_bucket_size) category_campaigns_bucket_size));
      };
    }

-- From a listed state, every history of calls leads to one: the contract is initialised, the
-- campaigns in storage are those with the ids 1 up to the count, each under its own id, and for
-- every category the count and the buckets of 500 hold the ids of its campaigns in order.
pub history-IsListed :
    (calls : List (Host × Call)) (s : State) → IsListed s → IsListed (history calls s)
history-IsListed calls s v =
    let m = history-Moves calls s v.initialized in
    record {
      initialized = Moves-is_initialized v.initialized m;
      numbered = Moves-IsNumbered v.numbered m;
      indexed = λ category. Moves-IsIndexed category v.numbered m (v.indexed category);
    }

-- From a listed state, no history of calls loses a campaign: it stands under its id with the same
-- first creator, category, goal and revenue share, what it raised and its deadline have not gone
-- down, and if it was cancelled or withdrawn it is so still.
pub history-Survives :
    (calls : List (Host × Call)) (s : State) (id : ℕ) (c : Campaign)
    → IsListed s
    → get_campaign id s ≡ some c
    → Survives id c (history calls s)
history-Survives calls s id c v e =
    Moves-Survives id c v.numbered e (history-Moves calls s v.initialized)
