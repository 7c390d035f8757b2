-- ===== src/Listing/Actives.antt =====
-- `list_active_campaigns` against the open campaigns of a range of ids (src/queries.rs).
use proof_of_heart_stellar.Prelude.{
  ltb, leb, ◌==◌, if◌then◌else◌, min, Bool-cases, Option-cases, length, prepend, ℕ, zero, suc, ◌+◌,
  ◌-◌, ◌≤◌, ◌<◌, ◌≡◌, refl, sym, ap, ◌∙◌, subst, ◌⊎◌, inl, inr, true, false, Option, none, some,
  List, [], ◌∷◌, arith,
}
use proof_of_heart_stellar.Prelude.Words.{checked_add_u32}
use proof_of_heart_stellar.Types.{Campaign}
use proof_of_heart_stellar.Types.Limits.{list_max_limit, max_scan_window}
use proof_of_heart_stellar.Store.{State, get_campaign_count, get_campaign}
use proof_of_heart_stellar.Queries.{open_only, collect, scan_active, list_active_campaigns}

-- The open campaigns among `left` ids from `id` on.
unfoldable pub open_campaigns : ℕ → ℕ → State → List Campaign
open_campaigns id zero s = []
open_campaigns id (suc left) s =
    prepend (open_only (get_campaign id s)) (open_campaigns (id + 1) left s)

-- How many of the `left` ids from `id` on a scan has been through, by the cursor that it returns.
abbrev pub scanned : ℕ → ℕ → ℕ → ℕ
scanned id left cursor = if cursor == 0 then left else cursor - id

-- The campaigns of a scan and its cursor.
abbrev Scanned : ℕ → ℕ → ℕ → State → List Campaign × ℕ → Type 0
Scanned room id left s (campaigns, cursor) =
    (campaigns ≡ open_campaigns id (scanned id left cursor) s)
    × ((cursor ≡ 0) ⊎ ((id ≤ cursor) × (cursor ≤ id + left)))
    × (length campaigns ≤ room)

scanned-suc :
    (id left cursor : ℕ)
    → (cursor ≡ 0) ⊎ ((id + 1 ≤ cursor) × (cursor ≤ id + 1 + left))
    → scanned id (suc left) cursor ≡ suc (scanned (id + 1) left cursor)
scanned-suc id left cursor (inl e) = rw e refl
scanned-suc id left cursor (inr (h, k)) = ground arith

-- One id more at the front.
Scanned-prepend :
    (room below id left cursor : ℕ) (s : State) (o : Option Campaign) (campaigns : List Campaign)
    → open_only (get_campaign id s) ≡ o
    → length (prepend o campaigns) ≤ room
    → Scanned below (id + 1) left s (campaigns, cursor)
    → Scanned room id (suc left) s (prepend o campaigns, cursor)
unfolding open_campaigns
Scanned-prepend room below id left cursor s o campaigns e h (c, k, l) =
    let f : prepend o campaigns ≡ open_campaigns id (suc (scanned (id + 1) left cursor)) s =
      rw (e, c) refl in
    (
      f ∙ ap (λ n. open_campaigns id n s) (sym (scanned-suc id left cursor k)),
      elim k [ inl z ↦ inl z | inr (a, b) ↦ inr (omega arith, omega arith) ],
      h,
    )

-- Of a scan that does not trap.
abbrev Answered : ℕ → ℕ → ℕ → State → Option (List Campaign × ℕ) → Type 0
Answered room id left s none = Unit {0}
Answered room id left s (some r) = Scanned room id left s r

Answered-skip :
    (room id left : ℕ) (s : State) (r : Option (List Campaign × ℕ))
    → open_only (get_campaign id s) ≡ none
    → Answered room (id + 1) left s r
    → Answered room id (suc left) s r
Answered-skip room id left s none e a = tt
Answered-skip room id left s (some (cs, cursor)) e a =
    Scanned-prepend room room id left cursor s none cs e (a.2) a

Answered-collect :
    (room below id left : ℕ) (s : State) (c : Campaign) (r : Option (List Campaign × ℕ))
    → below < room
    → open_only (get_campaign id s) ≡ some c
    → Answered below (id + 1) left s r
    → Answered room id (suc left) s (collect c r)
Answered-collect room below id left s c none h e a = tt
Answered-collect room below id left s c (some (cs, cursor)) h e a =
    Scanned-prepend room below id left cursor s (some c) cs e (ground (arith, a.2)) a

next_cases : (id : ℕ) → (checked_add_u32 id 1 ≡ none) ⊎ (checked_add_u32 id 1 ≡ some (id + 1))
unfolding checked_add_u32
next_cases id = ground arith

pub scan_active-Answered :
    (window limit collected id left : ℕ) (s : State)
    → 1 ≤ id
    → collected < limit
    → Answered (limit - collected) id left s (scan_active window limit collected id left s)
unfolding scan_active open_campaigns
scan_active-Answered window limit collected id zero s l h = (refl, inl refl, omega arith)
scan_active-Answered window limit collected id (suc left) s l h =
    elim (Bool-cases (ltb window id)) [
      | inl q ↦
          rw (scan_active, q)
            (
              ap (λ n. open_campaigns id n s) none_scanned,
              inr (omega arith, omega arith),
              omega arith,
            )
      | inr q ↦ elim (next_cases id) [
        | inl z ↦ trapped q z
        | inr z ↦ elim (Option-cases (open_only (get_campaign id s))) [
          | inl e ↦
              rw (scan_active, q, e, z)
                (Answered-skip (limit - collected) id left s _ e
                  (scan_active-Answered window limit collected (id + 1) left s (omega arith) h))
          | inr (c, e) ↦ elim (Bool-cases (leb limit (collected + 1))) [
            | inl k ↦
                rw (scan_active, q, e, k, z)
                  (
                    open_one c e ∙ ap (λ n. open_campaigns id n s) one_scanned,
                    inr (omega arith, omega arith),
                    ground arith,
                  )
            | inr k ↦
                rw (scan_active, q, e, k, z)
                  (Answered-collect (limit - collected) (limit - (collected + 1)) id left s c _
                    (ground arith) e
                    (scan_active-Answered window limit (collected + 1) (id + 1) left s (omega arith)
                      (ground arith)))
          ]
        ]
      ]
    ]
  where
    none_scanned : 0 ≡ scanned id (suc left) id
    none_scanned = ground arith

    one_scanned : 1 ≡ scanned id (suc left) (id + 1)
    one_scanned = ground arith

    open_one :
        (c : Campaign) → open_only (get_campaign id s) ≡ some c → c ∷ [] ≡ open_campaigns id 1 s
    open_one c e = rw e refl

    trapped :
        ltb window id ≡ false
        → checked_add_u32 id 1 ≡ none
        → Answered
            (limit - collected)
            id
            (suc left)
            s
            (scan_active window limit collected id (suc left) s)
    trapped q z = elim (Option-cases (open_only (get_campaign id s))) [
      | inl e ↦ rw (scan_active, q, e, z) tt
      | inr (c, e) ↦ elim (Bool-cases (leb limit (collected + 1))) [
        | inl k ↦ rw (scan_active, q, e, k, z) tt
        | inr k ↦ rw (scan_active, q, e, k, z) tt
      ]
    ]

module _ (start limit : ℕ) (s : State) (campaigns : List Campaign) (cursor : ℕ) where
  past_the_end :
      leb (get_campaign_count s) start ≡ true
      → list_active_campaigns start limit s ≡ some (campaigns, cursor)
      → (campaigns ≡ []) × (cursor ≡ 0)
  unfolding list_active_campaigns
  past_the_end q h = ground arith

  scan_made :
      0 < limit
      → leb (get_campaign_count s) start ≡ false
      → list_active_campaigns start limit s ≡ some (campaigns, cursor)
      → scan_active
          (start + max_scan_window)
          (min limit list_max_limit)
          0
          (start + 1)
          (get_campaign_count s - start)
          s
        ≡ some (campaigns, cursor)
  unfolding list_active_campaigns checked_add_u32
  scan_made l q h = ground arith

  -- At a limit above 0, an answer of `list_active_campaigns` has exactly the open campaigns after
  -- `start` in order, of all ids if the cursor is 0, and else of the ids below the cursor; the
  -- cursor is then after `start` and at most one past the count, and the answer is within the
  -- limit and the cap of 50.
  pub list_active_campaigns-Scanned :
      0 < limit
      → list_active_campaigns start limit s ≡ some (campaigns, cursor)
      → (campaigns
          ≡ open_campaigns
              (start + 1)
              (if cursor == 0 then get_campaign_count s - start else cursor - (start + 1))
              s)
        × ((cursor ≡ 0) ⊎ ((start < cursor) × (cursor ≤ get_campaign_count s + 1)))
        × (length campaigns ≤ min limit list_max_limit)
  unfolding open_campaigns
  list_active_campaigns-Scanned l h =
      let count = get_campaign_count s in
      elim (Bool-cases (leb count start)) [
        | inl q ↦
            let (e, z) = past_the_end q h in
            let n : 0 ≡ scanned (start + 1) (count - start) cursor = rw z (ground arith) in
            (e ∙ ap (λ k. open_campaigns (start + 1) k s) n, inl z, rw e (omega arith))
        | inr q ↦
            let r =
              scan_active-Answered (start + max_scan_window) (min limit list_max_limit) 0
                (start + 1) (count - start) s (omega arith) (ground arith) in
            let e : scan_active (start + max_scan_window) (min limit list_max_limit) 0 (start + 1)
                  (count - start) s
                ≡ some (campaigns, cursor) =
              scan_made l q h in
            let w : Scanned (min limit list_max_limit - 0) (start + 1) (count - start) s
                (campaigns, cursor) =
              subst (Answered (min limit list_max_limit - 0) (start + 1) (count - start) s) e r in
            (
              w.0,
              elim (w.1) [ inl z ↦ inl z | inr (a, b) ↦ inr (omega arith, ground arith) ],
              omega (arith, w.2),
            )
      ]
