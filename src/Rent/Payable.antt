-- ===== src/Rent/Payable.antt =====
-- Which tenants may pay the rent of a property, by its payments and rentals.
use web3_real_estate.Base.{
  ℕ, ◌≤◌, ◌≡◌, ◌⊎◌, ◌↔◌, Bool, true, false, ◌&&◌, ltb, eqb, ◌==◌, none, some, List, [], ◌∷◌, arith,
  Option-cases, Bool-cases, inl, inr, refl,
}
use web3_real_estate.Base.Text.{Text, text_eq, text_beq, text_beq_iff}
use web3_real_estate.Rent.Cycle.{
  DateTime, date_before, same_date, before, add_one_calendar_month, Payment, latest,
  compute_rent_period_status, property_rent_period_status,
  get_last_confirmed_rent_payment_for_property,
}
use web3_real_estate.Rent.Eligibility.{
  Rental, get_property_active_rental_holder, claimed_by_other, build_tenant_property_rent_fields,
  wallet_matches, tenant_may_pay_rent,
}
use web3_real_estate.Rent.Due.{NoneAfter, latest_lem}

-- An element of a list.
pub data Among {A : Type 0} (x : A) : List A → Type 0 where
  here : (xs : List A) → Among x (x ∷ xs)
  there : (y : A) (xs : List A) → Among x xs → Among x (y ∷ xs)

abbrev pub of_property : ℕ → Payment → Bool
of_property property_id p = eqb p.property_id property_id

-- A last payment of a property: a confirmed one in the list, and none is later.
pub record IsLast (property_id : ℕ) (payments : List Payment) (p : Payment) : Type 0 where
  pub listed : Among p payments
  pub selected : p.confirmed && of_property property_id p ≡ true
  pub none_after : NoneAfter (of_property property_id) p.payment_date payments

-- A last payment covers the time.
abbrev pub Covered : List Payment → ℕ → DateTime → Type 0
Covered payments property_id now =
    (p : Payment) × IsLast property_id payments p
    × (before now (add_one_calendar_month p.payment_date) ≡ true)

latest-Among :
    (select : Payment → Bool) (ps : List Payment) (p : Payment)
    → latest select ps ≡ some p
    → Among p ps
unfolding latest
latest-Among select [] p e = absurd (ground (arith, e))
latest-Among select (q ∷ ps) p e = elim (Option-cases (latest select ps)) [
  | inl f ↦ let same : q ≡ p = ground (arith, e, f) in rw (← same) (Among.here ps)
  | inr (r, f) ↦ elim (chosen r f) [
    | inl same ↦ rw (← same) (Among.here ps)
    | inr same ↦ rw (← same) (Among.there q ps (latest-Among select ps r f))
  ]
]
  where
    chosen : (r : Payment) → latest select ps ≡ some r → (q ≡ p) ⊎ (r ≡ p)
    chosen r f =
        elim (Bool-cases (q.confirmed && select q && before q.payment_date r.payment_date)) [
          | inl b ↦ inr (ground (arith, e, f, b))
          | inr b ↦ elim (Bool-cases (q.confirmed && select q)) [
            | inl d ↦ inl (ground (arith, e, f, b, d))
            | inr d ↦ inr (ground (arith, e, f, b, d))
          ]
        ]

Among-not_after :
    (select : Payment → Bool) (p : Payment) (ps : List Payment) (t : DateTime)
    → Among p ps
    → p.confirmed && select p ≡ true
    → NoneAfter select t ps
    → before t p.payment_date ≡ false
Among-not_after select p _ t (Among.here ps) h k = k.0 h
Among-not_after select p _ t (Among.there q ps m) h k = Among-not_after select p ps t m h k.1

Among-latest :
    (select : Payment → Bool) (p : Payment) (ps : List Payment)
    → Among p ps
    → p.confirmed && select p ≡ true
    → (q : Payment) × (latest select ps ≡ some q)
unfolding latest
Among-latest select p _ (Among.here ps) h = elim (Option-cases (latest select ps)) [
  | inl f ↦ (p, ground (arith, f, h))
  | inr (r, f) ↦ elim (Bool-cases (before p.payment_date r.payment_date)) [
    | inl b ↦ (r, ground (arith, f, h, b))
    | inr b ↦ (p, ground (arith, f, h, b))
  ]
]
Among-latest select p _ (Among.there q ps m) h =
    let (r, f) = Among-latest select p ps m h in
    elim (Bool-cases (q.confirmed && select q)) [
      | inr d ↦ (r, ground (arith, f, d))
      | inl d ↦ elim (Bool-cases (before q.payment_date r.payment_date)) [
        | inl b ↦ (r, ground (arith, f, d, b))
        | inr b ↦ (q, ground (arith, f, d, b))
      ]
    ]

same_time : (a b : DateTime) → before a b ≡ false → before b a ≡ false → a ≡ b
unfolding before date_before same_date
same_time a b h k = ground arith

-- The query answers a last payment if there is one, of the same time as every other.
last_found :
    (property_id : ℕ) (payments : List Payment) (p : Payment)
    → IsLast property_id payments p
    → (q : Payment) × (latest (of_property property_id) payments ≡ some q)
      × (q.payment_date ≡ p.payment_date)
last_found property_id payments p last =
    let select = of_property property_id in
    let (q, f) = Among-latest select p payments last.listed last.selected in
    let (selected, none_after) = latest_lem select payments q f in
    (
      q,
      f,
      same_time q.payment_date p.payment_date
          (Among-not_after select p payments q.payment_date last.listed last.selected none_after)
          (Among-not_after select q payments p.payment_date (latest-Among select payments q f)
            selected last.none_after),
    )

paid-Covered :
    (payments : List Payment) (property_id : ℕ) (now : DateTime)
    → (property_rent_period_status payments property_id now).current_cycle_paid ≡ true
    → Covered payments property_id now
unfolding property_rent_period_status compute_rent_period_status
    get_last_confirmed_rent_payment_for_property
paid-Covered payments property_id now e =
    elim (Option-cases (latest (of_property property_id) payments)) [
      | inl f ↦ absurd (ground (arith, e, f))
      | inr (p, f) ↦
          let (selected, none_after) = latest_lem (of_property property_id) payments p f in
          (
            p,
            record {
              listed = latest-Among (of_property property_id) payments p f;
              selected = selected;
              none_after = none_after;
            },
            ground (arith, e, f),
          )
    ]

Covered-paid :
    (payments : List Payment) (property_id : ℕ) (now : DateTime)
    → Covered payments property_id now
    → (property_rent_period_status payments property_id now).current_cycle_paid ≡ true
unfolding property_rent_period_status compute_rent_period_status
    get_last_confirmed_rent_payment_for_property
Covered-paid payments property_id now (p, last, early) =
    let (q, f, same) = last_found property_id payments p last in rw (f, same) early

abbrev pub is_active_of : ℕ → Rental → Bool
is_active_of property_id r = r.active && eqb r.property_id property_id

-- No active rental of the property is newer.
abbrev pub NoneNewer : ℕ → ℕ → List Rental → Type 0
NoneNewer property_id t [] = Unit
NoneNewer property_id t (r ∷ rs) =
    (is_active_of property_id r ≡ true → r.created_at ≤ t) × NoneNewer property_id t rs

-- A newest active rental of a property.
pub record IsNewest (property_id : ℕ) (rentals : List Rental) (r : Rental) : Type 0 where
  pub listed : Among r rentals
  pub selected : is_active_of property_id r ≡ true
  pub none_newer : NoneNewer property_id r.created_at rentals

NoneNewer-later :
    (property_id t u : ℕ) (rs : List Rental)
    → t ≤ u
    → NoneNewer property_id t rs
    → NoneNewer property_id u rs
NoneNewer-later property_id t u [] h k = tt
NoneNewer-later property_id t u (r ∷ rs) h k =
    (λ e. omega (arith, h, k.0 e), NoneNewer-later property_id t u rs h k.1)

NoneNewer-none :
    (property_id t : ℕ) (rs : List Rental)
    → get_property_active_rental_holder property_id rs ≡ none
    → NoneNewer property_id t rs
unfolding get_property_active_rental_holder
NoneNewer-none property_id t [] e = tt
NoneNewer-none property_id t (r ∷ rs) e = ground (arith, NoneNewer-none property_id t rs)

Among-holder :
    (property_id : ℕ) (r : Rental) (rs : List Rental)
    → Among r rs
    → is_active_of property_id r ≡ true
    → (q : Rental) × (get_property_active_rental_holder property_id rs ≡ some q)
unfolding get_property_active_rental_holder
Among-holder property_id r _ (Among.here rs) h =
    elim (Option-cases (get_property_active_rental_holder property_id rs)) [
      | inl f ↦ (r, ground (arith, f, h))
      | inr (q, f) ↦ elim (Bool-cases (ltb r.created_at q.created_at)) [
        | inl b ↦ (q, ground (arith, f, h, b))
        | inr b ↦ (r, ground (arith, f, h, b))
      ]
    ]
Among-holder property_id r _ (Among.there x rs m) h =
    let (q, f) = Among-holder property_id r rs m h in
    elim (Bool-cases (is_active_of property_id x)) [
      | inr d ↦ (q, ground (arith, f, d))
      | inl d ↦ elim (Bool-cases (ltb x.created_at q.created_at)) [
        | inl b ↦ (q, ground (arith, f, d, b))
        | inr b ↦ (x, ground (arith, f, d, b))
      ]
    ]

-- The first rental is newest, if it is active and no other is newer.
first-IsNewest :
    (property_id : ℕ) (x : Rental) (rs : List Rental)
    → is_active_of property_id x ≡ true
    → NoneNewer property_id x.created_at rs
    → IsNewest property_id (x ∷ rs) x
first-IsNewest property_id x rs h k = record {
  listed = Among.here rs;
  selected = h;
  none_newer = (λ e. omega arith, k);
}

later-IsNewest :
    (property_id : ℕ) (x r : Rental) (rs : List Rental)
    → (is_active_of property_id x ≡ true → x.created_at ≤ r.created_at)
    → IsNewest property_id rs r
    → IsNewest property_id (x ∷ rs) r
later-IsNewest property_id x r rs h k = record {
  listed = Among.there x rs k.listed;
  selected = k.selected;
  none_newer = (h, k.none_newer);
}

holder-IsNewest :
    (property_id : ℕ) (rentals : List Rental) (r : Rental)
    → get_property_active_rental_holder property_id rentals ≡ some r
    → IsNewest property_id rentals r
unfolding get_property_active_rental_holder
holder-IsNewest property_id [] r e = absurd (ground (arith, e))
holder-IsNewest property_id (x ∷ rs) r e =
    elim (Option-cases (get_property_active_rental_holder property_id rs)) [
      | inl f ↦
          let same : x ≡ r = ground (arith, e, f) in
          rw (← same) (
            first-IsNewest property_id x rs (ground (arith, e, f))
              (NoneNewer-none property_id x.created_at rs f))
      | inr (q, f) ↦
          let newest = holder-IsNewest property_id rs q f in
          elim (Bool-cases (is_active_of property_id x)) [
            | inr d ↦
                let same : q ≡ r = ground (arith, e, f, d) in
                rw (← same)
                  (later-IsNewest property_id x q rs (λ h. absurd (ground (arith, h, d))) newest)
            | inl d ↦ elim (Bool-cases (ltb x.created_at q.created_at)) [
              | inl b ↦
                  let same : q ≡ r = ground (arith, e, f, d, b) in
                  rw (← same) (later-IsNewest property_id x q rs (λ h. ground (arith, b)) newest)
              | inr b ↦
                  let same : x ≡ r = ground (arith, e, f, d, b) in
                  rw (← same) (
                    first-IsNewest property_id x rs d (
                      NoneNewer-later property_id q.created_at x.created_at rs (ground (arith, b))
                        newest.none_newer))
            ]
          ]
    ]

may_pay_flags :
    (payments : List Payment) (rentals : List Rental) (property_id : ℕ) (wallet : Text)
    (now : DateTime)
    → let fields = build_tenant_property_rent_fields payments rentals property_id wallet now in
      (tenant_may_pay_rent fields ≡ true) ↔ (
        ((property_rent_period_status payments property_id now).current_cycle_paid ≡ false)
        × (claimed_by_other (get_property_active_rental_holder property_id rentals) wallet ≡ false))
unfolding tenant_may_pay_rent build_tenant_property_rent_fields property_rent_period_status
    compute_rent_period_status
may_pay_flags payments rentals property_id wallet now = ground arith

-- Whoever pays is nobody, or the property is free, or it is the newest tenant.
abbrev pub Unclaimed : List Rental → ℕ → Text → Type 0
Unclaimed rentals property_id wallet =
    (wallet ≡ [])
    ⊎ (((r : Rental) → IsNewest property_id rentals r → ⊥)
        ⊎ ((r : Rental) × IsNewest property_id rentals r
            × (wallet_matches r.tenant_wallet wallet ≡ true)))

unclaimed :
    (rentals : List Rental) (property_id : ℕ) (wallet : Text)
    → claimed_by_other (get_property_active_rental_holder property_id rentals) wallet ≡ false
    → Unclaimed rentals property_id wallet
unfolding claimed_by_other
unclaimed rentals property_id wallet e = elim (Bool-cases (wallet == [])) [
  | inl empty ↦ inl ((text_beq_iff wallet []).0 empty)
  | inr real ↦ elim (Option-cases (get_property_active_rental_holder property_id rentals)) [
    | inl f ↦ inr (
        inl (λ r newest.
          let (q, g) = Among-holder property_id r rentals newest.listed newest.selected in
          cc (f, g)))
    | inr (q, f) ↦
        inr (inr (q, holder-IsNewest property_id rentals q f, ground (arith, e, f, real)))
  ]
]

not_claimed :
    (rentals : List Rental) (property_id : ℕ) (wallet : Text)
    → (wallet ≡ [])
      ⊎ ((r : Rental)
          → IsNewest property_id rentals r
          → wallet_matches r.tenant_wallet wallet ≡ true)
    → claimed_by_other (get_property_active_rental_holder property_id rentals) wallet ≡ false
unfolding claimed_by_other text_beq
not_claimed rentals property_id wallet h =
    elim (Option-cases (get_property_active_rental_holder property_id rentals)) [
      | inl f ↦ rw f refl
      | inr (q, f) ↦ rw f (elim h [
        | inl empty ↦ rw empty refl
        | inr own ↦
            let matches = own q (holder-IsNewest property_id rentals q f) in ground (arith, matches)
      ])
    ]

-- Who may pay, by the tables: a tenant who may pay finds no last payment of the property that
-- covers the time, and the tenant's wallet is empty, or no rental of the property is active, or a
-- newest active one is the tenant's. If no last payment covers the time, and the wallet is empty or
-- every newest active rental is the tenant's, the tenant may pay.
pub tenant_may_pay_rent_lem :
    (payments : List Payment) (rentals : List Rental) (property_id : ℕ) (wallet : Text)
    (now : DateTime)
    → let fields = build_tenant_property_rent_fields payments rentals property_id wallet now in
      (tenant_may_pay_rent fields ≡ true
        → (Covered payments property_id now → ⊥) × Unclaimed rentals property_id wallet)
      × ((Covered payments property_id now → ⊥)
          → (wallet ≡ [])
            ⊎ ((r : Rental)
                → IsNewest property_id rentals r
                → wallet_matches r.tenant_wallet wallet ≡ true)
          → tenant_may_pay_rent fields ≡ true)
tenant_may_pay_rent_lem payments rentals property_id wallet now =
    let flags = may_pay_flags payments rentals property_id wallet now in
    (
      λ may. (
        λ covered.
            let (paid, _) = flags.0 may in cc (paid, Covered-paid payments property_id now covered),
        unclaimed rentals property_id wallet (flags.0 may).1,
      ),
      λ free own. flags.1 (
        elim (Bool-cases
            (property_rent_period_status payments property_id now).current_cycle_paid) [
              | inl paid ↦ absurd (free (paid-Covered payments property_id now paid))
              | inr unpaid ↦ unpaid
            ],
        not_claimed rentals property_id wallet own,
      ),
    )
