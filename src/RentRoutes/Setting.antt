-- ===== src/RentRoutes/Setting.antt =====
-- The routes of the owner: `set_property_rent` and `sync_rent_chain` of
-- backend/api/routers/rent.py.
use web3_real_estate.Base.{
  ℕ, ◌+◌, Bool, false, eqb, if◌then◌else◌, none, some, get_or, List, [], ◌∷◌, nat_eq, ok, err,
}
use web3_real_estate.Indexer.Rows.{PropertyRow}
use web3_real_estate.Indexer.Chain.{Chain}
use web3_real_estate.Yield.{Rpc, World, get_rent_property_info}
use web3_real_estate.Yield.Backfill.{Credit, backfill_missed_rent_accruals}
use web3_real_estate.Yield.Investors.{sync_investors_to_contract}
use web3_real_estate.Yield.Setup.{
  require_property_token, ensure_rent_property_registered, set_monthly_rent,
  sync_rent_amount_to_contract,
}
use web3_real_estate.RentContract.{count}
use web3_real_estate.RentRoutes.{
  User, HttpError, is_owner, Site, setup_status, Answer, refuse, guard, property_of,
}

unfoldable pub count_credits : List Credit → ℕ
count_credits [] = 0
count_credits (x ∷ xs) = 1 + count_credits xs

module _ (c : Chain) (rpc : Rpc) (site : Site) where
  -- `set_property_rent`: the rent that was set, and the investors that were added. A transaction
  -- that was sent stays when the database is rolled back.
  unfoldable pub stored_rent : ℕ → ℕ → List PropertyRow → List PropertyRow
  stored_rent p rent [] = []
  stored_rent p rent (r ∷ rs) =
      (if eqb r.id p then record r { monthly_rent_wei = some rent } else r) ∷ stored_rent p rent rs

  unfoldable pub set_rent : PropertyRow → ℕ → ℕ → World → Answer (ℕ × ℕ)
  set_rent row p rent w =
      elim (ensure_rent_property_registered c rpc site.is_security_token site.mismatch row p w) [
        | err e ↦ refuse (setup_status e) w
        | ok w' ↦ elim (set_monthly_rent c rpc site.is_security_token site.mismatch p rent w') [
          | err e ↦ refuse (setup_status e) w'
          | ok w'' ↦
              let (synced, last) = sync_investors_to_contract c rpc p (record w'' {
                store = record (w''.store) { properties = stored_rent p rent w''.store.properties };
              }) in
              (ok (rent, count (get_or synced [])), last)
        ]
      ]

  unfoldable pub owner_only : User → ℕ → Bool
  owner_only user p = elim (site.owner_wallet p) [
    | none ↦ false
    | some owner ↦ eqb owner user.wallet
  ]

  unfoldable pub set_property_rent : User → ℕ → ℕ → World → Answer (ℕ × ℕ)
  set_property_rent user p rent w =
      guard (is_owner user.role) HttpError.forbidden w (elim (property_of p w) [
        | none ↦ refuse HttpError.not_found w
        | some row ↦
            guard (owner_only user p) HttpError.forbidden w
              (elim (require_property_token c rpc site.is_security_token site.mismatch row) [
                | some e ↦ refuse (setup_status e) w
                | none ↦ set_rent row p rent w
              ])
      ])

  -- `sync_rent_chain` after its checks: the rent, and the numbers of investors and credits added. A
  -- failed backfill is logged.
  unfoldable pub sync_chain : PropertyRow → ℕ → World → Answer (ℕ × ℕ × ℕ)
  sync_chain row p w =
      elim (ensure_rent_property_registered c rpc site.is_security_token site.mismatch row p w) [
        | err e ↦ refuse (setup_status e) w
        | ok w₁ ↦
            elim (sync_rent_amount_to_contract c rpc site.is_security_token site.mismatch row p
              w₁) [
                | err e ↦ refuse (setup_status e) w₁
                | ok (rent, w₂) ↦
                    let (added, w₃) = sync_investors_to_contract c rpc p w₂ in
                    let (credits, w₄) = backfill_missed_rent_accruals c rpc p [] w₃ in
                    elim added as (λ _. Answer (ℕ × ℕ × ℕ)) [
                      | none ↦ refuse HttpError.server_error (record w₃ { store = w.store })
                      | some ws ↦
                          elim (get_rent_property_info rpc p w₄) as (λ _. Answer (ℕ × ℕ × ℕ)) [
                            | none ↦ refuse HttpError.server_error w₄
                            | some info ↦ (
                              ok (
                                if eqb info.monthly_rent_wei 0 then rent else info.monthly_rent_wei,
                                count ws,
                                count_credits (get_or credits []),
                              ),
                              w₄,
                            )
                          ]
                    ]
              ]
      ]

  unfoldable pub sync_rent_chain : User → ℕ → World → Answer (ℕ × ℕ × ℕ)
  sync_rent_chain user p w =
      guard (is_owner user.role) HttpError.forbidden w (elim (property_of p w) [
        | none ↦ refuse HttpError.not_found w
        | some row ↦
            guard (owner_only user p) HttpError.forbidden w
              (elim (require_property_token c rpc site.is_security_token site.mismatch row) [
                | some e ↦ refuse (setup_status e) w
                | none ↦ sync_chain row p w
              ])
      ])
