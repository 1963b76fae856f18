-- ===== src/Yield/Ready.antt =====
-- What holds of the contract once the backend has made it ready for a payment.
use web3_real_estate.Base.{
  ℕ, ◌≤◌, ◌<◌, ◌≡◌, refl, Bool, true, false, eqb, get_or, arith, Bool-cases, Option-cases,
  Result-cases, inl, inr, ok, err,
}
use web3_real_estate.Indexer.Rows.{Address, PropertyRow}
use web3_real_estate.Indexer.Chain.{Chain}
use web3_real_estate.RentContract
use web3_real_estate.RentContract.{Contract, PropertyInfo, max_rent}
use web3_real_estate.Yield.{Rpc, World, get_rent_property_info, send, is_active}
use web3_real_estate.Yield.Setup.{
  SetupError, says_too_high, validate_monthly_rent_for_chain, no_info, set_monthly_rent,
  register_property_for_rent, ensure_rent_property_registered, settle_for_chain_rent, write_rent,
  sync_rent_amount_to_contract, keep_chain_rent, ensure_rent_chain_ready_for_payment,
}

module _ (c : Chain) (rpc : Rpc) (is_security_token : Address → Bool) (mismatch : Bool) where
  abbrev Rents : ℕ → ℕ → World → Type 0
  Rents p rent w =
      ((w.contract.properties p).active ≡ true)
      × ((w.contract.properties p).monthly_rent_wei ≡ rent)

  -- For a rent above the limit of the contract, the preparation of a payment fails, whatever rent
  -- the contract already has: the fallback to the contract's rent is never taken.
  pub ensure_rent_chain_ready_for_payment_oversized :
      (row : PropertyRow) (p : ℕ) (w : World)
      → max_rent < get_or row.monthly_rent_wei 0
      → (e : SetupError) × (ensure_rent_chain_ready_for_payment c rpc is_security_token mismatch row
            p w
          ≡ err e)
  ensure_rent_chain_ready_for_payment_oversized row p w h =
      elim (Result-cases
        (ensure_rent_property_registered c rpc is_security_token mismatch row p w)) [
          | inr (e, f) ↦ (e, unfold ensure_rent_chain_ready_for_payment in ground (arith, f))
          | inl (w', f) ↦ (
            SetupError.rent_exceeds_limit,
            unfold ensure_rent_chain_ready_for_payment sync_rent_amount_to_contract
                  validate_monthly_rent_for_chain keep_chain_rent says_too_high in
                ground (arith, f, h),
          )
        ]

  write_rent_lem :
      (p rent onchain : ℕ) (w w' : World) (n : ℕ)
      → (w.contract.properties p).active ≡ true
      → (w.contract.properties p).monthly_rent_wei ≡ onchain
      → rent ≤ max_rent
      → write_rent c rpc is_security_token mismatch p rent onchain w ≡ ok (n, w')
      → (n ≡ rent) × Rents p rent w'
  write_rent_lem p rent onchain w w' n active there fits e = elim (Bool-cases (eqb onchain rent)) [
    | inl f ↦
        let same : (n ≡ rent) × (w ≡ w') = unfold write_rent in ground (arith, e, f) in
        (same.0, rw (← same.1) (active, ground (arith, f, there)))
    | inr f ↦ elim (Result-cases (set_monthly_rent c rpc is_security_token mismatch p rent w)) [
      | inl (u, g) ↦
          let done : (n ≡ rent) × (u ≡ w') = unfold write_rent in ground (arith, e, f, g) in
          (
            done.0,
            rw (← done.1) (
              unfold set_monthly_rent send RentContract.set_monthly_rent in
                  ground (arith, g, active),
              unfold set_monthly_rent send RentContract.set_monthly_rent in
                  ground (arith, g, active),
            ),
          )
      | inr (x, g) ↦ absurd (
          unfold write_rent set_monthly_rent settle_for_chain_rent says_too_high in
          ground (arith, e, f, g, fits))
    ]
  ]

  registered_lem :
      (row : PropertyRow) (p : ℕ) (w w' : World)
      → ensure_rent_property_registered c rpc is_security_token mismatch row p w ≡ ok w'
      → is_active (get_rent_property_info rpc p w) ≡ false
      → Rents p 0 w'
  registered_lem row p w w' e f = elim (Option-cases row.token_address) [
    | inl g ↦ absurd (unfold ensure_rent_property_registered in ground (arith, e, f, g))
    | inr (token, g) ↦ (
      unfold ensure_rent_property_registered register_property_for_rent send
            RentContract.register_property in
          ground (arith, e, f, g),
      unfold ensure_rent_property_registered register_property_for_rent send
            RentContract.register_property in
          ground (arith, e, f, g),
    )
  ]

  -- Where the rent of the database is synchronised to the contract, and is not zero, it is within the
  -- contract's limit, and the contract has the property as active and at exactly that rent.
  pub sync_rent_amount_to_contract_lem :
      (row : PropertyRow) (p n : ℕ) (w w' : World)
      → sync_rent_amount_to_contract c rpc is_security_token mismatch row p w ≡ ok (n, w')
      → 0 < n
      → (n ≡ get_or row.monthly_rent_wei 0)
        × (n ≤ max_rent)
        × ((w'.contract.properties p).active ≡ true)
        × ((w'.contract.properties p).monthly_rent_wei ≡ n)
  sync_rent_amount_to_contract_lem row p n w w' e pos =
      elim (Bool-cases (is_active (get_rent_property_info rpc p w))) [
        | inl a ↦
            let rent : ℕ = get_or row.monthly_rent_wei 0 in
            let fits : rent ≤ max_rent =
              unfold sync_rent_amount_to_contract validate_monthly_rent_for_chain in
              ground (arith, e, pos) in
            let f : write_rent c rpc is_security_token mismatch p rent
                  (w.contract.properties p).monthly_rent_wei w
                ≡ ok (n, w') =
              unfold sync_rent_amount_to_contract validate_monthly_rent_for_chain
                get_rent_property_info no_info in
              ground (arith, e, a, pos, fits) in
            let there : (w.contract.properties p).active ≡ true =
              unfold get_rent_property_info in ground (arith, a) in
            done fits (write_rent_lem p rent _ w w' n there refl fits f)
        | inr a ↦
            elim (Result-cases
              (ensure_rent_property_registered c rpc is_security_token mismatch row p w)) [
                | inr (x, g) ↦ absurd (
                    unfold sync_rent_amount_to_contract get_rent_property_info no_info in
                    ground (arith, e, a, pos, g))
                | inl (u, g) ↦
                    let rent : ℕ = get_or row.monthly_rent_wei 0 in
                    let fits : rent ≤ max_rent =
                      unfold sync_rent_amount_to_contract validate_monthly_rent_for_chain in
                      ground (arith, e, pos) in
                    let f : write_rent c rpc is_security_token mismatch p rent 0 u ≡ ok (n, w') =
                      unfold sync_rent_amount_to_contract validate_monthly_rent_for_chain
                        get_rent_property_info no_info in
                      ground (arith, e, a, pos, fits, g) in
                    let there = registered_lem row p w u g a in
                    done fits (write_rent_lem p rent 0 u w' n there.0 there.1 fits f)
              ]
      ]
    where
      done :
          get_or row.monthly_rent_wei 0 ≤ max_rent
          → (n ≡ get_or row.monthly_rent_wei 0) × Rents p (get_or row.monthly_rent_wei 0) w'
          → (n ≡ get_or row.monthly_rent_wei 0)
            × (n ≤ max_rent)
            × ((w'.contract.properties p).active ≡ true)
            × ((w'.contract.properties p).monthly_rent_wei ≡ n)
      done fits (a, (b, d)) = (a, omega arith, b, omega arith)
