-- ===== src/RentContract/Rents.antt =====
-- A payment to `payRent` of contracts/RentDistribution.sol as a whole.
use web3_real_estate.Base.{ℕ, Bool, ◌+◌, ◌≤◌, ◌<◌, ◌≡◌, some, arith, Option-cases, inl, inr}
use web3_real_estate.Indexer.Rows.{Address}
use web3_real_estate.Indexer.Chain.{Chain}
use web3_real_estate.RentContract.{Contract, Payment, distribute, pay_rent}
use web3_real_estate.RentContract.Split.{held, paid-le}
use web3_real_estate.RentContract.Sound.{IsSound, owed, distribute-Pays}

-- What a transaction does to the contract.
module _ (c : Chain) (accepts : Bool) (p value : ℕ) (s s' : Contract) (r : Payment)
    (answer : pay_rent c accepts p value s ≡ some (r, s')) where
  abbrev pub token : Address
  token = (s.properties p).token_contract

  abbrev pub rent : ℕ
  rent = (s.properties p).monthly_rent_wei

  -- The supply of the property's token covers what its registered investors hold.
  abbrev pub Backed : Type 0
  Backed = (n : ℕ) → c.total_supply token ≡ some n → held c token (s.investors p) ≤ n

  pay_rent_inv :
      (n : ℕ) × (c.total_supply token ≡ some n)
      × (0 < n)
      × (rent ≤ value)
      × (distribute c p value rent n s ≡ some (r, s'))
  pay_rent_inv = elim (Option-cases (c.total_supply token)) [
    | inl e ↦ absurd (unfold pay_rent in ground (arith, answer, e))
    | inr (n, e) ↦ (
      n,
      e,
      unfold pay_rent in ground (arith, answer, e),
      unfold pay_rent in ground (arith, answer, e),
      unfold pay_rent in ground (arith, answer, e),
    )
  ]

  -- A rent that `payRent` accepts adds the rent to the contract's ether and to the rent that it has
  -- collected, whatever was sent above it; what the contract owes grows by the payouts, which do not
  -- exceed the rent if the token's supply covers what the investors hold; and a contract whose
  -- ledgers agree and whose ether covers its debts stays one.
  pub pay_rent-IsSound :
      Backed
      → IsSound s
      → IsSound s'
        × (s'.balance ≡ s.balance + rent)
        × (s'.total_rent_collected ≡ s.total_rent_collected + rent)
        × (owed s ≤ owed s')
        × (owed s' ≤ owed s + rent)
  pay_rent-IsSound backed sound =
      let (n, e, pos, enough, d) = pay_rent_inv in
      let k = distribute-Pays c p value rent n s s' r enough d in
      let cap = paid-le c token rent n (s.investors p) pos (backed n e) in
      (
        record {
          agrees = λ w. k.agrees_paid w (sound.agrees w);
          solvent = omega (arith, k.owed_paid, k.balance_paid, cap, sound.solvent);
        },
        k.balance_paid,
        k.collected_paid,
        omega (arith, k.owed_paid),
        omega (arith, k.owed_paid, cap),
      )
