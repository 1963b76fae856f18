-- ===== src/RentContract/Split.antt =====
-- How `payRent` of contracts/RentDistribution.sol splits a rent.
use web3_real_estate.Base.{ℕ, ◌+◌, ◌*◌, ◌/◌, ◌%◌, ◌≤◌, ◌<◌, List, [], ◌∷◌, arith, get_or}
use native.Mathlib.Nat.{div-add-mod, mod-lt}
use web3_real_estate.Indexer.Rows.{Address}
use web3_real_estate.Indexer.Chain.{Chain}
use web3_real_estate.RentContract.{Payout, payout, payouts, word}

abbrev pub paid : List Payout → ℕ
paid [] = 0
paid (x ∷ xs) = x.amount + paid xs

-- The tokens that the wallets hold together.
abbrev pub held : Chain → Address → List Address → ℕ
held c token [] = 0
held c token (w ∷ ws) = get_or (c.balance_of token w) 0 + held c token ws

cancel : (n a b : ℕ) → 0 < n → n * a ≤ n * b → a ≤ b
cancel n a b h k = grind arith

mod_le : (a n : ℕ) → 0 < n → a % n ≤ a
mod_le a n h = omega (arith, div-add-mod a n, mod-lt a h)

div_le : (a n : ℕ) → 0 < n → n * (a / n) ≤ a
div_le a n h = omega (arith, div-add-mod a n, mod-lt a h)

payout_le :
    (rent supply : ℕ) (w : Address) (b : ℕ)
    → 0 < supply
    → supply * (payout rent supply w b).amount ≤ rent * b
unfolding payout
payout_le rent supply w b h =
    omega (arith, div_le (rent * b % word) supply h, mod_le (rent * b) word (omega arith))

paid_bound :
    (c : Chain) (token : Address) (rent supply : ℕ) (ws : List Address)
    → 0 < supply
    → supply * paid (payouts c token rent supply ws) ≤ rent * held c token ws
unfolding payouts
paid_bound c token rent supply [] h = omega arith
paid_bound c token rent supply (w ∷ ws) h = omega (
  arith,
  payout_le rent supply w (get_or (c.balance_of token w) 0) h,
  paid_bound c token rent supply ws h,
)

-- If the supply covers what the wallets hold, a rent is not exceeded by its payouts.
pub paid-le :
    (c : Chain) (token : Address) (rent supply : ℕ) (ws : List Address)
    → 0 < supply
    → held c token ws ≤ supply
    → paid (payouts c token rent supply ws) ≤ rent
paid-le c token rent supply ws h k =
    let capped : rent * held c token ws ≤ supply * rent = grind arith in
    cancel supply _ _ h (omega (arith, paid_bound c token rent supply ws h))
