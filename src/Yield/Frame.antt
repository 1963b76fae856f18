-- ===== src/Yield/Frame.antt =====
-- What a backfill of missed rent leaves alone, and that recorded payouts only grow under it.
use web3_real_estate.Base.{
  ℕ, ◌≤◌, ◌≡◌, refl, ap, ◌∙◌, true, Option, none, some, List, [], ◌∷◌, arith, Option-cases, inl,
  inr, pair_eq, pair_beq, if◌then◌else◌,
}
use mathlib.Core.Path.{ap₂, fun_ext}
use web3_real_estate.Base.Keyed.{find, find-upsert}
use web3_real_estate.Indexer.Rows.{Address, DistributionRow, PayoutRow, Store, payout_key}
use web3_real_estate.Indexer.Chain.{Chain, ChainShare}
use web3_real_estate.Indexer.Payouts.{
  Share, insert_payout, get_rent_distribution_breakdown, build_rent_distribution_preview_from_db,
}
use web3_real_estate.RentContract.{calculate_distribution}
use web3_real_estate.Yield.{Rpc, World}
use web3_real_estate.Yield.Backfill.{
  Credit, already_wei, raise_payout, missed_row, record_payout, backfill_entry, then_more,
  backfill_entries, seen, breakdown,
}
use web3_real_estate.Yield.Accruals.{Entry, entry_lem}

-- From one world to a later one: what a breakdown reads is the same, and no recorded payout is less.
pub record Frame (w w' : World) : Type 0 where
  pub properties_same : w'.contract.properties ≡ w.contract.properties
  pub investors_same : w'.contract.investors ≡ w.contract.investors
  pub rows_same : w'.store.properties ≡ w.store.properties
  pub users_same : w'.store.users ≡ w.store.users
  pub ownerships_same : w'.store.ownerships ≡ w.store.ownerships
  pub distributions_same : w'.store.distributions ≡ w.store.distributions
  pub grows : (k : ℕ × Address) → already_wei k w.store.payouts ≤ already_wei k w'.store.payouts

pub Frame-refl : (w : World) → Frame w w
Frame-refl w = record {
  properties_same = refl;
  investors_same = refl;
  rows_same = refl;
  users_same = refl;
  ownerships_same = refl;
  distributions_same = refl;
  grows = λ k. omega arith;
}

pub Frame-trans : (u v w : World) → Frame u v → Frame v w → Frame u w
Frame-trans u v w h k = record {
  properties_same = k.properties_same ∙ h.properties_same;
  investors_same = k.investors_same ∙ h.investors_same;
  rows_same = k.rows_same ∙ h.rows_same;
  users_same = k.users_same ∙ h.users_same;
  ownerships_same = k.ownerships_same ∙ h.ownerships_same;
  distributions_same = k.distributions_same ∙ h.distributions_same;
  grows = λ i. omega (arith, h.grows i, k.grows i);
}

-- A recorded payout is raised, and the others stay.
already-raise_payout :
    (k : ℕ × Address) (d : ℕ) (x : Share) (rows : List PayoutRow)
    → already_wei k (raise_payout (d, x.investor) x rows) ≡ (
        if pair_beq k (d, x.investor)
        then (elim (find payout_key k rows) [ none ↦ 0 | some _ ↦ x.payout_wei ])
        else already_wei k rows)
unfolding already_wei raise_payout find
already-raise_payout (i, a) d x [] = ground arith
already-raise_payout (i, a) d x (r ∷ rs) = ground (arith, already-raise_payout (i, a) d x rs)

pub already-record_payout :
    (p : ℕ) (d : DistributionRow) (x : Share) (s : Store) (k : ℕ × Address)
    → already_wei k (record_payout p d x s).payouts
      ≡ (if pair_beq k (d.id, x.investor) then x.payout_wei else already_wei k s.payouts)
already-record_payout p d x s (i, a) =
    elim (Option-cases (find payout_key (d.id, x.investor) s.payouts)) [
      | inl e ↦
          unfold record_payout insert_payout missed_row already_wei in
          ground (
            arith,
            e,
            find-upsert payout_key (λ r. r) (missed_row p d x) (i, a) s.payouts (λ r. refl),
          )
      | inr (r, e) ↦
          unfold record_payout already_wei in
          ground (arith, e, already-raise_payout (i, a) d.id x s.payouts)
    ]

record_payout_rest :
    (p : ℕ) (d : DistributionRow) (x : Share) (s : Store)
    → let s' = record_payout p d x s in
      (s'.properties ≡ s.properties)
      × (s'.users ≡ s.users)
      × (s'.ownerships ≡ s.ownerships)
      × (s'.distributions ≡ s.distributions)
unfolding record_payout insert_payout
record_payout_rest p d x s = ground arith

module _ (rpc : Rpc) (sure : rpc.supports_accrue ≡ true) (p : ℕ) (filter : List Address) where
  record_grows :
      (d : DistributionRow) (x : Share) (w : World)
      → already_wei (d.id, x.investor) w.store.payouts ≤ x.payout_wei
      → (k : ℕ × Address)
      → already_wei k w.store.payouts ≤ already_wei k (record_payout p d x w.store).payouts
  record_grows d x w h (i, a) = ground (arith, h, already-record_payout p d x w.store (i, a))

  Entry-Frame :
      (d : DistributionRow) (x : Share) (w : World) (r : Option (List Credit) × World)
      → Entry rpc sure p filter d x w r
      → Frame w r.1
  Entry-Frame d x w _ (Entry.skips e) = Frame-refl w
  Entry-Frame d x w _ (Entry.fails e) = Frame-refl w
  Entry-Frame d x w _ (Entry.credits w' e s k) =
      let (a, b, f, g) = record_payout_rest p d x w.store in
      record {
        properties_same = rw k refl;
        investors_same = rw k refl;
        rows_same = rw s a;
        users_same = rw s b;
        ownerships_same = rw s f;
        distributions_same = rw s g;
        grows = λ i. rw s (record_grows d x w (ground (arith, e)) i);
      }

  pub then_more-Frame :
      (w : World) (r : Option (List Credit) × World) (rest : World → Option (List Credit) × World)
      → Frame w r.1
      → ((u : World) → Frame u (rest u).1)
      → Frame w (then_more r rest).1
  then_more-Frame w (none, u) rest h k = h
  then_more-Frame w (some done, u) rest h k = Frame-trans w u (rest u).1 h (k u)

  pub entry-Frame :
      (d : DistributionRow) (x : Share) (w : World) → Frame w (backfill_entry rpc p filter d x w).1
  entry-Frame d x w = Entry-Frame d x w _ (entry_lem rpc sure p filter d x w)

  pub entries-Frame :
      (d : DistributionRow) (xs : List Share) (w : World)
      → Frame w (backfill_entries rpc p filter d xs w).1
  unfolding backfill_entries
  entries-Frame d [] w = Frame-refl w
  entries-Frame d (x ∷ xs) w =
      then_more-Frame w (backfill_entry rpc p filter d x w) (backfill_entries rpc p filter d xs)
        (entry-Frame d x w) (entries-Frame d xs)

-- A breakdown is the same in a later world.
pub breakdown-Frame :
    (c : Chain) (rpc : Rpc) (p rent : ℕ) (w w' : World)
    → Frame w w'
    → breakdown c rpc p rent w' ≡ breakdown c rpc p rent w
breakdown-Frame c rpc p rent w w' h =
    unfold breakdown get_rent_distribution_breakdown build_rent_distribution_preview_from_db in
    rw (same_chain, h.rows_same, h.users_same, h.ownerships_same) refl
  where
    same_answer :
        (q r : ℕ)
        → calculate_distribution c w'.contract q r ≡ calculate_distribution c w.contract q r
    same_answer q r =
        unfold calculate_distribution in
        ap₂
          (λ ps ws.
            calculate_distribution c (record w.contract { properties = ps; investors = ws }) q r)
          h.properties_same h.investors_same

    same_chain : seen c rpc w'.contract ≡ seen c rpc w.contract
    same_chain =
        unfold seen in
        ap (λ (f : ℕ → ℕ → Option (List ChainShare)). record c { calculate_distribution = f })
          (fun_ext λ q. fun_ext λ r. rw (same_answer q r) refl)
