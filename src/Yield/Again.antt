-- ===== src/Yield/Again.antt =====
-- A second run of `backfill_missed_rent_accruals`.
use web3_real_estate.Base.{
  ℕ, ◌≡◌, refl, sym, ap, ◌∙◌, true, ◌&&◌, eqb, Option, none, some, List, [], ◌∷◌, arith, Bool-cases,
  Option-cases, inl, inr, ◌⊎◌,
}
use web3_real_estate.Indexer.Rows.{Address, DistributionRow}
use web3_real_estate.Indexer.Chain.{Chain}
use web3_real_estate.Indexer.Payouts.{Share}
use web3_real_estate.Yield.{Rpc, World, is_active, get_rent_property_info}
use web3_real_estate.Yield.Backfill.{
  Credit, backfill_entry, then_more, backfill_entries, backfill_distribution,
  backfill_distributions, distributions_of, backfill_missed_rent_accruals, breakdown,
}
use web3_real_estate.Yield.Accruals.{Entry, entry_lem, skipped}
use web3_real_estate.Yield.Frame.{
  Frame, Frame-refl, entries-Frame, breakdown-Frame, already-record_payout, then_more-Frame,
}

module _ (rpc : Rpc) (sure : rpc.supports_accrue ≡ true) (p : ℕ) (filter : List Address) where
  -- Every entry would be passed over.
  abbrev pub Settled : DistributionRow → List Share → World → Type 0
  Settled d [] w = Unit {0}
  Settled d (x ∷ xs) w = (skipped rpc sure p filter d x w ≡ true) × Settled d xs w

  skipped-Frame :
      (d : DistributionRow) (x : Share) (w w' : World)
      → Frame w w'
      → skipped rpc sure p filter d x w ≡ true
      → skipped rpc sure p filter d x w' ≡ true
  skipped-Frame d x w w' h e = ground (arith, e, h.grows (d.id, x.investor))

  Settled-Frame :
      (d : DistributionRow) (xs : List Share) (w w' : World)
      → Frame w w'
      → Settled d xs w
      → Settled d xs w'
  Settled-Frame d [] w w' h e = tt
  Settled-Frame d (x ∷ xs) w w' h e = (skipped-Frame d x w w' h e.0, Settled-Frame d xs w w' h e.1)

  -- The world after a call that returns has the property.
  abbrev Leaves : (World → Type 0) → Option (List Credit) × World → Type 0
  Leaves P r = (cs : List Credit) → r.0 ≡ some cs → P r.1

  Entry-skipped :
      (d : DistributionRow) (x : Share) (w : World) (r : Option (List Credit) × World)
      → Entry rpc sure p filter d x w r
      → Leaves (λ u. skipped rpc sure p filter d x u ≡ true) r
  Entry-skipped d x w _ (Entry.skips e) cs h = e
  Entry-skipped d x w _ (Entry.fails e) cs h = absurd (ground (arith, h))
  Entry-skipped d x w _ (Entry.credits w' e s k) cs h =
      ground (arith, s, already-record_payout p d x w.store (d.id, x.investor))

  then_more-Leaves :
      (P Q : World → Type 0) (r : Option (List Credit) × World)
      (rest : World → Option (List Credit) × World)
      → Leaves P r
      → ((u : World) → P u → P (rest u).1)
      → ((u : World) → Leaves Q (rest u))
      → Leaves (λ u. P u × Q u) (then_more r rest)
  then_more-Leaves P Q (none, u) rest h k l cs e = absurd (ground (arith, e))
  then_more-Leaves P Q (some done, u) rest h k l cs e = elim (Option-cases (rest u).0) [
    | inl n ↦ absurd (ground (arith, e, n))
    | inr (more, n) ↦ (k u (h done refl), l u more n)
  ]

  entries-Settled :
      (d : DistributionRow) (xs : List Share) (w : World)
      → Leaves (Settled d xs) (backfill_entries rpc p filter d xs w)
  unfolding backfill_entries
  entries-Settled d [] w = λ cs e. tt
  entries-Settled d (x ∷ xs) w =
      then_more-Leaves (λ u. skipped rpc sure p filter d x u ≡ true) (Settled d xs)
        (backfill_entry rpc p filter d x w) (backfill_entries rpc p filter d xs)
        (Entry-skipped d x w _ (entry_lem rpc sure p filter d x w))
        (λ u h. skipped-Frame d x u _ (entries-Frame rpc sure p filter d xs u) h)
        (entries-Settled d xs)

  entries_again :
      (d : DistributionRow) (xs : List Share) (w : World)
      → Settled d xs w
      → backfill_entries rpc p filter d xs w ≡ (some [], w)
  unfolding backfill_entries backfill_entry
  entries_again d [] w h = refl
  entries_again d (x ∷ xs) w h = rw (h.0) (rw (entries_again d xs w h.1) refl)

  -- A distribution of which nothing is missing.
  abbrev Complete : Chain → DistributionRow → World → Type 0
  Complete c d w =
      (eqb d.total_rent_collected 0 ≡ true)
      ⊎ Settled d (breakdown c rpc p d.total_rent_collected w) w

  Complete-Frame :
      (c : Chain) (d : DistributionRow) (w w' : World)
      → Frame w w'
      → Complete c d w
      → Complete c d w'
  Complete-Frame c d w w' h (inl e) = inl e
  Complete-Frame c d w w' h (inr e) =
      inr (rw (breakdown-Frame c rpc p d.total_rent_collected w w' h) (Settled-Frame d _ w w' h e))

  distribution-Frame :
      (c : Chain) (d : DistributionRow) (w : World)
      → Frame w (backfill_distribution c rpc p filter d w).1
  unfolding backfill_distribution
  distribution-Frame c d w = elim (Bool-cases (eqb d.total_rent_collected 0)) [
    | inl e ↦ rw e (Frame-refl w)
    | inr e ↦
        rw e (entries-Frame rpc sure p filter d (breakdown c rpc p d.total_rent_collected w) w)
  ]

  distribution-Complete :
      (c : Chain) (d : DistributionRow) (w : World)
      → Leaves (Complete c d) (backfill_distribution c rpc p filter d w)
  distribution-Complete c d w cs h = elim (Bool-cases (eqb d.total_rent_collected 0)) [
    | inl e ↦ inl e
    | inr e ↦
        let xs = breakdown c rpc p d.total_rent_collected w in
        let f : backfill_distribution c rpc p filter d w ≡ backfill_entries rpc p filter d xs w =
          unfold backfill_distribution in rw e refl in
        let g : (backfill_entries rpc p filter d xs w).0 ≡ some cs = rw (← f) h in
        inr (
          rw
            (
              f,
              breakdown-Frame c rpc p d.total_rent_collected w _
                  (entries-Frame rpc sure p filter d xs w),
            )
            (entries-Settled d xs w cs g))
  ]

  abbrev AllComplete : Chain → List DistributionRow → World → Type 0
  AllComplete c [] w = Unit {0}
  AllComplete c (d ∷ ds) w = Complete c d w × AllComplete c ds w

  pub distributions-Frame :
      (c : Chain) (ds : List DistributionRow) (w : World)
      → Frame w (backfill_distributions c rpc p filter ds w).1
  unfolding backfill_distributions
  distributions-Frame c [] w = Frame-refl w
  distributions-Frame c (d ∷ ds) w =
      then_more-Frame rpc sure p filter w (backfill_distribution c rpc p filter d w)
        (backfill_distributions c rpc p filter ds) (distribution-Frame c d w)
        (distributions-Frame c ds)

  distributions-Complete :
      (c : Chain) (ds : List DistributionRow) (w : World)
      → Leaves (AllComplete c ds) (backfill_distributions c rpc p filter ds w)
  unfolding backfill_distributions
  distributions-Complete c [] w = λ cs e. tt
  distributions-Complete c (d ∷ ds) w =
      then_more-Leaves (Complete c d) (AllComplete c ds) (backfill_distribution c rpc p filter d w)
        (backfill_distributions c rpc p filter ds) (distribution-Complete c d w)
        (λ u h. Complete-Frame c d u _ (distributions-Frame c ds u) h) (distributions-Complete c ds)

  distribution_again :
      (c : Chain) (d : DistributionRow) (w : World)
      → Complete c d w
      → backfill_distribution c rpc p filter d w ≡ (some [], w)
  unfolding backfill_distribution
  distribution_again c d w (inl e) = rw e refl
  distribution_again c d w (inr h) = elim (Bool-cases (eqb d.total_rent_collected 0)) [
    | inl e ↦ rw e refl
    | inr e ↦ rw e (entries_again d (breakdown c rpc p d.total_rent_collected w) w h)
  ]

  distributions_again :
      (c : Chain) (ds : List DistributionRow) (w : World)
      → AllComplete c ds w
      → backfill_distributions c rpc p filter ds w ≡ (some [], w)
  unfolding backfill_distributions
  distributions_again c [] w h = refl
  distributions_again c (d ∷ ds) w h =
      rw (distribution_again c d w h.0) (rw (distributions_again c ds w h.1) refl)

  -- Where the contract can accrue, after a backfill of missed rent that returned the same backfill
  -- finds nothing to credit: it returns no credit and changes neither the database nor the contract.
  pub backfill_missed_rent_accruals_again :
      (c : Chain) (w w' : World) (cs : List Credit)
      → backfill_missed_rent_accruals c rpc p filter w ≡ (some cs, w')
      → backfill_missed_rent_accruals c rpc p filter w' ≡ (some [], w')
  backfill_missed_rent_accruals_again c w w' cs h =
      elim (Bool-cases (rpc.supports_accrue && is_active (get_rent_property_info rpc p w))) [
        | inl e ↦
            let ds = distributions_of p w.store.distributions in
            let f : backfill_missed_rent_accruals c rpc p filter w
                ≡ backfill_distributions c rpc p filter ds w =
              unfold backfill_missed_rent_accruals in rw e refl in
            let g : backfill_distributions c rpc p filter ds w ≡ (some cs, w') = sym f ∙ h in
            let at_end : (backfill_distributions c rpc p filter ds w).1 ≡ w' = ap (λ r. r.1) g in
            let frame : Frame w w' = rw (← at_end) (distributions-Frame c ds w) in
            let done : AllComplete c ds w' =
              rw (← at_end) (distributions-Complete c ds w cs (ap (λ r. r.0) g)) in
            let e' : (rpc.supports_accrue && is_active (get_rent_property_info rpc p w')) ≡ true =
              unfold get_rent_property_info in rw (frame.properties_same) e in
            let list : distributions_of p w'.store.distributions ≡ ds =
              ap (distributions_of p) frame.distributions_same in
            let nothing : backfill_distributions c rpc p filter
                  (distributions_of p w'.store.distributions) w'
                ≡ (some [], w') =
              ap (λ l. backfill_distributions c rpc p filter l w') list
              ∙ distributions_again c ds w' done in
            unfold backfill_missed_rent_accruals in rw e' nothing
        | inr e ↦
            let f : backfill_missed_rent_accruals c rpc p filter w ≡ (some [], w) =
              unfold backfill_missed_rent_accruals in rw e refl in
            let same : w ≡ w' = ap (λ r. r.1) (sym f ∙ h) in rw (← same) f
      ]
