-- ===== src/Indexer/Logs/Complete.antt =====
-- What a scan of the logs finds, against the logs that each block has.
use web3_real_estate.Base.{
  ℕ, zero, suc, ◌+◌, ◌-◌, ◌/◌, ◌≤◌, ◌<◌, ◌≡◌, ◌≢◌, ◌⊎◌, refl, ap, List, [], ◌++◌, inl, inr, false,
  ok, arith, ltb,
}
use mathlib.Core.List.{append_assoc}
use web3_real_estate.Indexer.Rows.{TxHash}
use web3_real_estate.Indexer.Logs.{
  Query, LogError, Scan, got, split, gave_up, after_error, scan, fetch, fetch_event_logs,
  log_scan_retries,
}

-- The logs of `n` blocks from `start` on.
abbrev pub window : (ℕ → List TxHash) → ℕ → ℕ → List TxHash
window logs zero start = []
window logs (suc n) start = logs start ++ window logs n (start + 1)

-- The logs of the blocks `start` to `stop`, both included.
abbrev pub between : (ℕ → List TxHash) → ℕ → ℕ → List TxHash
between logs start stop = window logs (stop + 1 - start) start

window-append :
    (logs : ℕ → List TxHash) (m n start : ℕ)
    → window logs (m + n) start ≡ window logs m start ++ window logs n (start + m)
window-append logs zero n start =
    let e : start + 0 ≡ start = omega arith in let e' : 0 + n ≡ n = omega arith in rw (e, e') refl
window-append logs (suc m) n start =
    let e : suc m + n ≡ suc (m + n) = omega arith in
    let e' : start + suc m ≡ start + 1 + m = omega arith in
    rw (e, e', window-append logs m n (start + 1), append_assoc) refl

between-append :
    (logs : ℕ → List TxHash) (start mid stop : ℕ)
    → start ≤ mid
    → mid < stop
    → between logs start mid ++ between logs (mid + 1) stop ≡ between logs start stop
between-append logs start mid stop h k =
    let e : stop + 1 - start ≡ (mid + 1 - start) + (stop + 1 - (mid + 1)) = omega arith in
    let e' : mid + 1 ≡ start + (mid + 1 - start) = omega arith in
    rw (e, window-append logs (mid + 1 - start) (stop + 1 - (mid + 1)) start)
      (ap (λ t. window logs (mid + 1 - start) start ++ window logs (stop + 1 - (mid + 1)) t) e')

-- A split is only made of a window of two blocks or more.
after_error_split :
    (e : LogError) (start stop : ℕ) (next : Scan)
    → after_error e start stop next ≡ split
    → (next ≡ split → start < stop)
    → start < stop
unfolding after_error
after_error_split e start stop next h k = ground (arith, k)

scan_split :
    (q : Query) (left attempt start stop : ℕ)
    → scan q left attempt start stop ≡ split
    → start < stop
unfolding scan after_error
scan_split q zero attempt start stop h = ground arith
scan_split q (suc left) attempt start stop h =
    ground (arith, scan_split q left (attempt + 1) start stop)

module _ (q : Query) (logs : ℕ → List TxHash) where
  -- An answer holds the logs of its window.
  abbrev pub IsHonest : Type 0
  IsHonest =
      (a start stop : ℕ) (l : List TxHash)
      → start ≤ stop
      → q a start stop ≡ ok l
      → l ≡ between logs start stop

  -- No window is given up.
  abbrev pub IsResponsive : Type 0
  IsResponsive = (start stop : ℕ) → start ≤ stop → scan q log_scan_retries 0 start stop ≢ gave_up

  scan_got :
      IsHonest
      → (left attempt start stop : ℕ) (l : List TxHash) → start ≤ stop
      → scan q left attempt start stop ≡ got l
      → l ≡ between logs start stop
  unfolding scan after_error
  scan_got honest zero attempt start stop l h e = ground (arith, honest attempt start stop l h)
  scan_got honest (suc left) attempt start stop l h e =
      ground
        (arith, honest attempt start stop l h, scan_got honest left (attempt + 1) start stop l h)

  Scan-cases : (r : Scan) → ((l : List TxHash) × (r ≡ got l)) ⊎ (r ≡ split) ⊎ (r ≡ gave_up)
  Scan-cases (got l) = inl (l, refl)
  Scan-cases split = inr (inl refl)
  Scan-cases gave_up = inr (inr refl)

  fetch_complete :
      IsHonest
      → IsResponsive
      → (fuel start stop : ℕ) → start ≤ stop
      → stop - start < fuel
      → fetch fuel q start stop ≡ between logs start stop
  unfolding fetch
  fetch_complete honest responsive zero start stop h k = absurd (omega arith)
  fetch_complete honest responsive (suc fuel) start stop h k =
      let mid = (start + stop) / 2 in
      let forward : ltb stop start ≡ false = ground arith in
      elim (Scan-cases (scan q log_scan_retries 0 start stop)) [
        | inl (l, e) ↦ rw (forward, e) (scan_got honest log_scan_retries 0 start stop l h e)
        | inr (inl e) ↦
            let wide : start < stop = scan_split q log_scan_retries 0 start stop e in
            rw
              (
                forward,
                e,
                fetch_complete honest responsive fuel start mid (omega arith) (omega arith),
                fetch_complete honest responsive fuel (mid + 1) stop (omega arith) (omega arith),
              )
              (between-append logs start mid stop (omega arith) (omega arith))
        | inr (inr e) ↦ absurd (responsive start stop h e)
      ]

  -- If the provider answers honestly and gives up on no window, the scan of a window that is not
  -- empty returns exactly the logs of its blocks, in order, however often it is split.
  pub fetch_event_logs_complete :
      IsHonest
      → IsResponsive
      → (start stop : ℕ) → start ≤ stop
      → fetch_event_logs q start stop ≡ between logs start stop
  unfolding fetch_event_logs
  fetch_event_logs_complete honest responsive start stop h =
      fetch_complete honest responsive (suc (stop - start)) start stop h (omega arith)
