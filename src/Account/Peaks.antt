-- ===== src/Account/Peaks.antt =====
-- The peaks of src/tiller/risk/account.py: they bound every adjusted point of their window, and a
-- deposit moves nothing.
use agent_trading.Base.{
  ℕ, true, ◌≡◌, inl, inr, subst, none, List, [], ◌∷◌, arith, All, leb, Bool-cases, if◌then◌else◌,
}
use agent_trading.Decimal.{DecimalOps}
use agent_trading.Decimal.Laws.{DecimalLaws, Le, max-ge_left, max-ge_right}
use agent_trading.Account.{
  EquityPoint, PeakState, adjusted, within, peak_step, peaks_from, insert_point, sort_points,
  deposit_adjusted_peaks, days_7, days_30,
}

module _ (D : DecimalOps) (L : DecimalLaws D) where
  open D use {Num}

  -- The state only rises, and after a point of a window is above it.
  abbrev Above : PeakState D → PeakState D → Type 0
  Above t s = Le D s.peak_7 t.peak_7 × Le D s.peak_30 t.peak_30

  peak_step-Above :
      (dep : Num) (now : ℕ) (p : EquityPoint Num) (s : PeakState D)
      → Above (peak_step D dep now p s) s
  peak_step-Above dep now p s =
      let a = adjusted D dep p in
      let up7 = max-ge_left D L s.peak_7 a in
      let up30 = max-ge_left D L s.peak_30 a in
      ground (arith, up7, up30, L.leb_refl s.peak_7, L.leb_refl s.peak_30)

  Above-trans : (u t s : PeakState D) → Above u t → Above t s → Above u s
  Above-trans u t s h k = (
    L.leb_trans s.peak_7 t.peak_7 u.peak_7 k.0 h.0,
    L.leb_trans s.peak_30 t.peak_30 u.peak_30 k.1 h.1,
  )

  peaks_from-Above :
      (dep : Num) (now : ℕ) (ps : List (EquityPoint Num)) (s : PeakState D)
      → Above (peaks_from D dep now ps s) s
  unfolding peaks_from
  peaks_from-Above dep now [] s = (L.leb_refl s.peak_7, L.leb_refl s.peak_30)
  peaks_from-Above dep now (p ∷ ps) s =
      Above-trans (peaks_from D dep now (p ∷ ps) s) (peak_step D dep now p s) s
        (peaks_from-Above dep now ps (peak_step D dep now p s)) (peak_step-Above dep now p s)

  -- A point is under the peaks of the windows that it lies in.
  abbrev pub Under : Num → ℕ → Num → Num → EquityPoint Num → Type 0
  Under dep now peak_7 peak_30 p =
      (within now p.ts days_7 ≡ true → Le D (adjusted D dep p) peak_7)
      × (within now p.ts days_30 ≡ true → Le D (adjusted D dep p) peak_30)

  peak_step-Under :
      (dep : Num) (now : ℕ) (p : EquityPoint Num) (s : PeakState D)
      → Under dep now (peak_step D dep now p s).peak_7 (peak_step D dep now p s).peak_30 p
  peak_step-Under dep now p s =
      let a = adjusted D dep p in
      ((λ e. rw e (max-ge_right D L s.peak_7 a)), (λ e. rw e (max-ge_right D L s.peak_30 a)))

  peaks_from-Under :
      (dep : Num) (now : ℕ) (ps : List (EquityPoint Num)) (s : PeakState D)
      → let t = peaks_from D dep now ps s in All (Under dep now t.peak_7 t.peak_30) ps
  unfolding peaks_from
  peaks_from-Under dep now [] s = tt
  peaks_from-Under dep now (p ∷ ps) s =
      let s' = peak_step D dep now p s in
      let up = peaks_from-Above dep now ps s' in
      let here = peak_step-Under dep now p s in
      let a = adjusted D dep p in
      let t = peaks_from D dep now ps s' in
      (
        (
          (λ e. L.leb_trans a s'.peak_7 t.peak_7 (here.0 e) up.0),
          (λ e. L.leb_trans a s'.peak_30 t.peak_30 (here.1 e) up.1),
        ),
        peaks_from-Under dep now ps s',
      )

  All-insert_point :
      (P : EquityPoint Num → Type 0) (p : EquityPoint Num) (ps : List (EquityPoint Num))
      → All P (insert_point D p ps)
      → P p × All P ps
  unfolding insert_point
  All-insert_point P p [] h = h
  All-insert_point P p (q ∷ ps) h = elim (Bool-cases (leb p.ts q.ts)) [
    | inl e ↦ subst (λ b. All P (if b then p ∷ q ∷ ps else q ∷ insert_point D p ps)) e h
    | inr e ↦
        let h' = subst (λ b. All P (if b then p ∷ q ∷ ps else q ∷ insert_point D p ps)) e h in
        let (hp, hps) = All-insert_point P p ps h'.1 in (hp, (h'.0, hps))
  ]

  All-sort_points :
      (P : EquityPoint Num → Type 0) (ps : List (EquityPoint Num))
      → All P (sort_points D ps)
      → All P ps
  unfolding sort_points
  All-sort_points P [] h = tt
  All-sort_points P (p ∷ ps) h =
      let (hp, hps) = All-insert_point P p (sort_points D ps) h in (hp, All-sort_points P ps hps)

  -- The peaks are at least the current equity and at least every deposit-adjusted equity of their
  -- window, whatever order the points come in.
  pub deposit_adjusted_peaks-bound :
      (points : List (EquityPoint Num)) (now_equity now_deposits : Num) (now : ℕ)
      → let (peak_7, peak_30, _) = deposit_adjusted_peaks D points now_equity now_deposits now in
        Le D now_equity peak_7
        × Le D now_equity peak_30
        × All (Under now_deposits now peak_7 peak_30) points
  unfolding deposit_adjusted_peaks
  deposit_adjusted_peaks-bound points now_equity now_deposits now =
      let start : PeakState D = record {
        peak_7 = now_equity;
        peak_30 = now_equity;
        first_7 = none;
      } in
      let t = peaks_from D now_deposits now (sort_points D points) start in
      let above = peaks_from-Above now_deposits now (sort_points D points) start in
      (
        above.0,
        above.1,
        All-sort_points (Under now_deposits now t.peak_7 t.peak_30) points
            (peaks_from-Under now_deposits now (sort_points D points) start),
      )
