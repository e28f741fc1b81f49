-- ===== src/Perm/Params/Step.antt =====
-- The step found is the greatest that fits, and passes the checks of the constructor.
use pq_psi.Base.{
  ℕ, zero, suc, ◌+◌, ◌-◌, ◌*◌, ◌%◌, ◌^◌, ◌≤◌, ◌<◌, ◌≡◌, false, refl, sym, ◌∙◌, arith, ◌⊎◌, inl, inr,
  Bool-cases, ◌&&◌, ◌==◌, leb, ok, err, invalid_argument, >>=-eq-ok, ok-injective,
}
use pq_psi.Perm.Params.{Kind, Params, width_of, best_loop, best_step, defaults, check_params}

-- A step of at most `small` bits divides the gap and leaves the security margin on both sides.
pub record IsStep (small gap min_gap s : ℕ) : Type 0 where
  pub pos : 0 < s
  pub inside : s ≤ small
  pub divides : gap % s ≡ 0
  pub margin : min_gap ≤ s
  pub rest : min_gap ≤ small - s

-- `best` is the greatest step below `s`, or 0 where there is none.
record IsBest (small gap min_gap s best : ℕ) : Type 0 where
  pub found : (best ≡ 0) ⊎ IsStep small gap min_gap best
  pub greatest : (t : ℕ) → t < s → IsStep small gap min_gap t → t ≤ best

best_loop-IsBest :
    (rounds s small gap min_gap best : ℕ)
    → 0 < s
    → s + rounds ≡ small + 1
    → best < s
    → IsBest small gap min_gap s best
    → IsBest small gap min_gap (small + 1) (best_loop rounds s small gap min_gap best)
unfolding best_loop
best_loop-IsBest zero s small gap min_gap best pos e l b =
    let same : s ≡ small + 1 = omega arith in rw same at b
best_loop-IsBest (suc rounds) s small gap min_gap best pos e l b =
    elim (Bool-cases (gap % s == 0 && (leb min_gap s && leb min_gap (small - s)))) [
      | inl fits ↦ rw fits (
          best_loop-IsBest rounds (s + 1) small gap min_gap s (omega arith) (omega arith)
            (omega arith)
            (record {
              found = inr (record {
                pos = pos;
                inside = omega arith;
                divides = ground arith;
                margin = ground arith;
                rest = ground arith;
              });
              greatest = λ t h step. omega arith;
            }))
      | inr other ↦ rw other (
          best_loop-IsBest rounds (s + 1) small gap min_gap best (omega arith) (omega arith)
            (omega arith)
            (record {
              found = b.found;
              greatest = λ t h step. elim (Bool-cases (t == s)) [
                | inl here ↦
                    let same : t ≡ s = ground arith in
                    let step' = rw same at step in
                    absurd (ground (arith, step'.divides, step'.margin, step'.rest))
                | inr before ↦ b.greatest t (ground arith) step
              ];
            }))
    ]

-- The search, with the margin that the code computes.
best_step-greatest_word :
    (small total lambda : ℕ)
    → small < total
    → ((s : ℕ) × (best_step small total lambda ≡ ok s)
        × IsStep small (total - small) (2 * lambda % 2 ^ 64) s
        × ((t : ℕ) → IsStep small (total - small) (2 * lambda % 2 ^ 64) t → t ≤ s))
      ⊎ ((best_step small total lambda
            ≡ err (invalid_argument "no valid Pi step for this small permutation"))
          × ((t : ℕ) → IsStep small (total - small) (2 * lambda % 2 ^ 64) t → ⊥))
unfolding best_step
best_step-greatest_word small total lambda h =
    let best = best_loop small 1 small (total - small) (2 * lambda % 2 ^ 64) 0 in
    let b =
      best_loop-IsBest small 1 small (total - small) (2 * lambda % 2 ^ 64) 0 (omega arith)
        (omega arith) (omega arith)
        (record { found = inl refl; greatest = λ t l step. omega arith }) in
    let wide : leb total small ≡ false = ground arith in
    elim (Bool-cases (best == 0)) [
      | inl none ↦ inr (
        rw (wide, none) refl,
        λ t step. absurd (ground (arith, b.greatest t (omega (arith, step.inside)) step, step.pos)),
      )
      | inr some ↦ inl (
        best,
        rw (wide, some) refl,
        elim b.found [ inl e ↦ absurd (ground (arith, e)) | inr step ↦ step ],
        λ t step. b.greatest t (omega (arith, step.inside)) step,
      )
    ]

-- For a state wider than the small permutation and a security level below 2^63, the search returns
-- the greatest step that divides the difference and leaves twice the security level on both sides,
-- or it reports that there is no such step.
pub best_step-greatest :
    (small total lambda : ℕ)
    → small < total
    → lambda < 2 ^ 63
    → ((s : ℕ) × (best_step small total lambda ≡ ok s)
        × IsStep small (total - small) (2 * lambda) s
        × ((t : ℕ) → IsStep small (total - small) (2 * lambda) t → t ≤ s))
      ⊎ ((best_step small total lambda
            ≡ err (invalid_argument "no valid Pi step for this small permutation"))
          × ((t : ℕ) → IsStep small (total - small) (2 * lambda) t → ⊥))
best_step-greatest small total lambda h low =
    let exact : 2 * lambda % 2 ^ 64 ≡ 2 * lambda = omega arith in
    rw exact at (best_step-greatest_word small total lambda h)

IsStep-defaults :
    (small total lambda s : ℕ)
    → best_step small total lambda ≡ ok s
    → (small < total) × IsStep small (total - small) (2 * lambda % 2 ^ 64) s
unfolding best_step
IsStep-defaults small total lambda s h = elim (Bool-cases (leb total small)) [
  | inl narrow ↦ cc (rw narrow at h)
  | inr wide ↦ elim (best_step-greatest_word small total lambda (ground arith)) [
    | inl (t, e, step, rest) ↦
        (ground arith, let same : t ≡ s = ok-injective (sym e ∙ h) in rw same at step)
    | inr (e, rest) ↦ cc (sym e ∙ h)
  ]
]

-- Default parameters, when there are any for a state width and a security level, pass the checks
-- of the constructor on a small permutation of their kind.
pub defaults-check_params :
    (kind : Kind) (total lambda : ℕ) (p : Params)
    → defaults kind total lambda ≡ ok p
    → check_params (width_of kind) p ≡ ok tt
unfolding defaults check_params
defaults-check_params kind total lambda p h =
    let (s, e, made) = >>=-eq-ok (best_step (width_of kind) total lambda) _ h in
    let (wide, step) = IsStep-defaults (width_of kind) total lambda s e in
    rw (← ok-injective made)
      (ground (arith, step.pos, step.inside, step.divides, step.margin, step.rest))
