-- ===== src/Simulator/Scenario/Laws.antt =====
-- internal/simulator/scenario.go: the range of the utilizations.
use aegis_llm_control_plane.Base.{
  ◌≡◌, ◌⊎◌, inl, inr, refl, Bool, true, false, ◌||◌, ◌&&◌, ◌==◌, ok, err, Bool-cases,
}
use aegis_llm_control_plane.Base.Int.{ℤ, pos, lt_int, le_int}
use aegis_llm_control_plane.Base.Float.{Float64, IsIeee}
use aegis_llm_control_plane.Errors.{unknown_scenario}
use aegis_llm_control_plane.Cluster.Validation.{out_of_range}
use aegis_llm_control_plane.Cluster.Validation.Range.{clamped_in_range}
use aegis_llm_control_plane.Simulator.Scenario.{
  Scenario, Utilization, scenario_steady, scenario_rising_pressure, scenario_burst,
  scenario_distribution_shift, clamp_utilization, clamped, steady_utilization,
  rising_pressure_utilization, burst_utilization, distribution_shift_utilization, utilization,
}

abbrev pub is_known : Scenario → Bool
is_known s =
    s == scenario_steady
    || s == scenario_rising_pressure
    || s == scenario_burst
    || s == scenario_distribution_shift

module _ {F : Type 0} ⦃fl : Float64 F⦄ where
  abbrev pub InRange : Utilization F → Type 0
  InRange u = (out_of_range u.compute ≡ false) × (out_of_range u.memory ≡ false)

  clamped-InRange : IsIeee F → (c m : F) → InRange (clamped c m)
  unfolding clamp_utilization
  clamped-InRange laws c m = (clamped_in_range laws c, clamped_in_range laws m)

  shift-InRange :
      (laws : IsIeee F) (step i : ℤ) → InRange (distribution_shift_utilization {F = F} step i)
  unfolding distribution_shift_utilization
  shift-InRange laws step i = elim (Bool-cases (lt_int step (pos 8))) [
    | inl a ↦ rw a (clamped-InRange laws _ _)
    | inr a ↦ rw a (elim (Bool-cases (lt_int step (pos 11))) [
      | inl b ↦ rw b (clamped-InRange laws _ _)
      | inr b ↦ rw b (clamped-InRange laws _ _)
    ])
  ]

  burst-InRange : (laws : IsIeee F) (step i : ℤ) → InRange (burst_utilization {F = F} step i)
  unfolding burst_utilization
  burst-InRange laws step i = elim (Bool-cases (le_int (pos 6) step && le_int step (pos 8))) [
    | inl a ↦ rw a (clamped-InRange laws _ _)
    | inr a ↦ rw a (clamped-InRange laws _ _)
  ]

  -- The four known scenarios give every worker at every step, negative and overflowing arguments
  -- included, a utilization that passes the store's range tests; any other scenario is refused.
  pub utilization_total :
      (laws : IsIeee F) (s : Scenario) (step i : ℤ)
      → ((u : Utilization F) × ((utilization s step i ≡ ok u) × InRange u × (is_known s ≡ true)))
        ⊎ ((utilization {F = F} s step i ≡ err (unknown_scenario s)) × (is_known s ≡ false))
  unfolding utilization steady_utilization rising_pressure_utilization
  utilization_total laws s step i = elim (Bool-cases (s == scenario_steady)) [
    | inl a ↦ inl (steady_utilization i, (rw a refl, clamped-InRange laws _ _, rw a refl))
    | inr a ↦ elim (Bool-cases (s == scenario_rising_pressure)) [
      | inl b ↦ inl (
        rising_pressure_utilization step i,
        (rw (a, b) refl, clamped-InRange laws _ _, rw (a, b) refl),
      )
      | inr b ↦ elim (Bool-cases (s == scenario_burst)) [
        | inl c ↦ inl (
          burst_utilization step i,
          (rw (a, b, c) refl, burst-InRange laws step i, rw (a, b, c) refl),
        )
        | inr c ↦ elim (Bool-cases (s == scenario_distribution_shift)) [
          | inl d ↦ inl (
            distribution_shift_utilization step i,
            (rw (a, b, c, d) refl, shift-InRange laws step i, rw (a, b, c, d) refl),
          )
          | inr d ↦ inr (rw (a, b, c, d) refl, rw (a, b, c, d) refl)
        ]
      ]
    ]
  ]
